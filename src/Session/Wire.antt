-- ===== src/Session/Wire.antt =====
-- The structures of tcppart/CusInfo.h as the bytes that go over the connection: little endian, with
-- the padding of the x86-64 ABI. `sizeof(datauuid)` and `sizeof(fileheader)` are 40.
pub mod RoundTrip
use filedisk_server.Common.{
  ℕ, zero, suc, ◌+◌, ◌*◌, ◌/◌, ◌%◌, ◌^◌, Bool, true, false, not, List, [], ◌∷◌, ◌++◌, length, take,
  drop, ◌==◌, if◌then◌else◌,
}
use filedisk_server.Common.Int.{ℤ, signed32, signed64, bits}

-- The `w` low bytes of `n`, and the number of such bytes.
pub le_bytes : ℕ → ℕ → List ℕ
le_bytes zero n = []
le_bytes (suc w) n = (n % 256) ∷ le_bytes w (n / 256)

unfoldable pub from_le : List ℕ → ℕ
from_le [] = 0
from_le (b ∷ bs) = b + 256 * from_le bs

pub record DataUuid : Type 0 where
  pub uuid : List ℕ  -- char uuid[33]
  pub namelen : ℤ

pub record FileHeader : Type 0 where
  pub dirid : ℤ
  pub md5 : List ℕ  -- unsigned char md5[16]
  pub index : ℤ
  pub upload : Bool
  pub filelen : ℤ

-- `(datauuid *)buff`: the uuid at offset 0, `namelen` at 36.
unfoldable pub read_datauuid : List ℕ → DataUuid
unfolding from_le
read_datauuid buff = record {
  uuid = take 33 buff;
  namelen = signed32 (from_le (take 4 (drop 36 buff)));
}

-- `(fileheader *)fheaderinfo`: `dirid` at offset 0, `md5` at 8, `index` at 24, `upload` at 28 and
-- `filelen` at 32.
unfoldable pub read_fileheader : List ℕ → FileHeader
unfolding from_le
read_fileheader buff = record {
  dirid = signed64 (from_le (take 8 buff));
  md5 = take 16 (drop 8 buff);
  index = signed32 (from_le (take 4 (drop 24 buff)));
  upload = not (from_le (take 1 (drop 28 buff)) == 0);
  filelen = signed64 (from_le (take 8 (drop 32 buff)));
}

-- One byte: the structures `UserValidation`, `fileexists` and `fileerror` hold a `bool`.
unfoldable pub bool_bytes : Bool → List ℕ
bool_bytes b = (if b then 1 else 0) ∷ []

-- `(char *)&downfh`, with the three bytes of padding before `filelen`.
unfoldable pub fileheader_bytes : FileHeader → List ℕ → List ℕ
unfolding le_bytes bool_bytes
fileheader_bytes h padding =
    le_bytes 8 (bits (2 ^ 64) h.dirid)
    ++ (h.md5
        ++ (le_bytes 4 (bits (2 ^ 32) h.index)
            ++ (bool_bytes h.upload ++ (padding ++ le_bytes 8 (bits (2 ^ 64) h.filelen)))))
