-- ===== src/Session/FileTask/Tests.antt =====
-- The theorems on `FileTask` and on its structures at concrete inputs.
use filedisk_server.Common.{
  zero, suc, ◌≡◌, refl, true, Option, some, List, [], ◌∷◌, length, replicate, arith,
}
use filedisk_server.Common.Int.{ℤ, pos, negsuc}
use filedisk_server.Common.Text.{bytes_of, c_string, to_string, stoi}
use filedisk_server.Session.Wire.{FileHeader, read_fileheader, fileheader_bytes, bool_bytes}
use filedisk_server.Session.Wire.RoundTrip.{read_fileheader-bytes}
use filedisk_server.Session.Services.{Text, World, ok, fault, out_of_fuel, redis_error}
use filedisk_server.Session.Sample.{Peer, Disk, Cache, Table, sample, sample-WrongType, world}
use filedisk_server.Session.Values.{path_of, FileInfo}
use filedisk_server.Session.FileTask.{save_loop, save_file, upload, process}
use filedisk_server.Session.FileTask.Upload.{
  Ends, save_loop-Ends, save_loop-spins, Stores, save_file-Stores,
}
use filedisk_server.Session.FileTask.Access.{process-stranger, upload-locks}

-- An upload of three bytes whose checksum is 6.
abbrev header : FileHeader
header = record {
  dirid = pos 2;
  md5 = replicate 16 6;
  index = negsuc 0;
  upload = true;
  filelen = pos 3;
}

abbrev no_file : Option (List (List Text))
no_file = some ((bytes_of "0" ∷ []) ∷ [])

read_fileheader-bytes_example :
    (length (fileheader_bytes header (1 ∷ 2 ∷ 3 ∷ [])) ≡ 40)
    × (read_fileheader (fileheader_bytes header (1 ∷ 2 ∷ 3 ∷ [])) ≡ header)
read_fileheader-bytes_example =
    read_fileheader-bytes header (1 ∷ 2 ∷ 3 ∷ []) refl refl (omega arith) (omega arith)
      (omega arith)

-- The first piece is damaged, the second is right.
abbrev twice : World Peer Cache Table Disk
twice = world (9 ∷ 2 ∷ 3 ∷ 1 ∷ 2 ∷ 3 ∷ []) no_file

save_loop-Ends_example : Ends sample 5 header (0 ∷ 0 ∷ 0 ∷ []) twice
save_loop-Ends_example = save_loop-Ends sample 1 5 header (0 ∷ 0 ∷ 0 ∷ []) twice (omega arith) refl

-- The peer is gone.
save_loop-spins_example :
    (save_loop sample 100 header (0 ∷ 0 ∷ 0 ∷ []) (world [] no_file)).0 ≡ fault out_of_fuel
save_loop-spins_example =
    save_loop-spins sample (λ c. c.incoming ≡ []) gone_receives (λ c msg n e. e) 100 header
      (0 ∷ 0 ∷ 0 ∷ []) (world [] no_file) refl refl
  where
    gone_receives :
        (c : Peer) (n : ℤ)
        → c.incoming ≡ []
        → ((sample.receive c n).0 ≡ []) × ((sample.receive c n).1.incoming ≡ [])
    gone_receives c (pos zero) e = (refl, e)
    gone_receives c (pos (suc n)) e = ground arith
    gone_receives c (negsuc n) e = (refl, e)

save_file-Stores_example :
    (path_of header.md5 ≡ path_of header.md5)
    × Stores sample header.md5 [] ((path_of header.md5, 1 ∷ 2 ∷ 3 ∷ []) ∷ [])
unfolding save_file to_string stoi
save_file-Stores_example =
    save_file-Stores sample 5 (λ n. replicate n 0) header 7 twice
      (save_file sample 5 (λ n. replicate n 0) header 7 twice).1 (path_of header.md5) refl

-- The uuid is "x" with a 0 behind it.
abbrev unknown_peer : World Peer Cache Table Disk
unknown_peer = world (120 ∷ replicate 39 0) no_file

process-stranger_example :
    process sample 5 (λ n. replicate n 0) [] [] unknown_peer
    ≡ (ok tt, record unknown_peer { conn = record { incoming = []; sent = 0 ∷ [] } })
unfolding c_string bool_bytes
process-stranger_example =
    process-stranger sample 5 (λ n. replicate n 0) [] [] (bytes_of "x") unknown_peer refl refl

-- The world behind one upload of user 7.
abbrev uploaded : World Peer Cache Table Disk
uploaded = (upload sample 5 (λ n. replicate n 0) header (bytes_of "a") 7 twice).1

upload-locks_example :
    (save_file sample 5 (λ n. replicate n 0) header 7 uploaded).0 ≡ fault redis_error
unfolding upload to_string stoi
upload-locks_example =
    upload-locks sample 5 (λ n. replicate n 0) header (bytes_of "a") 7 twice uploaded
      sample-WrongType refl header uploaded refl

abbrev piece : FileInfo
piece = record { index = negsuc 0; path = bytes_of "/home/filedisk/06"; size = 3 }
