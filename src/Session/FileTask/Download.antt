-- ===== src/Session/FileTask/Download.antt =====
-- Which file a download reads, and names of stored files.
use filedisk_server.Common.{
  ℕ, ◌/◌, ◌%◌, ◌<◌, ◌≡◌, refl, sym, ap, ◌∙◌, List, [], ◌∷◌, map, All, drop, drop-length_append,
  arith, if◌then◌else◌,
}
use filedisk_server.Common.Text.{bytes_of}
use filedisk_server.Session.Wire.{FileHeader}
use filedisk_server.Session.Services.{Text, Services, World, pure, ◌>>=◌, ◌>>◌}
use filedisk_server.Session.Values.{hex_digit, hex, path_of, FileInfo}
use filedisk_server.Session.FileTask.{open_for, send_file, down_header, download_loop}

module _ {C R Q F : Type 0} (o : Services C R Q F) where
  abbrev moved : (FileInfo → Text) → FileInfo → FileInfo
  moved p info = record info { path = p info }

  ignores_path :
      (md5 padding : Text) (fh : FileHeader) (filename : Text) (p : FileInfo → Text)
      (filelist : List FileInfo)
      → download_loop o md5 padding fh filename (map (moved p) filelist)
        ≡ download_loop o md5 padding fh filename filelist
  unfolding download_loop send_file down_header
  ignores_path md5 padding fh filename p [] = refl
  ignores_path md5 padding fh filename p (info ∷ filelist) =
      ap
        (λ rest. open_for o filename >>= λ opened.
          if opened then send_file o md5 padding fh filename info >> rest else pure tt)
        (ignores_path md5 padding fh filename p filelist)

  -- `downloadfile` does not use the paths that the table has for the pieces of a file: with any other
  -- paths it opens, sends and ends alike. What it opens is the name that the client gave.
  download_loop-ignores_path :
      (md5 padding : Text) (fh : FileHeader) (filename : Text) (p : FileInfo → Text)
      (filelist : List FileInfo) (w : World C R Q F)
      → download_loop o md5 padding fh filename (map (moved p) filelist) w
        ≡ download_loop o md5 padding fh filename filelist w
  download_loop-ignores_path md5 padding fh filename p filelist w =
      ap (λ run. run w) (ignores_path md5 padding fh filename p filelist)

hex_digit-injective : (a b : ℕ) → a < 16 → b < 16 → hex_digit a ≡ hex_digit b → a ≡ b
unfolding hex_digit
hex_digit-injective a b ha hb e = ground arith

abbrev IsByte : ℕ → Type 0
IsByte b = b < 256

hex-injective : (xs ys : Text) → All IsByte xs → All IsByte ys → hex xs ≡ hex ys → xs ≡ ys
unfolding hex
hex-injective [] [] hx hy e = refl
hex-injective [] (y ∷ ys) hx hy e = ground arith
hex-injective (x ∷ xs) [] hx hy e = ground arith
hex-injective (x ∷ xs) (y ∷ ys) hx hy e = ground (
  arith,
  hex_digit-injective (x / 16) (y / 16) (omega arith) (omega arith),
  hex_digit-injective (x % 16) (y % 16) (omega arith) (omega arith),
  hex-injective xs ys hx.1 hy.1,
)

-- Digests that differ give names that differ.
path_of-injective :
    (xs ys : Text) → All IsByte xs → All IsByte ys → path_of xs ≡ path_of ys → xs ≡ ys
unfolding path_of
path_of-injective xs ys hx hy e = hex-injective xs ys hx hy (
    sym (drop-length_append (bytes_of "/home/filedisk/") (hex xs))
    ∙ ap (drop 15) e
    ∙ drop-length_append (bytes_of "/home/filedisk/") (hex ys))
