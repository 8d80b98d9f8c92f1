-- ===== src/Web/Wire/Sample.antt =====
-- A wire format that keeps the laws. A byte of it may be any number: a text is its length and its
-- bytes, an integer is one byte, and every field of an unknown number is kept as its tag.
use filedisk_server.Common.{
  ℕ, ◌+◌, ◌*◌, ◌/◌, ◌%◌, ◌≤◌, ◌<◌, ◌≡◌, ◌≢◌, refl, ap, Bool, true, false, ◌&&◌, [], ◌∷◌, ◌++◌,
  length, take, drop, append-nil, length-append, length-drop, ltb, leb, ◌==◌, arith, if◌then◌else◌,
}
use filedisk_server.Common.Int.{ℤ, pos, negsuc}
use filedisk_server.Common.Runs.{Text}
use filedisk_server.Web.Wire.{WireFormat, non_empty}
use filedisk_server.Web.Wire.Laws.{Bodies, Writes, Reads, Consumes}

abbrev number : ℤ → ℕ
number (pos n) = 2 * n
number (negsuc n) = 2 * n + 1

abbrev integer : ℕ → ℤ
integer w = if w % 2 == 0 then pos (w / 2) else negsuc (w / 2)

abbrev read_tag : Text → ℕ × Bool × Text
read_tag [] = (0, false, [])
read_tag (t ∷ rest) = (t, ltb 0 t && ltb t 128, rest)

abbrev read_string : Text → Text → Bool × Text × Text
read_string old [] = (false, old, [])
read_string old (n ∷ rest) =
    if leb n (length rest) then (true, take n rest, drop n rest) else (false, old, rest)

abbrev read_int : ℤ → Text → Bool × ℤ × Text
read_int old [] = (false, old, [])
read_int old (w ∷ rest) = (true, integer w, rest)

abbrev pub sample : WireFormat Text
sample = record {
  read_tag = read_tag;
  field_number = λ tag. tag / 8;
  read_string = read_string;
  read_int32 = read_int;
  read_int64 = read_int;
  verify_utf8_string = λ s. true;
  skip_field = λ tag u input. (true, u ++ (tag ∷ []), input);
  write_string = λ n s out. out ++ ((8 * n + 2) ∷ (length s ∷ s));
  write_string_to_array = λ n s out. out ++ ((8 * n + 2) ∷ (length s ∷ s));
  write_int32 = λ n v out. out ++ ((8 * n) ∷ (number v ∷ []));
  write_int32_to_array = λ n v out. out ++ ((8 * n) ∷ (number v ∷ []));
  write_int64 = λ n v out. out ++ ((8 * n) ∷ (number v ∷ []));
  write_int64_to_array = λ n v out. out ++ ((8 * n) ∷ (number v ∷ []));
  string_size = λ s. length s + 1;
  int32_size = λ v. 1;
  int64_size = λ v. 1;
  to_cached_size = λ n. n;
  preserve_unknowns = true;
  no_unknown = [];
  have_unknown = non_empty;
  merge_unknown = λ u v. u ++ v;
  write_unknown = λ u out. out ++ u;
  write_unknown_to_array = λ u out. out ++ u;
  unknown_size = length;
}

abbrev pub bodies : Bodies Text
bodies = record {
  string_body = λ s. length s ∷ s;
  int32_body = λ v. number v ∷ [];
  int64_body = λ v. number v ∷ [];
  unknown_body = λ u. u;
}

pub sample-Writes : Writes sample bodies
sample-Writes = record {
  string_bytes = λ n s out lo hi. refl;
  string_array = λ n s out lo hi. refl;
  int32_bytes = λ n v out lo hi. refl;
  int32_array = λ n v out lo hi. refl;
  int64_bytes = λ n v out lo hi. refl;
  int64_array = λ n v out lo hi. refl;
  unknown_bytes = λ u out. refl;
  unknown_array = λ u out. refl;
  string_sized = λ s. omega arith;
  int32_sized = λ v. refl;
  int64_sized = λ v. refl;
  unknown_sized = λ u. refl;
}

taken : (s rest : Text) → take (length s) (s ++ rest) ≡ s
taken [] rest = refl
taken (c ∷ s) rest = ap (λ xs. c ∷ xs) (taken s rest)

dropped : (s rest : Text) → drop (length s) (s ++ rest) ≡ rest
dropped [] rest = refl
dropped (c ∷ s) rest = dropped s rest

fits : (s rest : Text) → leb (length s) (length (s ++ rest)) ≡ true
fits s rest = ground (arith, length-append s rest)

string_back : (s old rest : Text) → read_string old ((length s ∷ s) ++ rest) ≡ (true, s, rest)
string_back s old rest = rw (fits s rest, taken s rest, dropped s rest) refl

int_back : (v old : ℤ) (rest : Text) → read_int old ((number v ∷ []) ++ rest) ≡ (true, v, rest)
int_back (pos n) old rest = ground arith
int_back (negsuc n) old rest = ground arith

none_merged : (u v : Text) → non_empty v ≡ false → u ++ v ≡ u
none_merged u [] h = append-nil u
none_merged u (c ∷ v) h = ground (arith, h)

tag_back : (t : ℕ) (rest : Text) → 8 ≤ t → t < 128 → read_tag (t ∷ rest) ≡ (t, true, rest)
tag_back t rest lo hi = ground (arith, lo, hi)

pub sample-Reads : Reads sample bodies
sample-Reads = record {
  ends = refl;
  tags = tag_back;
  numbers = λ n w h. omega (arith, h);
  strings = λ s old rest h. string_back s old rest;
  int32s = λ v old rest h. int_back v old rest;
  int64s = λ v old rest h. int_back v old rest;
  merged = none_merged;
}

tag_shorter : (input : Text) → (read_tag input).0 ≢ 0 → length (read_tag input).2 < length input
tag_shorter [] h = absurd (h refl)
tag_shorter (t ∷ rest) h = omega arith

string_rest : (old input : Text) → length (read_string old input).2 ≤ length input
string_rest old [] = omega arith
string_rest old (n ∷ rest) = ground (arith, length-drop n rest)

int_rest : (old : ℤ) (input : Text) → length (read_int old input).2 ≤ length input
int_rest old [] = omega arith
int_rest old (w ∷ rest) = omega arith

pub sample-Consumes : Consumes sample
sample-Consumes = record {
  tag_shorter = tag_shorter;
  zero_number = refl;
  string_rest = string_rest;
  int32_rest = int_rest;
  int64_rest = int_rest;
  skip_rest = λ tag u input. omega arith;
}
