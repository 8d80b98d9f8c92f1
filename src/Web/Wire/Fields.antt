-- ===== src/Web/Wire/Fields.antt =====
-- What the parser does with the bytes of a field.
use filedisk_server.Common.{
  ℕ, zero, suc, ◌≤◌, ◌<◌, ◌≡◌, refl, subst, Bool, true, false, some, [], ◌∷◌, ◌++◌, length,
  length-append, arith, if◌then◌else◌,
}
use filedisk_server.Common.Int.{ℤ}
use filedisk_server.Common.Runs.{Text}
use filedisk_server.Web.Wire.{
  WireFormat, Stored, Turn, again, read_step, text_step, unusual, merge_loop,
}
use filedisk_server.Web.Wire.Codec.{IsText, IsInt}
use filedisk_server.Web.Wire.Laws.{Bodies, Reads}
use filedisk_server.Web.Wire.Bytes.{bytes_if}

-- With more fuel than bytes the parser comes to its end, and gives `result`.
abbrev pub Ends :
    {A U : Type 0}
    → WireFormat U
    → (ℕ → Stored A U → Text → Turn A U)
    → Stored A U
    → Text
    → Bool × Stored A U × Text
    → Type 0
Ends lib turn st input result =
    (fuel : ℕ) → length input < fuel → merge_loop lib turn fuel st input ≡ some result

module _ {U A : Type 0} (lib : WireFormat U) (b : Bodies U) (laws : Reads lib b)
    (turn : ℕ → Stored A U → Text → Turn A U) where
  pub end-Ends : (st : Stored A U) → Ends lib turn st [] (true, st, [])
  unfolding merge_loop unusual
  end-Ends st zero h = absurd (omega arith)
  end-Ends st (suc fuel) h = rw laws.ends refl

  module _ {st st1 : Stored A U} {result : Bool × Stored A U × Text} (t : ℕ)
      (body rest : Text) where
    field-Ends :
        8 ≤ t
        → t < 128
        → turn t st (body ++ rest) ≡ again st1 rest
        → Ends lib turn st1 rest result
        → Ends lib turn st ((t ∷ body) ++ rest) result
    unfolding merge_loop
    field-Ends lo hi e go zero h = absurd (omega arith)
    field-Ends lo hi e go (suc fuel) h =
        rw (laws.tags t (body ++ rest) lo hi, e)
          (go fuel (omega (arith, h, length-append body rest)))

  -- A field that is written if `test` holds, and changes the object by `put`.
  pub value-Ends :
      {V : Type 0} {st : Stored A U} {result : Bool × Stored A U × Text} (test : Bool) (t : ℕ)
      (body rest : Text) (put : V → Stored A U) (v old : V)
      → 8 ≤ t
      → t < 128
      → turn t st (body ++ rest) ≡ again (put v) rest
      → put old ≡ st
      → Ends lib turn (put (if test then v else old)) rest result
      → Ends lib turn st (bytes_if test (t ∷ body) ++ rest) result
  value-Ends true t body rest put v old lo hi e same go = field-Ends t body rest lo hi e go
  value-Ends {result} false t body rest put v old lo hi e same go =
      subst (λ x. Ends lib turn x rest result) same go

module _ {U A : Type 0} (lib : WireFormat U) (b : Bodies U) (laws : Reads lib b) where
  pub text_step-reads :
      (put : Text → Stored A U) (s old rest : Text)
      → IsText lib s
      → text_step lib put (lib.read_string old (b.string_body s ++ rest)) ≡ again (put s) rest
  text_step-reads put s old rest h = rw (laws.strings s old rest h.short, h.valid) refl

  pub int32_step-reads :
      (put : ℤ → Stored A U) (v old : ℤ) (rest : Text)
      → IsInt 31 v
      → read_step lib put (lib.read_int32 old (b.int32_body v ++ rest)) ≡ again (put v) rest
  int32_step-reads put v old rest h = rw (laws.int32s v old rest h) refl

  pub int64_step-reads :
      (put : ℤ → Stored A U) (v old : ℤ) (rest : Text)
      → IsInt 63 v
      → read_step lib put (lib.read_int64 old (b.int64_body v ++ rest)) ≡ again (put v) rest
  int64_step-reads put v old rest h = rw (laws.int64s v old rest h) refl
