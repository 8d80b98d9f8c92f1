-- ===== src/Web/Wire/Ending.antt =====
-- The parser comes to an end on every input.
use filedisk_server.Common.{
  ℕ, zero, suc, ◌%◌, ◌≤◌, ◌<◌, ◌≡◌, refl, ap, Bool, true, false, ◌&&◌, Option, some, length, arith,
  ◌==◌, if◌then◌else◌, ℕ_discrete,
}
use filedisk_server.Common.Runs.{Text}
use filedisk_server.Web.Wire.{
  WireFormat, Stored, Turn, again, success, failure, read_step, text_step, unusual, after_turn,
  tag_turn, merge_loop,
}
use filedisk_server.Web.Wire.UserSign
use filedisk_server.Web.Wire.UserRet
use filedisk_server.Web.Wire.DirInfo
use filedisk_server.Web.Wire.DirRet
use filedisk_server.Web.Wire.Codec.{Kind, sign, ret, info, answer, Fields, merge_turn}
use filedisk_server.Web.Wire.Laws.{Consumes}

-- If the loop goes on, then with `n` bytes at most.
pub data AtMost {A U : Type 0} (n : ℕ) : Turn A U → Type 0 where
  goes_on : {st : Stored A U} {rest : Text} → length rest ≤ n → AtMost n (again st rest)
  succeeds : {st : Stored A U} {rest : Text} → AtMost n (success st rest)
  fails : {st : Stored A U} {rest : Text} → AtMost n (failure st rest)

module _ {A U : Type 0} (n : ℕ) where
  if-AtMost :
      (test : Bool) {t1 t2 : Turn A U}
      → AtMost n t1
      → AtMost n t2
      → AtMost n (if test then t1 else t2)
  if-AtMost true h1 h2 = h1
  if-AtMost false h1 h2 = h2

  read_step-AtMost :
      (lib : WireFormat U) {V : Type 0} (put : V → Stored A U) (r : Bool × V × Text)
      → length r.2 ≤ n
      → AtMost n (read_step lib put r)
  read_step-AtMost lib put (true, v, rest) h = goes_on h
  read_step-AtMost lib put (false, v, rest) h = fails

  text_step-AtMost :
      (lib : WireFormat U) (put : Text → Stored A U) (r : Bool × Text × Text)
      → length r.2 ≤ n
      → AtMost n (text_step lib put r)
  text_step-AtMost lib put (done, v, rest) h =
      if-AtMost (done && lib.verify_utf8_string v) (goes_on h) fails

-- The parser comes back, with success or not, the object and what is left of the input.
abbrev pub Returns : {A U : Type 0} → Option (Bool × Stored A U × Text) → Type 0
Returns {A} {U} r = (done : Bool) × (st : Stored A U) × (rest : Text) × (r ≡ some (done, st, rest))

module _ {U : Type 0} (lib : WireFormat U) (laws : Consumes lib) where
  unusual-AtMost :
      {A : Type 0} (tag : ℕ) (st : Stored A U) (input : Text)
      → AtMost (length input) (unusual lib tag st input)
  unfolding unusual
  unusual-AtMost tag st input = if-AtMost (length input) (tag == 0) succeeds (
      read_step-AtMost (length input) lib (λ u. record st { unknown = u })
        (lib.skip_field tag st.unknown input) (laws.skip_rest tag st.unknown input))

  merge_turn-AtMost :
      (k : Kind) (tag : ℕ) (st : Stored (Fields k) U) (input : Text)
      → AtMost (length input) (merge_turn lib k tag st input)
  unfolding UserSign.merge_turn UserRet.merge_turn DirInfo.merge_turn DirRet.merge_turn
  merge_turn-AtMost sign tag st input =
      if-AtMost (length input) (lib.field_number tag == 1)
        (if-AtMost (length input) (tag % 256 == 10)
          (text_step-AtMost (length input) lib (UserSign.set_username st)
            (lib.read_string st.fields.username input) (laws.string_rest st.fields.username input))
          (unusual-AtMost tag st input))
        (if-AtMost (length input) (lib.field_number tag == 2)
          (if-AtMost (length input) (tag % 256 == 18)
            (text_step-AtMost (length input) lib (UserSign.set_password st)
              (lib.read_string st.fields.password input)
              (laws.string_rest st.fields.password input))
            (unusual-AtMost tag st input))
          (if-AtMost (length input) (lib.field_number tag == 3)
            (if-AtMost (length input) (tag % 256 == 26)
              (text_step-AtMost (length input) lib (UserSign.set_uuid st)
                (lib.read_string st.fields.uuid input) (laws.string_rest st.fields.uuid input))
              (unusual-AtMost tag st input))
            (unusual-AtMost tag st input)))
  merge_turn-AtMost ret tag st input =
      if-AtMost (length input) (lib.field_number tag == 1)
        (if-AtMost (length input) (tag % 256 == 8)
          (read_step-AtMost (length input) lib (UserRet.set_code st)
            (lib.read_int32 st.fields.code input) (laws.int32_rest st.fields.code input))
          (unusual-AtMost tag st input))
        (if-AtMost (length input) (lib.field_number tag == 2)
          (if-AtMost (length input) (tag % 256 == 18)
            (text_step-AtMost (length input) lib (UserRet.set_msg st)
              (lib.read_string st.fields.msg input) (laws.string_rest st.fields.msg input))
            (unusual-AtMost tag st input))
          (if-AtMost (length input) (lib.field_number tag == 3)
            (if-AtMost (length input) (tag % 256 == 26)
              (text_step-AtMost (length input) lib (UserRet.set_uuid st)
                (lib.read_string st.fields.uuid input) (laws.string_rest st.fields.uuid input))
              (unusual-AtMost tag st input))
            (unusual-AtMost tag st input)))
  merge_turn-AtMost info tag st input =
      if-AtMost (length input) (lib.field_number tag == 1)
        (if-AtMost (length input) (tag % 256 == 8)
          (read_step-AtMost (length input) lib (DirInfo.set_dirid st)
            (lib.read_int64 st.fields.dirid input) (laws.int64_rest st.fields.dirid input))
          (unusual-AtMost tag st input))
        (if-AtMost (length input) (lib.field_number tag == 2)
          (if-AtMost (length input) (tag % 256 == 18)
            (text_step-AtMost (length input) lib (DirInfo.set_name st)
              (lib.read_string st.fields.name input) (laws.string_rest st.fields.name input))
            (unusual-AtMost tag st input))
          (if-AtMost (length input) (lib.field_number tag == 3)
            (if-AtMost (length input) (tag % 256 == 26)
              (text_step-AtMost (length input) lib (DirInfo.set_uuid st)
                (lib.read_string st.fields.uuid input) (laws.string_rest st.fields.uuid input))
              (unusual-AtMost tag st input))
            (unusual-AtMost tag st input)))
  merge_turn-AtMost answer tag st input =
      if-AtMost (length input) (lib.field_number tag == 1)
        (if-AtMost (length input) (tag % 256 == 8)
          (read_step-AtMost (length input) lib (DirRet.set_code st)
            (lib.read_int32 st.fields.code input) (laws.int32_rest st.fields.code input))
          (unusual-AtMost tag st input))
        (if-AtMost (length input) (lib.field_number tag == 2)
          (if-AtMost (length input) (tag % 256 == 18)
            (text_step-AtMost (length input) lib (DirRet.set_jsoninfo st)
              (lib.read_string st.fields.jsoninfo input)
              (laws.string_rest st.fields.jsoninfo input))
            (unusual-AtMost tag st input))
          (unusual-AtMost tag st input))

  -- The tag 0 ends the message.
  merge_turn-zero :
      (k : Kind) (st : Stored (Fields k) U) (input : Text)
      → merge_turn lib k 0 st input ≡ success st input
  unfolding unusual UserSign.merge_turn UserRet.merge_turn DirInfo.merge_turn DirRet.merge_turn
  merge_turn-zero sign st input = rw laws.zero_number refl
  merge_turn-zero ret st input = rw laws.zero_number refl
  merge_turn-zero info st input = rw laws.zero_number refl
  merge_turn-zero answer st input = rw laws.zero_number refl

  module _ (k : Kind) where
    turn_zero :
        (st : Stored (Fields k) U) (r : ℕ × Bool × Text)
        → r.0 ≡ 0
        → tag_turn lib (merge_turn lib k) st r ≡ success st r.2
    unfolding unusual
    turn_zero st (tag, true, rest) e = rw e (merge_turn-zero k st rest)
    turn_zero st (tag, false, rest) e = rw e refl

    turn-AtMost :
        (st : Stored (Fields k) U) (r : ℕ × Bool × Text)
        → AtMost (length r.2) (tag_turn lib (merge_turn lib k) st r)
    turn-AtMost st (tag, in_range, rest) =
        if-AtMost (length rest) in_range (merge_turn-AtMost k tag st rest)
          (unusual-AtMost tag st rest)

    after_turn-Returns :
        (fuel n : ℕ) (t : Turn (Fields k) U)
        → AtMost n t
        → n < fuel
        → ((st : Stored (Fields k) U) (input : Text)
            → length input < fuel
            → Returns (merge_loop lib (merge_turn lib k) fuel st input))
        → Returns (after_turn lib (merge_loop lib (merge_turn lib k) fuel) t)
    after_turn-Returns fuel n (again st rest) (goes_on h) lt go = go st rest (omega (arith, h, lt))
    after_turn-Returns fuel n (success st rest) h lt go = (true, st, rest, refl)
    after_turn-Returns fuel n (failure st rest) h lt go = (false, st, rest, refl)

    -- Whatever the bytes are and whatever the object is that they are parsed into,
    -- `MergePartialFromCodedStream` returns, on each of the four types of messages: more turns than
    -- bytes are never taken.
    pub merge_loop-Returns :
        (fuel : ℕ) (st : Stored (Fields k) U) (input : Text)
        → length input < fuel
        → Returns (merge_loop lib (merge_turn lib k) fuel st input)
    unfolding merge_loop
    merge_loop-Returns zero st input h = absurd (omega arith)
    merge_loop-Returns (suc fuel) st input h = elim (ℕ_discrete (lib.read_tag input).0 0) [
      | yes e ↦ (
        true,
        st,
        (lib.read_tag input).2,
        ap (after_turn lib (merge_loop lib (merge_turn lib k) fuel))
            (turn_zero st (lib.read_tag input) e),
      )
      | no d ↦
          after_turn-Returns fuel (length (lib.read_tag input).2)
            (tag_turn lib (merge_turn lib k) st (lib.read_tag input))
            (turn-AtMost st (lib.read_tag input)) (omega (arith, h, laws.tag_shorter input d))
            (λ st1 rest lt. merge_loop-Returns fuel st1 rest lt)
    ]
