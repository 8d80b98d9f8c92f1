-- ===== src/Common/Runs.antt =====
-- Runs of code that calls services: state passing with an outcome.
use Prim.Native.Nat.{ℕ}
use mathlib.Core.Path.{◌≡◌, refl}
use mathlib.Core.Option.{Option, none, some}
use mathlib.Core.List.{List}
use native.Mathlib.Omega.{arith}

abbrev pub Text : Type 0
Text = List ℕ

-- Why a task does not run to its end: a text without its 0, an exception of `stoull`, `stoi`, `new`
-- or of redis++, a length that no array can have, a result, row, element or JSON member that is not there, or a null
-- pointer to a message; all of these end the process or are undefined. `out_of_fuel` belongs to the model: a loop is still going on.
pub data Fault : Type 0 where
  unterminated bad_number bad_length redis_error null_row no_element null_message bad_json
        out_of_fuel :
      Fault

pub data Outcome (A : Type 0) : Type 0 where
  ok : A → Outcome A
  fault : Fault → Outcome A

-- What a task has done before a fault stays done.
abbrev pub M : Type 0 → Type 0 → Type 0
M W A = W → Outcome A × W

abbrev pub after : {W A B : Type 0} → (A → M W B) → Outcome A × W → Outcome B × W
after f (ok a, w) = f a w
after f (fault e, w) = (fault e, w)

abbrev pub pure : {W A : Type 0} → A → M W A
pure a w = (ok a, w)

abbrev pub fail : {W A : Type 0} → Fault → M W A
fail e w = (fault e, w)

infixl 5 ◌>>=◌ ◌>>◌
abbrev pub ◌>>=◌ : {W A B : Type 0} → M W A → (A → M W B) → M W B
◌>>=◌ m f w = after f (m w)

abbrev pub ◌>>◌ : {W B : Type 0} → M W (Unit {0}) → M W B → M W B
m >> k = m >>= λ _. k

abbrev pub or_fault : {W A : Type 0} → Fault → Option A → M W A
or_fault e none = fail e
or_fault e (some a) = pure a

-- A run that ends well went well in its first part.
pub after-ok :
    {W A B : Type 0} (f : A → M W B) (x : Outcome A × W) {b : B} {w' : W}
    → after f x ≡ (ok b, w')
    → (a : A) × (w : W) × (x ≡ (ok a, w)) × (f a w ≡ (ok b, w'))
after-ok f (ok a, w) e = (a, w, refl, e)
after-ok f (fault c, w) e = ground arith
