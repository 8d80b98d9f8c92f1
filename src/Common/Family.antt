-- ===== src/Common/Family.antt =====
-- Families indexed by thread: update at one index.
use Prim.Native.Nat.{ℕ}
use mathlib.Core.Logic.{ite, ◌≢◌}
use mathlib.Core.Path.{◌≡◌}
use native.Mathlib.Omega.{arith}
use native.Mathlib.Decide.{ℕ_discrete}

abbrev pub update {ℓ} : {A : Type ℓ} → (ℕ → A) → ℕ → A → ℕ → A
update f i a j = ite (ℕ_discrete i j) a (f j)

pub update_same {ℓ} : {A : Type ℓ} (f : ℕ → A) (i : ℕ) (a : A) → update f i a i ≡ a
update_same f i a = ground arith

-- A property at `j` after an update at `i`, from the property of the new value or of the old one.
pub update-cases {ℓ κ} :
    {A : Type ℓ} (P : A → Type κ) (f : ℕ → A) (i : ℕ) (a : A) (j : ℕ)
    → (i ≡ j → P a)
    → (i ≢ j → P (f j))
    → P (update f i a j)
update-cases P f i a j same other = elim (ℕ_discrete i j) as (λ d. P (ite d a (f j))) [
  | yes e ↦ same e
  | no d ↦ other d
]
