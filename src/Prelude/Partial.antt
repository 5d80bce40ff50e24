-- ===== src/Prelude/Partial.antt =====
-- Computations that may end in a run-time panic, and what holds of their results.
use Prim.Native.Nat.{ℕ, zero, suc, ◌≤◌, ◌<◌}
use mathlib.Core.List.{List, [], ◌∷◌}
use mathlib.Core.Option.{Option, none, some}
use native.Mathlib.Omega.{arith}
use phantom_grid.Prelude.Tests.{◌>>=◌}
use phantom_grid.Prelude.Lists.{length, get_elem?, slice, slice_total}

-- There is a result, and `P` holds of it.
abbrev pub Yields {ℓ} : {A : Type ℓ} → (A → Type 0) → Option A → Type 0
Yields P none = ⊥
Yields P (some a) = P a

module _ {ℓ κ} {A : Type ℓ} {B : Type κ} where
  pub >>=-Yields :
      (P : A → Type 0) (Q : B → Type 0) (m : Option A) (f : A → Option B)
      → Yields P m
      → ((a : A) → P a → Yields Q (f a))
      → Yields Q (m >>= f)
  >>=-Yields P Q none f h k = elim h [ ]
  >>=-Yields P Q (some a) f h k = k a h

module _ {ℓ} {A : Type ℓ} where
  pub get_elem?-Yields :
      (xs : List A) (i : ℕ) → i < length xs → Yields (λ _. Unit {0}) (get_elem? xs i)
  get_elem?-Yields [] i h = absurd (ground (arith, h))
  get_elem?-Yields (x ∷ xs) zero h = tt
  get_elem?-Yields (x ∷ xs) (suc i) h = get_elem?-Yields xs i (ground (arith, h))

  pub slice-Yields :
      (lo hi : ℕ) (xs : List A) → lo ≤ hi → hi ≤ length xs → Yields (λ _. Unit {0}) (slice lo hi xs)
  slice-Yields lo hi xs h k = rw (slice_total lo hi xs h k) tt

pub Yields-mono {ℓ} :
    {A : Type ℓ} (P Q : A → Type 0) (o : Option A) → Yields P o → ((a : A) → P a → Q a) → Yields Q o
Yields-mono P Q none h k = h
Yields-mono P Q (some a) h k = k a h
