-- ===== src/Prelude/Lists.antt =====
-- Lists measured and indexed by native numbers, under the library's names, and Go's slices.
use Prim.Native.Nat.{◌<◌, ℕ, zero, suc, ◌+◌, ◌-◌, ◌≤◌}
use mathlib.Core.Path.{◌≡◌, refl, ap, ◌∙◌}
use mathlib.Core.Bool.{Bool, true, false, ◌||◌}
use mathlib.Core.List.{List, [], ◌∷◌, ◌++◌, Permᴰ}
use mathlib.Core.Option.{Option, none, some}
use native.Mathlib.Omega.{arith}
use phantom_grid.Prelude.Tests.{leb, le→leb, if◌then◌else◌}

module _ {ℓ} {A : Type ℓ} where
  abbrev pub length : List A → ℕ
  length [] = 0
  length (x ∷ xs) = suc (length xs)

  abbrev pub get_elem? : List A → ℕ → Option A
  get_elem? [] i = none
  get_elem? (x ∷ xs) zero = some x
  get_elem? (x ∷ xs) (suc i) = get_elem? xs i

  abbrev pub take : ℕ → List A → List A
  take zero xs = []
  take (suc n) [] = []
  take (suc n) (x ∷ xs) = x ∷ take n xs

  abbrev pub drop : ℕ → List A → List A
  drop zero xs = xs
  drop (suc n) [] = []
  drop (suc n) (x ∷ xs) = drop n xs

  abbrev pub replicate : ℕ → A → List A
  replicate zero a = []
  replicate (suc n) a = a ∷ replicate n a

  abbrev pub is_empty : List A → Bool
  is_empty [] = true
  is_empty (x ∷ xs) = false

  pub take_more : (n : ℕ) (xs : List A) → length xs ≤ n → take n xs ≡ xs
  take_more zero [] h = refl
  take_more zero (x ∷ xs) h = absurd (omega arith)
  take_more (suc n) [] h = refl
  take_more (suc n) (x ∷ xs) h = ap (λ t. x ∷ t) (take_more n xs (omega arith))

  pub length-append : (xs ys : List A) → length (xs ++ ys) ≡ length xs + length ys
  length-append [] ys = omega arith
  length-append (x ∷ xs) ys = omega (arith, length-append xs ys)

  pub take-append : (xs ys : List A) → take (length xs) (xs ++ ys) ≡ xs
  take-append [] ys = refl
  take-append (x ∷ xs) ys = ap (λ t. x ∷ t) (take-append xs ys)

  pub drop-append : (xs ys : List A) → drop (length xs) (xs ++ ys) ≡ ys
  drop-append [] ys = refl
  drop-append (x ∷ xs) ys = drop-append xs ys

  pub take-append-drop : (n : ℕ) (xs : List A) → take n xs ++ drop n xs ≡ xs
  take-append-drop zero xs = refl
  take-append-drop (suc n) [] = refl
  take-append-drop (suc n) (x ∷ xs) = ap (λ t. x ∷ t) (take-append-drop n xs)

  pub take_all : (xs : List A) → take (length xs) xs ≡ xs
  take_all [] = refl
  take_all (x ∷ xs) = ap (λ t. x ∷ t) (take_all xs)

  pub length-take : (n : ℕ) (xs : List A) → n ≤ length xs → length (take n xs) ≡ n
  length-take zero xs h = refl
  length-take (suc n) [] h = elim h [ ]
  length-take (suc n) (x ∷ xs) h = ap suc (length-take n xs (omega arith))

  pub length-drop : (n : ℕ) (xs : List A) → length (drop n xs) ≡ length xs - n
  length-drop zero xs = omega arith
  length-drop (suc n) [] = omega arith
  length-drop (suc n) (x ∷ xs) = omega (arith, length-drop n xs)

  -- Go's `s[lo:hi]`: out of range it panics.
  abbrev pub slice : ℕ → ℕ → List A → Option (List A)
  slice lo hi xs =
      if leb lo hi
      then (if leb hi (length xs) then some (take (hi - lo) (drop lo xs)) else none)
      else none

  pub slice_total :
      (lo hi : ℕ) (xs : List A)
      → lo ≤ hi
      → hi ≤ length xs
      → slice lo hi xs ≡ some (take (hi - lo) (drop lo xs))
  slice_total lo hi xs h k = rw (le→leb lo hi h) (rw (le→leb hi (length xs) k))

  pub get_elem?_total : (xs : List A) (i : ℕ) → i < length xs → (a : A) × (get_elem? xs i ≡ some a)
  get_elem?_total [] i h = elim h [ ]
  get_elem?_total (x ∷ xs) zero h = (x, refl)
  get_elem?_total (x ∷ xs) (suc i) h = get_elem?_total xs i (omega arith)

  pub take_exact : (n : ℕ) (xs ys : List A) → length xs ≡ n → take n (xs ++ ys) ≡ xs
  take_exact n xs ys e = rw (← e) (take-append xs ys)

  pub drop_exact : (n : ℕ) (xs ys : List A) → length xs ≡ n → drop n (xs ++ ys) ≡ ys
  drop_exact n xs ys e = rw (← e) (drop-append xs ys)

  -- `a` stands in the list.
  pub data In (a : A) : List A → Type ℓ where
    here : {x : A} {xs : List A} → a ≡ x → In a (x ∷ xs)
    there : {x : A} {xs : List A} → In a xs → In a (x ∷ xs)

  -- Whether a test holds of an element.
  abbrev pub any : List A → (A → Bool) → Bool
  any [] p = false
  any (x ∷ xs) p = p x || any xs p

  pub any-append : (xs ys : List A) (p : A → Bool) → any (xs ++ ys) p ≡ (any xs p || any ys p)
  any-append [] ys p = refl
  any-append (x ∷ xs) ys p = ground (arith, any-append xs ys p)

  -- The order of the elements does not matter.
  pub any-Permᴰ : {xs ys : List A} (p : A → Bool) → Permᴰ xs ys → any xs p ≡ any ys p
  any-Permᴰ p Permᴰ.nil = refl
  any-Permᴰ p (Permᴰ.cons {a = a} {b = b} e r) = ground (arith, ap p e, any-Permᴰ p r)
  any-Permᴰ p (Permᴰ.swap {a = a} {b = b} e f) = ground (arith, ap p e, ap p f)
  any-Permᴰ p (Permᴰ.trans r r') = any-Permᴰ p r ∙ any-Permᴰ p r'

  -- A predicate of all elements.
  abbrev pub All {κ} : (A → Type κ) → List A → Type κ
  All P [] = Unit
  All P (x ∷ xs) = P x × All P xs

  pub any_congr : (xs : List A) (p q : A → Bool) → All (λ x. p x ≡ q x) xs → any xs p ≡ any xs q
  any_congr [] p q h = refl
  any_congr (x ∷ xs) p q (e, h) = ground (arith, e, any_congr xs p q h)

  any-head : (x : A) (xs : List A) (p : A → Bool) → p x ≡ true → any (x ∷ xs) p ≡ true
  any-head x xs p e = rw e refl

  any-tail : (x : A) (xs : List A) (p : A → Bool) → any xs p ≡ true → any (x ∷ xs) p ≡ true
  any-tail x xs p e = ground arith

  -- What follows from a predicate and from being an element.
  pub All-any {κ} :
      {P Q : A → Type κ} (xs : List A)
      → ((x : A) → ((p : A → Bool) → p x ≡ true → any xs p ≡ true) → P x → Q x)
      → All P xs
      → All Q xs
  All-any {P = P} {Q = Q} [] f h = tt
  All-any {P = P} {Q = Q} (x ∷ xs) f (h, more) = (
    f x (λ p e. any-head x xs p e) h,
    All-any {P = P} {Q = Q} xs (λ y inside hy. f y (λ p e. any-tail x xs p (inside p e)) hy) more,
  )
