-- ===== src/Prelude/Table.antt =====
-- Go's `map[string]V`, as an association list. The source iterates over maps only to delete
-- entries or in an order that it does not fix.
use mathlib.Core.Path.{◌≡◌, refl, sym, ap, ◌∙◌}
use mathlib.Core.Bool.{Bool, false}
use mathlib.Core.List.{List, [], ◌∷◌}
use mathlib.Core.Option.{Option, none, some}
use mathlib.Core.Logic.{inl, inr}
use native.Mathlib.Omega.{arith}
use phantom_grid.Prelude.Tests.{if◌then◌else◌, Bool-cases}
use phantom_grid.Prelude.Bytes.{Bytes, bytes_eq, bytes_eq_iff}

abbrev pub Table {ℓ} : Type ℓ → Type ℓ
Table V = List (Bytes × V)

module _ {ℓ} {V : Type ℓ} where
  -- v, ok := m[k]
  unfoldable pub lookup : Bytes → Table V → Option V
  lookup k [] = none
  lookup k ((j, v) ∷ m) = if bytes_eq j k then some v else lookup k m

  -- m[k] = v
  unfoldable pub insert : Bytes → V → Table V → Table V
  insert k v [] = (k, v) ∷ []
  insert k v ((j, w) ∷ m) = if bytes_eq j k then (k, v) ∷ m else (j, w) ∷ insert k v m

  -- delete(m, k)
  unfoldable pub delete : Bytes → Table V → Table V
  delete k [] = []
  delete k ((j, v) ∷ m) = let rest = delete k m in if bytes_eq j k then rest else (j, v) ∷ rest

  -- for k, v := range m { if stale(v) { delete(m, k) } }
  unfoldable pub delete_if : (V → Bool) → Table V → Table V
  delete_if stale [] = []
  delete_if stale ((j, v) ∷ m) =
      let rest = delete_if stale m in if stale v then rest else (j, v) ∷ rest

  pub lookup-insert :
      (k j : Bytes) (v : V) (m : Table V)
      → lookup j (insert k v m) ≡ (if bytes_eq k j then some v else lookup j m)
  unfolding lookup insert
  lookup-insert k j v [] = refl
  lookup-insert k j v ((i, w) ∷ m) =
      ground (arith, bytes_eq_iff k j, bytes_eq_iff i k, bytes_eq_iff i j, lookup-insert k j v m)

  pub lookup-delete :
      (k j : Bytes) (m : Table V)
      → lookup j (delete k m) ≡ (if bytes_eq k j then none else lookup j m)
  unfolding lookup delete
  lookup-delete k j [] = ground arith
  lookup-delete k j ((i, w) ∷ m) =
      ground (arith, bytes_eq_iff k j, bytes_eq_iff i k, bytes_eq_iff i j, lookup-delete k j m)

  -- An entry that is not stale stays, and shadows the later ones as before.
  pub lookup-delete_if :
      (stale : V → Bool) (k : Bytes) (v : V) (m : Table V)
      → lookup k m ≡ some v
      → stale v ≡ false
      → lookup k (delete_if stale m) ≡ some v
  unfolding lookup delete_if
  lookup-delete_if stale k v [] h f = ground arith
  lookup-delete_if stale k v ((j, w) ∷ m) h f = ground (arith, lookup-delete_if stale k v m)

  -- No key stands twice: what every map of Go is.
  abbrev pub Unique : Table V → Type ℓ
  Unique [] = Unit
  Unique ((k, v) ∷ m) = (lookup k m ≡ none) × Unique m

  -- What is left of a value after the stale ones have been deleted.
  abbrev pub unless_stale : (V → Bool) → Option V → Option V
  unless_stale stale none = none
  unless_stale stale (some v) = if stale v then none else some v

  lookup-delete_if-none :
      (stale : V → Bool) (k : Bytes) (m : Table V)
      → lookup k m ≡ none
      → lookup k (delete_if stale m) ≡ none
  unfolding lookup delete_if
  lookup-delete_if-none stale k [] h = refl
  lookup-delete_if-none stale k ((j, w) ∷ m) h = ground (arith, lookup-delete_if-none stale k m)

  pub lookup-delete_if-Unique :
      (stale : V → Bool) (k : Bytes) (m : Table V)
      → Unique m
      → lookup k (delete_if stale m) ≡ unless_stale stale (lookup k m)
  unfolding lookup delete_if
  lookup-delete_if-Unique stale k [] u = refl
  lookup-delete_if-Unique stale k ((j, w) ∷ m) (new, u) =
      let rest = lookup-delete_if-Unique stale k m u in
      elim (Bool-cases (bytes_eq j k)) [
        | inr other ↦ rw other (ground (arith, rest, other))
        | inl same ↦
            let e = (bytes_eq_iff j k).0 same in
            let gone = lookup-delete_if-none stale k m (ap (λ i. lookup i m) (sym e) ∙ new) in
            rw same (ground (arith, gone, same))
      ]

  pub insert-Unique : (k : Bytes) (v : V) (m : Table V) → Unique m → Unique (insert k v m)
  unfolding insert lookup
  insert-Unique k v [] u = (refl, u)
  insert-Unique k v ((j, w) ∷ m) (new, u) = elim (Bool-cases (bytes_eq j k)) [
    | inl same ↦ rw same (ap (λ i. lookup i m) (sym ((bytes_eq_iff j k).0 same)) ∙ new, u)
    | inr other ↦ rw other (
      lookup-insert k j v m ∙ ground (arith, bytes_eq_iff j k, bytes_eq_iff k j),
      insert-Unique k v m u,
    )
  ]

  pub delete-Unique : (k : Bytes) (m : Table V) → Unique m → Unique (delete k m)
  unfolding delete lookup
  delete-Unique k [] u = u
  delete-Unique k ((j, w) ∷ m) (new, u) = elim (Bool-cases (bytes_eq j k)) [
    | inl same ↦ rw same (delete-Unique k m u)
    | inr other ↦ rw other (lookup-delete k j m ∙ ground (arith), delete-Unique k m u)
  ]

  pub delete_if-Unique : (stale : V → Bool) (m : Table V) → Unique m → Unique (delete_if stale m)
  unfolding delete_if
  delete_if-Unique stale [] u = u
  delete_if-Unique stale ((j, w) ∷ m) (new, u) = elim (Bool-cases (stale w)) [
    | inl gone ↦ rw gone (delete_if-Unique stale m u)
    | inr kept ↦ rw kept (lookup-delete_if-none stale j m new, delete_if-Unique stale m u)
  ]
