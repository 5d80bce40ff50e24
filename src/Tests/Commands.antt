-- ===== src/Tests/Commands.antt =====
-- The theorems on the generator, the exporter's client, the agent and the commands at concrete
-- inputs.
use phantom_grid.Prelude.{Bool, List, [], ◌∷◌, ◌≡◌, refl, if◌then◌else◌, Bool-cases, inl, inr}
use mathlib.Core.List.Permᴰ
use mathlib.Core.List.{Permᴰ}
use phantom_grid.Prelude.Bytes.{bytes_eq}
use phantom_grid.Config.Ports.{
  PortDefinition, critical_port_definitions, fake_port_definitions, has_port, ports_of,
}
use phantom_grid.Config.Generator.{
  GoOrder, ebpf_constants, constant_lines, by_port, categories, generate_header, critical_function,
  fake_function,
}
use phantom_grid.Config.Generator.Groups.{IsOrder}
use phantom_grid.Config.Generator.Macros.{returns_one, unambiguous, returns_one-generated}

module _ {A : Type 0} (less : A → A → Bool) where
  abbrev insert_sorted : A → List A → List A
  insert_sorted x [] = x ∷ []
  insert_sorted x (y ∷ ys) = if less x y then x ∷ y ∷ ys else y ∷ insert_sorted x ys

  insert_sorted-Permᴰ : (x : A) (xs : List A) → Permᴰ (insert_sorted x xs) (x ∷ xs)
  insert_sorted-Permᴰ x [] = Permᴰ.cons refl Permᴰ.nil
  insert_sorted-Permᴰ x (y ∷ ys) = elim (Bool-cases (less x y)) [
    | inl e ↦ rw e (Permᴰ.refl (x ∷ y ∷ ys))
    | inr e ↦ rw e (Permᴰ.trans (Permᴰ.cons refl (insert_sorted-Permᴰ x ys)) (Permᴰ.swap refl refl))
  ]

  abbrev sorted : List A → List A
  sorted [] = []
  sorted (x ∷ xs) = insert_sorted x (sorted xs)

  sorted-Permᴰ : (xs : List A) → Permᴰ (sorted xs) xs
  sorted-Permᴰ [] = Permᴰ.nil
  sorted-Permᴰ (x ∷ xs) =
      Permᴰ.trans (insert_sorted-Permᴰ x (sorted xs)) (Permᴰ.cons refl (sorted-Permᴰ xs))

abbrev toy_order : GoOrder
toy_order = record { range = λ V m. m; sort = λ A less xs. sorted less xs }

toy_order-IsOrder : IsOrder toy_order
toy_order-IsOrder = record {
  ranges = λ V m. Permᴰ.refl m;
  sorts = λ A less xs. sorted-Permᴰ less xs;
}

returns_one-generated_example :
    (returns_one
        (generate_header toy_order
          (categories toy_order critical_port_definitions)
          (toy_order.sort PortDefinition by_port fake_port_definitions)
          ebpf_constants)
        (critical_function toy_order (categories toy_order critical_port_definitions))
        3306
      ≡ has_port 3306 (ports_of critical_port_definitions))
    × (returns_one
          (generate_header toy_order
            (categories toy_order critical_port_definitions)
            (toy_order.sort PortDefinition by_port fake_port_definitions)
            ebpf_constants)
          (fake_function toy_order (toy_order.sort PortDefinition by_port fake_port_definitions))
          3306
        ≡ has_port 3306 (ports_of fake_port_definitions))
unfolding constant_lines bytes_eq
returns_one-generated_example =
    returns_one-generated toy_order toy_order-IsOrder ebpf_constants critical_port_definitions
      fake_port_definitions
      (unambiguous ebpf_constants critical_port_definitions fake_port_definitions
        critical_port_definitions refl)
      (unambiguous ebpf_constants critical_port_definitions fake_port_definitions
        fake_port_definitions refl)
      3306
