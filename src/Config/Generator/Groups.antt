-- ===== src/Config/Generator/Groups.antt =====
-- The groups of ports hold the definitions that they were made of.
use phantom_grid.Prelude.{
  Bool, true, false, ◌||◌, List, [], ◌∷◌, ◌++◌, ◌≡◌, refl, ap, ◌∙◌, arith, inl, inr, Bool-cases,
  any, any-append, any-Permᴰ,
}
use mathlib.Core.List.{Permᴰ}
use phantom_grid.Prelude.Bytes.{Bytes, bytes_eq}
use phantom_grid.Prelude.Table.{Table, lookup, insert}
use phantom_grid.Config.Ports.{PortDefinition}
use phantom_grid.Config.Generator.{
  CategoryGroup, GoOrder, ports_at, group_ports, by_port, all_ports, groups_of, categories, by_name,
}

-- What Go promises: a range visits every entry once, and sort.Slice permutes the elements.
pub record IsOrder (go : GoOrder) : Type 1 where
  pub ranges : (V : Type 0) (m : Table V) → Permᴰ (go.range V m) m
  pub sorts : (A : Type 0) (less : A → A → Bool) (xs : List A) → Permᴰ (go.sort A less xs) xs

module _ (p : PortDefinition → Bool) where
  abbrev in_entry : Bytes × List PortDefinition → Bool
  in_entry (k, ports) = any ports p

  abbrev in_group : CategoryGroup → Bool
  in_group g = any g.ports p

  ports_at-cons_ne :
      (k j : Bytes) (ports : List PortDefinition) (m : Table (List PortDefinition))
      → bytes_eq j k ≡ false
      → ports_at k ((j, ports) ∷ m) ≡ ports_at k m
  unfolding ports_at lookup
  ports_at-cons_ne k j ports m other = rw (other, ports_at) refl

  ports_at-cons_eq :
      (k j : Bytes) (ports : List PortDefinition) (m : Table (List PortDefinition))
      → bytes_eq j k ≡ true
      → ports_at k ((j, ports) ∷ m) ≡ ports
  unfolding ports_at lookup
  ports_at-cons_eq k j ports m same = rw (same, ports_at) refl

  any-insert :
      (k : Bytes) (d : PortDefinition) (ports : List PortDefinition)
      (m : Table (List PortDefinition))
      → any ports p ≡ (any (ports_at k m) p || p d)
      → any (insert k ports m) in_entry ≡ (any m in_entry || p d)
  unfolding insert
  any-insert k d ports [] h = unfold ports_at lookup in ground arith
  any-insert k d ports ((j, old) ∷ m) h = elim (Bool-cases (bytes_eq j k)) [
    | inl same ↦
        let e = ap (λ l. any l p || p d) (ports_at-cons_eq k j old m same) in
        rw same (ground (arith, h ∙ e))
    | inr other ↦
        let e = ap (λ l. any l p || p d) (ports_at-cons_ne k j old m other) in
        rw other (ground (arith, any-insert k d ports m (h ∙ e)))
  ]

  any-snoc :
      (d : PortDefinition) (ports : List PortDefinition)
      → any (ports ++ d ∷ []) p ≡ (any ports p || p d)
  any-snoc d ports = ground (arith, any-append ports (d ∷ []) p)

  any-group_ports :
      (ds : List PortDefinition) (m : Table (List PortDefinition))
      → any (group_ports ds m) in_entry ≡ (any m in_entry || any ds p)
  unfolding group_ports
  any-group_ports [] m = ground arith
  any-group_ports (d ∷ ds) m = ground (
    arith,
    any-group_ports ds (insert d.category (ports_at d.category m ++ d ∷ []) m),
    any-insert d.category d (ports_at d.category m ++ d ∷ []) m
        (any-snoc d (ports_at d.category m)),
  )

  any-all_ports : (gs : List CategoryGroup) → any (all_ports gs) p ≡ any gs in_group
  unfolding all_ports
  any-all_ports [] = refl
  any-all_ports (g ∷ gs) = ground (arith, any-append g.ports (all_ports gs) p, any-all_ports gs)

  module _ (go : GoOrder) (is_order : IsOrder go) where
    any-groups_of :
        (m : Table (List PortDefinition)) → any (groups_of go m) in_group ≡ any m in_entry
    unfolding groups_of
    any-groups_of [] = refl
    any-groups_of ((cat, ports) ∷ m) =
        ground (arith, any-Permᴰ p (is_order.sorts PortDefinition by_port ports), any-groups_of m)

    -- The groups have a definition of a kind exactly if the critical ports do.
    pub any-categories :
        (critical : List PortDefinition)
        → any (all_ports (categories go critical)) p ≡ any critical p
    unfolding categories
    any-categories critical =
        any-all_ports _
        ∙ any-Permᴰ in_group (is_order.sorts CategoryGroup by_name _)
        ∙ any-groups_of _
        ∙ any-Permᴰ in_entry (is_order.ranges (List PortDefinition) _)
        ∙ any-group_ports critical []
