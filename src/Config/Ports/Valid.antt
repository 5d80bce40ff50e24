-- ===== src/Config/Ports/Valid.antt =====
-- What ValidatePorts accepts.
use phantom_grid.Prelude.{
  ℕ, ◌≤◌, false, none, List, [], ◌∷◌, ◌≡◌, refl, arith, inl, inr, Bool-cases,
}
use phantom_grid.Config.Ports.{
  PortDefinition, has_port, check_duplicates, check_ranges, validate_ports, ports_of,
}

-- The numbers are different from each other.
abbrev pub Distinct : List ℕ → Type 0
Distinct [] = Unit
Distinct (p ∷ ps) = (has_port p ps ≡ false) × Distinct ps

-- The numbers are those of ports.
abbrev pub AllInRange : List ℕ → Type 0
AllInRange [] = Unit
AllInRange (p ∷ ps) = (1 ≤ p) × (p ≤ 65535) × AllInRange ps

-- None of the numbers is in the list.
abbrev Apart : List ℕ → List ℕ → Type 0
Apart seen [] = Unit
Apart seen (p ∷ ps) = (has_port p seen ≡ false) × Apart seen ps

Apart-cons :
    (p : ℕ) (seen ps : List ℕ) → Apart (p ∷ seen) ps → Apart seen ps × (has_port p ps ≡ false)
unfolding has_port
Apart-cons p seen [] a = (tt, refl)
Apart-cons p seen (q ∷ ps) (a, more) =
    let (b, c) = Apart-cons p seen ps more in ((ground arith, b), ground arith)

check_duplicates_sound :
    (seen : List ℕ) (ds : List PortDefinition)
    → check_duplicates seen ds ≡ none
    → Apart seen (ports_of ds) × Distinct (ports_of ds)
unfolding check_duplicates ports_of
check_duplicates_sound seen [] h = (tt, tt)
check_duplicates_sound seen (d ∷ ds) h = elim (Bool-cases (has_port d.port seen)) [
  | inl e ↦ absurd (ground arith)
  | inr e ↦
      let (a, dist) = check_duplicates_sound (d.port ∷ seen) ds (ground arith) in
      let (b, c) = Apart-cons d.port seen (ports_of ds) a in ((e, b), (c, dist))
]

check_ranges_sound : (ds : List PortDefinition) → check_ranges ds ≡ none → AllInRange (ports_of ds)
unfolding check_ranges ports_of
check_ranges_sound [] h = tt
check_ranges_sound (d ∷ ds) h = (ground arith, ground arith, check_ranges_sound ds (ground arith))

-- Definitions that ValidatePorts accepts have different ports from 1 to 65535.
pub validate_ports_sound :
    (ds : List PortDefinition)
    → validate_ports ds ≡ none
    → Distinct (ports_of ds) × AllInRange (ports_of ds)
unfolding validate_ports
validate_ports_sound ds h =
    ((check_duplicates_sound [] ds (ground arith)).1, check_ranges_sound ds (ground arith))
