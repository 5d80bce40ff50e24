-- ===== src/Honeypot/Text/Cases.antt =====
-- What holds of every case of a switch holds of the switch.
use phantom_grid.Prelude.{List, [], ◌∷◌, String, if_either}
use phantom_grid.Prelude.Bytes.{Bytes}
use phantom_grid.Honeypot.Text.{one_of, switch}

abbrev pub AllOf : {A : Type 0} → (A → Type 0) → List (List String × A) → Type 0
AllOf P [] = Unit
AllOf P ((names, a) ∷ cases) = P a × AllOf P cases

pub switch-AllOf :
    {A : Type 0} (P : A → Type 0) (s : Bytes) (cases : List (List String × A)) (d : A)
    → AllOf P cases
    → P d
    → P (switch s cases d)
unfolding switch
switch-AllOf P s [] d hs h = h
switch-AllOf P s ((names, a) ∷ cases) d (k, hs) h =
    if_either P (one_of s names) (λ _. k) (switch-AllOf P s cases d hs h)
