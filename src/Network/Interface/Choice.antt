-- ===== src/Network/Interface/Choice.antt =====
-- Which interface is chosen where none is specified.
use phantom_grid.Prelude.{
  Bool, true, false, ◌&&◌, Option, none, some, List, [], ◌∷◌, ◌≡◌, refl, sym, ap, ◌∙◌, ◌⊎◌, inl,
  inr, arith, Bool-cases, Option-cases, Result, ok,
}
use phantom_grid.Prelude.Bytes.{Bytes, codes}
use phantom_grid.Network.Interface.{
  NetInterface, System, DetectError, is_usable, is_wifi, interface_names, find_wifi, use_or,
  find_named, or_loopback, auto_detect_interface,
}

find_wifi_sound :
    (is : List NetInterface) (i : NetInterface) → find_wifi is ≡ some i → is_usable i ≡ true
unfolding find_wifi
find_wifi_sound [] i h = absurd (ground (arith, h))
find_wifi_sound (j ∷ is) i h = elim (Bool-cases (is_wifi j)) [
  | inl w ↦ elim (Bool-cases (is_usable j)) [
    | inl u ↦ let e : j ≡ i = ground (arith, rw (w, u) at h) in ap is_usable (sym e) ∙ u
    | inr u ↦ find_wifi_sound is i (rw (w, u) at h)
  ]
  | inr w ↦ find_wifi_sound is i (rw w at h)
]

-- No WiFi interface can be used.
abbrev pub NoWifi : List NetInterface → Type 0
NoWifi [] = Unit
NoWifi (i ∷ is) = ((is_wifi i && is_usable i) ≡ false) × NoWifi is

find_wifi-NoWifi : (is : List NetInterface) → find_wifi is ≡ none → NoWifi is
unfolding find_wifi
find_wifi-NoWifi [] h = tt
find_wifi-NoWifi (j ∷ is) h = elim (Bool-cases (is_wifi j)) [
  | inl w ↦ elim (Bool-cases (is_usable j)) [
    | inl u ↦ absurd (ground (arith, rw (w, u) at h))
    | inr u ↦ (rw (w, u) refl, find_wifi-NoWifi is (rw (w, u) at h))
  ]
  | inr w ↦ (rw w refl, find_wifi-NoWifi is (rw w at h))
]

-- An interface that was found and can be used.
abbrev usable_found : Option NetInterface → Bool
usable_found none = false
usable_found (some i) = is_usable i

-- What a name contributes to the search.
use_or-cases :
    (o : Option NetInterface) (name : Bytes) (rest : Option (NetInterface × Bytes))
    → ((i : NetInterface) × (use_or o name rest ≡ some (i, name)) × (is_usable i ≡ true))
      ⊎ ((use_or o name rest ≡ rest) × (usable_found o ≡ false))
use_or-cases none name rest = inr (refl, refl)
use_or-cases (some i) name rest = elim (Bool-cases (is_usable i)) [
  | inl u ↦ inl (i, rw u refl, u)
  | inr u ↦ inr (rw u refl, u)
]

same_choice :
    (result : Result DetectError (NetInterface × Bytes)) {a b : NetInterface × Bytes}
    → result ≡ ok a
    → result ≡ ok b
    → a ≡ b
same_choice result e f = ground (arith, e, f)

module _ (system : System) where
  -- None of the names belongs to an interface that can be used.
  abbrev pub NoneNamed : List Bytes → Type 0
  NoneNamed [] = Unit
  NoneNamed (name ∷ names) = (usable_found (system.by_name name) ≡ false) × NoneNamed names

  find_named-cases :
      (names : List Bytes)
      → ((r : NetInterface × Bytes) × (find_named system names ≡ some r) × (is_usable r.0 ≡ true))
        ⊎ ((find_named system names ≡ none) × NoneNamed names)
  unfolding find_named
  find_named-cases [] = inr (refl, tt)
  find_named-cases (name ∷ names) =
      elim (use_or-cases (system.by_name name) name (find_named system names)) [
        | inl (i, e, u) ↦ inl ((i, name), e, u)
        | inr (e, n) ↦ elim (find_named-cases names) [
          | inl (r, f, u) ↦ inl (r, e ∙ f, u)
          | inr (f, ns) ↦ inr (e ∙ f, (n, ns))
        ]
      ]

  -- The choice falls on loopback, since nothing else can be used.
  abbrev pub FallsBack : NetInterface × Bytes → Type 0
  FallsBack chosen =
      (chosen.1 ≡ codes "lo")
      × (system.by_name (codes "lo") ≡ some chosen.0)
      × NoWifi system.interfaces
      × NoneNamed interface_names

  or_loopback-FallsBack :
      (o : Option NetInterface) (chosen : NetInterface × Bytes)
      → or_loopback system o ≡ ok chosen
      → (chosen.1 ≡ codes "lo") × (o ≡ some chosen.0)
  or_loopback-FallsBack none chosen h = absurd (ground (arith, h))
  or_loopback-FallsBack (some i) chosen h =
      let e : (i, codes "lo") ≡ chosen = ground (arith, h) in
      (sym (ap (λ r. r.1) e), ap (λ r. some r.0) e)

  -- Without a name from the user, the chosen interface has an address and is no loopback, or it is
  -- the one named lo, and then no WiFi interface of the system and none of the listed names has an
  -- address without being a loopback.
  pub auto_detect_interface_sound :
      (chosen : NetInterface × Bytes)
      → auto_detect_interface system ≡ ok chosen
      → (is_usable chosen.0 ≡ true) ⊎ FallsBack chosen
  unfolding auto_detect_interface
  auto_detect_interface_sound chosen h = elim (Option-cases (find_wifi system.interfaces)) [
    | inr (i, e) ↦
        let q = same_choice (auto_detect_interface system) {a = (i, i.name)} (rw e refl) h in
        inl (ap (λ r. is_usable r.0) (sym q) ∙ find_wifi_sound system.interfaces i e)
    | inl e ↦ elim (find_named-cases interface_names) [
      | inl (r, f, u) ↦
          let q = same_choice (auto_detect_interface system) {a = r} (rw (e, f) refl) h in
          inl (ap (λ r. is_usable r.0) (sym q) ∙ u)
      | inr (f, names) ↦
          let (name, found) =
            or_loopback-FallsBack (system.by_name (codes "lo")) chosen (rw (e, f) at h) in
          inr (name, found, find_wifi-NoWifi system.interfaces e, names)
    ]
  ]
