-- ===== src/Commands/Setup/Configured.antt =====
-- The keys in the configuration that main makes.
use phantom_grid.Prelude.{
  false, not, Option, none, some, [], ◌∷◌, ◌++◌, ◌≡◌, refl, ap, ◌∙◌, sym, arith, ◌⊎◌, inl, inr,
  Bool-cases, Option-cases, if_either, is_empty, length, Result, ok, err, ==_iff, ◌==◌,
}
use mathlib.Core.Path.{subst}
use phantom_grid.Prelude.Bytes.{Bytes, codes, bytes_eq}
use phantom_grid.Prelude.White.{trim_white}
use phantom_grid.Prelude.Table.{Table, lookup}
use phantom_grid.Config.Spa.{
  SpaMode, static, dynamic, asymmetric, other, DynamicSpaConfig, default_dynamic_spa_config,
}
use phantom_grid.Config.Keys.{
  KeyError, load_key, with_public, both_keys, load_keys_from_file, unreadable_public,
  invalid_public,
}
use phantom_grid.Spa.Crypto.{Crypto}
use phantom_grid.Commands.Setup.{
  Flags, SetupError, invalid_spa_mode, spa_mode_of, with_keys, load_mode_keys, public_key_path,
  with_totp, file_secret, then_totp, with_mode, spa_config_of,
}

is_empty-append : (dir : Bytes) → is_empty (dir ++ codes "/spa_public.key") ≡ false
is_empty-append [] = refl
is_empty-append (b ∷ dir) = refl

abbrev value_or {ℓ κ} : {E : Type ℓ} {A : Type κ} → A → Result E A → A
value_or d (ok a) = a
value_or d (err e) = d

abbrev some_or {ℓ} : {A : Type ℓ} → A → Option A → A
some_or d none = d
some_or d (some a) = a

spa_mode_of-cases :
    (text : Bytes)
    → ((e : SetupError) × (spa_mode_of text ≡ err e))
      ⊎ ((spa_mode_of text ≡ ok dynamic) ⊎ (spa_mode_of text ≡ ok asymmetric))
unfolding spa_mode_of
spa_mode_of-cases text = elim (Bool-cases (bytes_eq text (codes "dynamic"))) [
  | inl d ↦ inr (inl (rw (d, spa_mode_of) refl))
  | inr d ↦ elim (Bool-cases (bytes_eq text (codes "asymmetric"))) [
    | inl a ↦ inr (inr (rw (d, spa_mode_of) (rw a refl)))
    | inr a ↦ inl (invalid_spa_mode text, rw (d, spa_mode_of) (rw a refl))
  ]
]

module _ (c : Crypto) (files : Table Bytes) (random : Option Bytes) (flags : Flags) where
  -- The file of the public key, and its content without white space.
  abbrev pub KeyFile : Bytes → Type 0
  KeyFile key =
      (text : Bytes) × (lookup (public_key_path c files random flags) files ≡ some text)
      × (key ≡ trim_white text)
      × (length key ≡ 32)

  -- The keys of the configuration, by its mode.
  abbrev pub KeysOf : SpaMode → DynamicSpaConfig → Type 0
  KeysOf dynamic config = (config.hmac_secrets ≡ []) × (config.hmac_secret ≡ [])
  KeysOf asymmetric config = (key : Bytes) × (config.public_keys ≡ key ∷ []) × KeyFile key
  KeysOf static config = ⊥
  KeysOf (other m) config = ⊥

  -- The configuration is of the mode and has its keys.
  abbrev pub Fits : SpaMode → DynamicSpaConfig → Type 0
  Fits mode config = (config.mode ≡ mode) × KeysOf mode config

  path_given : is_empty (public_key_path c files random flags) ≡ false
  path_given = is_empty-append flags.spa_key_dir

  load_key-KeyFile :
      (key : Option Bytes)
      → load_key files unreadable_public invalid_public 32 (public_key_path c files random flags)
        ≡ ok key
      → (k : Bytes) × (key ≡ some k) × KeyFile k
  unfolding load_key
  load_key-KeyFile key e =
      let given = rw path_given at e in
      elim (Option-cases (lookup (public_key_path c files random flags) files)) [
        | inl gone ↦ absurd (ground (arith, rw gone at given))
        | inr (text, found) ↦
            let read = rw found at given in
            elim (Bool-cases (length (trim_white text) == 32)) [
              | inr short ↦ absurd (ground (arith, rw short at read))
              | inl long ↦
                  let same : key ≡ some (trim_white text) = ground (arith, rw long at read) in
                  (trim_white text, same, (text, found, refl, (==_iff _ _).0 long))
            ]
      ]

  file_secret-Fits :
      (mode : SpaMode) (o : Option Bytes) (config : DynamicSpaConfig)
      → Fits mode config
      → Fits mode (file_secret c files random o config)
  file_secret-Fits mode none config k = k
  file_secret-Fits dynamic (some text) config k = k
  file_secret-Fits asymmetric (some text) config k = k
  file_secret-Fits static (some text) config k = k
  file_secret-Fits (other m) (some text) config k = k

  given_secret-Fits :
      (mode : SpaMode) (secret : Bytes) (config : DynamicSpaConfig)
      → Fits mode config
      → Fits mode (record config { totp_secret = secret })
  given_secret-Fits dynamic secret config k = k
  given_secret-Fits asymmetric secret config k = k
  given_secret-Fits static secret config k = k
  given_secret-Fits (other m) secret config k = k

  with_totp-Fits :
      (mode : SpaMode) (config : DynamicSpaConfig)
      → Fits mode config
      → Fits mode (with_totp c files random flags config)
  unfolding with_totp
  with_totp-Fits mode config k =
      if_either (Fits mode) (not (is_empty flags.spa_totp_secret))
        (λ _. given_secret-Fits mode _ config k) (file_secret-Fits mode _ config k)

  public_loaded :
      (public : Result KeyError (Option Bytes)) (config loaded : DynamicSpaConfig)
      → ((key : Option Bytes) → public ≡ ok key → (k : Bytes) × (key ≡ some k) × KeyFile k)
      → with_keys c files random (both_keys c public (ok none)) config ≡ ok loaded
      → (key : Bytes) × (loaded ≡ record config { public_keys = key ∷ [] }) × KeyFile key
  unfolding both_keys with_public
  public_loaded (err f) config loaded h e = absurd (ground arith)
  public_loaded (ok none) config loaded h e = absurd (ground (arith, e))
  public_loaded (ok (some key)) config loaded h e =
      let (k, same, file) = h (some key) refl in
      let found : key ≡ k = cc in
      (
        k,
        sym (ap (value_or config) e) ∙ ap (λ x. record config { public_keys = x ∷ [] }) found,
        file,
      )

  load_mode_keys-Fits :
      (mode : SpaMode) (config loaded : DynamicSpaConfig)
      → config.mode ≡ mode
      → config.hmac_secrets ≡ []
      → config.hmac_secret ≡ []
      → (mode ≡ dynamic) ⊎ (mode ≡ asymmetric)
      → load_mode_keys c files random flags mode config ≡ ok loaded
      → Fits mode loaded
  unfolding load_keys_from_file
  load_mode_keys-Fits dynamic config loaded m s t known e =
      subst (Fits dynamic) (ap (value_or config) e) (m, (s, t))
  load_mode_keys-Fits asymmetric config loaded m s t known e =
      let (key, l, file) = public_loaded _ config loaded load_key-KeyFile (unfold load_key in e) in
      subst (Fits asymmetric) (sym l) (m, (key, refl, file))
  load_mode_keys-Fits static config loaded m s t known e = absurd (ground (arith, known))
  load_mode_keys-Fits (other x) config loaded m s t known e = absurd (ground (arith, known))

  then_totp-Fits :
      (mode : SpaMode) (loaded : Result SetupError DynamicSpaConfig) (config : DynamicSpaConfig)
      → ((l : DynamicSpaConfig) → loaded ≡ ok l → Fits mode l)
      → then_totp c files random flags loaded ≡ ok (some config)
      → Fits mode config
  then_totp-Fits mode (err f) config h e = absurd (ground (arith, e))
  then_totp-Fits mode (ok l) config h e =
      subst (Fits mode) (ap (λ r. some_or l (value_or none r)) e) (with_totp-Fits mode l (h l refl))

  abbrev config_in : SpaMode → DynamicSpaConfig
  config_in mode = record (default_dynamic_spa_config random) { mode = mode }

  with_mode-Fits :
      (r : Result SetupError SpaMode) (config : DynamicSpaConfig)
      → ((e : SetupError) × (r ≡ err e)) ⊎ ((r ≡ ok dynamic) ⊎ (r ≡ ok asymmetric))
      → with_mode c files random flags r ≡ ok (some config)
      → (mode : SpaMode) × Fits mode config
  unfolding default_dynamic_spa_config
  with_mode-Fits r config (inl (f, b)) e = absurd (ground (arith, rw b at e))
  with_mode-Fits r config (inr (inl d)) e = (
    dynamic,
    then_totp-Fits dynamic (ok (config_in dynamic)) config
        (λ l. load_mode_keys-Fits dynamic (config_in dynamic) l refl refl refl (inl refl))
        (rw d at e),
  )
  with_mode-Fits r config (inr (inr a)) e = (
    asymmetric,
    then_totp-Fits asymmetric
        (load_mode_keys c files random flags asymmetric (config_in asymmetric)) config
        (λ l. load_mode_keys-Fits asymmetric (config_in asymmetric) l refl refl refl (inr refl))
        (rw a at e),
  )

  -- In the configuration of an agent that starts with the modes dynamic or asymmetric: no HMAC
  -- secrets under dynamic, and under asymmetric the key of the file.
  pub spa_config_of-Fits :
      (config : DynamicSpaConfig)
      → spa_config_of c files random flags ≡ ok (some config)
      → (mode : SpaMode) × Fits mode config
  unfolding spa_config_of
  spa_config_of-Fits config e = elim (Bool-cases (bytes_eq flags.spa_mode (codes "static"))) [
    | inl st ↦ absurd (ground (arith, rw st at e))
    | inr st ↦ with_mode-Fits _ config (spa_mode_of-cases flags.spa_mode) (rw st at e)
  ]
