-- ===== src/Commands/Setup/Accepting.antt =====
-- Which packets the agent accepts under the configuration that main makes.
use phantom_grid.Prelude.{
  ℕ, true, Option, some, [], ◌∷◌, ◌++◌, ◌≡◌, refl, ap, ◌∙◌, sym, length, ok, In, here, there,
}
use mathlib.Core.Path.{subst}
use phantom_grid.Prelude.Bytes.{Bytes}
use phantom_grid.Prelude.White.{trim_white}
use phantom_grid.Prelude.Table.{Table, lookup}
use phantom_grid.Config.Spa.{SpaMode, static, dynamic, asymmetric, other, DynamicSpaConfig}
use phantom_grid.Spa.Crypto.{Crypto}
use phantom_grid.Spa.Packet.{SpaPacket, parse_spa_packet}
use phantom_grid.Spa.Verifier.{SeenCache, verify_packet, key_list}
use phantom_grid.Spa.Verifier.Sound.{Signed, verify_packet-Signed}
use phantom_grid.Commands.Setup.{Flags, public_key_path, spa_config_of}
use phantom_grid.Commands.Setup.Configured.{KeysOf, spa_config_of-Fits}

In-one {ℓ} : {A : Type ℓ} {a b : A} → In a (b ∷ []) → a ≡ b
In-one (here e) = e
In-one (there i) = elim i [ ]

module _ (c : Crypto) (files : Table Bytes) (random : Option Bytes) (flags : Flags) where
  -- What an accepted packet shows: the key in the file has signed all of it in front of its
  -- signature.
  abbrev pub SignedByFile : Bytes → Type 0
  SignedByFile bytes =
      (packet : SpaPacket) × (text : Bytes) × (signed : Bytes) × (parse_spa_packet bytes
        ≡ some (ok packet))
      × (lookup (public_key_path c files random flags) files ≡ some text)
      × (length (trim_white text) ≡ 32)
      × (bytes ≡ signed ++ packet.signature)
      × (c.verify (trim_white text) signed packet.signature ≡ some true)

  Signed-SignedByFile :
      (mode : SpaMode) (config : DynamicSpaConfig) (packet : SpaPacket) (bytes : Bytes)
      → KeysOf c files random flags mode config
      → parse_spa_packet bytes ≡ some (ok packet)
      → Signed c config mode packet bytes
      → (mode ≡ asymmetric) × SignedByFile bytes
  unfolding key_list
  Signed-SignedByFile dynamic config packet bytes (none_listed, none_single) parsed
        (key, i, signed, split, t) =
      elim (rw (none_listed, none_single) at i) [ ]
  Signed-SignedByFile asymmetric config packet bytes (key, listed, (text, found, same, size)) parsed
        (k, i, signed, split, valid) =
      let e = In-one (rw listed at i) ∙ same in
      (
        refl,
        (
          packet,
          text,
          signed,
          parsed,
          found,
          ap length (sym same) ∙ size,
          split,
          subst (λ z. c.verify z signed packet.signature ≡ some true) e valid,
        ),
      )
  Signed-SignedByFile static config packet bytes k parsed s = elim s [ ]
  Signed-SignedByFile (other m) config packet bytes k parsed s = elim s [ ]

  -- An agent that main has configured for the modes dynamic or asymmetric accepts a packet only
  -- if the key in the file spa_public.key of the directory of its keys, which has 32 bytes, signed
  -- all bytes of the packet in front of its signature. In particular it accepts none in mode
  -- dynamic, for which main loads no secret.
  pub verify_packet-spa_config_of :
      (config : DynamicSpaConfig) (bytes : Bytes) (actual : Option Bytes) (clock : ℕ → ℕ)
      (cache cache' : SeenCache)
      → spa_config_of c files random flags ≡ ok (some config)
      → verify_packet c config bytes actual clock cache ≡ some (ok tt, cache')
      → (config.mode ≡ asymmetric) × SignedByFile bytes
  verify_packet-spa_config_of config bytes actual clock cache cache' made accepted =
      let (mode, (m, k)) = spa_config_of-Fits c files random flags config made in
      let (packet, parsed, s) =
        verify_packet-Signed c config bytes actual clock cache cache' accepted in
      let (a, file) =
        Signed-SignedByFile mode config packet bytes k parsed
          (subst (λ x. Signed c config x packet bytes) m s) in
      (m ∙ a, file)
