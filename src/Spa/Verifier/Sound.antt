-- ===== src/Spa/Verifier/Sound.antt =====
-- What VerifyPacket has checked of a packet that it accepts.
use mathlib.Core.Path.{subst}
use phantom_grid.Prelude.{
  ℕ, ◌+◌, true, Option, none, some, ◌++◌, ◌≡◌, refl, sym, ap, ◌∙◌, arith, inl, inr, >>=-eq-some,
  length, In, Result, ok, err,
}
use phantom_grid.Prelude.Bytes.{Bytes, bytes_eq, bytes_eq_iff}
use phantom_grid.Prelude.Ip.{to16}
use phantom_grid.Config.Spa.{SpaMode, static, dynamic, asymmetric, other, DynamicSpaConfig}
use phantom_grid.Spa.Crypto.{Crypto, IsLawful}
use phantom_grid.Spa.Packet.{
  SpaPacket, ParseError, parse_spa_packet, signature_size, verify_asymmetric_packet,
  verify_dynamic_packet,
}
use phantom_grid.Spa.Packet.Parse.{Accepted, Versioned, parse_spa_packet_sound}
use phantom_grid.Spa.Verifier.{
  SeenCache, same_address, check_address, check_ip, check_timestamp, any_valid, key_list,
  totp_valid, check_signature, check_packet, check_replay, packet_key, settle, verify_parsed,
  verify_packet,
}
use phantom_grid.Spa.Verifier.Checks.{any_valid_sound}

same_address_sound :
    (p a : Option Bytes) → same_address p a ≡ none → (ip : Bytes) × (p ≡ some ip) × (a ≡ some ip)
unfolding same_address
same_address_sound (some p) (some a) h =
    (p, refl, ap some (sym ((bytes_eq_iff p a).0 (ground arith))))
same_address_sound (some p) none h = absurd (ground arith)
same_address_sound none a h = absurd (ground arith)

pub to16_full : (ip : Bytes) → length ip ≡ 16 → to16 ip ≡ some ip
unfolding to16
to16_full ip e = ground arith

check_address_sound :
    (ip : Bytes) (actual : Option Bytes)
    → length ip ≡ 16
    → check_address (some ip) actual ≡ none
    → (sender : Bytes) × (actual ≡ some sender) × (to16 sender ≡ some ip)
unfolding check_address
check_address_sound ip (some a) e h =
    let (full, p, q) = same_address_sound (to16 ip) (to16 a) h in
    (a, refl, q ∙ sym p ∙ to16_full ip e)
check_address_sound ip none e h = absurd (ground arith)

ip_bound :
    (packet : SpaPacket) (actual : Option Bytes)
    → Versioned packet
    → packet.version ≡ 2
    → check_ip packet actual ≡ none
    → (sender : Bytes) × (ip : Bytes) × (actual ≡ some sender)
      × (to16 sender ≡ some ip)
      × (packet.client_ip ≡ some ip)
unfolding check_ip
ip_bound packet actual (inl (one, _)) two h = absurd (omega arith)
ip_bound packet actual (inr (_, (ip, e, n))) two h =
    let same : check_address (some ip) actual ≡ none = ground arith in
    let (sender, s, t) = check_address_sound ip actual n same in (sender, ip, s, t, e)

module _ (c : Crypto) (config : DynamicSpaConfig) where
  -- The parts of an accepting run.
  pub record Passed (bytes : Bytes) (actual : Option Bytes) (clock : ℕ → ℕ)
      (cache cache' : SeenCache) : Type 0 where
    pub packet : SpaPacket
    pub parsed : parse_spa_packet bytes ≡ some (ok packet)
    pub ip : check_ip packet actual ≡ none
    pub timestamp : check_timestamp (clock 0) packet ≡ none
    pub totp : totp_valid c config packet (λ i. clock (i + 1)) ≡ some true
    pub signature : check_signature c config config.mode packet bytes ≡ some none
    pub replay : check_replay (clock 0) (packet_key c bytes) cache ≡ (ok tt, cache')

  check_packet-none :
      (packet : SpaPacket) (bytes : Bytes) (actual : Option Bytes) (clock : ℕ → ℕ)
      → check_packet c config packet bytes actual clock ≡ some none
      → (check_ip packet actual ≡ none)
        × (check_timestamp (clock 0) packet ≡ none)
        × (totp_valid c config packet (λ i. clock (i + 1)) ≡ some true)
        × (check_signature c config config.mode packet bytes ≡ some none)
  unfolding check_packet
  check_packet-none packet bytes actual clock h = ground arith

  verify_parsed-Passed :
      (bytes : Bytes) (actual : Option Bytes) (clock : ℕ → ℕ) (cache : SeenCache)
      (cache' : SeenCache) (r : Result ParseError SpaPacket)
      → parse_spa_packet bytes ≡ some r
      → verify_parsed c config bytes actual clock cache r ≡ some (ok tt, cache')
      → Passed bytes actual clock cache cache'
  unfolding verify_parsed settle
  verify_parsed-Passed bytes actual clock cache cache' (err e) p h = absurd (ground arith)
  verify_parsed-Passed bytes actual clock cache cache' (ok packet) p h =
      let (check, e, h') = >>=-eq-some (check_packet c config packet bytes actual clock) _ h in
      let passed : check ≡ none = ground arith in
      let (a, b, t, s) = check_packet-none packet bytes actual clock (e ∙ ap some passed) in
      record {
        packet = packet;
        parsed = p;
        ip = a;
        timestamp = b;
        totp = t;
        signature = s;
        replay = ground arith;
      }

  pub verify_packet-Passed :
      (bytes : Bytes) (actual : Option Bytes) (clock : ℕ → ℕ) (cache cache' : SeenCache)
      → verify_packet c config bytes actual clock cache ≡ some (ok tt, cache')
      → Passed bytes actual clock cache cache'
  unfolding verify_packet
  verify_packet-Passed bytes actual clock cache cache' h =
      let (r, er, h') = >>=-eq-some (parse_spa_packet bytes) _ h in
      verify_parsed-Passed bytes actual clock cache cache' r er h'

  -- The signature of the packet, by one of the keys of the configuration's mode, over all bytes in
  -- front of it.
  abbrev pub Signed : SpaMode → SpaPacket → Bytes → Type 0
  Signed asymmetric packet bytes =
      (key : Bytes) × In key (key_list config.public_keys config.public_key)
      × (signed : Bytes) × (bytes ≡ signed ++ packet.signature)
      × (c.verify key signed packet.signature ≡ some true)
  Signed dynamic packet bytes =
      (secret : Bytes) × In secret (key_list config.hmac_secrets config.hmac_secret)
      × (signed : Bytes) × (bytes ≡ signed ++ packet.signature)
      × (c.hmac_sha256 secret signed ≡ packet.signature)
  Signed _ packet bytes = ⊥

  signature_Signed :
      (mode : SpaMode) (packet : SpaPacket) (bytes : Bytes)
      → Accepted bytes packet
      → check_signature c config mode packet bytes ≡ some none
      → Signed mode packet bytes
  unfolding check_signature verify_asymmetric_packet verify_dynamic_packet
  signature_Signed asymmetric packet bytes a h =
      let keys = key_list config.public_keys config.public_key in
      let (valid, e, h') =
        >>=-eq-some (any_valid (λ key. verify_asymmetric_packet c key packet bytes) keys) _ h in
      let passed : valid ≡ true = ground arith in
      let (key, i, t) = any_valid_sound _ keys (e ∙ ap some passed) in
      (key, i, a.signed, a.split, rw a.signed_lem at t)
  signature_Signed dynamic packet bytes a h =
      let secrets = key_list config.hmac_secrets config.hmac_secret in
      let (valid, e, h') =
        >>=-eq-some (any_valid (λ key. verify_dynamic_packet c key packet bytes) secrets) _ h in
      let passed : valid ≡ true = ground arith in
      let (key, i, t) = any_valid_sound _ secrets (e ∙ ap some passed) in
      let t' : some (bytes_eq (c.hmac_sha256 key a.signed) packet.signature) ≡ some true =
        rw a.signed_lem at t in
      (key, i, a.signed, a.split, (bytes_eq_iff _ _).0 (ground arith))
  signature_Signed static packet bytes a h = absurd (ground arith)
  signature_Signed (other m) packet bytes a h = absurd (ground arith)

  -- VerifyPacket accepts a packet only under a mode of the configuration with signatures, and only
  -- if one of the configured keys signed all bytes of the packet in front of its signature.
  pub verify_packet-Signed :
      (bytes : Bytes) (actual : Option Bytes) (clock : ℕ → ℕ) (cache cache' : SeenCache)
      → verify_packet c config bytes actual clock cache ≡ some (ok tt, cache')
      → (packet : SpaPacket) × (parse_spa_packet bytes ≡ some (ok packet))
        × Signed config.mode packet bytes
  verify_packet-Signed bytes actual clock cache cache' h =
      let r = verify_packet-Passed bytes actual clock cache cache' h in
      let (a, v) = parse_spa_packet_sound bytes r.packet r.parsed in
      (r.packet, r.parsed, signature_Signed config.mode r.packet bytes a r.signature)

  -- A version 2 packet that is accepted carries the address of its sender, in 16-byte form.
  pub verify_packet_bound :
      (bytes : Bytes) (actual : Option Bytes) (clock : ℕ → ℕ) (cache cache' : SeenCache)
      (packet : SpaPacket)
      → verify_packet c config bytes actual clock cache ≡ some (ok tt, cache')
      → parse_spa_packet bytes ≡ some (ok packet)
      → packet.version ≡ 2
      → (sender : Bytes) × (ip : Bytes) × (actual ≡ some sender)
        × (to16 sender ≡ some ip)
        × (packet.client_ip ≡ some ip)
  verify_packet_bound bytes actual clock cache cache' packet h parsed two =
      let r = verify_packet-Passed bytes actual clock cache cache' h in
      let same : r.packet ≡ packet = cc (r.parsed, parsed) in
      let (_, v) = parse_spa_packet_sound bytes packet parsed in
      ip_bound packet actual v two (rw same at r.ip)

-- The size of the signature tells the mode.
mode_asymmetric :
    (packet : SpaPacket)
    → signature_size packet.mode ≡ some (length packet.signature)
    → length packet.signature ≡ 64
    → packet.mode ≡ 2
unfolding signature_size
mode_asymmetric packet e n = ground arith

mode_dynamic :
    (packet : SpaPacket)
    → signature_size packet.mode ≡ some (length packet.signature)
    → length packet.signature ≡ 32
    → packet.mode ≡ 1
unfolding signature_size
mode_dynamic packet e n = ground arith

abbrev pub ModeOf : SpaMode → ℕ → Type 0
ModeOf asymmetric n = n ≡ 2
ModeOf dynamic n = n ≡ 1
ModeOf _ n = ⊥

Signed-ModeOf :
    {c : Crypto} (lawful : IsLawful c) (config : DynamicSpaConfig) (mode : SpaMode)
    (packet : SpaPacket) (bytes : Bytes)
    → signature_size packet.mode ≡ some (length packet.signature)
    → Signed c config mode packet bytes
    → ModeOf mode packet.mode
Signed-ModeOf lawful config asymmetric packet bytes e (key, _, signed, _, t) =
    mode_asymmetric packet e (lawful.verify_size key signed packet.signature t)
Signed-ModeOf lawful config dynamic packet bytes e (key, _, signed, _, t) =
    mode_dynamic packet e (ap length (sym t) ∙ lawful.hmac_sha256_size key signed)
Signed-ModeOf lawful config static packet bytes e s = absurd s
Signed-ModeOf lawful config (other m) packet bytes e s = absurd s

-- Under a configuration of mode asymmetric only packets of mode 2 are accepted, under one of mode
-- dynamic only packets of mode 1, and under any other none at all.
pub verify_packet-ModeOf :
    {c : Crypto} (lawful : IsLawful c) (config : DynamicSpaConfig) (bytes : Bytes)
    (actual : Option Bytes) (clock : ℕ → ℕ) (cache cache' : SeenCache) (packet : SpaPacket)
    → verify_packet c config bytes actual clock cache ≡ some (ok tt, cache')
    → parse_spa_packet bytes ≡ some (ok packet)
    → ModeOf config.mode packet.mode
verify_packet-ModeOf {c} lawful config bytes actual clock cache cache' packet h parsed =
    let (q, parsed', s) = verify_packet-Signed c config bytes actual clock cache cache' h in
    let same : q ≡ packet = cc (parsed, parsed') in
    let (a, v) = parse_spa_packet_sound bytes packet parsed in
    Signed-ModeOf lawful config config.mode packet bytes a.size
      (subst (λ r. Signed c config config.mode r bytes) same s)
