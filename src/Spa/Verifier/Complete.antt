-- ===== src/Spa/Verifier/Complete.antt =====
-- A client's packet reaches a server that knows the client's key: VerifyPacket accepts it.
use phantom_grid.Prelude.{
  ℕ, ◌+◌, ◌/◌, ◌≤◌, ◌<◌, Bool, true, Option, none, some, ◌≡◌, ◌≢◌, ap, ◌∙◌, arith, length, In, ok,
}
use phantom_grid.Prelude.Bytes.{Bytes, bytes_eq_refl}
use phantom_grid.Prelude.Words.{sign_bit, word64}
use phantom_grid.Prelude.Ip.{to16, length-to16}
use phantom_grid.Config.Spa.{asymmetric, DynamicSpaConfig}
use phantom_grid.Spa.Crypto.{Crypto, IsLawful}
use phantom_grid.Spa.Totp.{generate_totp, validate_totp}
use phantom_grid.Spa.Totp.Window.{InRange, validate_totp_defined, validate_totp-generate_totp}
use phantom_grid.Spa.Packet.{
  Entropy, SpaPacket, packet_ip, create_asymmetric_packet, parse_spa_packet, signed_data,
  verify_asymmetric_packet,
}
use phantom_grid.Spa.Packet.Create.{Fills, create_asymmetric_packet-Opens}
use phantom_grid.Spa.Verifier.{
  SeenCache, same_address, check_address, check_ip, check_timestamp, key_list, totp_valid,
  check_signature, check_packet, check_replay, packet_key, settle, verify_parsed, verify_packet,
}
use phantom_grid.Spa.Verifier.Sound.{to16_full}
use phantom_grid.Spa.Verifier.Checks.{
  Fresh, check_timestamp_iff, any_valid_complete, any_totp_complete,
}

-- The sender's address is the one in the packet.
check_ip_own :
    (packet : SpaPacket) (ip full : Bytes)
    → to16 ip ≡ some full
    → packet.client_ip ≡ some (packet_ip ip)
    → check_ip packet (some ip) ≡ none
unfolding check_ip check_address same_address packet_ip
check_ip_own packet ip full e p =
    ground (arith, to16_full full (length-to16 ip e), bytes_eq_refl full)

-- A packet that passes each check gets the verdict of the replay cache.
pub verify_packet_passes :
    (c : Crypto) (config : DynamicSpaConfig) (bytes : Bytes) (sender : Option Bytes) (clock : ℕ → ℕ)
    (cache : SeenCache) (packet : SpaPacket)
    → parse_spa_packet bytes ≡ some (ok packet)
    → packet.version ≡ 2
    → check_ip packet sender ≡ none
    → check_timestamp (clock 0) packet ≡ none
    → totp_valid c config packet (λ i. clock (i + 1)) ≡ some true
    → check_signature c config config.mode packet bytes ≡ some none
    → verify_packet c config bytes sender clock cache
      ≡ some (check_replay (clock 0) (packet_key c bytes) cache)
unfolding verify_packet verify_parsed check_packet settle
verify_packet_passes c config bytes sender clock cache packet parsed two ip t o s = ground arith

totp_known :
    {c : Crypto} (lawful : IsLawful c) (config : DynamicSpaConfig) (packet : SpaPacket)
    (secret : Bytes) (code made : ℕ) (clock : ℕ → ℕ)
    → 0 < config.totp_time_step
    → packet.totp ≡ code
    → In secret (key_list config.totp_secrets config.totp_secret)
    → made < sign_bit
    → generate_totp c secret config.totp_time_step made ≡ some code
    → ((i : ℕ) → InRange config.totp_time_step config.totp_tolerance (clock (i + 1)))
    → ((i : ℕ)
        → (made / config.totp_time_step
            ≤ clock (i + 1) / config.totp_time_step + config.totp_tolerance)
          × (clock (i + 1) / config.totp_time_step
              ≤ made / config.totp_time_step + config.totp_tolerance))
    → totp_valid c config packet (λ i. clock (i + 1)) ≡ some true
unfolding totp_valid
totp_known {c} lawful config packet secret code made clock p e i small g windows skew =
    let step = config.totp_time_step in
    let tolerance = config.totp_tolerance in
    rw e (
      any_totp_complete (λ s now. validate_totp c s step tolerance code now) (λ j. clock (j + 1))
        (key_list config.totp_secrets config.totp_secret)
        (λ s now. validate_totp_defined lawful s step p tolerance code now) i
        λ j.
          validate_totp-generate_totp lawful secret step p tolerance code (clock (j + 1)) made
            (windows j) small g (skew j).0 (skew j).1)

verify_defined :
    {c : Crypto} (lawful : IsLawful c) (key : Bytes) (packet : SpaPacket) (bytes signed : Bytes)
    → signed_data packet bytes ≡ some signed
    → length key ≡ 32
    → verify_asymmetric_packet c key packet bytes ≢ none
unfolding verify_asymmetric_packet
verify_defined lawful key packet bytes signed s n =
    rw s (lawful.verify_defined key signed packet.signature n)

signature_known :
    {c : Crypto} (lawful : IsLawful c) (config : DynamicSpaConfig) (key : Bytes)
    (packet : SpaPacket) (bytes signed : Bytes)
    → In (c.public key) (key_list config.public_keys config.public_key)
    → ((k : Bytes) → In k (key_list config.public_keys config.public_key) → length k ≡ 32)
    → signed_data packet bytes ≡ some signed
    → verify_asymmetric_packet c (c.public key) packet bytes ≡ some true
    → check_signature c config asymmetric packet bytes ≡ some none
unfolding check_signature
signature_known {c} lawful config key packet bytes signed known sizes s v = rw (
    any_valid_complete (λ k. verify_asymmetric_packet c k packet bytes)
      (key_list config.public_keys config.public_key)
      (λ k i. verify_defined lawful k packet bytes signed s (sizes k i)) known v)

-- CreateAsymmetricPacket builds a packet, with a key and a TOTP secret that the server knows, and
-- VerifyPacket gives it the verdict of the replay cache, which accepts and enters it unless its
-- digest is already there. The conditions: the private key has 64 bytes, the source of randomness
-- does not fail, and the address has a 16-byte form; the configuration is of mode asymmetric, its
-- time step is not 0, it lists the public key, all its keys have 32 bytes, and it lists the TOTP
-- secret with the client's time step; the clocks read times of int64 that are not negative, the
-- server's is within 300 seconds of the client's at the check of the timestamp, and at each check
-- of a TOTP within the tolerance in time steps, with a window in the range of int64; and the packet
-- comes from the address that it was built for.
pub create-verify :
    {c : Crypto} (lawful : IsLawful c) (config : DynamicSpaConfig) (key totp_secret ip : Bytes)
    (obfuscate : Bool) (made clock : ℕ → ℕ) (entropy : Entropy) (full : Bytes) (cache : SeenCache)
    → config.mode ≡ asymmetric
    → 0 < config.totp_time_step
    → Fills entropy
    → length key ≡ 64
    → In (c.public key) (key_list config.public_keys config.public_key)
    → ((k : Bytes) → In k (key_list config.public_keys config.public_key) → length k ≡ 32)
    → In totp_secret (key_list config.totp_secrets config.totp_secret)
    → made 0 < sign_bit
    → made 1 < word64
    → clock 0 < sign_bit
    → Fresh (clock 0) (made 1)
    → ((i : ℕ) → InRange config.totp_time_step config.totp_tolerance (clock (i + 1)))
    → ((i : ℕ)
        → (made 0 / config.totp_time_step
            ≤ clock (i + 1) / config.totp_time_step + config.totp_tolerance)
          × (clock (i + 1) / config.totp_time_step
              ≤ made 0 / config.totp_time_step + config.totp_tolerance))
    → to16 ip ≡ some full
    → (bytes : Bytes) × (create_asymmetric_packet c key totp_secret config.totp_time_step obfuscate
          ip made entropy
        ≡ some (ok bytes))
      × (verify_packet c config bytes (some ip) clock cache
          ≡ some (check_replay (clock 0) (packet_key c bytes) cache))
create-verify {c} lawful config key totp_secret ip obfuscate made clock entropy full cache mode p
      fills k known sizes secret small range now near windows skew e =
    let step = config.totp_time_step in
    let (bytes, code, created, ec, o, v) =
      create_asymmetric_packet-Opens lawful totp_secret step p obfuscate ip made entropy fills range
        key k in
    (
      bytes,
      created,
      verify_packet_passes c config bytes (some ip) clock cache o.packet o.parsed o.version
          (check_ip_own o.packet ip full e o.client_ip)
          ((check_timestamp_iff (clock 0) o.packet now (rw o.timestamp range)).1
            (rw o.timestamp near))
          (totp_known lawful config o.packet totp_secret code (made 0) clock p o.totp secret small
            ec windows skew)
          (ap (λ m. check_signature c config m o.packet bytes) mode
            ∙ signature_known lawful config key o.packet bytes o.signed known sizes o.signed_lem v),
    )
