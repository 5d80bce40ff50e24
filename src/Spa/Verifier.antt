-- ===== src/Spa/Verifier.antt =====
-- internal/spa/verifier.go. A run-time panic is `none`; the error of a rejected packet is a value.
-- The clock is read several times: `clock i` is what the i-th call of time.Now() returns.
pub mod Checks
pub mod Sound
pub mod Replay
pub mod Complete
use phantom_grid.Prelude.{
  ℕ, ◌+◌, Bool, true, false, not, ◌||◌, Option, none, some, List, [], ◌∷◌, ◌==◌, ltb, if◌then◌else◌,
  ◌>>=◌, is_empty, length, Result, ok, err,
}
use phantom_grid.Prelude.Bytes.{Bytes, bytes_eq, hex_encode}
use phantom_grid.Prelude.Words.{sub64, neg64, is_negative, greater64}
use phantom_grid.Prelude.Table.{Table, lookup, insert, delete_if}
use phantom_grid.Prelude.Ip.{to16}
use phantom_grid.Config.Spa.{SpaMode, static, dynamic, asymmetric, other, DynamicSpaConfig}
use phantom_grid.Spa.Crypto.{Crypto}
use phantom_grid.Spa.Totp.{validate_totp}
use phantom_grid.Spa.Packet.{
  SpaPacket, ParseError, parse_spa_packet, verify_asymmetric_packet, verify_dynamic_packet,
}

-- Why VerifyPacket returns false.
pub data VerifyError : Type 0 where
  parse_failed : ParseError → VerifyError
  unsupported_packet_version : ℕ → VerifyError
  missing_client_ip invalid_ip_format ip_hijacking : VerifyError
  timestamp_out_of_range : ℕ → VerifyError
  invalid_totp no_key_matched no_secret_matched : VerifyError
  unsupported_mode : SpaMode → VerifyError
  replay_detected : VerifyError

-- The digests of the packets that were accepted, each with the time.
abbrev pub SeenCache : Type 0
SeenCache = Table ℕ

-- A check that a packet passes, or its error.
abbrev pub Check : Type 0
Check = Option VerifyError

-- NewVerifier
abbrev pub new_verifier : SeenCache
new_verifier = []

-- The two addresses in 16-byte form are compared byte by byte.
unfoldable pub same_address : Option Bytes → Option Bytes → Check
same_address (some p) (some a) = if bytes_eq p a then none else some ip_hijacking
same_address _ _ = some invalid_ip_format

-- The binding of a version 2 packet to its sender; the address of the sender may be nil.
unfoldable pub check_address : Option Bytes → Option Bytes → Check
check_address (some packet_ip) (some actual) = same_address (to16 packet_ip) (to16 actual)
check_address _ _ = some missing_client_ip

unfoldable pub check_ip : SpaPacket → Option Bytes → Check
check_ip packet actual = if packet.version == 2 then check_address packet.client_ip actual else none

abbrev pub max_time_diff : ℕ
max_time_diff = 300

-- |current - timestamp| as the code takes it on `int64`.
unfoldable pub time_diff : ℕ → ℕ → ℕ
time_diff current timestamp =
    let diff = sub64 current timestamp in if is_negative diff then neg64 diff else diff

unfoldable pub check_timestamp : ℕ → SpaPacket → Check
check_timestamp current packet =
    let diff = time_diff current packet.timestamp in
    if greater64 diff max_time_diff then some (timestamp_out_of_range diff) else none

-- Tries a test on each key until one passes.
unfoldable pub any_valid : (Bytes → Option Bool) → List Bytes → Option Bool
any_valid test [] = some false
any_valid test (key ∷ keys) =
    let rest = any_valid test keys in do valid ← test key; if valid then some true else rest

-- The same with the clock, which each call of ValidateTOTP reads once.
unfoldable pub any_totp : (Bytes → ℕ → Option Bool) → (ℕ → ℕ) → List Bytes → Option Bool
any_totp test clock [] = some false
any_totp test clock (secret ∷ secrets) =
    let rest = any_totp test (λ i. clock (i + 1)) secrets in
    do valid ← test secret (clock 0); if valid then some true else rest

-- A list of keys or, where there is none, the single key, unless it is empty too.
unfoldable pub key_list : List Bytes → Bytes → List Bytes
key_list (key ∷ keys) single = key ∷ keys
key_list [] [] = []
key_list [] (b ∷ bs) = (b ∷ bs) ∷ []

module _ (c : Crypto) (config : DynamicSpaConfig) where
  unfoldable pub totp_valid : SpaPacket → (ℕ → ℕ) → Option Bool
  totp_valid packet clock =
      any_totp
        (λ secret now.
          validate_totp c secret config.totp_time_step config.totp_tolerance packet.totp now)
        clock (key_list config.totp_secrets config.totp_secret)

  -- The switch over the mode of the configuration.
  unfoldable pub check_signature : SpaMode → SpaPacket → Bytes → Option Check
  check_signature asymmetric packet bytes = do
    valid ←
        any_valid (λ key. verify_asymmetric_packet c key packet bytes)
          (key_list config.public_keys config.public_key)
    some (if valid then none else some no_key_matched)
  check_signature dynamic packet bytes = do
    valid ←
        any_valid (λ secret. verify_dynamic_packet c secret packet bytes)
          (key_list config.hmac_secrets config.hmac_secret)
    some (if valid then none else some no_secret_matched)
  check_signature static packet bytes = some (some (unsupported_mode static))
  check_signature (other mode) packet bytes = some (some (unsupported_mode (other mode)))

  -- The checks between the parser and the replay cache, in their order.
  unfoldable pub check_packet : SpaPacket → Bytes → Option Bytes → (ℕ → ℕ) → Option Check
  check_packet packet bytes actual clock =
      if not (packet.version == 1 || packet.version == 2)
      then some (some (unsupported_packet_version packet.version))
      else elim (check_ip packet actual) [
        | some e ↦ some (some e)
        | none ↦ elim (check_timestamp (clock 0) packet) [
          | some e ↦ some (some e)
          | none ↦ do
            valid ← totp_valid packet (λ i. clock (i + 1))
            if not valid then some (some invalid_totp) else check_signature config.mode packet bytes
        ]
      ]

  -- VerifyTOTPOnly
  unfoldable pub verify_totp_only : ℕ → ℕ → Option Bool
  verify_totp_only totp now =
      validate_totp c config.totp_secret config.totp_time_step config.totp_tolerance totp now

unfoldable pub is_stale : ℕ → ℕ → Bool
is_stale current seen = greater64 (sub64 current seen) max_time_diff

unfoldable pub clean_up : ℕ → SeenCache → SeenCache
clean_up current cache =
    if ltb 1000 (length cache) then delete_if (is_stale current) cache else cache

abbrev pub Verdict : Type 0
Verdict = Result VerifyError (Unit {0})

-- The critical section at the end of VerifyPacket: one step under the mutex.
unfoldable pub check_replay : ℕ → Bytes → SeenCache → Verdict × SeenCache
check_replay current key cache =
    let cleaned = clean_up current cache in
    elim (lookup key cleaned) [
      | some seen ↦ (err replay_detected, cleaned)
      | none ↦ (ok tt, insert key current cleaned)
    ]

module _ (c : Crypto) where
  -- The key of a packet in the cache.
  unfoldable pub packet_key : Bytes → Bytes
  packet_key bytes = hex_encode (c.sha256 bytes)

  -- What VerifyPacket returns after the checks before the replay cache.
  unfoldable pub settle : Bytes → ℕ → SeenCache → Check → Verdict × SeenCache
  settle bytes current cache (some e) = (err e, cache)
  settle bytes current cache none = check_replay current (packet_key bytes) cache

  unfoldable pub verify_parsed :
      DynamicSpaConfig
      → Bytes
      → Option Bytes
      → (ℕ → ℕ)
      → SeenCache
      → Result ParseError SpaPacket
      → Option (Verdict × SeenCache)
  verify_parsed config bytes actual clock cache (err e) = some (err (parse_failed e), cache)
  verify_parsed config bytes actual clock cache (ok packet) = do
    check ← check_packet c config packet bytes actual clock
    some (settle bytes (clock 0) cache check)

  unfoldable pub verify_packet :
      DynamicSpaConfig → Bytes → Option Bytes → (ℕ → ℕ) → SeenCache → Option (Verdict × SeenCache)
  verify_packet config bytes actual clock cache = do
    parsed ← parse_spa_packet bytes
    verify_parsed config bytes actual clock cache parsed
