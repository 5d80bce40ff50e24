-- ===== src/Tests/Spa.antt =====
-- The theorems on single packet authorization at concrete inputs.
use phantom_grid.Prelude.{
  ℕ, ◌+◌, ◌≡◌, ◌≢◌, ◌↔◌, refl, true, false, none, some, [], ◌∷◌, ◌++◌, length, arith, In, here,
  there, ap, ok, err, inl, ◌≤◌,
}
use phantom_grid.Prelude.Bytes.{Bytes}
use phantom_grid.Prelude.Ip.{v4_prefix, to16}
use phantom_grid.Prelude.Table.{lookup, insert}
use phantom_grid.Config.Spa.{asymmetric}
use phantom_grid.Spa.Packet.{
  SpaPacket, parse_spa_packet, create_asymmetric_packet, padding_size, verify_asymmetric_packet,
}
use phantom_grid.Spa.Packet.Parse.{
  parse_spa_packet_defined, parse_spa_packet_sound, Accepted, Versioned,
}
use phantom_grid.Spa.Packet.Create.{Opens, create_asymmetric_packet-Opens}
use phantom_grid.Spa.Totp.{generate_totp, validate_totp}
use phantom_grid.Spa.Totp.Window.{InRange, code_at, validate_totp_iff}
use phantom_grid.Spa.Verifier.{
  verify_packet, check_timestamp, key_list, check_replay, clean_up, packet_key, replay_detected,
}
use phantom_grid.Spa.Verifier.Checks.{Fresh, check_timestamp_iff}
use phantom_grid.Spa.Verifier.Sound.{Signed, verify_packet-Signed, verify_packet_bound}
use phantom_grid.Spa.Verifier.Replay.{run_sections, replay_rejected, verify_all, accepted_once}
use phantom_grid.Spa.Verifier.Complete.{create-verify}
use phantom_grid.Tests.Packets.{toy_bytes, toy_packet, toy_seen, toy_parsed, toy_accepted}
use phantom_grid.Tests.Toy.{
  toy_entropy-Fills, toy_crypto, toy_crypto-IsLawful, toy_key, toy_public, toy_secret, toy_ip,
  toy_config, toy_entropy, toy_clock,
}

pub public_size : (k : Bytes) → In k (toy_public ∷ []) → length k ≡ 32
public_size k (here e) = ap length e
public_size k (there i) = elim i [ ]

all_none : verify_all toy_crypto toy_config [] toy_seen ≡ some toy_seen
unfolding verify_all
all_none = refl

pub fresh : Fresh 1000 1000
fresh = inl (omega arith, omega arith)

pub in_range : InRange 30 1 1000
in_range = (omega arith, omega arith, omega arith, omega arith)

create-verify_example :
    (bytes : Bytes) × (create_asymmetric_packet toy_crypto toy_key toy_secret 30 true toy_ip
        toy_clock toy_entropy
      ≡ some (ok bytes))
    × (verify_packet toy_crypto toy_config bytes (some toy_ip) toy_clock []
        ≡ some (check_replay 1000 (packet_key toy_crypto bytes) []))
unfolding key_list to16
create-verify_example =
    create-verify toy_crypto-IsLawful toy_config toy_key toy_secret toy_ip true toy_clock toy_clock
      toy_entropy (v4_prefix ++ toy_ip) [] refl (omega arith) toy_entropy-Fills refl (here refl)
      public_size (here refl) (omega arith) (omega arith) (omega arith) fresh (λ i. in_range)
      (λ i. (omega arith, omega arith)) refl

verify_packet-Signed_example :
    (packet : SpaPacket) × (parse_spa_packet toy_bytes ≡ some (ok packet))
    × Signed toy_crypto toy_config asymmetric packet toy_bytes
verify_packet-Signed_example =
    verify_packet-Signed toy_crypto toy_config toy_bytes (some toy_ip) toy_clock [] toy_seen
      toy_accepted

verify_packet_bound_example :
    (sender : Bytes) × (ip : Bytes) × (some toy_ip ≡ some sender)
    × (to16 sender ≡ some ip)
    × (toy_packet.client_ip ≡ some ip)
verify_packet_bound_example =
    verify_packet_bound toy_crypto toy_config toy_bytes (some toy_ip) toy_clock [] toy_seen
      toy_packet toy_accepted toy_parsed refl

accepted_once_example :
    verify_packet toy_crypto toy_config toy_bytes none (λ i. 1290) toy_seen ≢ some (ok tt, toy_seen)
accepted_once_example =
    accepted_once toy_crypto toy_config toy_bytes (some toy_ip) none toy_clock (λ i. 1290) []
      toy_seen toy_seen toy_seen [] toy_packet toy_accepted all_none toy_parsed (omega arith)
      (omega arith) (omega arith) tt

replay_rejected_example :
    (check_replay 1200 (5 ∷ []) (run_sections ((1100, 6 ∷ []) ∷ []) ((5 ∷ [], 1000) ∷ []))).0
    ≡ err replay_detected
unfolding check_replay clean_up lookup insert
replay_rejected_example =
    replay_rejected 1000 1200 (5 ∷ []) [] ((5 ∷ [], 1000) ∷ []) ((1100, 6 ∷ []) ∷ []) refl
      (omega arith) (omega arith, omega arith, tt) (omega arith) (omega arith)

check_timestamp_iff_example : (check_timestamp 1300 toy_packet ≡ none) ↔ Fresh 1300 1000
check_timestamp_iff_example = check_timestamp_iff 1300 toy_packet (omega arith) (omega arith)

validate_totp_iff_example :
    (validate_totp toy_crypto toy_secret 30 1 819297 1000 ≡ some true)
    ↔ ((k : ℕ) × (k ≤ 33 + 1) × (33 ≤ k + 1) × (code_at toy_crypto toy_secret 30 k ≡ some 819297))
validate_totp_iff_example =
    validate_totp_iff toy_crypto-IsLawful toy_secret 30 (omega arith) 1 819297 1000 in_range

create_asymmetric_packet-Opens_example :
    (bytes : Bytes) × (code : ℕ) × (create_asymmetric_packet toy_crypto toy_key toy_secret 30 false
        toy_ip toy_clock toy_entropy
      ≡ some (ok bytes))
    × (generate_totp toy_crypto toy_secret 30 1000 ≡ some code)
    × (o : Opens 2 1000 code toy_ip 0 bytes) × (verify_asymmetric_packet toy_crypto toy_public
          o.packet bytes
        ≡ some true)
unfolding padding_size
create_asymmetric_packet-Opens_example =
    create_asymmetric_packet-Opens toy_crypto-IsLawful toy_secret 30 (omega arith) false toy_ip
      toy_clock toy_entropy toy_entropy-Fills (omega arith) toy_key refl

parse_spa_packet_sound_example : Accepted toy_bytes toy_packet × Versioned toy_packet
parse_spa_packet_sound_example = parse_spa_packet_sound toy_bytes toy_packet toy_parsed

parse_spa_packet_defined_example : parse_spa_packet (1 ∷ 2 ∷ []) ≢ none
parse_spa_packet_defined_example = parse_spa_packet_defined (1 ∷ 2 ∷ [])
