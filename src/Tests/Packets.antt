-- ===== src/Tests/Packets.antt =====
-- A packet of the toy client, and what the toy server makes of it.
use phantom_grid.Prelude.{◌≡◌, refl, some, [], ◌∷◌, ◌++◌, replicate, ok}
use phantom_grid.Prelude.Bytes.{Bytes, bytes_eq}
use phantom_grid.Prelude.Words.{be_nat_onto, be_bytes, div64}
use phantom_grid.Prelude.Ip.{v4_prefix, to16}
use phantom_grid.Prelude.Table.{lookup, insert}
use phantom_grid.Spa.Packet.{
  SpaPacket, parse_spa_packet, parse_header, parse_tail, signature_size, signed_data,
  verify_asymmetric_packet,
}
use phantom_grid.Spa.Totp.{totp, truncate_code, validate_totp, validate_from, rounds_of}
use phantom_grid.Spa.Verifier.{
  SeenCache, verify_packet, verify_parsed, check_packet, check_ip, check_address, same_address,
  check_timestamp, time_diff, any_valid, any_totp, totp_valid, key_list, check_signature, settle,
  check_replay, clean_up, packet_key,
}
use phantom_grid.Tests.Toy.{toy_crypto, toy_ip, toy_config, toy_clock}

-- What CreateAsymmetricPacket builds from the toy data.
abbrev pub toy_bytes : Bytes
toy_bytes =
    2
    ∷ 2
    ∷ 0
    ∷ 0
    ∷ 0
    ∷ 0
    ∷ 0
    ∷ 0
    ∷ 3
    ∷ 232
    ∷ 0
    ∷ 12
    ∷ 128
    ∷ 97
    ∷ (v4_prefix ++ (toy_ip ++ replicate 64 233))

abbrev pub toy_packet : SpaPacket
toy_packet = record {
  version = 2;
  mode = 2;
  timestamp = 1000;
  totp = 819297;
  client_ip = some (v4_prefix ++ toy_ip);
  signature = replicate 64 233;
  random_data = [];
}

abbrev pub toy_seen : SeenCache
toy_seen = (packet_key toy_crypto toy_bytes, 1000) ∷ []

pub toy_parsed : parse_spa_packet toy_bytes ≡ some (ok toy_packet)
unfolding parse_spa_packet parse_header parse_tail signature_size be_nat_onto
toy_parsed = refl

pub toy_accepted :
    verify_packet toy_crypto toy_config toy_bytes (some toy_ip) toy_clock []
    ≡ some (ok tt, toy_seen)
unfolding verify_packet verify_parsed check_packet check_ip check_address same_address
    check_timestamp time_diff any_valid any_totp totp_valid key_list check_signature settle
    check_replay clean_up parse_spa_packet parse_header parse_tail signature_size be_nat_onto
    verify_asymmetric_packet signed_data validate_totp validate_from rounds_of totp truncate_code
    div64 be_bytes to16 bytes_eq insert lookup
toy_accepted = refl
