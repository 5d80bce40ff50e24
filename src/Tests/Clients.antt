-- ===== src/Tests/Clients.antt =====
-- The theorems on the client, its keys and the loop of the one-time passwords at concrete inputs.
use phantom_grid.Prelude.{false, ◌≡◌, ◌↔◌, refl, none, some, [], ◌++◌, arith, here, ok}
use phantom_grid.Prelude.Bytes.{Bytes, codes, bytes_eq}
use phantom_grid.Prelude.White.{begins_white, ends_white}
use phantom_grid.Prelude.Words.{be_nat, be_nat_onto}
use phantom_grid.Prelude.Ip.{v4_prefix, to4, to16}
use phantom_grid.Config.Spa.{DynamicSpaConfig}
use phantom_grid.Config.Keys.{load_keys_from_file, save_keys_to_file}
use phantom_grid.Config.Keys.Saved.{load_keys_from_file-save_keys_to_file}
use phantom_grid.Spa.Totp.{rounds_of, validate_totp, validate_totp_fuel}
use phantom_grid.Spa.Totp.Loop.{validate_totp_fuel-validate_totp}
use phantom_grid.Spa.Verifier.{key_list}
use phantom_grid.Spa.MapLoader.{expiry}
use phantom_grid.Spa.Handler.{HandlerState, process_packet}
use phantom_grid.Spa.Client.{
  DynamicClient, new_dynamic_client, send_magic_packet, process_spa_request, Host,
}
use phantom_grid.Spa.Client.Delivery.{open_socket, send_magic_packet-process_packet}
use phantom_grid.Spa.Client.Dynamic.{Refused, process_spa_request_dynamic}
use phantom_grid.Tests.Toy.{
  toy_crypto, toy_crypto-IsLawful, toy_ops, toy_ops-IsMap, toy_map, toy_key, toy_public, toy_secret,
  toy_ip, toy_config, toy_entropy, toy_entropy-Fills, toy_clock, toy_handler, toy_state,
}
use phantom_grid.Tests.Spa.{public_size, fresh, in_range}
use phantom_grid.Tests.Handler.{whitelisted_map}

validate_totp_fuel-validate_totp_example :
    validate_totp_fuel toy_crypto 4 toy_secret 30 1 7 1000
    ≡ some (validate_totp toy_crypto toy_secret 30 1 7 1000)
unfolding rounds_of
validate_totp_fuel-validate_totp_example =
    validate_totp_fuel-validate_totp toy_crypto toy_secret 4 30 1 7 1000 (omega arith)
      (λ e. omega arith) (omega arith)

load_keys_from_file-save_keys_to_file_example :
    (load_keys_from_file toy_crypto
        (save_keys_to_file toy_public toy_key (codes "a") (codes "b") [])
        (codes "a")
        (codes "b")
      ≡ ok (some toy_public, some toy_key))
    ↔ (((begins_white toy_public ≡ false) × (ends_white toy_public ≡ false))
        × ((begins_white toy_key ≡ false) × (ends_white toy_key ≡ false)))
unfolding bytes_eq
load_keys_from_file-save_keys_to_file_example =
    load_keys_from_file-save_keys_to_file toy_crypto [] toy_public toy_key (codes "a") (codes "b")
      refl refl refl refl refl

abbrev client_config : DynamicSpaConfig
client_config = record toy_config { private_key = toy_key }

send_magic_packet-process_packet_example :
    (client : DynamicClient) × (bytes : Bytes) × (s' : HandlerState toy_crypto toy_ops)
    × (new_dynamic_client (codes "server") client_config toy_ip ≡ ok client)
    × (send_magic_packet toy_crypto toy_clock toy_entropy open_socket client ≡ some (ok bytes))
    × (process_packet toy_crypto toy_ops toy_handler
          (some 5)
          toy_clock
          bytes
          (some toy_ip)
          toy_state
        ≡ some s')
    × (s'.whitelist ≡ some whitelisted_map)
    × (whitelisted_map (be_nat toy_ip) ≡ some (expiry (some 5) 60))
unfolding key_list to16 to4 be_nat_onto
send_magic_packet-process_packet_example =
    send_magic_packet-process_packet toy_crypto-IsLawful toy_clock toy_entropy toy_ops-IsMap
      toy_handler client_config (codes "server") toy_ip (v4_prefix ++ toy_ip) toy_ip toy_clock
      (some 5) toy_state toy_map whitelisted_map refl refl refl refl (omega arith) toy_entropy-Fills
      (here refl) public_size (here refl) (omega arith) (omega arith) (omega arith) fresh
      (λ i. in_range) (λ i. (omega arith, omega arith)) refl refl refl refl refl

abbrev host : Host
host = record {
  files = [];
  key_paths = [];
  totp_paths = [];
  random = none;
  parse_ip = λ text. none;
  local_address = some toy_ip;
}

process_spa_request_dynamic_example : Refused (
    process_spa_request toy_crypto toy_clock toy_entropy open_socket host
      (codes "server")
      (codes "dynamic")
      []
      []
      []
      [])
process_spa_request_dynamic_example =
    process_spa_request_dynamic toy_crypto toy_clock toy_entropy open_socket host (codes "server")
      [] [] [] []
