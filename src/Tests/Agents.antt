-- ===== src/Tests/Agents.antt =====
-- The theorems on the agent, its set-up, its terminal and the client of Elasticsearch at concrete
-- inputs.
use phantom_grid.Prelude.{
  ◌++◌, ◌+◌, take, ℕ, true, false, Option, none, some, [], ◌∷◌, ◌++◌, ◌≡◌, refl, not, ◌&&◌,
  if◌then◌else◌, ok, err, leb,
}
use phantom_grid.Prelude.Bytes.{Bytes, codes, bytes_eq, has_prefix}
use phantom_grid.Prelude.White.{trim_white, skip, match_size}
use phantom_grid.Prelude.Table.{Table, lookup, insert}
use phantom_grid.Prelude.Words.{be_nat_onto, be_bytes, div64}
use phantom_grid.Prelude.Ip.{to16}
use phantom_grid.Config.Spa.{DynamicSpaConfig, asymmetric, default_dynamic_spa_config}
use phantom_grid.Config.Keys.{load_keys_from_file, load_key, both_keys, with_public}
use phantom_grid.Spa.Packet.{
  parse_spa_packet, parse_header, parse_tail, signature_size, signed_data, verify_asymmetric_packet,
}
use phantom_grid.Spa.Totp.{totp, truncate_code, validate_totp, validate_from, rounds_of}
use phantom_grid.Spa.Verifier.{
  verify_packet, verify_parsed, check_packet, check_ip, check_address, same_address,
  check_timestamp, time_diff, any_valid, any_totp, totp_valid, key_list, check_signature, settle,
  check_replay, clean_up,
}
use phantom_grid.Spa.Handler.{HandlerState, process_packet}
use phantom_grid.Honeypot.Trap.{honeypot_port, fallback_failed}
use phantom_grid.Exporter.Elk.Bulk.{Network, HttpClient}
use phantom_grid.Commands.Console.{Host}
use phantom_grid.Commands.Menus.{agent_management, exited, run_rounds}
use phantom_grid.Commands.Menus.Rounds.{effects, at_end, typed_zeros, run_rounds_end}
use phantom_grid.Commands.Setup.{
  Flags, default_flags, spa_config_of, spa_mode_of, with_totp, trim_line_end,
}
use phantom_grid.Commands.Setup.Accepting.{SignedByFile, verify_packet-spa_config_of}
use phantom_grid.Agent.Programs.{Kernel, xdp_failed}
use phantom_grid.Honeypot.Trap.{Honeypot}
use phantom_grid.Config.Ports.{ports_of}
use phantom_grid.Honeypot.Trap.Services.{bindable, fallback}
use phantom_grid.Agent.Trapping.{fake_ports, has_tried_fallback, has_reported}
use phantom_grid.Agent.{
  trapping, Agent, no_xdp, no_honeypot, Surroundings, SpaHandler, added, init_static_spa,
  start_agent,
}
use phantom_grid.Agent.Stopping.{connection, close_agent}
use phantom_grid.Agent.Starting.{start_agent_result}
use phantom_grid.Agent.Closing.{Unfinished, close_agent-start_agent}
use phantom_grid.Agent.Token.{init_static_spa-process_packet}
use phantom_grid.Tests.Toy.{toy_crypto, toy_ops, toy_public, toy_secret, toy_ip, toy_clock, toy_map}
use phantom_grid.Tests.Packets.{toy_bytes, toy_seen}

-- A network that refuses with status 503 and reads the body.
abbrev toy_network : Network
toy_network = record { parses = λ url. true; exchange = λ before request. (some 503, []) }

abbrev toy_client : HttpClient
toy_client = record {
  addresses = codes "http://a:9200" ∷ codes "http://b:9200" ∷ [];
  username = [];
  password = [];
}

abbrev toy_action : Bytes → Bytes
toy_action index = codes "{}" ++ index

abbrev toy_json : Bytes → Bytes
toy_json doc = doc

abbrev toy_host : Host
toy_host = record {
  goos = codes "linux";
  goarch = codes "amd64";
  euid = 0;
  opens_drive = false;
  home = codes "/root";
  user_profile = [];
  stat = λ before path. none;
  run = λ before args. none;
  output = λ before args. ok [];
  look_path = λ name. true;
  random = λ before. ok [];
  write = λ before path text. none;
}

run_rounds_end_example :
    ((run_rounds toy_host 2 agent_management (typed_zeros [] [])).0 ≡ exited)
    × ((run_rounds toy_host 5 agent_management (at_end [])).0 ≡ agent_management)
    × (effects (run_rounds toy_host 5 agent_management (at_end [])).1.history ≡ [])
run_rounds_end_example = run_rounds_end toy_host 5 agent_management [] []

abbrev toy_kernel : Kernel
toy_kernel = record {
  removes_memlock = true;
  loads_phantom = true;
  loads_egress = true;
  attaches_xdp = λ index. true;
  closes_link = true;
}

abbrev toy_world : Surroundings toy_ops
toy_world = record {
  kernel = toy_kernel;
  netlink = record { finds_link = true; qdisc_add = added; filter_add = true };
  whitelist_map = toy_map;
  order = λ entries. entries;
  random = none;
  binds_udp = true;
  binds = λ port. leb 1024 port;
  addresses = none;
  progress = 3;
}

-- An agent as New returns it.
abbrev toy_agent : Agent toy_ops
toy_agent = record {
  ebpf_loader = record { phantom_objs = true; egress_objs = true; xdp_link = none };
  iface = record { name = codes "eth0"; index = 2; addresses = 1; loopback = false };
  iface_name = codes "eth0";
  honeypot = none;
  spa_manager = false;
  log_open = true;
  logged = [];
  spa_config = none;
  spa_handler = none;
  static_token = codes "token";
}

start_agent_result_example :
    ((start_agent toy_ops toy_world toy_agent).0 ≡ (
      if toy_world.kernel.attaches_xdp toy_agent.iface.index
      then (if has_reported toy_world.progress && not (toy_world.binds honeypot_port)
          then err (no_honeypot fallback_failed)
          else ok tt)
      else err (no_xdp xdp_failed)))
    × (toy_world.kernel.attaches_xdp toy_agent.iface.index ≡ true
        → ((start_agent toy_ops toy_world toy_agent).1.ebpf_loader.xdp_link
            ≡ some toy_agent.iface.index)
          × (h : Honeypot) × ((start_agent toy_ops toy_world toy_agent).1.honeypot ≡ some h)
          × (h.listeners
              ≡ bindable toy_world.binds (take toy_world.progress fake_ports)
                ++ (if has_tried_fallback toy_world.progress
                    then fallback toy_world.binds
                    else [])))
start_agent_result_example = start_agent_result toy_ops toy_world toy_agent

close_agent-start_agent_example :
    Unfinished
      (close_agent toy_ops toy_world true
        (λ port. true)
        (λ port. connection ∷ [])
        (trapping toy_ops toy_world (3 + 100) (start_agent toy_ops toy_world toy_agent).1)).0
    × ((close_agent toy_ops toy_world true
          (λ port. true)
          (λ port. connection ∷ [])
          (trapping toy_ops toy_world
            (3 + 100)
            (start_agent toy_ops toy_world toy_agent).1)).1.ebpf_loader.xdp_link
        ≡ some 2)
unfolding ports_of
close_agent-start_agent_example =
    close_agent-start_agent toy_ops toy_world true (λ port. true) (λ port. connection ∷ [])
      toy_agent 100 refl refl refl

init_static_spa-process_packet_example :
    (handler : SpaHandler toy_ops) × ((init_static_spa toy_ops toy_world toy_agent).1.spa_handler
      ≡ some handler)
    × ((uptime : Option ℕ) (clock : ℕ → ℕ) (bytes : Bytes) (ip : Option Bytes)
          (s s' : HandlerState toy_crypto toy_ops)
        → process_packet toy_crypto toy_ops handler.config uptime clock bytes ip s ≡ some s'
        → s'.whitelist ≡ s.whitelist)
init_static_spa-process_packet_example =
    init_static_spa-process_packet toy_crypto toy_ops toy_world toy_agent refl

abbrev toy_flags : Flags
toy_flags = record default_flags {
  spa_mode = codes "asymmetric";
  spa_key_dir = codes "keys";
  spa_totp_secret = toy_secret;
}

abbrev toy_files : Table Bytes
toy_files = (codes "keys/spa_public.key", toy_public) ∷ []

abbrev toy_made : DynamicSpaConfig
toy_made = record (default_dynamic_spa_config none) {
  mode = asymmetric;
  public_keys = toy_public ∷ [];
  totp_secret = toy_secret;
}

toy_made_lem : spa_config_of toy_crypto toy_files none toy_flags ≡ ok (some toy_made)
unfolding spa_config_of spa_mode_of load_keys_from_file load_key both_keys with_public with_totp
    trim_line_end trim_white skip match_size has_prefix lookup bytes_eq
toy_made_lem = refl

toy_made_accepted :
    verify_packet toy_crypto toy_made toy_bytes (some toy_ip) toy_clock [] ≡ some (ok tt, toy_seen)
unfolding default_dynamic_spa_config verify_packet verify_parsed check_packet check_ip check_address
    same_address check_timestamp time_diff any_valid any_totp totp_valid key_list check_signature
    settle check_replay clean_up parse_spa_packet parse_header parse_tail signature_size be_nat_onto
    verify_asymmetric_packet signed_data validate_totp validate_from rounds_of totp truncate_code
    div64 be_bytes to16 bytes_eq insert lookup
toy_made_accepted = refl

verify_packet-spa_config_of_example :
    (toy_made.mode ≡ asymmetric) × SignedByFile toy_crypto toy_files none toy_flags toy_bytes
verify_packet-spa_config_of_example =
    verify_packet-spa_config_of toy_crypto toy_files none toy_flags toy_made toy_bytes (some toy_ip)
      toy_clock [] toy_seen toy_made_lem toy_made_accepted
