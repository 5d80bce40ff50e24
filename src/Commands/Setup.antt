-- ===== src/Commands/Setup.antt =====
-- cmd/agent/main.go: what main makes of its flags before the agent starts. The files are a table, and
-- `random` is what crypto/rand gives to the default configuration.
pub mod Configured
pub mod Accepting
use phantom_grid.Prelude.{
  ℕ, Bool, true, false, not, ◌&&◌, ◌||◌, Option, none, some, List, [], ◌∷◌, ◌++◌, ◌==◌, map,
  if◌then◌else◌, is_empty, Result, ok, err,
}
use phantom_grid.Prelude.Bytes.{Bytes, codes, bytes_eq, to_lower, trim_space}
use phantom_grid.Prelude.Table.{Table, lookup}
use phantom_grid.Config.Spa.{
  SpaMode, dynamic, asymmetric, DynamicSpaConfig, default_dynamic_spa_config,
}
use phantom_grid.Config.Keys.{KeyError, load_keys_from_file}
use phantom_grid.Honeypot.Text.{split_on}
use phantom_grid.Logger.Manager.{OutputMode, dashboard, elk, both, other_mode}
use phantom_grid.Spa.Crypto.{Crypto}
use phantom_grid.Spa.Handler.{spa_secret_token}

pub record Flags : Type 0 where
  pub interface_name : Bytes
  pub output_mode : Bytes
  pub elk_address : Bytes
  pub elk_index : Bytes
  pub elk_user : Bytes
  pub elk_pass : Bytes
  pub elk_tls : Bool
  pub elk_skip_verify : Bool
  pub fleet_url : Bytes
  pub agent_id : Bytes
  pub spa_mode : Bytes
  pub spa_key_dir : Bytes
  pub spa_totp_secret : Bytes
  pub spa_static_token : Bytes
  pub mtls_enable : Bool
  pub mtls_port : ℕ
  pub mtls_target : ℕ
  pub mtls_ca : Bytes
  pub mtls_cert : Bytes
  pub mtls_key : Bytes
  pub mtls_allowed_spiffe_ids : Bytes

-- The flags that are not given.
abbrev pub default_flags : Flags
default_flags = record {
  interface_name = [];
  output_mode = codes "dashboard";
  elk_address = codes "http://localhost:9200";
  elk_index = codes "phantom-grid";
  elk_user = [];
  elk_pass = [];
  elk_tls = false;
  elk_skip_verify = false;
  fleet_url = [];
  agent_id = codes "Phantom-Node-Alpha";
  spa_mode = codes "static";
  spa_key_dir = codes "./keys";
  spa_totp_secret = [];
  spa_static_token = [];
  mtls_enable = false;
  mtls_port = 8443;
  mtls_target = 22;
  mtls_ca = codes "./keys/ca.crt";
  mtls_cert = codes "./keys/server.crt";
  mtls_key = codes "./keys/server.key";
  mtls_allowed_spiffe_ids = [];
}

-- config.ELKConfiguration
pub record ElkSettings : Type 0 where
  pub enabled : Bool
  pub addresses : List Bytes
  pub index : Bytes
  pub username : Bytes
  pub password : Bytes
  pub use_tls : Bool
  pub skip_verify : Bool
  pub batch_size : ℕ
  pub flush_interval : ℕ

abbrev pub default_elk_config : ElkSettings
default_elk_config = record {
  enabled = false;
  addresses = codes "http://localhost:9200" ∷ [];
  index = codes "phantom-grid";
  username = [];
  password = [];
  use_tls = false;
  skip_verify = false;
  batch_size = 100;
  flush_interval = 5;
}

-- The errors at which main exits.
pub data SetupError : Type 0 where
  invalid_output invalid_spa_mode : Bytes → SetupError
  no_public_key : KeyError → SetupError

unfoldable pub output_mode_of : Bytes → Result SetupError OutputMode
output_mode_of text =
    let lower = to_lower text in
    if bytes_eq lower (codes "dashboard")
    then ok dashboard
    else if bytes_eq lower (codes "elk")
    then ok elk
    else if bytes_eq lower (codes "both")
    then ok both
    else err (invalid_output text)

unfoldable pub elk_config_of : Flags → OutputMode → ElkSettings
elk_config_of flags dashboard = default_elk_config
elk_config_of flags (other_mode m) = default_elk_config
elk_config_of flags _ = record default_elk_config {
  enabled = true;
  addresses = map trim_space (split_on 44 flags.elk_address);
  index = flags.elk_index;
  username = flags.elk_user;
  password = flags.elk_pass;
  use_tls = flags.elk_tls;
  skip_verify = flags.elk_skip_verify;
}

-- The static token, by the answer to the prompt, which is shown only where the flag is not given.
unfoldable pub static_token_of : Flags → Bytes → Bytes
static_token_of flags input =
    if bytes_eq flags.spa_mode (codes "static")
    then (if not (is_empty flags.spa_static_token)
        then flags.spa_static_token
        else if not (is_empty input)
        then input
        else spa_secret_token)
    else []

-- bytes.TrimRight(s, "\n\r\x00")
unfoldable pub trim_line_end : Bytes → Bytes
trim_line_end [] = []
trim_line_end (b ∷ s) =
    let rest = trim_line_end s in
    if is_empty rest && (b == 10 || (b == 13 || b == 0)) then [] else b ∷ rest

unfoldable pub spa_mode_of : Bytes → Result SetupError SpaMode
spa_mode_of text =
    if bytes_eq text (codes "dynamic")
    then ok dynamic
    else if bytes_eq text (codes "asymmetric")
    then ok asymmetric
    else err (invalid_spa_mode text)

-- The list of SPIFFE identities of the proxy.
unfoldable pub allowed_spiffe : Flags → List Bytes
allowed_spiffe flags =
    if is_empty flags.mtls_allowed_spiffe_ids
    then []
    else map trim_space (split_on 44 flags.mtls_allowed_spiffe_ids)

-- MTLSServer, where all its files can be read.
pub record MtlsServer : Type 0 where
  pub listen_port : ℕ
  pub target_port : ℕ
  pub ca_cert : Bytes
  pub server_cert : Bytes
  pub server_key : Bytes
  pub allowed_spiffe_ids : List Bytes

-- What shows the events: the control plane, the dashboard of this host, or neither.
pub data Output : Type 0 where
  fleet : Bytes → Bytes → Output
  web_dashboard elk_only : Output

unfoldable pub output_of : Flags → OutputMode → Output
output_of flags mode =
    if not (is_empty flags.fleet_url) then fleet flags.fleet_url flags.agent_id else elim mode [
      | dashboard ↦ web_dashboard
      | both ↦ web_dashboard
      | elk ↦ elk_only
      | other_mode m ↦ elk_only
    ]

module _ (c : Crypto) (files : Table Bytes) (random : Option Bytes) where
  -- The public key of mode asymmetric.
  abbrev with_keys :
      Result KeyError (Option Bytes × Option Bytes)
      → DynamicSpaConfig
      → Result SetupError DynamicSpaConfig
  with_keys (err e) config = err (no_public_key e)
  with_keys (ok (none, private_key)) config = ok (record config { public_keys = [] ∷ [] })
  with_keys (ok (some key, private_key)) config = ok (record config { public_keys = key ∷ [] })

  abbrev public_key_path : Flags → Bytes
  public_key_path flags = flags.spa_key_dir ++ codes "/spa_public.key"

  abbrev load_mode_keys : Flags → SpaMode → DynamicSpaConfig → Result SetupError DynamicSpaConfig
  load_mode_keys flags asymmetric config =
      with_keys (load_keys_from_file c files (public_key_path flags) []) config
  load_mode_keys flags _ config = ok config

  abbrev file_secret : Option Bytes → DynamicSpaConfig → DynamicSpaConfig
  file_secret none config = config
  file_secret (some text) config = record config { totp_secrets = trim_line_end text ∷ [] }

  unfoldable pub with_totp : Flags → DynamicSpaConfig → DynamicSpaConfig
  with_totp flags config =
      if not (is_empty flags.spa_totp_secret)
      then record config { totp_secret = trim_line_end flags.spa_totp_secret }
      else file_secret (lookup (flags.spa_key_dir ++ codes "/totp_secret.txt") files) config

  abbrev then_totp :
      Flags → Result SetupError DynamicSpaConfig → Result SetupError (Option DynamicSpaConfig)
  then_totp flags (err e) = err e
  then_totp flags (ok config) = ok (some (with_totp flags config))

  abbrev with_mode : Flags → Result SetupError SpaMode → Result SetupError (Option DynamicSpaConfig)
  with_mode flags (err e) = err e
  with_mode flags (ok mode) =
      then_totp flags
        (load_mode_keys flags mode (record (default_dynamic_spa_config random) { mode = mode }))

  -- The configuration of the agent; none in mode static.
  unfoldable pub spa_config_of : Flags → Result SetupError (Option DynamicSpaConfig)
  spa_config_of flags =
      if bytes_eq flags.spa_mode (codes "static")
      then ok none
      else with_mode flags (spa_mode_of flags.spa_mode)

  abbrev proxy_with : Flags → Option Bytes → Option Bytes → Option Bytes → Option MtlsServer
  proxy_with flags (some ca) (some cert) (some key) = some (record {
    listen_port = flags.mtls_port;
    target_port = flags.mtls_target;
    ca_cert = ca;
    server_cert = cert;
    server_key = key;
    allowed_spiffe_ids = allowed_spiffe flags;
  })
  proxy_with flags _ _ _ = none

  -- The proxy that main starts.
  unfoldable pub mtls_server : Flags → Option MtlsServer
  unfolding allowed_spiffe
  mtls_server flags =
      if flags.mtls_enable
      then proxy_with flags (lookup flags.mtls_ca files) (lookup flags.mtls_cert files)
          (lookup flags.mtls_key files)
      else none
