-- ===== src/Config/Spa.antt =====
-- internal/config/spa.go: the configuration of single packet authorization.
use phantom_grid.Prelude.{ℕ, Bool, true, Option, none, some, List, [], if◌then◌else◌}
use phantom_grid.Prelude.Bytes.{Bytes, codes, bytes_eq}

-- SPAMode is a string type: `other` is any value but the three constants.
pub data SpaMode : Type 0 where
  static dynamic asymmetric : SpaMode
  other : Bytes → SpaMode

-- The time step and the tolerance are `int64` patterns. A nil slice is empty.
pub record DynamicSpaConfig : Type 0 where
  pub mode : SpaMode
  pub totp_time_step : ℕ
  pub totp_tolerance : ℕ
  pub totp_secret : Bytes
  pub public_key : Bytes
  pub private_key : Bytes
  pub public_keys : List Bytes
  pub hmac_secret : Bytes
  pub hmac_secrets : List Bytes
  pub totp_secrets : List Bytes
  pub replay_window_seconds : ℕ
  pub max_replay_entries : ℕ
  pub enable_obfuscation : Bool
  pub obfuscation_key : Bytes

-- `random` is what crypto/rand fills the 32 bytes with, or `none` where it fails.
unfoldable pub default_dynamic_spa_config : Option Bytes → DynamicSpaConfig
default_dynamic_spa_config random = record {
  mode = asymmetric;
  totp_time_step = 30;
  totp_tolerance = 1;
  totp_secret = elim random [
    | none ↦ codes "PHANTOM_GRID_TOTP_SECRET_2025_DEFAULT"
    | some bytes ↦ bytes
  ];
  public_key = [];
  private_key = [];
  public_keys = [];
  hmac_secret = [];
  hmac_secrets = [];
  totp_secrets = [];
  replay_window_seconds = 60;
  max_replay_entries = 1000;
  enable_obfuscation = true;
  obfuscation_key = [];
}

-- GetSPAMode, by the value of the environment variable SPA_MODE (empty if it is not set).
unfoldable pub get_spa_mode : Bytes → SpaMode
get_spa_mode mode =
    if bytes_eq mode (codes "static")
    then static
    else if bytes_eq mode (codes "dynamic")
    then dynamic
    else asymmetric
