-- ===== src/Webdash/Settings.antt =====
-- internal/webdash/settings.go. The file is what it was last written with; its JSON is decoded by
-- a parameter, which may fail.
use phantom_grid.Prelude.{ℕ, Bool, true, false, Option, none, some}
use phantom_grid.Prelude.Bytes.{Bytes, codes}

pub record Settings : Type 0 where
  pub agent_identifier : Bytes
  pub mirage_enabled : Bool
  pub log_rotation : Bytes
  pub protected_if : Bytes
  pub stealth_mode : Bool
  pub ebpf_timeout_sec : ℕ
  pub spa_trigger_port : ℕ
  pub spa_whitelist_sec : ℕ
  pub spa_clock_skew_sec : ℕ

unfoldable pub default_settings : Settings
default_settings = record {
  agent_identifier = codes "Phantom-Node-Alpha";
  mirage_enabled = true;
  log_rotation = codes "100MB";
  protected_if = codes "eth0";
  stealth_mode = true;
  ebpf_timeout_sec = 3600;
  spa_trigger_port = 62201;
  spa_whitelist_sec = 300;
  spa_clock_skew_sec = 30;
}

-- encoding/json on settings.
pub record Codec : Type 0 where
  pub encode : Settings → Option Bytes
  pub decode : Bytes → Option Settings

-- A file that may be missing, and whether it can be written.
pub record File : Type 0 where
  pub contents : Option Bytes
  pub writable : Bool

module _ (json : Codec) where
  unfoldable pub load_settings : File → Settings
  load_settings f = elim f.contents [
    | none ↦ default_settings
    | some data' ↦ elim (json.decode data') [ none ↦ default_settings | some s ↦ s ]
  ]

  -- `true` if the settings were written.
  unfoldable pub save_settings : Settings → File → Bool × File
  save_settings s f = elim (json.encode s) [
    | none ↦ (false, f)
    | some bytes ↦ elim f.writable [
      | true ↦ (true, record f { contents = some bytes })
      | false ↦ (false, f)
    ]
  ]
