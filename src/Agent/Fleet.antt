-- ===== src/Agent/Fleet.antt =====
-- internal/agent/fleet_client.go: what an agent posts to the control plane. encoding/json is a
-- parameter, and the results of the posts are not looked at.
use phantom_grid.Prelude.{ℕ, Option, none, some, List, [], ◌∷◌, ◌++◌}
use phantom_grid.Prelude.Bytes.{Bytes, codes}

pub record FleetClient : Type 0 where
  pub fleet_url : Bytes
  pub agent_id : Bytes

-- The counters of the eBPF program; `none` is a look-up that fails.
pub record Objects : Type 0 where
  pub stealth_drops : Option ℕ
  pub spa_auth_success : Option ℕ
  pub spa_auth_failed : Option ℕ

-- The payloads, by their keys in the source.
pub record Telemetry : Type 0 where
  pub agent_id : Bytes
  pub dropped_packets : ℕ
  pub auth_success : ℕ
  pub auth_failed : ℕ

pub record LogPayload : Type 0 where
  pub agent_id : Bytes
  pub message : Bytes

pub record Post : Type 0 where
  pub url : Bytes
  pub content_type : Bytes
  pub body : Bytes

abbrev or_zero : Option ℕ → ℕ
or_zero none = 0
or_zero (some n) = n

module _ (telemetry_json : Telemetry → Bytes) (log_json : LogPayload → Bytes)
    (fc : FleetClient) where
  abbrev post : Bytes → Bytes → Post
  post path body = record {
    url = fc.fleet_url ++ path;
    content_type = codes "application/json";
    body = body;
  }

  abbrev counters : Option Objects → Telemetry
  counters none = record {
    agent_id = fc.agent_id;
    dropped_packets = 0;
    auth_success = 0;
    auth_failed = 0;
  }
  counters (some o) = record {
    agent_id = fc.agent_id;
    dropped_packets = or_zero o.stealth_drops;
    auth_success = or_zero o.spa_auth_success;
    auth_failed = or_zero o.spa_auth_failed;
  }

  -- telemetryLoop, by the objects at its ticks.
  unfoldable pub telemetry_loop : List (Option Objects) → List Post
  telemetry_loop [] = []
  telemetry_loop (objects ∷ ticks) =
      post (codes "/api/fleet/telemetry") (telemetry_json (counters objects)) ∷ telemetry_loop ticks

  -- logLoop, by the lines of the channel.
  unfoldable pub log_loop : List Bytes → List Post
  log_loop [] = []
  log_loop (msg ∷ more) =
      post (codes "/api/fleet/logs") (log_json (record { agent_id = fc.agent_id; message = msg }))
      ∷ log_loop more
