-- ===== src/Webdash/Fleet.antt =====
-- internal/webdash/fleet.go: the telemetry of the agents. The database (gorm on sqlite) is not in
-- the repository, so its operations are a parameter.
use phantom_grid.Prelude.{ℕ, Option, List}
use phantom_grid.Prelude.Bytes.{Bytes}

pub record AgentTelemetry : Type 0 where
  pub agent_id : Bytes
  pub ip : Bytes
  pub dropped_packets : ℕ
  pub auth_success : ℕ
  pub auth_failed : ℕ
  pub last_seen : ℕ

pub record DbOps : Type 1 where
  pub Db : Type 0
  pub save : AgentTelemetry → Db → Db
  pub find : Db → List AgentTelemetry
  pub first : Bytes → Db → Option AgentTelemetry

module _ (ops : DbOps) where
  open ops use {Db, save, find, first}

  unfoldable pub register_agent : ℕ → AgentTelemetry → Db → Db
  register_agent now t db = save (record t { last_seen = now }) db

  unfoldable pub get_agents : Db → List AgentTelemetry
  get_agents db = find db

  unfoldable pub get_agent : Bytes → Db → Option AgentTelemetry
  get_agent agent_id db = first agent_id db
