-- ===== src/Webdash/Server.antt =====
-- internal/webdash/server.go and the handlers of fleet.go, settings.go and auth.go behind it. A
-- request holds what encoding/json makes of its body for each type that a handler decodes.
pub mod Access
use phantom_grid.Prelude.{
  ℕ, ◌+◌, ◌%◌, Bool, true, false, not, ◌&&◌, ◌||◌, Option, none, some, List, [], ◌∷◌, ◌++◌, ◌==◌,
  ltb, if◌then◌else◌, map, length, Result, ok, err,
}
use phantom_grid.Prelude.Bytes.{Bytes, codes, bytes_eq}
use phantom_grid.Prelude.Words.{add64}
use phantom_grid.Prelude.Channel.{Channel, try_send}
use phantom_grid.Webdash.Auth.{
  User, AuthManager, AuthError, role_admin, authenticate, change_password, logout, Passage, next,
  unauthorized, redirect_login, auth_middleware,
}
use phantom_grid.Webdash.Settings.{Settings, Codec, File, load_settings, save_settings}
use phantom_grid.Webdash.Fleet.{DbOps, AgentTelemetry, register_agent, get_agents, get_agent}

pub record Stats : Type 0 where
  pub dropped : ℕ
  pub auth_success : ℕ
  pub auth_failed : ℕ

pub record Request : Type 0 where
  pub method : Bytes
  pub path : Bytes
  pub agent : Bytes
  pub cookie : Option Bytes
  pub remote_addr : Bytes
  pub credentials : Option (Bytes × Bytes)
  pub passwords : Option (Bytes × Bytes)
  pub settings : Option Settings
  pub telemetry : Option AgentTelemetry
  pub log_line : Option (Bytes × Bytes)

pub data Response : Type 0 where
  status : ℕ → Response
  redirect : Bytes → Response
  session_cookie : Bytes → Response
  cleared_cookie : Response
  password_error : AuthError → Response
  user_json : Bytes → Bytes → Response
  settings_json : Settings → Response
  stats_json : Stats → Response
  metrics_text : Stats → Response
  agents_json : List AgentTelemetry → Response
  other_content : Bytes → Response

abbrev pub post : Bytes
post = codes "POST"

abbrev pub get : Bytes
get = codes "GET"

-- The three counters of the eBPF maps; a failed look-up is `none`.
pub record Counters : Type 0 where
  pub stealth_drops : Option ℕ
  pub spa_auth_success : Option ℕ
  pub spa_auth_failed : Option ℕ

unfoldable pub or_zero : Option ℕ → ℕ
or_zero none = 0
or_zero (some n) = n

unfoldable pub read_counters : Counters → Stats
read_counters k = record {
  dropped = or_zero k.stealth_drops;
  auth_success = or_zero k.spa_auth_success;
  auth_failed = or_zero k.spa_auth_failed;
}

-- The sums over the agents, on `uint64`.
unfoldable pub add_agents : List AgentTelemetry → Stats → Stats
add_agents [] s = s
add_agents (a ∷ rest) s = add_agents rest (record {
  dropped = add64 s.dropped a.dropped_packets;
  auth_success = add64 s.auth_success a.auth_success;
  auth_failed = add64 s.auth_failed a.auth_failed;
})

-- sendToClients
unfoldable pub send_to_clients : Bytes → List (Channel Bytes) → List (Channel Bytes)
send_to_clients msg [] = []
send_to_clients msg (client ∷ clients) = try_send msg client ∷ send_to_clients msg clients

-- strings.ReplaceAll(msg, "\n", " ")
unfoldable pub one_line : Bytes → Bytes
one_line [] = []
one_line (b ∷ bs) = (if b == 10 then 32 else b) ∷ one_line bs

-- What handleLogs writes for a message.
unfoldable pub sse_frame : Bytes → Bytes
sse_frame msg = codes "data: " ++ (one_line msg ++ (10 ∷ 10 ∷ []))

unfoldable pub is_admin : Option User → Bool
is_admin none = false
is_admin (some u) = bytes_eq u.role role_admin

module _ (sha256 : Bytes → Bytes) (json : Codec) (ops : DbOps) where
  pub record ServerState : Type 0 where
    pub auth : AuthManager
    pub settings_file : File
    pub db : ops.Db
    pub phantom_objs : Option Counters
    pub external_log_chan : Channel Bytes

  -- The answer and the state; `none` while the handler waits on a full channel.
  abbrev pub Handled : Type 0
  Handled = Option (Response × ServerState)

  -- `random` is what crypto/rand yields.
  unfoldable pub handle_login : ℕ → Bytes → Request → ServerState → Handled
  handle_login now random r s =
      if not (bytes_eq r.method post) then some (status 405, s) else elim r.credentials [
        | none ↦ some (status 400, s)
        | some (username, password) ↦
            let (result, auth) = authenticate sha256 now random username password s.auth in
            elim result [
              | err e ↦ some (status 401, s)
              | ok token ↦ some (session_cookie token, record s { auth = auth })
            ]
      ]

  unfoldable pub handle_logout : Request → ServerState → Handled
  handle_logout r s = elim r.cookie [
    | none ↦ some (cleared_cookie, s)
    | some token ↦ some (cleared_cookie, record s { auth = logout token s.auth })
  ]

  unfoldable pub handle_password : Option User → Request → ServerState → Handled
  handle_password user r s =
      if not (bytes_eq r.method post) then some (status 405, s) else elim user [
        | none ↦ some (status 401, s)
        | some u ↦ elim r.passwords [
          | none ↦ some (status 400, s)
          | some (old_password, new_password) ↦
              let (result, auth) =
                change_password sha256 u.username old_password new_password s.auth in
              elim result [
                | err e ↦ some (password_error e, s)
                | ok _ ↦ some (status 200, record s { auth = auth })
              ]
        ]
      ]

  unfoldable pub handle_me : Option User → ServerState → Handled
  handle_me none s = some (status 401, s)
  handle_me (some u) s = some (user_json u.username u.role, s)

  unfoldable pub store_settings : Option Settings → ServerState → Handled
  store_settings none s = some (status 400, s)
  store_settings (some settings) s =
      let (saved, file) = save_settings json settings s.settings_file in
      some ((if saved then status 200 else status 500), record s { settings_file = file })

  unfoldable pub handle_settings : Option User → Request → ServerState → Handled
  handle_settings user r s =
      if bytes_eq r.method get
      then some (settings_json (load_settings json s.settings_file), s)
      else if bytes_eq r.method post
      then (if is_admin user then store_settings r.settings s else some (status 403, s))
      else some (status 405, s)

  unfoldable pub local_stats : ServerState → Stats
  local_stats s = elim s.phantom_objs [
    | none ↦ record { dropped = 0; auth_success = 0; auth_failed = 0 }
    | some counters ↦ read_counters counters
  ]

  unfoldable pub agent_stats : AgentTelemetry → Stats
  agent_stats a = record {
    dropped = a.dropped_packets;
    auth_success = a.auth_success;
    auth_failed = a.auth_failed;
  }

  unfoldable pub handle_stats : Request → ServerState → Handled
  handle_stats r s = elim (if bytes_eq r.agent [] then none else get_agent ops r.agent s.db) [
    | some a ↦ some (stats_json (agent_stats a), s)
    | none ↦ some (stats_json (local_stats s), s)
  ]

  unfoldable pub handle_metrics : ServerState → Handled
  handle_metrics s = elim s.phantom_objs [
    | some counters ↦ some (metrics_text (read_counters counters), s)
    | none ↦
        let zeros : Stats = record { dropped = 0; auth_success = 0; auth_failed = 0 } in
        some (metrics_text (add_agents (get_agents ops s.db) zeros), s)
  ]

  unfoldable pub handle_fleet_telemetry : ℕ → Request → ServerState → Handled
  handle_fleet_telemetry now r s =
      if not (bytes_eq r.method post) then some (status 405, s) else elim r.telemetry [
        | none ↦ some (status 400, s)
        | some t ↦ some (
          status 200,
          record s { db = register_agent ops now (record t { ip = r.remote_addr }) s.db },
        )
      ]

  -- broadcastRawLog: a send that blocks while the channel is full.
  unfoldable pub broadcast_raw_log : Bytes → Bytes → ServerState → Option ServerState
  broadcast_raw_log agent_id msg s =
      let ch = s.external_log_chan in
      let line = codes "[AGENT:" ++ (agent_id ++ (codes "] " ++ msg)) in
      if ltb (length ch.queue) ch.capacity
      then some (record s { external_log_chan = record ch { queue = ch.queue ++ line ∷ [] } })
      else none

  unfoldable pub handle_fleet_logs : Request → ServerState → Handled
  handle_fleet_logs r s =
      if not (bytes_eq r.method post) then some (status 405, s) else elim r.log_line [
        | none ↦ some (status 400, s)
        | some (agent_id, message) ↦ elim (broadcast_raw_log agent_id message s) [
          | none ↦ none
          | some s' ↦ some (status 200, s')
        ]
      ]

  unfoldable pub handle_get_agents : ServerState → Handled
  handle_get_agents s = some (agents_json (get_agents ops s.db), s)

  -- The routes of the mux. `others` are those that change nothing of this state: the log stream,
  -- the provisioning and the static files.
  unfoldable pub route :
      (Request → Response) → ℕ → Bytes → Option User → Request → ServerState → Handled
  route others now random user r s =
      if bytes_eq r.path (codes "/api/auth/login")
      then handle_login now random r s
      else if bytes_eq r.path (codes "/api/auth/logout")
      then handle_logout r s
      else if bytes_eq r.path (codes "/api/auth/password")
      then handle_password user r s
      else if bytes_eq r.path (codes "/api/auth/me")
      then handle_me user s
      else if bytes_eq r.path (codes "/api/stats")
      then handle_stats r s
      else if bytes_eq r.path (codes "/api/settings")
      then handle_settings user r s
      else if bytes_eq r.path (codes "/metrics")
      then handle_metrics s
      else if bytes_eq r.path (codes "/api/fleet/telemetry")
      then handle_fleet_telemetry now r s
      else if bytes_eq r.path (codes "/api/fleet/logs")
      then handle_fleet_logs r s
      else if bytes_eq r.path (codes "/api/fleet/agents")
      then handle_get_agents s
      else some (others r, s)

  -- The mux behind the middleware.
  unfoldable pub serve : (Request → Response) → ℕ → Bytes → Request → ServerState → Handled
  serve others now random r s = elim (auth_middleware now r.path r.cookie s.auth) [
    | next user ↦ route others now random user r s
    | unauthorized ↦ some (status 401, s)
    | redirect_login ↦ some (redirect (codes "/login"), s)
  ]
