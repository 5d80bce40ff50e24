-- ===== src/Logger/Manager.antt =====
-- internal/logger/manager.go. `now` is the text of the current time; a run-time panic is `none`.
pub mod Parsing
use phantom_grid.Prelude.{
  ℕ, ◌+◌, Bool, true, false, not, ◌&&◌, ◌||◌, Option, none, some, List, [], ◌∷◌, ◌++◌, String,
  ◌>>=◌, if◌then◌else◌, is_empty, slice, length,
}
use phantom_grid.Prelude.Bytes.{Bytes, codes, contains, index_of, trim_space}
use phantom_grid.Prelude.Channel.{Channel, try_send}
use phantom_grid.Logger.Event.{
  EventType, trap_hit, command, spa_auth, spa_failed, stealth_drop, os_mutation, egress_block,
  connection, system, event_type_text, SecurityEvent, new_security_event, with_risk_level, Document,
  to_map,
}
use phantom_grid.Exporter.Elk.{ElkConfiguration, ElkExporter, export}

-- config.OutputMode is a string type.
pub data OutputMode : Type 0 where
  dashboard elk both : OutputMode
  other_mode : Bytes → OutputMode

unfoldable pub to_dashboard : OutputMode → Bool
to_dashboard dashboard = true
to_dashboard both = true
to_dashboard _ = false

unfoldable pub to_elk : OutputMode → Bool
to_elk elk = true
to_elk both = true
to_elk _ = false

module _ (Data : Type 0) where
  abbrev pub Event : Type 0
  Event = SecurityEvent Data

  abbrev rated : Bytes → EventType → String → Bytes → Event
  rated now event_type level msg =
      with_risk_level Data (codes level) (new_security_event Data now event_type msg)

  -- The text behind "COMMAND:", where there is one.
  unfoldable pub extract_command : Bytes → Event → Option Event
  extract_command msg event = elim (index_of msg (codes "COMMAND:")) [
    | none ↦ some event
    | some i ↦ do
      tail ← slice (i + 8) (length msg) msg
      some (record event { command_line = trim_space tail })
  ]

  unfoldable pub parse_log_message : Bytes → Bytes → Option Event
  parse_log_message now msg =
      if contains msg (codes "TRAP HIT")
      then some (rated now trap_hit "HIGH" msg)
      else if contains msg (codes "COMMAND")
      then extract_command msg (rated now command "HIGH" msg)
      else if contains msg (codes "[SPA] Successful authentication")
      then some (rated now spa_auth "INFO" msg)
      else if contains msg (codes "[SPA] Failed authentication")
      then some (rated now spa_failed "MEDIUM" msg)
      else if contains msg (codes "stealth") || contains msg (codes "Stealth")
      then some (rated now stealth_drop "MEDIUM" msg)
      else if contains msg (codes "OS mutation") || contains msg (codes "OS fingerprint")
      then some (rated now os_mutation "LOW" msg)
      else if contains msg (codes "egress") || contains msg (codes "DLP")
      then some (rated now egress_block "HIGH" msg)
      else if contains msg (codes "Connection") || contains msg (codes "connection")
      then some (rated now connection "LOW" msg)
      else some (rated now system "INFO" msg)

  -- The fields of the manager; a nil channel or exporter is `none`.
  pub record Manager : Type 0 where
    pub output_mode : OutputMode
    pub dashboard_chan : Option (Channel Bytes)
    pub elk_config : ElkConfiguration
    pub elk_exporter : Option (ElkExporter (Document Data))

  unfoldable pub send_dashboard : Bytes → Manager → Manager
  send_dashboard msg m =
      if to_dashboard m.output_mode
      then elim m.dashboard_chan [
        | none ↦ m
        | some ch ↦ record m { dashboard_chan = some (try_send msg ch) }
      ]
      else m

  -- Export of an event; `success` says whether a flush that it brings about succeeds.
  -- ToMap sets @timestamp, so that Export adds none.
  unfoldable pub export_event :
      Bool → Event → ElkExporter (Document Data) → Manager → Option Manager
  export_event success event exporter m = do
    exporter' ←
        export (Document Data) m.elk_config success (λ doc. doc) (to_map Data event) exporter
    some (record m { elk_exporter = some exporter' })

  -- One round of processLogs.
  unfoldable pub process_log : Bytes → Bool → Bytes → Manager → Option Manager
  process_log now success msg m =
      let m' = send_dashboard msg m in
      elim (if to_elk m'.output_mode then m'.elk_exporter else none) [
        | none ↦ some m'
        | some exporter ↦ do
          event ← parse_log_message now msg
          export_event success event exporter m'
      ]

  unfoldable pub event_line : Event → Bytes
  event_line event =
      let head = codes "[" ++ (event_type_text event.event_type ++ (codes "] " ++ event.message)) in
      let addressed =
        if is_empty event.source_ip then head else head ++ (codes " | IP: " ++ event.source_ip) in
      if is_empty event.command_line
      then addressed
      else addressed ++ (codes " | CMD: " ++ event.command_line)

  -- LogEvent
  unfoldable pub log_event : Bool → Event → Manager → Option Manager
  log_event success event m =
      let m' = send_dashboard (event_line event) m in
      elim (if to_elk m'.output_mode then m'.elk_exporter else none) [
        | none ↦ some m'
        | some exporter ↦ export_event success event exporter m'
      ]
