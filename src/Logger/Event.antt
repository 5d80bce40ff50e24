-- ===== src/Logger/Event.antt =====
-- internal/logger/event.go. What a caller puts into the metadata is of any type.
use phantom_grid.Prelude.{ℕ, [], ◌∷◌, if◌then◌else◌, is_empty}
use phantom_grid.Prelude.Bytes.{Bytes, codes}
use phantom_grid.Prelude.Words.{greater64}
use phantom_grid.Prelude.Table.{Table, insert}

pub data EventType : Type 0 where
  trap_hit command spa_auth spa_failed stealth_drop os_mutation egress_block connection system :
      EventType

unfoldable pub event_type_text : EventType → Bytes
event_type_text trap_hit = codes "trap_hit"
event_type_text command = codes "command"
event_type_text spa_auth = codes "spa_auth"
event_type_text spa_failed = codes "spa_failed"
event_type_text stealth_drop = codes "stealth_drop"
event_type_text os_mutation = codes "os_mutation"
event_type_text egress_block = codes "egress_block"
event_type_text connection = codes "connection"
event_type_text system = codes "system"

module _ (Data : Type 0) where
  pub record SecurityEvent : Type 0 where
    pub timestamp : Bytes
    pub event_type : EventType
    pub source_ip : Bytes
    pub destination_ip : Bytes
    pub port : ℕ
    pub command_line : Bytes
    pub service : Bytes
    pub message : Bytes
    pub risk_level : Bytes
    pub metadata : Table Data

  -- `now` is the text of the current time.
  unfoldable pub new_security_event : Bytes → EventType → Bytes → SecurityEvent
  new_security_event now event_type message = record {
    timestamp = now;
    event_type = event_type;
    source_ip = [];
    destination_ip = [];
    port = 0;
    command_line = [];
    service = [];
    message = message;
    risk_level = [];
    metadata = [];
  }

  unfoldable pub with_source_ip : Bytes → SecurityEvent → SecurityEvent
  with_source_ip ip e = record e { source_ip = ip }

  unfoldable pub with_destination_ip : Bytes → SecurityEvent → SecurityEvent
  with_destination_ip ip e = record e { destination_ip = ip }

  unfoldable pub with_port : ℕ → SecurityEvent → SecurityEvent
  with_port port e = record e { port = port }

  unfoldable pub with_command : Bytes → SecurityEvent → SecurityEvent
  with_command cmd e = record e { command_line = cmd; risk_level = codes "HIGH" }

  unfoldable pub with_service : Bytes → SecurityEvent → SecurityEvent
  with_service service e = record e { service = service }

  unfoldable pub with_risk_level : Bytes → SecurityEvent → SecurityEvent
  with_risk_level level e = record e { risk_level = level }

  unfoldable pub with_metadata : Bytes → Data → SecurityEvent → SecurityEvent
  with_metadata key value e = record e { metadata = insert key value e.metadata }

  -- The values of an exported document.
  pub data Value : Type 0 where
    text : Bytes → Value
    number : ℕ → Value
    object : Table Data → Value

  abbrev pub Document : Type 0
  Document = Table Value

  -- result[key] = value, if the value is not empty
  unfoldable pub put_text : Bytes → Bytes → Document → Document
  put_text key value result = if is_empty value then result else insert key (text value) result

  unfoldable pub to_map : SecurityEvent → Document
  to_map e =
      let start : Document =
        (codes "@timestamp", text e.timestamp)
        ∷ (codes "event_type", text (event_type_text e.event_type))
        ∷ (codes "message", text e.message)
        ∷ [] in
      let addressed =
        put_text (codes "destination_ip") e.destination_ip
          (put_text (codes "source_ip") e.source_ip start) in
      let ported =
        if greater64 e.port 0 then insert (codes "port") (number e.port) addressed else addressed in
      let described =
        put_text (codes "risk_level") e.risk_level (
          put_text (codes "service") e.service
            (put_text (codes "command") e.command_line ported)) in
      if is_empty e.metadata
      then described
      else insert (codes "metadata") (object e.metadata) described
