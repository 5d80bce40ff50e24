-- ===== src/Spa/Handler.antt =====
-- internal/spa/handler.go: what the handler does with one datagram. Messages are values with the
-- numbers and addresses that their text shows; what goes to standard output is left out.
pub mod Whitelist
pub mod Starting
use phantom_grid.Prelude.{
  ℕ, ◌+◌, ◌-◌, Bool, true, false, not, ◌&&◌, ◌||◌, Option, none, some, List, [], ◌∷◌, ◌++◌, ◌==◌,
  ltb, if◌then◌else◌, ◌>>=◌, get_elem?, take, is_empty, length, Result, ok, err,
}
use phantom_grid.Prelude.Bytes.{Bytes, codes, bytes_eq}
use phantom_grid.Prelude.Channel.{Channel, try_send}
use phantom_grid.Config.Spa.{DynamicSpaConfig}
use phantom_grid.Spa.Crypto.{Crypto}
use phantom_grid.Spa.Packet.{SpaPacket, ParseError, parse_spa_packet}
use phantom_grid.Spa.Verifier.{VerifyError, SeenCache, Verdict, verify_packet}
use phantom_grid.Spa.MapLoader.{BpfOps, LoadError, whitelist_ip}

-- config.SPASecretToken
abbrev pub spa_secret_token : Bytes
spa_secret_token = codes "PHANTOM_GRID_SPA_2025"

pub data Message : Type 0 where
  non_matching : Option Bytes → ℕ → Bytes → ℕ → Message
  unparsed : Option Bytes → ParseError → Message
  invalid : Option Bytes → VerifyError → Message
  not_whitelisted : Option Bytes → LoadError → Message
  whitelisted : Option Bytes → Message
  details : ℕ → ℕ → Message
  listening stopping : Message
  received : Option Bytes → ℕ → Message
  read_failed : Bytes → Message

-- The fields of the handler that do not change.
pub record HandlerConfig : Type 0 where
  pub spa_config : DynamicSpaConfig
  pub static_token : Bytes

-- NewHandler: an empty token stands for the default one.
unfoldable pub new_handler : DynamicSpaConfig → Bytes → HandlerConfig
new_handler config token = record {
  spa_config = config;
  static_token = if is_empty token then spa_secret_token else token;
}

-- data[0] == 1 || data[0] == 2
unfoldable pub is_version_byte : Bytes → Bool
is_version_byte [] = false
is_version_byte (b ∷ bs) = b == 1 || b == 2

unfoldable pub is_static_packet : HandlerConfig → Bytes → Bool
is_static_packet h bytes =
    if not (length bytes == length h.static_token)
    then false
    else if is_version_byte bytes
    then false
    else bytes_eq bytes h.static_token

-- The bytes of an address that may be nil.
unfoldable pub ip_bytes : Option Bytes → Bytes
ip_bytes none = []
ip_bytes (some ip) = ip

module _ (c : Crypto) (ops : BpfOps) where
  open ops use {Map}

  -- What the handler changes: the verifier's cache, the whitelist map and the log channel.
  pub record HandlerState : Type 0 where
    pub cache : SeenCache
    pub whitelist : Option Map
    pub log_chan : Channel Message

  unfoldable pub log : Message → HandlerState → HandlerState
  log m s = record s { log_chan = try_send m s.log_chan }

  -- After VerifyPacket has accepted the packet.
  unfoldable pub finish_packet :
      HandlerConfig → Option ℕ → Option Bytes → SpaPacket → HandlerState → HandlerState
  finish_packet h uptime ip packet s =
      let (r, m) =
        whitelist_ip ops uptime (ip_bytes ip) h.spa_config.replay_window_seconds s.whitelist in
      let s' = record s { whitelist = m } in
      elim r [
        | err e ↦ log (not_whitelisted ip e) s'
        | ok _ ↦ log (details packet.totp packet.timestamp) (log (whitelisted ip) s')
      ]

  unfoldable pub judge :
      HandlerConfig
      → Option ℕ
      → Option Bytes
      → SpaPacket
      → HandlerState
      → Verdict × SeenCache
      → HandlerState
  judge h uptime ip packet s (err e, cache) = log (invalid ip e) (record s { cache = cache })
  judge h uptime ip packet s (ok _, cache) =
      finish_packet h uptime ip packet (record s { cache = cache })

  unfoldable pub handle_parsed :
      HandlerConfig
      → Option ℕ
      → (ℕ → ℕ)
      → Bytes
      → Option Bytes
      → HandlerState
      → Result ParseError SpaPacket
      → Option HandlerState
  handle_parsed h uptime clock bytes ip s (err e) = some (log (unparsed ip e) s)
  handle_parsed h uptime clock bytes ip s (ok packet) = do
    verdict ← verify_packet c h.spa_config bytes ip clock s.cache
    some (judge h uptime ip packet s verdict)

  -- The message on a datagram that is not the static token, with its first eight bytes.
  unfoldable pub note_packet : HandlerConfig → Bytes → Option Bytes → HandlerState → HandlerState
  note_packet h [] ip s = s
  note_packet h (b ∷ bs) ip s =
      log (non_matching ip (length (b ∷ bs)) (take 8 (b ∷ bs)) (length h.static_token)) s

  -- processPacket; `none` if the goroutine panics.
  unfoldable pub process_packet :
      HandlerConfig → Option ℕ → (ℕ → ℕ) → Bytes → Option Bytes → HandlerState → Option HandlerState
  process_packet h uptime clock bytes ip s = if is_static_packet h bytes then some s else (do
    parsed ← parse_spa_packet bytes
    handle_parsed h uptime clock bytes ip (note_packet h bytes ip s) parsed)
