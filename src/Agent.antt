-- ===== src/Agent.antt =====
-- internal/agent/agent.go: New and Start; Close is in Agent/Stopping. What
-- the sockets, netlink and the scheduler do is a parameter. The lines are those of the log channel,
-- without the texts of errors.
pub mod Programs
pub mod Trapping
pub mod Fleet
pub mod Starting
pub mod Stopping
pub mod Closing
pub mod Token
use phantom_grid.Prelude.{
  ℕ, zero, suc, ◌+◌, Bool, true, false, not, ◌&&◌, Option, none, some, List, [], ◌∷◌, ◌++◌, ◌==◌,
  if◌then◌else◌, is_empty, length, Result, ok, err,
}
use phantom_grid.Prelude.Bytes.{Bytes, codes, bytes_eq, decimal}
use phantom_grid.Config.Spa.{
  SpaMode, static, dynamic, asymmetric, other, DynamicSpaConfig, default_dynamic_spa_config,
}
use phantom_grid.Network.Interface.{System, NetInterface, DetectError, detect_interface}
use phantom_grid.Spa.MapLoader.{BpfOps, MapLoader, load_configuration}
use phantom_grid.Spa.Handler.Starting.{mode_text, start_lines}
use phantom_grid.Spa.Handler.{HandlerConfig, new_handler, spa_secret_token}
use phantom_grid.Honeypot.Trap.{Honeypot, new_honeypot, StartError, fallback_failed}
use phantom_grid.Honeypot.Text.{glue}
use phantom_grid.Agent.Trapping.{honeypot_after, error_after}
use phantom_grid.Agent.Programs.{
  Kernel, LoaderError, Loader, new_loader, load_egress, attach_xdp, close_loader,
}

-- How netlink.QdiscAdd ends.
pub data QdiscAdded : Type 0 where
  added exists_already failed : QdiscAdded

pub record Netlink : Type 0 where
  pub finds_link : Bool
  pub qdisc_add : QdiscAdded
  pub filter_add : Bool

pub data EgressError : Type 0 where
  no_link no_qdisc no_filter : EgressError

-- attachTCEgress
unfoldable pub attach_tc_egress : Netlink → Result EgressError (Unit {0})
attach_tc_egress n =
    let filter : Result EgressError (Unit {0}) = if n.filter_add then ok tt else err no_filter in
    if n.finds_link
    then elim n.qdisc_add [ added ↦ filter | exists_already ↦ filter | failed ↦ err no_qdisc ]
    else err no_link

pub data AgentError : Type 0 where
  no_interface : DetectError → AgentError
  no_loader : LoaderError → AgentError
  no_xdp : LoaderError → AgentError
  no_honeypot : StartError → AgentError

module _ (ops : BpfOps) where
  open ops use {Map}

  -- The handler with the map loader that it was given.
  pub record SpaHandler : Type 0 where
    pub config : HandlerConfig
    pub map_loader : MapLoader ops

  pub record Agent : Type 0 where
    pub ebpf_loader : Loader
    pub iface : NetInterface
    pub iface_name : Bytes
    pub honeypot : Option Honeypot
    pub spa_manager : Bool
    pub log_open : Bool
    pub logged : List Bytes
    pub spa_config : Option DynamicSpaConfig
    pub spa_handler : Option SpaHandler
    pub static_token : Bytes

  -- What Start meets: the whitelist map of the eBPF program, the order of a range over a map,
  -- crypto/rand, whether the sockets bind, the addresses of the interface, and how many
  -- steps the goroutine of the honeypot has taken when Start looks for its error.
  pub record Surroundings : Type 0 where
    pub kernel : Kernel
    pub netlink : Netlink
    pub whitelist_map : Map
    pub order : List (ℕ × ℕ) → List (ℕ × ℕ)
    pub random : Option Bytes
    pub binds_udp : Bool
    pub binds : ℕ → Bool
    pub addresses : Option (List Bytes)
    pub progress : ℕ

  abbrev pub logs : Bytes → Agent → Agent
  logs line a = record a { logged = a.logged ++ line ∷ [] }

  -- New. The logger cannot fail, since no client for Elasticsearch does.
  unfoldable pub new_agent :
      System → Kernel → Bytes → Option DynamicSpaConfig → Bytes → Result AgentError Agent
  new_agent system kernel interface_name spa_config static_token =
      elim (detect_interface system interface_name) [
        | err e ↦ err (no_interface e)
        | ok (iface, iface_name) ↦ elim (new_loader kernel) [
          | err e ↦ err (no_loader e)
          | ok loader ↦ ok (record {
            ebpf_loader = (load_egress kernel loader).1;
            iface = iface;
            iface_name = iface_name;
            honeypot = none;
            spa_manager = false;
            log_open = true;
            logged = [];
            spa_config = spa_config;
            spa_handler = none;
            static_token = static_token;
          })
        ]
      ]

  module _ (world : Surroundings) where
    abbrev pub whitelist_only : MapLoader ops
    whitelist_only = record {
      whitelist_map = some world.whitelist_map;
      replay_map = none;
      totp_secret_map = none;
      hmac_secret_map = none;
      config_map = none;
    }

    -- The agent behind the Start of a handler.
    abbrev serving : SpaHandler → Agent → Agent
    serving handler a = record a {
      spa_handler = some handler;
      logged = a.logged ++ start_lines handler.config;
    }

    -- initDynamicSPA; `false` if the handler does not start. The error of LoadConfiguration is only
    -- printed.
    unfoldable pub init_dynamic_spa : DynamicSpaConfig → Agent → Bool × Agent
    init_dynamic_spa config a =
        let loaded = (load_configuration ops world.order config whitelist_only).1 in
        let handler : SpaHandler = record { config = new_handler config []; map_loader = loaded } in
        if world.binds_udp
        then (
          true,
          logs
              (glue (
                codes "[SPA] Dynamic SPA initialized (mode: "
                ∷ mode_text config.mode
                ∷ codes ")"
                ∷ []))
              (serving handler a),
        )
        else (false, a)

    unfoldable pub static_config : DynamicSpaConfig
    static_config = record (default_dynamic_spa_config world.random) { mode = static }

    -- initStaticSPA
    unfoldable pub init_static_spa : Agent → Bool × Agent
    init_static_spa a =
        let handler : SpaHandler = record {
          config = new_handler static_config a.static_token;
          map_loader = whitelist_only;
        } in
        let custom =
          not (is_empty a.static_token) && not (bytes_eq a.static_token spa_secret_token) in
        if world.binds_udp
        then (
          true,
          logs
              (if custom
                then glue (
                    codes "[SPA] Static SPA initialized with custom token (length: "
                    ∷ decimal (length a.static_token)
                    ∷ codes ")"
                    ∷ [])
                else codes "[SPA] Static SPA initialized with default token")
              (serving handler a),
        )
        else (false, a)

    -- The choice of the handler in Start.
    abbrev static_or_warning : Bool × Agent → Agent
    static_or_warning (true, a) = a
    static_or_warning (false, a) =
        logs (codes "[!] Warning: Failed to initialize static SPA handler: ") a

    abbrev is_static : SpaMode → Bool
    is_static static = true
    is_static _ = false

    abbrev init_by : Option DynamicSpaConfig → Agent → Agent
    init_by none a = static_or_warning (init_static_spa a)
    init_by (some config) a =
        if is_static config.mode
        then static_or_warning (init_static_spa a)
        else (init_dynamic_spa config a).1

    unfoldable pub init_spa : Agent → Agent
    init_spa a = init_by a.spa_config a

    abbrev log_addresses : List Bytes → Agent → Agent
    log_addresses [] a = a
    log_addresses (addr ∷ more) a =
        log_addresses more (
          logs (glue (codes "[DEBUG] Interface " ∷ a.iface_name ∷ codes " has IP: " ∷ addr ∷ [])) a)

    abbrev list_addresses : Option (List Bytes) → Agent → Agent
    list_addresses none a = a
    list_addresses (some addrs) a = log_addresses addrs a

    -- The lines behind the set-up of the handler.
    unfoldable pub log_info : Agent → Agent
    log_info a =
        let told =
          logs (codes "[SYSTEM] SSH port 22 protected - requires SPA whitelist")
            (logs (codes "[SYSTEM] SPA Magic Packet port: 1337") a) in
        let listed = list_addresses world.addresses told in
        if bytes_eq a.iface_name (codes "lo")
        then logs (codes "[!] WARNING: Check if interface detection is working correctly") (
            logs
              (codes
                "[!] WARNING: For VMware NAT, ensure XDP attaches to external interface (ens33, eth0, etc.)")
              (logs (codes "[!] WARNING: Traffic from external hosts (Kali) will NOT be captured!")
                (logs (codes "[!] WARNING: XDP attached to LOOPBACK interface!") listed)))
        else listed

    abbrev note_egress : Result EgressError (Unit {0}) → Agent → Agent
    note_egress (err e) a = a
    note_egress (ok _) a = logs (codes "[SYSTEM] TC Egress Hook attached (DLP Active)") a

    unfoldable pub attach_egress : Agent → Agent
    attach_egress a =
        if a.ebpf_loader.egress_objs then note_egress (attach_tc_egress world.netlink) a else a

    -- The agent when the goroutine that starts the honeypot has taken some steps.
    abbrev pub trapping : ℕ → Agent → Agent
    trapping steps a = record a { honeypot = some (honeypot_after world.binds steps) }

    -- Start looks once for the error of the goroutine.
    abbrev look_for_error : Option StartError → Agent → Result AgentError (Unit {0}) × Agent
    look_for_error none a = (ok tt, a)
    look_for_error (some e) a = (err (no_honeypot e), a)

    -- Start from the attachment of XDP to the honeypot.
    abbrev pub prepare : Agent → Agent
    prepare a =
        let told =
          logs
            (glue (
              codes "[SYSTEM] XDP attached to interface: "
              ∷ a.iface_name
              ∷ codes " (index: "
              ∷ decimal a.iface.index
              ∷ codes ")"
              ∷ []))
            a in
        let managed : Agent = record (attach_egress told) { spa_manager = true } in
        log_info (init_spa managed)

    -- Start behind the attachment of XDP, by its result.
    unfoldable pub start_attached :
        Result LoaderError (Unit {0}) → Agent → Result AgentError (Unit {0}) × Agent
    start_attached (err e) a = (err (no_xdp e), a)
    start_attached (ok _) a =
        look_for_error (error_after world.binds world.progress)
          (trapping world.progress (prepare a))

    -- Start
    unfoldable pub start_agent : Agent → Result AgentError (Unit {0}) × Agent
    start_agent a =
        let (attached, loader) = attach_xdp world.kernel a.iface.index a.ebpf_loader in
        start_attached attached (record a { ebpf_loader = loader })
