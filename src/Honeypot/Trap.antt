-- ===== src/Honeypot/Trap.antt =====
-- internal/honeypot/honeypot.go, handler.go and internal/mirage/banners.go: the listeners, and which
-- service a connection meets. `random max` is what crypto/rand returns for a bound, `none` where it
-- fails; `binds` is net.Listen.
pub mod Services
use phantom_grid.Prelude.{
  ℕ, ◌+◌, Bool, true, false, Option, none, some, List, [], ◌∷◌, ◌++◌, ◌==◌, String, ltb, ◌-◌,
  replicate, if◌then◌else◌, ◌>>=◌, length, get_elem?, take, drop, Result, ok, err,
}
use phantom_grid.Prelude.Bytes.{Bytes, codes, has_prefix, index_of, to_upper, decimal}
use phantom_grid.Config.Ports.{fake_port_definitions, ports_of}
use phantom_grid.Honeypot.Banners.{
  ssh_banners, http_banners, mysql_banner, mysql_banners, redis_banners, ftp_banners,
  telnet_banners, service_types, banner_cases, banners_for,
}
use phantom_grid.Honeypot.Text.{glue, switch, before_colon}

abbrev pub honeypot_port : ℕ
honeypot_port = 9999

-- Which handler Handle calls.
pub data Service : Type 0 where
  ssh http telnet mysql redis ftp : Service

unfoldable pub handle : Bytes → Service
handle service_type =
    switch service_type
      (("ssh" ∷ [], ssh)
        ∷ ("http" ∷ [], http)
        ∷ ("telnet" ∷ [], telnet)
        ∷ ("mysql" ∷ [], mysql)
        ∷ ("redis" ∷ [], redis)
        ∷ ("ftp" ∷ [], ftp)
        ∷ [])
      ssh

-- The address without its port.
unfoldable pub extract_ip : Bytes → Bytes
extract_ip remote =
    if has_prefix remote (codes "[")
    then elim (index_of remote (codes "]")) [
      | none ↦ before_colon remote
      | some end_bracket ↦
          if ltb 0 end_bracket then take (end_bracket - 1) (drop 1 remote) else before_colon remote
    ]
    else before_colon remote

unfoldable pub is_in : ℕ → List ℕ → Bool
is_in port [] = false
is_in port (p ∷ ports) = if port == p then true else is_in port ports

-- The cases of SelectServiceByPort.
abbrev pub service_ports : List (List ℕ × String)
service_ports =
    (80 ∷ 443 ∷ 8080 ∷ 8443 ∷ 8000 ∷ 8888 ∷ [], "http")
    ∷ (3306 ∷ 5432 ∷ 1433 ∷ 1521 ∷ [], "mysql")
    ∷ (6379 ∷ 11211 ∷ [], "redis")
    ∷ (27017 ∷ 27018 ∷ [], "mysql")
    ∷ (21 ∷ [], "ftp")
    ∷ (23 ∷ [], "telnet")
    ∷ (3389 ∷ 5900 ∷ [], "ssh")
    ∷ (9200 ∷ 5601 ∷ [], "http")
    ∷ (3000 ∷ 5000 ∷ [], "http")
    ∷ []

unfoldable pub by_port : ℕ → List (List ℕ × String) → Option Bytes → Option Bytes
by_port port [] d = d
by_port port ((ports, service) ∷ cases) d =
    if is_in port ports then some (codes service) else by_port port cases d

-- What handleConnection writes and logs, and the handler that Handle then calls, if it gets there.
pub record Meeting : Type 0 where
  pub service : Option Service
  pub banner : Bytes
  pub logged : List Bytes
  pub attack : Bytes

module _ (random : ℕ → Option ℕ) where
  unfoldable pub secure_random_int : ℕ → ℕ
  secure_random_int max = if max == 0 then 0 else elim (random max) [ none ↦ 0 | some n ↦ n ]

  -- An element of a list by a random index; `none` is a run-time panic.
  unfoldable pub pick : List Bytes → Option Bytes
  pick list = get_elem? list (secure_random_int (length list))

  unfoldable pub get_random_banner : Bytes → Option Bytes
  get_random_banner service_type = pick (banners_for service_type)

  unfoldable pub select_random_service : Option Bytes
  select_random_service = pick service_types

  unfoldable pub select_service_by_port : ℕ → Option Bytes
  select_service_by_port port = by_port port service_ports select_random_service

  unfoldable pub select_service : ℕ → Option Bytes
  select_service port =
      if port == honeypot_port then select_random_service else select_service_by_port port

  -- The address of the client may be nil, and then nothing happens; `failed` is the error of the
  -- write of the banner, if there is one.
  unfoldable pub handle_connection :
      Bytes → Option Bytes → Option Bytes → ℕ → Option (Option Meeting)
  handle_connection t failed none port = some none
  handle_connection t failed (some remote) port = select_service port >>= λ service_type.
      get_random_banner service_type >>= λ banner. some (
        some (record {
          service = elim failed [ none ↦ some (handle service_type) | some error ↦ none ];
          banner = banner;
          logged =
              glue (
                codes "["
                ∷ t
                ∷ codes "] TRAP HIT! IP: "
                ∷ extract_ip remote
                ∷ codes " | Port: "
                ∷ decimal port
                ∷ codes " | Service: "
                ∷ to_upper service_type
                ∷ [])
              ∷ elim failed [
                | none ↦ []
                | some error ↦
                    glue (
                      codes "["
                      ∷ t
                      ∷ codes "] Error sending banner to "
                      ∷ extract_ip remote
                      ∷ codes ": "
                      ∷ error
                      ∷ [])
                    ∷ []
              ];
          attack = codes "TRAP_HIT_PORT_" ++ decimal port;
        }))

-- A line that Start logs, by the numbers in it. `no_fallback` stands for the six lines of the
-- error.
pub data Note : Type 0 where
  cannot_bind listening : ℕ → Note
  trying_fallback listening_fallback no_fallback accepting ready : Note
  bound : ℕ → ℕ → Note

-- The listeners of a Honeypot, by their ports in the order in which they were bound, and what Start
-- has logged.
pub record Honeypot : Type 0 where
  pub listeners : List ℕ
  pub logged : List Note

abbrev pub new_honeypot : Honeypot
new_honeypot = record { listeners = []; logged = [] }

abbrev pub noted : Note → Honeypot → Honeypot
noted note h = record h { logged = h.logged ++ note ∷ [] }

pub data StartError : Type 0 where
  fallback_failed : StartError

module _ (binds : ℕ → Bool) where
  -- The loop over the fake ports, with the number of those that were bound.
  unfoldable pub bind_ports : List ℕ → ℕ → Honeypot → Honeypot × ℕ
  bind_ports [] n h = (h, n)
  bind_ports (port ∷ ports) n h =
      let bound =
        bind_ports ports (n + 1)
          (noted (listening port) (record h { listeners = h.listeners ++ port ∷ [] })) in
      let missed = bind_ports ports n (noted (cannot_bind port) h) in
      if binds port then bound else missed

  unfoldable pub bind_fallback : Honeypot → Result StartError (Unit {0}) × Honeypot
  bind_fallback h =
      let tried = noted trying_fallback h in
      if binds honeypot_port
      then (
        ok tt,
        noted listening_fallback
            (record tried { listeners = tried.listeners ++ honeypot_port ∷ [] }),
      )
      else (err fallback_failed, noted no_fallback tried)

  abbrev pub announce :
      ℕ → Result StartError (Unit {0}) × Honeypot → Result StartError (Unit {0}) × Honeypot
  announce n (err e, h) = (err e, h)
  announce n (ok u, h) =
      (ok u, noted ready (noted accepting (noted (bound (length h.listeners) n) h)))

  -- Start. The listeners of the fake ports stay open when it fails.
  unfoldable pub start : Honeypot → Result StartError (Unit {0}) × Honeypot
  start h =
      let (h', n) = bind_ports (ports_of fake_port_definitions) 0 h in announce n (bind_fallback h')
