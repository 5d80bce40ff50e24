-- ===== src/Honeypot/Trap/Services.antt =====
-- Which service and which banner a connection meets, and which ports are bound.
use phantom_grid.Prelude.{
  true, none, ◌||◌, ℕ, ◌<◌, Bool, Option, some, List, [], ◌∷◌, ◌++◌, String, ◌≡◌, refl, sym, ap,
  ◌∙◌, inl, inr, if◌then◌else◌, In, Bool-cases, ok, err, append_assoc, append-nil,
}
use phantom_grid.Prelude.Bytes.{Bytes, codes, has_prefix, contains}
use phantom_grid.Honeypot.Banners.{service_types}
use phantom_grid.Config.Ports.{fake_port_definitions, ports_of}
use phantom_grid.Honeypot.Trap.{
  honeypot_port, Service, ssh, http, mysql, redis, ftp, telnet, Meeting, Honeypot, new_honeypot,
  fallback_failed, bind_ports, bind_fallback, announce, start,
}

-- crypto/rand stays below the bound that it is given.
abbrev pub IsBounded : (ℕ → Option ℕ) → Type 0
IsBounded random = (max n : ℕ) → random max ≡ some n → n < max

-- What the protocol of a service looks like to a client: how its greeting begins, and for telnet
-- the name of the system.
abbrev pub greets : Service → Bytes → Bool
greets ssh banner = has_prefix banner (codes "SSH-2.0-")
greets http banner = has_prefix banner (codes "HTTP/1.1 200 OK\r\nServer: ")
greets mysql banner = has_prefix banner (10 ∷ [])
greets redis banner = has_prefix banner (codes "$")
greets ftp banner = has_prefix banner (codes "220 ")
greets telnet banner = contains banner (codes " Linux ") || contains banner (codes "GNU/Linux")

-- The handler of a connection, by whether its banner could be written.
abbrev pub handled : Option Bytes → Service → Option Service
handled none service = some service
handled (some error) service = none

-- What becomes of a connection.
abbrev pub Met : Option Bytes → Option Bytes → Option Meeting → Type 0
Met failed none r = r ≡ none
Met failed (some remote) r =
    (meeting : Meeting) × (service : Service) × (r ≡ some meeting)
    × (meeting.service ≡ handled failed service)
    × (greets service meeting.banner ≡ true)

abbrev IsService : Bytes → Type 0
IsService s = In s service_types

-- The services of the cases of SelectServiceByPort.
abbrev AllServices : List (List ℕ × String) → Type 0
AllServices [] = Unit
AllServices ((ports, s) ∷ cases) = IsService (codes s) × AllServices cases

-- The ports that bind, in order.
abbrev pub bindable : (ℕ → Bool) → List ℕ → List ℕ
bindable binds [] = []
bindable binds (port ∷ ports) =
    let rest = bindable binds ports in if binds port then port ∷ rest else rest

module _ (binds : ℕ → Bool) where
  pub bind_ports-bindable :
      (ports : List ℕ) (n : ℕ) (h : Honeypot)
      → (bind_ports binds ports n h).0.listeners ≡ h.listeners ++ bindable binds ports
  unfolding bind_ports
  bind_ports-bindable [] n h = sym (append-nil h.listeners)
  bind_ports-bindable (port ∷ ports) n h = elim (Bool-cases (binds port)) [
    | inl e ↦ rw e (
        bind_ports-bindable ports _ _ ∙ append_assoc h.listeners (port ∷ []) (bindable binds ports))
    | inr e ↦ rw e (bind_ports-bindable ports _ _)
  ]

  -- The fallback port, where it binds.
  abbrev pub fallback : List ℕ
  fallback = if binds honeypot_port then honeypot_port ∷ [] else []

  bind_fallback-listeners :
      (n : ℕ) (h : Honeypot)
      → ((announce binds n (bind_fallback binds h)).0
          ≡ (if binds honeypot_port then ok tt else err fallback_failed))
        × ((announce binds n (bind_fallback binds h)).1.listeners ≡ h.listeners ++ fallback)
  unfolding bind_fallback
  bind_fallback-listeners n h = elim (Bool-cases (binds honeypot_port)) [
    | inl e ↦ rw e (refl, refl)
    | inr e ↦ rw e (refl, sym (append-nil h.listeners))
  ]

  -- Start succeeds exactly if the fallback port binds. Its listeners are then the fake ports that
  -- bind, in their order, and the fallback port; when it fails, those of the fake ports stay open.
  pub start-bindable :
      ((start binds new_honeypot).0 ≡ (if binds honeypot_port then ok tt else err fallback_failed))
      × ((start binds new_honeypot).1.listeners
          ≡ bindable binds (ports_of fake_port_definitions) ++ fallback)
  unfolding start
  start-bindable =
      let ports = ports_of fake_port_definitions in
      let (h, n) = bind_ports binds ports 0 new_honeypot in
      let (result, listeners) = bind_fallback-listeners n h in
      (result, listeners ∙ ap (λ l. l ++ fallback) (bind_ports-bindable ports 0 new_honeypot))
