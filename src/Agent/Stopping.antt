-- ===== src/Agent/Stopping.antt =====
-- internal/agent/agent.go: Close, and acceptLoop and Close of internal/honeypot/honeypot.go.
use phantom_grid.Prelude.{
  ℕ, ◌+◌, Bool, false, Option, none, some, List, [], ◌∷◌, ◌==◌, if◌then◌else◌, Result, ok, err,
}
use phantom_grid.Spa.MapLoader.{BpfOps}
use phantom_grid.Honeypot.Trap.{Honeypot}
use phantom_grid.Agent.Programs.{LoaderError, close_loader}
use phantom_grid.Agent.{SpaHandler, Agent, Surroundings}

-- A result of Accept on a listener.
pub data Accepted : Type 0 where
  connection accept_error : Accepted

-- acceptLoop over the results of Accept: the connections that it serves and the errors that it logs,
-- and whether it has returned.
unfoldable pub accept_loop : List Accepted → (ℕ × ℕ) × Bool
accept_loop [] = ((0, 0), false)
accept_loop (connection ∷ more) = let ((n, e), done) = accept_loop more in ((n + 1, e), done)
accept_loop (accept_error ∷ more) = let ((n, e), done) = accept_loop more in ((n, e + 1), done)

-- The counter of the wait group: the loops that have not returned, by what Accept yields on each
-- port.
unfoldable pub running : (ℕ → List Accepted) → List ℕ → ℕ
running accepts [] = 0
running accepts (port ∷ ports) =
    (if (accept_loop (accepts port)).1 then 0 else 1) + running accepts ports

pub data CloseError : Type 0 where
  socket_error listener_error : CloseError
  loader_error : LoaderError → CloseError

unfoldable pub close_listeners : (ℕ → Bool) → List ℕ → Result CloseError (Unit {0})
close_listeners closes [] = ok tt
close_listeners closes (port ∷ ports) =
    if closes port then close_listeners closes ports else err listener_error

-- Whether the wait for the loops ends, behind the closing of the listeners.
abbrev pub wait_for : Bool → Result CloseError (Unit {0}) → Option (Result CloseError (Unit {0}))
wait_for done (err e) = some (err e)
wait_for done (ok _) = if done then some (ok tt) else none

-- Close of a honeypot; `none` while it waits for the loops.
unfoldable pub close_honeypot :
    (ℕ → Bool) → (ℕ → List Accepted) → Honeypot → Option (Result CloseError (Unit {0}))
close_honeypot closes accepts h =
    wait_for (running accepts h.listeners == 0) (close_listeners closes h.listeners)

module _ (ops : BpfOps) (world : Surroundings ops) where
  -- What Close meets: whether the sockets close, and what Accept yields on each port.
  module _ (closes_udp : Bool) (closes : ℕ → Bool) (accepts : ℕ → List Accepted) where
    -- The end of Close, behind the honeypot.
    unfoldable pub close_rest : Agent ops → Result CloseError (Unit {0}) × Agent ops
    close_rest a =
        let (r, loader) = close_loader world.kernel a.ebpf_loader in
        let a' : Agent ops = record a { log_open = false; ebpf_loader = loader } in
        elim r [ err e ↦ (err (loader_error e), a') | ok _ ↦ (ok tt, a') ]

    abbrev pub after_honeypot :
        Option (Result CloseError (Unit {0}))
        → Agent ops
        → Option (Result CloseError (Unit {0})) × Agent ops
    after_honeypot none a = (none, a)
    after_honeypot (some (err e)) a = (some (err e), a)
    after_honeypot (some (ok _)) a = let (r, a') = close_rest a in (some r, a')

    abbrev pub honeypot_closed : Option Honeypot → Option (Result CloseError (Unit {0}))
    honeypot_closed none = some (ok tt)
    honeypot_closed (some h) = close_honeypot closes accepts h

    abbrev pub close_from :
        Option (SpaHandler ops) → Agent ops → Option (Result CloseError (Unit {0})) × Agent ops
    close_from none a = after_honeypot (honeypot_closed a.honeypot) a
    close_from (some handler) a =
        if closes_udp
        then after_honeypot (honeypot_closed a.honeypot) a
        else (some (err socket_error), a)

    -- Close; `none` while it waits.
    unfoldable pub close_agent : Agent ops → Option (Result CloseError (Unit {0})) × Agent ops
    close_agent a = close_from a.spa_handler a
