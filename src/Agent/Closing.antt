-- ===== src/Agent/Closing.antt =====
-- How Close of the agent ends.
use phantom_grid.Prelude.{
  ◌+◌, ℕ, Bool, true, false, Option, none, some, List, [], ◌∷◌, ◌++◌, ◌≡◌, refl, ap, ◌∙◌, arith,
  if_either, Result, ok, err, is_empty, length, ◌==◌,
}
use phantom_grid.Spa.MapLoader.{BpfOps}
use phantom_grid.Config.Ports.{fake_port_definitions, ports_of}
use phantom_grid.Honeypot.Trap.{Honeypot, new_honeypot, honeypot_port, start}
use phantom_grid.Honeypot.Trap.Services.{bindable, fallback, start-bindable}
use phantom_grid.Agent.Trapping.{has_tried_fallback, honeypot_after}
use phantom_grid.Agent.{trapping, Agent, Surroundings, SpaHandler, start_agent}
use phantom_grid.Agent.Stopping.{
  Accepted, connection, accept_error, CloseError, accept_loop, running, close_honeypot, wait_for,
  close_agent, close_from, honeypot_closed, after_honeypot,
}
use phantom_grid.Agent.Starting.{start_agent_result}

-- acceptLoop has no way out.
accept_loop_runs : (results : List Accepted) → (accept_loop results).1 ≡ false
unfolding accept_loop
accept_loop_runs [] = refl
accept_loop_runs (connection ∷ more) = accept_loop_runs more
accept_loop_runs (accept_error ∷ more) = accept_loop_runs more

running-length :
    (accepts : ℕ → List Accepted) (ports : List ℕ) → running accepts ports ≡ length ports
unfolding running
running-length accepts [] = refl
running-length accepts (port ∷ ports) =
    rw (accept_loop_runs (accepts port)) (omega (arith, running-length accepts ports))

-- The result is not that of a close without an error.
abbrev pub Unfinished : Option (Result CloseError (Unit {0})) → Type 0
Unfinished none = Unit
Unfinished (some (err e)) = Unit
Unfinished (some (ok u)) = ⊥

wait_for-Unfinished :
    (done : Bool) (r : Result CloseError (Unit {0})) → done ≡ false → Unfinished (wait_for done r)
wait_for-Unfinished done (err e) h = tt
wait_for-Unfinished done (ok u) h = rw h tt

waits : (ports : List ℕ) → is_empty ports ≡ false → (length ports == 0) ≡ false
waits [] e = ground arith
waits (port ∷ ports) e = ground arith

close_honeypot-Unfinished :
    (closes : ℕ → Bool) (accepts : ℕ → List Accepted) (h : Honeypot)
    → is_empty h.listeners ≡ false
    → Unfinished (close_honeypot closes accepts h)
unfolding close_honeypot
close_honeypot-Unfinished closes accepts h e =
    wait_for-Unfinished _ _ (rw (running-length accepts h.listeners) (waits h.listeners e))

is_empty-snoc : (xs : List ℕ) (x : ℕ) → is_empty (xs ++ x ∷ []) ≡ false
is_empty-snoc [] x = refl
is_empty-snoc (y ∷ xs) x = refl

fallback_bound :
    (binds : ℕ → Bool) → binds honeypot_port ≡ true → fallback binds ≡ honeypot_port ∷ []
fallback_bound binds bound = rw bound refl

-- A honeypot that has started has a listener.
start-full :
    (binds : ℕ → Bool)
    → binds honeypot_port ≡ true
    → is_empty (start binds new_honeypot).1.listeners ≡ false
start-full binds bound =
    ap is_empty (
      (start-bindable binds).1
      ∙ ap (λ l. bindable binds (ports_of fake_port_definitions) ++ l) (fallback_bound binds bound))
    ∙ is_empty-snoc _ honeypot_port

honeypot_after-full :
    (binds : ℕ → Bool) (steps : ℕ)
    → binds honeypot_port ≡ true
    → has_tried_fallback steps ≡ true
    → is_empty (honeypot_after binds steps).listeners ≡ false
unfolding honeypot_after
honeypot_after-full binds steps bound tried = rw tried (start-full binds bound)

module _ (ops : BpfOps) (world : Surroundings ops) (closes_udp : Bool) (closes : ℕ → Bool)
    (accepts : ℕ → List Accepted) where
  -- The close has not ended well, and has not changed the agent.
  abbrev Stuck : Agent ops → Option (Result CloseError (Unit {0})) × Agent ops → Type 0
  Stuck a (r, a') = Unfinished r × (a' ≡ a)

  after_honeypot-Stuck :
      (r : Option (Result CloseError (Unit {0}))) (a : Agent ops)
      → Unfinished r
      → Stuck a (after_honeypot ops world closes_udp closes accepts r a)
  after_honeypot-Stuck none a u = (tt, refl)
  after_honeypot-Stuck (some (err e)) a u = (tt, refl)
  after_honeypot-Stuck (some (ok v)) a u = elim u [ ]

  close_from-Stuck :
      (handler : Option (SpaHandler ops)) (a : Agent ops)
      → Unfinished (honeypot_closed ops world closes_udp closes accepts a.honeypot)
      → Stuck a (close_from ops world closes_udp closes accepts handler a)
  close_from-Stuck none a u = after_honeypot-Stuck _ a u
  close_from-Stuck (some h) a u =
      if_either (Stuck a) closes_udp (λ _. after_honeypot-Stuck _ a u) (tt, refl)

  honeypot_closed-Unfinished :
      (o : Option Honeypot) (h : Honeypot)
      → o ≡ some h
      → is_empty h.listeners ≡ false
      → Unfinished (honeypot_closed ops world closes_udp closes accepts o)
  honeypot_closed-Unfinished o h e full = rw e (close_honeypot-Unfinished closes accepts h full)

  -- Once Start has attached XDP, and its goroutine has bound the fallback port of the honeypot, by
  -- the end of Start or some steps later, Close never ends without an error, whatever Accept yields
  -- on the listeners, and XDP stays attached: Close waits for the loops of the listeners, which have
  -- no end.
  pub close_agent-start_agent :
      (a : Agent ops) (later : ℕ)
      → world.kernel.attaches_xdp a.iface.index ≡ true
      → world.binds honeypot_port ≡ true
      → has_tried_fallback (world.progress + later) ≡ true
      → Unfinished
          (close_agent ops world closes_udp closes accepts
            (trapping ops world (world.progress + later) (start_agent ops world a).1)).0
        × ((close_agent ops world closes_udp closes accepts (
              trapping ops world
                (world.progress + later)
                (start_agent ops world a).1)).1.ebpf_loader.xdp_link
            ≡ some a.iface.index)
  unfolding close_agent
  close_agent-start_agent a later attached bound tried =
      let link = ((start_agent_result ops world a).1 attached).0 in
      let (u, same) =
        close_from-Stuck _ (trapping ops world (world.progress + later) (start_agent ops world a).1)
          (honeypot_closed-Unfinished _ _ refl
            (honeypot_after-full world.binds (world.progress + later) bound tried)) in
      (u, ap (λ (x : Agent ops). x.ebpf_loader.xdp_link) same ∙ link)
