-- ===== src/Agent/Trapping.antt =====
-- internal/agent/agent.go: the goroutine of Start that starts the honeypot, by the number of steps
-- that it has taken. A step is a call of net.Listen; the last one reports the error, if there is one.
use phantom_grid.Prelude.{
  ℕ, ◌+◌, ◌&&◌, not, Bool, Option, none, some, List, [], ◌++◌, ◌≡◌, ◌≤◌, refl, ap, ◌∙◌, sym, arith,
  ltb, if◌then◌else◌, inl, inr, Bool-cases, length, take, take_more, append-nil, Result, ok, err,
}
use phantom_grid.Config.Ports.{fake_port_definitions, ports_of}
use phantom_grid.Honeypot.Trap.{
  Honeypot, new_honeypot, StartError, fallback_failed, honeypot_port, bind_ports, start,
}
use phantom_grid.Honeypot.Trap.Services.{bindable, fallback, bind_ports-bindable, start-bindable}

abbrev pub fake_ports : List ℕ
fake_ports = ports_of fake_port_definitions

-- The goroutine has tried the fallback port.
abbrev pub has_tried_fallback : ℕ → Bool
has_tried_fallback steps = ltb (length fake_ports) steps

-- It has reported its error.
abbrev pub has_reported : ℕ → Bool
has_reported steps = ltb (length fake_ports + 1) steps

module _ (binds : ℕ → Bool) where
  unfoldable pub honeypot_after : ℕ → Honeypot
  honeypot_after steps =
      if has_tried_fallback steps
      then (start binds new_honeypot).1
      else (bind_ports binds (take steps fake_ports) 0 new_honeypot).0

  abbrev failure_of : Result StartError (Unit {0}) → Option StartError
  failure_of (ok u) = none
  failure_of (err e) = some e

  -- What is in honeypotErrChan.
  unfoldable pub error_after : ℕ → Option StartError
  error_after steps = if has_reported steps then failure_of (start binds new_honeypot).0 else none

  pub honeypot_after-listeners :
      (steps : ℕ)
      → (honeypot_after steps).listeners
        ≡ bindable binds (take steps fake_ports)
          ++ (if has_tried_fallback steps then fallback binds else [])
  unfolding honeypot_after
  honeypot_after-listeners steps = elim (Bool-cases (has_tried_fallback steps)) [
    | inl e ↦
        let far : length fake_ports ≤ steps = ground (arith, e) in
        rw e (
          (start-bindable binds).1
          ∙ ap (λ ports. bindable binds ports ++ fallback binds)
              (sym (take_more steps fake_ports far)))
    | inr e ↦
        rw e (bind_ports-bindable binds (take steps fake_ports) 0 new_honeypot ∙ sym (append-nil _))
  ]

  -- The channel holds an error exactly if the fallback port does not bind and this was reported.
  pub error_after_lem :
      (steps : ℕ)
      → error_after steps
        ≡ (if has_reported steps && not (binds honeypot_port) then some fallback_failed else none)
  unfolding error_after
  error_after_lem steps =
      let r = (start-bindable binds).0 in
      elim (Bool-cases (binds honeypot_port)) [
        | inl b ↦
            let q = rw b at r in
            rw (q, b)
              (elim (Bool-cases (has_reported steps)) [ inl h ↦ rw h refl | inr h ↦ rw h refl ])
        | inr b ↦
            let q = rw b at r in
            rw (q, b)
              (elim (Bool-cases (has_reported steps)) [ inl h ↦ rw h refl | inr h ↦ rw h refl ])
      ]
