-- ===== src/Agent/Starting.antt =====
-- How Start of the agent ends.
use phantom_grid.Prelude.{
  ◌++◌, take, ℕ, true, false, not, ◌&&◌, Option, none, some, List, [], ◌∷◌, ◌≡◌, refl, ap, ◌∙◌, inl,
  inr, Bool-cases, if_either, if◌then◌else◌, Result, ok, err,
}
use phantom_grid.Prelude.Bytes.{Bytes, codes, bytes_eq}
use phantom_grid.Config.Spa.{DynamicSpaConfig}
use phantom_grid.Spa.MapLoader.{BpfOps}
use phantom_grid.Honeypot.Trap.{Honeypot, honeypot_port, fallback_failed}
use phantom_grid.Honeypot.Trap.Services.{bindable, fallback}
use phantom_grid.Agent.Trapping.{
  fake_ports, has_tried_fallback, has_reported, honeypot_after, error_after, error_after_lem,
  honeypot_after-listeners,
}
use phantom_grid.Agent.Programs.{Loader, attach_xdp, xdp_failed}
use phantom_grid.Agent.{
  trapping, prepare, Agent, no_xdp, no_honeypot, Surroundings, attach_egress, attach_tc_egress,
  init_spa, init_dynamic_spa, init_static_spa, log_addresses, log_info, look_for_error, start_agent,
  start_attached, static_or_warning, list_addresses, init_by, is_static, note_egress, EgressError,
}

module _ (ops : BpfOps) (world : Surroundings ops) where
  log_addresses-ebpf_loader :
      (addrs : List Bytes) (a : Agent ops)
      → (log_addresses ops world addrs a).ebpf_loader ≡ a.ebpf_loader
  log_addresses-ebpf_loader [] a = refl
  log_addresses-ebpf_loader (addr ∷ more) a = log_addresses-ebpf_loader more _

  list_addresses-ebpf_loader :
      (addrs : Option (List Bytes)) (a : Agent ops)
      → (list_addresses ops world addrs a).ebpf_loader ≡ a.ebpf_loader
  list_addresses-ebpf_loader none a = refl
  list_addresses-ebpf_loader (some addrs) a = log_addresses-ebpf_loader addrs a

  log_info-ebpf_loader : (a : Agent ops) → (log_info ops world a).ebpf_loader ≡ a.ebpf_loader
  unfolding log_info
  log_info-ebpf_loader a = elim (Bool-cases (bytes_eq a.iface_name (codes "lo"))) [
    | inl e ↦ rw e (list_addresses-ebpf_loader world.addresses _)
    | inr e ↦ rw e (list_addresses-ebpf_loader world.addresses _)
  ]

  init_static_spa-ebpf_loader :
      (a : Agent ops)
      → (static_or_warning ops world (init_static_spa ops world a)).ebpf_loader ≡ a.ebpf_loader
  unfolding init_static_spa
  init_static_spa-ebpf_loader a = elim (Bool-cases world.binds_udp) [
    | inl e ↦ rw e refl
    | inr e ↦ rw e refl
  ]

  init_dynamic_spa-ebpf_loader :
      (config : DynamicSpaConfig) (a : Agent ops)
      → (init_dynamic_spa ops world config a).1.ebpf_loader ≡ a.ebpf_loader
  unfolding init_dynamic_spa
  init_dynamic_spa-ebpf_loader config a = elim (Bool-cases world.binds_udp) [
    | inl e ↦ rw e refl
    | inr e ↦ rw e refl
  ]

  init_by-ebpf_loader :
      (config : Option DynamicSpaConfig) (a : Agent ops)
      → (init_by ops world config a).ebpf_loader ≡ a.ebpf_loader
  init_by-ebpf_loader none a = init_static_spa-ebpf_loader a
  init_by-ebpf_loader (some config) a = elim (Bool-cases (is_static ops world config.mode)) [
    | inl e ↦ rw e (init_static_spa-ebpf_loader a)
    | inr e ↦ rw e (init_dynamic_spa-ebpf_loader config a)
  ]

  init_spa-ebpf_loader : (a : Agent ops) → (init_spa ops world a).ebpf_loader ≡ a.ebpf_loader
  unfolding init_spa
  init_spa-ebpf_loader a = init_by-ebpf_loader a.spa_config a

  note_egress-ebpf_loader :
      (r : Result EgressError (Unit {0})) (a : Agent ops)
      → (note_egress ops world r a).ebpf_loader ≡ a.ebpf_loader
  note_egress-ebpf_loader (ok _) a = refl
  note_egress-ebpf_loader (err e) a = refl

  attach_egress-ebpf_loader :
      (a : Agent ops) → (attach_egress ops world a).ebpf_loader ≡ a.ebpf_loader
  unfolding attach_egress
  attach_egress-ebpf_loader a =
      if_either (λ (b : Agent ops). b.ebpf_loader ≡ a.ebpf_loader) a.ebpf_loader.egress_objs
        (λ _. note_egress-ebpf_loader (attach_tc_egress world.netlink) a) refl

  -- What a look for the error of the goroutine finds.
  look_for_error-result :
      (a : Agent ops)
      → ((look_for_error ops world (error_after world.binds world.progress) a).0 ≡ (
          if has_reported world.progress && not (world.binds honeypot_port)
          then err (no_honeypot fallback_failed)
          else ok tt))
        × ((look_for_error ops world (error_after world.binds world.progress) a).1 ≡ a)
  look_for_error-result a =
      let e = error_after_lem world.binds world.progress in
      elim (Bool-cases (has_reported world.progress && not (world.binds honeypot_port))) [
        | inl h ↦ let f = rw h at e in rw (f, h) (refl, refl)
        | inr h ↦ let f = rw h at e in rw (f, h) (refl, refl)
      ]

  attach_xdp_no :
      (index : ℕ) (l : Loader)
      → world.kernel.attaches_xdp index ≡ false
      → attach_xdp world.kernel index l ≡ (err xdp_failed, l)
  unfolding attach_xdp
  attach_xdp_no index l e = rw e refl

  attach_xdp_yes :
      (index : ℕ) (l : Loader)
      → world.kernel.attaches_xdp index ≡ true
      → attach_xdp world.kernel index l ≡ (ok tt, record l { xdp_link = some index })
  unfolding attach_xdp
  attach_xdp_yes index l e = rw e refl

  start_attached-result :
      (a : Agent ops)
      → ((start_attached ops world (ok tt) a).0 ≡ (
          if has_reported world.progress && not (world.binds honeypot_port)
          then err (no_honeypot fallback_failed)
          else ok tt))
        × ((start_attached ops world (ok tt) a).1.ebpf_loader ≡ a.ebpf_loader)
        × ((start_attached ops world (ok tt) a).1.honeypot
            ≡ some (honeypot_after world.binds world.progress))
  unfolding start_attached
  start_attached-result a =
      let (r, b) =
        look_for_error-result (trapping ops world world.progress (prepare ops world a)) in
      (
        r,
        ap (λ (x : Agent ops). x.ebpf_loader) b
            ∙ log_info-ebpf_loader _
            ∙ init_spa-ebpf_loader _
            ∙ attach_egress-ebpf_loader _,
        ap (λ (x : Agent ops). x.honeypot) b,
      )

  -- Start fails if XDP is not attached, or if the fallback port of the honeypot does not bind and
  -- the goroutine has reported this before Start looks; in any other case it succeeds, also if the
  -- honeypot fails later. Where XDP is attached it stays so, and the agent has a honeypot whose
  -- listeners are those that the goroutine has bound by then: of the fake ports that it has tried,
  -- those that bind, and the fallback port if it has come to it and that binds.
  pub start_agent_result :
      (a : Agent ops)
      → ((start_agent ops world a).0 ≡ (
          if world.kernel.attaches_xdp a.iface.index
          then (if has_reported world.progress && not (world.binds honeypot_port)
              then err (no_honeypot fallback_failed)
              else ok tt)
          else err (no_xdp xdp_failed)))
        × (world.kernel.attaches_xdp a.iface.index ≡ true
            → ((start_agent ops world a).1.ebpf_loader.xdp_link ≡ some a.iface.index)
              × (h : Honeypot) × ((start_agent ops world a).1.honeypot ≡ some h)
              × (h.listeners
                  ≡ bindable world.binds (take world.progress fake_ports)
                    ++ (if has_tried_fallback world.progress then fallback world.binds else [])))
  unfolding start_agent
  start_agent_result a = elim (Bool-cases (world.kernel.attaches_xdp a.iface.index)) [
    | inr e ↦
        rw (attach_xdp_no a.iface.index a.ebpf_loader e)
          (unfold start_attached in rw e (refl, λ h. cc))
    | inl e ↦
        let (r, l, h) = start_attached-result _ in
        rw (attach_xdp_yes a.iface.index a.ebpf_loader e) (
          rw e (
            r,
            λ _. (
              ap (λ (x : Loader). x.xdp_link) l,
              _,
              h,
              honeypot_after-listeners world.binds world.progress,
            ),
          ))
  ]
