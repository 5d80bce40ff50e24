-- ===== src/Agent/Token.antt =====
-- The agent in mode static: what its handler does in user space.
use phantom_grid.Prelude.{ℕ, true, Option, some, ◌≡◌, refl, inl, inr}
use phantom_grid.Prelude.Bytes.{Bytes}
use phantom_grid.Spa.Crypto.{Crypto}
use phantom_grid.Spa.MapLoader.{BpfOps}
use phantom_grid.Spa.Verifier.Sound.{verify_packet-Signed}
use phantom_grid.Spa.Handler.{HandlerState, new_handler, process_packet}
use phantom_grid.Spa.Handler.Whitelist.{process_packet-Justified}
use phantom_grid.Agent.{
  Agent, Surroundings, SpaHandler, static_config, whitelist_only, init_static_spa,
}

module _ (c : Crypto) (ops : BpfOps) (world : Surroundings ops) where
  -- The handler that initStaticSPA starts.
  abbrev static_handler : Agent ops → SpaHandler ops
  static_handler a = record {
    config = new_handler (static_config ops world) a.static_token;
    map_loader = whitelist_only ops world;
  }

  init_static_spa-handler :
      (a : Agent ops)
      → world.binds_udp ≡ true
      → (init_static_spa ops world a).1.spa_handler ≡ some (static_handler a)
  unfolding init_static_spa
  init_static_spa-handler a e = rw e refl

  -- Where its socket binds, an agent in mode static has a handler that changes the whitelist on no
  -- datagram, whatever its token: whom to admit is left to the eBPF program.
  pub init_static_spa-process_packet :
      (a : Agent ops)
      → world.binds_udp ≡ true
      → (handler : SpaHandler ops) × ((init_static_spa ops world a).1.spa_handler ≡ some handler)
        × ((uptime : Option ℕ) (clock : ℕ → ℕ) (bytes : Bytes) (ip : Option Bytes)
              (s s' : HandlerState c ops)
            → process_packet c ops handler.config uptime clock bytes ip s ≡ some s'
            → s'.whitelist ≡ s.whitelist)
  unfolding new_handler static_config
  init_static_spa-process_packet a bound = (
    static_handler a,
    init_static_spa-handler a bound,
    λ uptime clock bytes ip s s' q.
        elim (process_packet-Justified c ops (static_handler a).config uptime clock bytes ip s s'
          q) [
            | inl same ↦ same
            | inr (accepted, _) ↦
                let (packet, parsed, signed) =
                  verify_packet-Signed c (static_config ops world) bytes ip clock s.cache s'.cache
                    accepted in
                absurd signed
          ],
  )
