-- ===== src/Tests/Handler.antt =====
-- The theorems on the handler of single packet authorization at concrete inputs.
use phantom_grid.Prelude.{
  ℕ, ◌≡◌, refl, false, Option, none, some, [], ◌∷◌, ◌==◌, if◌then◌else◌, length, arith, ◌>>=◌, In,
  ◌++◌, take,
}
use phantom_grid.Prelude.Bytes.{Bytes}
use phantom_grid.Prelude.Words.{be_nat_onto}
use phantom_grid.Prelude.Ip.{to4}
use phantom_grid.Prelude.Channel.{try_send}
use phantom_grid.Spa.MapLoader.{expiry}
use phantom_grid.Spa.Handler.{
  HandlerState, process_packet, is_static_packet, note_packet, handle_parsed, log, non_matching,
  unparsed,
}
use phantom_grid.Spa.Handler.Whitelist.{
  Justified, process_packet-Justified, process_packet_whitelists,
}
use phantom_grid.Spa.Listener.{
  datagram, Steps, run_job, buffer_size, ListenerState, start_listener, listen_round, job_bytes,
  pick, done, then_step, round,
}
use phantom_grid.Spa.Listener.Race.{run_job-read_two, read_two, read_datagrams, job_bytes_reachable}
use phantom_grid.Tests.Toy.{
  toy_crypto, toy_ops, toy_ops-IsMap, toy_ip, toy_handler, toy_state, toy_map, toy_clock,
}
use phantom_grid.Tests.Packets.{toy_bytes, toy_packet, toy_parsed, toy_accepted, toy_seen}
use phantom_grid.Spa.Packet.{too_short, parse_spa_packet}

abbrev listening_state : ListenerState toy_crypto toy_ops
listening_state = start_listener toy_crypto toy_ops toy_state

-- After a datagram of one byte.
abbrev after_one_byte : HandlerState toy_crypto toy_ops
after_one_byte = record toy_state {
  log_chan = record {
    queue = non_matching none 1 (9 ∷ []) 5 ∷ unparsed none (too_short 1) ∷ [];
    capacity = 10;
  };
}

ran :
    process_packet toy_crypto toy_ops toy_handler none toy_clock (9 ∷ []) none toy_state
    ≡ some after_one_byte
unfolding process_packet is_static_packet handle_parsed note_packet log try_send parse_spa_packet
ran = refl

process_packet-Justified_example :
    Justified toy_crypto toy_ops toy_handler none toy_clock (9 ∷ []) none toy_state after_one_byte
process_packet-Justified_example =
    process_packet-Justified toy_crypto toy_ops toy_handler none toy_clock (9 ∷ []) none toy_state
      after_one_byte ran

not_token : is_static_packet toy_handler toy_bytes ≡ false
unfolding is_static_packet
not_token = refl

abbrev pub whitelisted_map : ℕ → Option ℕ
whitelisted_map j = if j == 0x0a000005 then some (expiry (some 5) 60) else toy_map j

process_packet_whitelists_example :
    (s' : HandlerState toy_crypto toy_ops) × (process_packet toy_crypto toy_ops toy_handler
        (some 5)
        toy_clock
        toy_bytes
        (some toy_ip)
        toy_state
      ≡ some s')
    × (s'.cache ≡ toy_seen)
    × (s'.whitelist ≡ some whitelisted_map)
    × (whitelisted_map 0x0a000005 ≡ some (expiry (some 5) 60))
unfolding to4 be_nat_onto
process_packet_whitelists_example =
    process_packet_whitelists toy_crypto toy_ops toy_handler toy_ops-IsMap (some 5) toy_clock
      toy_bytes toy_ip toy_ip toy_state toy_seen toy_packet toy_map whitelisted_map not_token
      toy_parsed toy_accepted refl refl refl

run_job-read_two_example :
    run_job toy_crypto toy_ops toy_handler (some 5) toy_clock (length listening_state.jobs) (
      read_two toy_crypto toy_ops
        (1 ∷ 2 ∷ 3 ∷ [])
        (some toy_ip)
        (4 ∷ 5 ∷ 6 ∷ [])
        none
        listening_state)
    ≡ (process_packet toy_crypto toy_ops toy_handler
          (some 5)
          toy_clock
          (4 ∷ 5 ∷ 6 ∷ [])
          (some toy_ip)
          (read_two toy_crypto toy_ops
            (1 ∷ 2 ∷ 3 ∷ [])
            (some toy_ip)
            (4 ∷ 5 ∷ 6 ∷ [])
            none
            listening_state).handler
        >>= λ handler.
            some
              (record (read_two toy_crypto toy_ops
                (1 ∷ 2 ∷ 3 ∷ [])
                (some toy_ip)
                (4 ∷ 5 ∷ 6 ∷ [])
                none
                listening_state) {
                  jobs = listening_state.jobs ++ record { size = 3; ip = none } ∷ [];
                  handler = handler;
                }))
unfolding start_listener
run_job-read_two_example =
    run_job-read_two toy_crypto toy_ops toy_handler (some 5) toy_clock (1 ∷ 2 ∷ 3 ∷ [])
      (4 ∷ 5 ∷ 6 ∷ []) (some toy_ip) none listening_state refl (omega arith)

one_job :
    pick 0 (listen_round toy_crypto toy_ops false (datagram (1 ∷ 2 ∷ []) none) listening_state).jobs
    ≡ some (record { size = 2; ip = none }, [])
unfolding pick listen_round start_listener
one_job = refl

abbrev one_round :
    Steps toy_crypto toy_ops toy_handler
      (start_listener toy_crypto toy_ops toy_state)
      (listen_round toy_crypto toy_ops false (datagram (1 ∷ 2 ∷ []) none) listening_state)
unfolding start_listener
one_round = then_step done (round false (datagram (1 ∷ 2 ∷ []) none) refl)

job_bytes_reachable_example :
    (sent : Bytes) × In (sent, none) (read_datagrams toy_crypto toy_ops toy_handler one_round)
    × (bytes : Bytes) × (job_bytes toy_crypto toy_ops
          (record { size = 2; ip = none })
          (listen_round toy_crypto toy_ops false (datagram (1 ∷ 2 ∷ []) none) listening_state)
        ≡ some bytes)
    × (length bytes ≡ length (take buffer_size sent))
job_bytes_reachable_example =
    job_bytes_reachable toy_crypto toy_ops toy_handler toy_state
      (listen_round toy_crypto toy_ops false (datagram (1 ∷ 2 ∷ []) none) listening_state) 0
      (record { size = 2; ip = none }) [] one_round one_job
