-- ===== src/Spa/Listener.antt =====
-- internal/spa/handler.go, handlePackets: one loop reads the datagrams into one buffer, and starts
-- a goroutine for each, which works on a slice of that buffer. A goroutine is a job that runs at
-- some later step, on what the buffer holds then.
pub mod Race
use phantom_grid.Prelude.{
  ℕ, zero, suc, ◌+◌, Bool, true, false, Option, none, some, List, [], ◌∷◌, ◌++◌, ◌≡◌, ◌>>=◌, take,
  drop, replicate, slice, length,
}
use phantom_grid.Prelude.Bytes.{Bytes}
use phantom_grid.Spa.Crypto.{Crypto}
use phantom_grid.Spa.MapLoader.{BpfOps}
use phantom_grid.Spa.Handler.{
  HandlerConfig, HandlerState, log, process_packet, listening, stopping, received, read_failed,
}

-- The size of the buffer.
abbrev pub buffer_size : ℕ
buffer_size = 1500

-- buffer[:n] and clientAddr.IP
pub record Job : Type 0 where
  pub size : ℕ
  pub ip : Option Bytes

-- What ReadFromUDP returns.
pub data Reading : Type 0 where
  datagram : Bytes → Option Bytes → Reading
  timeout : Reading
  failure : Bytes → Reading

-- A datagram is copied to the start of the buffer, and cut off at its end.
unfoldable pub fill : Bytes → Bytes → Bytes
fill bytes buffer = take (length buffer) bytes ++ drop (length bytes) buffer

-- The job at a position, and the others.
unfoldable pub pick : ℕ → List Job → Option (Job × List Job)
pick i [] = none
pick zero (j ∷ js) = some (j, js)
pick (suc i) (j ∷ js) = do (k, rest) ← pick i js; some (k, j ∷ rest)

module _ (c : Crypto) (ops : BpfOps) where
  pub record ListenerState : Type 0 where
    pub buffer : Bytes
    pub jobs : List Job
    pub stopped : Bool
    pub handler : HandlerState c ops

  -- The start of the loop.
  unfoldable pub start_listener : HandlerState c ops → ListenerState
  start_listener s = record {
    buffer = replicate buffer_size 0;
    jobs = [];
    stopped = false;
    handler = log c ops listening s;
  }

  -- One round of the loop; `stop` says that stopChan is closed.
  unfoldable pub listen_round : Bool → Reading → ListenerState → ListenerState
  listen_round true r s = record s { stopped = true; handler = log c ops stopping s.handler }
  listen_round false timeout s = s
  listen_round false (failure e) s = record s { handler = log c ops (read_failed e) s.handler }
  listen_round false (datagram bytes ip) s =
      let n = length (take (length s.buffer) bytes) in
      record s {
        buffer = fill bytes s.buffer;
        handler = log c ops (received ip n) s.handler;
        jobs = s.jobs ++ record { size = n; ip = ip } ∷ [];
      }

  -- What a job sees: its slice of the buffer as it is now.
  unfoldable pub job_bytes : Job → ListenerState → Option Bytes
  job_bytes j s = slice 0 j.size s.buffer

  -- The goroutine at position `i` of those that have not run yet runs. `none` is a panic, or that
  -- there is no such goroutine.
  unfoldable pub run_job :
      HandlerConfig → Option ℕ → (ℕ → ℕ) → ℕ → ListenerState → Option ListenerState
  run_job h uptime clock i s = do
    (j, rest) ← pick i s.jobs
    bytes ← job_bytes j s
    handler ← process_packet c ops h uptime clock bytes j.ip s.handler
    some (record s { jobs = rest; handler = handler })

  -- The interleavings of the loop with its goroutines.
  pub data Step (h : HandlerConfig) : ListenerState → ListenerState → Type 0 where
    round :
        {s : ListenerState} (stop : Bool) (r : Reading)
        → s.stopped ≡ false
        → Step h s (listen_round stop r s)
    job :
        {s s' : ListenerState} (uptime : Option ℕ) (clock : ℕ → ℕ) (i : ℕ)
        → run_job h uptime clock i s ≡ some s'
        → Step h s s'

  pub data Steps (h : HandlerConfig) : ListenerState → ListenerState → Type 0 where
    done : {s : ListenerState} → Steps h s s
    then_step : {s t u : ListenerState} → Steps h s t → Step h t u → Steps h s u
