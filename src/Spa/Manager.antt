-- ===== src/Spa/Manager.antt =====
-- internal/spa/manager.go: the monitor of the counters of the eBPF program.
use phantom_grid.Prelude.{ℕ, Option, none, some, List, [], ◌∷◌, ◌++◌, ltb, if◌then◌else◌}

-- A line for the log channel, by its number.
pub data Line : Type 0 where
  succeeded whitelisted failed : ℕ → Line

-- The variables of the loop.
pub record Seen : Type 0 where
  pub last_success_count : ℕ
  pub last_failed_count : ℕ

-- What the two look-ups of a tick return; `none` is an error.
pub record Tick : Type 0 where
  pub success : Option ℕ
  pub failed_count : Option ℕ

module _ (whitelist_duration : ℕ) where
  unfoldable pub note_success : Option ℕ → Seen → List Line × Seen
  note_success none seen = ([], seen)
  note_success (some n) seen =
      if ltb seen.last_success_count n
      then (
        succeeded n ∷ whitelisted whitelist_duration ∷ [],
        record seen { last_success_count = n },
      )
      else ([], seen)

  unfoldable pub note_failed : Option ℕ → Seen → List Line × Seen
  note_failed none seen = ([], seen)
  note_failed (some n) seen =
      if ltb seen.last_failed_count n
      then (failed n ∷ [], record seen { last_failed_count = n })
      else ([], seen)

  -- A tick of the loop of Start.
  unfoldable pub on_tick : Tick → Seen → List Line × Seen
  on_tick tick seen =
      let (said, seen') = note_success tick.success seen in
      let (more, seen'') = note_failed tick.failed_count seen' in (said ++ more, seen'')

  -- Start, by its ticks.
  unfoldable pub start : List Tick → Seen → List Line × Seen
  start [] seen = ([], seen)
  start (tick ∷ ticks) seen =
      let (said, seen') = on_tick tick seen in
      let (more, seen'') = start ticks seen' in (said ++ more, seen'')
