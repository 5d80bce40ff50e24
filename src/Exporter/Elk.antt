-- ===== src/Exporter/Elk.antt =====
-- internal/exporter/elk.go: the buffer of the exporter. flushLocked gives up the mutex while it
-- sends, so a flush is two steps, between which other goroutines may take any steps.
pub mod Conservation
pub mod Bulk
use phantom_grid.Prelude.{
  ℕ, zero, suc, ◌+◌, Bool, true, false, not, Option, none, some, List, [], ◌∷◌, ◌++◌, ◌≡◌, ◌>>=◌,
  if◌then◌else◌, is_empty, length,
}
use phantom_grid.Prelude.Words.{greater64}

-- The fields of config.ELKConfiguration that the buffer uses; the size is an `int64` pattern.
pub record ElkConfiguration : Type 0 where
  pub enabled : Bool
  pub batch_size : ℕ

module _ {ℓ} (Doc : Type ℓ) where
  -- The buffer, the batches that are being sent, and the documents that the client has taken.
  pub record ElkExporter : Type ℓ where
    pub buffer : List Doc
    pub in_flight : List (List Doc)
    pub sent : List Doc

  -- flushLocked up to the release of the mutex; nothing is sent from an empty buffer.
  unfoldable pub begin_flush : ElkExporter → ElkExporter
  begin_flush e =
      if is_empty e.buffer then e else record e { buffer = []; in_flight = e.buffer ∷ e.in_flight }

  unfoldable pub pick_batch : ℕ → List (List Doc) → Option (List Doc × List (List Doc))
  pick_batch i [] = none
  pick_batch zero (b ∷ bs) = some (b, bs)
  pick_batch (suc i) (b ∷ bs) = do (c, rest) ← pick_batch i bs; some (c, b ∷ rest)

  -- The end of a flush, by whether BulkIndex succeeded: documents that were not taken go back to
  -- the front of the buffer.
  unfoldable pub settle_batch : Bool → List Doc → List (List Doc) → ElkExporter → ElkExporter
  settle_batch true batch rest e = record e { in_flight = rest; sent = e.sent ++ batch }
  settle_batch false batch rest e = record e { in_flight = rest; buffer = batch ++ e.buffer }

  unfoldable pub finish_flush : Bool → ℕ → ElkExporter → Option ElkExporter
  finish_flush success i e = do
    (batch, rest) ← pick_batch i e.in_flight
    some (settle_batch success batch rest e)

  -- Flush, while no other goroutine runs.
  unfoldable pub flush : Bool → ElkExporter → Option ElkExporter
  flush success e = if is_empty e.buffer then some e else finish_flush success 0 (begin_flush e)

  -- len(e.buffer) >= e.config.BatchSize
  unfoldable pub is_full : ElkConfiguration → ElkExporter → Bool
  is_full config e = not (greater64 config.batch_size (length e.buffer))

  -- Export up to the flush, for which it returns whether it is due. `stamp` adds the field
  -- @timestamp to a document that has none.
  unfoldable pub buffer_event :
      ElkConfiguration → (Doc → Doc) → Doc → ElkExporter → Bool × ElkExporter
  buffer_event config stamp doc e =
      let e' : ElkExporter = record e { buffer = e.buffer ++ stamp doc ∷ [] } in
      if config.enabled then (is_full config e', e') else (false, e)

  -- Export, while no other goroutine runs.
  unfoldable pub export :
      ElkConfiguration → Bool → (Doc → Doc) → Doc → ElkExporter → Option ElkExporter
  export config success stamp doc e =
      let (due, e') = buffer_event config stamp doc e in if due then flush success e' else some e'

  -- Close stops the loop, which flushes, and flushes again.
  unfoldable pub close : Bool → Bool → ElkExporter → Option ElkExporter
  close first second e = do e' ← flush first e; flush second e'

  -- The interleavings, with the documents that were given to Export, as they were stamped.
  pub data Steps (config : ElkConfiguration) : List Doc → ElkExporter → ElkExporter → Type ℓ where
    done : {e : ElkExporter} → Steps config [] e e
    then_export :
        {docs : List Doc} {e f : ElkExporter} (stamp : Doc → Doc) (doc : Doc)
        → Steps config docs e f
        → Steps config (stamp doc ∷ docs) e (buffer_event config stamp doc f).1
    then_begin :
        {docs : List Doc} {e f : ElkExporter}
        → Steps config docs e f
        → Steps config docs e (begin_flush f)
    then_finish :
        {docs : List Doc} {e f g : ElkExporter} (success : Bool) (i : ℕ)
        → Steps config docs e f
        → finish_flush success i f ≡ some g
        → Steps config docs e g
