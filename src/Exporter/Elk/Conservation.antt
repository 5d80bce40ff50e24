-- ===== src/Exporter/Elk/Conservation.antt =====
-- No document is lost or doubled, in whatever order exports and flushes run.
use phantom_grid.Prelude.{
  ℕ, zero, suc, ◌+◌, Bool, true, false, some, List, [], ◌∷◌, ◌++◌, ◌≡◌, refl, sym, ap, ◌∙◌, arith,
  >>=-eq-some, if◌then◌else◌, is_empty, inl, inr, Bool-cases,
}
use phantom_grid.Exporter.Elk.{
  ElkConfiguration, ElkExporter, begin_flush, pick_batch, settle_batch, finish_flush, buffer_event,
  Steps, done, then_export, then_begin, then_finish,
}

module _ {ℓ} {Doc : Type ℓ} (p : Doc → Bool) where
  -- How many documents of a kind a list has.
  unfoldable pub count : List Doc → ℕ
  count [] = 0
  count (d ∷ ds) = (if p d then 1 else 0) + count ds

  unfoldable pub count_all : List (List Doc) → ℕ
  count_all [] = 0
  count_all (b ∷ bs) = count b + count_all bs

  -- Those that the exporter holds or has handed over.
  unfoldable pub held : ElkExporter Doc → ℕ
  held e = count e.buffer + count_all e.in_flight + count e.sent

  count-append : (xs ys : List Doc) → count (xs ++ ys) ≡ count xs + count ys
  unfolding count
  count-append [] ys = omega arith
  count-append (x ∷ xs) ys = ground (arith, count-append xs ys)

  count_all-pick_batch :
      (i : ℕ) (batches rest : List (List Doc)) (batch : List Doc)
      → pick_batch Doc i batches ≡ some (batch, rest)
      → count_all batches ≡ count batch + count_all rest
  unfolding pick_batch count_all
  count_all-pick_batch i [] rest batch e = absurd (ground arith)
  count_all-pick_batch zero (b ∷ bs) rest batch e = ground arith
  count_all-pick_batch (suc i) (b ∷ bs) rest batch e =
      let ((c, others), q, e') = >>=-eq-some (pick_batch Doc i bs) _ e in
      let h = count_all-pick_batch i bs others c q in ground arith

  held-begin_flush : (e : ElkExporter Doc) → held (begin_flush Doc e) ≡ held e
  unfolding begin_flush held count_all
  held-begin_flush e = elim (Bool-cases (is_empty e.buffer)) [
    | inl none_left ↦ rw none_left refl
    | inr some_left ↦ rw some_left (unfold count in omega arith)
  ]

  held-settle_batch :
      (success : Bool) (batch : List Doc) (rest : List (List Doc)) (e : ElkExporter Doc)
      → count_all e.in_flight ≡ count batch + count_all rest
      → held (settle_batch Doc success batch rest e) ≡ held e
  unfolding held settle_batch
  held-settle_batch true batch rest e h = omega (arith, count-append e.sent batch)
  held-settle_batch false batch rest e h = omega (arith, count-append batch e.buffer)

  held-finish_flush :
      (success : Bool) (i : ℕ) (e f : ElkExporter Doc)
      → finish_flush Doc success i e ≡ some f
      → held f ≡ held e
  unfolding finish_flush
  held-finish_flush success i e f h =
      let ((batch, rest), q, h') = >>=-eq-some (pick_batch Doc i e.in_flight) _ h in
      let same : settle_batch Doc success batch rest e ≡ f = cc in
      sym (ap held same)
      ∙ held-settle_batch success batch rest e (count_all-pick_batch i e.in_flight rest batch q)

  held-buffer_event :
      (config : ElkConfiguration) (stamp : Doc → Doc) (doc : Doc) (e : ElkExporter Doc)
      → config.enabled ≡ true
      → held (buffer_event Doc config stamp doc e).1 ≡ (if p (stamp doc) then 1 else 0) + held e
  unfolding buffer_event held count
  held-buffer_event config stamp doc e on =
      rw on (omega (arith, count-append e.buffer (stamp doc ∷ [])))

  -- Whatever the exports and the flushes and their order, failed sends included: of the documents
  -- of any kind, the exporter holds or has handed over as many as it did at first and were
  -- exported since, with their timestamps, if it is enabled.
  pub held-Steps :
      {config : ElkConfiguration} {docs : List Doc} {e f : ElkExporter Doc}
      → config.enabled ≡ true
      → Steps Doc config docs e f
      → held f ≡ count docs + held e
  unfolding count
  held-Steps on done = omega arith
  held-Steps {config} on (then_export {f = f} stamp doc s) =
      omega (arith, held-buffer_event config stamp doc f on, held-Steps on s)
  held-Steps on (then_begin s) = held-begin_flush _ ∙ held-Steps on s
  held-Steps on (then_finish success i s q) = held-finish_flush success i _ _ q ∙ held-Steps on s
