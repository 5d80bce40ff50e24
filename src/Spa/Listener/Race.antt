-- ===== src/Spa/Listener/Race.antt =====
-- The slices of the shared buffer: they are in range, and what a job sees depends on what came
-- after its own datagram.
use mathlib.Core.Path.{subst}
use phantom_grid.Prelude.{
  ℕ, zero, suc, ◌-◌, ◌≤◌, Bool, true, false, Option, some, List, [], ◌∷◌, ◌++◌, ◌≡◌, refl, ap, ◌∙◌,
  arith, >>=-eq-some, ◌>>=◌, In, here, there, append_assoc, take, slice, length, length-take,
  slice_total, take_all, take_more,
}
use phantom_grid.Prelude.Bytes.{Bytes}
use phantom_grid.Spa.Crypto.{Crypto}
use phantom_grid.Spa.MapLoader.{BpfOps}
use phantom_grid.Spa.Handler.{HandlerConfig, HandlerState, process_packet}
use phantom_grid.Spa.Listener.{
  buffer_size, Job, Reading, datagram, timeout, failure, fill, pick, ListenerState, start_listener,
  listen_round, job_bytes, run_job, round, job, Steps, done, then_step,
}

-- Every job's slice lies in the buffer.
pub data AllFit (n : ℕ) : List Job → Type 0 where
  fit_nil : AllFit n []
  fit_cons : {j : Job} {js : List Job} → j.size ≤ n → AllFit n js → AllFit n (j ∷ js)

AllFit-append :
    {n : ℕ} {js : List Job} (j : Job) → AllFit n js → j.size ≤ n → AllFit n (js ++ j ∷ [])
AllFit-append j fit_nil h = fit_cons h fit_nil
AllFit-append j (fit_cons k f) h = fit_cons k (AllFit-append j f h)

AllFit-pick :
    {n : ℕ} (i : ℕ) {js rest : List Job} {j : Job}
    → AllFit n js
    → pick i js ≡ some (j, rest)
    → (j.size ≤ n) × AllFit n rest
unfolding pick
AllFit-pick i fit_nil e = absurd (ground arith)
AllFit-pick {n} zero {rest = rest} {j = first} (fit_cons {j} {js} k f) e =
    let a : j ≡ first = ground arith in
    let b : js ≡ rest = ground arith in (subst (λ q. q.size ≤ n) a k, subst (AllFit n) b f)
AllFit-pick {n} (suc i) {rest = rest} {j = first} (fit_cons {j} {js} k f) e =
    let ((p, others), q, e') = >>=-eq-some (pick i js) _ e in
    let (h, g) = AllFit-pick i f q in
    let a : p ≡ first = ground arith in
    let b : j ∷ others ≡ rest = ground arith in
    (subst (λ q. q.size ≤ n) a h, subst (AllFit n) b (fit_cons k g))

-- What was sent, and the address of its sender.
abbrev pub Datagram : Type 0
Datagram = Bytes × Option Bytes

-- The job was started for one of the datagrams.
abbrev pub IsOf : List Datagram → Job → Type 0
IsOf ds j = (sent : Bytes) × In (sent, j.ip) ds × (j.size ≡ length (take buffer_size sent))

pub data AllOf (ds : List Datagram) : List Job → Type 0 where
  all_nil : AllOf ds []
  all_cons : {j : Job} {js : List Job} → IsOf ds j → AllOf ds js → AllOf ds (j ∷ js)

AllOf-append :
    {ds : List Datagram} {js : List Job} (j : Job)
    → AllOf ds js
    → IsOf ds j
    → AllOf ds (js ++ j ∷ [])
AllOf-append j all_nil o = all_cons o all_nil
AllOf-append j (all_cons p a) o = all_cons p (AllOf-append j a o)

AllOf-older : {ds : List Datagram} {js : List Job} (d : Datagram) → AllOf ds js → AllOf (d ∷ ds) js
AllOf-older d all_nil = all_nil
AllOf-older d (all_cons (sent, i, e) a) = all_cons (sent, there i, e) (AllOf-older d a)

AllOf-pick :
    {ds : List Datagram} (i : ℕ) {js rest : List Job} {j : Job}
    → AllOf ds js
    → pick i js ≡ some (j, rest)
    → IsOf ds j × AllOf ds rest
unfolding pick
AllOf-pick i all_nil e = absurd (ground arith)
AllOf-pick {ds} zero {rest = rest} {j = first} (all_cons {j} {js} k f) e =
    let a : j ≡ first = ground arith in
    let b : js ≡ rest = ground arith in (subst (IsOf ds) a k, subst (AllOf ds) b f)
AllOf-pick {ds} (suc i) {rest = rest} {j = first} (all_cons {j} {js} k f) e =
    let ((p, others), q, e') = >>=-eq-some (pick i js) _ e in
    let (h, g) = AllOf-pick i f q in
    let a : p ≡ first = ground arith in
    let b : j ∷ others ≡ rest = ground arith in
    (subst (IsOf ds) a h, subst (AllOf ds) b (all_cons k g))

length-take_le : (n : ℕ) (bytes : Bytes) → length (take n bytes) ≤ n
length-take_le zero bytes = omega arith
length-take_le (suc n) [] = omega arith
length-take_le (suc n) (b ∷ bs) = omega (arith, length-take_le n bs)

length-fill : (bytes buffer : Bytes) → length (fill bytes buffer) ≡ length buffer
unfolding fill
length-fill [] [] = refl
length-fill (b ∷ bs) [] = refl
length-fill [] (x ∷ xs) = refl
length-fill (b ∷ bs) (x ∷ xs) = ap suc (length-fill bs xs)

take-fill :
    (n : ℕ) (bytes buffer : Bytes)
    → length bytes ≤ length buffer
    → n ≤ length bytes
    → take n (fill bytes buffer) ≡ take n bytes
unfolding fill
take-fill zero bytes buffer h k = refl
take-fill (suc n) (b ∷ bs) (x ∷ xs) h k =
    ap (λ t. b ∷ t) (take-fill n bs xs (omega arith) (omega arith))
take-fill (suc n) [] buffer h k = absurd (omega arith)
take-fill (suc n) (b ∷ bs) [] h k = absurd (omega arith)

slice_zero : (n : ℕ) (bytes : Bytes) → n ≤ length bytes → slice 0 n bytes ≡ some (take n bytes)
slice_zero n bytes h =
    let same : n - 0 ≡ n = omega arith in
    slice_total 0 n bytes (omega arith) h ∙ ap (λ k. some (take k bytes)) same

module _ (c : Crypto) (ops : BpfOps) (h : HandlerConfig) where
  -- The buffer keeps its size, and every slice of it is in range.
  pub record InBounds (s : ListenerState c ops) : Type 0 where
    pub size : length s.buffer ≡ buffer_size
    pub fit : AllFit buffer_size s.jobs

  start_listener-InBounds : (s : HandlerState c ops) → InBounds (start_listener c ops s)
  unfolding start_listener
  start_listener-InBounds s = record { size = refl; fit = fit_nil }

  listen_round-InBounds :
      (stop : Bool) (r : Reading) (s : ListenerState c ops)
      → InBounds s
      → InBounds (listen_round c ops stop r s)
  unfolding listen_round
  listen_round-InBounds true r s b = record { size = b.size; fit = b.fit }
  listen_round-InBounds false timeout s b = b
  listen_round-InBounds false (failure e) s b = record { size = b.size; fit = b.fit }
  listen_round-InBounds false (datagram bytes ip) s b = record {
    size = length-fill bytes s.buffer ∙ b.size;
    fit = AllFit-append _ b.fit (omega (arith, length-take_le (length s.buffer) bytes, b.size));
  }

  run_job-InBounds :
      (uptime : Option ℕ) (clock : ℕ → ℕ) (i : ℕ) (s s' : ListenerState c ops)
      → InBounds s
      → run_job c ops h uptime clock i s ≡ some s'
      → InBounds s'
  unfolding run_job
  run_job-InBounds uptime clock i s s' b e =
      let ((j, rest), p, e1) = >>=-eq-some (pick i s.jobs) _ e in
      let (bytes, q, e2) = >>=-eq-some (job_bytes c ops j s) _ e1 in
      let (handler, r, e3) =
        >>=-eq-some (process_packet c ops h uptime clock bytes j.ip s.handler) _ e2 in
      let same : record s { jobs = rest; handler = handler } ≡ s' = cc in
      subst InBounds same (record { size = b.size; fit = (AllFit-pick i b.fit p).1 })

  Steps-InBounds : {s t : ListenerState c ops} → Steps c ops h s t → InBounds s → InBounds t
  Steps-InBounds done b = b
  Steps-InBounds (then_step r (round stop reading e)) b =
      listen_round-InBounds stop reading _ (Steps-InBounds r b)
  Steps-InBounds (then_step r (job uptime clock i e)) b =
      run_job-InBounds uptime clock i _ _ (Steps-InBounds r b) e

  -- The datagrams that the loop has read, the newest first.
  abbrev pub read_datagrams : {s t : ListenerState c ops} → Steps c ops h s t → List Datagram
  read_datagrams done = []
  read_datagrams (then_step r (round true reading e)) = read_datagrams r
  read_datagrams (then_step r (round false timeout e)) = read_datagrams r
  read_datagrams (then_step r (round false (failure t) e)) = read_datagrams r
  read_datagrams (then_step r (round false (datagram bytes ip) e)) = (bytes, ip) ∷ read_datagrams r
  read_datagrams (then_step r (job uptime clock i e)) = read_datagrams r

  run_job-AllOf :
      (ds : List Datagram) (uptime : Option ℕ) (clock : ℕ → ℕ) (i : ℕ) (s s' : ListenerState c ops)
      → AllOf ds s.jobs
      → run_job c ops h uptime clock i s ≡ some s'
      → AllOf ds s'.jobs
  unfolding run_job
  run_job-AllOf ds uptime clock i s s' a e =
      let ((j, rest), p, e1) = >>=-eq-some (pick i s.jobs) _ e in
      let (bytes, q, e2) = >>=-eq-some (job_bytes c ops j s) _ e1 in
      let (handler, r, e3) =
        >>=-eq-some (process_packet c ops h uptime clock bytes j.ip s.handler) _ e2 in
      let same : record s { jobs = rest; handler = handler } ≡ s' = cc in
      subst (λ (t : ListenerState c ops). AllOf ds t.jobs) same (AllOf-pick i a p).1

  Steps-AllOf :
      {s t : ListenerState c ops} (steps : Steps c ops h s t)
      → InBounds s
      → AllOf [] s.jobs
      → AllOf (read_datagrams steps) t.jobs
  unfolding listen_round
  Steps-AllOf done b a = a
  Steps-AllOf (then_step r (round true reading e)) b a = Steps-AllOf r b a
  Steps-AllOf (then_step r (round false timeout e)) b a = Steps-AllOf r b a
  Steps-AllOf (then_step r (round false (failure t) e)) b a = Steps-AllOf r b a
  Steps-AllOf (then_step r (round false (datagram bytes ip) e)) b a =
      AllOf-append _ (AllOf-older (bytes, ip) (Steps-AllOf r b a))
        (bytes, here refl, ap (λ n. length (take n bytes)) (Steps-InBounds r b).size)
  Steps-AllOf (then_step r (job uptime clock i e)) b a =
      run_job-AllOf _ uptime clock i _ _ (Steps-AllOf r b a) e

  -- From the start of the loop on, in whatever order the loop and its goroutines run, a goroutine
  -- that has yet to run was started for a datagram that was read, with the address of its sender,
  -- and gets its slice of the buffer without a panic. The slice has the size of that datagram, or
  -- that of the buffer if the datagram is longer.
  pub job_bytes_reachable :
      (s : HandlerState c ops) (t : ListenerState c ops) (i : ℕ) (j : Job) (rest : List Job)
      (steps : Steps c ops h (start_listener c ops s) t)
      → pick i t.jobs ≡ some (j, rest)
      → (sent : Bytes) × In (sent, j.ip) (read_datagrams steps)
        × (bytes : Bytes) × (job_bytes c ops j t ≡ some bytes)
        × (length bytes ≡ length (take buffer_size sent))
  unfolding job_bytes start_listener
  job_bytes_reachable s t i j rest steps p =
      let b = Steps-InBounds steps (start_listener-InBounds s) in
      let fits = (AllFit-pick i b.fit p).0 in
      let (sent, i, size) =
        (AllOf-pick i (Steps-AllOf steps (start_listener-InBounds s) all_nil) p).0 in
      (
        sent,
        i,
        take j.size t.buffer,
        slice_zero j.size t.buffer (omega (arith, b.size)),
        length-take j.size t.buffer (omega (arith, b.size)) ∙ size,
      )

pick-append :
    (js : List Job) (j : Job) (more : List Job)
    → pick (length js) (js ++ j ∷ more) ≡ some (j, js ++ more)
unfolding pick
pick-append [] j more = refl
pick-append (k ∷ js) j more = rw (pick-append js j more) refl

module _ (c : Crypto) (ops : BpfOps) where
  -- The slice of the first of two datagrams of the same size, behind both.
  slice_again :
      (first second : Bytes) (ip : Option Bytes) (buffer : Bytes)
      → length first ≡ length second
      → length first ≤ length buffer
      → slice 0 (length (take (length buffer) first)) (fill second (fill first buffer))
        ≡ some second
  slice_again first second ip buffer e fits =
      let once = fill first buffer in
      let size = length-fill first buffer in
      let size' = length-fill second once in
      let n = length first in
      let whole : length (take (length buffer) first) ≡ n =
        ap length (take_more (length buffer) first fits) in
      ap (λ k. slice 0 k (fill second once)) whole
      ∙ slice_zero n (fill second once) (omega arith)
      ∙ ap some (
          take-fill n second once (omega arith) (omega arith)
          ∙ ap (λ k. take k second) e
          ∙ take_all second)

  -- The state behind two rounds that read a datagram each.
  abbrev pub read_two :
      Bytes → Option Bytes → Bytes → Option Bytes → ListenerState c ops → ListenerState c ops
  read_two first ip second ip' s =
      listen_round c ops false (datagram second ip')
        (listen_round c ops false (datagram first ip) s)

  -- A goroutine whose datagram is followed by another one of the same size, before it runs, runs
  -- processPacket on the bytes of the other datagram, under the address of its own sender, if the
  -- datagrams fit into the buffer. The goroutine of the other datagram is left.
  pub run_job-read_two :
      (h : HandlerConfig) (uptime : Option ℕ) (clock : ℕ → ℕ) (first second : Bytes)
      (ip ip' : Option Bytes) (s : ListenerState c ops)
      → length first ≡ length second
      → length first ≤ length s.buffer
      → run_job c ops h uptime clock (length s.jobs) (read_two first ip second ip' s) ≡ (
          process_packet c ops h uptime clock second ip (read_two first ip second ip' s).handler
          >>= λ handler. some (record (read_two first ip second ip' s) {
            jobs = s.jobs ++ record { size = length second; ip = ip' } ∷ [];
            handler = handler;
          }))
  unfolding run_job job_bytes listen_round
  run_job-read_two h uptime clock first second ip ip' s e fits =
      let other = length-fill first s.buffer in
      let whole : take (length (fill first s.buffer)) second ≡ second =
        take_more (length (fill first s.buffer)) second (omega arith) in
      let one : Job = record { size = length (take (length s.buffer) first); ip = ip } in
      let two : Job = record {
        size = length (take (length (fill first s.buffer)) second);
        ip = ip';
      } in
      let picked =
        ap (pick (length s.jobs)) (append_assoc s.jobs (one ∷ []) (two ∷ []))
        ∙ pick-append s.jobs one (two ∷ []) in
      rw (picked, slice_again first second ip s.buffer e fits, whole) refl
