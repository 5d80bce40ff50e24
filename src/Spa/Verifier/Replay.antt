-- ===== src/Spa/Verifier/Replay.antt =====
-- The replay cache: a packet is accepted once, as long as its entry is not cleaned up, and the
-- entry outlives the freshness of every packet that was not made in the future.
use native.Mathlib.Decide.{dec_lt}
use phantom_grid.Prelude.{
  ℕ, ◌+◌, ◌≤◌, ◌<◌, false, Option, none, some, List, [], ◌∷◌, ◌≡◌, ◌≢◌, refl, ap, ◌∙◌, arith, ◌⊎◌,
  inl, inr, ◌>>=◌, >>=-eq-some, Result, ok, err,
}
use phantom_grid.Prelude.Bytes.{Bytes, bytes_eq_iff, bytes_eq_refl}
use phantom_grid.Prelude.Words.{sign_bit}
use phantom_grid.Prelude.Table.{lookup, lookup-insert, lookup-delete_if}
use phantom_grid.Config.Spa.{DynamicSpaConfig}
use phantom_grid.Spa.Crypto.{Crypto}
use phantom_grid.Spa.Packet.{SpaPacket, ParseError, parse_spa_packet}
use phantom_grid.Spa.Verifier.{
  SeenCache, Check, check_packet, is_stale, clean_up, check_replay, packet_key, replay_detected,
  Verdict, settle, verify_parsed, verify_packet, check_timestamp, time_diff,
}
use phantom_grid.Spa.Verifier.Sound.{verify_packet-Passed}

-- An entry is kept for 300 seconds.
not_stale :
    (current seen : ℕ)
    → current < sign_bit
    → seen < sign_bit
    → current ≤ seen + 300
    → is_stale current seen ≡ false
unfolding is_stale
not_stale current seen h k le = ground arith

lookup-clean_up :
    (current seen : ℕ) (key : Bytes) (cache : SeenCache)
    → lookup key cache ≡ some seen
    → is_stale current seen ≡ false
    → lookup key (clean_up current cache) ≡ some seen
unfolding clean_up
lookup-clean_up current seen key cache h s =
    ground (arith, lookup-delete_if (is_stale current) key seen cache)

-- A packet of which the digest is in the cache is rejected, and one that is accepted is entered.
pub check_replay_seen :
    (current seen : ℕ) (key : Bytes) (cache : SeenCache)
    → lookup key cache ≡ some seen
    → is_stale current seen ≡ false
    → (check_replay current key cache).0 ≡ err replay_detected
unfolding check_replay
check_replay_seen current seen key cache h s =
    ground (arith, lookup-clean_up current seen key cache)

lookup-check_replay_self :
    (current : ℕ) (key : Bytes) (cache cache' : SeenCache)
    → check_replay current key cache ≡ (ok tt, cache')
    → lookup key cache' ≡ some current
unfolding check_replay
lookup-check_replay_self current key cache cache' h =
    ground (arith, lookup-insert key key current (clean_up current cache), bytes_eq_refl key)

-- An entry that is not stale survives every critical section, whatever packet it is for.
lookup-check_replay :
    (current seen : ℕ) (key other : Bytes) (cache : SeenCache)
    → lookup key cache ≡ some seen
    → is_stale current seen ≡ false
    → lookup key (check_replay current other cache).1 ≡ some seen
unfolding check_replay
lookup-check_replay current seen key other cache h s = ground (
  arith,
  lookup-clean_up current seen key cache,
  lookup-insert other key current (clean_up current cache),
  bytes_eq_iff other key,
)

-- Critical sections in the order in which the goroutines take the mutex, each with its clock
-- reading and the key of its packet.
unfoldable pub run_sections : List (ℕ × Bytes) → SeenCache → SeenCache
run_sections [] cache = cache
run_sections ((current, key) ∷ rest) cache = run_sections rest (check_replay current key cache).1

-- The clock readings of the sections lie at most 300 seconds after `seen`.
abbrev pub Within : ℕ → List (ℕ × Bytes) → Type 0
Within seen [] = Unit
Within seen ((current, key) ∷ rest) =
    (current < sign_bit) × (current ≤ seen + 300) × Within seen rest

lookup-run_sections :
    (seen : ℕ) (key : Bytes) (sections : List (ℕ × Bytes)) (cache : SeenCache)
    → seen < sign_bit
    → Within seen sections
    → lookup key cache ≡ some seen
    → lookup key (run_sections sections cache) ≡ some seen
unfolding run_sections
lookup-run_sections seen key [] cache k w h = h
lookup-run_sections seen key ((current, other) ∷ rest) cache k (lt, le, w) h =
    lookup-run_sections seen key rest (check_replay current other cache).1 k w
      (lookup-check_replay current seen key other cache h (not_stale current seen lt k le))

-- A packet that was accepted is rejected as a replay by every critical section of the following
-- 300 seconds, in whatever order other critical sections came between, with whatever clock
-- readings within these 300 seconds and below 2^63.
pub replay_rejected :
    (seen current : ℕ) (key : Bytes) (cache cache' : SeenCache) (sections : List (ℕ × Bytes))
    → check_replay seen key cache ≡ (ok tt, cache')
    → seen < sign_bit
    → Within seen sections
    → current < sign_bit
    → current ≤ seen + 300
    → (check_replay current key (run_sections sections cache')).0 ≡ err replay_detected
replay_rejected seen current key cache cache' sections accepted k w lt le =
    check_replay_seen current seen key (run_sections sections cache')
      (lookup-run_sections seen key sections cache' k w
        (lookup-check_replay_self seen key cache cache' accepted))
      (not_stale current seen lt k le)

-- One call of VerifyPacket.
pub record Attempt : Type 0 where
  pub bytes : Bytes
  pub sender : Option Bytes
  pub clock : ℕ → ℕ

module _ (c : Crypto) (config : DynamicSpaConfig) where
  -- Calls one after another; `none` if one of them panics.
  unfoldable pub verify_all : List Attempt → SeenCache → Option SeenCache
  verify_all [] cache = some cache
  verify_all (a ∷ rest) cache = do
    (_, cache') ← verify_packet c config a.bytes a.sender a.clock cache
    verify_all rest cache'

  settle_section :
      (bytes : Bytes) (current : ℕ) (cache : SeenCache) (check : Check)
      → ((settle c bytes current cache check).1 ≡ cache)
        ⊎ ((settle c bytes current cache check).1
            ≡ (check_replay current (packet_key c bytes) cache).1)
  unfolding settle
  settle_section bytes current cache none = inr refl
  settle_section bytes current cache (some e) = inl refl

  -- A call leaves the cache as it is, or makes one critical section.
  verify_packet_section :
      (a : Attempt) (cache cache' : SeenCache) (v : Verdict)
      → verify_packet c config a.bytes a.sender a.clock cache ≡ some (v, cache')
      → (cache' ≡ cache) ⊎ (cache' ≡ (check_replay (a.clock 0) (packet_key c a.bytes) cache).1)
  unfolding verify_packet verify_parsed
  verify_packet_section a cache cache' v h =
      let (r, er, h') = >>=-eq-some (parse_spa_packet a.bytes) _ h in go r h'
    where
      go :
          (r : Result ParseError SpaPacket)
          → verify_parsed c config a.bytes a.sender a.clock cache r ≡ some (v, cache')
          → (cache' ≡ cache) ⊎ (cache' ≡ (check_replay (a.clock 0) (packet_key c a.bytes) cache).1)
      go (err e) q = inl (ground arith)
      go (ok packet) q =
          let (check, _, q') =
            >>=-eq-some (check_packet c config packet a.bytes a.sender a.clock) _ q in
          let same : cache' ≡ (settle c a.bytes (a.clock 0) cache check).1 = ground arith in
          elim (settle_section a.bytes (a.clock 0) cache check) [
            | inl l ↦ inl (same ∙ l)
            | inr r ↦ inr (same ∙ r)
          ]

  lookup-verify_packet :
      (seen : ℕ) (key : Bytes) (a : Attempt) (cache cache' : SeenCache) (v : Verdict)
      → seen < sign_bit
      → a.clock 0 < sign_bit
      → a.clock 0 ≤ seen + 300
      → lookup key cache ≡ some seen
      → verify_packet c config a.bytes a.sender a.clock cache ≡ some (v, cache')
      → lookup key cache' ≡ some seen
  lookup-verify_packet seen key a cache cache' v k lt le h q =
      elim (verify_packet_section a cache cache' v q) [
        | inl same ↦ ap (lookup key) same ∙ h
        | inr section ↦
            ap (lookup key) section
            ∙ lookup-check_replay (a.clock 0) seen key (packet_key c a.bytes) cache h
                (not_stale (a.clock 0) seen lt k le)
      ]

  -- The clock of each call reads at most `now`.
  abbrev pub Before : ℕ → List Attempt → Type 0
  Before now [] = Unit
  Before now (a ∷ rest) = (a.clock 0 ≤ now) × Before now rest

  lookup-verify_all :
      (seen now : ℕ) (key : Bytes) (attempts : List Attempt) (cache cache' : SeenCache)
      → seen < sign_bit
      → now < sign_bit
      → now ≤ seen + 300
      → Before now attempts
      → lookup key cache ≡ some seen
      → verify_all attempts cache ≡ some cache'
      → lookup key cache' ≡ some seen
  unfolding verify_all
  lookup-verify_all seen now key [] cache cache' k n le b h q =
      let same : cache ≡ cache' = cc in rw (← same) h
  lookup-verify_all seen now key (a ∷ rest) cache cache' k n le (b, bs) h q =
      let ((v, next), e, q') =
        >>=-eq-some (verify_packet c config a.bytes a.sender a.clock cache) _ q in
      lookup-verify_all seen now key rest next cache' k n le bs
        (lookup-verify_packet seen key a cache next v k (omega arith) (omega arith) h e) q'

  too_old :
      (seen now : ℕ) (packet : SpaPacket)
      → packet.timestamp ≤ seen
      → seen + 300 < now
      → now < sign_bit
      → check_timestamp now packet ≢ none
  unfolding check_timestamp time_diff
  too_old seen now packet h k n e = absurd (ground arith)

  -- A packet that was accepted at a time not before its timestamp is never accepted again: not
  -- from any sender, and after no sequence of other calls, as long as no clock reading comes after
  -- the last one, and the two readings are below 2^63.
  pub accepted_once :
      (bytes : Bytes) (sender sender' : Option Bytes) (clock clock' : ℕ → ℕ)
      (cache first last cache' : SeenCache) (attempts : List Attempt) (packet : SpaPacket)
      → verify_packet c config bytes sender clock cache ≡ some (ok tt, first)
      → verify_all attempts first ≡ some last
      → parse_spa_packet bytes ≡ some (ok packet)
      → packet.timestamp ≤ clock 0
      → clock 0 < sign_bit
      → clock' 0 < sign_bit
      → Before (clock' 0) attempts
      → verify_packet c config bytes sender' clock' last ≢ some (ok tt, cache')
  accepted_once bytes sender sender' clock clock' cache first last cache' attempts packet h q parsed
        past lt lt' before again =
      let one = verify_packet-Passed c config bytes sender clock cache first h in
      let two = verify_packet-Passed c config bytes sender' clock' last cache' again in
      let key = packet_key c bytes in
      let entered = lookup-check_replay_self (clock 0) key cache first one.replay in
      elim (dec_lt (clock 0 + 300) (clock' 0)) [
        | yes late ↦
            let same : two.packet ≡ packet = cc (two.parsed, parsed) in
            too_old (clock 0) (clock' 0) packet past late lt' (rw same at two.timestamp)
        | no early ↦
            let le : clock' 0 ≤ clock 0 + 300 = omega arith in
            let kept =
              lookup-verify_all (clock 0) (clock' 0) key attempts first last lt lt' le before
                entered q in
            let seen =
              check_replay_seen (clock' 0) (clock 0) key last kept
                (not_stale (clock' 0) (clock 0) lt' lt le) in
            cc (seen, two.replay)
      ]
