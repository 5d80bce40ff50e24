-- ===== src/Spa/Verifier/Checks.antt =====
-- The single checks of VerifyPacket: which packets pass them.
use phantom_grid.Prelude.{
  ℕ, ◌+◌, ◌≤◌, ◌<◌, Bool, true, Option, none, some, List, [], ◌∷◌, ◌≡◌, ◌≢◌, refl, sym, ap, ◌∙◌,
  arith, ◌⊎◌, inl, inr, ◌↔◌, >>=-eq-some, Bool-cases, Option-cases, In, here, there,
}
use phantom_grid.Prelude.Bytes.{Bytes}
use phantom_grid.Prelude.Words.{sign_bit, word64}
use phantom_grid.Spa.Packet.{SpaPacket}
use phantom_grid.Spa.Verifier.{time_diff, check_timestamp, any_valid, any_totp}

-- The timestamp is at most 300 seconds away, on `int64` (the second case is that of a negative
-- one), or it is the one at which the negation of the difference overflows.
abbrev pub Fresh : ℕ → ℕ → Type 0
Fresh now timestamp =
    ((timestamp ≤ now + 300) × (now ≤ timestamp + 300))
    ⊎ ((now + word64 ≤ timestamp + 300) ⊎ (timestamp ≡ now + sign_bit))

-- At a clock of 0 to 2^63 - 1, a packet passes the check of its timestamp exactly when the
-- timestamp is at most 300 seconds away, or is 2^63 seconds away.
pub check_timestamp_iff :
    (now : ℕ) (p : SpaPacket)
    → now < sign_bit
    → p.timestamp < word64
    → (check_timestamp now p ≡ none) ↔ Fresh now p.timestamp
unfolding check_timestamp time_diff
check_timestamp_iff now p h k = (λ e. ground arith, λ f. ground arith)

-- The checks with a list of keys pass exactly when one key passes, if no key panics.
pub any_valid_sound :
    (test : Bytes → Option Bool) (keys : List Bytes)
    → any_valid test keys ≡ some true
    → (key : Bytes) × In key keys × (test key ≡ some true)
unfolding any_valid
any_valid_sound test [] h = absurd (ground arith)
any_valid_sound test (key ∷ keys) h =
    let (valid, e, h') = >>=-eq-some (test key) _ h in
    elim (Bool-cases valid) [
      | inl v ↦ (key, here refl, e ∙ ap some v)
      | inr v ↦ let (k, i, t) = any_valid_sound test keys (ground arith) in (k, there i, t)
    ]

pub any_valid_complete :
    {key : Bytes} (test : Bytes → Option Bool) (keys : List Bytes)
    → ((k : Bytes) → In k keys → test k ≢ none)
    → In key keys
    → test key ≡ some true
    → any_valid test keys ≡ some true
unfolding any_valid
any_valid_complete test [] d i t = elim i [ ]
any_valid_complete {key} test (k ∷ keys) d (here e) t = rw (ap test (sym e) ∙ t)
any_valid_complete {key} test (k ∷ keys) d (there i) t =
    let later = any_valid_complete test keys (λ j m. d j (there m)) i t in
    elim (Option-cases (test k)) [
      | inl n ↦ absurd (d k (here refl) n)
      | inr (valid, e) ↦ rw (e, later) (ground arith)
    ]

pub any_totp_complete :
    {secret : Bytes} (test : Bytes → ℕ → Option Bool) (clock : ℕ → ℕ) (secrets : List Bytes)
    → ((s : Bytes) (now : ℕ) → test s now ≢ none)
    → In secret secrets
    → ((i : ℕ) → test secret (clock i) ≡ some true)
    → any_totp test clock secrets ≡ some true
unfolding any_totp
any_totp_complete test clock [] d i t = elim i [ ]
any_totp_complete {secret} test clock (s ∷ secrets) d (here e) t =
    rw (ap (λ x. test x (clock 0)) (sym e) ∙ t 0)
any_totp_complete {secret} test clock (s ∷ secrets) d (there i) t =
    let later = any_totp_complete test (λ j. clock (j + 1)) secrets d i (λ j. t (j + 1)) in
    elim (Option-cases (test s (clock 0))) [
      | inl n ↦ absurd (d s (clock 0) n)
      | inr (valid, e) ↦ rw (e, later) (ground arith)
    ]
