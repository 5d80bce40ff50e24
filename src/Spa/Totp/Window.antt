-- ===== src/Spa/Totp/Window.antt =====
-- What ValidateTOTP accepts: the codes of the time steps within the tolerance, and no others.
use native.Mathlib.Decide.{dec_lt}
use native.Mathlib.Nat.{div-le_self, mul-div_left, div-mul-le_self, le_refl, mod-eq_of_lt}
use phantom_grid.Prelude.{
  ℕ, zero, suc, ◌+◌, ◌-◌, ◌*◌, ◌/◌, ◌%◌, ◌^◌, ◌≤◌, ◌<◌, true, false, Option, none, some, ◌≡◌, ◌≢◌,
  ap, ◌∙◌, arith, inl, inr, ◌↔◌, ◌==◌, ==_iff, Bool-cases, if◌then◌else◌, get_elem?_total,
  slice_total, length, take, drop,
}
use phantom_grid.Prelude.Bytes.{Bytes}
use phantom_grid.Prelude.Words.{
  sign_bit, add64, mul64, neg64, is_negative, be_bytes, be_nat, div64_pos, div64_total,
}
use phantom_grid.Spa.Crypto.{Crypto, IsLawful}
use phantom_grid.Spa.Totp.{
  truncate_code, totp, generate_totp, validate_from, rounds_of, validate_totp,
}

le_of_mul : (x t s : ℕ) → 0 < t → x * t ≤ s → x ≤ s
le_of_mul x zero s p h = elim p [ ]
le_of_mul x (suc t) s p h = omega arith

-- A MAC of 20 bytes has a code, of at most six digits.
pub truncate_code_total :
    (hash : Bytes) → length hash ≡ 20 → (r : ℕ) × (truncate_code hash ≡ some r) × (r < 1000000)
unfolding truncate_code
truncate_code_total hash e =
    let (last, el) = get_elem?_total hash 19 (omega arith) in
    let offset = last % 16 in
    let sl = slice_total offset (offset + 4) hash (omega arith) (omega arith) in
    let four = take (offset + 4 - offset) (drop offset hash) in
    (be_nat four % 2 ^ 31 % 1000000, rw el (rw sl), omega arith)

-- The code of the `k`-th time step.
abbrev pub code_at : Crypto → Bytes → ℕ → ℕ → Option ℕ
code_at c secret time_step k = totp c secret time_step (k * time_step)

-- The window that ValidateTOTP looks at lies within the range of `int64`.
abbrev pub InRange : ℕ → ℕ → ℕ → Type 0
InRange time_step tolerance now =
    (now < sign_bit)
    × (time_step < sign_bit)
    × (tolerance ≤ now / time_step)
    × ((now / time_step + tolerance + 1) * time_step ≤ sign_bit)

module _ {c : Crypto} (lawful : IsLawful c) (secret : Bytes) (time_step : ℕ)
    (p : 0 < time_step) where
  -- A time step other than zero gives a code of at most six digits, at every time.
  pub totp_total :
      (timestamp : ℕ) → (r : ℕ) × (totp c secret time_step timestamp ≡ some r) × (r < 1000000)
  unfolding totp
  totp_total timestamp =
      let (counter, d) = div64_total timestamp time_step p in
      let (r, e, b) =
        truncate_code_total (c.hmac_sha1 secret (be_bytes 8 counter)) (lawful.hmac_sha1_size _ _) in
      (r, rw d e, b)

  -- A step whose code is another one is not the step that is looked for.
  past :
      (base k r received : ℕ)
      → base ≤ k
      → code_at c secret time_step k ≡ some received
      → code_at c secret time_step base ≡ some r
      → (r == received) ≡ false
      → suc base ≤ k
  past base k r received lo q er miss = elim (dec_lt base k) [
    | yes l ↦ l
    | no n ↦ let e : k ≡ base = omega arith in ground (arith, ap (code_at c secret time_step) e)
  ]

  module _ (current_step received : ℕ) where
    -- The loop looks at `rounds` steps from `base` on.
    abbrev Found : ℕ → ℕ → Type 0
    Found base rounds =
        (k : ℕ) × (base ≤ k) × (k < base + rounds) × (code_at c secret time_step k ≡ some received)

    -- One round of the loop, when its step is `base`.
    validate_from-suc :
        (i base rounds r : ℕ)
        → add64 current_step i ≡ base
        → (base + suc rounds) * time_step ≤ sign_bit
        → code_at c secret time_step base ≡ some r
        → validate_from c secret time_step current_step received i (suc rounds) ≡ (
            if r == received
            then some true
            else validate_from c secret time_step current_step received (add64 i 1) rounds)
    unfolding validate_from
    validate_from-suc i base rounds r e b er =
        let m : mul64 base time_step ≡ base * time_step =
          mod-eq_of_lt (omega (arith, le_of_mul (suc rounds) time_step sign_bit)) in
        rw (e, m, er)

    next_step :
        (i base rounds : ℕ)
        → add64 current_step i ≡ base
        → (base + suc rounds) * time_step ≤ sign_bit
        → add64 current_step (add64 i 1) ≡ suc base
    next_step i base rounds e b =
        omega (arith, le_of_mul (base + suc rounds) time_step sign_bit p b)

    validate_from_sound :
        (i base rounds : ℕ)
        → add64 current_step i ≡ base
        → (base + rounds) * time_step ≤ sign_bit
        → validate_from c secret time_step current_step received i rounds ≡ some true
        → Found base rounds
    validate_from_sound i base zero e b h = unfold validate_from in cc
    validate_from_sound i base (suc rounds) e b h =
        let (r, er, _) = totp_total (base * time_step) in
        let later =
          validate_from_sound (add64 i 1) (suc base) rounds (next_step i base rounds e b)
            (omega arith) in
        elim (Bool-cases (r == received)) [
          | inl hit ↦ (base, le_refl base, omega arith, er ∙ ap some ((==_iff r received).0 hit))
          | inr miss ↦
              let (k, lo, hi, q) =
                later (rw (validate_from-suc i base rounds r e b er, miss) at h) in
              (k, omega arith, omega arith, q)
        ]

    validate_from_complete :
        (i base rounds : ℕ)
        → add64 current_step i ≡ base
        → (base + rounds) * time_step ≤ sign_bit
        → Found base rounds
        → validate_from c secret time_step current_step received i rounds ≡ some true
    validate_from_complete i base zero e b (k, lo, hi, q) = absurd (omega arith)
    validate_from_complete i base (suc rounds) e b (k, lo, hi, q) =
        let (r, er, _) = totp_total (base * time_step) in
        let later =
          validate_from_complete (add64 i 1) (suc base) rounds (next_step i base rounds e b)
            (omega arith) in
        rw (validate_from-suc i base rounds r e b er) (elim (Bool-cases (r == received)) [
          | inl hit ↦ rw hit
          | inr miss ↦ rw miss (later (k, past base k r received lo q er miss, omega arith, q))
        ])

  -- For a time step other than 0 and a window that stays in the range of int64, ValidateTOTP
  -- accepts a code exactly when it is the code of a time step at most `tolerance` steps before or
  -- after the current one.
  pub validate_totp_iff :
      (tolerance received now : ℕ)
      → InRange time_step tolerance now
      → (validate_totp c secret time_step tolerance received now ≡ some true) ↔ (
          (k : ℕ) × (k ≤ now / time_step + tolerance)
          × (now / time_step ≤ k + tolerance)
          × (code_at c secret time_step k ≡ some received))
  unfolding validate_totp rounds_of
  validate_totp_iff tolerance received now (h, ts, t, b) =
      let cs = now / time_step in
      let small = div-le_self now time_step in
      let d = div64_pos now time_step p h ts in
      let pos : is_negative tolerance ≡ false = ground arith in
      let base : add64 cs (neg64 tolerance) ≡ cs - tolerance = omega arith in
      let width : cs - tolerance + (2 * tolerance + 1) ≡ cs + tolerance + 1 = omega arith in
      let room : (cs - tolerance + (2 * tolerance + 1)) * time_step ≤ sign_bit = rw width b in
      rw (d, pos)
        (
          (λ v.
              let (k, lo, hi, q) =
                validate_from_sound cs received (neg64 tolerance) (cs - tolerance)
                  (2 * tolerance + 1) base room v in
              (k, omega arith, omega arith, q)),
          λ (k, hi, lo, q).
              validate_from_complete cs received (neg64 tolerance) (cs - tolerance)
                (2 * tolerance + 1) base room (k, omega arith, omega arith, q),
        )

  -- Two times in the same time step have the same code.
  pub totp_same_step :
      (a b : ℕ)
      → a < sign_bit
      → b < sign_bit
      → time_step < sign_bit
      → a / time_step ≡ b / time_step
      → totp c secret time_step a ≡ totp c secret time_step b
  unfolding totp
  totp_same_step a b ha hb ts e =
      rw (div64_pos a time_step p ha ts, div64_pos b time_step p hb ts, e)

  -- For a time step other than 0 and a window that stays in the range of int64, a code that
  -- GenerateTOTP made at one time, below 2^63, is accepted by ValidateTOTP at another time, when the
  -- two times are at most `tolerance` steps apart.
  pub validate_totp-generate_totp :
      (tolerance code now made : ℕ)
      → InRange time_step tolerance now
      → made < sign_bit
      → generate_totp c secret time_step made ≡ some code
      → made / time_step ≤ now / time_step + tolerance
      → now / time_step ≤ made / time_step + tolerance
      → validate_totp c secret time_step tolerance code now ≡ some true
  unfolding generate_totp
  validate_totp-generate_totp tolerance code now made r h g lo hi =
      let k = made / time_step in
      let whole : k * time_step / time_step ≡ k = mul-div_left k p in
      (validate_totp_iff tolerance code now r).1 (
        k,
        lo,
        hi,
        totp_same_step (k * time_step) made (omega (arith, div-mul-le_self made time_step)) h r.1
              whole
            ∙ g,
      )

  validate_from_defined :
      (current_step received i rounds : ℕ)
      → validate_from c secret time_step current_step received i rounds ≢ none
  unfolding validate_from
  validate_from_defined current_step received i zero = ground arith
  validate_from_defined current_step received i (suc rounds) =
      let (r, e, _) = totp_total (mul64 (add64 current_step i) time_step) in
      let later = validate_from_defined current_step received (add64 i 1) rounds in
      rw e (ground arith)

  -- With a time step other than 0, ValidateTOTP panics on no input.
  pub validate_totp_defined :
      (tolerance received now : ℕ) → validate_totp c secret time_step tolerance received now ≢ none
  unfolding validate_totp
  validate_totp_defined tolerance received now =
      let (current_step, e) = div64_total now time_step p in
      rw e (validate_from_defined current_step received (neg64 tolerance) (rounds_of tolerance))
