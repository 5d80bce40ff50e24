-- ===== src/Spa/Totp/Loop.antt =====
-- The loop of ValidateTOTP against its rounds, and how much fuel it takes.

use native.Mathlib.Decide.{dec_le}
use phantom_grid.Prelude.{
  ℕ, zero, suc, ◌+◌, ◌-◌, ◌%◌, ◌<◌, Bool, true, false, Option, some, ◌≡◌, ◌≢◌, arith, inl, inr,
  Option-cases,
}
use phantom_grid.Prelude.Bytes.{Bytes}
use phantom_grid.Prelude.Words.{word64, sign_bit, add64, mul64, neg64, greater64, div64}
use phantom_grid.Spa.Crypto.{Crypto}
use phantom_grid.Spa.Totp.{
  totp, validate_from, rounds_of, validate_totp, validate_loop, validate_totp_fuel,
}

-- The place of an `int64` in the order of the signed numbers.
abbrev rank : ℕ → ℕ
rank x = (x + sign_bit) % word64

-- One more round, from the same step.
module _ (c : Crypto) (secret : Bytes) (time_step current_step tolerance received : ℕ) where
  abbrev looped : ℕ → ℕ → Option (Option Bool)
  looped fuel i = validate_loop c secret time_step current_step tolerance received fuel i

  abbrev counted : ℕ → ℕ → Option Bool
  counted i rounds = validate_from c secret time_step current_step received i rounds

  validate_loop-suc :
      (i fuel rounds : ℕ)
      → greater64 i tolerance ≡ false
      → looped fuel (add64 i 1) ≡ some (counted (add64 i 1) rounds)
      → looped (suc fuel) i ≡ some (counted i (suc rounds))
  unfolding validate_loop validate_from
  validate_loop-suc i fuel rounds g e =
      elim (Option-cases (totp c secret time_step (mul64 (add64 current_step i) time_step))) [
        | inl n ↦ rw (g, n)
        | inr (expected, q) ↦ rw (g, q) (ground (arith, e))
      ]

  validate_loop-end :
      (fuel i : ℕ) → 0 < fuel → greater64 i tolerance ≡ true → looped fuel i ≡ some (counted i 0)
  unfolding validate_loop validate_from
  validate_loop-end zero i h g = absurd (omega arith)
  validate_loop-end (suc fuel) i h g = ground (arith, g)

  -- From `rounds` steps before the last one.
  validate_loop-validate_from :
      (rounds fuel i : ℕ)
      → rounds < fuel
      → rank i + rounds ≡ rank tolerance + 1
      → rank tolerance + 1 < word64
      → looped fuel i ≡ some (counted i rounds)
  validate_loop-validate_from zero fuel i h e b = validate_loop-end fuel i h (ground arith)
  validate_loop-validate_from (suc rounds) zero i h e b = absurd (omega arith)
  validate_loop-validate_from (suc rounds) (suc fuel) i h e b =
      let n : rank (add64 i 1) ≡ rank i + 1 = omega arith in
      validate_loop-suc i fuel rounds (ground arith)
        (validate_loop-validate_from rounds fuel (add64 i 1) (omega arith) (omega arith) b)

  -- From -tolerance; a negative tolerance, but the least one, gives no round.
  validate_loop-rounds_of :
      (fuel : ℕ)
      → tolerance < word64
      → tolerance ≢ sign_bit - 1
      → rounds_of tolerance < fuel
      → looped fuel (neg64 tolerance) ≡ some (counted (neg64 tolerance) (rounds_of tolerance))
  validate_loop-rounds_of fuel h m f = elim (dec_le tolerance sign_bit) [
    | yes l ↦
        validate_loop-validate_from (rounds_of tolerance) fuel (neg64 tolerance) f
          (unfold rounds_of in ground arith) (omega arith)
    | no n ↦
        let e : rounds_of tolerance ≡ 0 = unfold rounds_of in ground arith in
        rw e (validate_loop-end fuel (neg64 tolerance) (omega arith) (ground arith))
  ]

-- The loop of ValidateTOTP ends: for every tolerance except the greatest int, fuel above the number
-- of its rounds gives the answer, which is the one of the rounds taken in turn.
pub validate_totp_fuel-validate_totp :
    (c : Crypto) (secret : Bytes) (fuel time_step tolerance received now : ℕ)
    → tolerance < word64
    → tolerance ≢ sign_bit - 1
    → rounds_of tolerance < fuel
    → validate_totp_fuel c fuel secret time_step tolerance received now
      ≡ some (validate_totp c secret time_step tolerance received now)
unfolding validate_totp_fuel validate_totp
validate_totp_fuel-validate_totp c secret fuel time_step tolerance received now h m f =
    elim (Option-cases (div64 now time_step)) [
      | inl n ↦ rw (validate_totp_fuel, n)
      | inr (current_step, e) ↦
          rw (validate_totp_fuel, e)
            (validate_loop-rounds_of c secret time_step current_step tolerance received fuel h m f)
    ]
