-- ===== src/Spa/Totp.antt =====
-- internal/spa/totp.go. The MAC is a parameter. `none` is a run-time panic: a time step of zero, or
-- a MAC that is too short. Times, steps and the time step are `int64` patterns.
pub mod Window
pub mod Loop
use phantom_grid.Prelude.{
  ℕ, zero, suc, ◌+◌, ◌*◌, ◌%◌, ◌^◌, Bool, true, false, Option, none, some, List, [], ◌∷◌, ◌≡◌, refl,
  ◌==◌, ltb, if◌then◌else◌, ◌>>=◌, get_elem?, slice,
}
use phantom_grid.Prelude.Bytes.{Bytes}
use phantom_grid.Prelude.Words.{
  sign_bit, add64, mul64, greater64, div64, neg64, is_negative, be_bytes, be_nat, be_nat_onto,
}
use phantom_grid.Spa.Crypto.{Crypto}

-- Dynamic truncation (RFC 4226) and the six digits.
unfoldable pub truncate_code : Bytes → Option ℕ
truncate_code hash = do
  last ← get_elem? hash 19
  let offset = last % 16
  four ← slice offset (offset + 4) hash
  some (be_nat four % 2 ^ 31 % 1000000)

module _ (c : Crypto) where
  unfoldable pub totp : Bytes → ℕ → ℕ → Option ℕ
  totp secret time_step timestamp = do
    counter ← div64 timestamp time_step
    truncate_code (c.hmac_sha1 secret (be_bytes 8 counter))

  -- `now` is what the clock returns.
  unfoldable pub generate_totp : Bytes → ℕ → ℕ → Option ℕ
  generate_totp secret time_step now = totp secret time_step now

  -- The loop of ValidateTOTP from offset `i`, with `rounds` rounds left.
  unfoldable pub validate_from : Bytes → ℕ → ℕ → ℕ → ℕ → ℕ → Option Bool
  validate_from secret time_step current_step received i zero = some false
  validate_from secret time_step current_step received i (suc rounds) =
      let rest = validate_from secret time_step current_step received (add64 i 1) rounds in
      do
        let step = add64 current_step i
        expected ← totp secret time_step (mul64 step time_step)
        if expected == received then some true else rest

-- How often `for i := -tolerance; i <= tolerance; i++` runs. The least int is its own negation.
unfoldable pub rounds_of : ℕ → ℕ
rounds_of tolerance =
    if is_negative tolerance then (if tolerance == sign_bit then 1 else 0) else 2 * tolerance + 1

module _ (c : Crypto) where
  unfoldable pub validate_totp : Bytes → ℕ → ℕ → ℕ → ℕ → Option Bool
  validate_totp secret time_step tolerance received now = do
    current_step ← div64 now time_step
    validate_from c secret time_step current_step received (neg64 tolerance) (rounds_of tolerance)

  -- The loop as it is written, on fuel: `none` where the fuel runs out.
  unfoldable pub validate_loop : Bytes → ℕ → ℕ → ℕ → ℕ → ℕ → ℕ → Option (Option Bool)
  validate_loop secret time_step current_step tolerance received zero i = none
  validate_loop secret time_step current_step tolerance received (suc fuel) i =
      let rest = validate_loop secret time_step current_step tolerance received fuel (add64 i 1) in
      let step = add64 current_step i in
      if greater64 i tolerance
      then some (some false)
      else elim (totp c secret time_step (mul64 step time_step)) [
        | none ↦ some none
        | some expected ↦ if expected == received then some (some true) else rest
      ]

  unfoldable pub validate_totp_fuel : ℕ → Bytes → ℕ → ℕ → ℕ → ℕ → Option (Option Bool)
  validate_totp_fuel fuel secret time_step tolerance received now = elim (div64 now time_step) [
    | none ↦ some none
    | some current_step ↦
        validate_loop secret time_step current_step tolerance received fuel (neg64 tolerance)
  ]

-- The start and the end of the time step that a time lies in.
unfoldable pub totp_time_window : ℕ → ℕ → Option (ℕ × ℕ)
totp_time_window time_step timestamp = do
  step ← div64 timestamp time_step
  let start = mul64 step time_step
  some (start, add64 start time_step)
