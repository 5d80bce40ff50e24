-- ===== src/Webdash/Auth/Grants.antt =====
-- What the sessions promise: a token is a grant to a user for 24 hours, unless it is taken back.
-- The map, its expired entries and its cleanup are representation.
pub mod Refinement
use mathlib.Core.Path.{subst}
use phantom_grid.Prelude.{
  ℕ, ◌+◌, ◌≤◌, Bool, true, false, Option, none, some, List, [], ◌∷◌, ◌≡◌, refl, ap, ◌∙◌, arith, ltb,
  if◌then◌else◌, Result, ok, err,
}
use phantom_grid.Prelude.Bytes.{Bytes, bytes_eq, hex_encode}
use phantom_grid.Prelude.Table.{
  lookup, insert, lookup-insert, lookup-delete, lookup-delete_if-Unique, Unique, unless_stale,
  insert-Unique, delete-Unique, delete_if-Unique,
}
use phantom_grid.Webdash.Auth.{
  User, Session, AuthManager, AuthError, nanosecond_day, validate_session, validate_token, logout,
  cleanup_sessions, save_users, user_not_found, incorrect_old_password, hash_password, has_password,
  authenticate, change_password,
}

-- A call of a method that changes the state; what the clock and crypto/rand yield goes with it.
pub data Call : Type 0 where
  logs_in : ℕ → Bytes → Bytes → Bytes → Call
  logs_out : Bytes → Call
  changes : Bytes → Bytes → Bytes → Call
  cleans : ℕ → Call

-- The abstract state: who has been granted what, and until when.
pub record Grants : Type 0 where
  pub user : Bytes → Option User
  pub grant : Bytes → Option Session

-- The grants that a map of sessions stands for.
abbrev pub grants_of : AuthManager → Grants
grants_of am = record {
  user = λ name. lookup name am.users;
  grant = λ token. lookup token am.sessions;
}

-- Whom a grant still speaks for.
abbrev pub granted : ℕ → Option Session → Option Bytes
granted now none = none
granted now (some s) = if ltb s.expires_at now then none else some s.username

-- Whom ValidateToken returns.
abbrev pub accepted {ℓ} : {E : Type ℓ} → Result E Bytes → Option Bytes
accepted (ok name) = some name
accepted (err e) = none

-- No cleanup reads a clock later than `now`.
abbrev pub CleanedBefore : ℕ → List Call → Type 0
CleanedBefore now [] = Unit
CleanedBefore now (cleans t ∷ cs) = (t ≤ now) × CleanedBefore now cs
CleanedBefore now (_ ∷ cs) = CleanedBefore now cs

module _ (sha256 : Bytes → Bytes) where
  -- A user with another password.
  abbrev pub renewed : Bytes → Option User → Option User
  renewed password none = none
  renewed password (some user) = some (record user { password = hash_password sha256 password })

  -- The specification: a login grants, a logout takes back, and a cleanup does nothing.
  unfoldable pub specify : Call → Grants → Grants
  specify (logs_in now random username password) g =
      if has_password sha256 password (g.user username)
      then record g {
        grant = λ token.
            if bytes_eq (hex_encode random) token
            then some (record { username = username; expires_at = now + nanosecond_day })
            else g.grant token;
      }
      else g
  specify (logs_out token) g = record g {
    grant = λ other. if bytes_eq token other then none else g.grant other;
  }
  specify (changes username old_pass new_pass) g =
      if has_password sha256 old_pass (g.user username)
      then record g {
        user = λ name.
            if bytes_eq username name then renewed new_pass (g.user username) else g.user name;
      }
      else g
  specify (cleans now) g = g

  -- The code.
  unfoldable pub call : Call → AuthManager → AuthManager
  call (logs_in now random username password) am =
      (authenticate sha256 now random username password am).1
  call (logs_out token) am = logout token am
  call (changes username old_pass new_pass) am =
      (change_password sha256 username old_pass new_pass am).1
  call (cleans now) am = cleanup_sessions now am

  unfoldable pub specify_all : List Call → Grants → Grants
  specify_all [] g = g
  specify_all (c ∷ cs) g = specify_all cs (specify c g)

  unfoldable pub call_all : List Call → AuthManager → AuthManager
  call_all [] am = am
  call_all (c ∷ cs) am = call_all cs (call c am)
