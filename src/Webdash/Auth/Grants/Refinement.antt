-- ===== src/Webdash/Auth/Grants/Refinement.antt =====
-- The map of sessions and its methods against the grants.
use mathlib.Core.Path.{subst}
use phantom_grid.Prelude.{
  ℕ, ◌+◌, ◌≤◌, Bool, true, false, Option, none, some, List, [], ◌∷◌, ◌≡◌, refl, ap, ◌∙◌, arith, ltb,
  if◌then◌else◌, Result, ok, err,
}
use phantom_grid.Prelude.Bytes.{Bytes, bytes_eq, hex_encode}
use phantom_grid.Prelude.Table.{
  lookup, insert, lookup-insert, lookup-delete, lookup-delete_if-Unique, Unique, unless_stale,
  insert-Unique, delete-Unique, delete_if-Unique,
}
use phantom_grid.Webdash.Auth.{
  User, Session, AuthManager, AuthError, nanosecond_day, validate_session, validate_token, logout,
  cleanup_sessions, save_users, user_not_found, incorrect_old_password, hash_password, has_password,
  authenticate, change_password,
}
use phantom_grid.Webdash.Auth.Grants.{
  Call, logs_in, logs_out, changes, cleans, Grants, grants_of, granted, accepted, renewed, specify,
  call, specify_all, call_all, CleanedBefore,
}

module _ (sha256 : Bytes → Bytes) where
  -- The map and the grants agree on every answer from `now` on.
  record Agree (now : ℕ) (am : AuthManager) (g : Grants) : Type 0 where
    unique : Unique am.sessions
    same_user : (name : Bytes) → lookup name am.users ≡ g.user name
    same : (token : Bytes) → granted now (lookup token am.sessions) ≡ granted now (g.grant token)

  -- One call keeps the agreement.
  abbrev Early : ℕ → Call → Type 0
  Early now (cleans t) = t ≤ now
  Early now _ = Unit

  granted-unless_stale :
      (t now : ℕ) (o : Option Session)
      → t ≤ now
      → granted now (unless_stale (λ s. ltb s.expires_at t) o) ≡ granted now o
  granted-unless_stale t now none h = refl
  granted-unless_stale t now (some s) h = ground arith

  same_if : (b : Bool) (q o p : Option User) → o ≡ p → (if b then q else o) ≡ (if b then q else p)
  same_if true q o p e = refl
  same_if false q o p e = e

  either :
      (now : ℕ) (b : Bool) (o p q : Option Session)
      → granted now o ≡ granted now p
      → granted now (if b then q else o) ≡ granted now (if b then q else p)
  either now true o p q e = refl
  either now false o p q e = e

  -- The same decision in the code and in the specification.
  both_if :
      {R : Type 0} (now : ℕ) (b c : Bool) (x y : R × AuthManager) (f g : Grants)
      → b ≡ c
      → Agree now x.1 f
      → Agree now y.1 g
      → Agree now (if b then x else y).1 (if c then f else g)
  both_if now true true x y f g e p q = p
  both_if now false false x y f g e p q = q
  both_if now true false x y f g e p q = absurd (ground arith)
  both_if now false true x y f g e p q = absurd (ground arith)

  login-Agree :
      (now t : ℕ) (random u p : Bytes) (am : AuthManager) (g : Grants)
      → Agree now am g
      → Agree now (authenticate sha256 t random u p am).1 (specify sha256 (logs_in t random u p) g)
  unfolding authenticate specify
  login-Agree now t random u p am g a =
      let s : Session = record { username = u; expires_at = t + nanosecond_day } in
      both_if now _ _ _ _ _ _ (ap (has_password sha256 p) (a.same_user u))
        (record {
          unique = insert-Unique (hex_encode random) s am.sessions a.unique;
          same_user = a.same_user;
          same = λ token.
              ap (granted now) (lookup-insert (hex_encode random) token s am.sessions)
              ∙ either now (bytes_eq (hex_encode random) token) _ _ (some s) (a.same token);
        })
        a

  change-Agree :
      (now : ℕ) (u o n : Bytes) (am : AuthManager) (g : Grants) (found : Option User)
      → lookup u am.users ≡ found
      → Agree now am g
      → Agree now
          (elim found as (λ _. Result AuthError (Unit {0}) × AuthManager) [
            | none ↦ (err user_not_found, am)
            | some user ↦
                if bytes_eq user.password (hash_password sha256 o)
                then (
                  ok tt,
                  save_users (record am {
                    users = insert u (record user { password = hash_password sha256 n }) am.users;
                  }),
                )
                else (err incorrect_old_password, am)
          ]).1
          (if has_password sha256 o found
            then record g {
              user = λ name. if bytes_eq u name then renewed sha256 n found else g.user name;
            }
            else g)
  unfolding has_password save_users
  change-Agree now u o n am g none e a = a
  change-Agree now u o n am g (some user) e a =
      both_if now _ _ _ _ _ _ refl
        (record {
          unique = a.unique;
          same_user = λ name.
              lookup-insert u name (record user { password = hash_password sha256 n }) am.users
              ∙ same_if (bytes_eq u name) _ _ _ (a.same_user name);
          same = a.same;
        })
        a

  call-Agree :
      (now : ℕ) (c : Call) (am : AuthManager) (g : Grants)
      → Early now c
      → Agree now am g
      → Agree now (call sha256 c am) (specify sha256 c g)
  unfolding call specify logout cleanup_sessions change_password
  call-Agree now (logs_in t random u p) am g h a = login-Agree now t random u p am g a
  call-Agree now (logs_out token) am g h a = record {
    unique = delete-Unique token am.sessions a.unique;
    same_user = a.same_user;
    same = λ other.
        ap (granted now) (lookup-delete token other am.sessions)
        ∙ either now (bytes_eq token other) _ _ none (a.same other);
  }
  call-Agree now (changes u o n) am g h a =
      subst
        (λ found. Agree now (change_password sha256 u o n am).1 (
          if has_password sha256 o found
          then record g {
            user = λ name. if bytes_eq u name then renewed sha256 n found else g.user name;
          }
          else g))
        (a.same_user u) (change-Agree now u o n am g (lookup u am.users) refl a)
  call-Agree now (cleans t) am g h a = record {
    unique = delete_if-Unique _ am.sessions a.unique;
    same_user = a.same_user;
    same = λ token.
        ap (granted now) (lookup-delete_if-Unique _ token am.sessions a.unique)
        ∙ granted-unless_stale t now (lookup token am.sessions) h
        ∙ a.same token;
  }

  call_all-Agree :
      (now : ℕ) (cs : List Call) (am : AuthManager) (g : Grants)
      → CleanedBefore now cs
      → Agree now am g
      → Agree now (call_all sha256 cs am) (specify_all sha256 cs g)
  unfolding call_all specify_all
  call_all-Agree now [] am g h a = a
  call_all-Agree now (logs_in t r u p ∷ cs) am g h a =
      call_all-Agree now cs _ _ h (call-Agree now (logs_in t r u p) am g tt a)
  call_all-Agree now (logs_out t ∷ cs) am g h a =
      call_all-Agree now cs _ _ h (call-Agree now (logs_out t) am g tt a)
  call_all-Agree now (changes u o n ∷ cs) am g h a =
      call_all-Agree now cs _ _ h (call-Agree now (changes u o n) am g tt a)
  call_all-Agree now (cleans t ∷ cs) am g (e, h) a =
      call_all-Agree now cs _ _ h (call-Agree now (cleans t) am g e a)

  accepted-validate_session :
      (now : ℕ) (o : Option Session) → accepted (validate_session now o) ≡ granted now o
  unfolding validate_session
  accepted-validate_session now none = refl
  accepted-validate_session now (some s) = ground arith

  -- After any calls of Authenticate, Logout, ChangePassword and rounds of cleanupSessions, from a
  -- map in which no token stands twice, ValidateToken accepts a token exactly for the user to whom
  -- the specification has granted it, in which a login grants for 24 hours, a logout takes back and
  -- a cleanup does nothing, if no cleanup read a later clock than ValidateToken does.
  pub validate_token-call_all :
      (now : ℕ) (cs : List Call) (am : AuthManager) (token : Bytes)
      → Unique am.sessions
      → CleanedBefore now cs
      → accepted (validate_token now token (call_all sha256 cs am))
        ≡ granted now ((specify_all sha256 cs (grants_of am)).grant token)
  unfolding validate_token
  validate_token-call_all now cs am token u h =
      let start : Agree now am (grants_of am) = record {
        unique = u;
        same_user = λ name. refl;
        same = λ t. refl;
      } in
      accepted-validate_session now (lookup token (call_all sha256 cs am).sessions)
      ∙ (call_all-Agree now cs am (grants_of am) h start).same token
