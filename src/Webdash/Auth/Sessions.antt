-- ===== src/Webdash/Auth/Sessions.antt =====
-- Which tokens are accepted, and whom the middleware lets through.
use phantom_grid.Prelude.{
  ℕ, ◌≤◌, true, false, Option, none, some, ◌≡◌, refl, sym, ap, ◌∙◌, arith, ◌⊎◌, inl, inr, ltb,
  if◌then◌else◌, Bool-cases, Option-cases, Result, ok, err,
}
use phantom_grid.Prelude.Bytes.{Bytes, bytes_eq, bytes_eq_refl}
use phantom_grid.Prelude.Table.{lookup, delete, lookup-delete, lookup-delete_if}
use phantom_grid.Webdash.Auth.{
  User, Session, AuthManager, AuthError, get_user, validate_session, validate_token, logout,
  cleanup_sessions, invalid_session, next, is_public, refuse, identify, auth_middleware,
}

-- A session that has not expired, of a user.
abbrev pub LiveSession : ℕ → Bytes → User → AuthManager → Type 0
LiveSession now token user am =
    (s : Session) × (lookup token am.sessions ≡ some s)
    × (now ≤ s.expires_at)
    × (lookup s.username am.users ≡ some user)

validate_token_ok :
    (now : ℕ) (token name : Bytes) (am : AuthManager)
    → validate_token now token am ≡ ok name
    → (s : Session) × (lookup token am.sessions ≡ some s)
      × (now ≤ s.expires_at)
      × (s.username ≡ name)
unfolding validate_token validate_session
validate_token_ok now token name am h = elim (Option-cases (lookup token am.sessions)) [
  | inl e ↦ absurd (ground arith)
  | inr (s, e) ↦ (s, e, ground arith, ground arith)
]

identify_next :
    (now : ℕ) (path token : Bytes) (u : Option User) (am : AuthManager) (r : Result AuthError Bytes)
    → validate_token now token am ≡ r
    → identify path am r ≡ next u
    → (user : User) × (u ≡ some user) × LiveSession now token user am
unfolding identify refuse get_user
identify_next now path token u am (err e) v h = absurd (ground arith)
identify_next now path token u am (ok name) v h =
    let (s, e, live, n) = validate_token_ok now token name am v in
    elim (Option-cases (lookup name am.users)) [
      | inl missing ↦ absurd (ground arith)
      | inr (user, found) ↦
          (user, ground arith, (s, e, live, ap (λ k. lookup k am.users) n ∙ found))
    ]

-- A request that the middleware hands on is for a public path, without a user, or has the cookie
-- of a session that has not expired, and comes with the user of that session.
pub auth_middleware_sound :
    (now : ℕ) (path : Bytes) (cookie : Option Bytes) (u : Option User) (am : AuthManager)
    → auth_middleware now path cookie am ≡ next u
    → ((is_public path ≡ true) × (u ≡ none))
      ⊎ ((token : Bytes) × (user : User) × (cookie ≡ some token)
          × (u ≡ some user)
          × LiveSession now token user am)
unfolding auth_middleware refuse
auth_middleware_sound now path none u am h = inl (ground arith)
auth_middleware_sound now path (some token) u am h = elim (Bool-cases (is_public path)) [
  | inl p ↦ inl (p, ground arith)
  | inr p ↦
      let (user, e, live) =
        identify_next now path token u am (validate_token now token am) refl (rw p at h) in
      inr (token, user, refl, e, live)
]

-- After Logout, the middleware lets the token through to no path that needs a user, and the
-- answer for every other token is as it was.
pub auth_middleware-logout :
    (now : ℕ) (path token other : Bytes) (am : AuthManager)
    → is_public path ≡ false
    → (auth_middleware now path (some token) (logout token am) ≡ refuse path)
      × (validate_token now other (logout token am)
          ≡ (if bytes_eq token other then err invalid_session else validate_token now other am))
unfolding auth_middleware logout validate_token
auth_middleware-logout now path token other am p =
    let gone : lookup token (delete token am.sessions) ≡ none =
      lookup-delete token token am.sessions ∙ rw (bytes_eq_refl token) refl in
    (
      rw p (
          ap (λ o. identify path (logout token am) (validate_session now o)) gone
          ∙ unfold identify validate_session in refl),
      ap (validate_session now) (lookup-delete token other am.sessions)
          ∙ elim (Bool-cases (bytes_eq token other)) [
            | inl e ↦ rw e (unfold validate_session in refl)
            | inr e ↦ rw e refl
          ],
    )

-- A round of cleanupSessions changes the answer for no token that is accepted at its time or
-- later.
pub validate_token-cleanup_sessions :
    (now later : ℕ) (token name : Bytes) (am : AuthManager)
    → now ≤ later
    → validate_token later token am ≡ ok name
    → validate_token later token (cleanup_sessions now am) ≡ ok name
unfolding cleanup_sessions validate_token
validate_token-cleanup_sessions now later token name am le h =
    let (s, e, live, n) = validate_token_ok later token name am h in
    let kept = lookup-delete_if (λ t. ltb t.expires_at now) token s am.sessions e (ground arith) in
    ap (validate_session later) (kept ∙ sym e) ∙ h
