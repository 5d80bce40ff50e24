-- ===== src/Webdash/Auth.antt =====
-- internal/webdash/auth.go: users, sessions and the middleware. Times are nanoseconds. The digest,
-- the file of users and the random tokens are arguments; each method runs under the mutex, as one
-- step.
pub mod Sessions
pub mod Passwords
pub mod Grants
use phantom_grid.Prelude.{
  ℕ, ◌+◌, ◌*◌, Bool, true, false, not, ◌&&◌, ◌||◌, Option, none, some, List, [], ◌∷◌, ◌++◌, ltb,
  leb, if◌then◌else◌, take, length, map, Result, ok, err,
}
use phantom_grid.Prelude.Bytes.{Bytes, codes, bytes_eq, has_prefix, hex_encode}
use phantom_grid.Prelude.Table.{Table, lookup, insert, delete, delete_if}

abbrev pub role_admin : Bytes
role_admin = codes "admin"

abbrev pub role_viewer : Bytes
role_viewer = codes "viewer"

-- The password is the digest in hexadecimal.
pub record User : Type 0 where
  pub username : Bytes
  pub password : Bytes
  pub role : Bytes

pub record Session : Type 0 where
  pub username : Bytes
  pub expires_at : ℕ

-- The state of an AuthManager, with what has been written to the file of users, last first. A
-- written list has the order in which Go ranges over the map, which is not fixed.
pub record AuthManager : Type 0 where
  pub users : Table User
  pub sessions : Table Session
  pub written : List (List User)

pub data AuthError : Type 0 where
  invalid_credentials user_not_found incorrect_old_password invalid_session session_expired :
      AuthError

abbrev pub nanosecond_day : ℕ
nanosecond_day = 24 * 3600 * 1000000000

unfoldable pub insert_users : List User → Table User → Table User
insert_users [] users = users
insert_users (u ∷ us) users = insert_users us (insert u.username u users)

-- loadUsers, by the users that the file holds; `none` if it cannot be read or decoded.
unfoldable pub load_users : Option (List User) → Table User → Table User
load_users none users = users
load_users (some list) users = insert_users list users

-- The users of a map.
unfoldable pub user_list : Table User → List User
user_list [] = []
user_list ((name, u) ∷ users) = u ∷ user_list users

unfoldable pub save_users : AuthManager → AuthManager
save_users am = record am { written = user_list am.users ∷ am.written }

unfoldable pub get_user : Bytes → AuthManager → Option User
get_user username am = lookup username am.users

-- The part of ValidateToken behind the look at the map.
unfoldable pub validate_session : ℕ → Option Session → Result AuthError Bytes
validate_session now none = err invalid_session
validate_session now (some session) =
    if ltb session.expires_at now then err session_expired else ok session.username

unfoldable pub validate_token : ℕ → Bytes → AuthManager → Result AuthError Bytes
validate_token now token am = validate_session now (lookup token am.sessions)

unfoldable pub logout : Bytes → AuthManager → AuthManager
logout token am = record am { sessions = delete token am.sessions }

-- One round of cleanupSessions.
unfoldable pub cleanup_sessions : ℕ → AuthManager → AuthManager
cleanup_sessions now am = record am { sessions = delete_if (λ s. ltb s.expires_at now) am.sessions }

module _ (sha256 : Bytes → Bytes) where
  unfoldable pub hash_password : Bytes → Bytes
  hash_password password = hex_encode (sha256 password)

  abbrev pub default_admin : User
  default_admin = record {
    username = codes "admin";
    password = hash_password (codes "admin");
    role = role_admin;
  }

  unfoldable pub new_auth_manager : Option (List User) → AuthManager
  new_auth_manager file =
      let am : AuthManager = record { users = load_users file []; sessions = []; written = [] } in
      elim (lookup (codes "admin") am.users) [
        | some _ ↦ am
        | none ↦ save_users (record am { users = insert (codes "admin") default_admin am.users })
      ]

  -- Whether the map has the user, with this password.
  unfoldable pub has_password : Bytes → Option User → Bool
  has_password password none = false
  has_password password (some user) = bytes_eq user.password (hash_password password)

  -- `random` is what crypto/rand fills the 32 bytes with.
  unfoldable pub authenticate :
      ℕ → Bytes → Bytes → Bytes → AuthManager → Result AuthError Bytes × AuthManager
  authenticate now random username password am =
      if has_password password (lookup username am.users)
      then (let token = hex_encode random in
          let session : Session = record {
            username = username;
            expires_at = now + nanosecond_day;
          } in
          (ok token, record am { sessions = insert token session am.sessions }))
      else (err invalid_credentials, am)

  unfoldable pub change_password :
      Bytes → Bytes → Bytes → AuthManager → Result AuthError (Unit {0}) × AuthManager
  change_password username old_pass new_pass am = elim (lookup username am.users) [
    | none ↦ (err user_not_found, am)
    | some user ↦
        if bytes_eq user.password (hash_password old_pass)
        then (let user' = record user { password = hash_password new_pass } in
            (ok tt, save_users (record am { users = insert username user' am.users })))
        else (err incorrect_old_password, am)
  ]

-- What the middleware does with a request: it hands it on, with a user where it has identified
-- one, or answers itself.
pub data Passage : Type 0 where
  next : Option User → Passage
  unauthorized redirect_login : Passage

unfoldable pub is_public : Bytes → Bool
is_public path =
    bytes_eq path (codes "/login")
    || (bytes_eq path (codes "/api/auth/login")
        || (bytes_eq path (codes "/metrics") || has_prefix path (codes "/api/fleet/")))

unfoldable pub is_api_request : Bytes → Bool
is_api_request path = leb 4 (length path) && bytes_eq (take 4 path) (codes "/api")

unfoldable pub refuse : Bytes → Passage
refuse path = if is_api_request path then unauthorized else redirect_login

-- After ValidateToken.
unfoldable pub identify : Bytes → AuthManager → Result AuthError Bytes → Passage
identify path am (err e) = refuse path
identify path am (ok username) = elim (get_user username am) [
  | none ↦ unauthorized
  | some user ↦ next (some user)
]

-- AuthMiddleware, by the path and the session cookie.
unfoldable pub auth_middleware : ℕ → Bytes → Option Bytes → AuthManager → Passage
auth_middleware now path cookie am = if is_public path then next none else elim cookie [
  | none ↦ refuse path
  | some token ↦ identify path am (validate_token now token am)
]
