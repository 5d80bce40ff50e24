-- ===== src/Tests/Webdash.antt =====
-- The theorems on the web dashboard at concrete inputs.
use phantom_grid.Prelude.{true, none, some, List, [], ◌∷◌, ◌≡◌, refl, arith, ◌⊎◌, if◌then◌else◌, ok}
use phantom_grid.Prelude.Bytes.{Bytes, codes, bytes_eq, has_prefix, hex_encode}
use phantom_grid.Prelude.Table.{lookup}
use phantom_grid.Webdash.Auth.{
  change_password, User, AuthManager, get_user, validate_session, validate_token, hash_password,
  authenticate, next, is_public, identify, auth_middleware, role_admin,
}
use phantom_grid.Webdash.Auth.Sessions.{LiveSession, auth_middleware_sound}
use phantom_grid.Webdash.Auth.Grants.{
  Call, logs_in, logs_out, changes, cleans, accepted, granted, grants_of, specify_all, call_all,
}
use phantom_grid.Webdash.Auth.Grants.Refinement.{validate_token-call_all}
use phantom_grid.Webdash.Auth.Passwords.{change_password-authenticate}
use phantom_grid.Webdash.Settings.{Codec, default_settings, save_settings}
use phantom_grid.Webdash.Fleet.{DbOps}
use phantom_grid.Webdash.Server.{
  Request, Response, ServerState, serve, route, handle_settings, is_admin, store_settings, post,
  status, other_content,
}
use phantom_grid.Webdash.Server.Access.{serve_settings}

-- The identity stands for the digest.
abbrev digest : Bytes → Bytes
digest bytes = bytes

abbrev alice : User
alice = record { username = codes "al"; password = codes "7077"; role = role_admin }

abbrev manager : AuthManager
manager = record {
  users = (codes "al", alice) ∷ [];
  sessions = (codes "t", record { username = codes "al"; expires_at = 50 }) ∷ [];
  written = [];
}

passed : auth_middleware 50 (codes "/api/settings") (some (codes "t")) manager ≡ next (some alice)
unfolding auth_middleware is_public identify validate_token validate_session get_user has_prefix
    bytes_eq lookup
passed = refl

auth_middleware_sound_example :
    ((is_public (codes "/api/settings") ≡ true) × (some alice ≡ none))
    ⊎ ((token : Bytes) × (user : User) × (some (codes "t") ≡ some token)
        × (some alice ≡ some user)
        × LiveSession 50 token user manager)
auth_middleware_sound_example =
    auth_middleware_sound 50 (codes "/api/settings") (some (codes "t")) (some alice) manager passed

abbrev codec : Codec
codec = record { encode = λ s. some (codes "{}"); decode = λ bytes. none }

abbrev database : DbOps
database = record { Db = Unit; save = λ t db. tt; find = λ db. []; first = λ id db. none }

abbrev server : ServerState digest codec database
server = record {
  auth = manager;
  settings_file = record { contents = none; writable = true };
  db = tt;
  phantom_objs = none;
  external_log_chan = record { queue = []; capacity = 100 };
}

abbrev request : Request
request = record {
  method = post;
  path = codes "/api/settings";
  agent = [];
  cookie = some (codes "t");
  remote_addr = [];
  credentials = none;
  passwords = none;
  settings = some default_settings;
  telemetry = none;
  log_line = none;
}

abbrev written : ServerState digest codec database
written = record server { settings_file = record { contents = some (codes "{}"); writable = true } }

others : Request → Response
others r = other_content []

served : serve digest codec database others 50 [] request server ≡ some (status 200, written)
unfolding serve route handle_settings is_admin store_settings save_settings auth_middleware
    is_public identify validate_token validate_session get_user has_prefix bytes_eq lookup
served = refl

serve_settings_example :
    (written.settings_file ≡ server.settings_file)
    ⊎ ((request.path ≡ codes "/api/settings")
        × (request.method ≡ post)
        × ((token : Bytes) × (user : User) × (request.cookie ≡ some token)
            × (user.role ≡ role_admin)
            × LiveSession 50 token user server.auth))
serve_settings_example =
    serve_settings digest codec database others 50 [] request server written (status 200) served

change_password-authenticate_example :
    (user : User) × (lookup (codes "al") manager.users ≡ some user)
    × (user.password ≡ hash_password digest (codes "pw"))
    × ((authenticate digest 10
          (9 ∷ [])
          (codes "al")
          (codes "new")
          (change_password digest (codes "al") (codes "pw") (codes "new") manager).1).0
        ≡ ok (hex_encode (9 ∷ [])))
    × ((change_password digest (codes "al") (codes "pw") (codes "new") manager).1.sessions
        ≡ manager.sessions)
    × (lookup
          (codes "bo")
          (change_password digest (codes "al") (codes "pw") (codes "new") manager).1.users
        ≡ (if bytes_eq (codes "al") (codes "bo")
            then some (record user { password = hash_password digest (codes "new") })
            else lookup (codes "bo") manager.users))
unfolding change_password lookup bytes_eq hash_password hex_encode
change_password-authenticate_example =
    change_password-authenticate digest 10 (9 ∷ []) (codes "al") (codes "pw") (codes "new")
      (codes "bo") manager refl

abbrev some_calls : List Call
some_calls =
    logs_in 0 (7 ∷ []) (codes "al") (codes "pw")
    ∷ cleans 5
    ∷ changes (codes "al") (codes "pw") (codes "new")
    ∷ logs_in 6 (8 ∷ []) (codes "al") (codes "new")
    ∷ logs_out (codes "07")
    ∷ []

validate_token-call_all_example :
    accepted (validate_token 10 (codes "t") (call_all digest some_calls manager))
    ≡ granted 10 ((specify_all digest some_calls (grants_of manager)).grant (codes "t"))
unfolding lookup
validate_token-call_all_example =
    validate_token-call_all digest 10 some_calls manager (codes "t") (refl, tt) (omega arith, tt)
