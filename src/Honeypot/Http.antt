-- ===== src/Honeypot/Http.antt =====
-- internal/honeypot/http_handler.go: the web server of the honeypot, by what the one read gives.
-- Texts are ASCII. `none` is a run-time panic.
pub mod Answers
use phantom_grid.Prelude.{
  ℕ, ◌+◌, Bool, true, false, ◌&&◌, ◌||◌, Option, none, some, List, [], ◌∷◌, ◌++◌, String, ltb,
  if◌then◌else◌, ◌>>=◌, length, slice,
}
use phantom_grid.Prelude.Bytes.{
  Bytes, codes, bytes_eq, has_prefix, contains, index_of, trim_space, fields, to_lower,
}
use phantom_grid.Honeypot.Text.{glue, switch, split_on, trim_prefix}
use phantom_grid.Honeypot.Portals.{index_page, admin_page, login_page, wordpress_page}
use phantom_grid.Honeypot.Pages.{
  api_users_page, api_config_page, robots_page, git_page, phpinfo_page, dashboard_page, post_page,
  page_page, not_found_page,
}

-- What is logged, and what is written; nothing, where the request has no method and path.
pub record Exchange : Type 0 where
  pub logged : List Bytes
  pub attacks : List Bytes
  pub response : Bytes

abbrev pub blank_line : Bytes
blank_line = 13 ∷ 10 ∷ 13 ∷ 10 ∷ []

abbrev pub into_first : ℕ → List Bytes → List Bytes
into_first c [] = (c ∷ []) ∷ []
into_first c (l ∷ ls) = (c ∷ l) ∷ ls

-- strings.Split(s, "\r\n")
unfoldable pub request_lines : Bytes → List Bytes
request_lines [] = [] ∷ []
request_lines (c ∷ []) = (c ∷ []) ∷ []
request_lines (c ∷ d ∷ s) =
    let rest = request_lines s in
    let more = request_lines (d ∷ s) in
    if bytes_eq (c ∷ d ∷ []) (codes "\r\n") then [] ∷ rest else into_first c more

abbrev pub first_line : List Bytes → Bytes
first_line [] = []
first_line (l ∷ ls) = l

unfoldable pub user_agent : List Bytes → Bytes
user_agent [] = codes "Unknown"
user_agent (l ∷ ls) =
    if has_prefix (to_lower l) (codes "user-agent:")
    then trim_space (trim_prefix l (codes "User-Agent:"))
    else user_agent ls

-- The body of a request: request[bodyStart+4:], by what strings.Index finds.
unfoldable pub body_from : Bytes → Option ℕ → Option (Option Bytes)
body_from request none = some none
body_from request (some start) =
    if ltb 0 start
    then (slice (start + 4) (length request) request >>= λ body. some (some body))
    else some none

unfoldable pub body_of : Bytes → Option (Option Bytes)
body_of request = body_from request (index_of request blank_line)

module _ (t : Bytes) where
  abbrev pub stamp : List Bytes → Bytes
  stamp pieces = glue (codes "[" ∷ t ∷ codes "] " ∷ pieces)

  -- The credentials of a POST, for the log and for logger.LogAttack.
  unfoldable pub credentials : Bytes → Option Bytes → List Bytes × List Bytes
  credentials agent none = ([], [])
  credentials agent (some body) =
      if contains body (codes "password") || contains body (codes "pass")
      then (
        stamp (codes "HTTP POST with credentials detected! User-Agent: " ∷ agent ∷ []) ∷ [],
        (codes "HTTP_POST_CREDENTIALS: " ++ body) ∷ [],
      )
      else ([], [])

  -- The default case: what it logs, and the page.
  unfoldable pub other_page : Bytes → Bytes → List Bytes × Bytes
  other_page method path =
      if bytes_eq method (codes "POST")
      then (
        stamp (codes "HTTP POST to " ∷ path ∷ codes " - credentials may be present" ∷ []) ∷ [],
        post_page,
      )
      else if contains path (codes ".php")
          || (contains path (codes ".jsp") || contains path (codes ".asp"))
      then ([], page_page)
      else ([], not_found_page path)

  -- How time.Now prints in the two formats.
  module _ (clock rfc3339 : Bytes) where
    abbrev pub pages : List (List String × (List Bytes × Bytes))
    pages =
        ("/" ∷ "/index.html" ∷ "/index.php" ∷ [], ([], index_page clock))
        ∷ (
          "/admin" ∷ "/admin.php" ∷ "/admin.html" ∷ "/administrator" ∷ "/wp-admin" ∷ [],
          ([], admin_page),
        )
        ∷ ("/login" ∷ "/login.php" ∷ "/signin" ∷ [], ([], login_page))
        ∷ ("/api" ∷ "/api/v1" ∷ "/api/v1/users" ∷ "/api/users" ∷ [], ([], api_users_page rfc3339))
        ∷ ("/api/v1/config" ∷ "/api/config" ∷ [], ([], api_config_page))
        ∷ ("/robots.txt" ∷ [], ([], robots_page))
        ∷ ("/.git/config" ∷ "/.git/HEAD" ∷ "/.git" ∷ [], ([], git_page))
        ∷ ("/phpinfo.php" ∷ "/info.php" ∷ [], ([], phpinfo_page))
        ∷ ("/wp-login.php" ∷ "/wordpress/wp-admin" ∷ [], ([], wordpress_page))
        ∷ ("/dashboard" ∷ "/panel" ∷ [], ([], dashboard_page))
        ∷ []

    unfoldable pub page_for : Bytes → Bytes → List Bytes × Bytes
    page_for method path = switch path pages (other_page method path)

    -- The path without its query.
    unfoldable pub path_only : Bytes → Bytes
    path_only path = first_line (split_on 63 path)

    unfoldable pub answer_request : Bytes → List Bytes → Bytes → List Bytes → Option Exchange
    answer_request request lines line (method ∷ target ∷ _) =
        let path = path_only target in
        let agent = user_agent lines in
        let posted = if bytes_eq method (codes "POST") then body_of request else some none in
        posted >>= λ body.
        let (noted, taken) = credentials agent body in
        let (said, page) = page_for method path in
        some (record {
          logged = stamp (codes "HTTP REQUEST: " ∷ line ∷ []) ∷ noted ++ said;
          attacks = (codes "HTTP: " ++ line) ∷ taken;
          response = page;
        })
    answer_request request lines line _ = some (record {
      logged = stamp (codes "HTTP REQUEST: " ∷ line ∷ []) ∷ [];
      attacks = (codes "HTTP: " ++ line) ∷ [];
      response = [];
    })

    -- handleHTTP, by the bytes of the read.
    unfoldable pub handle_http : Bytes → Option Exchange
    handle_http request =
        let lines = request_lines request in
        let line = first_line lines in answer_request request lines line (fields line)
