-- ===== src/Tests/Traps.antt =====
-- The theorems on the honeypot at concrete inputs.
use phantom_grid.Prelude.{
  ℕ, ◌≡◌, ◌≢◌, refl, not, Bool, none, some, Option, [], ◌∷◌, ◌++◌, arith, ◌==◌, if◌then◌else◌, ok,
  err, List,
}
use phantom_grid.Prelude.Bytes.{Bytes, codes, has_prefix, fields}
use phantom_grid.Prelude.Partial.{Yields}
use phantom_grid.Config.Ports.{fake_port_definitions, ports_of}
use phantom_grid.Honeypot.Text.{init}
use phantom_grid.Honeypot.Filesystem.{new_virtual_file_system}
use phantom_grid.Honeypot.Ssh.{new_session}
use phantom_grid.Honeypot.Ssh.Shell.{parent_of, handle_ssh}
use phantom_grid.Honeypot.Ssh.Prompts.{IsValid}
use phantom_grid.Honeypot.Ssh.Loop.{Served, handle_ssh-Served}
use phantom_grid.Honeypot.Ssh.Directory.{path_of, parent_of-path_of}
use phantom_grid.Honeypot.Mysql.{handle_mysql, new_connection}
use phantom_grid.Honeypot.Mysql.Buffer.{handle_mysql_defined}
use phantom_grid.Honeypot.Http.{first_line, request_lines, handle_http}
use phantom_grid.Honeypot.Http.Answers.{Answered, handle_http-Answered}
use phantom_grid.Honeypot.Trap.{honeypot_port, new_honeypot, start, fallback_failed}
use phantom_grid.Honeypot.Trap.Services.{bindable, fallback, start-bindable}

new_session-IsValid : IsValid new_session
unfolding new_session has_prefix
new_session-IsValid = record { absolute = refl; shown = refl }

abbrev typed : List Bytes
typed = codes "cd /var\r\n" ∷ codes "ls" ∷ codes "exit" ∷ []

handle_ssh-Served_example :
    Served typed new_session
      (handle_ssh new_virtual_file_system [] (codes "10:00") typed new_session)
handle_ssh-Served_example =
    handle_ssh-Served new_virtual_file_system [] (codes "10:00") typed new_session
      new_session-IsValid

abbrev parts : List Bytes
parts = codes "var" ∷ codes "log" ∷ []

parent_of-path_of_example : parent_of (path_of parts) ≡ path_of (init parts)
parent_of-path_of_example =
    parent_of-path_of parts
      (refl, (refl, (refl, (refl, tt))), (refl, (refl, (refl, (refl, tt))), tt))

-- A login packet that claims a password of 200 bytes.
abbrev login_packet : Bytes
login_packet = 0 ∷ 0 ∷ 0 ∷ 0 ∷ 2 ∷ 97 ∷ 98 ∷ 0 ∷ 200 ∷ 99 ∷ []

handle_mysql_defined_example :
    handle_mysql
      (codes "10:00")
      (codes "10.0.0.5")
      (login_packet ∷ login_packet ∷ [])
      new_connection
    ≢ none
handle_mysql_defined_example =
    handle_mysql_defined (codes "10:00") (codes "10.0.0.5") (login_packet ∷ login_packet ∷ [])
      (omega arith, (omega arith, tt))

abbrev request : Bytes
request = codes "GET /admin?x=1 HTTP/1.1\r\nUser-Agent: curl\r\n\r\n"

handle_http-Answered_example :
    Yields
      (Answered [] [] [] (fields (first_line (request_lines request))))
      (handle_http [] [] [] request)
handle_http-Answered_example = handle_http-Answered [] [] [] request

abbrev least : ℕ → Option ℕ
least max = if max == 0 then none else some 0

abbrev all_but_80 : ℕ → Bool
all_but_80 port = not (port == 80)

start-bindable_example :
    ((start all_but_80 new_honeypot).0
      ≡ (if all_but_80 honeypot_port then ok tt else err fallback_failed))
    × ((start all_but_80 new_honeypot).1.listeners
        ≡ bindable all_but_80 (ports_of fake_port_definitions) ++ fallback all_but_80)
start-bindable_example = start-bindable all_but_80
