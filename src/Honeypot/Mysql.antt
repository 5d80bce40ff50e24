-- ===== src/Honeypot/Mysql.antt =====
-- internal/honeypot/mysql_handler.go: the MySQL of the honeypot. `none` is a run-time panic. The
-- buffer keeps what earlier reads left behind the bytes of the last one.
pub mod Buffer
use phantom_grid.Prelude.{
  ℕ, zero, suc, ◌+◌, ◌-◌, ◌/◌, ◌%◌, Bool, true, false, not, ◌&&◌, ◌||◌, Option, none, some, List,
  [], ◌∷◌, ◌++◌, String, ◌==◌, ltb, if◌then◌else◌, ◌>>=◌, length, drop, replicate, get_elem?, slice,
  is_empty,
}
use phantom_grid.Prelude.Bytes.{Bytes, codes, has_prefix, contains, trim_space, to_upper, decimal}
use phantom_grid.Honeypot.Sql.{
  nul, handshake, error_packet, ok_packet, rune_bytes, counted_names, Response, stamp,
  select_response, create_response, handle_mysql_query,
}
use phantom_grid.Honeypot.Text.{glue, trim_prefix, before_colon}

-- What a read gives: the lines for the log channel and for logger.LogAttack, what is written, and
-- whether the connection ends.
pub record Reply : Type 0 where
  pub logged : List Bytes
  pub attacks : List Bytes
  pub written : Bytes
  pub closed : Bool

pub record Connection : Type 0 where
  pub buf : Bytes
  pub authenticated : Bool

abbrev pub buffer_size : ℕ
buffer_size = 4096

module _ (t ip : Bytes) where
  -- The password behind the name: how many bytes of it are logged, if any.
  unfoldable pub login_password : Bytes → ℕ → ℕ → Option (Option ℕ)
  login_password buf n start =
      if not (ltb start n)
      then some none
      else (get_elem? buf start >>= λ size.
          if ltb 0 size && (ltb size 255 && ltb (start + 1) n)
          then (slice (start + 1) (start + 1 + size) buf >>= λ password.
              some (some (length password)))
          else some none)

  abbrev pub password_lines : Option ℕ → List Bytes × List Bytes
  password_lines none = ([], [])
  password_lines (some size) = (
    stamp t (codes "MySQL PASSWORD attempt (length: " ∷ decimal size ∷ codes ")" ∷ []) ∷ [],
    (codes "MySQL_PASSWORD: length=" ++ decimal size) ∷ [],
  )

  unfoldable pub login_reply : Bytes → Option ℕ → Reply
  login_reply username password =
      let (logged, attacks) = password_lines password in
      record {
        logged = stamp t (codes "MySQL LOGIN: username='" ∷ username ∷ codes "'" ∷ []) ∷ logged;
        attacks = (codes "MySQL_LOGIN: user=" ++ username) ∷ attacks;
        written =
            error_packet (
              glue (
                codes "Access denied for user '"
                ∷ username
                ∷ codes "'@'"
                ∷ ip
                ∷ codes "' (using password: YES)"
                ∷ []))
            ++ ok_packet;
        closed = false;
      }

  -- The login packet in the first `n` bytes; `some none` if they are none.
  unfoldable pub mysql_login : Bytes → ℕ → Option (Option Reply)
  mysql_login buf n = get_elem? buf 4 >>= λ size.
      if ltb 0 size && (ltb size 32 && ltb (5 + size) n)
      then (slice 5 (5 + size) buf >>= λ username.
          login_password buf n (5 + size + 1) >>= λ password.
          some (some (login_reply username password)))
      else some none

  -- A command, by its code and its text.
  unfoldable pub mysql_command : ℕ → Bytes → Reply
  mysql_command command text =
      let heard : Reply = record {
        logged = stamp t (codes "MySQL COMMAND: " ∷ text ∷ []) ∷ [];
        attacks = (codes "MySQL: " ++ text) ∷ [];
        written = [];
        closed = false;
      } in
      let (logged, attacks, response) = handle_mysql_query t (to_upper (trim_space text)) in
      if command == 3
      then record heard {
        logged = heard.logged ++ logged;
        attacks = heard.attacks ++ attacks;
        written = response;
      }
      else if command == 1
      then record heard { written = 7 ∷ 0 ∷ 0 ∷ 1 ∷ 0 ∷ 0 ∷ 0 ∷ 2 ∷ 0 ∷ 0 ∷ 0 ∷ []; closed = true }
      else record heard { written = error_packet (codes "Unknown command") }

  abbrev pub silence : Reply
  silence = record { logged = []; attacks = []; written = []; closed = false }

  -- The second half of a round.
  unfoldable pub after_login : Connection → ℕ → Option Reply
  after_login c n =
      if c.authenticated && ltb 4 n
      then (get_elem? c.buf 4 >>= λ command.
          slice 5 n c.buf >>= λ text. some (mysql_command command text))
      else some silence

  abbrev pub settle : Connection → ℕ → Option Reply → Option (Reply × Connection)
  settle c n (some reply) = some (reply, record c { authenticated = true })
  settle c n none = after_login c n >>= λ reply. some (reply, c)

  -- A round of the loop, with what Read has put into the buffer.
  unfoldable pub mysql_read : Bytes → Connection → Option (Reply × Connection)
  mysql_read chunk c =
      let n = length chunk in
      let c' = record c { buf = chunk ++ drop n c.buf } in
      if not c.authenticated && ltb 4 n
      then (mysql_login c'.buf n >>= settle c' n)
      else settle c' n none

  -- The loop: the reads of the connection, up to the one that fails or is empty.
  unfoldable pub handle_mysql : List Bytes → Connection → Option (List Reply)
  handle_mysql [] c = some []
  handle_mysql (chunk ∷ chunks) c =
      if is_empty chunk
      then some []
      else (mysql_read chunk c >>= λ (reply, c').
          if reply.closed
          then some (reply ∷ [])
          else (handle_mysql chunks c' >>= λ replies. some (reply ∷ replies)))

abbrev pub new_connection : Connection
new_connection = record { buf = replicate buffer_size 0; authenticated = false }

-- handleMySQL: the lines of the connection, the handshake and the loop.
unfoldable pub mysql_session :
    Bytes → Bytes → List Bytes → (Bytes × Bytes × Bytes) × Option (List Reply)
mysql_session t remote chunks =
    let ip = before_colon remote in
    (
      (
        stamp t (codes "MySQL connection attempt from " ∷ ip ∷ []),
        codes "MySQL_CONNECTION",
        handshake,
      ),
      handle_mysql t ip chunks new_connection,
    )
