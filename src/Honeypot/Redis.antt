-- ===== src/Honeypot/Redis.antt =====
-- internal/honeypot/redis_handler.go, handleRedis: the Redis of the honeypot. The log lines carry a time stamp.
use phantom_grid.Prelude.{
  ℕ, Bool, true, false, ◌||◌, List, [], ◌∷◌, ◌++◌, String, if◌then◌else◌, is_empty, length,
}
use phantom_grid.Prelude.Bytes.{Bytes, codes, bytes_eq, trim_space, to_upper, to_lower, decimal}
use phantom_grid.Honeypot.Resp.{parse_resp}

abbrev pub crlf : Bytes
crlf = 13 ∷ 10 ∷ []

-- What a command does: the lines for the log channel and for logger.LogAttack, the reply, and
-- whether the connection ends.
pub record Outcome : Type 0 where
  pub logged : List Bytes
  pub attacks : List Bytes
  pub reply : Bytes
  pub quit : Bool

abbrev answer : Bytes → Outcome
answer reply = record { logged = []; attacks = []; reply = reply ++ crlf; quit = false }

abbrev noted : List Bytes → List Bytes → Bytes → Outcome
noted logged attacks reply = record {
  logged = logged;
  attacks = attacks;
  reply = reply ++ crlf;
  quit = false;
}

abbrev wrong_number : String → Outcome
wrong_number name =
    answer (codes "-ERR wrong number of arguments for '" ++ (codes name ++ codes "' command"))

unfoldable pub info_text : Bytes
info_text =
    codes "# Server\r\nredis_version:6.2.6\r\nredis_mode:standalone\r\n"
    ++ (codes "os:Linux 5.4.0 x86_64\r\narch_bits:64\r\nmultiplexing_api:epoll\r\n"
        ++ (codes "process_id:1234\r\nrun_id:abc123def456\r\ntcp_port:6379\r\n"
            ++ (codes "uptime_in_seconds:86400\r\nuptime_in_days:1\r\nconnected_clients:1\r\n"
                ++ codes "used_memory:1048576\r\nused_memory_human:1.00M\r\n")))

module _ (t : Bytes) where
  -- "[t] " in front of a line
  abbrev stamp : Bytes → Bytes
  stamp line = codes "[" ++ (t ++ (codes "] " ++ line))

  unfoldable pub redis_get : List Bytes → Outcome
  redis_get [] = wrong_number "get"
  redis_get (key ∷ _) =
      noted (stamp (codes "REDIS GET: key='" ++ (key ++ codes "'")) ∷ []) [] (codes "$-1")

  unfoldable pub redis_set : List Bytes → Outcome
  redis_set (key ∷ value ∷ _) =
      noted
        (stamp (
            codes "REDIS SET: key='"
            ++ (key ++ (codes "', value_length=" ++ decimal (length value))))
          ∷ [])
        ((codes "REDIS_SET: key=" ++ (key ++ (codes ", value_len=" ++ decimal (length value))))
          ∷ [])
        (codes "+OK")
  redis_set _ = wrong_number "set"

  unfoldable pub first_or_star : List Bytes → Bytes
  first_or_star [] = codes "*"
  first_or_star (a ∷ _) = a

  unfoldable pub redis_keys : List Bytes → Outcome
  redis_keys args =
      noted (stamp (codes "REDIS KEYS: pattern='" ++ (first_or_star args ++ codes "'")) ∷ []) []
        (codes "*0")

  unfoldable pub redis_auth : List Bytes → Outcome
  redis_auth [] = wrong_number "auth"
  redis_auth (password ∷ _) =
      noted
        (stamp (
            codes "REDIS AUTH attempt (password length: "
            ++ (decimal (length password) ++ codes ")"))
          ∷ [])
        (codes "REDIS_AUTH: password=***" ∷ []) (codes "-ERR invalid password")

  unfoldable pub config_get : Bytes → Outcome
  config_get key =
      noted (stamp (codes "REDIS CONFIG GET: " ++ key) ∷ []) ((codes "REDIS_CONFIG: " ++ key) ∷ [])
        (codes "*2\r\n$7\r\nrequirepass\r\n$0\r\n")

  unfoldable pub redis_config : List Bytes → Outcome
  redis_config [] = answer (codes "-ERR unknown subcommand or wrong number of arguments")
  redis_config (sub ∷ args) =
      if bytes_eq (to_upper sub) (codes "GET")
      then config_get (first_or_star args)
      else answer (codes "-ERR unknown subcommand or wrong number of arguments")

  unfoldable pub redis_hget : List Bytes → Outcome
  redis_hget (key ∷ field ∷ _) =
      noted
        (stamp (codes "REDIS HGET: key='" ++ (key ++ (codes "', field='" ++ (field ++ codes "'"))))
          ∷ [])
        [] (codes "$-1")
  redis_hget _ = wrong_number "hget"

  unfoldable pub redis_hset : List Bytes → Outcome
  redis_hset (key ∷ field ∷ value ∷ _) =
      noted
        (stamp (
            codes "REDIS HSET: key='"
            ++ (key
                ++ (codes "', field='"
                    ++ (field ++ (codes "', value_length=" ++ decimal (length value))))))
          ∷ [])
        ((codes "REDIS_HSET: key="
            ++ (key
                ++ (codes ", field="
                    ++ (field ++ (codes ", value_len=" ++ decimal (length value))))))
          ∷ [])
        (codes ":1")
  redis_hset _ = wrong_number "hset"

  unfoldable pub redis_hgetall : List Bytes → Outcome
  redis_hgetall [] = wrong_number "hgetall"
  redis_hgetall (key ∷ _) =
      noted (stamp (codes "REDIS HGETALL: key='" ++ (key ++ codes "'")) ∷ []) [] (codes "*0")

  unfoldable pub redis_push : Bytes → List Bytes → Outcome
  redis_push cmd (key ∷ value ∷ _) =
      noted (stamp (codes "REDIS " ++ (cmd ++ (codes ": key='" ++ (key ++ codes "'")))) ∷ [])
        ((codes "REDIS_" ++ (cmd ++ (codes ": key=" ++ key))) ∷ []) (codes ":1")
  redis_push cmd _ =
      answer (codes "-ERR wrong number of arguments for '" ++ (to_lower cmd ++ codes "' command"))

  unfoldable pub redis_lrange : List Bytes → Outcome
  redis_lrange (key ∷ start ∷ stop ∷ _) =
      noted
        (stamp (
            codes "REDIS LRANGE: key='"
            ++ (key ++ (codes "', start=" ++ (start ++ (codes ", stop=" ++ stop)))))
          ∷ [])
        [] (codes "*0")
  redis_lrange _ = wrong_number "lrange"

  unfoldable pub redis_flush : Bytes → Outcome
  redis_flush cmd =
      noted (stamp (codes "REDIS " ++ (cmd ++ codes ": DANGEROUS COMMAND!")) ∷ [])
        ((codes "REDIS_" ++ (cmd ++ codes ": DANGEROUS")) ∷ []) (codes "+OK")

  unfoldable pub redis_eval : Bytes → List Bytes → Outcome
  redis_eval cmd [] = answer (codes "-ERR wrong number of arguments")
  redis_eval cmd (script ∷ _) =
      noted
        (stamp (
            codes "REDIS "
            ++ (cmd
                ++ (codes ": script execution attempt (length: "
                    ++ (decimal (length script) ++ codes ")"))))
          ∷ [])
        ((codes "REDIS_" ++ (cmd ++ (codes ": script_length=" ++ decimal (length script)))) ∷ [])
        (codes "-ERR script execution not allowed")

  unfoldable pub redis_save : Bytes → Outcome
  redis_save cmd =
      noted (stamp (codes "REDIS " ++ (cmd ++ codes ": backup command")) ∷ []) [] (codes "+OK")

  unfoldable pub redis_select : List Bytes → Outcome
  redis_select [] = wrong_number "select"
  redis_select (db ∷ _) =
      noted (stamp (codes "REDIS SELECT: database=" ++ db) ∷ []) [] (codes "+OK")

  -- The switch over the command in capitals.
  unfoldable pub redis_command : Bytes → List Bytes → Outcome
  redis_command cmd args =
      let is : String → Bool = λ name. bytes_eq cmd (codes name) in
      if is "PING"
      then answer (codes "+PONG")
      else if is "INFO"
      then answer (codes "$" ++ (decimal (length info_text) ++ (crlf ++ info_text)))
      else if is "GET"
      then redis_get args
      else if is "SET"
      then redis_set args
      else if is "KEYS"
      then redis_keys args
      else if is "AUTH"
      then redis_auth args
      else if is "CONFIG"
      then redis_config args
      else if is "HGET"
      then redis_hget args
      else if is "HSET"
      then redis_hset args
      else if is "HGETALL"
      then redis_hgetall args
      else if is "LPUSH" || is "RPUSH"
      then redis_push cmd args
      else if is "LRANGE"
      then redis_lrange args
      else if is "FLUSHALL" || is "FLUSHDB"
      then redis_flush cmd
      else if is "EVAL" || is "EVALSHA"
      then redis_eval cmd args
      else if is "SAVE" || is "BGSAVE"
      then redis_save cmd
      else if is "DBSIZE"
      then answer (codes ":0")
      else if is "SELECT"
      then redis_select args
      else if is "QUIT" || is "EXIT"
      then record (answer (codes "+OK")) { quit = true }
      else answer (codes "-ERR unknown command '" ++ (to_lower cmd ++ codes "'"))

  -- What the loop does with the bytes of one read.
  unfoldable pub redis_parts : List Bytes → Outcome
  redis_parts [] = answer (codes "-ERR unknown command")
  redis_parts (name ∷ args) = redis_command (to_upper name) args

  unfoldable pub redis_read : (Bytes → ℕ) → Bytes → Outcome
  redis_read scan bytes =
      let command = trim_space bytes in
      let o = redis_parts (parse_resp scan command) in
      record o {
        logged = stamp (codes "REDIS COMMAND: " ++ command) ∷ o.logged;
        attacks = (codes "REDIS: " ++ command) ∷ o.attacks;
      }

  -- handleRedis: the reads of the connection, up to the one that fails or is empty. What is left
  -- is what is not read.
  unfoldable pub handle_redis : (Bytes → ℕ) → List Bytes → List Outcome × List Bytes
  handle_redis scan [] = ([], [])
  handle_redis scan (bytes ∷ reads) =
      let (outcomes, left) = handle_redis scan reads in
      let o = redis_read scan bytes in
      if is_empty bytes
      then ([], reads)
      else if o.quit
      then (o ∷ [], reads)
      else (o ∷ outcomes, left)

  -- The log line and the attack of a new connection, and the outcomes of its reads.
  unfoldable pub redis_session :
      (Bytes → ℕ) → Bytes → List Bytes → (Bytes × Bytes) × (List Outcome × List Bytes)
  redis_session scan ip reads = (
    (stamp (codes "Redis connection from " ++ ip), codes "REDIS_CONNECTION"),
    handle_redis scan reads,
  )
