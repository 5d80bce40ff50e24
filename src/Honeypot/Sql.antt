-- ===== src/Honeypot/Sql.antt =====
-- internal/honeypot/mysql_handler.go: the packets, and the answers of handleMySQLQuery.
use phantom_grid.Prelude.{
  ℕ, ◌+◌, ◌/◌, ◌%◌, ◌||◌, List, [], ◌∷◌, ◌++◌, String, ltb, if◌then◌else◌, length,
}
use phantom_grid.Prelude.Bytes.{Bytes, codes, has_prefix, contains, trim_space, to_upper}
use phantom_grid.Honeypot.Text.{glue, trim_prefix}

abbrev pub nul : Bytes
nul = 0 ∷ []

unfoldable pub handshake : Bytes
handshake = glue (
    (74 ∷ 0 ∷ 0 ∷ 0 ∷ 10 ∷ [])
    ∷ codes "8.0.27"
    ∷ nul
    ∷ (1 ∷ 0 ∷ 0 ∷ 0 ∷ 64 ∷ 65 ∷ 81 ∷ 39 ∷ 74 ∷ 75 ∷ 92 ∷ 93 ∷ [])
    ∷ codes "mysql_native_password"
    ∷ nul
    ∷ [])

unfoldable pub error_packet : Bytes → Bytes
error_packet text = glue ((255 ∷ 21 ∷ 4 ∷ 35 ∷ 40 ∷ 48 ∷ 48 ∷ 48 ∷ 48 ∷ 52 ∷ []) ∷ text ∷ nul ∷ [])

abbrev pub ok_packet : Bytes
ok_packet = 7 ∷ 0 ∷ 0 ∷ 2 ∷ 0 ∷ 0 ∷ 0 ∷ 2 ∷ 0 ∷ 0 ∷ 0 ∷ []

-- fmt's %c: a number as a character in UTF-8, up to three bytes.
unfoldable pub rune_bytes : ℕ → Bytes
rune_bytes n =
    if ltb n 128
    then n ∷ []
    else if ltb n 2048
    then (192 + n / 64) ∷ (128 + n % 64) ∷ []
    else (224 + n / 4096) ∷ (128 + n / 64 % 64) ∷ (128 + n % 64) ∷ []

unfoldable pub counted_names : List String → Bytes
counted_names [] = []
counted_names (n ∷ names) = rune_bytes (length (codes n)) ++ (codes n ++ counted_names names)

-- An answer to a query, with the lines that the query adds to the log and to the attacks.
abbrev pub Response : Type 0
Response = List Bytes × List Bytes × Bytes

abbrev pub stamp : Bytes → List Bytes → Bytes
stamp t pieces = glue (codes "[" ∷ t ∷ codes "] " ∷ pieces)

unfoldable pub select_response : Bytes → Bytes
select_response query =
    if contains query (codes "FROM USERS") || contains query (codes "FROM USER")
    then glue (
        (1 ∷ 0 ∷ 0 ∷ 1 ∷ 3 ∷ [])
        ∷ codes "id"
        ∷ nul
        ∷ codes "username"
        ∷ nul
        ∷ codes "password"
        ∷ nul
        ∷ (1 ∷ 0 ∷ 0 ∷ 2 ∷ 49 ∷ 97 ∷ 100 ∷ 109 ∷ 105 ∷ 110 ∷ 42 ∷ 42 ∷ 42 ∷ [])
        ∷ [])
    else if contains query (codes "VERSION()")
    then 1 ∷ 0 ∷ 0 ∷ 1 ∷ 1 ∷ 7 ∷ 0 ∷ 0 ∷ 2 ∷ codes "8.0.27"
    else 1 ∷ 0 ∷ 0 ∷ 1 ∷ 0 ∷ []

unfoldable pub create_response : Bytes → Bytes
create_response table_name =
    let sql = glue (
      codes "CREATE TABLE `"
      ∷ table_name
      ∷ codes "` (`id` int(11) NOT NULL AUTO_INCREMENT, PRIMARY KEY (`id`))"
      ∷ []) in
    glue (
      (1 ∷ 0 ∷ 0 ∷ 1 ∷ 2 ∷ [])
      ∷ codes "Table"
      ∷ nul
      ∷ codes "Create Table"
      ∷ nul
      ∷ rune_bytes (length sql)
      ∷ sql
      ∷ [])

unfoldable pub handle_mysql_query : Bytes → Bytes → Response
handle_mysql_query t text =
    let query = to_upper (trim_space text) in
    if has_prefix query (codes "SHOW DATABASES")
    then (
      [],
      [],
      glue (
          (1 ∷ 0 ∷ 0 ∷ 1 ∷ 1 ∷ [])
          ∷ (39 ∷ 0 ∷ 0 ∷ 2 ∷ 3 ∷ 100 ∷ 101 ∷ 102 ∷ [])
          ∷ codes "Database"
          ∷ nul
          ∷ counted_names (
              "information_schema" ∷ "mysql" ∷ "performance_schema" ∷ "sys" ∷ "wordpress"
              ∷ "production" ∷ "test" ∷ [])
          ∷ []),
    )
    else if has_prefix query (codes "USE ")
    then (
      stamp t (codes "MySQL USE DATABASE: " ∷ trim_space (trim_prefix query (codes "USE")) ∷ [])
          ∷ [],
      [],
      ok_packet,
    )
    else if has_prefix query (codes "SELECT")
    then ([], [], select_response query)
    else if has_prefix query (codes "SHOW TABLES")
    then (
      [],
      [],
      glue (
          (1 ∷ 0 ∷ 0 ∷ 1 ∷ 1 ∷ [])
          ∷ codes "Tables_in_database"
          ∷ nul
          ∷ counted_names ("users" ∷ "posts" ∷ "comments" ∷ "settings" ∷ "logs" ∷ [])
          ∷ []),
    )
    else if has_prefix query (codes "SHOW CREATE TABLE")
    then (let table_name = trim_space (trim_prefix query (codes "SHOW CREATE TABLE")) in
        (
          stamp t (codes "MySQL SHOW CREATE TABLE: " ∷ table_name ∷ []) ∷ [],
          [],
          create_response table_name,
        ))
    else if has_prefix query (codes "INSERT")
        || (has_prefix query (codes "UPDATE") || has_prefix query (codes "DELETE"))
    then (
      stamp t (codes "MySQL MODIFY QUERY: " ∷ query ∷ []) ∷ [],
      (codes "MySQL_MODIFY: " ++ query) ∷ [],
      7 ∷ 0 ∷ 0 ∷ 2 ∷ 0 ∷ 0 ∷ 0 ∷ 1 ∷ 0 ∷ 0 ∷ 0 ∷ [],
    )
    else ([], [], error_packet (codes "You have an error in your SQL syntax"))
