-- ===== src/Honeypot/Mysql/Buffer.antt =====
-- The indices and slices of handleMySQL in its buffer.
use mathlib.Core.Path.{subst}
use phantom_grid.Prelude.{
  ℕ, ◌+◌, ◌≤◌, ◌<◌, not, ◌&&◌, Option, none, some, List, [], ◌∷◌, ◌++◌, ◌≡◌, ◌≢◌, refl, arith, ltb,
  if_either, length, drop, length-append, length-drop, get_elem?, slice, is_empty,
}
use phantom_grid.Prelude.Bytes.{Bytes}
use phantom_grid.Prelude.Partial.{Yields, >>=-Yields, get_elem?-Yields, slice-Yields}
use phantom_grid.Honeypot.Mysql.{
  Reply, Connection, buffer_size, login_password, mysql_login, after_login, settle, mysql_read,
  handle_mysql, new_connection,
}

abbrev Anything {ℓ} : {A : Type ℓ} → A → Type 0
Anything a = Unit

module _ (t ip buf : Bytes) (n : ℕ) (full : length buf ≡ buffer_size) (fits : n ≤ buffer_size) where
  login_password-Yields :
      (start : ℕ) → start < 40 → Yields Anything (login_password t ip buf n start)
  unfolding login_password
  login_password-Yields start h =
      if_either (Yields Anything) (not (ltb start n)) (λ _. tt)
        (>>=-Yields Anything Anything (get_elem? buf start) _
          (get_elem?-Yields buf start (omega arith))
          (λ size _.
            if_either (Yields Anything) (ltb 0 size && (ltb size 255 && ltb (start + 1) n))
              (λ b.
                >>=-Yields Anything Anything (slice (start + 1) (start + 1 + size) buf) _
                  (slice-Yields (start + 1) (start + 1 + size) buf (omega arith) (ground arith))
                  (λ password _. tt))
              tt))

  mysql_login-Yields : Yields Anything (mysql_login t ip buf n)
  unfolding mysql_login
  mysql_login-Yields =
      >>=-Yields Anything Anything (get_elem? buf 4) _ (get_elem?-Yields buf 4 (omega arith))
        (λ size _.
          if_either (Yields Anything) (ltb 0 size && (ltb size 32 && ltb (5 + size) n))
            (λ b.
              >>=-Yields Anything Anything (slice 5 (5 + size) buf) _
                (slice-Yields 5 (5 + size) buf (omega arith) (ground arith))
                (λ username _.
                  >>=-Yields Anything Anything (login_password t ip buf n (5 + size + 1)) _
                    (login_password-Yields (5 + size + 1) (ground arith)) (λ password _. tt)))
            tt)

-- Between the reads.
abbrev IsWhole : Connection → Type 0
IsWhole c = length c.buf ≡ buffer_size

module _ (t ip : Bytes) where
  after_login-Yields :
      (c : Connection) (n : ℕ)
      → IsWhole c
      → n ≤ buffer_size
      → Yields Anything (after_login t ip c n)
  unfolding after_login
  after_login-Yields c n w h =
      if_either (Yields Anything) (c.authenticated && ltb 4 n)
        (λ b.
          >>=-Yields Anything Anything (get_elem? c.buf 4) _
            (get_elem?-Yields c.buf 4 (omega (arith, w)))
            (λ command _.
              >>=-Yields Anything Anything (slice 5 n c.buf) _
                (slice-Yields 5 n c.buf (ground arith) (omega (arith, w))) (λ text _. tt)))
        tt

  settle-Yields :
      (c : Connection) (n : ℕ) (o : Option Reply)
      → IsWhole c
      → n ≤ buffer_size
      → Yields (λ r. IsWhole r.1) (settle t ip c n o)
  settle-Yields c n (some reply) w h = w
  settle-Yields c n none w h =
      >>=-Yields Anything (λ r. IsWhole r.1) (after_login t ip c n) _ (after_login-Yields c n w h)
        (λ reply _. w)

  length-filled :
      (chunk : Bytes) (c : Connection)
      → length chunk ≤ buffer_size
      → IsWhole c
      → length (chunk ++ drop (length chunk) c.buf) ≡ buffer_size
  length-filled chunk c h w =
      omega (
        arith,
        length-append chunk (drop (length chunk) c.buf),
        length-drop (length chunk) c.buf,
        w,
      )

  mysql_read-Yields :
      (chunk : Bytes) (c : Connection)
      → length chunk ≤ buffer_size
      → IsWhole c
      → Yields (λ r. IsWhole r.1) (mysql_read t ip chunk c)
  unfolding mysql_read
  mysql_read-Yields chunk c h w =
      let n = length chunk in
      let c' : Connection = record c { buf = chunk ++ drop n c.buf } in
      let w' : IsWhole c' = length-filled chunk c h w in
      if_either (Yields (λ r. IsWhole r.1)) (not c.authenticated && ltb 4 n)
        (λ _.
          >>=-Yields Anything (λ r. IsWhole r.1) (mysql_login t ip c'.buf n) _
            (mysql_login-Yields t ip c'.buf n w' h) (λ o _. settle-Yields c' n o w' h))
        (settle-Yields c' n none w' h)

  -- Reads of at most the size of the buffer.
  abbrev pub Fit : List Bytes → Type 0
  Fit [] = Unit
  Fit (chunk ∷ chunks) = (length chunk ≤ buffer_size) × Fit chunks

  loop-Yields :
      (chunks : List Bytes) (c : Connection)
      → Fit chunks
      → IsWhole c
      → Yields Anything (handle_mysql t ip chunks c)
  unfolding handle_mysql
  loop-Yields [] c f w = tt
  loop-Yields (chunk ∷ chunks) c (h, f) w =
      if_either (Yields Anything) (is_empty chunk) (λ _. tt)
        (>>=-Yields (λ r. IsWhole r.1) Anything (mysql_read t ip chunk c) _
          (mysql_read-Yields chunk c h w)
          (λ (reply, c') w'.
            if_either (Yields Anything) reply.closed (λ _. tt)
              (>>=-Yields Anything Anything (handle_mysql t ip chunks c') _
                (loop-Yields chunks c' f w') (λ replies _. tt))))

  -- handleMySQL panics on no reads of at most 4096 bytes each, whatever lengths the login packets
  -- claim.
  pub handle_mysql_defined :
      (chunks : List Bytes) → Fit chunks → handle_mysql t ip chunks new_connection ≢ none
  handle_mysql_defined chunks f e =
      subst (Yields Anything) e (loop-Yields chunks new_connection f refl)
