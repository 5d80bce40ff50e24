-- ===== src/Honeypot/Ssh/Loop.antt =====
-- The loop of the shell: what each read does to the session, and where the loop ends.
use phantom_grid.Prelude.{
  Bool, true, false, List, [], ◌∷◌, ◌++◌, ◌≡◌, refl, sym, inl, inr, if◌then◌else◌, is_empty,
  append-nil, Bool-cases,
}
use phantom_grid.Prelude.Bytes.{Bytes, trim_space, fields}
use phantom_grid.Honeypot.Filesystem.{VirtualFileSystem}
use phantom_grid.Honeypot.Ssh.{Session, Turn, tell}
use phantom_grid.Honeypot.Ssh.Shell.{ssh_parts, ssh_read, handle_ssh}
use phantom_grid.Honeypot.Ssh.Prompts.{IsValid, Goes, Answers}
use phantom_grid.Honeypot.Ssh.Commands.{ssh_command-Answers}

-- The command of a read and its arguments; nothing for a blank one.
abbrev pub name_of : List Bytes → Bytes
name_of [] = []
name_of (cmd ∷ args) = cmd

abbrev pub arguments_of : List Bytes → List Bytes
arguments_of [] = []
arguments_of (cmd ∷ args) = args

-- What the history records of a read.
abbrev pub recorded : Bytes → List Bytes
recorded read = let input = trim_space read in if is_empty input then [] else input ∷ []

-- What a read does: the session stays valid, the history grows by the input, and the connection
-- ends or goes on with the prompt.
pub record Serves (read : Bytes) (s : Session) (turn : Turn) : Type 0 where
  pub valid : IsValid turn.session
  pub history : turn.session.command_history ≡ s.command_history ++ recorded read
  pub goes :
      Goes (name_of (fields (trim_space read))) (arguments_of (fields (trim_space read))) turn

-- The turns of the loop: one for each read, until a read is empty or a turn ends the connection.
abbrev pub Served : List Bytes → Session → List Turn → Type 0
Served [] s turns = turns ≡ []
Served (read ∷ reads) s [] = is_empty read ≡ true
Served (read ∷ reads) s (turn ∷ turns) =
    (is_empty read ≡ false)
    × Serves read s turn
    × (if turn.closed then turns ≡ [] else Served reads turn.session turns)

module _ (vfs : VirtualFileSystem) (clock t : Bytes) where
  ssh_parts-Answers :
      (parts : List Bytes) (s : Session)
      → IsValid s
      → Answers (name_of parts) (arguments_of parts) s (ssh_parts vfs clock parts s)
  unfolding ssh_parts tell
  ssh_parts-Answers [] s v = record { valid = v; history = refl; goes = inr (refl, inl ([], refl)) }
  ssh_parts-Answers (cmd ∷ args) s v = ssh_command-Answers vfs clock cmd args s v

  pub ssh_read-Serves :
      (read : Bytes) (s : Session) → IsValid s → Serves read s (ssh_read vfs clock t read s)
  unfolding ssh_read tell
  ssh_read-Serves read s v =
      let input = trim_space read in
      let heard : Session = record s { command_history = s.command_history ++ input ∷ [] } in
      let a =
        ssh_parts-Answers (fields input) heard
          (record { absolute = v.absolute; shown = v.shown }) in
      elim (Bool-cases (is_empty input)) [
        | inl blank ↦ rw blank (record {
          valid = v;
          history = rw blank (sym (append-nil s.command_history));
          goes = inr (refl, inl ([], refl));
        })
        | inr more ↦
            rw more (record { valid = a.valid; history = rw more a.history; goes = a.goes })
      ]

  go_on :
      (closed : Bool) (reads : List Bytes) (s : Session) (rest : List Turn)
      → Served reads s rest
      → (if closed
          then (if closed then [] else rest) ≡ []
          else Served reads s (if closed then [] else rest))
  go_on true reads s rest h = refl
  go_on false reads s rest h = h

  -- In a valid session, each read of the loop leaves the session valid (the current directory is
  -- absolute, and the prompt shows it) and the history longer by its input, if it has one, and is
  -- answered by a text that ends with the prompt, or ends the connection, which only exit, logout and
  -- quit do. Only after python -c the prompt may be missing. The loop answers each read, up to one that is empty
  -- or ends the connection.
  pub handle_ssh-Served :
      (reads : List Bytes) (s : Session)
      → IsValid s
      → Served reads s (handle_ssh vfs clock t reads s)
  unfolding handle_ssh
  handle_ssh-Served [] s v = refl
  handle_ssh-Served (read ∷ reads) s v =
      let serves = ssh_read-Serves read s v in
      let turn = ssh_read vfs clock t read s in
      let later = handle_ssh-Served reads turn.session serves.valid in
      elim (Bool-cases (is_empty read)) [
        | inl e ↦ rw e e
        | inr more ↦ rw more (more, serves, go_on turn.closed reads turn.session _ later)
      ]
