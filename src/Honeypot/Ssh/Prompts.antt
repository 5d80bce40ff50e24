-- ===== src/Honeypot/Ssh/Prompts.antt =====
-- The form of a session, and what a command may do to it.
use phantom_grid.Prelude.{
  Bool, true, false, ◌&&◌, length, List, [], ◌∷◌, ◌++◌, String, ◌≡◌, refl, ◌⊎◌, inl, inr, arith,
  ltb, if◌then◌else◌, if_either,
}
use phantom_grid.Prelude.Bytes.{Bytes, codes, bytes_eq, has_prefix}
use phantom_grid.Honeypot.Text.{switch, one_of, first_is, slash, split_on, trim}
use phantom_grid.Honeypot.Ssh.{Session, Turn, Command, prompt_of, tell, reply}
use phantom_grid.Honeypot.Ssh.Shell.{parent_of, go_to}

-- The current directory is an absolute path, and the prompt shows it.
pub record IsValid (s : Session) : Type 0 where
  pub absolute : has_prefix s.current_dir (codes "/") ≡ true
  pub shown : s.prompt ≡ prompt_of s.current_dir

-- What is written ends with the prompt.
abbrev pub EndsWithPrompt : Turn → Type 0
EndsWithPrompt turn = (text : Bytes) × (turn.written ≡ text ++ turn.session.prompt)

-- `exit` and its like.
abbrev pub is_exit : Bytes → Bool
is_exit cmd = one_of cmd ("exit" ∷ "logout" ∷ "quit" ∷ [])

-- `python -c`, after which the source writes no prompt.
abbrev pub is_silent : Bytes → List Bytes → Bool
is_silent cmd args = one_of cmd ("python" ∷ "python3" ∷ []) && first_is args (codes "-c")

-- The connection ends, or goes on with the prompt.
abbrev pub Goes : Bytes → List Bytes → Turn → Type 0
Goes cmd args turn =
    ((turn.closed ≡ true) × (is_exit cmd ≡ true))
    ⊎ ((turn.closed ≡ false) × (EndsWithPrompt turn ⊎ (is_silent cmd args ≡ true)))

-- What every command does in a valid session.
pub record Answers (cmd : Bytes) (args : List Bytes) (s : Session) (turn : Turn) : Type 0 where
  pub valid : IsValid turn.session
  pub history : turn.session.command_history ≡ s.command_history
  pub goes : Goes cmd args turn

abbrev pub Proper : Bytes → Command → Type 0
Proper cmd c = (args : List Bytes) (s : Session) → IsValid s → Answers cmd args s (c cmd args s)

pub reply-Answers :
    (cmd : Bytes) (args : List Bytes) (s : Session) (text : Bytes)
    → IsValid s
    → Answers cmd args s (reply s text)
unfolding reply tell
reply-Answers cmd args s text v = record {
  valid = v;
  history = refl;
  goes = inr (refl, inl (text, refl));
}

pub go_to-Answers :
    (cmd : Bytes) (args : List Bytes) (s : Session) (dir : Bytes)
    → has_prefix dir (codes "/") ≡ true
    → Answers cmd args s (go_to s dir)
unfolding go_to tell has_prefix
go_to-Answers cmd args s dir h = record {
  valid = record { absolute = h; shown = refl };
  history = refl;
  goes = inr (refl, inl ([], refl));
}

-- Both branches of a test that reply.
pub either-Answers :
    (cmd : Bytes) (args : List Bytes) (s : Session) (b : Bool) (x y : Bytes)
    → IsValid s
    → Answers cmd args s (if b then reply s x else reply s y)
either-Answers cmd args s b x y v =
    if_either (Answers cmd args s) b (λ _. reply-Answers cmd args s x v)
      (reply-Answers cmd args s y v)

-- The cases of the switch, each where one of its names is the command.
infixr 10 ◌▸◌
pub data AllCases (P : Command → Type 0) (cmd : Bytes) : List (List String × Command) → Type 0 where
  done : AllCases P cmd []
  ◌▸◌ :
      {names : List String} {c : Command} {cases : List (List String × Command)}
      → (one_of cmd names ≡ true → P c)
      → AllCases P cmd cases
      → AllCases P cmd ((names, c) ∷ cases)

pub switch-AllCases :
    {P : Command → Type 0} {cmd : Bytes} {cases : List (List String × Command)} {d : Command}
    → AllCases P cmd cases
    → P d
    → P (switch cmd cases d)
unfolding switch
switch-AllCases done p = p
switch-AllCases {P} {cmd} (◌▸◌ {names} h hs) p =
    if_either P (one_of cmd names) h (switch-AllCases hs p)

pub has_prefix-append :
    (a b : Bytes) → has_prefix a (codes "/") ≡ true → has_prefix (a ++ b) (codes "/") ≡ true
unfolding has_prefix
has_prefix-append [] b h = absurd (ground arith)
has_prefix-append (x ∷ a) b h = ground (arith, h)

pub has_prefix-parent_of :
    (dir : Bytes)
    → has_prefix dir (codes "/") ≡ true
    → has_prefix (parent_of dir) (codes "/") ≡ true
unfolding parent_of has_prefix
has_prefix-parent_of dir h =
    if_either (λ d. has_prefix d (codes "/") ≡ true) (bytes_eq dir (codes "/")) (λ _. h)
      (if_either (λ d. has_prefix d (codes "/") ≡ true)
        (ltb 1 (length (split_on slash (trim slash dir)))) (λ _. refl) refl)
