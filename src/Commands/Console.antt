-- ===== src/Commands/Console.antt =====
-- cmd/phantom/main.go: the terminal and the system that the menus work on. What is printed is a list
-- of code points. The answers of the system are parameters, by what has happened before.
use phantom_grid.Prelude.{
  ℕ, Bool, true, false, ◌||◌, Option, none, some, List, [], ◌∷◌, ◌++◌, String, ◌==◌, ◌-◌, ◌*◌, ◌+◌,
  ◌/◌, ◌%◌, ltb, if◌then◌else◌, is_empty, replicate, Result,
}
use phantom_grid.Prelude.Bytes.{Bytes, codes, bytes_eq, trim_space}
use phantom_grid.Honeypot.Text.{split_on, join, slash}

-- What the program does: it prints, runs a command to its end, or asks a command
-- for its output.
pub data Event : Type 0 where
  printed : Bytes → Event
  ran : List Bytes → Event
  asked : List Bytes → Event
  wrote : Bytes → Bytes → Event

-- The history is the newest event first. A read of the terminal returns at most 4096 bytes, and
-- none at its end; that a command which is run reads the terminal itself is left out.
pub record Console : Type 0 where
  pub reads : List Bytes
  pub history : List Event

-- runtime, os and os/exec: errors are their texts, and `random` is what crypto/rand yields for 32
-- bytes.
pub record Host : Type 0 where
  pub goos : Bytes
  pub goarch : Bytes
  pub euid : ℕ
  pub opens_drive : Bool
  pub home : Bytes
  pub user_profile : Bytes
  pub stat : List Event → Bytes → Option ℕ
  pub run : List Event → List Bytes → Option Bytes
  pub output : List Event → List Bytes → Result Bytes Bytes
  pub look_path : Bytes → Bool
  pub random : List Event → Result Bytes Bytes
  pub write : List Event → Bytes → Bytes → Option Bytes

abbrev pub M : Type 0 → Type 0
M A = Console → A × Console

infixl 5 ◌>>=◌ ◌>>◌
abbrev pub ◌>>=◌ : {A B : Type 0} → M A → (A → M B) → M B
◌>>=◌ m f s = let (a, s') = m s in f a s'

abbrev pub ◌>>◌ : {B : Type 0} → M (Unit {0}) → M B → M B
◌>>◌ m k s = k (m s).1

abbrev pub pure : {A : Type 0} → A → M A
pure a s = (a, s)

abbrev pub note : Event → M (Unit {0})
note e s = (tt, record s { history = e ∷ s.history })

abbrev pub past : M (List Event)
past s = (s.history, s)

-- fmt.Println and fmt.Print
abbrev pub println : Bytes → M (Unit {0})
println t = note (printed (t ++ 10 ∷ []))

abbrev pub print : Bytes → M (Unit {0})
print t = note (printed t)

abbrev pub blank_line : M (Unit {0})
blank_line = println []

abbrev pub plain : String → M (Unit {0})
plain t = println (codes t)

pub data Color : Type 0 where
  bold cyan green yellow red : Color

abbrev pub color_code : Color → String
color_code bold = "[1m"
color_code cyan = "[36m"
color_code green = "[32m"
color_code yellow = "[33m"
color_code red = "[31m"

-- ReadString('\n') of a new bufio.Reader: what it has read behind the line is lost with it.
unfoldable pub until_newline : Bytes → Option Bytes
until_newline [] = none
until_newline (c ∷ t) =
    let rest = until_newline t in
    if c == 10 then some [] else elim rest [ none ↦ none | some l ↦ some (c ∷ l) ]

unfoldable pub read_line : List Bytes → Bytes × List Bytes
read_line [] = ([], [])
read_line ([] ∷ more) = ([], more)
read_line ((c ∷ t) ∷ more) =
    let (rest, left) = read_line more in
    elim (until_newline (c ∷ t)) [ some l ↦ (l, more) | none ↦ ((c ∷ t) ++ rest, left) ]

unfoldable pub take_line : M Bytes
take_line s = let (l, left) = read_line s.reads in (trim_space l, record s { reads = left })

-- filepath.Clean on the parts of a path, with those that were kept, the last one first.
up_from : Bool → List Bytes → List Bytes
up_from rooted [] = if rooted then [] else codes ".." ∷ []
up_from rooted (k ∷ kept) = if bytes_eq k (codes "..") then codes ".." ∷ k ∷ kept else kept

keep_part : Bool → Bytes → List Bytes → List Bytes
unfolding up_from
keep_part rooted p kept =
    if is_empty p || bytes_eq p (codes ".")
    then kept
    else if bytes_eq p (codes "..")
    then up_from rooted kept
    else p ∷ kept

clean_parts : Bool → List Bytes → List Bytes → List Bytes
unfolding keep_part
clean_parts rooted kept [] = kept
clean_parts rooted kept (p ∷ ps) = clean_parts rooted (keep_part rooted p kept) ps

abbrev reversed : List Bytes → List Bytes → List Bytes
reversed acc [] = acc
reversed acc (p ∷ ps) = reversed (p ∷ acc) ps

is_rooted : Bytes → Bool
is_rooted [] = false
is_rooted (c ∷ t) = c == slash

unfoldable pub clean_path : Bytes → Bytes
unfolding clean_parts is_rooted
clean_path path =
    let rooted = is_rooted path in
    let parts = join (codes "/") (reversed [] (clean_parts rooted [] (split_on slash path))) in
    if rooted then slash ∷ parts else if is_empty parts then codes "." else parts

abbrev not_empty : List Bytes → List Bytes
not_empty [] = []
not_empty (p ∷ ps) = if is_empty p then not_empty ps else p ∷ not_empty ps

-- filepath.Join
unfoldable pub join_path : List Bytes → Bytes
join_path parts =
    let kept = not_empty parts in if is_empty kept then [] else clean_path (join (codes "/") kept)

digit : ℕ → ℕ
digit n =
    if ltb n 26
    then n + 65
    else if ltb n 52
    then n + 71
    else if ltb n 62
    then n - 4
    else if n == 62
    then 43
    else 47

-- base64.StdEncoding.EncodeToString
unfoldable pub base64 : Bytes → Bytes
unfolding digit
base64 [] = []
base64 (a ∷ []) = digit (a / 4) ∷ digit (a % 4 * 16) ∷ 61 ∷ 61 ∷ []
base64 (a ∷ b ∷ []) = digit (a / 4) ∷ digit (a % 4 * 16 + b / 16) ∷ digit (b % 16 * 4) ∷ 61 ∷ []
base64 (a ∷ b ∷ c ∷ s) =
    digit (a / 4)
    ∷ digit (a % 4 * 16 + b / 16)
    ∷ digit (b % 16 * 4 + c / 64)
    ∷ digit (c % 64)
    ∷ base64 s

module _ (host : Host) where
  unfoldable pub is_windows : Bool
  is_windows = bytes_eq host.goos (codes "windows")

  -- The escape sequences, which are empty on Windows.
  unfoldable pub escape : String → Bytes
  unfolding is_windows
  escape code = if is_windows then [] else 27 ∷ codes code

  unfoldable pub paint : Color → Bytes → Bytes
  unfolding escape
  paint c t = escape (color_code c) ++ (t ++ escape "[0m")

  abbrev pub say : Color → String → M (Unit {0})
  say c t = println (paint c (codes t))

  -- A line behind an empty one.
  abbrev pub announce : Color → String → M (Unit {0})
  announce c t = println (10 ∷ paint c (codes t))

  abbrev pub rule : Bytes
  rule = replicate 76 0x2501

  -- The three lines at the top of a menu, and an empty one.
  unfoldable pub heading : String → M (Unit {0})
  unfolding paint
  heading title = do
    println (paint bold (10 ∷ rule))
    say bold title
    println (paint bold rule)
    blank_line

  unfoldable pub get_user_input : String → M Bytes
  unfolding paint take_line read_line
  get_user_input prompt = do print (paint cyan (codes prompt)); take_line

  unfoldable pub get_user_input_with_default : String → String → M Bytes
  unfolding paint take_line read_line
  get_user_input_with_default prompt default_value = do
    print (
        paint cyan (
          if is_empty (codes default_value)
          then codes prompt ++ codes ": "
          else codes prompt ++ (codes " [" ++ (codes default_value ++ codes "]: "))))
    input ← take_line
    pure (if is_empty input then codes default_value else input)

  unfoldable pub pause : M (Unit {0})
  unfolding paint take_line read_line
  pause = do
    blank_line
    print (paint yellow (codes "Press Enter to continue..."))
    line ← take_line
    pure tt

  -- The command that clears the screen.
  unfoldable pub clear_command : List Bytes
  unfolding is_windows
  clear_command =
      if is_windows then codes "cmd" ∷ codes "/c" ∷ codes "cls" ∷ [] else codes "clear" ∷ []

  -- Whether it succeeds is not looked at.
  abbrev pub clear_screen : M (Unit {0})
  clear_screen = note (ran clear_command)

  -- cmd.Run and cmd.Output with the terminal
  abbrev pub run_command : List Bytes → M (Option Bytes)
  run_command args = do before ← past; note (ran args); pure (host.run before args)

  abbrev pub command_output : List Bytes → M (Result Bytes Bytes)
  command_output args = do before ← past; note (asked args); pure (host.output before args)

  abbrev pub exists : Bytes → M Bool
  exists path = do
    before ← past
    pure (elim (host.stat before path) [ none ↦ false | some size ↦ true ])
