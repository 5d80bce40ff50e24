-- ===== src/Honeypot/Ssh/Directory.antt =====
-- Where `cd` goes.
use phantom_grid.Prelude.{
  true, false, List, [], ◌∷◌, ◌++◌, ◌≡◌, refl, arith, ltb, if◌then◌else◌, length, is_empty,
  if_either,
}
use phantom_grid.Prelude.Bytes.{Bytes, codes, bytes_eq, has_prefix}
use phantom_grid.Honeypot.Text.{slash, first_is, join, init}
use phantom_grid.Honeypot.Text.Joins.{AreWords, split_on-join, trim-join, trim_end-join}
use phantom_grid.Honeypot.Filesystem.{new_virtual_file_system, file_exists}
use phantom_grid.Honeypot.Filesystem.Paths.{file_exists-root, file_exists-home}
use phantom_grid.Honeypot.Ssh.{Session, Turn, reply, tell}
use phantom_grid.Honeypot.Ssh.Shell.{parent_of, go_to, enter, ssh_cd}

-- A path by its parts.
abbrev pub path_of : List Bytes → Bytes
path_of parts = slash ∷ join (slash ∷ []) parts

root-only : (s : Bytes) → is_empty s ≡ false → bytes_eq (slash ∷ s) (codes "/") ≡ false
unfolding bytes_eq
root-only [] h = absurd (ground arith)
root-only (x ∷ s) h = refl

init-path_of :
    (w : Bytes) (ws : List Bytes)
    → (if ltb 1 (length (w ∷ ws)) then slash ∷ join (codes "/") (init (w ∷ ws)) else codes "/")
      ≡ path_of (init (w ∷ ws))
unfolding init join
init-path_of w [] = refl
init-path_of w (v ∷ ws) = ground arith

-- `cd ..` leaves off the last part of a path whose parts are not empty and have no slash, and stays
-- at the root.
pub parent_of-path_of :
    (parts : List Bytes) → AreWords slash parts → parent_of (path_of parts) ≡ path_of (init parts)
unfolding parent_of init join bytes_eq
parent_of-path_of [] h = refl
parent_of-path_of (w ∷ ws) h =
    rw
      (
        root-only (join (slash ∷ []) (w ∷ ws)) (trim_end-join slash w ws h).1,
        trim-join slash w ws h,
        split_on-join slash w ws h,
      )
      (init-path_of w ws)

-- The shell's files have this path.
abbrev pub Exists : Bytes → Type 0
Exists path = file_exists new_virtual_file_system path ≡ true

enter-Exists :
    (path dir : Bytes) (s : Session)
    → Exists s.current_dir
    → Exists (enter new_virtual_file_system path dir s).session.current_dir
unfolding enter go_to tell reply
enter-Exists path dir s h =
    if_either (λ (turn : Turn). Exists turn.session.current_dir)
      (file_exists new_virtual_file_system path) (λ e. e) h

-- `cd` in a directory that exists leads to a path that exists, unless its argument is `..`.
pub ssh_cd-Exists :
    (cmd : Bytes) (args : List Bytes) (s : Session)
    → first_is args (codes "..") ≡ false
    → Exists s.current_dir
    → Exists (ssh_cd new_virtual_file_system cmd args s).session.current_dir
unfolding ssh_cd go_to tell first_is enter reply
ssh_cd-Exists cmd [] s n h = file_exists-home
ssh_cd-Exists cmd (dir ∷ more) s n h = rw n (
    if_either (λ (turn : Turn). Exists turn.session.current_dir) (bytes_eq dir (codes "/"))
      (λ _. file_exists-root)
      (if_either (λ (turn : Turn). Exists turn.session.current_dir) (has_prefix dir (codes "/"))
        (λ _. enter-Exists dir dir s h) (enter-Exists (s.current_dir ++ slash ∷ dir) dir s h)))
