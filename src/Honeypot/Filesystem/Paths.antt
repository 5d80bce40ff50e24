-- ===== src/Honeypot/Filesystem/Paths.antt =====
-- Paths in the file system of the honeypot.
use phantom_grid.Prelude.{
  true, false, [], ◌∷◌, ◌++◌, ◌≡◌, refl, ap, inl, inr, arith, is_empty, Bool-cases, if_either,
}
use phantom_grid.Prelude.Bytes.{
  Bytes, codes, bytes_eq, has_prefix, trim_space, is_space, trim_space-append,
  trim_space-idempotent,
}
use phantom_grid.Honeypot.Text.{slash}
use phantom_grid.Prelude.Table.{lookup}
use phantom_grid.Honeypot.Filesystem.{
  VirtualFileSystem, new_virtual_file_system, normalize_path, list_at, exists_at, list_files,
  read_file, file_exists,
}

pub file_exists-root : file_exists new_virtual_file_system (codes "/") ≡ true
unfolding file_exists exists_at normalize_path new_virtual_file_system lookup bytes_eq has_prefix
    trim_space is_space
file_exists-root = refl

pub file_exists-home : file_exists new_virtual_file_system (codes "/root") ≡ true
unfolding file_exists exists_at normalize_path new_virtual_file_system lookup bytes_eq has_prefix
    trim_space is_space
file_exists-home = refl

-- An absolute path that stays as it is.
abbrev pub IsNormal : Bytes → Type 0
IsNormal path = (has_prefix path (codes "/") ≡ true) × (normalize_path path ≡ path)

not_dot : (path : Bytes) → has_prefix path (codes "/") ≡ true → bytes_eq path (codes ".") ≡ false
unfolding has_prefix bytes_eq
not_dot [] h = absurd (ground arith)
not_dot (x ∷ s) h = ground (arith, h)

not_empty : (path : Bytes) → has_prefix path (codes "/") ≡ true → is_empty path ≡ false
unfolding has_prefix
not_empty [] h = absurd (ground arith)
not_empty (x ∷ s) h = refl

trimmed-IsNormal :
    (path : Bytes) → trim_space path ≡ path → has_prefix path (codes "/") ≡ true → IsNormal path
unfolding normalize_path
trimmed-IsNormal path t h = (h, rw (t, not_empty path h, not_dot path h, h))

below_home-IsNormal :
    (path : Bytes)
    → trim_space path ≡ path
    → is_empty path ≡ false
    → IsNormal (codes "/root/" ++ path)
below_home-IsNormal path t h =
    trimmed-IsNormal (codes "/root/" ++ path)
      (trim_space-append slash (codes "root/") path (unfold is_space in refl) t h)
      (unfold has_prefix in refl)

home-IsNormal : IsNormal (codes "/root")
unfolding normalize_path bytes_eq has_prefix trim_space is_space
home-IsNormal = (refl, refl)

-- normalizePath gives a path that begins with a slash, and that it leaves as it is.
pub normalize_path-IsNormal : (path : Bytes) → IsNormal (normalize_path path)
unfolding normalize_path
normalize_path-IsNormal path =
    let t = trim_space path in
    let same = trim_space-idempotent path in
    elim (Bool-cases (is_empty t)) [
      | inl e ↦ rw e home-IsNormal
      | inr more ↦ rw more (
          if_either IsNormal (bytes_eq t (codes ".")) (λ _. home-IsNormal)
            (if_either IsNormal (has_prefix t (codes "/")) (trimmed-IsNormal t same)
              (below_home-IsNormal t same more)))
    ]

-- ReadFile, FileExists and ListFiles answer alike for a path and for what normalizePath makes of it.
pub normalize_path-same :
    (vfs : VirtualFileSystem) (path : Bytes)
    → (read_file vfs (normalize_path path) ≡ read_file vfs path)
      × (file_exists vfs (normalize_path path) ≡ file_exists vfs path)
      × (list_files vfs (normalize_path path) ≡ list_files vfs path)
unfolding read_file file_exists list_files
normalize_path-same vfs path =
    let e = (normalize_path-IsNormal path).1 in
    (ap (λ p. lookup p vfs.files) e, ap (exists_at vfs) e, ap (list_at vfs) e)
