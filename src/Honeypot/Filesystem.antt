-- ===== src/Honeypot/Filesystem.antt =====
-- internal/honeypot/filesystem.go: the file system that the honeypot shows.
pub mod Paths
use phantom_grid.Prelude.{
  ℕ, ◌+◌, Bool, true, false, ◌||◌, Option, none, some, List, [], ◌∷◌, ◌++◌, String, if◌then◌else◌,
  is_empty, length, map,
}
use phantom_grid.Prelude.Bytes.{Bytes, codes, bytes_eq, has_prefix, contains, trim_space, decimal}
use phantom_grid.Prelude.Table.{Table, lookup, insert}
use phantom_grid.Honeypot.Text.{glue}
use phantom_grid.Honeypot.Contents.{init_files}

pub record VirtualFileSystem : Type 0 where
  pub files : Table Bytes
  pub dirs : Table (List Bytes)

abbrev entry : String → List String → Bytes × List Bytes
entry name names = (codes name, map codes names)

-- The directories that init makes; no key stands twice, so the order is of no account.
abbrev pub init_dirs : Table (List Bytes)
init_dirs =
    entry "/" ("root" ∷ "home" ∷ "etc" ∷ "var" ∷ "tmp" ∷ "usr" ∷ "opt" ∷ "boot" ∷ [])
    ∷ entry "/root"
        (".bashrc" ∷ ".bash_history" ∷ ".ssh" ∷ "backup.tar.gz" ∷ "config.txt" ∷ "logs" ∷ [])
    ∷ entry "/home" ("user" ∷ "admin" ∷ "www" ∷ [])
    ∷ entry "/etc" ("passwd" ∷ "shadow" ∷ "hosts" ∷ "nginx" ∷ "apache2" ∷ "mysql" ∷ [])
    ∷ entry "/var" ("log" ∷ "www" ∷ "backup" ∷ "tmp" ∷ [])
    ∷ entry "/var/log" ("auth.log" ∷ "syslog" ∷ "nginx" ∷ "apache2" ∷ [])
    ∷ entry "/var/www" ("html" ∷ "uploads" ∷ "config.php" ∷ [])
    ∷ entry "/tmp" ("session.tmp" ∷ "cache.tmp" ∷ [])
    ∷ []

unfoldable pub new_virtual_file_system : VirtualFileSystem
new_virtual_file_system = record { files = init_files; dirs = init_dirs }

unfoldable pub normalize_path : Bytes → Bytes
normalize_path path =
    let trimmed = trim_space path in
    if is_empty trimmed || bytes_eq trimmed (codes ".")
    then codes "/root"
    else if has_prefix trimmed (codes "/")
    then trimmed
    else codes "/root/" ++ trimmed

-- The line of ListFiles for a name.
unfoldable pub listing_line : Bytes → Bytes
listing_line file =
    if has_prefix file (codes ".")
    then glue (codes "-rw-r--r-- 1 root root  1024 Dec 15 10:23 " ∷ file ∷ codes "\r\n" ∷ [])
    else if contains file (codes ".")
    then glue (codes "-rw-r--r-- 1 root root  2048 Dec 15 10:23 " ∷ file ∷ codes "\r\n" ∷ [])
    else glue (codes "drwxr-xr-x 2 root root  4096 Dec 15 10:23 " ∷ file ∷ codes "\r\n" ∷ [])

-- What ListFiles and FileExists do with a normalized path.
unfoldable pub list_at : VirtualFileSystem → Bytes → Bytes
list_at vfs path = elim (lookup path vfs.dirs) [
  | some files ↦
      glue (codes "total " ∷ decimal (length files) ∷ codes "\r\n" ∷ map listing_line files)
  | none ↦ glue (codes "ls: cannot access '" ∷ path ∷ codes "': No such file or directory\r\n" ∷ [])
]

unfoldable pub exists_at : VirtualFileSystem → Bytes → Bool
exists_at vfs path = elim (lookup path vfs.files) [
  | some content ↦ true
  | none ↦ elim (lookup path vfs.dirs) [ none ↦ false | some names ↦ true ]
]

unfoldable pub list_files : VirtualFileSystem → Bytes → Bytes
list_files vfs path = list_at vfs (normalize_path path)

unfoldable pub read_file : VirtualFileSystem → Bytes → Option Bytes
read_file vfs path = lookup (normalize_path path) vfs.files

unfoldable pub file_exists : VirtualFileSystem → Bytes → Bool
file_exists vfs path = exists_at vfs (normalize_path path)
