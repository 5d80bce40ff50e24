-- ===== src/Config/Keys.antt =====
-- internal/config/spa.go: the files of the keys. A file system is a table; a file that is not there
-- cannot be read, and every write succeeds.
pub mod Saved
use phantom_grid.Prelude.{
  ℕ, Bool, true, false, not, Option, none, some, List, ◌==◌, if◌then◌else◌, is_empty, length,
  Result, ok, err,
}
use phantom_grid.Prelude.Bytes.{Bytes, codes}
use phantom_grid.Prelude.White.{trim_white}
use phantom_grid.Prelude.Table.{Table, lookup, insert}
use phantom_grid.Spa.Crypto.{Crypto}

pub data KeyError : Type 0 where
  unreadable_public invalid_public unreadable_private invalid_private no_path : KeyError

-- One key file: nothing for an empty path.
unfoldable pub load_key :
    Table Bytes → KeyError → KeyError → ℕ → Bytes → Result KeyError (Option Bytes)
load_key files unreadable invalid size path =
    if is_empty path then ok none else elim (lookup path files) [
      | none ↦ err unreadable
      | some data_read ↦
          if length (trim_white data_read) == size
          then ok (some (trim_white data_read))
          else err invalid
    ]

module _ (c : Crypto) where
  -- The public key is derived from the private one where it was not loaded.
  unfoldable pub with_public :
      Option Bytes → Option Bytes → Result KeyError (Option Bytes × Option Bytes)
  with_public none none = err no_path
  with_public none (some private_key) = ok (some (c.public private_key), some private_key)
  with_public (some public_key) private_key = ok (some public_key, private_key)

  -- The public file is read first.
  unfoldable pub both_keys :
      Result KeyError (Option Bytes)
      → Result KeyError (Option Bytes)
      → Result KeyError (Option Bytes × Option Bytes)
  both_keys (err e) private_key = err e
  both_keys (ok public_key) (err e) = err e
  both_keys (ok public_key) (ok private_key) = with_public public_key private_key

  unfoldable pub load_keys_from_file :
      Table Bytes → Bytes → Bytes → Result KeyError (Option Bytes × Option Bytes)
  load_keys_from_file files public_path private_path =
      both_keys (load_key files unreadable_public invalid_public 32 public_path)
        (load_key files unreadable_private invalid_private 64 private_path)

-- SaveKeysToFile, by the two paths in the directory.
unfoldable pub save_keys_to_file : Bytes → Bytes → Bytes → Bytes → Table Bytes → Table Bytes
save_keys_to_file public_key private_key public_path private_path files =
    insert private_path private_key (insert public_path public_key files)
