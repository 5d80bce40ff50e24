-- ===== src/Config/Keys/Saved.antt =====
-- Which saved keys are loaded back.
use phantom_grid.Prelude.{
  ℕ, false, Option, some, ◌≡◌, refl, ap, ◌∙◌, ◌↔◌, arith, inl, inr, ◌==◌, ==_iff, is_empty, length,
  Bool-cases, Result, ok, err, if◌then◌else◌,
}
use phantom_grid.Prelude.Bytes.{Bytes, bytes_eq, bytes_eq_refl}
use phantom_grid.Prelude.White.{trim_white, trim_white_same, begins_white, ends_white}
use phantom_grid.Prelude.Table.{Table, lookup, insert, lookup-insert}
use phantom_grid.Spa.Crypto.{Crypto}
use phantom_grid.Config.Keys.{
  KeyError, both_keys, load_key, unreadable_public, invalid_public, unreadable_private,
  invalid_private, with_public, load_keys_from_file, save_keys_to_file,
}

-- What one file gives back.
load_key-lookup :
    (files : Table Bytes) (unreadable invalid : KeyError) (size : ℕ) (path key : Bytes)
    → is_empty path ≡ false
    → lookup path files ≡ some key
    → load_key files unreadable invalid size path
      ≡ (if length (trim_white key) == size then ok (some (trim_white key)) else err invalid)
unfolding load_key
load_key-lookup files unreadable invalid size path key e f = rw (e, f)

abbrev sized : KeyError → ℕ → Bytes → Result KeyError (Option Bytes)
sized invalid size key = if length key == size then ok (some key) else err invalid

both_keys-sized :
    (c : Crypto) (p q public_key private_key : Bytes)
    → both_keys c (sized invalid_public 32 p) (sized invalid_private 64 q)
      ≡ ok (some public_key, some private_key)
    → (p ≡ public_key) × (q ≡ private_key)
unfolding both_keys with_public
both_keys-sized c p q public_key private_key h = elim (Bool-cases (length p == 32)) [
  | inl e ↦ elim (Bool-cases (length q == 64)) [
    | inl f ↦ let h' = rw (e, f) at h in (ground (arith, h'), ground (arith, h'))
    | inr f ↦ let h' = rw (e, f) at h in absurd (ground (arith, h'))
  ]
  | inr e ↦ let h' = rw e at h in absurd (ground (arith, h'))
]

both_keys_full :
    (c : Crypto) (p q : Bytes)
    → length p ≡ 32
    → length q ≡ 64
    → both_keys c (sized invalid_public 32 p) (sized invalid_private 64 q) ≡ ok (some p, some q)
unfolding both_keys with_public
both_keys_full c p q n m = rw ((==_iff (length p) 32).1 n, (==_iff (length q) 64).1 m) refl

-- Keys of 32 and 64 bytes, saved under two different paths that are not empty, are loaded back
-- exactly if neither of them begins or ends with white space of Unicode in UTF-8, which
-- bytes.TrimSpace cuts off.
pub load_keys_from_file-save_keys_to_file :
    (c : Crypto) (files : Table Bytes) (public_key private_key public_path private_path : Bytes)
    → length public_key ≡ 32
    → length private_key ≡ 64
    → is_empty public_path ≡ false
    → is_empty private_path ≡ false
    → bytes_eq private_path public_path ≡ false
    → (load_keys_from_file c
          (save_keys_to_file public_key private_key public_path private_path files)
          public_path
          private_path
        ≡ ok (some public_key, some private_key))
      ↔ (((begins_white public_key ≡ false) × (ends_white public_key ≡ false))
          × ((begins_white private_key ≡ false) × (ends_white private_key ≡ false)))
unfolding load_keys_from_file save_keys_to_file
load_keys_from_file-save_keys_to_file c files public_key private_key public_path private_path n m e
      f apart =
    let written = insert public_path public_key files in
    let saved = insert private_path private_key written in
    let at_private : lookup private_path saved ≡ some private_key =
      lookup-insert private_path private_path private_key written
      ∙ ap (λ b. if b then some private_key else lookup private_path written)
          (bytes_eq_refl private_path) in
    let at_public : lookup public_path saved ≡ some public_key =
      lookup-insert private_path public_path private_key written
      ∙ ap (λ b. if b then some private_key else lookup public_path written) apart
      ∙ lookup-insert public_path public_path public_key files
      ∙ ap (λ b. if b then some public_key else lookup public_path files)
          (bytes_eq_refl public_path) in
    rw
      (
        load_key-lookup saved unreadable_public invalid_public 32 public_path public_key e
            at_public,
        load_key-lookup saved unreadable_private invalid_private 64 private_path private_key f
            at_private,
      )
      (
        λ loaded.
            let (p, q) =
              both_keys-sized c (trim_white public_key) (trim_white private_key) public_key
                private_key loaded in
            ((trim_white_same public_key).0 p, (trim_white_same private_key).0 q),
        λ (p, q).
            rw ((trim_white_same public_key).1 p, (trim_white_same private_key).1 q)
              (both_keys_full c public_key private_key n m),
      )
