-- ===== src/Webdash/Auth/Passwords.antt =====
-- What a change of a password changes.
use phantom_grid.Prelude.{
  true, some, ◌≡◌, refl, ap, ◌∙◌, arith, inl, inr, if◌then◌else◌, Bool-cases, Option-cases, ok, ℕ,
}
use phantom_grid.Prelude.Bytes.{Bytes, bytes_eq, bytes_eq_iff, bytes_eq_refl, hex_encode}
use phantom_grid.Prelude.Table.{lookup, insert, lookup-insert}
use phantom_grid.Webdash.Auth.{
  User, AuthManager, save_users, hash_password, has_password, authenticate, change_password,
}

module _ (sha256 : Bytes → Bytes) where
  -- The manager after a change, for a user that is there.
  abbrev changed : Bytes → User → Bytes → AuthManager → AuthManager
  changed username user new_pass am = save_users (record am {
    users = insert username (record user { password = hash_password sha256 new_pass }) am.users;
  })

  change_password_ok :
      (username old_pass new_pass : Bytes) (am : AuthManager)
      → (change_password sha256 username old_pass new_pass am).0 ≡ ok tt
      → (user : User) × (lookup username am.users ≡ some user)
        × (user.password ≡ hash_password sha256 old_pass)
        × ((change_password sha256 username old_pass new_pass am).1
            ≡ changed username user new_pass am)
  unfolding change_password
  change_password_ok username old_pass new_pass am h =
      elim (Option-cases (lookup username am.users)) [
        | inl e ↦ absurd (ground arith)
        | inr (user, e) ↦
            elim (Bool-cases (bytes_eq user.password (hash_password sha256 old_pass))) [
              | inl same ↦ (
                user,
                e,
                (bytes_eq_iff user.password (hash_password sha256 old_pass)).0 same,
                rw (e, change_password) (rw same refl),
              )
              | inr differs ↦ absurd (ground arith)
            ]
      ]

  authenticate_known :
      (now : ℕ) (random username password : Bytes) (user : User) (am : AuthManager)
      → lookup username am.users ≡ some user
      → user.password ≡ hash_password sha256 password
      → (authenticate sha256 now random username password am).0 ≡ ok (hex_encode random)
  unfolding authenticate has_password
  authenticate_known now random username password user am e p =
      let known : has_password sha256 password (lookup username am.users) ≡ true =
        ap (has_password sha256 password) e
        ∙ (bytes_eq_iff user.password (hash_password sha256 password)).1 p in
      rw known refl

  -- ChangePassword succeeds only for a user with the old password. Then Authenticate takes the new
  -- one, all other users are as they were, and so are all sessions: those that were opened with
  -- the old password stay.
  pub change_password-authenticate :
      (now : ℕ) (random username old_pass new_pass other : Bytes) (am : AuthManager)
      → (change_password sha256 username old_pass new_pass am).0 ≡ ok tt
      → (user : User) × (lookup username am.users ≡ some user)
        × (user.password ≡ hash_password sha256 old_pass)
        × ((authenticate sha256 now random username new_pass
              (change_password sha256 username old_pass new_pass am).1).0
            ≡ ok (hex_encode random))
        × ((change_password sha256 username old_pass new_pass am).1.sessions ≡ am.sessions)
        × (lookup other (change_password sha256 username old_pass new_pass am).1.users ≡ (
            if bytes_eq username other
            then some (record user { password = hash_password sha256 new_pass })
            else lookup other am.users))
  unfolding save_users
  change_password-authenticate now random username old_pass new_pass other am h =
      let (user, e, p, same) = change_password_ok username old_pass new_pass am h in
      let user' : User = record user { password = hash_password sha256 new_pass } in
      let entered =
        lookup-insert username username user' am.users ∙ rw (bytes_eq_refl username) refl in
      (
        user,
        e,
        p,
        rw same (authenticate_known now random username new_pass user' _ entered refl),
        ap (λ m. m.sessions) same,
        ap (λ m. lookup other m.users) same ∙ lookup-insert username other user' am.users,
      )
