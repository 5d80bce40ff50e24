-- ===== src/Webdash/Server/Access.antt =====
-- Who can change what: the settings, and the stream of logs.
use phantom_grid.Prelude.{
  ℕ, Bool, true, Option, none, some, ◌≡◌, refl, sym, ap, ◌∙◌, arith, ◌⊎◌, inl, inr, String,
  if_either,
}
use phantom_grid.Prelude.Bytes.{Bytes, codes, bytes_eq, bytes_eq_iff}
use phantom_grid.Webdash.Auth.{
  User, role_admin, Passage, next, unauthorized, redirect_login, auth_middleware,
}
use phantom_grid.Webdash.Auth.Sessions.{LiveSession, auth_middleware_sound}
use phantom_grid.Webdash.Settings.{Codec}
use phantom_grid.Webdash.Fleet.{DbOps, get_agents}
use phantom_grid.Webdash.Server.{
  Request, Response, status, redirect, agents_json, ServerState, Handled, post, handle_login,
  handle_logout, handle_password, handle_me, is_admin, handle_settings, handle_stats,
  handle_metrics, handle_fleet_telemetry, handle_fleet_logs, broadcast_raw_log, handle_get_agents,
  route, serve,
}

is_admin_role :
    (user : Option User)
    → is_admin user ≡ true
    → (u : User) × (user ≡ some u) × (u.role ≡ role_admin)
unfolding is_admin
is_admin_role none h = absurd (ground arith)
is_admin_role (some u) h = (u, refl, (bytes_eq_iff u.role role_admin).0 h)

module _ (sha256 : Bytes → Bytes) (json : Codec) (ops : DbOps) where
  -- The handler keeps the file of settings.
  handle_settings_admin :
      (user : Option User) (r : Request) (s s' : ServerState sha256 json ops) (a : Response)
      → handle_settings sha256 json ops user r s ≡ some (a, s')
      → (s'.settings_file ≡ s.settings_file) ⊎ ((r.method ≡ post) × (is_admin user ≡ true))
  unfolding handle_settings
  handle_settings_admin user r s s' a h = ground (arith, bytes_eq_iff r.method post)

  abbrev Keeps : Handled sha256 json ops → ServerState sha256 json ops → Type 0
  Keeps h s =
      (a : Response) (s' : ServerState sha256 json ops)
      → h ≡ some (a, s')
      → s'.settings_file ≡ s.settings_file

  answer-Keeps : (b : Response) (s : ServerState sha256 json ops) → Keeps (some (b, s)) s
  answer-Keeps b s a s' h = ground arith

  handle_login-Keeps :
      (now : ℕ) (random : Bytes) (r : Request) (s : ServerState sha256 json ops)
      → Keeps (handle_login sha256 json ops now random r s) s
  unfolding handle_login
  handle_login-Keeps now random r s a s' h = ground arith

  handle_logout-Keeps :
      (r : Request) (s : ServerState sha256 json ops) → Keeps (handle_logout sha256 json ops r s) s
  unfolding handle_logout
  handle_logout-Keeps r s a s' h = ground arith

  handle_password-Keeps :
      (user : Option User) (r : Request) (s : ServerState sha256 json ops)
      → Keeps (handle_password sha256 json ops user r s) s
  unfolding handle_password
  handle_password-Keeps user r s a s' h = ground arith

  handle_me-Keeps :
      (user : Option User) (s : ServerState sha256 json ops)
      → Keeps (handle_me sha256 json ops user s) s
  unfolding handle_me
  handle_me-Keeps none s a s' h = ground arith
  handle_me-Keeps (some u) s a s' h = ground arith

  handle_stats-Keeps :
      (r : Request) (s : ServerState sha256 json ops) → Keeps (handle_stats sha256 json ops r s) s
  unfolding handle_stats
  handle_stats-Keeps r s a s' h = ground arith

  handle_metrics-Keeps :
      (s : ServerState sha256 json ops) → Keeps (handle_metrics sha256 json ops s) s
  unfolding handle_metrics
  handle_metrics-Keeps s a s' h = ground arith

  handle_fleet_telemetry-Keeps :
      (now : ℕ) (r : Request) (s : ServerState sha256 json ops)
      → Keeps (handle_fleet_telemetry sha256 json ops now r s) s
  unfolding handle_fleet_telemetry
  handle_fleet_telemetry-Keeps now r s a s' h = ground arith

  handle_fleet_logs-Keeps :
      (r : Request) (s : ServerState sha256 json ops)
      → Keeps (handle_fleet_logs sha256 json ops r s) s
  unfolding handle_fleet_logs broadcast_raw_log
  handle_fleet_logs-Keeps r s a s' h = ground arith

  -- What a request changes of the settings.
  abbrev pub OnlyAdmin :
      Option User → Request → ServerState sha256 json ops → Handled sha256 json ops → Type 0
  OnlyAdmin user r s h =
      (a : Response) (s' : ServerState sha256 json ops)
      → h ≡ some (a, s')
      → (s'.settings_file ≡ s.settings_file)
        ⊎ ((r.path ≡ codes "/api/settings") × (r.method ≡ post) × (is_admin user ≡ true))

  keeping :
      (user : Option User) (r : Request) (s : ServerState sha256 json ops)
      (h : Handled sha256 json ops)
      → Keeps h s
      → OnlyAdmin user r s h
  keeping user r s h k a s' e = inl (k a s' e)

  settings_route :
      (user : Option User) (r : Request) (s : ServerState sha256 json ops)
      → r.path ≡ codes "/api/settings"
      → OnlyAdmin user r s (handle_settings sha256 json ops user r s)
  settings_route user r s p a s' e = elim (handle_settings_admin user r s s' a e) [
    | inl same ↦ inl same
    | inr (m, admin) ↦ inr (p, m, admin)
  ]

  route_settings :
      (others : Request → Response) (now : ℕ) (random : Bytes) (user : Option User) (r : Request)
      (s : ServerState sha256 json ops)
      → OnlyAdmin user r s (route sha256 json ops others now random user r s)
  unfolding route handle_get_agents
  route_settings others now random user r s =
      let P = OnlyAdmin user r s in
      let at : String → Bool = λ path. bytes_eq r.path (codes path) in
      if_either P (at "/api/auth/login")
        (λ _. keeping user r s _ (handle_login-Keeps now random r s))
        (if_either P (at "/api/auth/logout") (λ _. keeping user r s _ (handle_logout-Keeps r s))
          (if_either P (at "/api/auth/password")
            (λ _. keeping user r s _ (handle_password-Keeps user r s))
            (if_either P (at "/api/auth/me") (λ _. keeping user r s _ (handle_me-Keeps user s))
              (if_either P (at "/api/stats") (λ _. keeping user r s _ (handle_stats-Keeps r s))
                (if_either P (at "/api/settings")
                  (λ p. settings_route user r s ((bytes_eq_iff r.path _).0 p))
                  (if_either P (at "/metrics") (λ _. keeping user r s _ (handle_metrics-Keeps s))
                    (if_either P (at "/api/fleet/telemetry")
                      (λ _. keeping user r s _ (handle_fleet_telemetry-Keeps now r s))
                      (if_either P (at "/api/fleet/logs")
                        (λ _. keeping user r s _ (handle_fleet_logs-Keeps r s))
                        (if_either P (at "/api/fleet/agents")
                          (λ _.
                            keeping user r s _ (answer-Keeps (agents_json (get_agents ops s.db)) s))
                          (keeping user r s _ (answer-Keeps (others r) s)))))))))))

  -- No request changes the settings, but a POST to /api/settings with the cookie of a session that
  -- has not expired and whose user has the role admin.
  pub serve_settings :
      (others : Request → Response) (now : ℕ) (random : Bytes) (r : Request)
      (s s' : ServerState sha256 json ops) (a : Response)
      → serve sha256 json ops others now random r s ≡ some (a, s')
      → (s'.settings_file ≡ s.settings_file)
        ⊎ ((r.path ≡ codes "/api/settings")
            × (r.method ≡ post)
            × ((token : Bytes) × (user : User) × (r.cookie ≡ some token)
                × (user.role ≡ role_admin)
                × LiveSession now token user s.auth))
  unfolding serve
  serve_settings others now random r s s' a h =
      go (auth_middleware now r.path r.cookie s.auth) refl h
    where
      go :
          (p : Passage)
          → auth_middleware now r.path r.cookie s.auth ≡ p
          → elim p [
            | next user ↦ route sha256 json ops others now random user r s
            | unauthorized ↦ some (status 401, s)
            | redirect_login ↦ some (redirect (codes "/login"), s)
          ]
            ≡ some (a, s')
          → (s'.settings_file ≡ s.settings_file)
            ⊎ ((r.path ≡ codes "/api/settings")
                × (r.method ≡ post)
                × ((token : Bytes) × (user : User) × (r.cookie ≡ some token)
                    × (user.role ≡ role_admin)
                    × LiveSession now token user s.auth))
      go unauthorized m q = inl (ground arith)
      go redirect_login m q = inl (ground arith)
      go (next user) m q = elim (route_settings others now random user r s a s' q) [
        | inl same ↦ inl same
        | inr (p, post_lem, admin) ↦
            let (u, e, role) = is_admin_role user admin in
            elim (auth_middleware_sound now r.path r.cookie user s.auth m) [
              | inl (_, no_user) ↦ absurd (ground arith)
              | inr (token, found, c, f, live) ↦
                  let same : u ≡ found = ground arith in
                  inr (p, post_lem, (token, found, c, ap (λ v. v.role) (sym same) ∙ role, live))
            ]
      ]
