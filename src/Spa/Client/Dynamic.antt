-- ===== src/Spa/Client/Dynamic.antt =====
-- The mode dynamic of the client.

use phantom_grid.Prelude.{
  ℕ, Option, none, some, [], ◌∷◌, ◌++◌, ◌≡◌, refl, ◌⊎◌, inl, inr, is_empty, Bool-cases,
  Option-cases, if_either, Result, ok, err,
}
use phantom_grid.Prelude.Bytes.{Bytes, codes, bytes_eq}
use phantom_grid.Prelude.Table.{lookup}
use phantom_grid.Prelude.Ip.{v4_prefix}
use phantom_grid.Config.Spa.{dynamic, DynamicSpaConfig, default_dynamic_spa_config}
use phantom_grid.Spa.Crypto.{Crypto}
use phantom_grid.Spa.Packet.{Entropy}
use phantom_grid.Spa.Client.{
  ClientError, no_hmac_secret, invalid_ip, new_dynamic_client, client_of_mode, Socket, Sending,
  Host, client_address, with_totp_secret, chomp, process_spa_request, send_from,
}

-- Nothing is sent: the address is refused, or there is no secret.
abbrev pub Refused : Option Sending → Type 0
Refused result = (result ≡ some (err invalid_ip)) ⊎ (result ≡ some (err no_hmac_secret))

module _ (c : Crypto) (clock : ℕ → ℕ) (entropy : Entropy) (socket : Socket) (host : Host) where
  with_totp_secret_keeps :
      (path : Bytes) (config : DynamicSpaConfig)
      → config.mode ≡ dynamic
      → config.hmac_secret ≡ []
      → ((with_totp_secret c clock entropy socket host path config).mode ≡ dynamic)
        × ((with_totp_secret c clock entropy socket host path config).hmac_secret ≡ [])
  unfolding with_totp_secret
  with_totp_secret_keeps path config m e =
      let P : DynamicSpaConfig → Type 0 = λ r. (r.mode ≡ dynamic) × (r.hmac_secret ≡ []) in
      if_either P _ (λ _. (m, e))
        (elim (lookup _ host.files)
          as (λ o. P (elim o [
            | none ↦ config
            | some secret ↦ record config { totp_secret = chomp secret }
          ])) [ none ↦ (m, e) | some secret ↦ (m, e) ])

  client_address-cases :
      (text : Bytes)
      → (client_address c clock entropy socket host text ≡ err invalid_ip)
        ⊎ ((ip : Bytes) × (client_address c clock entropy socket host text ≡ ok ip))
  unfolding client_address
  client_address-cases text = elim (Bool-cases (is_empty text)) [
    | inl e ↦ inr (
      elim host.local_address [ none ↦ v4_prefix ++ (127 ∷ 0 ∷ 0 ∷ 1 ∷ []) | some ip ↦ ip ],
      rw (client_address, e) refl,
    )
    | inr e ↦ elim (Option-cases (host.parse_ip text)) [
      | inl n ↦ inl (rw (client_address, e) (rw n refl))
      | inr (ip, o) ↦ inr (ip, rw (client_address, e) (rw o refl))
    ]
  ]

  send_from_dynamic :
      (server_ip : Bytes) (config : DynamicSpaConfig) (address : Result ClientError Bytes)
      → config.mode ≡ dynamic
      → config.hmac_secret ≡ []
      → (address ≡ err invalid_ip) ⊎ ((ip : Bytes) × (address ≡ ok ip))
      → Refused (send_from c clock entropy socket host server_ip config address)
  unfolding new_dynamic_client client_of_mode
  send_from_dynamic server_ip config address m e (inl bad) = inl (rw bad refl)
  send_from_dynamic server_ip config address m e (inr (ip, good)) = inr (rw good (rw m (rw e refl)))

  -- In mode dynamic processSPARequest sends nothing, whatever the form, the files and the network:
  -- it refuses the address, or ends with the error that there is no HMAC secret, which nothing
  -- loads.
  pub process_spa_request_dynamic :
      (server_ip key_path totp_path static_token ip_text : Bytes)
      → Refused (
          process_spa_request c clock entropy socket host server_ip
            (codes "dynamic")
            key_path
            totp_path
            static_token
            ip_text)
  unfolding process_spa_request bytes_eq default_dynamic_spa_config
  process_spa_request_dynamic server_ip key_path totp_path static_token ip_text =
      let (m, e) = with_totp_secret_keeps totp_path _ refl refl in
      send_from_dynamic server_ip _ _ m e (client_address-cases ip_text)
