-- ===== src/Spa/Client/Delivery.antt =====
-- From the client's form to the server's whitelist.
use mathlib.Core.Path.{subst}
use phantom_grid.Prelude.{
  ℕ, ◌+◌, ◌/◌, ◌≤◌, ◌<◌, true, false, Option, some, [], ◌∷◌, ◌≡◌, refl, ap, ◌∙◌, arith, length,
  is_empty, In, Result, ok,
}
use phantom_grid.Prelude.Bytes.{Bytes}
use phantom_grid.Prelude.Table.{lookup, insert}
use phantom_grid.Prelude.Words.{sign_bit, word64, be_nat}
use phantom_grid.Prelude.Ip.{to4, to16}
use phantom_grid.Config.Spa.{asymmetric, DynamicSpaConfig}
use phantom_grid.Spa.Crypto.{Crypto, IsLawful}
use phantom_grid.Spa.Totp.Window.{InRange}
use phantom_grid.Spa.Packet.{
  Entropy, CreateError, SpaPacket, create_asymmetric_packet, parse_spa_packet, parse_header,
}
use phantom_grid.Spa.Packet.Create.{Fills, create_asymmetric_packet-Opens}
use phantom_grid.Spa.Verifier.{key_list, check_replay, clean_up, packet_key}
use phantom_grid.Spa.Verifier.Checks.{Fresh}
use phantom_grid.Spa.Verifier.Complete.{create-verify}
use phantom_grid.Spa.MapLoader.{BpfOps, IsMap, expiry}
use phantom_grid.Spa.Handler.{
  HandlerConfig, HandlerState, is_version_byte, is_static_packet, process_packet,
}
use phantom_grid.Spa.Handler.Whitelist.{process_packet_whitelists}
use phantom_grid.Spa.Client.{
  DynamicClient, new_dynamic_client, client_of_mode, Socket, send_on, send_created, create_by_mode,
  send_magic_packet,
}

-- A datagram that parses is not taken for the static token.
parsed-is_version_byte :
    (bytes : Bytes) (p : SpaPacket)
    → parse_spa_packet bytes ≡ some (ok p)
    → is_version_byte bytes ≡ true
unfolding parse_spa_packet parse_header is_version_byte
parsed-is_version_byte [] p h = absurd (ground arith)
parsed-is_version_byte (v ∷ []) p h = absurd (ground arith)
parsed-is_version_byte (v ∷ m ∷ rest) p h = ground (arith, h)

parsed-is_static_packet :
    (h : HandlerConfig) (bytes : Bytes) (p : SpaPacket)
    → parse_spa_packet bytes ≡ some (ok p)
    → is_static_packet h bytes ≡ false
unfolding is_static_packet
parsed-is_static_packet h bytes p e = let v = parsed-is_version_byte bytes p e in ground (arith, v)

first_seen : (now : ℕ) (key : Bytes) → check_replay now key [] ≡ (ok tt, (key, now) ∷ [])
unfolding check_replay clean_up lookup insert
first_seen now key = refl

-- A socket that takes what is written to it.
abbrev pub open_socket : Socket
open_socket = record { connects = true; writes = true }

same_packet :
    (o : Option (Result CreateError Bytes)) {a b : Bytes}
    → o ≡ some (ok a)
    → o ≡ some (ok b)
    → a ≡ b
same_packet o e f = ground (arith, e, f)

module _ {c : Crypto} (lawful : IsLawful c) (made : ℕ → ℕ) (entropy : Entropy) where
  -- What SendMagicPacket sends is what CreateAsymmetricPacket builds.
  send_magic_packet-create :
      (server_ip ip bytes : Bytes) (config : DynamicSpaConfig)
      → config.mode ≡ asymmetric
      → length config.private_key ≡ 64
      → create_asymmetric_packet c config.private_key config.totp_secret config.totp_time_step
          config.enable_obfuscation ip made entropy
        ≡ some (ok bytes)
      → (client : DynamicClient) × (new_dynamic_client server_ip config ip ≡ ok client)
        × (send_magic_packet c made entropy open_socket client ≡ some (ok bytes))
  unfolding new_dynamic_client client_of_mode send_magic_packet create_by_mode send_created send_on
  send_magic_packet-create server_ip ip bytes config mode size created =
      let client : DynamicClient = record {
        server_ip = server_ip;
        private_key = config.private_key;
        hmac_secret = [];
        totp_secret = config.totp_secret;
        spa_config = config;
        client_ip = ip;
      } in
      let full : is_empty config.private_key ≡ false = ground arith in
      (client, rw mode (rw full refl), rw mode (rw created refl))

  -- A server with an empty replay cache and a whitelist, and a client that knows the server's
  -- secrets: NewDynamicClient and SendMagicPacket send a packet, after which processPacket has the
  -- sender in the whitelist with its expiry. The conditions: both configurations are of mode
  -- asymmetric and have the same time step, which is not 0; the private key has 64 bytes, and its
  -- public key is among the server's, all of 32 bytes; the client's TOTP secret is among the
  -- server's; the source of randomness does not fail and the socket takes the packet; the clocks
  -- read times of int64 that are not negative, the server's is within 300 seconds of the client's
  -- at the check of the timestamp, and at each check of a TOTP within the tolerance in time steps,
  -- with a window in the range of int64; the packet comes from the IPv4 address that it was built
  -- for, and the map takes the entry.
  pub send_magic_packet-process_packet :
      {ops : BpfOps} (maps : IsMap ops) (h : HandlerConfig) (config : DynamicSpaConfig)
      (server_ip ip full ipv4 : Bytes) (clock : ℕ → ℕ) (uptime : Option ℕ) (s : HandlerState c ops)
      (m m' : ops.Map)
      → config.mode ≡ asymmetric
      → length config.private_key ≡ 64
      → config.totp_time_step ≡ h.spa_config.totp_time_step
      → h.spa_config.mode ≡ asymmetric
      → 0 < h.spa_config.totp_time_step
      → Fills entropy
      → In (c.public config.private_key) (key_list h.spa_config.public_keys h.spa_config.public_key)
      → ((k : Bytes)
          → In k (key_list h.spa_config.public_keys h.spa_config.public_key)
          → length k ≡ 32)
      → In config.totp_secret (key_list h.spa_config.totp_secrets h.spa_config.totp_secret)
      → made 0 < sign_bit
      → made 1 < word64
      → clock 0 < sign_bit
      → Fresh (clock 0) (made 1)
      → ((i : ℕ) → InRange h.spa_config.totp_time_step h.spa_config.totp_tolerance (clock (i + 1)))
      → ((i : ℕ)
          → (made 0 / h.spa_config.totp_time_step
              ≤ clock (i + 1) / h.spa_config.totp_time_step + h.spa_config.totp_tolerance)
            × (clock (i + 1) / h.spa_config.totp_time_step
                ≤ made 0 / h.spa_config.totp_time_step + h.spa_config.totp_tolerance))
      → to16 ip ≡ some full
      → to4 ip ≡ some ipv4
      → s.cache ≡ []
      → s.whitelist ≡ some m
      → ops.put (be_nat ipv4) (expiry uptime h.spa_config.replay_window_seconds) m ≡ some m'
      → (client : DynamicClient) × (bytes : Bytes) × (s' : HandlerState c ops) × (new_dynamic_client
            server_ip config ip
          ≡ ok client)
        × (send_magic_packet c made entropy open_socket client ≡ some (ok bytes))
        × (process_packet c ops h uptime clock bytes (some ip) s ≡ some s')
        × (s'.whitelist ≡ some m')
        × (ops.find (be_nat ipv4) m' ≡ some (expiry uptime h.spa_config.replay_window_seconds))
  send_magic_packet-process_packet {ops} maps h config server_ip ip full ipv4 clock uptime s m m'
        mode size step server_mode p fills known sizes secret small range now near windows skew e16
        e4 empty list put =
      let server = h.spa_config in
      let (bytes, created, verified) =
        create-verify lawful server config.private_key config.totp_secret ip
          config.enable_obfuscation made clock entropy full s.cache server_mode p fills size known
          sizes secret small range now near windows skew e16 in
      let (bytes', code, created', _, o, _) =
        create_asymmetric_packet-Opens lawful config.totp_secret server.totp_time_step p
          config.enable_obfuscation ip made entropy fills range config.private_key size in
      let same : bytes' ≡ bytes = same_packet _ created' created in
      let parsed = subst (λ b. parse_spa_packet b ≡ some (ok o.packet)) same o.parsed in
      let key = packet_key c bytes in
      let accepted =
        verified
        ∙ ap (λ k. some (check_replay (clock 0) key k)) empty
        ∙ ap some (first_seen (clock 0) key) in
      let (client, built, sent) =
        send_magic_packet-create server_ip ip bytes config mode size (rw step created) in
      let (s', run, _, put', found) =
        process_packet_whitelists c ops h maps uptime clock bytes ip ipv4 s ((key, clock 0) ∷ [])
          o.packet m m' (parsed-is_static_packet h bytes o.packet parsed) parsed accepted e4 list
          put in
      (client, bytes, s', built, sent, run, put', found)
