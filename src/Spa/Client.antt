-- ===== src/Spa/Client.antt =====
-- pkg/spa/client.go, pkg/spa/client_dynamic.go and processSPARequest of cmd/spa-client/main.go. The
-- sockets are two answers, of net.Dial and of Write; what was sent is part of the result.
pub mod Delivery
pub mod Dynamic
use phantom_grid.Prelude.{
  ℕ, ◌-◌, Bool, true, false, not, ◌||◌, Option, none, some, List, [], ◌∷◌, ◌++◌, ◌==◌,
  if◌then◌else◌, ◌>>=◌, is_empty, length, take, get_elem?, Result, ok, err,
}
use phantom_grid.Prelude.Bytes.{Bytes, codes, bytes_eq}
use phantom_grid.Prelude.Table.{Table, lookup}
use phantom_grid.Config.Spa.{
  SpaMode, static, dynamic, asymmetric, other, DynamicSpaConfig, default_dynamic_spa_config,
}
use phantom_grid.Prelude.Ip.{v4_prefix}
use phantom_grid.Config.Keys.{KeyError, load_keys_from_file}
use phantom_grid.Spa.Crypto.{Crypto}
use phantom_grid.Spa.Packet.{Entropy, CreateError, create_asymmetric_packet, create_dynamic_packet}
use phantom_grid.Spa.Handler.{spa_secret_token}

pub data ClientError : Type 0 where
  no_private_key no_hmac_secret unsupported_mode no_connection not_sent invalid_mode invalid_ip :
      ClientError
  not_created : CreateError → ClientError
  no_key : KeyError → ClientError

pub record DynamicClient : Type 0 where
  pub server_ip : Bytes
  pub private_key : Bytes
  pub hmac_secret : Bytes
  pub totp_secret : Bytes
  pub spa_config : DynamicSpaConfig
  pub client_ip : Bytes

pub record Client : Type 0 where
  pub server_ip : Bytes
  pub static_token : Bytes

unfoldable pub new_client : Bytes → Client
new_client server_ip = record { server_ip = server_ip; static_token = spa_secret_token }

unfoldable pub new_client_with_token : Bytes → Bytes → Client
new_client_with_token server_ip token = record {
  server_ip = server_ip;
  static_token = if is_empty token then spa_secret_token else token;
}

-- The switch of NewDynamicClient over the mode.
unfoldable pub client_of_mode :
    SpaMode → Bytes → DynamicSpaConfig → Bytes → Result ClientError DynamicClient
client_of_mode asymmetric server_ip config client_ip =
    if is_empty config.private_key
    then err no_private_key
    else ok (record {
      server_ip = server_ip;
      private_key = config.private_key;
      hmac_secret = [];
      totp_secret = config.totp_secret;
      spa_config = config;
      client_ip = client_ip;
    })
client_of_mode dynamic server_ip config client_ip =
    if is_empty config.hmac_secret
    then err no_hmac_secret
    else ok (record {
      server_ip = server_ip;
      private_key = [];
      hmac_secret = config.hmac_secret;
      totp_secret = config.totp_secret;
      spa_config = config;
      client_ip = client_ip;
    })
client_of_mode _ server_ip config client_ip = err unsupported_mode

unfoldable pub new_dynamic_client :
    Bytes → DynamicSpaConfig → Bytes → Result ClientError DynamicClient
new_dynamic_client server_ip config client_ip =
    client_of_mode config.mode server_ip config client_ip

-- What net.Dial and Write answer.
pub record Socket : Type 0 where
  pub connects : Bool
  pub writes : Bool

-- The bytes that were sent, or the error.
abbrev pub Sending : Type 0
Sending = Result ClientError Bytes

unfoldable pub send_on : Socket → Bytes → Sending
send_on socket bytes = if socket.writes then ok bytes else err not_sent

-- The static client: the bytes of its token.
unfoldable pub send_static_packet : Socket → Client → Sending
send_static_packet socket client =
    if socket.connects then send_on socket client.static_token else err no_connection

unfoldable pub send_created : Socket → Result CreateError Bytes → Sending
send_created socket (err e) = err (not_created e)
send_created socket (ok bytes) = send_on socket bytes

module _ (c : Crypto) (clock : ℕ → ℕ) (entropy : Entropy) where
  unfoldable pub create_by_mode :
      SpaMode → DynamicClient → Option (Option (Result CreateError Bytes))
  create_by_mode asymmetric client =
      create_asymmetric_packet c client.private_key client.totp_secret
        client.spa_config.totp_time_step client.spa_config.enable_obfuscation client.client_ip clock
        entropy
      >>= λ created. some (some created)
  create_by_mode dynamic client =
      create_dynamic_packet c client.hmac_secret client.totp_secret client.spa_config.totp_time_step
        client.spa_config.enable_obfuscation client.client_ip clock entropy
      >>= λ created. some (some created)
  create_by_mode _ client = some none

  abbrev pub send_result : Socket → Option (Result CreateError Bytes) → Sending
  send_result socket none = err unsupported_mode
  send_result socket (some created) = send_created socket created

  -- SendMagicPacket of the dynamic client; `none` is a run-time panic.
  unfoldable pub send_magic_packet : Socket → DynamicClient → Option Sending
  send_magic_packet socket client =
      if not socket.connects
      then some (err no_connection)
      else (create_by_mode client.spa_config.mode client >>= λ created.
          some (send_result socket created))

-- The first of the paths at which there is a file.
unfoldable pub first_existing : Table Bytes → List Bytes → Bytes
first_existing files [] = []
first_existing files (path ∷ paths) = elim (lookup path files) [
  | some _ ↦ path
  | none ↦ first_existing files paths
]

-- A secret without the newline at its end.
unfoldable pub chomp : Bytes → Bytes
chomp [] = []
chomp (b ∷ []) = if b == 10 then [] else b ∷ []
chomp (b ∷ bs) = b ∷ chomp bs

-- The host of the client: its files, the default paths, what crypto/rand gives to the default
-- configuration, net.ParseIP, and the local address of a socket to the server.
pub record Host : Type 0 where
  pub files : Table Bytes
  pub key_paths : List Bytes
  pub totp_paths : List Bytes
  pub random : Option Bytes
  pub parse_ip : Bytes → Option Bytes
  pub local_address : Option Bytes

module _ (c : Crypto) (clock : ℕ → ℕ) (entropy : Entropy) (socket : Socket) (host : Host) where
  -- The configuration with the private key, for the mode asymmetric.
  unfoldable pub with_private_key : Bytes → DynamicSpaConfig → Result ClientError DynamicSpaConfig
  with_private_key key_path config =
      let path = if is_empty key_path then first_existing host.files host.key_paths else key_path in
      if is_empty path
      then err no_private_key
      else elim (load_keys_from_file c host.files [] path) [
        | err e ↦ err (no_key e)
        | ok keys ↦ ok (record config { private_key = elim keys.1 [ none ↦ [] | some key ↦ key ] })
      ]

  unfoldable pub with_totp_secret : Bytes → DynamicSpaConfig → DynamicSpaConfig
  with_totp_secret totp_path config =
      let path =
        if is_empty totp_path then first_existing host.files host.totp_paths else totp_path in
      if is_empty path then config else elim (lookup path host.files) [
        | none ↦ config
        | some secret ↦ record config { totp_secret = chomp secret }
      ]

  unfoldable pub client_address : Bytes → Result ClientError Bytes
  client_address text =
      if is_empty text
      then ok
          (elim host.local_address [ none ↦ v4_prefix ++ (127 ∷ 0 ∷ 0 ∷ 1 ∷ []) | some ip ↦ ip ])
      else elim (host.parse_ip text) [ none ↦ err invalid_ip | some ip ↦ ok ip ]

  abbrev pub send_from : Bytes → DynamicSpaConfig → Result ClientError Bytes → Option Sending
  send_from server_ip config (err e) = some (err e)
  send_from server_ip config (ok ip) = elim (new_dynamic_client server_ip config ip) [
    | err e ↦ some (err e)
    | ok client ↦ send_magic_packet c clock entropy socket client
  ]

  abbrev pub send_with :
      Bytes → Bytes → Bytes → Result ClientError DynamicSpaConfig → Option Sending
  send_with server_ip totp_path ip_text (err e) = some (err e)
  send_with server_ip totp_path ip_text (ok config) =
      send_from server_ip (with_totp_secret totp_path config) (client_address ip_text)

  -- processSPARequest, by the texts of its form.
  unfoldable pub process_spa_request :
      Bytes → Bytes → Bytes → Bytes → Bytes → Bytes → Option Sending
  process_spa_request server_ip mode key_path totp_path static_token ip_text =
      let config = default_dynamic_spa_config host.random in
      let token = if is_empty static_token then spa_secret_token else static_token in
      if bytes_eq mode (codes "static")
      then some (send_static_packet socket (new_client_with_token server_ip token))
      else if bytes_eq mode (codes "dynamic")
      then send_with server_ip totp_path ip_text (ok (record config { mode = dynamic }))
      else if bytes_eq mode (codes "asymmetric")
      then send_with server_ip totp_path ip_text
          (with_private_key key_path (record config { mode = asymmetric }))
      else some (err invalid_mode)
