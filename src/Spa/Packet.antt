-- ===== src/Spa/Packet.antt =====
-- internal/spa/packet.go: the packets of single packet authorization, their creation, parsing and
-- the check of their signatures. `none` is a run-time panic.
pub mod Parse
pub mod RoundTrip
pub mod Create
use phantom_grid.Prelude.{
  ℕ, ◌+◌, ◌-◌, ◌%◌, Bool, true, false, Option, none, some, List, [], ◌∷◌, ◌++◌, ◌==◌, ltb, leb,
  if◌then◌else◌, ◌>>=◌, get_elem?, slice, take, length, Result, ok, err,
}
use phantom_grid.Prelude.Bytes.{Bytes, bytes_eq}
use phantom_grid.Prelude.Words.{be_bytes, be_nat}
use phantom_grid.Prelude.Ip.{to16, ipv4_zero}
use phantom_grid.Spa.Crypto.{Crypto}
use phantom_grid.Spa.Totp.{generate_totp}

-- The timestamp is an `int64` pattern; version 1 has no client address.
pub record SpaPacket : Type 0 where
  pub version : ℕ
  pub mode : ℕ
  pub timestamp : ℕ
  pub totp : ℕ
  pub client_ip : Option Bytes
  pub signature : Bytes
  pub random_data : Bytes

abbrev pub header_size_v1 : ℕ
header_size_v1 = 14

abbrev pub header_size_v2 : ℕ
header_size_v2 = 30

abbrev pub ed25519_signature_size : ℕ
ed25519_signature_size = 64

abbrev pub hmac_signature_size : ℕ
hmac_signature_size = 32

abbrev pub min_random_padding : ℕ
min_random_padding = 16

abbrev pub max_random_padding : ℕ
max_random_padding = 64

-- The errors of ParseSPAPacket, with the number that each message shows.
pub data ParseError : Type 0 where
  too_short : ℕ → ParseError
  v2_too_short : ℕ → ParseError
  unsupported_version : ℕ → ParseError
  unknown_mode : ℕ → ParseError
  too_short_for_signature : ℕ → ParseError

-- What crypto/rand yields: the byte that chooses the size, and the padding of a size, or an error.
pub record Entropy : Type 0 where
  pub size_byte : ℕ
  pub padding : ℕ → Option Bytes

unfoldable pub padding_size : Bool → ℕ → ℕ
padding_size true byte = min_random_padding + byte % (max_random_padding - min_random_padding + 1)
padding_size false byte = 0

-- The address in the packet: 0.0.0.0 where there is none.
unfoldable pub packet_ip : Bytes → Bytes
packet_ip client_ip = elim (to16 client_ip) [ none ↦ ipv4_zero | some full ↦ full ]

unfoldable pub packet_header : ℕ → ℕ → ℕ → Bytes → Bytes
packet_header mode timestamp totp ip = 2 ∷ mode ∷ (be_bytes 8 timestamp ++ (be_bytes 4 totp ++ ip))

-- The header and the padding; `none` where the source of randomness fails.
unfoldable pub unsigned_packet : ℕ → ℕ → ℕ → Bool → Bytes → Entropy → Option Bytes
unsigned_packet mode timestamp totp obfuscate client_ip entropy =
    let header = packet_header mode timestamp totp (packet_ip client_ip) in
    let size = padding_size obfuscate entropy.size_byte in
    if ltb 0 size
    then elim (entropy.padding size) [ none ↦ none | some padding ↦ some (header ++ padding) ]
    else some header

-- The only error of the two constructors.
pub data CreateError : Type 0 where
  no_randomness : CreateError

-- Signs what has been built, and appends the signature.
unfoldable pub append_signature :
    (Bytes → Option Bytes) → Option Bytes → Option (Result CreateError Bytes)
append_signature sign none = some (err no_randomness)
append_signature sign (some packet) = do signature ← sign packet; some (ok (packet ++ signature))

module _ (c : Crypto) where
  -- `clock i` is what the i-th call of time.Now() returns.
  unfoldable pub create_asymmetric_packet :
      Bytes → Bytes → ℕ → Bool → Bytes → (ℕ → ℕ) → Entropy → Option (Result CreateError Bytes)
  create_asymmetric_packet private_key totp_secret time_step obfuscate client_ip clock entropy = do
    totp ← generate_totp c totp_secret time_step (clock 0)
    append_signature (c.sign private_key)
        (unsigned_packet 2 (clock 1) totp obfuscate client_ip entropy)

  unfoldable pub create_dynamic_packet :
      Bytes → Bytes → ℕ → Bool → Bytes → (ℕ → ℕ) → Entropy → Option (Result CreateError Bytes)
  create_dynamic_packet hmac_secret totp_secret time_step obfuscate client_ip clock entropy = do
    totp ← generate_totp c totp_secret time_step (clock 0)
    append_signature (λ packet. some (c.hmac_sha256 hmac_secret packet))
        (unsigned_packet 1 (clock 1) totp obfuscate client_ip entropy)

unfoldable pub signature_size : ℕ → Option ℕ
signature_size mode =
    if mode == 1
    then some hmac_signature_size
    else if mode == 2
    then some ed25519_signature_size
    else none

-- The part of ParseSPAPacket behind the header.
unfoldable pub parse_tail : Bytes → ℕ → SpaPacket → Option (Result ParseError SpaPacket)
parse_tail bytes header_size packet = elim (signature_size packet.mode) [
  | none ↦ some (err (unknown_mode packet.mode))
  | some size ↦
      if ltb (length bytes) (header_size + size)
      then some (err (too_short_for_signature (length bytes)))
      else do
        let padding = length bytes - header_size - size
        random_data ←
            (if ltb 0 padding then slice header_size (header_size + padding) bytes else some [])
        signature ← slice (length bytes - size) (length bytes) bytes
        some (ok (record packet { random_data = random_data; signature = signature }))
]

-- The part of ParseSPAPacket that reads the header of a version.
unfoldable pub parse_header : Bytes → ℕ → ℕ → Option (Result ParseError SpaPacket)
parse_header bytes version mode =
    if version == 1
    then (do
      timestamp ← slice 2 10 bytes
      totp ← slice 10 14 bytes
      parse_tail bytes header_size_v1 (record {
        version = version;
        mode = mode;
        timestamp = be_nat timestamp;
        totp = be_nat totp;
        client_ip = none;
        signature = [];
        random_data = [];
      }))
    else if version == 2
    then (if ltb (length bytes) header_size_v2 then some (err (v2_too_short (length bytes))) else do
      timestamp ← slice 2 10 bytes
      totp ← slice 10 14 bytes
      ip ← slice 14 30 bytes
      parse_tail bytes header_size_v2 (record {
        version = version;
        mode = mode;
        timestamp = be_nat timestamp;
        totp = be_nat totp;
        client_ip = some ip;
        signature = [];
        random_data = [];
      }))
    else some (err (unsupported_version version))

unfoldable pub parse_spa_packet : Bytes → Option (Result ParseError SpaPacket)
parse_spa_packet bytes =
    if ltb (length bytes) header_size_v1
    then some (err (too_short (length bytes)))
    else do version ← get_elem? bytes 0; mode ← get_elem? bytes 1; parse_header bytes version mode

-- packetData[:len(packetData)-len(packet.Signature)]
unfoldable pub signed_data : SpaPacket → Bytes → Option Bytes
signed_data packet bytes =
    if leb (length packet.signature) (length bytes)
    then slice 0 (length bytes - length packet.signature) bytes
    else none

module _ (c : Crypto) where
  unfoldable pub verify_asymmetric_packet : Bytes → SpaPacket → Bytes → Option Bool
  verify_asymmetric_packet public_key packet bytes = do
    signed ← signed_data packet bytes
    c.verify public_key signed packet.signature

  unfoldable pub verify_dynamic_packet : Bytes → SpaPacket → Bytes → Option Bool
  verify_dynamic_packet hmac_secret packet bytes = do
    signed ← signed_data packet bytes
    some (bytes_eq (c.hmac_sha256 hmac_secret signed) packet.signature)
