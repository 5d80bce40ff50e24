-- ===== src/Spa/Packet/Create.antt =====
-- CreateAsymmetricPacket and CreateDynamicPacket: what they build is read back and its signature
-- holds under the key that belongs to it.

use phantom_grid.Prelude.{
  ℕ, ◌-◌, ◌≤◌, ◌<◌, ◌^◌, Bool, true, false, some, [], ◌++◌, ◌≡◌, refl, sym, ap, ◌∙◌, arith, inl,
  inr, ltb, leb, Bool-cases, append-nil, take_exact, slice_total, length, length-append, ok,
  Option-cases,
}
use phantom_grid.Prelude.Bytes.{Bytes, bytes_eq_refl}
use phantom_grid.Prelude.Ip.{to16, length-to16}
use phantom_grid.Spa.Crypto.{Crypto, IsLawful}
use phantom_grid.Spa.Totp.{generate_totp}
use phantom_grid.Spa.Totp.Window.{totp_total}
use phantom_grid.Spa.Packet.RoundTrip.{assembled, expected, parse-assembled}
use phantom_grid.Spa.Packet.{
  SpaPacket, Entropy, padding_size, packet_ip, packet_header, unsigned_packet,
  create_asymmetric_packet, create_dynamic_packet, append_signature, signature_size,
  parse_spa_packet, signed_data, verify_asymmetric_packet, verify_dynamic_packet,
}

-- The source of randomness does not fail, and fills the slice.
abbrev pub Fills : Entropy → Type 0
Fills entropy = (n : ℕ) → (s : Bytes) × (entropy.padding n ≡ some s) × (length s ≡ n)

-- With obfuscation the padding has 16 to 64 bytes, without it there is none.
pub padding_size_bounds :
    (byte : ℕ)
    → (16 ≤ padding_size true byte) × (padding_size true byte ≤ 64) × (padding_size false byte ≡ 0)
unfolding padding_size
padding_size_bounds byte = (omega arith, omega arith, refl)

pub length-packet_ip : (ip : Bytes) → length (packet_ip ip) ≡ 16
unfolding packet_ip
length-packet_ip ip = elim (Option-cases (to16 ip)) [
  | inl e ↦ rw (e, packet_ip)
  | inr (full, e) ↦ rw (e, packet_ip) (length-to16 ip e)
]

unsigned_packet_lem :
    (mode timestamp totp : ℕ) (obfuscate : Bool) (ip : Bytes) (entropy : Entropy)
    → Fills entropy
    → (padding : Bytes) × (unsigned_packet mode timestamp totp obfuscate ip entropy
        ≡ some (packet_header mode timestamp totp (packet_ip ip) ++ padding))
      × (length padding ≡ padding_size obfuscate entropy.size_byte)
unfolding unsigned_packet
unsigned_packet_lem mode timestamp totp obfuscate ip entropy fills =
    let size = padding_size obfuscate entropy.size_byte in
    let (padding, e, n) = fills size in
    elim (Bool-cases (ltb 0 size)) [
      | inl some_padding ↦ (padding, rw some_padding (rw e), n)
      | inr no_padding ↦ ([], rw no_padding (ap some (sym (append-nil _))), ground arith)
    ]

-- What stands in front of the signature is what was signed.
signed-assembled :
    (mode timestamp totp : ℕ) (ip padding signature : Bytes)
    → signed_data
        (expected mode timestamp totp ip padding signature)
        (assembled mode timestamp totp ip padding signature)
      ≡ some (packet_header mode timestamp totp ip ++ padding)
unfolding signed_data
signed-assembled mode timestamp totp ip padding signature =
    let unsigned = packet_header mode timestamp totp ip ++ padding in
    let l = length-append unsigned signature in
    let n = length (unsigned ++ signature) - length signature in
    let fits : leb (length signature) (length (unsigned ++ signature)) ≡ true = ground arith in
    rw fits (
      slice_total 0 n (unsigned ++ signature) (omega arith) (omega arith)
      ∙ ap some (take_exact (n - 0) unsigned signature (omega arith)))

-- What a receiver reads out of a packet that a client has built.
pub record Opens (mode now code : ℕ) (ip : Bytes) (size : ℕ) (bytes : Bytes) : Type 0 where
  pub packet : SpaPacket
  pub parsed : parse_spa_packet bytes ≡ some (ok packet)
  pub version : packet.version ≡ 2
  pub mode_lem : packet.mode ≡ mode
  pub timestamp : packet.timestamp ≡ now
  pub totp : packet.totp ≡ code
  pub client_ip : packet.client_ip ≡ some (packet_ip ip)
  pub padding : length packet.random_data ≡ size
  pub signed : Bytes
  pub signed_lem : signed_data packet bytes ≡ some signed

module _ {c : Crypto} (lawful : IsLawful c) (totp_secret : Bytes) (time_step : ℕ)
    (p : 0 < time_step) (obfuscate : Bool) (ip : Bytes) (clock : ℕ → ℕ) (entropy : Entropy)
    (fills : Fills entropy) (range : clock 1 < 2 ^ 64) where
  abbrev size : ℕ
  size = padding_size obfuscate entropy.size_byte

  -- With a private key of 64 bytes, a time step other than 0, a time of 64 bits and a source of
  -- randomness that does not fail, CreateAsymmetricPacket returns a packet. ParseSPAPacket reads back its mode, its
  -- timestamp, the current TOTP and the client's address, and VerifyAsymmetricPacket accepts it
  -- under the public key.
  pub create_asymmetric_packet-Opens :
      (key : Bytes)
      → length key ≡ 64
      → (bytes : Bytes) × (code : ℕ) × (create_asymmetric_packet c key totp_secret time_step
            obfuscate ip clock entropy
          ≡ some (ok bytes))
        × (generate_totp c totp_secret time_step (clock 0) ≡ some code)
        × (o : Opens 2 (clock 1) code ip size bytes) × (verify_asymmetric_packet c
              (c.public key)
              o.packet
              bytes
            ≡ some true)
  unfolding create_asymmetric_packet append_signature verify_asymmetric_packet generate_totp
  create_asymmetric_packet-Opens key k =
      let (code, ec, small) = totp_total lawful totp_secret time_step p (clock 0) in
      let (padding, eu, n) = unsigned_packet_lem 2 (clock 1) code obfuscate ip entropy fills in
      let unsigned = packet_header 2 (clock 1) code (packet_ip ip) ++ padding in
      let (signature, es, sn) = lawful.sign_size key unsigned k in
      let packet = expected 2 (clock 1) code (packet_ip ip) padding signature in
      let o : Opens 2 (clock 1) code ip size (unsigned ++ signature) = record {
        packet = packet;
        parsed =
            parse-assembled 2 (clock 1) code (packet_ip ip) padding signature (length-packet_ip ip)
              range (omega arith) (unfold signature_size in rw sn);
        version = refl;
        mode_lem = refl;
        timestamp = refl;
        totp = refl;
        client_ip = refl;
        padding = n;
        signed = unsigned;
        signed_lem = signed-assembled 2 (clock 1) code (packet_ip ip) padding signature;
      } in
      (
        unsigned ++ signature,
        code,
        rw ec (rw (eu, append_signature) (rw es)),
        ec,
        o,
        rw (signed-assembled 2 (clock 1) code (packet_ip ip) padding signature)
            (lawful.verify-sign key unsigned signature es),
      )

  -- With a time step other than 0, a time of 64 bits and a source of randomness that does not fail,
  -- CreateDynamicPacket returns a packet. ParseSPAPacket reads back its mode, its timestamp, the
  -- current TOTP and the client's address, and VerifyDynamicPacket accepts it under the secret.
  pub create_dynamic_packet-Opens :
      (secret : Bytes)
      → (bytes : Bytes) × (code : ℕ) × (create_dynamic_packet c secret totp_secret time_step
            obfuscate ip clock entropy
          ≡ some (ok bytes))
        × (generate_totp c totp_secret time_step (clock 0) ≡ some code)
        × (o : Opens 1 (clock 1) code ip size bytes) × (verify_dynamic_packet c secret o.packet
              bytes
            ≡ some true)
  unfolding create_dynamic_packet append_signature verify_dynamic_packet generate_totp
  create_dynamic_packet-Opens secret =
      let (code, ec, small) = totp_total lawful totp_secret time_step p (clock 0) in
      let (padding, eu, n) = unsigned_packet_lem 1 (clock 1) code obfuscate ip entropy fills in
      let unsigned = packet_header 1 (clock 1) code (packet_ip ip) ++ padding in
      let signature = c.hmac_sha256 secret unsigned in
      let sn = lawful.hmac_sha256_size secret unsigned in
      let packet = expected 1 (clock 1) code (packet_ip ip) padding signature in
      let o : Opens 1 (clock 1) code ip size (unsigned ++ signature) = record {
        packet = packet;
        parsed =
            parse-assembled 1 (clock 1) code (packet_ip ip) padding signature (length-packet_ip ip)
              range (omega arith) (unfold signature_size in rw sn);
        version = refl;
        mode_lem = refl;
        timestamp = refl;
        totp = refl;
        client_ip = refl;
        padding = n;
        signed = unsigned;
        signed_lem = signed-assembled 1 (clock 1) code (packet_ip ip) padding signature;
      } in
      (
        unsigned ++ signature,
        code,
        rw ec (rw (eu, append_signature)),
        ec,
        o,
        rw (signed-assembled 1 (clock 1) code (packet_ip ip) padding signature)
            (ap some (bytes_eq_refl signature)),
      )
