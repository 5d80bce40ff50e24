-- ===== src/Spa/Packet/Parse.antt =====
-- ParseSPAPacket on every input: it does not panic, and what it accepts has the layout of a packet.
use native.Mathlib.Decide.{ℕ_discrete}
use phantom_grid.Prelude.{
  ℕ, ◌+◌, ◌-◌, ◌≤◌, true, false, none, some, [], ◌∷◌, ◌++◌, ◌≡◌, ◌≢◌, refl, sym, ap, ◌∙◌, arith,
  ◌⊎◌, inl, inr, ltb, if◌then◌else◌, get_elem?, slice, slice_total, take, drop, take_all,
  take-append-drop, length, length-take, length-drop, ok, Option-cases,
}
use phantom_grid.Prelude.Bytes.{Bytes}
use phantom_grid.Prelude.Words.{be_nat}
use phantom_grid.Spa.Packet.{
  SpaPacket, signature_size, parse_tail, parse_header, parse_spa_packet, signed_data,
}

parse_tail_defined :
    (bytes : Bytes) (header_size : ℕ) (packet : SpaPacket)
    → parse_tail bytes header_size packet ≢ none
unfolding parse_tail signature_size
parse_tail_defined bytes header_size packet = ground arith

parse_header_defined :
    (bytes : Bytes) (version mode : ℕ) → 14 ≤ length bytes → parse_header bytes version mode ≢ none
unfolding parse_header
parse_header_defined bytes version mode h = grind (arith, parse_tail_defined)

-- ParseSPAPacket panics on no input.
pub parse_spa_packet_defined : (bytes : Bytes) → parse_spa_packet bytes ≢ none
unfolding parse_spa_packet
parse_spa_packet_defined [] = ground arith
parse_spa_packet_defined (v ∷ []) = ground arith
parse_spa_packet_defined (v ∷ m ∷ rest) = ground (arith, parse_header_defined (v ∷ m ∷ rest) v m)

-- What is accepted.
pub record Accepted (bytes : Bytes) (p : SpaPacket) : Type 0 where
  pub signed : Bytes
  pub split : bytes ≡ signed ++ p.signature
  pub signed_lem : signed_data p bytes ≡ some signed
  pub size : signature_size p.mode ≡ some (length p.signature)

-- The slice of the last `n` elements.
slice_tail :
    (n : ℕ) (bytes : Bytes)
    → n ≤ length bytes
    → take (length bytes - (length bytes - n)) (drop (length bytes - n) bytes)
      ≡ drop (length bytes - n) bytes
slice_tail n bytes h =
    let rest = drop (length bytes - n) bytes in
    let e : length bytes - (length bytes - n) ≡ length rest =
      omega (arith, length-drop (length bytes - n) bytes) in
    rw e (take_all rest)

parse_tail_sound :
    (bytes : Bytes) (header_size : ℕ) (packet p : SpaPacket)
    → parse_tail bytes header_size packet ≡ some (ok p)
    → (n : ℕ) × (signature_size packet.mode ≡ some n)
      × (header_size + n ≤ length bytes)
      × (p.signature ≡ drop (length bytes - n) bytes)
unfolding parse_tail
parse_tail_sound bytes header_size packet p h = elim (Option-cases (signature_size packet.mode)) [
  | inl e ↦ absurd (ground arith)
  | inr (n, e) ↦ (n, e, ground arith, ground (arith, slice_tail n bytes))
]

-- The fields that the header gives are kept.
parse_tail_keeps :
    (bytes : Bytes) (header_size : ℕ) (packet p : SpaPacket)
    → parse_tail bytes header_size packet ≡ some (ok p)
    → (p.version ≡ packet.version)
      × (p.mode ≡ packet.mode)
      × (p.client_ip ≡ packet.client_ip)
      × (p.timestamp ≡ packet.timestamp)
      × (p.totp ≡ packet.totp)
unfolding parse_tail
parse_tail_keeps bytes header_size packet p h = ground arith

tail_Accepted :
    (bytes : Bytes) (header_size : ℕ) (packet p : SpaPacket)
    → parse_tail bytes header_size packet ≡ some (ok p)
    → Accepted bytes p
unfolding signed_data
tail_Accepted bytes header_size packet p h =
    let (n, e, fits, s) = parse_tail_sound bytes header_size packet p h in
    let keeps = parse_tail_keeps bytes header_size packet p h in
    let size : length p.signature ≡ n =
      omega (arith, length-drop (length bytes - n) bytes, ap length s) in
    record {
      signed = take (length bytes - n) bytes;
      split = sym (
          ap (λ t. take (length bytes - n) bytes ++ t) s
          ∙ take-append-drop (length bytes - n) bytes);
      signed_lem = rw size (ground arith);
      size = rw (keeps.1, size) e;
    }

-- Version 1 has no address, version 2 one of 16 bytes.
abbrev pub Versioned : SpaPacket → Type 0
Versioned p =
    ((p.version ≡ 1) × (p.client_ip ≡ none))
    ⊎ ((p.version ≡ 2) × ((ip : Bytes) × (p.client_ip ≡ some ip) × (length ip ≡ 16)))

header_v1 :
    (bytes : Bytes) (version mode : ℕ) (p : SpaPacket)
    → parse_header bytes version mode ≡ some (ok p)
    → version ≡ 1
    → 14 ≤ length bytes
    → Accepted bytes p × ((p.version ≡ 1) × (p.client_ip ≡ none))
unfolding parse_header
header_v1 bytes version mode p h e n =
    let packet : SpaPacket = record {
      version = version;
      mode = mode;
      timestamp = be_nat (take 8 (drop 2 bytes));
      totp = be_nat (take 4 (drop 10 bytes));
      client_ip = none;
      signature = [];
      random_data = [];
    } in
    let t : parse_tail bytes 14 packet ≡ some (ok p) = ground arith in
    let keeps = parse_tail_keeps bytes 14 packet p t in
    (tail_Accepted bytes 14 packet p t, (keeps.0 ∙ e, keeps.2))

header_v2 :
    (bytes : Bytes) (version mode : ℕ) (p : SpaPacket)
    → parse_header bytes version mode ≡ some (ok p)
    → version ≢ 1
    → 14 ≤ length bytes
    → Accepted bytes p
      × ((p.version ≡ 2) × ((ip : Bytes) × (p.client_ip ≡ some ip) × (length ip ≡ 16)))
unfolding parse_header
header_v2 bytes version mode p h ne n =
    let ip = take 16 (drop 14 bytes) in
    let packet : SpaPacket = record {
      version = version;
      mode = mode;
      timestamp = be_nat (take 8 (drop 2 bytes));
      totp = be_nat (take 4 (drop 10 bytes));
      client_ip = some ip;
      signature = [];
      random_data = [];
    } in
    let two : version ≡ 2 = ground arith in
    let long : 30 ≤ length bytes = ground arith in
    let t : parse_tail bytes 30 packet ≡ some (ok p) = ground arith in
    let keeps = parse_tail_keeps bytes 30 packet p t in
    let size : length ip ≡ 16 =
      length-take 16 (drop 14 bytes) (omega (arith, length-drop 14 bytes)) in
    (tail_Accepted bytes 30 packet p t, (keeps.0 ∙ two, (ip, keeps.2, size)))

-- What ParseSPAPacket accepts is split into the signed bytes and a signature of the size that
-- belongs to the packet's mode; the version is 1, with no address, or 2, with one of 16 bytes.
pub parse_spa_packet_sound :
    (bytes : Bytes) (p : SpaPacket)
    → parse_spa_packet bytes ≡ some (ok p)
    → Accepted bytes p × Versioned p
unfolding parse_spa_packet
parse_spa_packet_sound [] p h = absurd (ground arith)
parse_spa_packet_sound (v ∷ []) p h = absurd (ground arith)
parse_spa_packet_sound (v ∷ m ∷ rest) p h =
    let bytes = v ∷ m ∷ rest in
    let n : 14 ≤ length bytes = ground arith in
    let h' : parse_header bytes v m ≡ some (ok p) = ground arith in
    elim (ℕ_discrete v 1) [
      | yes e ↦ let (a, o) = header_v1 bytes v m p h' e n in (a, inl o)
      | no e ↦ let (a, o) = header_v2 bytes v m p h' e n in (a, inr o)
    ]

-- The padding, or nothing where there is none.
padding_of :
    (bytes : Bytes) (header_size : ℕ) (padding : Bytes)
    → header_size + length padding ≤ length bytes
    → take (length padding) (drop header_size bytes) ≡ padding
    → (if ltb 0 (length padding)
        then slice header_size (header_size + length padding) bytes
        else some [])
      ≡ some padding
padding_of bytes header_size [] fits e = refl
padding_of bytes header_size (x ∷ xs) fits e =
    let n = length (x ∷ xs) in
    let width : header_size + n - header_size ≡ n = omega arith in
    let pos : ltb 0 n ≡ true = ground arith in
    rw pos
      (slice_total header_size (header_size + n) bytes (omega arith) fits ∙ rw width (ap some e))

-- A packet of which the parts are known is parsed into them.
pub parse_tail_complete :
    (bytes : Bytes) (header_size : ℕ) (packet : SpaPacket) (padding signature : Bytes)
    → signature_size packet.mode ≡ some (length signature)
    → length bytes ≡ header_size + length padding + length signature
    → take (length padding) (drop header_size bytes) ≡ padding
    → drop (length bytes - length signature) bytes ≡ signature
    → parse_tail bytes header_size packet
      ≡ some (ok (record packet { random_data = padding; signature = signature }))
unfolding parse_tail
parse_tail_complete bytes header_size packet padding signature e l tp ts =
    let n = length signature in
    let rest : length bytes - header_size - n ≡ length padding = omega arith in
    let long : ltb (length bytes) (header_size + n) ≡ false = ground arith in
    let random = padding_of bytes header_size padding (omega arith) tp in
    let last : slice (length bytes - n) (length bytes) bytes ≡ some signature =
      slice_total (length bytes - n) (length bytes) bytes (omega arith) (omega arith)
      ∙ ap some (slice_tail n bytes (omega arith) ∙ ts) in
    rw (e, parse_tail) (rw long (rw rest (rw random (rw last))))

-- A version 2 header of which the bytes are there is read, and the rest is parsed.
pub parse_v2 :
    (bytes : Bytes) (mode : ℕ)
    → get_elem? bytes 0 ≡ some 2
    → get_elem? bytes 1 ≡ some mode
    → 30 ≤ length bytes
    → parse_spa_packet bytes
      ≡ parse_tail bytes 30 (record {
        version = 2;
        mode = mode;
        timestamp = be_nat (take 8 (drop 2 bytes));
        totp = be_nat (take 4 (drop 10 bytes));
        client_ip = some (take 16 (drop 14 bytes));
        signature = [];
        random_data = [];
      })
unfolding parse_spa_packet parse_header
parse_v2 bytes mode v m l =
    let short : ltb (length bytes) 14 ≡ false = ground arith in
    let short2 : ltb (length bytes) 30 ≡ false = ground arith in
    rw short (
      rw v (
        rw m (
          rw short2 (
            rw (slice_total 2 10 bytes (omega arith) (omega arith)) (
              rw (slice_total 10 14 bytes (omega arith) (omega arith))
                (rw (slice_total 14 30 bytes (omega arith) (omega arith))))))))
