-- ===== src/Spa/Packet/RoundTrip.antt =====
-- What the two constructors of packet.go build is read back by ParseSPAPacket, and its signature
-- is accepted.
use phantom_grid.Prelude.{
  ℕ, ◌+◌, ◌-◌, ◌<◌, ◌^◌, some, [], ◌++◌, ◌≡◌, refl, ap, ◌∙◌, arith, take, drop, length,
  length-append, take_exact, drop_exact, append_assoc, ok,
}
use phantom_grid.Prelude.Bytes.{Bytes}
use phantom_grid.Prelude.Words.{be_bytes, be_nat, be_nat-be_bytes_four, be_nat-be_bytes_eight}
use phantom_grid.Spa.Packet.Parse.{parse_v2, parse_tail_complete}
use phantom_grid.Spa.Packet.{SpaPacket, packet_header, signature_size, parse_spa_packet}

module _ (mode timestamp totp : ℕ) (ip padding signature : Bytes) where
  abbrev header : Bytes
  header = packet_header mode timestamp totp ip

  -- The bytes that the constructors return.
  abbrev pub assembled : Bytes
  assembled = (header ++ padding) ++ signature

  abbrev pub expected : SpaPacket
  expected = record {
    version = 2;
    mode = mode;
    timestamp = timestamp;
    totp = totp;
    client_ip = some ip;
    signature = signature;
    random_data = padding;
  }

  module _ (size : length ip ≡ 16) where
    length-header : length header ≡ 30
    unfolding packet_header be_bytes
    length-header = omega arith

    length-assembled : length assembled ≡ 30 + length padding + length signature
    length-assembled = omega (
      arith,
      length-append (header ++ padding) signature,
      length-append header padding,
      length-header,
    )

    timestamp_slice : take 8 (drop 2 assembled) ≡ be_bytes 8 timestamp
    unfolding packet_header be_bytes
    timestamp_slice = refl

    totp_slice : take 4 (drop 10 assembled) ≡ be_bytes 4 totp
    unfolding packet_header be_bytes
    totp_slice = refl

    ip_slice : take 16 (drop 14 assembled) ≡ ip
    unfolding packet_header be_bytes
    ip_slice = rw append_assoc (take_exact 16 ip (padding ++ signature) size)

    padding_slice : take (length padding) (drop 30 assembled) ≡ padding
    padding_slice = rw append_assoc (
        rw (drop_exact 30 header (padding ++ signature) length-header)
          (take_exact (length padding) padding signature refl))

    signature_slice : drop (length assembled - length signature) assembled ≡ signature
    signature_slice =
        drop_exact (length assembled - length signature) (header ++ padding) signature
          (omega (arith, length-append (header ++ padding) signature))

    -- The bytes that are built are parsed into the parts that they were built from.
    pub parse-assembled :
        timestamp < 2 ^ 64
        → totp < 2 ^ 32
        → signature_size mode ≡ some (length signature)
        → parse_spa_packet assembled ≡ some (ok expected)
    parse-assembled ht hc e =
        let l = length-assembled in
        let head =
          parse_v2 assembled mode (unfold packet_header in refl) (unfold packet_header in refl)
            (omega arith) in
        let t = ap be_nat timestamp_slice ∙ be_nat-be_bytes_eight timestamp ht in
        let o = ap be_nat totp_slice ∙ be_nat-be_bytes_four totp hc in
        let blank : SpaPacket = record expected { signature = []; random_data = [] } in
        let tail =
          parse_tail_complete assembled 30 blank padding signature e l padding_slice
            signature_slice in
        head ∙ rw (t, o, ip_slice) tail
