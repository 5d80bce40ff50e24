-- ===== src/Spa/Handler/Whitelist.antt =====
-- Which datagrams change the whitelist, and how.
use mathlib.Core.Path.{subst}
use phantom_grid.Prelude.{
  ℕ, false, Option, none, some, [], ◌∷◌, ◌≡◌, refl, sym, ap, ◌∙◌, arith, ◌⊎◌, inl, inr, >>=-eq-some,
  Bool-cases, Option-cases, Result, ok, err,
}
use phantom_grid.Prelude.Bytes.{Bytes, bytes_eq_refl}
use phantom_grid.Prelude.Words.{be_nat}
use phantom_grid.Prelude.Ip.{to4}
use phantom_grid.Spa.Crypto.{Crypto}
use phantom_grid.Spa.Packet.{SpaPacket, ParseError, parse_spa_packet}
use phantom_grid.Spa.Verifier.{SeenCache, Verdict, verify_packet}
use phantom_grid.Spa.MapLoader.{BpfOps, IsMap, expiry, put_whitelist, whitelist_ip}
use phantom_grid.Spa.Handler.{
  HandlerConfig, HandlerState, log, is_version_byte, is_static_packet, ip_bytes, finish_packet,
  judge, handle_parsed, note_packet, process_packet,
}

module _ (c : Crypto) (ops : BpfOps) (h : HandlerConfig) where
  -- The whitelist is as it was, or VerifyPacket accepted the bytes from this sender and the
  -- sender's IPv4 address was put with its expiry.
  abbrev pub Justified :
      Option ℕ → (ℕ → ℕ) → Bytes → Option Bytes → HandlerState c ops → HandlerState c ops → Type 0
  Justified uptime clock bytes ip s s' =
      (s'.whitelist ≡ s.whitelist)
      ⊎ ((verify_packet c h.spa_config bytes ip clock s.cache ≡ some (ok tt, s'.cache))
          × ((m m' : ops.Map) × (ipv4 : Bytes) × (to4 (ip_bytes ip) ≡ some ipv4)
              × (s.whitelist ≡ some m)
              × (s'.whitelist ≡ some m')
              × (ops.put (be_nat ipv4) (expiry uptime h.spa_config.replay_window_seconds) m
                  ≡ some m')))

module _ (ops : BpfOps) where
  abbrev Put : Option ℕ → Bytes → ℕ → Option ops.Map → Option ops.Map → Type 0
  Put uptime ip duration before after =
      (m m' : ops.Map) × (ipv4 : Bytes) × (to4 ip ≡ some ipv4)
      × (before ≡ some m)
      × (after ≡ some m')
      × (ops.put (be_nat ipv4) (expiry uptime duration) m ≡ some m')

  whitelist_ip_effect :
      (uptime : Option ℕ) (ip : Bytes) (duration : ℕ) (whitelist : Option ops.Map)
      → ((whitelist_ip ops uptime ip duration whitelist).1 ≡ whitelist)
        ⊎ Put uptime ip duration whitelist (whitelist_ip ops uptime ip duration whitelist).1
  unfolding whitelist_ip put_whitelist
  whitelist_ip_effect uptime ip duration none = inl refl
  whitelist_ip_effect uptime ip duration (some m) = elim (Option-cases (to4 ip)) [
    | inl bad ↦ inl (rw (bad, whitelist_ip))
    | inr (ipv4, good) ↦ elim (Option-cases (ops.put (be_nat ipv4) (expiry uptime duration) m)) [
      | inl full ↦ inl (rw (good, whitelist_ip) (rw (full, put_whitelist)))
      | inr (m', put) ↦
          inr (m, m', ipv4, good, refl, rw (good, whitelist_ip) (rw (put, put_whitelist)), put)
    ]
  ]

module _ (c : Crypto) (ops : BpfOps) (h : HandlerConfig) where
  -- Messages change neither the cache nor the whitelist.
  finish_packet_effect :
      (uptime : Option ℕ) (ip : Option Bytes) (packet : SpaPacket) (s : HandlerState c ops)
      → ((finish_packet c ops h uptime ip packet s).cache ≡ s.cache)
        × ((finish_packet c ops h uptime ip packet s).whitelist
            ≡ (whitelist_ip ops uptime
                (ip_bytes ip)
                h.spa_config.replay_window_seconds
                s.whitelist).1)
  unfolding finish_packet log
  finish_packet_effect uptime ip packet s = ground arith

  judge_effect :
      (uptime : Option ℕ) (clock : ℕ → ℕ) (bytes : Bytes) (ip : Option Bytes) (packet : SpaPacket)
      (s : HandlerState c ops) (r : Verdict × SeenCache)
      → verify_packet c h.spa_config bytes ip clock s.cache ≡ some r
      → Justified c ops h uptime clock bytes ip s (judge c ops h uptime ip packet s r)
  unfolding judge log
  judge_effect uptime clock bytes ip packet s (err e, cache) v = inl refl
  judge_effect uptime clock bytes ip packet s (ok u, cache) v =
      let next = record s { cache = cache } in
      let (same, list) = finish_packet_effect uptime ip packet next in
      elim (whitelist_ip_effect ops uptime (ip_bytes ip) h.spa_config.replay_window_seconds
        s.whitelist) [
          | inl l ↦ inl (list ∙ l)
          | inr (m, m', ipv4, good, before, after, put) ↦ inr (
            v ∙ ap (λ k. some (ok tt, k)) (sym same),
            (m, m', ipv4, good, before, list ∙ after, put),
          )
        ]

  handle_parsed_effect :
      (uptime : Option ℕ) (clock : ℕ → ℕ) (bytes : Bytes) (ip : Option Bytes)
      (s s' : HandlerState c ops) (r : Result ParseError SpaPacket)
      → handle_parsed c ops h uptime clock bytes ip s r ≡ some s'
      → Justified c ops h uptime clock bytes ip s s'
  unfolding handle_parsed log
  handle_parsed_effect uptime clock bytes ip s s' (err e) q = inl (ground arith)
  handle_parsed_effect uptime clock bytes ip s s' (ok packet) q =
      let (verdict, v, q') =
        >>=-eq-some (verify_packet c h.spa_config bytes ip clock s.cache) _ q in
      let same : judge c ops h uptime ip packet s verdict ≡ s' = cc in
      subst (Justified c ops h uptime clock bytes ip s) same
        (judge_effect uptime clock bytes ip packet s verdict v)

  note_packet-Justified :
      (uptime : Option ℕ) (clock : ℕ → ℕ) (bytes : Bytes) (ip : Option Bytes)
      (s s' : HandlerState c ops)
      → Justified c ops h uptime clock bytes ip (note_packet c ops h bytes ip s) s'
      → Justified c ops h uptime clock bytes ip s s'
  unfolding note_packet log
  note_packet-Justified uptime clock [] ip s s' j = j
  note_packet-Justified uptime clock (b ∷ bs) ip s s' j = j

  -- Whatever the datagram, processPacket leaves the whitelist as it was, or VerifyPacket has
  -- accepted the datagram from its sender and the sender's IPv4 address was put into the whitelist
  -- with its expiry.
  pub process_packet-Justified :
      (uptime : Option ℕ) (clock : ℕ → ℕ) (bytes : Bytes) (ip : Option Bytes)
      (s s' : HandlerState c ops)
      → process_packet c ops h uptime clock bytes ip s ≡ some s'
      → Justified c ops h uptime clock bytes ip s s'
  unfolding process_packet
  process_packet-Justified uptime clock bytes ip s s' q =
      elim (Bool-cases (is_static_packet h bytes)) [
        | inl static ↦ let same : s ≡ s' = ground arith in inl (ap (λ t. t.whitelist) (sym same))
        | inr dynamic ↦
            let noted = note_packet c ops h bytes ip s in
            let (r, _, q') =
              >>=-eq-some (parse_spa_packet bytes)
                (handle_parsed c ops h uptime clock bytes ip noted) (rw dynamic at q) in
            note_packet-Justified uptime clock bytes ip s s'
              (handle_parsed_effect uptime clock bytes ip noted s' r q')
      ]

  -- A datagram that is the static token changes nothing, if the token does not begin with the byte
  -- 1 or 2.
  pub process_packet_static :
      (uptime : Option ℕ) (clock : ℕ → ℕ) (ip : Option Bytes) (s : HandlerState c ops)
      → is_version_byte h.static_token ≡ false
      → process_packet c ops h uptime clock h.static_token ip s ≡ some s
  unfolding process_packet is_static_packet
  process_packet_static uptime clock ip s e = ground (arith, bytes_eq_refl h.static_token)

  note_packet_keeps :
      (bytes : Bytes) (ip : Option Bytes) (s : HandlerState c ops)
      → ((note_packet c ops h bytes ip s).cache ≡ s.cache)
        × ((note_packet c ops h bytes ip s).whitelist ≡ s.whitelist)
  unfolding note_packet log
  note_packet_keeps [] ip s = (refl, refl)
  note_packet_keeps (b ∷ bs) ip s = (refl, refl)

  handle_parsed_accepts :
      (uptime : Option ℕ) (clock : ℕ → ℕ) (bytes : Bytes) (ip : Option Bytes)
      (s : HandlerState c ops) (cache : SeenCache) (packet : SpaPacket)
      → verify_packet c h.spa_config bytes ip clock s.cache ≡ some (ok tt, cache)
      → handle_parsed c ops h uptime clock bytes ip s (ok packet)
        ≡ some (finish_packet c ops h uptime ip packet (record s { cache = cache }))
  unfolding handle_parsed judge
  handle_parsed_accepts uptime clock bytes ip s cache packet v = rw v

  whitelist_ip_puts :
      (uptime : Option ℕ) (ip ipv4 : Bytes) (duration : ℕ) (whitelist : Option ops.Map)
      (m m' : ops.Map)
      → whitelist ≡ some m
      → to4 ip ≡ some ipv4
      → ops.put (be_nat ipv4) (expiry uptime duration) m ≡ some m'
      → (whitelist_ip ops uptime ip duration whitelist).1 ≡ some m'
  unfolding whitelist_ip put_whitelist
  whitelist_ip_puts uptime ip ipv4 duration whitelist m m' w good put =
      rw w (rw (good, whitelist_ip) (rw (put, put_whitelist)))

  -- An IPv4 address whose packet VerifyPacket accepts is in the whitelist afterwards, with its
  -- expiry, if the whitelist map is there and takes the entry and the packet is not the static
  -- token.
  pub process_packet_whitelists :
      (lawful : IsMap ops) (uptime : Option ℕ) (clock : ℕ → ℕ) (bytes ip ipv4 : Bytes)
      (s : HandlerState c ops) (cache : SeenCache) (packet : SpaPacket) (m m' : ops.Map)
      → is_static_packet h bytes ≡ false
      → parse_spa_packet bytes ≡ some (ok packet)
      → verify_packet c h.spa_config bytes (some ip) clock s.cache ≡ some (ok tt, cache)
      → to4 ip ≡ some ipv4
      → s.whitelist ≡ some m
      → ops.put (be_nat ipv4) (expiry uptime h.spa_config.replay_window_seconds) m ≡ some m'
      → (s' : HandlerState c ops) × (process_packet c ops h uptime clock bytes (some ip) s
          ≡ some s')
        × (s'.cache ≡ cache)
        × (s'.whitelist ≡ some m')
        × (ops.find (be_nat ipv4) m' ≡ some (expiry uptime h.spa_config.replay_window_seconds))
  unfolding process_packet ip_bytes
  process_packet_whitelists lawful uptime clock bytes ip ipv4 s cache packet m m' dynamic parsed v
        good w put =
      let noted = note_packet c ops h bytes (some ip) s in
      let (nc, nw) = note_packet_keeps bytes (some ip) s in
      let next = record noted { cache = cache } in
      let s' = finish_packet c ops h uptime (some ip) packet next in
      let (fc, fw) = finish_packet_effect uptime (some ip) packet next in
      let run =
        handle_parsed_accepts uptime clock bytes (some ip) noted cache packet
          (ap (verify_packet c h.spa_config bytes (some ip) clock) nc ∙ v) in
      (
        s',
        rw dynamic (rw parsed run),
        fc,
        fw
            ∙ whitelist_ip_puts uptime ip ipv4 h.spa_config.replay_window_seconds noted.whitelist m
                m' (nw ∙ w) good put,
        lawful.find-put _ _ m m' put,
      )
