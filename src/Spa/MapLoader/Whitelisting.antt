-- ===== src/Spa/MapLoader/Whitelisting.antt =====
-- WhitelistIP and RemoveWhitelistIP on every branch, and the expiry.
use phantom_grid.Prelude.{
  ℕ, ◌+◌, ◌*◌, ◌<◌, Option, none, some, ◌≡◌, refl, arith, ◌⊎◌, inl, inr, Option-cases, ok, err,
}
use phantom_grid.Prelude.Bytes.{Bytes}
use phantom_grid.Prelude.Words.{be_nat, word64}
use phantom_grid.Prelude.Ip.{to4}
use phantom_grid.Spa.MapLoader.{
  BpfOps, IsMap, LoadError, nanoseconds, expiry, put_whitelist, whitelist_ip, remove_whitelist_ip,
  invalid_ipv4, put_failed, delete_failed, whitelist_map_missing,
}

-- The expiry is the time since boot, in nanoseconds, one second more than the duration from now,
-- as long as that is below 2^64.
pub expiry_exact :
    (uptime duration : ℕ)
    → uptime + (duration + 1) * nanoseconds < word64
    → expiry (some uptime) duration ≡ uptime + (duration + 1) * nanoseconds
unfolding expiry
expiry_exact uptime duration h = omega arith

module _ {ops : BpfOps} (lawful : IsMap ops) where
  -- WhitelistIP returns an error and leaves the map as it was, or the address is one of IPv4 and is
  -- found in the map afterwards, with its expiry.
  pub whitelist_ip_total :
      (uptime : Option ℕ) (ip : Bytes) (duration : ℕ) (whitelist : Option ops.Map)
      → ((e : LoadError) × (whitelist_ip ops uptime ip duration whitelist ≡ (err e, whitelist)))
        ⊎ ((m : ops.Map) × (ipv4 : Bytes) × (to4 ip ≡ some ipv4)
            × (whitelist_ip ops uptime ip duration whitelist ≡ (ok tt, some m))
            × (ops.find (be_nat ipv4) m ≡ some (expiry uptime duration)))
  unfolding whitelist_ip put_whitelist
  whitelist_ip_total uptime ip duration none = inl (whitelist_map_missing, refl)
  whitelist_ip_total uptime ip duration (some m) = elim (Option-cases (to4 ip)) [
    | inl bad ↦ inl (invalid_ipv4, rw (bad, whitelist_ip) refl)
    | inr (ipv4, good) ↦ elim (Option-cases (ops.put (be_nat ipv4) (expiry uptime duration) m)) [
      | inl full ↦
          inl (put_failed (be_nat ipv4), rw (good, whitelist_ip) (rw (full, put_whitelist) refl))
      | inr (m', put) ↦ inr (
        m',
        ipv4,
        good,
        rw (good, whitelist_ip) (rw (put, put_whitelist) refl),
        lawful.find-put (be_nat ipv4) (expiry uptime duration) m m' put,
      )
    ]
  ]

  -- RemoveWhitelistIP returns an error and leaves the map as it was, or the address is one of IPv4
  -- and is not found in the map afterwards.
  pub remove_whitelist_ip_total :
      (ip : Bytes) (whitelist : Option ops.Map)
      → ((e : LoadError) × (remove_whitelist_ip ops ip whitelist ≡ (err e, whitelist)))
        ⊎ ((m : ops.Map) × (ipv4 : Bytes) × (to4 ip ≡ some ipv4)
            × (remove_whitelist_ip ops ip whitelist ≡ (ok tt, some m))
            × (ops.find (be_nat ipv4) m ≡ none))
  unfolding remove_whitelist_ip
  remove_whitelist_ip_total ip none = inl (whitelist_map_missing, refl)
  remove_whitelist_ip_total ip (some m) = elim (Option-cases (to4 ip)) [
    | inl bad ↦ inl (invalid_ipv4, rw (bad, remove_whitelist_ip) refl)
    | inr (ipv4, good) ↦ elim (Option-cases (ops.remove (be_nat ipv4) m)) [
      | inl missing ↦
          inl
            (delete_failed, rw (good, remove_whitelist_ip) (rw (missing, remove_whitelist_ip) refl))
      | inr (m', removed) ↦ inr (
        m',
        ipv4,
        good,
        rw (good, remove_whitelist_ip) (rw (removed, remove_whitelist_ip) refl),
        lawful.find-remove (be_nat ipv4) m m' removed,
      )
    ]
  ]
