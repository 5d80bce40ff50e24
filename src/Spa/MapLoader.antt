-- ===== src/Spa/MapLoader.antt =====
-- internal/spa/map_loader.go. The eBPF maps and /proc/uptime are outside of the repository: the
-- map operations are a parameter, and the uptime is an argument.
pub mod Whitelisting
use phantom_grid.Prelude.{
  ℕ, ◌+◌, ◌*◌, ◌%◌, ◌^◌, ◌≡◌, ◌≢◌, Option, none, some, List, [], ◌∷◌, if◌then◌else◌, ltb, length,
  Result, ok, err,
}
use phantom_grid.Prelude.Bytes.{Bytes}
use phantom_grid.Prelude.Words.{be_nat, word64}
use phantom_grid.Prelude.Ip.{to4}
use phantom_grid.Config.Spa.{SpaMode, static, dynamic, asymmetric, other, DynamicSpaConfig}

-- github.com/cilium/ebpf: a map from numbers to numbers. `none` is an error.
pub record BpfOps : Type 1 where
  pub Map : Type 0
  pub put : ℕ → ℕ → Map → Option Map
  pub remove : ℕ → Map → Option Map
  pub find : ℕ → Map → Option ℕ

-- What the map type promises: a value that was put is found, one that was removed is not, and no
-- operation brings in another entry (it may evict one).
pub record IsMap (ops : BpfOps) : Type 0 where
  pub find-put : (k v : ℕ) (m m' : ops.Map) → ops.put k v m ≡ some m' → ops.find k m' ≡ some v
  pub find-put_ne :
      (k v j w : ℕ) (m m' : ops.Map)
      → ops.put k v m ≡ some m'
      → j ≢ k
      → ops.find j m' ≡ some w
      → ops.find j m ≡ some w
  pub find-remove : (k : ℕ) (m m' : ops.Map) → ops.remove k m ≡ some m' → ops.find k m' ≡ none

-- The errors of the loader, with the number of the key where one is named.
pub data LoadError : Type 0 where
  config_map_missing whitelist_map_missing invalid_ipv4 : LoadError
  secret_too_long : ℕ → LoadError
  put_failed : ℕ → LoadError
  delete_failed : LoadError

-- getSPAModeValue
unfoldable pub spa_mode_value : SpaMode → ℕ
spa_mode_value static = 0
spa_mode_value dynamic = 1
spa_mode_value asymmetric = 2
spa_mode_value (other _) = 0

abbrev pub nanoseconds : ℕ
nanoseconds = 1000000000

-- The expiry in nanoseconds since boot, on `uint64`. `uptime` is the uptime in nanoseconds, or
-- `none` where /proc/uptime cannot be read.
unfoldable pub expiry : Option ℕ → ℕ → ℕ
expiry none duration = (1000000000000000000 + duration * nanoseconds % word64) % word64
expiry (some uptime) duration =
    ((uptime + duration * nanoseconds % word64) % word64 + nanoseconds) % word64

module _ (ops : BpfOps) where
  open ops use {Map, put, remove}

  -- The maps that the loader holds; a nil map is `none`.
  pub record MapLoader : Type 0 where
    pub whitelist_map : Option Map
    pub replay_map : Option Map
    pub totp_secret_map : Option Map
    pub hmac_secret_map : Option Map
    pub config_map : Option Map

  -- Puts under the keys from `i` on; what was put before an error stays.
  unfoldable pub put_bytes : ℕ → Bytes → Map → Result LoadError (Unit {0}) × Map
  put_bytes i [] m = (ok tt, m)
  put_bytes i (b ∷ bs) m = elim (put i b m) [
    | none ↦ (err (put_failed i), m)
    | some m' ↦ put_bytes (i + 1) bs m'
  ]

  -- loadTOTPSecret and loadHMACSecret, which differ in their map only.
  unfoldable pub load_secret : Bytes → Map → Result LoadError (Unit {0}) × Map
  load_secret secret m =
      if ltb 32 (length secret)
      then (err (secret_too_long (length secret)), m)
      else put_bytes 0 secret m

  -- A secret is loaded where there is a map for it and it is not empty.
  unfoldable pub load_if_present : Bytes → Option Map → Result LoadError (Unit {0}) × Option Map
  load_if_present secret none = (ok tt, none)
  load_if_present [] (some m) = (ok tt, some m)
  load_if_present (b ∷ bs) (some m) = let (r, m') = load_secret (b ∷ bs) m in (r, some m')

  unfoldable pub put_entries : List (ℕ × ℕ) → Map → Result LoadError (Unit {0}) × Map
  put_entries [] m = (ok tt, m)
  put_entries ((k, v) ∷ entries) m = elim (put k v m) [
    | none ↦ (err (put_failed k), m)
    | some m' ↦ put_entries entries m'
  ]

  -- The configuration values by key, as `uint32`.
  unfoldable pub config_values : DynamicSpaConfig → List (ℕ × ℕ)
  config_values config =
      (0, config.totp_time_step % 2 ^ 32)
      ∷ (1, config.totp_tolerance % 2 ^ 32)
      ∷ (2, config.replay_window_seconds % 2 ^ 32)
      ∷ (3, spa_mode_value config.mode)
      ∷ []

  -- The last part of LoadConfiguration; `order` is the order in which Go ranges over its map.
  unfoldable pub load_values :
      (List (ℕ × ℕ) → List (ℕ × ℕ))
      → DynamicSpaConfig
      → Option Map
      → Result LoadError (Unit {0}) × Option Map
  load_values order config none = (err config_map_missing, none)
  load_values order config (some m) =
      let (r, m') = put_entries (order (config_values config)) m in (r, some m')

  load_hmac_and_values :
      (List (ℕ × ℕ) → List (ℕ × ℕ))
      → DynamicSpaConfig
      → MapLoader
      → Result LoadError (Unit {0}) × MapLoader
  load_hmac_and_values order config ml =
      let (r, hmac) = load_if_present config.hmac_secret ml.hmac_secret_map in
      let ml' = record ml { hmac_secret_map = hmac } in
      elim r [
        | err e ↦ (err e, ml')
        | ok _ ↦
            let (s, values) = load_values order config ml.config_map in
            (s, record ml' { config_map = values })
      ]

  -- LoadConfiguration
  unfoldable pub load_configuration :
      (List (ℕ × ℕ) → List (ℕ × ℕ))
      → DynamicSpaConfig
      → MapLoader
      → Result LoadError (Unit {0}) × MapLoader
  unfolding load_hmac_and_values
  load_configuration order config ml = elim ml.config_map [
    | none ↦ (err config_map_missing, ml)
    | some _ ↦
        let (r, totp) = load_if_present config.totp_secret ml.totp_secret_map in
        let ml' = record ml { totp_secret_map = totp } in
        elim r [ err e ↦ (err e, ml') | ok _ ↦ load_hmac_and_values order config ml' ]
  ]

  unfoldable pub put_whitelist : Option ℕ → ℕ → Bytes → Map → Result LoadError (Unit {0}) × Map
  put_whitelist uptime duration ipv4 m = elim (put (be_nat ipv4) (expiry uptime duration) m) [
    | none ↦ (err (put_failed (be_nat ipv4)), m)
    | some m' ↦ (ok tt, m')
  ]

  -- WhitelistIP on the whitelist map.
  unfoldable pub whitelist_ip :
      Option ℕ → Bytes → ℕ → Option Map → Result LoadError (Unit {0}) × Option Map
  whitelist_ip uptime ip duration none = (err whitelist_map_missing, none)
  whitelist_ip uptime ip duration (some m) = elim (to4 ip) [
    | none ↦ (err invalid_ipv4, some m)
    | some ipv4 ↦ let (r, m') = put_whitelist uptime duration ipv4 m in (r, some m')
  ]

  -- RemoveWhitelistIP on the whitelist map.
  unfoldable pub remove_whitelist_ip : Bytes → Option Map → Result LoadError (Unit {0}) × Option Map
  remove_whitelist_ip ip none = (err whitelist_map_missing, none)
  remove_whitelist_ip ip (some m) = elim (to4 ip) [
    | none ↦ (err invalid_ipv4, some m)
    | some ipv4 ↦ elim (remove (be_nat ipv4) m) [
      | none ↦ (err delete_failed, some m)
      | some m' ↦ (ok tt, some m')
    ]
  ]
