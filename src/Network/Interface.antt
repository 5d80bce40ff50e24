-- ===== src/Network/Interface.antt =====
-- internal/network/interface.go: the choice of the network interface. The interfaces of the system
-- are a list, and net.InterfaceByName is a function; what is logged is left out.
pub mod Choice
use phantom_grid.Prelude.{
  ℕ, Bool, true, false, not, ◌&&◌, ◌||◌, Option, none, some, List, [], ◌∷◌, ltb, if◌then◌else◌,
  is_empty, Result, ok, err,
}
use phantom_grid.Prelude.Bytes.{Bytes, codes, has_prefix}

-- A net.Interface, with the number of its addresses.
pub record NetInterface : Type 0 where
  pub name : Bytes
  pub index : ℕ
  pub addresses : ℕ
  pub loopback : Bool

pub record System : Type 0 where
  pub interfaces : List NetInterface
  pub by_name : Bytes → Option NetInterface

pub data DetectError : Type 0 where
  not_found none_suitable : DetectError

-- An address, and no loopback.
unfoldable pub is_usable : NetInterface → Bool
is_usable i = ltb 0 i.addresses && not i.loopback

unfoldable pub is_wifi : NetInterface → Bool
is_wifi i =
    has_prefix i.name (codes "wlx")
    || (has_prefix i.name (codes "wlan") || has_prefix i.name (codes "wlp"))

abbrev pub interface_names : List Bytes
interface_names =
    codes "wlx00127b2163a6"
    ∷ codes "wlan0"
    ∷ codes "ens33"
    ∷ codes "eth0"
    ∷ codes "enp0s3"
    ∷ codes "enp0s8"
    ∷ codes "enp0s9"
    ∷ codes "eth1"
    ∷ []

-- The first WiFi interface that can be used.
unfoldable pub find_wifi : List NetInterface → Option NetInterface
find_wifi [] = none
find_wifi (i ∷ is) =
    let rest = find_wifi is in if is_wifi i then (if is_usable i then some i else rest) else rest

-- The part of a look at a name behind net.InterfaceByName.
abbrev pub use_or :
    Option NetInterface → Bytes → Option (NetInterface × Bytes) → Option (NetInterface × Bytes)
use_or none name rest = rest
use_or (some i) name rest = if is_usable i then some (i, name) else rest

module _ (system : System) where
  unfoldable pub get_interface_by_name : Bytes → Result DetectError (NetInterface × Bytes)
  get_interface_by_name name = elim (system.by_name name) [
    | none ↦ err not_found
    | some i ↦ ok (i, name)
  ]

  unfoldable pub find_named : List Bytes → Option (NetInterface × Bytes)
  find_named [] = none
  find_named (name ∷ names) = let rest = find_named names in use_or (system.by_name name) name rest

  abbrev pub or_loopback : Option NetInterface → Result DetectError (NetInterface × Bytes)
  or_loopback none = err none_suitable
  or_loopback (some i) = ok (i, codes "lo")

  abbrev pub or_named : Option (NetInterface × Bytes) → Result DetectError (NetInterface × Bytes)
  or_named (some found) = ok found
  or_named none = or_loopback (system.by_name (codes "lo"))

  abbrev pub or_wifi : Option NetInterface → Result DetectError (NetInterface × Bytes)
  or_wifi (some i) = ok (i, i.name)
  or_wifi none = or_named (find_named interface_names)

  unfoldable pub auto_detect_interface : Result DetectError (NetInterface × Bytes)
  auto_detect_interface = or_wifi (find_wifi system.interfaces)

  unfoldable pub detect_interface : Bytes → Result DetectError (NetInterface × Bytes)
  detect_interface specified =
      if not (is_empty specified) then get_interface_by_name specified else auto_detect_interface
