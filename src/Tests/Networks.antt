-- ===== src/Tests/Networks.antt =====
-- The theorem on the network interfaces at a concrete input.
use phantom_grid.Prelude.{true, false, none, [], ◌∷◌, ◌≡◌, refl, ◌⊎◌}
use phantom_grid.Prelude.Bytes.{codes, has_prefix}
use phantom_grid.Network.Interface.{
  NetInterface, System, is_usable, is_wifi, find_wifi, auto_detect_interface,
}
use phantom_grid.Network.Interface.Choice.{FallsBack, auto_detect_interface_sound}

abbrev wlan : NetInterface
wlan = record { name = codes "wlp2s0"; index = 3; addresses = 1; loopback = false }

abbrev system : System
system = record { interfaces = wlan ∷ []; by_name = λ name. none }

auto_detect_interface_sound_example :
    (is_usable wlan ≡ true) ⊎ FallsBack system (wlan, codes "wlp2s0")
unfolding auto_detect_interface find_wifi is_wifi is_usable has_prefix
auto_detect_interface_sound_example = auto_detect_interface_sound system (wlan, codes "wlp2s0") refl
