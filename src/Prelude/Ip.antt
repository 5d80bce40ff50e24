-- ===== src/Prelude/Ip.antt =====
-- What the source uses of net.IP. An address is its slice of bytes; the nil slice is empty.

use mathlib.Core.Path.{◌≡◌}
use mathlib.Core.Bool.{◌&&◌}
use mathlib.Core.List.{[], ◌∷◌, ◌++◌}
use mathlib.Core.Option.{Option, none, some}
use native.Mathlib.Omega.{arith}
use phantom_grid.Prelude.Tests.{◌==◌, if◌then◌else◌}
use phantom_grid.Prelude.Lists.{length, take, drop, length-append}
use phantom_grid.Prelude.Bytes.{Bytes, bytes_eq}

-- The first twelve bytes of an IPv4 address in 16-byte form.
abbrev pub v4_prefix : Bytes
v4_prefix = 0 ∷ 0 ∷ 0 ∷ 0 ∷ 0 ∷ 0 ∷ 0 ∷ 0 ∷ 0 ∷ 0 ∷ 0xff ∷ 0xff ∷ []

-- ip.To16()
unfoldable pub to16 : Bytes → Option Bytes
to16 ip =
    if length ip == 4 then some (v4_prefix ++ ip) else if length ip == 16 then some ip else none

-- ip.To4()
unfoldable pub to4 : Bytes → Option Bytes
to4 ip =
    if length ip == 4
    then some ip
    else if length ip == 16 && bytes_eq (take 12 ip) v4_prefix
    then some (drop 12 ip)
    else none

-- net.IPv4zero.To16()
abbrev pub ipv4_zero : Bytes
ipv4_zero = v4_prefix ++ (0 ∷ 0 ∷ 0 ∷ 0 ∷ [])

pub length-to16 : (ip : Bytes) {full : Bytes} → to16 ip ≡ some full → length full ≡ 16
unfolding to16
length-to16 ip h = ground (arith, length-append v4_prefix ip)
