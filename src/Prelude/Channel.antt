-- ===== src/Prelude/Channel.antt =====
-- A buffered Go channel, seen by its senders: what is queued, and its capacity.
use Prim.Native.Nat.{ℕ, ◌≤◌}
use mathlib.Core.List.{List, [], ◌∷◌, ◌++◌}
use native.Mathlib.Omega.{arith}
use phantom_grid.Prelude.Tests.{ltb, if◌then◌else◌}
use phantom_grid.Prelude.Lists.{length, length-append}

pub record Channel {ℓ} (A : Type ℓ) : Type ℓ where
  pub queue : List A
  pub capacity : ℕ

module _ {ℓ} {A : Type ℓ} where
  -- select { case ch <- x: default: }
  unfoldable pub try_send : A → Channel A → Channel A
  try_send x ch =
      if ltb (length ch.queue) ch.capacity then record ch { queue = ch.queue ++ x ∷ [] } else ch

  -- A send that does not block never passes the capacity.
  pub try_send_bound :
      (x : A) (ch : Channel A)
      → length ch.queue ≤ ch.capacity
      → length (try_send x ch).queue ≤ (try_send x ch).capacity
  unfolding try_send
  try_send_bound x ch h = ground (arith, length-append ch.queue (x ∷ []))
