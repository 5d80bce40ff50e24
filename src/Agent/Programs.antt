-- ===== src/Agent/Programs.antt =====
-- internal/ebpf/loader.go. What the kernel and cilium/ebpf answer is a parameter.
use phantom_grid.Prelude.{ℕ, Bool, true, false, Option, none, some, if◌then◌else◌, Result, ok, err}

-- Whether the calls succeed.
pub record Kernel : Type 0 where
  pub removes_memlock : Bool
  pub loads_phantom : Bool
  pub loads_egress : Bool
  pub attaches_xdp : ℕ → Bool
  pub closes_link : Bool

pub data LoaderError : Type 0 where
  memlock_failed phantom_failed egress_failed xdp_failed link_failed : LoaderError

-- The loader: whether the objects are open, and the interface to which the program is attached by
-- the link that the loader holds.
pub record Loader : Type 0 where
  pub phantom_objs : Bool
  pub egress_objs : Bool
  pub xdp_link : Option ℕ

module _ (kernel : Kernel) where
  unfoldable pub new_loader : Result LoaderError Loader
  new_loader =
      if kernel.removes_memlock
      then (if kernel.loads_phantom
          then ok (record { phantom_objs = true; egress_objs = false; xdp_link = none })
          else err phantom_failed)
      else err memlock_failed

  unfoldable pub load_egress : Loader → Result LoaderError (Unit {0}) × Loader
  load_egress l =
      if kernel.loads_egress
      then (ok tt, record l { egress_objs = true })
      else (err egress_failed, l)

  unfoldable pub attach_xdp : ℕ → Loader → Result LoaderError (Unit {0}) × Loader
  attach_xdp index l =
      if kernel.attaches_xdp index
      then (ok tt, record l { xdp_link = some index })
      else (err xdp_failed, l)

  -- Close: a link that does not close keeps the objects open.
  unfoldable pub close_loader : Loader → Result LoaderError (Unit {0}) × Loader
  close_loader l =
      let closed : Loader = record { phantom_objs = false; egress_objs = false; xdp_link = none } in
      elim l.xdp_link [
        | none ↦ (ok tt, closed)
        | some index ↦ if kernel.closes_link then (ok tt, closed) else (err link_failed, l)
      ]
