-- ===== src/Registry/Promises.antt =====
-- What is promised of an instance that is registered, and of one that is swept, field by field.
use distributed_service_mesh.Base.Int.{negsuc, max_int64, pos, ltb_ℤ}
use distributed_service_mesh.Registry.Ops.{overdue, swept, mark, stamped}
use distributed_service_mesh.Base.{
  refl, ◌+◌, inr, arith, inl, ap, false, ltb, ◌&&◌, Bool-cases, Bool, if◌then◌else◌, true, ◌≡◌,
}
use distributed_service_mesh.Registry.Types.{since, Instance, Time, Duration}

-- The instance as given, marked healthy, with the time of the registration as both of its times.
abbrev pub recorded : Instance → Time → Instance
recorded inst now = record {
  service_name = inst.service_name;
  namespace = inst.namespace;
  instance_id = inst.instance_id;
  address = inst.address;
  port = inst.port;
  protocol = inst.protocol;
  version = inst.version;
  metadata = inst.metadata;
  healthy = true;
  registered_at = now;
  last_heartbeat = now;
}

pub stamped-recorded : (inst : Instance) (now : Time) → stamped inst now ≡ recorded inst now
unfolding stamped
stamped-recorded inst now = elim (Bool-cases inst.healthy) [
  | inl up ↦ rw up refl
  | inr down ↦ rw down refl
]

-- The clock reads more than the bound past the last heartbeat. A bound of the largest int64 or more
-- is never passed, and one that is not positive sweeps nothing.
unfoldable pub lapsed : Duration → Time → Instance → Bool
lapsed (pos n) now inst = ltb 0 n && ltb n max_int64 && ltb (inst.last_heartbeat + n) now
lapsed (negsuc n) now inst = false

-- A healthy instance that has lapsed is unhealthy after the sweep, and any other as it was.
unfoldable pub demoted : Duration → Time → Instance → Instance
unfolding lapsed
demoted stale_after now inst =
    if inst.healthy && lapsed stale_after now inst then record inst { healthy = false } else inst

pub swept-lapsed :
    (stale_after : Duration) (now : Time) (inst : Instance)
    → ltb_ℤ (pos 0) stale_after ≡ true
    → swept stale_after now inst ≡ (inst.healthy && lapsed stale_after now inst)
unfolding swept overdue since lapsed
swept-lapsed (pos n) now inst on = ground (arith, on)
swept-lapsed (negsuc n) now inst on = absurd (ground (arith, on))

pub mark-demoted :
    (stale_after : Duration) (now : Time) (inst : Instance)
    → ltb_ℤ (pos 0) stale_after ≡ true
    → mark stale_after now inst ≡ demoted stale_after now inst
unfolding mark demoted
mark-demoted stale_after now inst on =
    ap (λ b. if b then record inst { healthy = false } else inst)
      (swept-lapsed stale_after now inst on)

-- Where nothing is swept, nothing lapses.
pub demoted-off :
    (stale_after : Duration) (now : Time) (inst : Instance)
    → ltb_ℤ (pos 0) stale_after ≡ false
    → demoted stale_after now inst ≡ inst
unfolding demoted lapsed
demoted-off (pos n) now inst off = ground (arith, off)
demoted-off (negsuc n) now inst off = ground arith
