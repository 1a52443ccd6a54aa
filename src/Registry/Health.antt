-- ===== src/Registry/Health.antt =====
-- Staleness: when an instance counts as healthy, what a sweep changes, and what a heartbeat gives.
use distributed_service_mesh.Base.Sort.{find, sort_by}
use distributed_service_mesh.Base.Sort.Filter.{only}
use distributed_service_mesh.Registry.Reads.{healthy_instances_unique}
use distributed_service_mesh.Registry.View.{
  lookup-heartbeat, lookup-sweep_stale, at, refreshed, lookup,
}
use distributed_service_mesh.Base.Int.{pos, max_int64, ltb_ℤ}
use distributed_service_mesh.Registry.Validity.{heartbeat-IsValid, sweep_stale-IsValid, IsValid}
use distributed_service_mesh.Base.Dict.{Dict}
use distributed_service_mesh.Registry.Listing.{find-healthy_instances, id_of, fresh}
use distributed_service_mesh.Registry.Types.{key, Instance, InMemory, Members, Time, Duration}
use distributed_service_mesh.Base.Text.{text_eq_refl, Text}
use distributed_service_mesh.Registry.Ops.{
  swept, heartbeat, mark, healthy_instances, sweep_members, sweep_svcs, sweep_stale, transitions,
  transitions_svcs,
}
use mathlib.Core.Option
use distributed_service_mesh.Base.{
  ap, ◌∷◌, if◌then◌else◌, ◌∙◌, none, arith, refl, inr, ◌+◌, ◌≤◌, leb, some, ◌&&◌, inl, true,
  Bool-cases, ◌<◌, [], Option, ℕ, ◌≡◌,
}

-- With a positive bound of `n` nanoseconds below the largest int64, an instance is fresh exactly if
-- it is marked healthy and the clock reads at most `n` past its last heartbeat.
pub fresh-exact :
    (n : ℕ) (now : Time) (inst : Instance)
    → 0 < n
    → n < max_int64
    → fresh (pos n) now inst ≡ (inst.healthy && leb now (inst.last_heartbeat + n))
unfolding fresh
fresh-exact n now inst h k = ground arith

only-fresh-mark :
    (stale_after : Duration) (now : Time) (o : Option Instance)
    → ltb_ℤ (pos 0) stale_after ≡ true
    → only (fresh stale_after now) (Option.map (mark stale_after now) o)
      ≡ only (fresh stale_after now) o
unfolding fresh mark
only-fresh-mark stale_after now none h = refl
only-fresh-mark stale_after now (some inst) h = elim (Bool-cases (swept stale_after now inst)) [
  | inl dead ↦ rw (dead, mark) (ground (arith, dead, h))
  | inr alive ↦ rw (alive, mark) refl
]

-- A sweep leaves an instance that is fresh at its bound and its reading of the clock as it is.
pub lookup-sweep_stale-fresh :
    (stale_after : Duration) (now : Time) (r : InMemory) (k id : Text) {inst : Instance}
    → lookup k id r ≡ some inst
    → fresh stale_after now inst ≡ true
    → lookup k id (sweep_stale stale_after now r).1 ≡ some inst
unfolding fresh mark
lookup-sweep_stale-fresh stale_after now r k id {inst} stored alive =
    let swept_one = lookup-sweep_stale stale_after now r k id in
    elim (Bool-cases (ltb_ℤ (pos 0) stale_after)) [
      | inl on ↦
          let kept : mark stale_after now inst ≡ inst = ground (arith, alive, on) in
          swept_one ∙ (rw (on, stored) (ap some kept))
      | inr off ↦ swept_one ∙ (rw (off) stored)
    ]

-- In a valid registry a sweep changes no read of healthy instances that is made with the same bound
-- and the same reading of the clock.
pub healthy_instances-sweep_stale :
    (namespace service : Text) (stale_after : Duration) (now : Time) (r : InMemory)
    → IsValid r
    → healthy_instances namespace service stale_after now (sweep_stale stale_after now r).1
      ≡ healthy_instances namespace service stale_after now r
healthy_instances-sweep_stale namespace service stale_after now r v =
    healthy_instances_unique namespace service stale_after now (sweep_stale stale_after now r).1 r
      (sweep_stale-IsValid stale_after now r v) v
      λ id. elim (Bool-cases (ltb_ℤ (pos 0) stale_after)) [
        | inl on ↦
            ap (only (fresh stale_after now))
              (lookup-sweep_stale stale_after now r (key namespace service) id ∙ (rw on refl))
            ∙ only-fresh-mark stale_after now (lookup (key namespace service) id r) on
        | inr off ↦
            ap (only (fresh stale_after now))
              (lookup-sweep_stale stale_after now r (key namespace service) id ∙ (rw off refl))
      ]

-- What a sweep at the same time finds among what a sweep has left: nothing.
transitions-sweep_members :
    (stale_after : Duration) (now : Time) (m : Members)
    → transitions stale_after now (sweep_members stale_after now m) ≡ []
unfolding transitions sweep_members
transitions-sweep_members stale_after now [] = refl
transitions-sweep_members stale_after now ((id, inst) ∷ m) =
    ground (arith, transitions-sweep_members stale_after now m)

transitions_svcs-sweep_svcs :
    (stale_after : Duration) (now : Time) (svcs : Dict Text Members)
    → transitions_svcs stale_after now (sweep_svcs stale_after now svcs) ≡ []
unfolding transitions_svcs sweep_svcs
transitions_svcs-sweep_svcs stale_after now [] = refl
transitions_svcs-sweep_svcs stale_after now ((k, m) ∷ svcs) =
    rw (transitions-sweep_members stale_after now m)
      (transitions_svcs-sweep_svcs stale_after now svcs)

-- A second sweep with the same bound and the same reading of the clock reports no transition.
pub sweep_stale_idem :
    (stale_after : Duration) (now : Time) (r : InMemory)
    → (sweep_stale stale_after now (sweep_stale stale_after now r).1).0 ≡ []
unfolding sweep_stale
sweep_stale_idem stale_after now r = elim (Bool-cases (ltb_ℤ (pos 0) stale_after)) [
  | inl on ↦
      rw (on, sweep_stale)
        (rw (transitions_svcs-sweep_svcs stale_after now r.svcs) (unfold sort_by in refl))
  | inr off ↦ rw (off, sweep_stale) refl
]

-- In a valid registry, after a heartbeat at time `t` that finds its instance, the instance is among
-- the healthy ones of its service, refreshed, at every reading of the clock up to the bound past
-- `t`.
pub heartbeat-healthy :
    (namespace service id : Text) (t : Time) (r : InMemory) (n : ℕ) (now : Time) (inst : Instance)
    → IsValid r
    → lookup (key namespace service) id r ≡ some inst
    → now ≤ t + n
    → find id_of id
        (healthy_instances namespace service (pos n) now (heartbeat namespace service id t r).1)
      ≡ some (refreshed t inst)
unfolding fresh refreshed
heartbeat-healthy namespace service id t r n now inst v found late =
    let k = key namespace service in
    find-healthy_instances namespace service (heartbeat namespace service id t r).1
      (heartbeat-IsValid namespace service id t r v) (pos n) now id
    ∙ (ap (only (fresh (pos n) now)) (lookup-heartbeat namespace service id t r k id)
        ∙ only-refreshed)
  where
    only-refreshed :
        only (fresh (pos n) now) (
          if at (key namespace service) id (key namespace service) id
          then Option.map (refreshed t) (lookup (key namespace service) id r)
          else lookup (key namespace service) id r)
        ≡ some (refreshed t inst)
    only-refreshed = ground (arith, found, text_eq_refl (key namespace service), text_eq_refl id)
