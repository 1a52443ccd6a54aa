-- ===== src/Registry/View.antt =====
-- The abstract view of the registry: which instance is stored for a service and an ID. What the
-- writing methods do to it, on every branch.
use distributed_service_mesh.Base.{
  ◌≡◌, refl, ap, ◌∙◌, Bool, true, ◌&&◌, Option, none, some, [], ◌∷◌, arith, if◌then◌else◌,
  Bool-cases, Option-cases, inl, inr,
}
use mathlib.Core.Option
use distributed_service_mesh.Base.Int.{pos, ltb_ℤ}
use distributed_service_mesh.Base.Text.{Text, text_eq, text_eq_iff, text_eq_instance}
use distributed_service_mesh.Base.Dict.{Dict, get, put, delete, get-put, get-delete}
use distributed_service_mesh.Base.Outcome.{ok}
use distributed_service_mesh.Registry.Types.{Time, Duration, Instance, Members, InMemory, key}
use distributed_service_mesh.Registry.Ops.{
  members, stamped, register, deregister, heartbeat, mark, sweep_members, sweep_svcs, sweep_stale,
}

abbrev pub within : Text → Option Members → Option Instance
within id none = none
within id (some m) = get id m

unfoldable pub lookup : Text → Text → InMemory → Option Instance
lookup k id r = within id (get k r.svcs)

pub get-members : (k id : Text) (r : InMemory) → get id (members k r) ≡ lookup k id r
unfolding members lookup get
get-members k id r = elim (Option-cases (get k r.svcs)) [
  | inl absent ↦ rw (absent, members) refl
  | inr (m, found) ↦ rw (found, members) refl
]

-- At the entry of `id` under `j`, in the form that the laws below share.
abbrev pub at : Text → Text → Text → Text → Bool
at j i k id = text_eq j k && text_eq i id

-- A successful Register stores the stamped instance under its key and ID and changes nothing else.
pub lookup-register :
    (inst : Instance) (now : Time) (r : InMemory) (k id : Text)
    → (register inst now r).0 ≡ ok tt
    → lookup k id (register inst now r).1 ≡ (
        if at (key inst.namespace inst.service_name) inst.instance_id k id
        then some (stamped inst now)
        else lookup k id r)
unfolding register lookup
lookup-register inst now r k id h = ground (
  arith,
  get-put (key inst.namespace inst.service_name) k
      (put inst.instance_id (stamped inst now) (members (key inst.namespace inst.service_name) r))
      r.svcs,
  get-put inst.instance_id id (stamped inst now) (members (key inst.namespace inst.service_name) r),
  get-members (key inst.namespace inst.service_name) id r,
  text_eq_iff (key inst.namespace inst.service_name) k,
)

-- Deregister removes the instance that it names and changes nothing else.
pub lookup-deregister :
    (namespace service i : Text) (r : InMemory) (k id : Text)
    → lookup k id (deregister namespace service i r).1
      ≡ (if at (key namespace service) i k id then none else lookup k id r)
unfolding deregister lookup
lookup-deregister namespace service i r k id =
    let j = key namespace service in
    elim (Option-cases (get j r.svcs)) [
      | inl absent ↦ rw (absent, deregister) (ground (arith, text_eq_iff j k))
      | inr (m, found) ↦
          rw (found, deregister)
            (ground (arith, get-put j k (delete i m) r.svcs, get-delete i id m, text_eq_iff j k))
    ]

unfoldable pub refreshed : Time → Instance → Instance
refreshed now inst = record inst { last_heartbeat = now; healthy = true }

-- Heartbeat refreshes the instance that it names, if it is there, and changes nothing else.
pub lookup-heartbeat :
    (namespace service i : Text) (now : Time) (r : InMemory) (k id : Text)
    → lookup k id (heartbeat namespace service i now r).1 ≡ (
        if at (key namespace service) i k id
        then Option.map (refreshed now) (lookup k id r)
        else lookup k id r)
unfolding heartbeat lookup refreshed
lookup-heartbeat namespace service i now r k id =
    let j = key namespace service in
    elim (Option-cases (get j r.svcs)) [
      | inl absent ↦ rw (absent, heartbeat) (ground (arith, text_eq_iff j k))
      | inr (m, found) ↦ elim (Option-cases (get i m)) [
        | inl missing ↦
            rw (found, heartbeat)
              (rw (missing, heartbeat) (ground (arith, text_eq_iff j k, text_eq_iff i id)))
        | inr (inst, here) ↦
            rw (found, heartbeat)
              (rw (here, heartbeat)
                (ground (
                  arith,
                  get-put j k (put i (refreshed now inst) m) r.svcs,
                  get-put i id (refreshed now inst) m,
                  text_eq_iff j k,
                  text_eq_iff i id,
                )))
      ]
    ]

pub get-sweep_members :
    (stale_after : Duration) (now : Time) (id : Text) (m : Members)
    → get id (sweep_members stale_after now m) ≡ Option.map (mark stale_after now) (get id m)
unfolding sweep_members get
get-sweep_members stale_after now id [] = refl
get-sweep_members stale_after now id ((j, inst) ∷ m) =
    ground (arith, get-sweep_members stale_after now id m)

pub get-sweep_svcs :
    (stale_after : Duration) (now : Time) (k : Text) (svcs : Dict Text Members)
    → get k (sweep_svcs stale_after now svcs)
      ≡ Option.map (sweep_members stale_after now) (get k svcs)
unfolding sweep_svcs get
get-sweep_svcs stale_after now k [] = refl
get-sweep_svcs stale_after now k ((j, m) ∷ svcs) =
    ground (arith, get-sweep_svcs stale_after now k svcs)

within-sweep_members :
    (stale_after : Duration) (now : Time) (id : Text) (o : Option Members)
    → within id (Option.map (sweep_members stale_after now) o)
      ≡ Option.map (mark stale_after now) (within id o)
within-sweep_members stale_after now id none = refl
within-sweep_members stale_after now id (some m) = get-sweep_members stale_after now id m

-- With a positive bound SweepStale marks the overdue instances of every service and changes nothing
-- else. With another bound it changes nothing.
pub lookup-sweep_stale :
    (stale_after : Duration) (now : Time) (r : InMemory) (k id : Text)
    → lookup k id (sweep_stale stale_after now r).1 ≡ (
        if ltb_ℤ (pos 0) stale_after
        then Option.map (mark stale_after now) (lookup k id r)
        else lookup k id r)
unfolding sweep_stale lookup
lookup-sweep_stale stale_after now r k id = elim (Bool-cases (ltb_ℤ (pos 0) stale_after)) [
  | inl on ↦
      rw (on, sweep_stale)
        (ap (within id) (get-sweep_svcs stale_after now k r.svcs)
          ∙ within-sweep_members stale_after now id (get k r.svcs))
  | inr off ↦ rw (off, sweep_stale) refl
]
