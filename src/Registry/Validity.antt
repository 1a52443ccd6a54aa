-- ===== src/Registry/Validity.antt =====
-- The well-formed states of the registry, and that every method keeps them: a service has one entry
-- and so has an instance ID in it, every instance is filed under its own names, and has them.
use distributed_service_mesh.Base.{
  ◌≡◌, ◌≢◌, refl, ap, ◌∙◌, ◌||◌, [], ◌∷◌, arith, Bool-cases, Option-cases, inl, inr,
}
use mathlib.Core.Option
use distributed_service_mesh.Base.Int.{pos, ltb_ℤ}
use distributed_service_mesh.Base.Text.{Text, text_eq, text_eq_iff, text_eq_instance}
use distributed_service_mesh.Base.Dict.{Dict, get, put, delete, IsMap, put-IsMap, delete-IsMap}
use distributed_service_mesh.Base.Dict.Entries.{Entries, Entries-get, put-Entries, delete-Entries}
use distributed_service_mesh.Registry.Types.{Time, Duration, Instance, Members, InMemory, key, new}
use distributed_service_mesh.Registry.Ops.{
  members, stamped, register, deregister, heartbeat, mark, sweep_members, sweep_svcs, sweep_stale,
}
use distributed_service_mesh.Registry.View.{get-sweep_members, get-sweep_svcs}

-- The instance stored under `k` and `id` is filed under its own names, which it has.
pub record IsPlaced (k id : Text) (inst : Instance) : Type 0 where
  pub same_id : inst.instance_id ≡ id
  pub same_key : key inst.namespace inst.service_name ≡ k
  pub has_id : inst.instance_id ≢ []
  pub has_name : inst.service_name ≢ []

abbrev pub IsService : Text → Members → Type 0
IsService k m = IsMap m × Entries (IsPlaced k) m

pub record IsValid (r : InMemory) : Type 0 where
  pub is_map : IsMap r.svcs
  pub services : Entries IsService r.svcs

pub new-IsValid : IsValid new
unfolding IsMap
new-IsValid = record { is_map = tt; services = tt }

put_service-IsValid :
    (k : Text) (m : Members) (r : InMemory)
    → IsService k m
    → IsValid r
    → IsValid (record { svcs = put k m r.svcs })
put_service-IsValid k m r s v = record {
  is_map = put-IsMap k m r.svcs v.is_map;
  services = put-Entries IsService k m r.svcs s v.services;
}

pub members-IsService : (k : Text) (r : InMemory) → IsValid r → IsService k (members k r)
unfolding members IsMap
members-IsService k r v = elim (Option-cases (get k r.svcs)) [
  | inl absent ↦ rw (absent, members) (tt, tt)
  | inr (m, found) ↦ rw (found, members) (Entries-get IsService k r.svcs v.services found)
]

put_member-IsService :
    (k id : Text) (inst : Instance) (m : Members)
    → IsPlaced k id inst
    → IsService k m
    → IsService k (put id inst m)
put_member-IsService k id inst m p s =
    (put-IsMap id inst m s.0, put-Entries (IsPlaced k) id inst m p s.1)

pub register-IsValid :
    (inst : Instance) (now : Time) (r : InMemory) → IsValid r → IsValid (register inst now r).1
unfolding register
register-IsValid inst now r v =
    elim (Bool-cases (text_eq inst.service_name [] || text_eq inst.instance_id [])) [
      | inl bad ↦ rw (bad, register) v
      | inr good ↦
          let k = key inst.namespace inst.service_name in
          let p : IsPlaced k inst.instance_id (stamped inst now) =
            unfold stamped in
            record {
              same_id = refl;
              same_key = refl;
              has_id = ground (arith, text_eq_iff inst.instance_id [], good);
              has_name = ground (arith, text_eq_iff inst.service_name [], good);
            } in
          rw (good, register)
            (put_service-IsValid k _ r
              (put_member-IsService k inst.instance_id _ (members k r) p (members-IsService k r v))
              v)
    ]

pub deregister-IsValid :
    (namespace service id : Text) (r : InMemory)
    → IsValid r
    → IsValid (deregister namespace service id r).1
unfolding deregister
deregister-IsValid namespace service id r v =
    let k = key namespace service in
    elim (Option-cases (get k r.svcs)) [
      | inl absent ↦ rw (absent, deregister) v
      | inr (m, found) ↦
          let s = Entries-get IsService k r.svcs v.services found in
          rw (found, deregister)
            (put_service-IsValid k (delete id m) r
              (delete-IsMap id m s.0, delete-Entries (IsPlaced k) id m s.1) v)
    ]

pub heartbeat-IsValid :
    (namespace service id : Text) (now : Time) (r : InMemory)
    → IsValid r
    → IsValid (heartbeat namespace service id now r).1
unfolding heartbeat
heartbeat-IsValid namespace service id now r v =
    let k = key namespace service in
    elim (Option-cases (get k r.svcs)) [
      | inl absent ↦ rw (absent, heartbeat) v
      | inr (m, found) ↦ elim (Option-cases (get id m)) [
        | inl missing ↦ rw (found, heartbeat) (rw (missing, heartbeat) v)
        | inr (inst, here) ↦
            let s = Entries-get IsService k r.svcs v.services found in
            let p = Entries-get (IsPlaced k) id m s.1 here in
            rw (found, heartbeat)
              (rw (here, heartbeat)
                (put_service-IsValid k _ r
                  (put_member-IsService k id _ m
                    (record {
                      same_id = p.same_id;
                      same_key = p.same_key;
                      has_id = p.has_id;
                      has_name = p.has_name;
                    })
                    s)
                  v))
      ]
    ]

mark-IsPlaced :
    (stale_after : Duration) (now : Time) (k id : Text) (inst : Instance)
    → IsPlaced k id inst
    → IsPlaced k id (mark stale_after now inst)
unfolding mark
mark-IsPlaced stale_after now k id inst p = ground arith

sweep_members-IsService :
    (stale_after : Duration) (now : Time) (k : Text) (m : Members)
    → IsService k m
    → IsService k (sweep_members stale_after now m)
unfolding sweep_members IsMap
sweep_members-IsService stale_after now k [] s = (tt, tt)
sweep_members-IsService stale_after now k ((id, inst) ∷ m) s =
    let rest = sweep_members-IsService stale_after now k m (s.0.1, s.1.1) in
    (
      (
        get-sweep_members stale_after now id m ∙ ap (Option.map (mark stale_after now)) s.0.0,
        rest.0,
      ),
      (mark-IsPlaced stale_after now k id inst s.1.0, rest.1),
    )

sweep_svcs-IsValid :
    (stale_after : Duration) (now : Time) (svcs : Dict Text Members)
    → IsMap svcs × Entries IsService svcs
    → IsMap (sweep_svcs stale_after now svcs) × Entries IsService (sweep_svcs stale_after now svcs)
unfolding sweep_svcs IsMap
sweep_svcs-IsValid stale_after now [] s = (tt, tt)
sweep_svcs-IsValid stale_after now ((k, m) ∷ svcs) s =
    let rest = sweep_svcs-IsValid stale_after now svcs (s.0.1, s.1.1) in
    (
      (
        get-sweep_svcs stale_after now k svcs
            ∙ ap (Option.map (sweep_members stale_after now)) s.0.0,
        rest.0,
      ),
      (sweep_members-IsService stale_after now k m s.1.0, rest.1),
    )

pub sweep_stale-IsValid :
    (stale_after : Duration) (now : Time) (r : InMemory)
    → IsValid r
    → IsValid (sweep_stale stale_after now r).1
unfolding sweep_stale
sweep_stale-IsValid stale_after now r v = elim (Bool-cases (ltb_ℤ (pos 0) stale_after)) [
  | inl on ↦
      let s = sweep_svcs-IsValid stale_after now r.svcs (v.is_map, v.services) in
      rw (on, sweep_stale) (record { is_map = s.0; services = s.1 })
  | inr off ↦ rw (off, sweep_stale) v
]
