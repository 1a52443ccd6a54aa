-- ===== src/Registry/Refinement.antt =====
-- internal/registry/registry.go against its specification: a function from a service's key and an ID
-- to the instance stored there.
use distributed_service_mesh.Registry.Promises.{
  demoted-off, mark-demoted, demoted, stamped-recorded, recorded,
}
use distributed_service_mesh.Base.Int.{pos, ltb_ℤ}
use mathlib.Core.Option
use distributed_service_mesh.Registry.Ops.{mark}
use distributed_service_mesh.Registry.Namespaces.{register-ok, register-refused}
use mathlib.Core.Path.{fun_ext}
use distributed_service_mesh.Registry.Types.{Time, Duration, key, Instance, InMemory}
use distributed_service_mesh.Registry.View.{
  lookup-sweep_stale, lookup-heartbeat, lookup-deregister, lookup-register, at, lookup, refreshed,
}
use distributed_service_mesh.Registry.Calls.{
  sweeps, beats, deregisters, registers, call, Call, call_all,
}
use distributed_service_mesh.Base.Text.{text_eq, Text}
use distributed_service_mesh.Base.{
  sym, none, inr, some, arith, ◌&&◌, inl, ◌||◌, refl, ap, not, [], ◌∙◌, if◌then◌else◌, Bool-cases,
  ◌∷◌, Option, List, ◌≡◌,
}

abbrev pub Contents : Type 0
Contents = Text → Text → Option Instance

-- What each writing method promises.
unfoldable pub promise : Call → Contents → Contents
unfolding refreshed
promise (registers inst now) f k id =
    if not (text_eq inst.service_name [] || text_eq inst.instance_id [])
      && at (key inst.namespace inst.service_name) inst.instance_id k id
    then some (recorded inst now)
    else f k id
promise (deregisters namespace service i) f k id =
    if at (key namespace service) i k id then none else f k id
promise (beats namespace service i now) f k id =
    if at (key namespace service) i k id then Option.map (refreshed now) (f k id) else f k id
promise (sweeps stale_after now) f k id = Option.map (demoted stale_after now) (f k id)

unfoldable pub promise_all : List Call → Contents → Contents
unfolding promise
promise_all [] f = f
promise_all (c ∷ cs) f = promise_all cs (promise c f)

abbrev pub contents : InMemory → Contents
contents r k id = lookup k id r

swept_promise :
    (stale_after : Duration) (now : Time) (o : Option Instance)
    → (if ltb_ℤ (pos 0) stale_after then Option.map (mark stale_after now) o else o)
      ≡ Option.map (demoted stale_after now) o
swept_promise stale_after now none = ground arith
swept_promise stale_after now (some inst) = elim (Bool-cases (ltb_ℤ (pos 0) stale_after)) [
  | inl on ↦ rw on (ap some (mark-demoted stale_after now inst on))
  | inr off ↦ rw off (ap some (sym (demoted-off stale_after now inst off)))
]

pub lookup-call :
    (c : Call) (r : InMemory) (k id : Text) → lookup k id (call c r) ≡ promise c (contents r) k id
unfolding call promise
lookup-call (registers inst now) r k id =
    elim (Bool-cases (text_eq inst.service_name [] || text_eq inst.instance_id [])) [
      | inl bad ↦ ap (lookup k id) (register-refused inst now r bad) ∙ ground (arith, bad)
      | inr good ↦
          lookup-register inst now r k id (register-ok inst now r good)
          ∙ ground (arith, good, stamped-recorded inst now)
    ]
lookup-call (deregisters namespace service i) r k id = lookup-deregister namespace service i r k id
lookup-call (beats namespace service i now) r k id = lookup-heartbeat namespace service i now r k id
lookup-call (sweeps stale_after now) r k id =
    lookup-sweep_stale stale_after now r k id ∙ swept_promise stale_after now (lookup k id r)

pub contents-call : (c : Call) (r : InMemory) → contents (call c r) ≡ promise c (contents r)
contents-call c r = fun_ext λ k. fun_ext λ id. lookup-call c r k id

-- Whatever sequence of calls of Register, Deregister, Heartbeat and SweepStale is made on whatever
-- registry, the instance stored under each key and ID is what the promises of the calls make of the
-- contents before: a registered instance is as given, healthy, with the time as both of its times,
-- and a sweep marks exactly the healthy ones unhealthy whose last heartbeat is longer ago than its
-- bound, if that is positive.
pub call_all-refines :
    (cs : List Call) (r : InMemory) → contents (call_all cs r) ≡ promise_all cs (contents r)
unfolding call_all promise_all
call_all-refines [] r = refl
call_all-refines (c ∷ cs) r =
    call_all-refines cs (call c r) ∙ ap (promise_all cs) (contents-call c r)
