-- ===== src/Registry/Calls.antt =====
-- Any sequence of calls of the writing methods, from the empty registry on.
use distributed_service_mesh.Base.Text.{Text}
use distributed_service_mesh.Registry.Validity.{
  sweep_stale-IsValid, heartbeat-IsValid, deregister-IsValid, register-IsValid, IsValid,
}
use distributed_service_mesh.Registry.Ops.{sweep_stale, heartbeat, deregister, register}
use distributed_service_mesh.Registry.Types.{Duration, Time, InMemory, Instance}
use distributed_service_mesh.Base.{[], ◌∷◌, List}

-- A call of a method that writes, with its reading of the clock where it makes one.
pub data Call : Type 0 where
  registers : Instance → Time → Call
  deregisters : Text → Text → Text → Call
  beats : Text → Text → Text → Time → Call
  sweeps : Duration → Time → Call

unfoldable pub call : Call → InMemory → InMemory
call (registers inst now) r = (register inst now r).1
call (deregisters namespace service id) r = (deregister namespace service id r).1
call (beats namespace service id now) r = (heartbeat namespace service id now r).1
call (sweeps stale_after now) r = (sweep_stale stale_after now r).1

unfoldable pub call_all : List Call → InMemory → InMemory
unfolding call
call_all [] r = r
call_all (c ∷ cs) r = call_all cs (call c r)

pub call-IsValid : (c : Call) (r : InMemory) → IsValid r → IsValid (call c r)
unfolding call
call-IsValid (registers inst now) r v = register-IsValid inst now r v
call-IsValid (deregisters namespace service id) r v = deregister-IsValid namespace service id r v
call-IsValid (beats namespace service id now) r v = heartbeat-IsValid namespace service id now r v
call-IsValid (sweeps stale_after now) r v = sweep_stale-IsValid stale_after now r v

-- Whatever sequence of calls of Register, Deregister, Heartbeat and SweepStale is made, a valid
-- registry stays valid: each service has one entry and so has each ID in it, and each instance is
-- filed under its own names, which are not empty.
pub call_all-IsValid : (cs : List Call) (r : InMemory) → IsValid r → IsValid (call_all cs r)
unfolding call_all
call_all-IsValid [] r v = v
call_all-IsValid (c ∷ cs) r v = call_all-IsValid cs (call c r) (call-IsValid c r v)
