-- ===== src/Tests/Registry.antt =====
-- The registry: runs, and its theorems applied to a registry of one instance.
use distributed_service_mesh.Registry.Health.{heartbeat-healthy, healthy_instances-sweep_stale}
use distributed_service_mesh.Base.Outcome.{ok}
use distributed_service_mesh.Base.Dict.{get, put}
use distributed_service_mesh.Registry.Services.{SameService}
use distributed_service_mesh.Registry.Namespaces.{register-isolated, register-leaks, slash_byte}
use distributed_service_mesh.Tests.Data.{one_web-IsValid, one_web, web}
use distributed_service_mesh.Base.Int.{pos}
use distributed_service_mesh.Registry.Calls.{call_all-IsValid, sweeps, registers, call_all}
use distributed_service_mesh.Base.Text.{text_eq_iff, begins_with, codes, text_eq, Free, Text}
use distributed_service_mesh.Base.Sort.{sort_by, find}
use distributed_service_mesh.Registry.Listing.{id_of}
use distributed_service_mesh.Registry.Validity.{register-IsValid, new-IsValid, IsValid}
use distributed_service_mesh.Registry.Types.{InMemory, Time, Duration, new, key, Instance}
use distributed_service_mesh.Registry.Ops.{
  sorted_instances, stamped, heartbeat, get_service, register, list_services, healthy_instances,
  sweep_stale,
}
use distributed_service_mesh.Registry.View.{lookup-register, refreshed, lookup}
use distributed_service_mesh.Base.{refl, ◌∷◌, [], some, arith, ◌++◌, ◌≢◌, ◌≡◌}

abbrev web_key : Text
web_key = key (codes "default") (codes "web")

lookup-web : lookup web_key (codes "i1") one_web ≡ some (stamped web 5)
unfolding lookup register key put get stamped text_eq
lookup-web = refl

names_web : list_services (codes "default") one_web ≡ codes "web" ∷ []
unfolding list_services register key put get text_eq begins_with sort_by
names_web = refl

get_web : get_service (codes "default") (codes "web") one_web ≡ ok (stamped web 5 ∷ [])
unfolding get_service register key put get text_eq sorted_instances sort_by stamped
get_web = refl

registered_web : (register web 5 new).0 ≡ ok tt
unfolding register text_eq
registered_web = refl

stale_web : healthy_instances (codes "default") (codes "web") (pos 10) 16 one_web ≡ []
unfolding healthy_instances register key put get text_eq sorted_instances sort_by stamped
stale_web = refl

call_all-IsValid_example : IsValid (call_all (registers web 5 ∷ sweeps (pos 10) 30 ∷ []) new)
call_all-IsValid_example =
    call_all-IsValid (registers web 5 ∷ sweeps (pos 10) 30 ∷ []) new new-IsValid

-- The same two instances, registered in either order.
abbrev db : Instance
db = record web { service_name = codes "db"; instance_id = codes "d1" }

abbrev web_db : InMemory
web_db = (register db 7 one_web).1

abbrev db_web : InMemory
db_web = (register web 5 (register db 7 new).1).1

web_db-IsValid : IsValid web_db
web_db-IsValid = register-IsValid db 7 one_web one_web-IsValid

db_web-IsValid : IsValid db_web
db_web-IsValid =
    register-IsValid web 5 (register db 7 new).1 (register-IsValid db 7 new new-IsValid)

registered_db : (r : InMemory) → (register db 7 r).0 ≡ ok tt
unfolding register text_eq
registered_db r = refl

registered_web_in : (r : InMemory) → (register web 5 r).0 ≡ ok tt
unfolding register text_eq
registered_web_in r = refl

keys_differ : key db.namespace db.service_name ≢ key web.namespace web.service_name
unfolding key
keys_differ e = cc

same_service : (k : Text) → SameService k web_db db_web
same_service k id = ground (
  arith,
  lookup-register db 7 one_web k id (registered_db one_web),
  lookup-register web 5 new k id (registered_web_in new),
  lookup-register web 5 (register db 7 new).1 k id (registered_web_in (register db 7 new).1),
  lookup-register db 7 new k id (registered_db new),
  text_eq_iff (key db.namespace db.service_name) k,
  text_eq_iff (key web.namespace web.service_name) k,
  keys_differ,
)

healthy_instances-sweep_stale_example :
    healthy_instances
      (codes "default")
      (codes "web")
      (pos 10)
      30
      (sweep_stale (pos 10) 30 one_web).1
    ≡ healthy_instances (codes "default") (codes "web") (pos 10) 30 one_web
healthy_instances-sweep_stale_example =
    healthy_instances-sweep_stale (codes "default") (codes "web") (pos 10) 30 one_web
      one_web-IsValid

heartbeat-healthy_example :
    find id_of (codes "i1") (
      healthy_instances
        (codes "default")
        (codes "web")
        (pos 10)
        27
        (heartbeat (codes "default") (codes "web") (codes "i1") 20 one_web).1)
    ≡ some (refreshed 20 (stamped web 5))
heartbeat-healthy_example =
    heartbeat-healthy (codes "default") (codes "web") (codes "i1") 20 one_web 10 27 (stamped web 5)
      one_web-IsValid lookup-web (omega arith)

-- An instance of the namespace "a/b".
abbrev nested : Instance
nested = record web { namespace = codes "a/b" }

other_namespace : web.namespace ≢ codes "a"
other_namespace e = cc

web-Free : Free slash_byte web.namespace
web-Free = ground arith

a-Free : Free slash_byte (codes "a")
a-Free = ground arith

register-isolated_example :
    (list_services (codes "a") (register web 5 new).1 ≡ list_services (codes "a") new)
    × ((n : Text)
        → get_service (codes "a") n (register web 5 new).1 ≡ get_service (codes "a") n new)
    × ((n : Text) (stale_after : Duration) (later : Time)
        → healthy_instances (codes "a") n stale_after later (register web 5 new).1
          ≡ healthy_instances (codes "a") n stale_after later new)
register-isolated_example =
    register-isolated web 5 (codes "a") new new-IsValid web-Free a-Free other_namespace

register-leaks_example :
    lookup
      (key (codes "a") (codes "b" ++ codes "/" ++ codes "web"))
      (codes "i1")
      (register nested 5 new).1
    ≡ some (stamped nested 5)
register-leaks_example =
    register-leaks nested 5 new (codes "a") (codes "b") refl (λ e. ground (arith, e))
      (λ e. ground (arith, e))
