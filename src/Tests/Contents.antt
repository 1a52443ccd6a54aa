-- ===== src/Tests/Contents.antt =====
-- Registry: calls on the empty registry, and registrations in either order.
use distributed_service_mesh.Registry.Validity.{new-IsValid}
use mathlib.Core.Quot
use distributed_service_mesh.Base.Outcome.{err}
use distributed_service_mesh.Base.Dict.{get}
use distributed_service_mesh.Tests.Data.{web}
use distributed_service_mesh.Base.Text.{codes, text_eq}
use distributed_service_mesh.Registry.Ops.{get_service}
use distributed_service_mesh.Registry.Calls.{deregisters, registers, Call, call_all}
use distributed_service_mesh.Registry.Refinement.{call_all-refines, promise_all, contents}
use distributed_service_mesh.Registry.Types.{not_found, new, key, Instance}
use distributed_service_mesh.Registry.Abstract.{
  registers_commute, change_catalog, Catalog, read_service,
}
use distributed_service_mesh.Base.{[], refl, ◌∷◌, List, ◌≡◌}

abbrev other : Instance
other = record web { instance_id = codes "i2" }

abbrev three_calls : List Call
three_calls =
    registers web 5
    ∷ registers other 6
    ∷ deregisters (codes "default") (codes "web") (codes "i1")
    ∷ []

call_all-refines_example :
    contents (call_all three_calls new) ≡ promise_all three_calls (contents new)
call_all-refines_example = call_all-refines three_calls new

abbrev empty_catalog : Catalog
empty_catalog = Quot.mk (new, new-IsValid)

registers_commute_example :
    change_catalog (registers web 5) (change_catalog (registers other 6) empty_catalog)
    ≡ change_catalog (registers other 6) (change_catalog (registers web 5) empty_catalog)
unfolding key text_eq
registers_commute_example = registers_commute web other 5 6 empty_catalog refl

-- The abstract catalog is read as the registry is.
read_after : read_service (codes "default") (codes "api") empty_catalog ≡ err not_found
unfolding read_service get_service key get text_eq
read_after = refl
