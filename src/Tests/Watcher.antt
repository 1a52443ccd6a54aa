-- ===== src/Tests/Watcher.antt =====
-- Watcher: a round over a server that has one instance, whose pod has moved, and a pod that is new.
use distributed_service_mesh.Watcher.Recovery.{watch-IsRecovered, IsRecovered}
use distributed_service_mesh.Watcher.Polls.{Poll}
use distributed_service_mesh.Watcher.Listed.{IsProper, ArePlain}
use distributed_service_mesh.Watcher.Listed.{IsProper}
use distributed_service_mesh.Api.Request.{namespace_or_default, path_value}
use distributed_service_mesh.Api.Mux.{match_method, dispatch}
use distributed_service_mesh.Registry.View.{lookup}
use distributed_service_mesh.Base.Int.{pos}
use distributed_service_mesh.Registry.Types.{key, Instance}
use distributed_service_mesh.Api.Server.{handle, serve, Circumstance}
use distributed_service_mesh.Tests.Requests.{
  registered_server, at_nine, registration, page, names_reader,
}
use distributed_service_mesh.Base.Text.{text_eq_instance, text_eq, Text, codes}
use distributed_service_mesh.Registry.Ops.{register, stamped}
use distributed_service_mesh.Api.Instances.{handle_register_service, instance_of}
use distributed_service_mesh.Watcher.Convergence.{reconcile-address, after}
use distributed_service_mesh.Watcher.Reconcile.{
  instance_id_for, add_addresses, add_subsets, EndpointAddress, RangeOrder, Registered,
  is_registered,
}
use distributed_service_mesh.Watcher.Paths.{IsPlain}
use distributed_service_mesh.Watcher.Calls.{Network, Watcher}
use distributed_service_mesh.Reconciliation.Reconciler.{reconcile}
use distributed_service_mesh.Base.Dict.{IsMap, put, get}
use distributed_service_mesh.Watcher.Loops.{Now, entry}
use distributed_service_mesh.Base.{◌∷◌, none, some, arith, [], true, refl, List, ℕ, ◌≡◌}

tests : Unit {0}
unfolding reconcile add_subsets add_addresses instance_id_for put get text_eq lookup register
    stamped serve handle dispatch match_method handle_register_service path_value
    namespace_or_default key is_registered IsMap
tests = tt

abbrev web_watcher : Watcher
web_watcher = record { service = codes "web"; cp_addr = codes "http://cp:8080"; port = pos 9000 }

abbrev web-IsPlain : IsPlain (codes "web")
web-IsPlain = (λ e. absurd (ground (arith, e)), omega arith)

i1-IsPlain : IsPlain (codes "i1")
i1-IsPlain = (λ e. absurd (ground (arith, e)), omega arith)

i2-IsPlain : IsPlain (codes "i2")
i2-IsPlain = (λ e. absurd (ground (arith, e)), omega arith)

-- A range in the order of the list.
abbrev in_order : {A : Type 0} → RangeOrder A
in_order = record { order = λ m. m; get_order = λ k m. refl; order_IsMap = λ m v. v }

-- The pod `i1` is back with another address, and `i2` is there by its IP.
abbrev moved : List (List EndpointAddress)
moved =
    (record { ip = codes "10.0.0.7"; target_ref = some (codes "i1") }
      ∷ record { ip = codes "i2"; target_ref = none }
      ∷ [])
    ∷ []

moved-ArePlain : ArePlain moved
unfolding tests
moved-ArePlain = ((i1-IsPlain, (i2-IsPlain, tt)), tt)

abbrev always : ℕ → Circumstance (List Text)
always _ = at_nine

abbrev known : Registered
known = (codes "i1", true) ∷ []

abbrev before : Now names_reader page always web_watcher web-IsPlain
before = (known, (0, registered_server))

known-IsProper : IsProper known
unfolding tests
known-IsProper = ((refl, tt), (i1-IsPlain, tt), (refl, tt))

abbrev after_move : Now names_reader page always web_watcher web-IsPlain
after_move =
    after names_reader page always web_watcher web-IsPlain in_order in_order moved moved-ArePlain
      before known-IsProper

i1_listed : get (codes "i1") (add_subsets moved []) ≡ some (codes "10.0.0.7")
unfolding tests
i1_listed = refl

i1_stored :
    entry names_reader page always web_watcher web-IsPlain before (codes "i1")
    ≡ some (stamped (instance_of registration) 9)
unfolding tests
i1_stored = refl

i1_known : is_registered (codes "i1") known ≡ true
unfolding tests
i1_known = refl

i3_unlisted : get (codes "i3") (add_subsets moved []) ≡ none
unfolding tests
i3_unlisted = refl

reconcile-address_example :
    (inst : Instance) × (entry names_reader page always web_watcher web-IsPlain after_move
        (codes "i1")
      ≡ some inst)
    × (inst.address ≡ codes "10.0.0.1")
unfolding instance_of stamped
reconcile-address_example =
    reconcile-address names_reader page always web_watcher web-IsPlain in_order in_order moved
      moved-ArePlain before known-IsProper (codes "i1") (codes "10.0.0.7")
      (stamped (instance_of registration) 9) i1_listed i1_stored i1_known

-- A network that answers nothing.
abbrev silent : Network
silent = record { World = Unit {0}; send = λ c world. (none, world) }

abbrev lost_poll : Poll
lost_poll = record { found = some moved; by_id = in_order; by_registered = in_order }

watch-IsRecovered_example :
    IsRecovered names_reader page always web_watcher web-IsPlain silent tt
      (lost_poll ∷ [])
      (moved-ArePlain, tt)
      (0, registered_server)
      in_order
      in_order
      moved
      moved-ArePlain
      (codes "i1")
watch-IsRecovered_example =
    watch-IsRecovered names_reader page always web_watcher web-IsPlain silent tt (lost_poll ∷ [])
      (moved-ArePlain, tt) (0, registered_server) in_order in_order moved moved-ArePlain
      (codes "i1")
