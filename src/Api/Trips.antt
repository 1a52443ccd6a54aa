-- ===== src/Api/Trips.antt =====
-- internal/api: what was written by one request and is read by the next.
use distributed_service_mesh.Api.Expected.{stamped-registered_as, registered_as}
use distributed_service_mesh.Api.Paths.{dispatch-get_service, service_path, services_path, named}
use distributed_service_mesh.Registry.Reads.{get_service_complete}
use distributed_service_mesh.Registry.Namespaces.{register-ok}
use mathlib.Core.Option.{some-injective}
use mathlib.Core.Path.{subst, ap₂}
use distributed_service_mesh.Registry.Listing.{id_of}
use distributed_service_mesh.Base.Sort.{find}
use distributed_service_mesh.Base.Outcome.{ok}
use distributed_service_mesh.Routing.Spec.{validate, Spec}
use distributed_service_mesh.Registry.Validity.{register-IsValid, IsValid}
use distributed_service_mesh.Api.Answers.{register-answers, started, serve-handled}
use distributed_service_mesh.Api.Server.{serve, response_of, handle, Server, Circumstance}
use distributed_service_mesh.Api.Response.{
  instances_body, spec_body, set_json, write, head_of, literal, write_json_error, Recorder,
}
use distributed_service_mesh.Routing.Store.{set, spec_of-set, spec_of, Store}
use distributed_service_mesh.Registry.Types.{Time, key, Instance, InMemory}
use distributed_service_mesh.Base.Dict.{get, Dict}
use distributed_service_mesh.Registry.View.{lookup-register, lookup}
use distributed_service_mesh.Api.Request.{
  RegisterServiceRequest, namespace_or_default, Request, path_value,
}
use distributed_service_mesh.Api.Mux.{
  get_service_page, get_route, put_route, handled, match_method, Target, dispatch,
}
use distributed_service_mesh.Api.Routes.{put_decoded, handle_get_route, handle_put_route}
use distributed_service_mesh.Api.Debug.{SnapshotReader}
use distributed_service_mesh.Registry.Ops.{register, stamped, sorted_instances, get_service}
use distributed_service_mesh.Base.Text.{
  text_eq_instance, text_eq_iff, text_eq_refl, text_eq, codes, Text,
}
use distributed_service_mesh.Api.Instances.{instance_of, instances_reply, handle_get_service}
use distributed_service_mesh.Base.{
  ap, sym, ◌∙◌, inr, arith, inl, Option-cases, refl, none, some, [], ◌∷◌, ◌≢◌, ℕ, List, ◌≡◌,
}

abbrev pub route_path : Text → List Text
route_path service = codes "v1" ∷ codes "routes" ∷ service ∷ []

abbrev pub for_service : Text → Dict Text Text
for_service service = (codes "service", service) ∷ []

dispatch-put_route :
    (service : Text)
    → service ≢ []
    → dispatch (codes "PUT") (route_path service) ≡ handled put_route (for_service service)
unfolding dispatch match_method text_eq
dispatch-put_route [] h = absurd (h refl)
dispatch-put_route (b ∷ bs) h = refl

dispatch-get_route :
    (service : Text)
    → service ≢ []
    → dispatch (codes "GET") (route_path service) ≡ handled get_route (for_service service)
unfolding dispatch match_method text_eq
dispatch-get_route [] h = absurd (h refl)
dispatch-get_route (b ∷ bs) h = refl

-- A service with a stored instance is listed.
get_service-stored :
    (namespace service id : Text) (r : InMemory) {inst : Instance}
    → IsValid r
    → lookup (key namespace service) id r ≡ some inst
    → (xs : List Instance) × (get_service namespace service r ≡ ok xs)
      × (find id_of id xs ≡ some inst)
unfolding get_service lookup get
get_service-stored namespace service id r {inst} v stored =
    elim (Option-cases (get (key namespace service) r.svcs)) [
      | inl absent ↦ absurd (ground (arith, absent, stored))
      | inr ([], found) ↦ absurd (ground (arith, found, stored))
      | inr (e ∷ m, found) ↦
          let listed : get_service namespace service r ≡ ok (sorted_instances (e ∷ m)) =
            rw (found, get_service) refl in
          (
            sorted_instances (e ∷ m),
            listed,
            (get_service_complete namespace service r v listed).1 id ∙ unfold lookup in stored,
          )
    ]

handle_get_service-eq :
    (req : Request) (name : Text) (r : InMemory) (w : Recorder)
    → handle_get_service req (named name) r w
      ≡ instances_reply name (get_service (namespace_or_default req.namespace) name r) w
unfolding handle_get_service path_value get text_eq
handle_get_service-eq req name r w = refl

handle_get_route-eq :
    (service : Text) (s : Store) (w : Recorder)
    → handle_get_route (for_service service) s w ≡ elim (spec_of service s) as (λ _. Recorder) [
      | none ↦ write_json_error 404 (literal (codes "no route configured for service")) w
      | some spec ↦ write (spec_body spec) (set_json w)
    ]
unfolding handle_get_route path_value get text_eq
handle_get_route-eq service s w = refl

handle_put_route-eq :
    (req : Request) (service : Text) (s : Store) (w : Recorder) {spec : Spec}
    → req.spec ≡ some spec
    → handle_put_route req (for_service service) s w ≡ put_decoded service spec s w
unfolding handle_put_route path_value get text_eq
handle_put_route-eq req service s w e = rw (e, handle_put_route) refl

-- A registration under both names is stored.
pub lookup-register_named :
    (d : RegisterServiceRequest) (now : Time) (r : InMemory)
    → d.service_name ≢ []
    → d.instance_id ≢ []
    → lookup
        (key (namespace_or_default d.namespace) d.service_name)
        d.instance_id
        (register (instance_of d) now r).1
      ≡ some (stamped (instance_of d) now)
unfolding instance_of
lookup-register_named d now r hn hi =
    let k = key (namespace_or_default d.namespace) d.service_name in
    lookup-register (instance_of d) now r k d.instance_id (
      register-ok (instance_of d) now r
        (ground (arith, text_eq_iff d.service_name [], text_eq_iff d.instance_id [])))
    ∙ ground (arith, text_eq_refl k, text_eq_refl d.instance_id)

pub registry-serve :
    {Snapshot : Type 0} (reader : SnapshotReader Snapshot) (page : Target → Request → ℕ)
    (env : Circumstance Snapshot) (req : Request) (s : Server Snapshot) {d : RegisterServiceRequest}
    → req.method ≡ codes "POST"
    → req.path ≡ services_path
    → req.registration ≡ some d
    → d.service_name ≢ []
    → d.instance_id ≢ []
    → (serve reader page env req s).1.registry ≡ (register (instance_of d) env.now s.registry).1
registry-serve reader page env req s {d} em ep good hn hi =
    elim (register-answers reader page env req s em ep) [
      | inl (d', e, _, _, _, made, _) ↦
          let same : d' ≡ d = some-injective _ _ (sym e ∙ good) in
          ap (λ x. x.registry) made ∙ ap (λ x. (register (instance_of x) env.now s.registry).1) same
      | inr (refused, _, _) ↦ absurd (refused (d, good, hn, hi))
    ]

module _ {Snapshot : Type 0} (reader : SnapshotReader Snapshot) (page : Target → Request → ℕ)
    (env env' : Circumstance Snapshot) (req req' : Request) (s : Server Snapshot) where
  -- With a valid registry, POST /v1/services with a service name and an instance ID, and then GET
  -- of that service in the namespace of the body: the second answer has status 200 and a list of
  -- instances, and under the ID in it is the instance with the fields of the body, in the namespace
  -- default if it names none, healthy, with the time of the registration.
  pub register-get_service :
      {d : RegisterServiceRequest}
      → IsValid s.registry
      → req.method ≡ codes "POST"
      → req.path ≡ services_path
      → req.registration ≡ some d
      → d.service_name ≢ []
      → d.instance_id ≢ []
      → req'.method ≡ codes "GET"
      → req'.path ≡ service_path d.service_name
      → namespace_or_default req'.namespace ≡ namespace_or_default d.namespace
      → let response = (serve reader page env' req' (serve reader page env req s).1).0 in
        (xs : List Instance) × (response.head.status ≡ 200)
        × (response.body ≡ instances_body d.service_name xs ∷ [])
        × (find id_of d.instance_id xs ≡ some (registered_as d env.now))
  unfolding handle instances_reply response_of head_of write set_json
  register-get_service {d} v em ep good hn hi em' ep' same =
      let ns = namespace_or_default req'.namespace in
      let s' : Server Snapshot = (serve reader page env req s).1 in
      let made = registry-serve reader page env req s em ep good hn hi in
      let valid : IsValid s'.registry =
        subst IsValid (sym made) (register-IsValid (instance_of d) env.now s.registry v) in
      let stored : lookup (key ns d.service_name) d.instance_id s'.registry
          ≡ some (stamped (instance_of d) env.now) =
        ap₂ (λ n r. lookup (key n d.service_name) d.instance_id r) same made
        ∙ lookup-register_named d env.now s.registry hn hi in
      let (xs, listed, there) =
        get_service-stored ns d.service_name d.instance_id s'.registry valid stored in
      let served =
        serve-handled reader page env' req' s' get_service_page (named d.service_name)
          (ap₂ dispatch em' ep' ∙ dispatch-get_service d.service_name hn) in
      let done =
        handle_get_service-eq req' d.service_name s'.registry (started reader page env' req' s') in
      (
        xs,
        rw (served, handle, done, listed) refl,
        rw (served, handle, done, listed) refl,
        there ∙ ap some (stamped-registered_as d env.now),
      )

  -- PUT of a spec that is accepted for the service in the path, which is not empty, and then GET of
  -- the route: both answer 200, and the second has the spec, with the service of the path in the
  -- place of its own.
  pub put_route-get_route :
      (service : Text) {spec : Spec}
      → service ≢ []
      → req.method ≡ codes "PUT"
      → req.path ≡ route_path service
      → req.spec ≡ some spec
      → validate (record spec { service = service }) ≡ ok tt
      → req'.method ≡ codes "GET"
      → req'.path ≡ route_path service
      → let (put, s') = serve reader page env req s in
        let got = (serve reader page env' req' s').0 in
        (put.head.status ≡ 200)
        × (got.head.status ≡ 200)
        × (got.body ≡ spec_body (record spec { service = service }) ∷ [])
  unfolding handle put_decoded response_of head_of write set_json
  put_route-get_route service {spec} hs em ep given valid em' ep' =
      let spec' : Spec = record spec { service = service } in
      let s' : Server Snapshot = (serve reader page env req s).1 in
      let served =
        serve-handled reader page env req s put_route (for_service service)
          (ap₂ dispatch em ep ∙ dispatch-put_route service hs) in
      let done = handle_put_route-eq req service s.routes (started reader page env req s) given in
      let (result, _, kept) = spec_of-set spec' s.routes service in
      let accepted : (set spec' s.routes).0 ≡ ok tt = result ∙ valid in
      let stored : spec_of service s'.routes ≡ some spec' =
        rw (served, handle, done, accepted, put_decoded)
          (kept valid ∙ ground (arith, text_eq_refl service)) in
      let served' =
        serve-handled reader page env' req' s' get_route (for_service service)
          (ap₂ dispatch em' ep' ∙ dispatch-get_route service hs) in
      let done' = handle_get_route-eq service s'.routes (started reader page env' req' s') in
      (
        rw (served, handle, done, accepted, put_decoded) refl,
        rw (served', handle, done', stored) refl,
        rw (served', handle, done', stored) refl,
      )
