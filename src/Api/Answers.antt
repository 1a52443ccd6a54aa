-- ===== src/Api/Answers.antt =====
-- internal/api/registry_handlers.go: how the server answers registrations, heartbeats and
-- deregistrations, on every path.
use distributed_service_mesh.Api.Expected.{lookup-register_expected, registered_as, namespace_for}
use distributed_service_mesh.Api.Paths.{
  dispatch-heartbeat, dispatch-deregister, dispatch-register, services_path, heartbeat_path,
  instance_path, named_with_id,
}
use distributed_service_mesh.Registry.Namespaces.{register-ok}
use mathlib.Core.Option.{some-injective}
use mathlib.Core.Path.{subst, ap₂}
use distributed_service_mesh.Api.Response.{
  set_json, write_header, write, write_json_error, head_of, new_recorder, Recorder,
}
use distributed_service_mesh.Base.Outcome.{err, ok}
use distributed_service_mesh.Api.Server.{
  response_of, correlation_of, serve_mux, serve, handle, Server, Circumstance,
}
use distributed_service_mesh.Api.Instances.{
  heartbeat_reply, handle_deregister_instance, handle_heartbeat, instance_of, register_decoded,
  handle_register_service,
}
use distributed_service_mesh.Registry.Types.{not_found, key, Instance, InMemory, Time}
use distributed_service_mesh.Base.Dict.{Dict, get}
use distributed_service_mesh.Registry.View.{
  at, lookup-heartbeat, lookup-deregister, refreshed, lookup,
}
use distributed_service_mesh.Api.Mux.{
  heartbeat_instance, register_service, deregister_instance, handled, Target, dispatch,
}
use distributed_service_mesh.Api.Debug.{SnapshotReader}
use distributed_service_mesh.Registry.Ops.{deregister, register, heartbeat}
use distributed_service_mesh.Api.Request.{
  namespace_or_default, Request, RegisterServiceRequest, path_value,
}
use distributed_service_mesh.Base.Text.{
  text_eq_iff, text_eq_refl, text_eq_instance, text_eq, codes, Text,
}
use distributed_service_mesh.Base.{
  if◌then◌else◌, sym, ◌||◌, Bool-cases, arith, inr, inl, ◌∙◌, Option-cases, ap, none, ◌⊎◌, refl, ℕ,
  ◌≢◌, [], some, Option, ◌≡◌,
}

-- What a registration needs: a body that decodes, with both names.
abbrev pub IsNamed : Option RegisterServiceRequest → Type 0
IsNamed reg =
    (d : RegisterServiceRequest) × (reg ≡ some d) × (d.service_name ≢ []) × (d.instance_id ≢ [])

-- How a heartbeat ends, by what is stored.
heartbeat-result :
    (namespace service id : Text) (now : Time) (r : InMemory)
    → ((inst : Instance) × (lookup (key namespace service) id r ≡ some inst)
        × ((heartbeat namespace service id now r).0 ≡ ok tt))
      ⊎ ((lookup (key namespace service) id r ≡ none)
          × (heartbeat namespace service id now r ≡ (err not_found, r)))
unfolding heartbeat lookup
heartbeat-result namespace service id now r =
    elim (Option-cases (get (key namespace service) r.svcs)) [
      | inl absent ↦ inr (rw absent refl, rw (absent, heartbeat) refl)
      | inr (m, found) ↦ elim (Option-cases (get id m)) [
        | inl missing ↦ inr (rw found missing, rw (found, missing, heartbeat) refl)
        | inr (inst, there) ↦ inl (inst, rw found there, rw (found, there, heartbeat) refl)
      ]
    ]

-- A deregistration never fails.
deregister-ok :
    (namespace service id : Text) (r : InMemory) → (deregister namespace service id r).0 ≡ ok tt
unfolding deregister
deregister-ok namespace service id r = elim (Option-cases (get (key namespace service) r.svcs)) [
  | inl absent ↦ rw (absent, deregister) refl
  | inr (m, found) ↦ rw (found, deregister) refl
]

handle_heartbeat-eq :
    (req : Request) (name id : Text) (now : Time) (r : InMemory) (w : Recorder)
    → handle_heartbeat req (named_with_id name id) now r w ≡ (
      heartbeat_reply (heartbeat (namespace_or_default req.namespace) name id now r).0 w,
      (heartbeat (namespace_or_default req.namespace) name id now r).1,
    )
unfolding handle_heartbeat path_value get text_eq
handle_heartbeat-eq req name id now r w = refl

handle_deregister_instance-eq :
    (req : Request) (name id : Text) (r : InMemory) (w : Recorder)
    → handle_deregister_instance req (named_with_id name id) r w
      ≡ (write_header 204 w, (deregister (namespace_or_default req.namespace) name id r).1)
unfolding handle_deregister_instance path_value get text_eq
handle_deregister_instance-eq req name id r w =
    rw (deregister-ok (namespace_or_default req.namespace) name id r, handle_deregister_instance)
      refl

module _ {Snapshot : Type 0} (reader : SnapshotReader Snapshot) (page : Target → Request → ℕ)
    (env : Circumstance Snapshot) (req : Request) (s : Server Snapshot) where
  -- The recorder that the handler starts with.
  abbrev pub started : Recorder
  started = new_recorder (correlation_of reader page req env)

  pub serve-handled :
      (t : Target) (values : Dict Text Text)
      → dispatch req.method req.path ≡ handled t values
      → serve reader page env req s ≡ (
        response_of reader page req (handle reader page t values req env s started).0,
        (handle reader page t values req env s started).1,
      )
  unfolding serve serve_mux
  serve-handled t values e =
      ap
        (λ to. (
          response_of reader page req (serve_mux reader page to req env s started).0,
          (serve_mux reader page to req env s started).1,
        ))
        e

  -- POST /v1/services answers 201 exactly for a body that is decoded and has a service name and an
  -- instance ID, and then the registry has made one Register of it, and nothing else has changed:
  -- under the key and the ID stands the instance with the fields of the body, in the namespace
  -- default if it names none, healthy, with the time of the registration, and under every other
  -- what was there. For every other body it answers 400 and nothing has changed.
  pub register-answers :
      req.method ≡ codes "POST"
      → req.path ≡ services_path
      → let (response, s') = serve reader page env req s in
        ((d : RegisterServiceRequest) × (req.registration ≡ some d)
          × (d.service_name ≢ [])
          × (d.instance_id ≢ [])
          × (response.head.status ≡ 201)
          × (s' ≡ record s { registry = (register (instance_of d) env.now s.registry).1 })
          × ((k id : Text)
              → lookup k id s'.registry ≡ (
                  if at (key (namespace_for d) d.service_name) d.instance_id k id
                  then some (registered_as d env.now)
                  else lookup k id s.registry)))
        ⊎ (¬ (IsNamed req.registration) × (response.head.status ≡ 400) × (s' ≡ s))
  unfolding handle handle_register_service register_decoded response_of head_of write_json_error
      write write_header set_json
  register-answers em ep =
      let served = serve-handled register_service [] (ap₂ dispatch em ep ∙ dispatch-register) in
      elim (Option-cases req.registration) [
        | inl bad ↦ inr (
          λ (d, e, _, _). absurd (ground (arith, bad, e)),
          rw (served, bad, handle, handle_register_service) refl,
          rw (served, bad, handle, handle_register_service) refl,
        )
        | inr (d, good) ↦
            elim (Bool-cases (text_eq d.service_name [] || text_eq d.instance_id [])) [
              | inl unnamed ↦ inr (
                λ (d', e, n, m).
                    let same : d ≡ d' = some-injective _ _ (sym good ∙ e) in
                    absurd (
                      ground (
                        arith,
                        unnamed,
                        text_eq_iff d.service_name [],
                        text_eq_iff d.instance_id [],
                        subst (λ x. x.service_name ≢ []) (sym same) n,
                        subst (λ x. x.instance_id ≢ []) (sym same) m,
                      )),
                rw (served, good, unnamed, handle, handle_register_service) refl,
                rw (served, good, unnamed, handle, handle_register_service) refl,
              )
              | inr both ↦
                  let done =
                    register-ok (instance_of d) env.now s.registry (unfold instance_of in both) in
                  inl (
                    d,
                    good,
                    ground (arith, both, text_eq_iff d.service_name []),
                    ground (arith, both, text_eq_iff d.instance_id []),
                    rw (served, good, both, done, handle, handle_register_service, register_decoded)
                        refl,
                    rw (served, good, both, done, handle, handle_register_service, register_decoded)
                        refl,
                    rw (served, good, both, done, handle, handle_register_service, register_decoded)
                        (lookup-register_expected d env.now s.registry done),
                  )
            ]
      ]

  -- POST of a heartbeat, for a service and an ID that are not empty, answers 200 if the instance is
  -- stored, and then it is refreshed and the registry has made one Heartbeat. It answers 404 if the
  -- instance is not stored, and nothing has changed.
  pub heartbeat-answers :
      (name id : Text)
      → name ≢ []
      → id ≢ []
      → req.method ≡ codes "POST"
      → req.path ≡ heartbeat_path name id
      → let (response, s') = serve reader page env req s in
        let ns = namespace_or_default req.namespace in
        ((inst : Instance) × (lookup (key ns name) id s.registry ≡ some inst)
          × (response.head.status ≡ 200)
          × (lookup (key ns name) id s'.registry ≡ some (refreshed env.now inst))
          × (s' ≡ record s { registry = (heartbeat ns name id env.now s.registry).1 }))
        ⊎ ((lookup (key ns name) id s.registry ≡ none) × (response.head.status ≡ 404) × (s' ≡ s))
  unfolding handle heartbeat_reply response_of head_of write_json_error write write_header set_json
  heartbeat-answers name id hn hi em ep =
      let served =
        serve-handled heartbeat_instance (named_with_id name id)
          (ap₂ dispatch em ep ∙ dispatch-heartbeat name id hn hi) in
      let ns = namespace_or_default req.namespace in
      let handled_by = handle_heartbeat-eq req name id env.now s.registry started in
      elim (heartbeat-result ns name id env.now s.registry) [
        | inl (inst, stored, done) ↦ inl (
          inst,
          stored,
          rw (served, handle, handled_by, done) refl,
          rw (served, handle, handled_by)
              (lookup-heartbeat ns name id env.now s.registry (key ns name) id
                ∙ ground (arith, stored, text_eq_refl (key ns name), text_eq_refl id)),
          rw (served, handle, handled_by) refl,
        )
        | inr (absent, missed) ↦ inr (
          absent,
          rw (served, handle, handled_by, missed) refl,
          rw (served, handle, handled_by, missed) refl,
        )
      ]

  -- DELETE of an instance, for a service and an ID that are not empty, answers 204 whether it was
  -- there or not, the instance is gone, and the registry has made one Deregister and nothing else
  -- has changed.
  pub deregister-answers :
      (name id : Text)
      → name ≢ []
      → id ≢ []
      → req.method ≡ codes "DELETE"
      → req.path ≡ instance_path name id
      → let (response, s') = serve reader page env req s in
        let ns = namespace_or_default req.namespace in
        (response.head.status ≡ 204)
        × (lookup (key ns name) id s'.registry ≡ none)
        × (s' ≡ record s { registry = (deregister ns name id s.registry).1 })
  unfolding handle response_of head_of write_header
  deregister-answers name id hn hi em ep =
      let served =
        serve-handled deregister_instance (named_with_id name id)
          (ap₂ dispatch em ep ∙ dispatch-deregister name id hn hi) in
      let ns = namespace_or_default req.namespace in
      let done = handle_deregister_instance-eq req name id s.registry started in
      (
        rw (served, done, handle) refl,
        rw (served, done, handle)
            (lookup-deregister ns name id s.registry (key ns name) id
              ∙ ground (arith, text_eq_refl (key ns name), text_eq_refl id)),
        rw (served, done, handle) refl,
      )
