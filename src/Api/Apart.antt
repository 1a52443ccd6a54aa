-- ===== src/Api/Apart.antt =====
-- internal/api: the requests that leave an instance and the route of its service as they are.
use mathlib.Core.Path.{subst}
use distributed_service_mesh.Api.Debug.{SnapshotReader}
use distributed_service_mesh.Registry.Namespaces.{register-ok}
use distributed_service_mesh.Base.Outcome.{Outcome-cases}
use distributed_service_mesh.Routing.Spec.{validate, Spec}
use distributed_service_mesh.Base.{
  sym, ◌∷◌, All, List, ℕ, arith, ap, refl, ◌∙◌, ◌||◌, inr, Bool-cases, inl, some, Option-cases,
  false, ◌≡◌, [],
}
use distributed_service_mesh.Routing.Store.{spec_of-remove, spec_of-set, spec_of, Store}
use distributed_service_mesh.Base.Dict.{Dict}
use distributed_service_mesh.Api.Server.{Circumstance, serve, serve_mux, handle, serve_all, Server}
use distributed_service_mesh.Registry.Types.{key, InMemory, Time, Instance}
use distributed_service_mesh.Api.Request.{namespace_or_default, RegisterServiceRequest, Request}
use distributed_service_mesh.Api.Routes.{
  handle_delete_route, service_in, put_decoded, handle_put_route,
}
use distributed_service_mesh.Api.Mux.{
  page_not_found, method_not_allowed, Routed, delete_route, heartbeat_instance, handled,
  deregister_instance, put_route, register_service, dispatch, Target,
}
use distributed_service_mesh.Api.Instances.{
  handle_heartbeat, id_in, name_of, instance_of, register_decoded, handle_deregister_instance,
  handle_register_service,
}
use distributed_service_mesh.Base.Text.{text_eq, Text}
use distributed_service_mesh.Registry.Ops.{deregister, register}
use distributed_service_mesh.Registry.View.{
  lookup-heartbeat, lookup-register, lookup-deregister, lookup, at,
}
use distributed_service_mesh.Api.Response.{Recorder}

lookup-register_other :
    (inst : Instance) (now : Time) (r : InMemory) (k id : Text)
    → at (key inst.namespace inst.service_name) inst.instance_id k id ≡ false
    → lookup k id (register inst now r).1 ≡ lookup k id r
unfolding register
lookup-register_other inst now r k id other =
    elim (Bool-cases (text_eq inst.service_name [] || text_eq inst.instance_id [])) [
      | inl unnamed ↦ rw (unnamed, register) refl
      | inr named ↦ lookup-register inst now r k id (register-ok inst now r named) ∙ (rw other refl)
    ]

module _ (k id service : Text) where
  -- A request to the handler that changes neither the instance under the key and the ID nor the
  -- route of the service, since it names another.
  abbrev pub IsApart : Target → Dict Text Text → Request → Type 0
  IsApart register_service values req =
      (d : RegisterServiceRequest)
      → req.registration ≡ some d
      → at (key (namespace_or_default d.namespace) d.service_name) d.instance_id k id ≡ false
  IsApart deregister_instance values req =
      at (key (namespace_or_default req.namespace) (name_of values)) (id_in values) k id ≡ false
  IsApart heartbeat_instance values req =
      at (key (namespace_or_default req.namespace) (name_of values)) (id_in values) k id ≡ false
  IsApart put_route values req = text_eq (service_in values) service ≡ false
  IsApart delete_route values req = text_eq (service_in values) service ≡ false
  IsApart _ values req = Unit {0}

  abbrev pub IsApartRequest : Request → Type 0
  IsApartRequest req =
      (t : Target) (values : Dict Text Text)
      → dispatch req.method req.path ≡ handled t values
      → IsApart t values req

  IsApartRouted : Routed → Request → Type 0
  IsApartRouted (handled t values) req = IsApart t values req
  IsApartRouted _ req = Unit {0}

  -- It is enough to look at the one handler that gets the request.
  pub apart_request :
      (t : Target) (values : Dict Text Text) (req : Request)
      → dispatch req.method req.path ≡ handled t values
      → IsApart t values req
      → IsApartRequest req
  unfolding IsApartRouted
  apart_request t values req to h t' values' e = subst (λ r. IsApartRouted r req) (sym to ∙ e) h

  register-Apart :
      (req : Request) (now : Time) (r : InMemory) (w : Recorder)
      → IsApart register_service [] req
      → lookup k id (handle_register_service req now r w).1 ≡ lookup k id r
  unfolding handle_register_service register_decoded instance_of
  register-Apart req now r w h = elim (Option-cases req.registration) [
    | inl bad ↦ rw (bad, handle_register_service) refl
    | inr (d, good) ↦ elim (Bool-cases (text_eq d.service_name [] || text_eq d.instance_id [])) [
      | inl unnamed ↦ rw (good, unnamed, handle_register_service) refl
      | inr named ↦
          let kept = lookup-register_other (instance_of d) now r k id (h d good) in
          elim (Outcome-cases (register (instance_of d) now r).0) [
            | inl (t, done) ↦ rw (good, named, done, handle_register_service, register_decoded) kept
            | inr (e, bad) ↦ rw (good, named, bad, handle_register_service, register_decoded) kept
          ]
    ]
  ]

  deregister-Apart :
      (req : Request) (values : Dict Text Text) (r : InMemory) (w : Recorder)
      → IsApart deregister_instance values req
      → lookup k id (handle_deregister_instance req values r w).1 ≡ lookup k id r
  unfolding handle_deregister_instance
  deregister-Apart req values r w h =
      let ns = namespace_or_default req.namespace in
      let kept = lookup-deregister ns (name_of values) (id_in values) r k id ∙ (rw h refl) in
      elim (Outcome-cases (deregister ns (name_of values) (id_in values) r).0) [
        | inl (t, done) ↦ rw (done, handle_deregister_instance) kept
        | inr (e, bad) ↦ rw (bad, handle_deregister_instance) kept
      ]

  put_route-Apart :
      (req : Request) (values : Dict Text Text) (s : Store) (w : Recorder)
      → IsApart put_route values req
      → spec_of service (handle_put_route req values s w).1 ≡ spec_of service s
  unfolding handle_put_route put_decoded
  put_route-Apart req values s w h = elim (Option-cases req.spec) [
    | inl bad ↦ rw (bad, handle_put_route) refl
    | inr (spec, good) ↦
        let spec' : Spec = record spec { service = service_in values } in
        let (same, refused_keeps, accepted) = spec_of-set spec' s service in
        elim (Outcome-cases (validate spec')) [
          | inl (t, fine) ↦
              let kept = accepted fine ∙ (rw h refl) in
              rw (good, same ∙ fine, handle_put_route, put_decoded) kept
          | inr (e, refused) ↦
              let kept =
                ap (spec_of service) (refused_keeps (λ f. absurd (ground (arith, refused, f)))) in
              rw (good, same ∙ refused, handle_put_route, put_decoded) kept
        ]
  ]

  -- The instance and the route are as they were.
  abbrev pub Apart : {Snapshot : Type 0} → Server Snapshot → Server Snapshot → Type 0
  Apart s s' =
      (lookup k id s'.registry ≡ lookup k id s.registry)
      × (spec_of service s'.routes ≡ spec_of service s.routes)

  module _ {Snapshot : Type 0} (reader : SnapshotReader Snapshot)
      (page : Target → Request → ℕ) where
    handle-Apart :
        (t : Target) (values : Dict Text Text) (req : Request) (env : Circumstance Snapshot)
        (s : Server Snapshot) (w : Recorder)
        → IsApart t values req
        → Apart s (handle reader page t values req env s w).1
    unfolding handle
    handle-Apart register_service values req env s w h =
        (register-Apart req env.now s.registry w h, refl)
    handle-Apart deregister_instance values req env s w h =
        (deregister-Apart req values s.registry w h, refl)
    handle-Apart heartbeat_instance values req env s w h = (
      unfold handle_heartbeat in
          lookup-heartbeat (namespace_or_default req.namespace) (name_of values) (id_in values)
            env.now s.registry k id
          ∙ (rw h refl),
      refl,
    )
    handle-Apart put_route values req env s w h = (refl, put_route-Apart req values s.routes w h)
    handle-Apart delete_route values req env s w h = (
      refl,
      unfold handle_delete_route in
          spec_of-remove (service_in values) service s.routes ∙ (rw h refl),
    )
    handle-Apart _ values req env s w h = (refl, refl)

    serve_mux-Apart :
        (to : Routed) (req : Request) (env : Circumstance Snapshot) (s : Server Snapshot)
        (w : Recorder)
        → ((t : Target) (values : Dict Text Text) → to ≡ handled t values → IsApart t values req)
        → Apart s (serve_mux reader page to req env s w).1
    unfolding serve_mux
    serve_mux-Apart (handled t values) req env s w h =
        handle-Apart t values req env s w (h t values refl)
    serve_mux-Apart method_not_allowed req env s w h = (refl, refl)
    serve_mux-Apart page_not_found req env s w h = (refl, refl)

    -- A request that names neither the instance nor the route to change it leaves both.
    pub serve-Apart :
        (env : Circumstance Snapshot) (req : Request) (s : Server Snapshot)
        → IsApartRequest req
        → Apart s (serve reader page env req s).1
    unfolding serve
    serve-Apart env req s h = serve_mux-Apart (dispatch req.method req.path) req env s _ h

    pub serve_all-Apart :
        (requests : List (Circumstance Snapshot × Request)) (s : Server Snapshot)
        → All (λ c. IsApartRequest c.1) requests
        → Apart s (serve_all reader page requests s).1
    unfolding serve_all
    serve_all-Apart [] s h = (refl, refl)
    serve_all-Apart ((env, req) ∷ rest) s h =
        let (stays, routed) = serve-Apart env req s h.0 in
        let (later, routed_later) = serve_all-Apart rest (serve reader page env req s).1 h.1 in
        (later ∙ stays, routed_later ∙ routed)
