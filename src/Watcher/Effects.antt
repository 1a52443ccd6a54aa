-- ===== src/Watcher/Effects.antt =====
-- cmd/k8s-watcher/main.go: what each call of the watcher does at the server, seen through the
-- instances that the server stores for the watcher's service.
use distributed_service_mesh.Registry.Namespaces.{register-ok}
use mathlib.Core.Option
use mathlib.Core.Option.{some-injective}
use distributed_service_mesh.Api.Answers.{heartbeat-answers, deregister-answers, register-answers}
use distributed_service_mesh.Api.Instances.{instance_of}
use distributed_service_mesh.Registry.Ops.{register, stamped}
use distributed_service_mesh.Registry.View.{
  lookup-heartbeat, lookup-register, refreshed, lookup-deregister, lookup,
}
use distributed_service_mesh.Registry.Types.{InMemory, Time, key, Instance}
use distributed_service_mesh.Watcher.Transport.{decoded, request_of, send_call, direct}
use distributed_service_mesh.Base.Text.{text_eq_iff, text_eq_refl, codes, text_eq, Text}
use distributed_service_mesh.Watcher.Paths.{
  path_in-heartbeat, path_in-instance, path_in-services, IsPlain,
}
use distributed_service_mesh.Watcher.Calls.{
  heartbeat_path_of, instance_path_of, HttpCall, is_success, post, RegistrationBody, Network,
  register_pod, deregister_pod, heartbeat_pod, Watcher,
}
use distributed_service_mesh.Api.Server.{Server, Circumstance}
use distributed_service_mesh.Api.Request.{RegisterServiceRequest, namespace_or_default, Request}
use distributed_service_mesh.Api.Mux.{Target}
use distributed_service_mesh.Api.Debug.{SnapshotReader}
use distributed_service_mesh.Base.{
  ◌≢◌, false, ◌⊎◌, arith, inr, ◌∙◌, sym, ap, inl, ◌++◌, none, if◌then◌else◌, some, refl, true, [],
  Option, ℕ, ◌≡◌,
}

default_namespace_lem : namespace_or_default [] ≡ codes "default"
unfolding namespace_or_default text_eq
default_namespace_lem = refl

-- A registration that gives no namespace is stored in the default one.
lookup-register_default :
    (d : RegisterServiceRequest) (now : Time) (r : InMemory) (j : Text)
    → d.namespace ≡ []
    → d.service_name ≢ []
    → d.instance_id ≢ []
    → lookup (key (codes "default") d.service_name) j (register (instance_of d) now r).1 ≡ (
        if text_eq d.instance_id j
        then some (stamped (instance_of d) now)
        else lookup (key (codes "default") d.service_name) j r)
unfolding instance_of
lookup-register_default d now r j none_given hn hi =
    let k = key (codes "default") d.service_name in
    let here : key (instance_of d).namespace d.service_name ≡ k =
      ap (λ n. key n d.service_name) (ap namespace_or_default none_given ∙ default_namespace_lem) in
    lookup-register (instance_of d) now r k j (
      register-ok (instance_of d) now r
        (ground (arith, text_eq_iff d.service_name [], text_eq_iff d.instance_id [])))
    ∙ rw here (ground (arith, text_eq_refl k))

module _ {Snapshot : Type 0} (reader : SnapshotReader Snapshot) (page : Target → Request → ℕ)
    (weather : ℕ → Circumstance Snapshot) (w : Watcher) (plain : IsPlain w.service) where
  abbrev pub At : Type 0
  At = ℕ × Server Snapshot

  abbrev pub net : Network
  net = direct reader page weather w.cp_addr

  -- What the server stores for the service under an ID, in the namespace that the watcher gets.
  abbrev pub stored : At → Text → Option Instance
  stored at id = lookup (key (codes "default") w.service) id at.1.registry

  -- A heartbeat that finds its instance refreshes it, and another one changes nothing.
  pub heartbeat_pod-effect :
      (id : Text) (at : At)
      → IsPlain id
      → let (beaten, at') = heartbeat_pod net w id at in
        ((inst : Instance) × (stored at id ≡ some inst)
          × (beaten ≡ true)
          × ((j : Text)
              → stored at' j ≡ (
                  if text_eq id j
                  then Option.map (refreshed (weather at.0).now) (stored at j)
                  else stored at j)))
        ⊎ ((stored at id ≡ none) × (beaten ≡ false) × ((j : Text) → stored at' j ≡ stored at j))
  unfolding heartbeat_pod post send_call request_of is_success namespace_or_default text_eq
  heartbeat_pod-effect id (n, s) plain_id =
      let call : HttpCall = record {
        method = codes "POST";
        url = w.cp_addr ++ heartbeat_path_of net w id;
        body = none;
      } in
      let req = request_of w.cp_addr call in
      let k = key (codes "default") w.service in
      elim (heartbeat-answers reader page (weather n) req s w.service id plain.0 plain_id.0 refl
        (path_in-heartbeat net w plain id plain_id)) [
          | inl (inst, there, status, _, made) ↦ inl (
            inst,
            there,
            rw status refl,
            λ j.
                ap (λ (x : Server Snapshot). lookup k j x.registry) made
                ∙ lookup-heartbeat (codes "default") w.service id (weather n).now s.registry k j
                ∙ ground (arith, text_eq_refl k),
          )
          | inr (absent, status, same) ↦ inr (
            absent,
            rw status refl,
            λ j. ap (λ (x : Server Snapshot). lookup k j x.registry) same,
          )
        ]

  -- What the server stores of a registration by the watcher.
  abbrev pub made_of : Text → Text → RegistrationBody
  made_of id addr = record {
    service_name = w.service;
    instance_id = id;
    address = addr;
    port = w.port;
  }

  pub register_pod-effect :
      (id addr : Text) (at : At)
      → IsPlain id
      → let (done, at') = register_pod net w id addr at in
        (done ≡ true)
        × ((j : Text)
            → stored at' j ≡ (
                if text_eq id j
                then some (stamped (instance_of (decoded (made_of id addr))) (weather at.0).now)
                else stored at j))
  unfolding register_pod post send_call request_of is_success decoded
  register_pod-effect id addr (n, s) plain_id =
      let call : HttpCall = record {
        method = codes "POST";
        url = w.cp_addr ++ codes "/v1/services";
        body = some (made_of id addr);
      } in
      let req = request_of w.cp_addr call in
      let k = key (codes "default") w.service in
      let inst = instance_of (decoded (made_of id addr)) in
      elim (register-answers reader page (weather n) req s refl (path_in-services net w plain)) [
        | inl (d, e, _, _, status, made, _) ↦
            let same : d ≡ decoded (made_of id addr) = some-injective _ _ (sym e) in
            (
              rw status refl,
              λ j.
                  ap (λ (x : Server Snapshot). lookup k j x.registry) made
                  ∙ ap (λ x. lookup k j (register (instance_of x) (weather n).now s.registry).1)
                      same
                  ∙ lookup-register_default (decoded (made_of id addr)) (weather n).now s.registry j
                      refl plain.0 plain_id.0,
            )
        | inr (refused, _, _) ↦
            absurd (refused (decoded (made_of id addr), refl, plain.0, plain_id.0))
      ]

  pub deregister_pod-effect :
      (id : Text) (at : At)
      → IsPlain id
      → let (done, at') = deregister_pod net w id at in
        (done ≡ true) × ((j : Text) → stored at' j ≡ (if text_eq id j then none else stored at j))
  unfolding deregister_pod send_call request_of is_success namespace_or_default text_eq
  deregister_pod-effect id (n, s) plain_id =
      let call : HttpCall = record {
        method = codes "DELETE";
        url = w.cp_addr ++ instance_path_of net w id;
        body = none;
      } in
      let req = request_of w.cp_addr call in
      let k = key (codes "default") w.service in
      let (status, _, made) =
        deregister-answers reader page (weather n) req s w.service id plain.0 plain_id.0 refl
          (path_in-instance net w plain id plain_id) in
      (
        rw status refl,
        λ j.
            ap (λ (x : Server Snapshot). lookup k j x.registry) made
            ∙ lookup-deregister (codes "default") w.service id s.registry k j
            ∙ ground (arith, text_eq_refl k),
      )
