-- ===== src/Xds/Ports.antt =====
-- Listeners and routes: one of each for a service, named after it, on ports in the order of the
-- names.
use mathlib.Core.Option.{some-injective}
use mathlib.Core.Path.{ap₂, subst}
use distributed_service_mesh.Base.Outcome.{ok-injective, err, >>=-succeeds, Outcome, ok}
use distributed_service_mesh.Xds.Rounds.{build_services_induction, joined, listener_of}
use distributed_service_mesh.Xds.Resources.{Listener, ResourceLists}
use distributed_service_mesh.Base.Text.{codes, Text}
use distributed_service_mesh.Xds.Snapshot.{
  build_listener_failed, wrap, listener_port, route_config_name, build_services, Resources, History,
}
use distributed_service_mesh.Xds.Build.{
  listener_with, connection_manager, build_route_configuration, build_listener, XdsLibrary,
}
use distributed_service_mesh.Base.{
  zero, get_elem?-lt, ◌∙◌, length-map, sym, ◌<◌, ◌≤◌, ap, length, refl, arith, ◌+◌, some, get_elem?,
  ◌∷◌, suc, ◌++◌, map, List, ℕ, ◌≡◌,
}

-- The listener and the route configuration of the `j`-th service.
pub record IsServed {Any : Type 0} (i : ℕ) (services : List Text) (res : ResourceLists Any)
    : Type 0 where
  pub listener_names : map (λ l. l.name) res.listeners ≡ map (λ s. s ++ codes "-listener") services
  pub route_names : map (λ rc. rc.name) res.route_configs ≡ map route_config_name services
  pub ports :
      (j : ℕ) (l : Listener Any)
      → get_elem? res.listeners j ≡ some l
      → l.address.port_value ≡ listener_port (i + j)

module _ (lib : XdsLibrary) (h : History) where
  wrap-ok :
      {A : Type 0} {F : Type 0} (f : lib.Failure → F) (o : Outcome lib.Failure A) {a : A}
      → wrap f o ≡ ok a
      → o ≡ ok a
  wrap-ok f (ok a) e = cc
  wrap-ok f (err x) e = cc

  listener-shape :
      (i : ℕ) (service : Text) {l : Listener lib.Any}
      → listener_of lib h i service ≡ ok l
      → (l.name ≡ service ++ codes "-listener") × (l.address.port_value ≡ listener_port i)
  unfolding build_listener
  listener-shape i service {l} e =
      let (router, p, e') =
        >>=-succeeds lib.pack_router _ (wrap-ok (build_listener_failed service) _ e) in
      let (manager, q, e'') =
        >>=-succeeds
          (lib.pack_manager (connection_manager lib service (route_config_name service) router)) _
          e' in
      subst
        (λ x. (x.name ≡ service ++ codes "-listener") × (x.address.port_value ≡ listener_port i))
        (ok-injective e'') (unfold listener_with in (refl, refl))

  round-IsServed :
      (t j : ℕ) (service : Text) (rest : List Text) (listener : Listener lib.Any)
      (more : Resources lib)
      → listener_of lib h j service ≡ ok listener
      → IsServed (suc j) rest more
      → IsServed j (service ∷ rest) (joined lib h t service listener more)
  unfolding build_route_configuration
  round-IsServed t j service rest listener more l k = record {
    listener_names = ap₂ ◌∷◌ (listener-shape j service l).0 k.listener_names;
    route_names = ap (λ ns. route_config_name service ∷ ns) k.route_names;
    ports = port_at;
  }
    where
      port_at :
          (q : ℕ) (x : Listener lib.Any)
          → get_elem? (listener ∷ more.listeners) q ≡ some x
          → x.address.port_value ≡ listener_port (j + q)
      port_at zero x g =
          ap (λ y. y.address.port_value) (sym (some-injective _ _ g))
          ∙ ((listener-shape j service l).1 ∙ ap listener_port (omega arith))
      port_at (suc q) x g = k.ports q x g ∙ ap listener_port (omega arith)

  -- The built resources have one listener and one route configuration for each of the services, in
  -- their order and named after them, and the `j`-th listener has the `j`-th port.
  pub build_services-IsServed :
      (t i : ℕ) (services : List Text) {res : Resources lib}
      → build_services lib h t i services ≡ ok res
      → IsServed i services res
  build_services-IsServed t i services e =
      build_services_induction lib h (λ _ j s r. IsServed j s r)
        (λ _ _. record { listener_names = refl; route_names = refl; ports = λ j l p. ground arith })
        (round-IsServed) t i services e

-- With at most 45536 services no two of the built listeners share a port, and every port is below
-- 65536.
pub listener-ports :
    (lib : XdsLibrary) (h : History) (t : ℕ) (services : List Text) {res : Resources lib}
    → length services ≤ 45536
    → build_services lib h t 0 services ≡ ok res
    → (j k : ℕ) (l m : Listener lib.Any) → get_elem? res.listeners j ≡ some l
    → get_elem? res.listeners k ≡ some m
    → (l.address.port_value < 65536) × (l.address.port_value ≡ m.address.port_value → j ≡ k)
unfolding listener_port
listener-ports lib h t services {res} few e j k l m p q =
    let served = build_services-IsServed lib h t 0 services e in
    let n : length res.listeners ≡ length services =
      sym (length-map (λ (x : Listener lib.Any). x.name) res.listeners)
      ∙ (ap length served.listener_names
          ∙ length-map (λ (s : Text). s ++ codes "-listener") services) in
    let a = served.ports j l p in
    let b = served.ports k m q in
    let c = get_elem?-lt res.listeners j p in
    let d = get_elem?-lt res.listeners k q in (omega arith, λ s. omega arith)
