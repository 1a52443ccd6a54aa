-- ===== src/Xds/Grpc.antt =====
-- internal/xds/server.go: which services the xDS server offers, and the errors it serves with. The
-- libraries that it wires together are a parameter.
use mathlib.Core.Option
use distributed_service_mesh.Base.{
  ◌∙◌, if◌then◌else◌, none, ◌≡◌, some, false, [], true, Bool, Option,
}
use distributed_service_mesh.Base.Outcome.{ok, err, Outcome}
use distributed_service_mesh.Base.Text.{Text}

-- The services that NewServer registers the discovery server as.
pub data DiscoveryService : Type 0 where
  aggregated : DiscoveryService
  clusters : DiscoveryService
  endpoints : DiscoveryService
  listeners : DiscoveryService
  routes : DiscoveryService

-- `net.Listen`, grpc-go with its health service, and the discovery server of go-control-plane.
-- `registered` is what a gRPC server answers a service with, and `is_serving` whether the health
-- server reports SERVING for a name.
pub record GrpcLibrary : Type 1 where
  pub Cache : Type 0
  pub Callbacks : Type 0
  pub Failure : Type 0
  pub Listener : Type 0
  pub Discovery : Type 0
  pub Health : Type 0
  pub Grpc : Type 0
  pub new_discovery : Cache → Option Callbacks → Discovery
  pub new_grpc : Grpc
  pub register : DiscoveryService → Discovery → Grpc → Grpc
  pub new_health : Health
  pub register_health : Health → Grpc → Grpc
  pub set_serving : Text → Health → Health
  pub listen : Text → Outcome Failure Listener
  pub serve : Grpc → Listener → Option Failure
  pub stop_gracefully : Grpc → Grpc
  pub registered : Grpc → DiscoveryService → Option Discovery
  pub is_serving : Health → Text → Bool

-- The errors of Serve.
pub data ServeError (F : Type 0) : Type 0 where
  -- "xds: listen on %s: %w"
  listen_failed : Text → F → ServeError F
  serve_failed : F → ServeError F

abbrev pub same_service : DiscoveryService → DiscoveryService → Bool
same_service aggregated aggregated = true
same_service clusters clusters = true
same_service endpoints endpoints = true
same_service listeners listeners = true
same_service routes routes = true
same_service _ _ = false

module _ (lib : GrpcLibrary) where
  -- A Server, with the health server beside it that the gRPC server shares.
  pub record XdsServer : Type 0 where
    pub grpc_server : lib.Grpc
    pub health : lib.Health

  unfoldable pub register_discovery : lib.Discovery → lib.Grpc → lib.Grpc
  register_discovery xds_srv grpc = lib.register routes xds_srv (
      lib.register listeners xds_srv (
        lib.register endpoints xds_srv
          (lib.register clusters xds_srv (lib.register aggregated xds_srv grpc))))

  unfoldable pub new_server : lib.Cache → Option lib.Callbacks → XdsServer
  unfolding register_discovery
  new_server cache callbacks = record {
    grpc_server =
        lib.register_health lib.new_health
          (register_discovery (lib.new_discovery cache callbacks) lib.new_grpc);
    health = lib.set_serving [] lib.new_health;
  }

  -- The error of the server that accepts on a listener, passed on as it is.
  unfoldable pub serve_listener : lib.Listener → XdsServer → Option (ServeError lib.Failure)
  serve_listener lis s = Option.map serve_failed (lib.serve s.grpc_server lis)

  unfoldable pub serve_on : Text → XdsServer → Option (ServeError lib.Failure)
  unfolding serve_listener
  serve_on addr s = elim (lib.listen addr) [
    | err e ↦ some (listen_failed addr e)
    | ok lis ↦ serve_listener lis s
  ]

  unfoldable pub graceful_stop : XdsServer → XdsServer
  graceful_stop s = record s { grpc_server = lib.stop_gracefully s.grpc_server }

  -- What NewServer relies on: a gRPC server answers a service with what was registered for it last,
  -- a service that it has not yet, and the health server changes no other service.
  pub record IsDocumented : Type 0 where
    pub starts_empty : (d : DiscoveryService) → lib.registered lib.new_grpc d ≡ none
    pub registers :
        (d d' : DiscoveryService) (x : lib.Discovery) (g : lib.Grpc)
        → lib.registered g d ≡ none
        → lib.registered (lib.register d x g) d'
          ≡ (if same_service d d' then some x else lib.registered g d')
    pub keeps :
        (h : lib.Health) (g : lib.Grpc) (d : DiscoveryService)
        → lib.registered (lib.register_health h g) d ≡ lib.registered g d
    pub reports :
        (name : Text) (h : lib.Health) → lib.is_serving (lib.set_serving name h) name ≡ true

  register_discovery-offers :
      (doc : IsDocumented) (x : lib.Discovery) (d : DiscoveryService)
      → lib.registered (register_discovery x lib.new_grpc) d ≡ some x
  unfolding register_discovery
  register_discovery-offers doc x d =
      let g1 = lib.register aggregated x lib.new_grpc in
      let g2 = lib.register clusters x g1 in
      let g3 = lib.register endpoints x g2 in
      let g4 = lib.register listeners x g3 in
      let e1 = λ (s : DiscoveryService).
        doc.registers aggregated s x lib.new_grpc (doc.starts_empty aggregated) in
      let e2 = λ (s : DiscoveryService).
        doc.registers clusters s x g1 (e1 clusters ∙ doc.starts_empty clusters) in
      let e3 = λ (s : DiscoveryService).
        doc.registers endpoints s x g2
          (e2 endpoints ∙ (e1 endpoints ∙ doc.starts_empty endpoints)) in
      let e4 = λ (s : DiscoveryService).
        doc.registers listeners s x g3
          (e3 listeners ∙ (e2 listeners ∙ (e1 listeners ∙ doc.starts_empty listeners))) in
      let e5 = λ (s : DiscoveryService).
        doc.registers routes s x g4
          (e4 routes ∙ (e3 routes ∙ (e2 routes ∙ (e1 routes ∙ doc.starts_empty routes)))) in
      elim d as (λ s. lib.registered (register_discovery x lib.new_grpc) s ≡ some x) [
        | aggregated ↦
            e5 aggregated ∙ (e4 aggregated ∙ (e3 aggregated ∙ (e2 aggregated ∙ e1 aggregated)))
        | clusters ↦ e5 clusters ∙ (e4 clusters ∙ (e3 clusters ∙ e2 clusters))
        | endpoints ↦ e5 endpoints ∙ (e4 endpoints ∙ e3 endpoints)
        | listeners ↦ e5 listeners ∙ e4 listeners
        | routes ↦ e5 routes
      ]

  -- A new server answers all five services with the discovery server of its cache and callbacks,
  -- and reports that it serves.
  pub new_server-offers :
      (doc : IsDocumented) (cache : lib.Cache) (callbacks : Option lib.Callbacks)
      → ((d : DiscoveryService)
          → lib.registered (new_server cache callbacks).grpc_server d
            ≡ some (lib.new_discovery cache callbacks))
        × (lib.is_serving (new_server cache callbacks).health [] ≡ true)
  unfolding new_server
  new_server-offers doc cache callbacks =
      let x = lib.new_discovery cache callbacks in
      (
        λ d.
            doc.keeps lib.new_health (register_discovery x lib.new_grpc) d
            ∙ register_discovery-offers doc x d,
        doc.reports [] lib.new_health,
      )
