-- ===== src/Lib.antt =====
-- The control plane of a service mesh: services register their instances over an HTTP API and send
-- heartbeats, a registry keeps them, a reconciliation loop turns registry and routing specs into a
-- snapshot of xDS resources every interval, and a cache of the go-control-plane library serves the
-- snapshot to the connected proxies. This library models the parts that decide something and proves
-- what holds of them.
--
-- The parts, from the bottom:
--
--   Base             what the parts share: tests on native numbers, lists, texts as lists of bytes,
--                    int64 and uint32 with their wrap-around, maps as lists of entries, sorting,
--                    results with an error
--   Registry         internal/registry/registry.go. Types has Instance and InMemory, Ops one function
--                    for each method of InMemory (register, deregister, heartbeat, list_services,
--                    get_service, healthy_instances, sweep_stale). A map is the list of its entries
--                    in the order that a range meets them; a method that reads time.Now takes the
--                    reading as an argument. View is the specification, an instance for each key and
--                    ID, which the laws of the other modules are stated with
--   Routing          internal/routing/route.go: Spec and its Validate, and the Store with Set, Get and
--                    Delete
--   Xds              internal/xds/snapshot.go. Resources has the messages, with the fields that the
--                    code fills, Build one function for each build function, and Snapshot has
--                    BuildSnapshot; internal/xds/tracker.go: Tracker has the open streams and the
--                    callbacks of ConnectionTracker; internal/xds/server.go: Grpc has what NewServer
--                    registers and how Serve ends
--   Reconciliation   internal/reconciliation/reconciler.go. Reconciler has Reconcile with its metric
--                    calls in their order, Backoff has backoff, Decimal the printed version, and Loop
--                    has Run over the rounds that it makes before its context is done
--   Config           internal/config/config.go: Address has portOf and strconv.Atoi, Settings the
--                    Config with its defaults, Validate and Load over an environment
--   Api              internal/api. Response has the recorder that handlers write through, Request what
--                    they read of a request, Mux the patterns of New and how http.ServeMux chooses,
--                    Instances, Routes and Debug the handlers of registry_handlers.go,
--                    routing_handlers.go and debug_handlers.go, and Server the other handlers, the two
--                    middlewares and `serve`, one request from its method to its response
--   Watcher          cmd/k8s-watcher/main.go: Calls has the three calls to the management API, Reconcile
--                    one reconciliation over any network, and Transport the network that is the server
--                    of Api itself; Start has the flags and `main`
--   Logging          internal/logging/logging.go: the level of a logger, its attributes, and the
--                    correlation ID of a context
--   Metrics          internal/metrics/metrics.go: Collectors has the collectors of New and the readings
--                    that the calls on them make
--   Mesh             internal/controlplane/controlplane.go: System has what New wires together, as one
--                    state that requests, callbacks and reconciliations change; Delivered and Removed
--                    follow one instance from its request into the next snapshot
--   Lifecycle        internal/controlplane/controlplane.go: Run and the goroutines of its two servers as
--                    a step relation, with the readiness flag, the two contexts and the
--                    open xDS streams, for which GracefulStop waits
--   Delivery         the way of an instance through Api, Registry and Xds, and with Reconciliation into
--                    the published snapshot
--   Tests            runs at concrete inputs
--
-- What the program makes is described a second time, field by field and with no function of the
-- program: Registry/Promises.antt has what becomes of a registered and of a swept instance,
-- Api/Expected.antt what a body is stored as, and Xds/Assignments.antt the name of a cluster and the
-- sockets of a load assignment. Statements on stored and published instances are made with these.
--
-- How they interact. BuildSnapshot calls the registry and the store many times, and each call
-- takes its own lock, so handlers may change both between two calls. Xds/Snapshot.antt therefore
-- runs over a history: what the registry, the store and the clock are at each of its calls, with
-- one moment for the list of services, one for the spec of each service and one for each of its
-- splits. A round of Run has a history and a registry of its own, so that nothing is assumed of
-- what the handlers do between rounds.
--
-- A request of the management API changes the server's registry or store, or nothing. A handler
-- that makes two calls of shared state, as the debug handlers do, has the state of the second call
-- from its circumstance, which is any. The watcher drives registry and store only through calls of
-- the API, so what Watcher proves of a reconciliation runs from the watcher's maps through URLs,
-- patterns, handlers and the registry. For that reconciliation it supposes that no one else changes the
-- registry meanwhile, and that each call arrives; the polls before it may have lost any.
--
-- Mesh/System.antt puts server and reconciler together. In one of its reconciliations the history is
-- what requests make of the server: any number of them is served before each call, and the loop
-- goes on with the server that they leave. Callbacks of streams come between reconciliations there,
-- since no call of a reconciliation reads the tracker.
--
-- What is not in the repository is a parameter. XdsLibrary has the packing of a message
-- (anypb.New), NewSnapshot and Snapshot.Consistent, and SnapshotCache has SetSnapshot. The laws
-- need nothing of them: every result that the library may return is a case. time.ParseDuration
-- computes fractions in floating point and is a parameter too, of the laws of Load, which hold for
-- every function. GrpcLibrary has grpc-go, its health service and the discovery server, and
-- KubeLibrary what makes the Kubernetes client. The pages of promhttp and pprof are the parameter
-- `page`, the status that they answer with, and SnapshotReader has the accessors of the library's
-- Snapshot. Network has the HTTP client of the watcher, and RangeOrder the order of a range over a
-- map. Of http.ServeMux, Api/Mux.antt has the documented choice of a pattern by method and path,
-- without its redirects of paths with empty, `.` or `..` segments; a path is the list of its
-- segments, and nothing in it is escaped. JSON is left out: a body is the value that is encoded,
-- and a request has the value that its body is decoded to, or none.
--
-- Numbers. A time and a duration count nanoseconds; sums and products of durations wrap around as
-- int64 does, and the weights of a spec as uint32; a version that is shown as a metric is converted
-- to a float64. The random draw of the jitter is an argument, reduced below the bound that
-- rand.Int63n is called with; a bound that is not positive is a panic, which is `none`. The digits
-- of a version are computed with fuel 20, which is enough since 2 ^ 64 has 20 digits. A float64 is
-- found with fuel 11, enough since it has 53 bits. Every other loop is a recursion on a list.
--
-- Not modelled: the text of JSON bodies; the parsing of flags; what slog prints and what the
-- collectors export; cmd/control-plane, which passes the configuration and the signals to New and
-- Run; cmd/demo-service, a demonstration; and the locks, whose critical sections are the
-- operations.
pub mod Base
pub mod Registry
pub mod Routing
pub mod Xds
pub mod Reconciliation
pub mod Config
pub mod Logging
pub mod Api
pub mod Watcher
pub mod Lifecycle
pub mod Delivery
pub mod Metrics
pub mod Mesh
mod Tests
