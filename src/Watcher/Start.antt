-- ===== src/Watcher/Start.antt =====
-- cmd/k8s-watcher/main.go: the flags, the clients, and `main` from its start over the polls that it
-- makes. The Kubernetes client library is a parameter.
use distributed_service_mesh.Watcher.Polls.{watch, Poll}
use distributed_service_mesh.Registry.Types.{Duration}
use distributed_service_mesh.Base.Outcome.{ok-injective, Outcome-cases, ok, err, Outcome}
use distributed_service_mesh.Base.Int.{ℤ, pos}
use distributed_service_mesh.Watcher.Calls.{Watcher, Network}
use distributed_service_mesh.Base.Text.{text_eq, codes, Text}
use distributed_service_mesh.Base.{
  ap, ◌∙◌, sym, refl, inl, arith, inr, ◌↔◌, not, [], ◌*◌, if◌then◌else◌, List, ◌≡◌,
}
use distributed_service_mesh.Watcher.Reconcile.{Registered}

pub record Flags : Type 0 where
  pub namespace : Text
  pub service : Text
  pub control_plane_addr : Text
  pub port : ℤ
  pub poll_interval : Duration
  pub kubeconfig : Text

-- What stands where a flag is not given.
unfoldable pub default_flags : Flags
default_flags = record {
  namespace = codes "default";
  service = codes "backend-a";
  control_plane_addr = codes "http://control-plane:8080";
  port = pos 9000;
  poll_interval = pos (2 * 1_000_000_000);
  kubeconfig = [];
}

-- `clientcmd.BuildConfigFromFlags`, `rest.InClusterConfig` and `kubernetes.NewForConfig`.
pub record KubeLibrary : Type 1 where
  pub Config : Type 0
  pub Client : Type 0
  pub Failure : Type 0
  pub build_config_from_flags : Text → Text → Outcome Failure Config
  pub in_cluster_config : Outcome Failure Config
  pub new_for_config : Config → Outcome Failure Client

-- The errors that `main` ends with.
pub data StartError (F : Type 0) : Type 0 where
  -- "build kube config: %v"
  build_config_failed : F → StartError F
  -- "build kube client: %v"
  build_client_failed : F → StartError F

-- The fields of the watcher that `main` sets.
unfoldable pub watcher_of : Flags → Watcher
watcher_of flags = record {
  service = flags.service;
  cp_addr = flags.control_plane_addr;
  port = flags.port;
}

module _ (kube : KubeLibrary) where
  unfoldable pub rest_config : Text → Outcome kube.Failure kube.Config
  rest_config kubeconfig =
      if not (text_eq kubeconfig [])
      then kube.build_config_from_flags [] kubeconfig
      else kube.in_cluster_config

  -- The client for the configuration.
  unfoldable pub client_of : Text → Outcome (StartError kube.Failure) kube.Client
  unfolding rest_config
  client_of kubeconfig = elim (rest_config kubeconfig) [
    | err e ↦ err (build_config_failed e)
    | ok config ↦ elim (kube.new_for_config config) [
      | err e ↦ err (build_client_failed e)
      | ok client ↦ ok client
    ]
  ]

  -- `main` after `flag.Parse`. `polls` has what the client returns for the Service of the flags in
  -- their namespace, and between two polls `main` sleeps for the interval.
  unfoldable pub watch_main :
      (net : Network)
      → Flags
      → (kube.Client → Text → Text → List Poll)
      → net.World
      → Outcome (StartError kube.Failure) (Registered × net.World)
  unfolding client_of watcher_of
  watch_main net flags polls world = elim (client_of flags.kubeconfig) [
    | err e ↦ err e
    | ok client ↦
        ok (watch net (watcher_of flags) (polls client flags.namespace flags.service) ([], world))
  ]

  client_of_iff :
      (kubeconfig : Text) (client : kube.Client)
      → (client_of kubeconfig ≡ ok client) ↔ (
          (config : kube.Config) × (rest_config kubeconfig ≡ ok config)
          × (kube.new_for_config config ≡ ok client))
  unfolding client_of
  client_of_iff kubeconfig client = (
    λ e. elim (Outcome-cases (rest_config kubeconfig)) [
      | inr (x, bad) ↦ absurd (ground (arith, bad, e))
      | inl (config, made) ↦ elim (Outcome-cases (kube.new_for_config config)) [
        | inr (x, bad) ↦ absurd (ground (arith, made, bad, e))
        | inl (client', new) ↦ (config, made, ground (arith, made, new, e))
      ]
    ],
    λ (config, made, new). rw (made, client_of) (rw new refl),
  )

  -- `main` gets to its loop exactly if the one of the two configurations that the flag asks for is
  -- made, and the client for it. Otherwise it makes no call of the management API.
  pub watch_main_iff :
      (net : Network) (flags : Flags) (polls : kube.Client → Text → Text → List Poll)
      (world : net.World) (st : Registered × net.World)
      → (watch_main net flags polls world ≡ ok st) ↔ (
          (config : kube.Config) × (client : kube.Client) × (rest_config flags.kubeconfig
            ≡ ok config)
          × (kube.new_for_config config ≡ ok client)
          × (watch net (watcher_of flags) (polls client flags.namespace flags.service) ([], world)
              ≡ st))
  unfolding watch_main
  watch_main_iff net flags polls world st =
      let polled : kube.Client → Registered × net.World = λ client.
        watch net (watcher_of flags) (polls client flags.namespace flags.service) ([], world) in
      (
        λ e. elim (Outcome-cases (client_of flags.kubeconfig)) [
          | inr (x, bad) ↦ absurd (ground (arith, bad, e))
          | inl (client, made) ↦
              let (config, asked, new) = (client_of_iff flags.kubeconfig client).0 made in
              let run : watch_main net flags polls world ≡ ok (polled client) =
                rw (made, watch_main) refl in
              (config, client, asked, new, ok-injective (sym run ∙ e))
        ],
        λ (config, client, asked, new, same).
            rw ((client_of_iff flags.kubeconfig client).1 (config, asked, new), watch_main)
              (ap ok same),
      )
