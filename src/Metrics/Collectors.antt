-- ===== src/Metrics/Collectors.antt =====
-- internal/metrics/metrics.go: the collectors, and the calls on them.
use distributed_service_mesh.Base.Text.{contains, codes, Text}
use distributed_service_mesh.Reconciliation.Reconciler.{
  observe_duration, inc_updates, inc_update_failures, inc_failures, inc_attempts, set_endpoints,
  set_services, set_version, add_stale, MetricCall,
}
use Prim.Native.String.{String}
use distributed_service_mesh.Base.{
  none, if◌then◌else◌, ◌+◌, ◌++◌, [], some, suc, Option, ◌∷◌, ℕ, List,
}

pub data Kind : Type 0 where
  counter : Kind
  gauge : Kind
  histogram : Kind

-- The options that `New` gives for a collector; all have the namespace `controlplane`, and histograms
-- the default buckets.
pub record Opts : Type 0 where
  pub kind : Kind
  pub name : Text
  pub labels : List Text

abbrev pub opts : Kind → String → List Text → Opts
opts kind name labels = record { kind = kind; name = codes name; labels = labels }

abbrev pub collectors : List Opts
collectors =
    opts counter "http_requests_total" (codes "path" ∷ codes "method" ∷ codes "status" ∷ [])
    ∷ opts histogram "http_request_duration_seconds" (codes "path" ∷ codes "method" ∷ [])
    ∷ opts gauge "services_total" []
    ∷ opts gauge "endpoints_total" []
    ∷ opts gauge "envoy_connections_total" []
    ∷ opts counter "xds_updates_total" []
    ∷ opts counter "xds_update_failures_total" []
    ∷ opts gauge "config_version" []
    ∷ opts counter "reconciliation_attempts_total" []
    ∷ opts counter "reconciliation_failures_total" []
    ∷ opts histogram "reconciliation_duration_seconds" []
    ∷ opts counter "stale_instances_transitioned_total" []
    ∷ []

-- The name under which a collector is registered: namespace, underscore, name.
abbrev pub full_name : Opts → Text
full_name o = codes "controlplane_" ++ o.name

-- `promauto.With(reg)`: it panics at a collector whose name is registered already.
unfoldable pub register_all : List Opts → List Text → Option (List Text)
register_all [] registered = some registered
register_all (o ∷ rest) registered =
    let more = register_all rest (full_name o ∷ registered) in
    if contains (full_name o) registered then none else more

-- The values of the collectors that the reconciler calls; a histogram shows how often it was called.
pub record Readings : Type 0 where
  pub attempts : ℕ
  pub failures : ℕ
  pub updates : ℕ
  pub update_failures : ℕ
  pub stale : ℕ
  pub version : ℕ
  pub services : ℕ
  pub endpoints : ℕ
  pub durations : ℕ

abbrev pub zero_readings : Readings
zero_readings = record {
  attempts = 0;
  failures = 0;
  updates = 0;
  update_failures = 0;
  stale = 0;
  version = 0;
  services = 0;
  endpoints = 0;
  durations = 0;
}

unfoldable pub collect : MetricCall → Readings → Readings
collect inc_attempts m = record m { attempts = suc m.attempts }
collect (add_stale n) m = record m { stale = m.stale + n }
collect inc_failures m = record m { failures = suc m.failures }
collect inc_update_failures m = record m { update_failures = suc m.update_failures }
collect inc_updates m = record m { updates = suc m.updates }
collect (set_version n) m = record m { version = n }
collect (set_services n) m = record m { services = n }
collect (set_endpoints n) m = record m { endpoints = n }
collect observe_duration m = record m { durations = suc m.durations }

unfoldable pub collect_all : List MetricCall → Readings → Readings
unfolding collect
collect_all [] m = m
collect_all (c ∷ cs) m = collect_all cs (collect c m)
