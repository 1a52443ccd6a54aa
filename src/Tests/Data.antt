-- ===== src/Tests/Data.antt =====
-- Inputs that the tests share.
use distributed_service_mesh.Base.Dict.{put, get}
use distributed_service_mesh.Xds.Resources.{ResourceLists}
use distributed_service_mesh.Base.Outcome.{err, ok}
use distributed_service_mesh.Base.Int.{pos}
use distributed_service_mesh.Registry.Ops.{register}
use distributed_service_mesh.Base.Text.{text_eq, Text, codes}
use distributed_service_mesh.Xds.Build.{XdsLibrary}
use distributed_service_mesh.Routing.Spec.{check_total, check_splits, validate, no_breaker, Spec}
use distributed_service_mesh.Xds.Snapshot.{History}
use distributed_service_mesh.Reconciliation.Reconciler.{SnapshotCache}
use distributed_service_mesh.Registry.Validity.{new-IsValid, register-IsValid, IsValid}
use distributed_service_mesh.Routing.Store.{new_store, set, Store}
use distributed_service_mesh.Registry.Types.{new, InMemory, Instance}
use distributed_service_mesh.Base.{
  ◌==◌, length, if◌then◌else◌, refl, ◌≡◌, false, [], ◌∷◌, ◌+◌, none, some, ℕ,
}

abbrev pub second_ns : ℕ
second_ns = 1_000_000_000

abbrev pub web : Instance
web = record {
  service_name = codes "web";
  namespace = codes "default";
  instance_id = codes "i1";
  address = codes "10.0.0.1";
  port = pos 9000;
  protocol = codes "http";
  version = codes "v1";
  metadata = [];
  healthy = false;
  registered_at = 0;
  last_heartbeat = 0;
}

abbrev pub one_web : InMemory
one_web = (register web 5 new).1

pub one_web-IsValid : IsValid one_web
one_web-IsValid = register-IsValid web 5 new new-IsValid

-- 90 per cent to v1 and 10 to v2
abbrev pub canary : Spec
canary = record {
  service = codes "web";
  splits =
      record { version = codes "v1"; weight = 90 }
      ∷ record { version = codes "v2"; weight = 10 }
      ∷ [];
  retry_on = codes "5xx";
  num_retries = 3;
  timeout_ms = 1500;
  circuit_breaker = no_breaker;
}

-- The store that holds the canary spec, and a history in which nothing changes.
abbrev pub canary_store : Store
canary_store = (set canary new_store).1

abbrev pub quiet : History
quiet _ = record { registry = one_web; routes = some canary_store; now = 6 }

-- A library that packs every message to a number. A snapshot is its resources, consistent if there
-- are as many load assignments as clusters.
abbrev pub demo : XdsLibrary
demo = record {
  Failure = Text;
  Any = ℕ;
  pack_router = ok 0;
  pack_manager = λ _. ok 1;
  Snapshot = ResourceLists ℕ;
  new_snapshot = λ _ res. ok res;
  inconsistency = λ res.
      if length res.clusters == length res.endpoints then none else some (codes "load assignments");
}

-- A library that refuses every snapshot.
abbrev pub broken : XdsLibrary
broken = record {
  Failure = Text;
  Any = ℕ;
  pack_router = ok 0;
  pack_manager = λ _. ok 1;
  Snapshot = ResourceLists ℕ;
  new_snapshot = λ _ _. err (codes "no");
  inconsistency = λ _. none;
}

abbrev pub demo_cache : SnapshotCache demo
demo_cache = record { Cache = ℕ; set_snapshot = λ _ _ c. (none, c + 1) }

abbrev pub broken_cache : SnapshotCache broken
broken_cache = record { Cache = ℕ; set_snapshot = λ _ _ c. (none, c + 1) }

pub canary-validate : validate canary ≡ ok tt
unfolding validate check_splits check_total get put text_eq
canary-validate = refl
