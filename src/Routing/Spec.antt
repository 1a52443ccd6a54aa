-- ===== src/Routing/Spec.antt =====
-- internal/routing/route.go: specs and their validation.
use distributed_service_mesh.Base.Text.{text_eq_instance, text_eq, Text}
use distributed_service_mesh.Base.Outcome.{◌>>=◌, err, ok, Outcome}
use distributed_service_mesh.Base.Dict.{put, get, Dict}
use distributed_service_mesh.Base.{
  some, false, none, ◌^◌, ◌%◌, ◌+◌, true, ◌&&◌, is_empty, ◌∷◌, ◌==◌, not, Bool, List, if◌then◌else◌,
  [], ℕ,
}

pub record VersionWeight : Type 0 where
  pub version : Text
  -- a uint32
  pub weight : ℕ

-- Four uint32 bounds; a zero stands for Envoy's default.
pub record CircuitBreaker : Type 0 where
  pub max_connections : ℕ
  pub max_pending_requests : ℕ
  pub max_requests : ℕ
  pub max_retries : ℕ

pub record Spec : Type 0 where
  pub service : Text
  pub splits : List VersionWeight
  pub retry_on : Text
  pub num_retries : ℕ
  pub timeout_ms : ℕ
  pub circuit_breaker : CircuitBreaker

-- The zero values of the two structs.
abbrev pub no_breaker : CircuitBreaker
no_breaker = record {
  max_connections = 0;
  max_pending_requests = 0;
  max_requests = 0;
  max_retries = 0;
}

abbrev pub zero_spec : Spec
zero_spec = record {
  service = [];
  splits = [];
  retry_on = [];
  num_retries = 0;
  timeout_ms = 0;
  circuit_breaker = no_breaker;
}

pub data Error : Type 0 where
  service_required : Error
  splits_required : Error
  duplicate_version : Text → Error
  weights_sum : ℕ → Error
  retries_required : Error

-- `seen[v]`: a missing entry reads as false.
abbrev pub seen_at : Text → Dict Text Bool → Bool
seen_at v seen = elim (get v seen) [ none ↦ false | some b ↦ b ]

-- The loop of `Validate`; `total` is a uint32, which wraps around.
unfoldable pub check_splits : Dict Text Bool → ℕ → List VersionWeight → Outcome Error ℕ
check_splits seen total [] = ok total
check_splits seen total (sp ∷ rest) =
    let more = check_splits (put sp.version true seen) ((total + sp.weight) % 2 ^ 32) rest in
    if seen_at sp.version seen then err (duplicate_version sp.version) else more

-- The tests of `Validate` after the loop.
unfoldable pub check_total : Spec → ℕ → Outcome Error (Unit {0})
check_total s total =
    if not (total == 100)
    then err (weights_sum total)
    else if not (text_eq s.retry_on []) && (s.num_retries == 0)
    then err retries_required
    else ok tt

unfoldable pub validate : Spec → Outcome Error (Unit {0})
unfolding check_total
validate s =
    if text_eq s.service []
    then err service_required
    else if is_empty s.splits
    then err splits_required
    else do total ← check_splits [] 0 s.splits; check_total s total
