-- ===== src/Registry/Types.antt =====
-- internal/registry/registry.go: instances, errors, the in-memory state and its clock readings.
use distributed_service_mesh.Base.{ℕ, ◌-◌, Bool, [], ◌++◌, leb, if◌then◌else◌, min}
use distributed_service_mesh.Base.Int.{ℤ, pos, negsuc, max_int64}
use distributed_service_mesh.Base.Text.{Text, codes}
use distributed_service_mesh.Base.Dict.{Dict}

-- A reading of the clock, in nanoseconds since some instant before all readings.
abbrev pub Time : Type 0
Time = ℕ

-- `time.Duration`: a signed number of nanoseconds.
abbrev pub Duration : Type 0
Duration = ℤ

-- `t.Sub(u)` of the time package: the difference, or the nearest Duration if it does not fit.
unfoldable pub since : Time → Time → Duration
since t u = if leb u t then pos (min (t - u) max_int64) else negsuc (min (u - t - 1) max_int64)

pub record Instance : Type 0 where
  pub service_name : Text
  pub namespace : Text
  pub instance_id : Text
  pub address : Text
  pub port : ℤ
  pub protocol : Text
  pub version : Text
  pub metadata : Dict Text Text
  pub healthy : Bool
  pub registered_at : Time
  pub last_heartbeat : Time

pub data Error : Type 0 where
  -- `ErrNotFound`
  not_found : Error
  -- "registry: service name and instance ID are required"
  missing_names : Error

-- The instances of one service, by instance ID.
abbrev pub Members : Type 0
Members = Dict Text Instance

-- `svcs`: key(namespace, service) -> instance ID -> Instance.
pub record InMemory : Type 0 where
  pub svcs : Dict Text Members

unfoldable pub key : Text → Text → Text
key namespace name = namespace ++ codes "/" ++ name

-- `New`
abbrev pub new : InMemory
new = record { svcs = [] }
