-- ===== src/Api/Request.antt =====
-- What the handlers of internal/api read of a request: its method, the segments of its path after
-- decoding, the query parameters, a header, and what decoding its body gives.
use distributed_service_mesh.Routing.Spec.{Spec}
use distributed_service_mesh.Base.Int.{ℤ}
use distributed_service_mesh.Base.Dict.{get, Dict}
use distributed_service_mesh.Base.Text.{text_eq_instance, codes, text_eq, Text}
use distributed_service_mesh.Base.{some, none, [], Option, List, if◌then◌else◌}

pub record RegisterServiceRequest : Type 0 where
  pub service_name : Text
  pub namespace : Text
  pub instance_id : Text
  pub address : Text
  pub port : ℤ
  pub protocol : Text
  pub version : Text
  pub metadata : Dict Text Text

-- A parameter or header that is not there reads as the empty text. A body is `none` where it does
-- not decode to the type that the handler asks for.
pub record Request : Type 0 where
  pub method : Text
  pub path : List Text
  pub namespace : Text
  pub healthy : Text
  pub correlation_id : Text
  pub registration : Option RegisterServiceRequest
  pub spec : Option Spec

-- `r.PathValue(name)`
unfoldable pub path_value : Text → Dict Text Text → Text
path_value name values = elim (get name values) [ none ↦ [] | some v ↦ v ]

unfoldable pub namespace_or_default : Text → Text
namespace_or_default ns = if text_eq ns [] then codes "default" else ns
