-- ===== src/Api/Expected.antt =====
-- internal/api: what a registration is to store, field by field.
use distributed_service_mesh.Registry.View.{lookup-register, at, lookup}
use distributed_service_mesh.Base.Outcome.{ok}
use distributed_service_mesh.Base.Text.{codes, text_eq, Text}
use distributed_service_mesh.Api.Instances.{instance_of}
use distributed_service_mesh.Registry.Ops.{register, stamped}
use distributed_service_mesh.Api.Request.{namespace_or_default, RegisterServiceRequest}
use distributed_service_mesh.Base.{ap, ◌∙◌, some, [], refl, if◌then◌else◌, true, ◌≡◌}
use distributed_service_mesh.Registry.Types.{key, InMemory, Instance, Time}

-- The namespace of a body, or default.
abbrev pub namespace_for : RegisterServiceRequest → Text
namespace_for d = if text_eq d.namespace [] then codes "default" else d.namespace

-- The fields of the body, marked healthy, with the time of the registration.
abbrev pub registered_as : RegisterServiceRequest → Time → Instance
registered_as d now = record {
  service_name = d.service_name;
  namespace = namespace_for d;
  instance_id = d.instance_id;
  address = d.address;
  port = d.port;
  protocol = d.protocol;
  version = d.version;
  metadata = d.metadata;
  healthy = true;
  registered_at = now;
  last_heartbeat = now;
}

pub stamped-registered_as :
    (d : RegisterServiceRequest) (now : Time) → stamped (instance_of d) now ≡ registered_as d now
unfolding stamped instance_of namespace_or_default
stamped-registered_as d now = refl

-- Register of a body with both names stores it under its key and ID and changes nothing else.
pub lookup-register_expected :
    (d : RegisterServiceRequest) (now : Time) (r : InMemory)
    → (register (instance_of d) now r).0 ≡ ok tt
    → (k id : Text)
    → lookup k id (register (instance_of d) now r).1 ≡ (
        if at (key (namespace_for d) d.service_name) d.instance_id k id
        then some (registered_as d now)
        else lookup k id r)
unfolding instance_of namespace_or_default
lookup-register_expected d now r done k id =
    lookup-register (instance_of d) now r k id done
    ∙ ap
        (λ inst.
          if at (key (namespace_for d) d.service_name) d.instance_id k id
          then some inst
          else lookup k id r)
        (stamped-registered_as d now)
