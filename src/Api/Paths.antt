-- ===== src/Api/Paths.antt =====
-- internal/api/server.go: the paths of the API, and the handler that each of them reaches.
use distributed_service_mesh.Api.Instances.{id_in, name_of}
use distributed_service_mesh.Base.Dict.{get, Dict}
use distributed_service_mesh.Api.Request.{path_value}
use distributed_service_mesh.Api.Mux.{
  deregister_instance, get_service_page, heartbeat_instance, register_service, handled,
  match_method, dispatch,
}
use distributed_service_mesh.Base.Text.{text_eq, codes, Text}
use distributed_service_mesh.Base.{refl, ◌≢◌, [], ◌∷◌, List, ◌≡◌}

abbrev pub services_path : List Text
services_path = codes "v1" ∷ codes "services" ∷ []

abbrev pub service_path : Text → List Text
service_path name = codes "v1" ∷ codes "services" ∷ name ∷ []

abbrev pub instance_path : Text → Text → List Text
instance_path name id = codes "v1" ∷ codes "services" ∷ name ∷ codes "instances" ∷ id ∷ []

abbrev pub heartbeat_path : Text → Text → List Text
heartbeat_path name id =
    codes "v1" ∷ codes "services" ∷ name ∷ codes "instances" ∷ id ∷ codes "heartbeat" ∷ []

abbrev pub named : Text → Dict Text Text
named name = (codes "name", name) ∷ []

abbrev pub named_with_id : Text → Text → Dict Text Text
named_with_id name id = (codes "name", name) ∷ (codes "id", id) ∷ []

pub dispatch-register : dispatch (codes "POST") services_path ≡ handled register_service []
unfolding dispatch match_method text_eq
dispatch-register = refl

pub dispatch-get_service :
    (name : Text)
    → name ≢ []
    → dispatch (codes "GET") (service_path name) ≡ handled get_service_page (named name)
unfolding dispatch match_method text_eq
dispatch-get_service [] h = absurd (h refl)
dispatch-get_service (b ∷ bs) h = refl

pub dispatch-deregister :
    (name id : Text)
    → name ≢ []
    → id ≢ []
    → dispatch (codes "DELETE") (instance_path name id)
      ≡ handled deregister_instance (named_with_id name id)
unfolding dispatch match_method text_eq
dispatch-deregister [] id h k = absurd (h refl)
dispatch-deregister (b ∷ bs) [] h k = absurd (k refl)
dispatch-deregister (b ∷ bs) (c ∷ cs) h k = refl

pub dispatch-heartbeat :
    (name id : Text)
    → name ≢ []
    → id ≢ []
    → dispatch (codes "POST") (heartbeat_path name id)
      ≡ handled heartbeat_instance (named_with_id name id)
unfolding dispatch match_method text_eq
dispatch-heartbeat [] id h k = absurd (h refl)
dispatch-heartbeat (b ∷ bs) [] h k = absurd (k refl)
dispatch-heartbeat (b ∷ bs) (c ∷ cs) h k = refl

pub name_of-named : (name : Text) → name_of (named name) ≡ name
unfolding path_value get text_eq
name_of-named name = refl

pub name_of-named_with_id : (name id : Text) → name_of (named_with_id name id) ≡ name
unfolding path_value get text_eq
name_of-named_with_id name id = refl

pub id_in-named_with_id : (name id : Text) → id_in (named_with_id name id) ≡ id
unfolding path_value get text_eq
id_in-named_with_id name id = refl
