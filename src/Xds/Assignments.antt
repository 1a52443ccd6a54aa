-- ===== src/Xds/Assignments.antt =====
-- What the proxies read out of a load assignment, described without the functions that build it.
use mathlib.Core.Option.{some-injective}
use distributed_service_mesh.Base.Int.{to_uint32}
use mathlib.Core.List.{append-nil}
use distributed_service_mesh.Registry.Listing.{id_of}
use distributed_service_mesh.Base.Sort.{find}
use distributed_service_mesh.Xds.Resources.{
  SocketAddress, LocalityLbEndpoints, ClusterLoadAssignment,
}
use distributed_service_mesh.Registry.Types.{Instance}
use distributed_service_mesh.Xds.Build.{cluster_name, build_cluster_load_assignment, lb_endpoint}
use distributed_service_mesh.Base.{
  suc, inr, inl, Bool-cases, refl, arith, ◌∙◌, Has, ◌++◌, ap, [], some, ◌∷◌, map, if◌then◌else◌,
  List, ◌≡◌,
}
use distributed_service_mesh.Base.Text.{codes, text_eq, Text}

-- The name of the cluster of a service and a version.
abbrev pub name_for : Text → Text → Text
name_for service version = if text_eq version [] then service else service ++ codes "::" ++ version

-- Where an instance is reached. A port is written as a uint32.
abbrev pub socket_of : Instance → SocketAddress
socket_of inst = record { address = inst.address; port_value = to_uint32 inst.port }

unfoldable pub locality_sockets : List LocalityLbEndpoints → List SocketAddress
locality_sockets [] = []
locality_sockets (l ∷ ls) = map (λ e. e.endpoint) l.lb_endpoints ++ locality_sockets ls

-- All sockets of a load assignment, in order.
unfoldable pub sockets : ClusterLoadAssignment → List SocketAddress
unfolding locality_sockets
sockets a = locality_sockets a.endpoints

-- The load assignment of a cluster has one socket for each of the instances, and no other.
abbrev pub Assigns : Text → List Instance → ClusterLoadAssignment → Type 0
Assigns name xs a = (a.cluster_name ≡ name) × (sockets a ≡ map socket_of xs)

endpoints-lb_endpoint :
    (xs : List Instance) → map (λ e. e.endpoint) (map lb_endpoint xs) ≡ map socket_of xs
unfolding lb_endpoint
endpoints-lb_endpoint [] = refl
endpoints-lb_endpoint (x ∷ xs) = ap (λ l. socket_of x ∷ l) (endpoints-lb_endpoint xs)

pub build_cluster_load_assignment-Assigns :
    (service version : Text) (xs : List Instance)
    → Assigns
        (name_for service version)
        xs
        (build_cluster_load_assignment (cluster_name service version) xs)
unfolding build_cluster_load_assignment cluster_name sockets
build_cluster_load_assignment-Assigns service version xs =
    (refl, append-nil _ ∙ endpoints-lb_endpoint xs)

-- The socket of an instance that is found is among the sockets of all.
pub socket_of-found :
    (id : Text) (xs : List Instance) {inst : Instance}
    → find id_of id xs ≡ some inst
    → Has (map socket_of xs) (socket_of inst)
unfolding find
socket_of-found id [] e = absurd (ground (arith, e))
socket_of-found id (x ∷ xs) {inst} e = elim (Bool-cases (text_eq (id_of x) id)) [
  | inl here ↦
      let same : x ≡ inst = some-injective _ _ (ground (arith, here, e)) in
      (0, ap (λ i. some (socket_of i)) same)
  | inr later ↦
      let rest : find id_of id xs ≡ some inst = ground (arith, later, e) in
      let (k, there) = socket_of-found id xs rest in (suc k, there)
]
