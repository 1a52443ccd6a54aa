-- ===== src/Watcher/Paths.antt =====
-- cmd/k8s-watcher/main.go: the paths that the watcher prints are the paths that the server reads.
use distributed_service_mesh.Api.Paths.{instance_path, heartbeat_path, services_path}
use distributed_service_mesh.Registry.Namespaces.{slash_byte}
use distributed_service_mesh.Watcher.Transport.{tail_of, path_in, split_path}
use distributed_service_mesh.Base.Text.{drop-length-append, codes, Free, Text}
use distributed_service_mesh.Watcher.Calls.{heartbeat_path_of, instance_path_of, Watcher, Network}
use distributed_service_mesh.Base.{
  refl, inr, false, inl, ap, ◌∙◌, Bool-cases, ◌==◌, [], arith, ◌∷◌, ◌≢◌, List, ◌++◌, ◌≡◌,
}

split_path-cons : (t : Text) → (s : Text) × (rest : List Text) × (split_path t ≡ s ∷ rest)
unfolding split_path
split_path-cons [] = ([], [], refl)
split_path-cons (b ∷ bs) =
    let (s, rest, e) = split_path-cons bs in
    elim (Bool-cases (b == slash_byte)) [
      | inl slash ↦ ([], s ∷ rest, rw (e, slash) refl)
      | inr other ↦ (b ∷ s, rest, rw (e, other) refl)
    ]

-- Up to the next slash.
split_path-append :
    (a t : Text) → Free slash_byte a → split_path (a ++ slash_byte ∷ t) ≡ a ∷ split_path t
unfolding split_path
split_path-append [] t free = let (s, rest, e) = split_path-cons t in rw e refl
split_path-append (b ∷ a) t free =
    let other : (b == slash_byte) ≡ false = ground (arith, free.0) in
    rw (split_path-append a t free.1, other) refl

split_path-Free : (a : Text) → Free slash_byte a → split_path a ≡ a ∷ []
unfolding split_path
split_path-Free [] free = refl
split_path-Free (b ∷ a) free =
    let other : (b == slash_byte) ≡ false = ground (arith, free.0) in
    rw (split_path-Free a free.1, other) refl

-- A service name or an ID that stands for itself in a path.
abbrev pub IsPlain : Text → Type 0
IsPlain t = (t ≢ []) × Free slash_byte t

v1-Free : Free slash_byte (codes "v1")
v1-Free = omega arith

services-Free : Free slash_byte (codes "services")
services-Free = omega arith

instances-Free : Free slash_byte (codes "instances")
instances-Free = omega arith

heartbeat-Free : Free slash_byte (codes "heartbeat")
heartbeat-Free = omega arith

path_in-append : (addr path : Text) → path_in addr (addr ++ path) ≡ tail_of (split_path path)
unfolding path_in
path_in-append addr path = ap (λ t. tail_of (split_path t)) (drop-length-append addr path)

split_services :
    (t : Text)
    → split_path (codes "/v1/services/" ++ t) ≡ [] ∷ codes "v1" ∷ codes "services" ∷ split_path t
split_services t =
    split_path-append [] (codes "v1/services/" ++ t) tt
    ∙ ap (◌∷◌ []) (
        split_path-append (codes "v1") (codes "services/" ++ t) v1-Free
        ∙ ap (◌∷◌ (codes "v1")) (split_path-append (codes "services") t services-Free))

split_instances :
    (service t : Text)
    → Free slash_byte service
    → split_path (service ++ (codes "/instances/" ++ t))
      ≡ service ∷ codes "instances" ∷ split_path t
split_instances service t free =
    split_path-append service (codes "instances/" ++ t) free
    ∙ ap (◌∷◌ service) (split_path-append (codes "instances") t instances-Free)

module _ (net : Network) (w : Watcher) (plain : IsPlain w.service) where
  pub path_in-services : path_in w.cp_addr (w.cp_addr ++ codes "/v1/services") ≡ services_path
  path_in-services =
      path_in-append w.cp_addr (codes "/v1/services")
      ∙ ap tail_of (
          split_path-append [] (codes "v1/services") tt
          ∙ ap (◌∷◌ []) (
              split_path-append (codes "v1") (codes "services") v1-Free
              ∙ ap (◌∷◌ (codes "v1")) (split_path-Free (codes "services") services-Free)))

  -- The path of a heartbeat has the service and the ID as its segments, if they stand for themselves.
  pub path_in-heartbeat :
      (id : Text)
      → IsPlain id
      → path_in w.cp_addr (w.cp_addr ++ heartbeat_path_of net w id) ≡ heartbeat_path w.service id
  unfolding heartbeat_path_of
  path_in-heartbeat id plain_id =
      path_in-append w.cp_addr _
      ∙ ap tail_of (
          split_services _
          ∙ ap (λ rest. [] ∷ codes "v1" ∷ codes "services" ∷ rest)
              (split_instances w.service (id ++ codes "/heartbeat") plain.1
                ∙ ap (λ rest. w.service ∷ codes "instances" ∷ rest)
                    (split_path-append id (codes "heartbeat") plain_id.1
                      ∙ ap (◌∷◌ id) (split_path-Free (codes "heartbeat") heartbeat-Free))))

  pub path_in-instance :
      (id : Text)
      → IsPlain id
      → path_in w.cp_addr (w.cp_addr ++ instance_path_of net w id) ≡ instance_path w.service id
  unfolding instance_path_of
  path_in-instance id plain_id =
      path_in-append w.cp_addr _
      ∙ ap tail_of (
          split_services _
          ∙ ap (λ rest. [] ∷ codes "v1" ∷ codes "services" ∷ rest)
              (split_instances w.service id plain.1
                ∙ ap (λ rest. w.service ∷ codes "instances" ∷ rest)
                    (split_path-Free id plain_id.1)))
