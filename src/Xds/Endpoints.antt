-- ===== src/Xds/Endpoints.antt =====
-- The endpoints of a snapshot: which instances stand behind each cluster.
use distributed_service_mesh.Registry.Health.{fresh-exact}
use distributed_service_mesh.Xds.Assignments.{
  build_cluster_load_assignment-Assigns, name_for, Assigns,
}
use distributed_service_mesh.Xds.Resources.{ClusterLoadAssignment}
use mathlib.Core.Option.{some-injective}
use mathlib.Core.Path.{subst}
use distributed_service_mesh.Registry.Ops.{healthy_instances}
use distributed_service_mesh.Registry.View.{lookup}
use distributed_service_mesh.Routing.Spec.{VersionWeight, CircuitBreaker}
use distributed_service_mesh.Base.Sort.{find, IsAscending}
use distributed_service_mesh.Base.Sort.Filter.{keep_if-IsAscending, find-keep_if, only}
use distributed_service_mesh.Registry.Listing.{
  find-healthy_instances, healthy_instances-IsAscending, id_of, fresh,
}
use distributed_service_mesh.Registry.Types.{key, Instance}
use distributed_service_mesh.Registry.Validity.{IsValid}
use distributed_service_mesh.Xds.Build.{
  cluster_name, build_cluster_load_assignment, filter_by_version,
}
use distributed_service_mesh.Base.Text.{text_eq, Text}
use distributed_service_mesh.Xds.Snapshot.{
  default_namespace, stale_after, split_instances, History, Moment, build_splits,
}
use distributed_service_mesh.Base.{
  ◌*◌, leb, sym, zero, ap, inr, ◌∙◌, suc, inl, Bool-cases, ◌+◌, none, refl, arith, ◌||◌, get_elem?,
  some, [], ◌∷◌, ◌&&◌, keep_if, ℕ, Option, List, Bool, ◌≡◌,
}

filter_by_version-eq :
    (xs : List Instance) (version : Text)
    → filter_by_version xs version ≡ keep_if (λ inst. text_eq inst.version version) xs
unfolding filter_by_version
filter_by_version-eq [] version = refl
filter_by_version-eq (x ∷ xs) version = ground (arith, filter_by_version-eq xs version)

-- An instance is marked healthy, had its last heartbeat at most 15 s before, and is of the split's
-- version unless the split names none.
abbrev pub serves : Text → Moment → Instance → Bool
serves version m inst =
    (inst.healthy && leb m.now (inst.last_heartbeat + 15 * 1_000_000_000))
    && (text_eq version [] || text_eq inst.version version)

fresh-serves :
    (m : Moment) (inst : Instance)
    → fresh stale_after m.now inst
      ≡ (inst.healthy && leb m.now (inst.last_heartbeat + 15 * 1_000_000_000))
fresh-serves m inst = fresh-exact (15 * 1_000_000_000) m.now inst (omega arith) (omega arith)

only-only :
    {A : Type 0} (p q : A → Bool) (o : Option A) → only q (only p o) ≡ only (λ a. p a && q a) o
only-only p q none = refl
only-only p q (some a) = ground arith

only-congr :
    {A : Type 0} (p q : A → Bool) (o : Option A) → ((a : A) → p a ≡ q a) → only p o ≡ only q o
only-congr p q none e = refl
only-congr p q (some a) e = rw (e a)

module _ (m : Moment) (service : Text) (v : IsValid m.registry) where
  -- Under each ID stands the stored instance, if it serves the split.
  pub find-split_instances :
      (version id : Text)
      → find id_of id (split_instances m service version)
        ≡ only (serves version m) (lookup (key default_namespace service) id m.registry)
  unfolding split_instances
  find-split_instances version id =
      let xs = healthy_instances default_namespace service stale_after m.now m.registry in
      let k = key default_namespace service in
      let e = find-healthy_instances default_namespace service m.registry v stale_after m.now id in
      elim (Bool-cases (text_eq version [])) [
        | inl any ↦
            rw (any, split_instances)
              (e
                ∙ only-congr (fresh stale_after m.now) (serves version m) (lookup k id m.registry)
                    (λ a. ground (arith, any, fresh-serves m a)))
        | inr one ↦
            rw (one, split_instances)
              (ap (find id_of id) (filter_by_version-eq xs version)
                ∙ (find-keep_if id_of (λ inst. text_eq inst.version version) id xs
                      (healthy_instances-IsAscending default_namespace service m.registry v
                        stale_after m.now)
                    ∙ (ap (only (λ inst. text_eq inst.version version)) e
                        ∙ (only-only (fresh stale_after m.now)
                              (λ inst. text_eq inst.version version) (lookup k id m.registry)
                            ∙ only-congr _ (serves version m) (lookup k id m.registry)
                                (λ a. ground (arith, one, fresh-serves m a))))))
      ]

  pub split_instances-IsAscending :
      (version : Text) → IsAscending id_of (split_instances m service version)
  unfolding split_instances
  split_instances-IsAscending version =
      let xs = healthy_instances default_namespace service stale_after m.now m.registry in
      let a =
        healthy_instances-IsAscending default_namespace service m.registry v stale_after m.now in
      elim (Bool-cases (text_eq version [])) [
        | inl any ↦ rw (any, split_instances) a
        | inr one ↦
            rw (one, split_instances)
              (subst (IsAscending id_of) (sym (filter_by_version-eq xs version))
                (keep_if-IsAscending id_of (λ inst. text_eq inst.version version) xs a))
      ]

build_splits-built :
    (h : History) (t : ℕ) (service : Text) (cb : CircuitBreaker) (splits : List VersionWeight)
    (j : ℕ) (split : VersionWeight)
    → ((c : ℕ) → IsValid (h c).registry)
    → get_elem? splits j ≡ some split
    → (xs : List Instance) × (get_elem? (build_splits h t service cb splits).endpoints j
        ≡ some (build_cluster_load_assignment (cluster_name service split.version) xs))
      × IsAscending id_of xs
      × ((id : Text)
          → find id_of id xs
            ≡ only
                (serves split.version (h (t + j)))
                (lookup (key default_namespace service) id (h (t + j)).registry))
unfolding build_splits
build_splits-built h t service cb [] j split v e = absurd (ground (arith, e))
build_splits-built h t service cb (sp ∷ rest) zero split v e =
    let same : sp ≡ split = some-injective _ _ e in
    (
      split_instances (h t) service split.version,
      ap
          (λ (s : VersionWeight). some (
            build_cluster_load_assignment (cluster_name service s.version)
              (split_instances (h t) service s.version)))
          same,
      split_instances-IsAscending (h t) service (v t) split.version,
      λ id.
          find-split_instances (h t) service (v t) split.version id
          ∙ ap
              (λ n.
                only (serves split.version (h n))
                  (lookup (key default_namespace service) id (h n).registry))
              (omega arith),
    )
build_splits-built h t service cb (sp ∷ rest) (suc j) split v e =
    let (xs, a, b, c) = build_splits-built h (suc t) service cb rest j split v e in
    let moment : suc t + j ≡ t + suc j = omega arith in
    (
      xs,
      a,
      b,
      λ id.
          c id
          ∙ ap
              (λ n.
                only (serves split.version (h n))
                  (lookup (key default_namespace service) id (h n).registry))
              moment,
    )

-- With a valid registry at every moment, the load assignment of the `j`-th split has the name that
-- is for the service and the version, and the sockets, address and port, of a list of instances and
-- no other. The list has, in strictly ascending order of the IDs, exactly the stored instances of
-- the service that serve the split at the moment of its call: marked healthy, with a heartbeat at
-- most 15 s before, and of its version if it names one.
pub build_splits-endpoints :
    (h : History) (t : ℕ) (service : Text) (cb : CircuitBreaker) (splits : List VersionWeight)
    (j : ℕ) (split : VersionWeight)
    → ((c : ℕ) → IsValid (h c).registry)
    → get_elem? splits j ≡ some split
    → (a : ClusterLoadAssignment) × (xs : List Instance) × (get_elem?
          (build_splits h t service cb splits).endpoints
          j
        ≡ some a)
      × Assigns (name_for service split.version) xs a
      × IsAscending id_of xs
      × ((id : Text)
          → find id_of id xs
            ≡ only
                (serves split.version (h (t + j)))
                (lookup (key default_namespace service) id (h (t + j)).registry))
build_splits-endpoints h t service cb splits j split v e =
    let (xs, at, ascending, held) = build_splits-built h t service cb splits j split v e in
    (
      build_cluster_load_assignment (cluster_name service split.version) xs,
      xs,
      at,
      build_cluster_load_assignment-Assigns service split.version xs,
      ascending,
      held,
    )
