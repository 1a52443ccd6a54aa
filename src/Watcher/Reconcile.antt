-- ===== src/Watcher/Reconcile.antt =====
-- cmd/k8s-watcher/main.go: one reconciliation of the watcher. `registered` is a map of which it
-- reads whether an ID has the value true.
use distributed_service_mesh.Base.Dict.{delete, put, IsMap, get, Dict}
use distributed_service_mesh.Base.Text.{text_eq, text_eq_instance, Text}
use distributed_service_mesh.Watcher.Calls.{
  register_pod, deregister_pod, heartbeat_pod, Watcher, Network,
}
use distributed_service_mesh.Base.{
  not, true, if◌then◌else◌, some, [], false, none, ◌∷◌, Option, Bool, List, ◌≡◌,
}

-- The fields that the watcher reads of a corev1.EndpointAddress.
pub record EndpointAddress : Type 0 where
  pub ip : Text
  pub target_ref : Option Text

unfoldable pub instance_id_for : EndpointAddress → Text
instance_id_for addr = elim addr.target_ref [
  | none ↦ addr.ip
  | some name ↦ if not (text_eq name []) then name else addr.ip
]

-- The inner loop that fills `current`, for the addresses of one subset.
unfoldable pub add_addresses : List EndpointAddress → Dict Text Text → Dict Text Text
unfolding instance_id_for
add_addresses [] current = current
add_addresses (addr ∷ addrs) current =
    add_addresses addrs (put (instance_id_for addr) addr.ip current)

unfoldable pub add_subsets : List (List EndpointAddress) → Dict Text Text → Dict Text Text
unfolding add_addresses
add_subsets [] current = current
add_subsets (subset ∷ subsets) current = add_subsets subsets (add_addresses subset current)

abbrev pub Registered : Type 0
Registered = Dict Text Bool

unfoldable pub is_registered : Text → Registered → Bool
is_registered id registered = elim (get id registered) [ none ↦ false | some b ↦ b ]

-- The order in which a range meets the entries of a map: any, with the same entries.
pub record RangeOrder (A : Type 0) : Type 0 where
  pub order : Dict Text A → Dict Text A
  pub get_order : (k : Text) (m : Dict Text A) → get k (order m) ≡ get k m
  pub order_IsMap : (m : Dict Text A) → IsMap m → IsMap (order m)

module _ (net : Network) (w : Watcher) where
  -- The end of a round of the first loop.
  unfoldable pub register_one : Text → Text → Registered × net.World → Registered × net.World
  register_one id addr (registered, world) =
      let (done, world') = register_pod net w id addr world in
      if done then (put id true registered, world') else (registered, world')

  unfoldable pub sync_one : Text → Text → Registered × net.World → Registered × net.World
  unfolding register_one
  sync_one id addr (registered, world) =
      let (beaten, world') = heartbeat_pod net w id world in
      if is_registered id registered
      then if beaten then (registered, world') else register_one id addr (registered, world')
      else register_one id addr (registered, world)

  -- The first loop, over the entries of `current`.
  unfoldable pub sync_all : Dict Text Text → Registered × net.World → Registered × net.World
  unfolding sync_one
  sync_all [] st = st
  sync_all ((id, addr) ∷ current) st = sync_all current (sync_one id addr st)

  unfoldable pub prune_one : Dict Text Text → Text → Registered × net.World → Registered × net.World
  prune_one current id (registered, world) =
      let (done, world') = deregister_pod net w id world in
      elim (get id current) [
        | some addr ↦ (registered, world)
        | none ↦ if done then (delete id registered, world') else (registered, world')
      ]

  -- The second loop, over the entries that `registered` has when it begins: a round deletes its own
  -- entry at most.
  unfoldable pub prune_all :
      Dict Text Text → Registered → Registered × net.World → Registered × net.World
  unfolding prune_one
  prune_all current [] st = st
  prune_all current ((id, b) ∷ rest) st = prune_all current rest (prune_one current id st)

  -- `reconcile`, of the subsets that `Get` returns, or `none` where it fails; and whether it returns
  -- no error.
  unfoldable pub reconcile :
      RangeOrder Text
      → RangeOrder Bool
      → Option (List (List EndpointAddress))
      → Registered × net.World
      → Bool × (Registered × net.World)
  unfolding sync_all prune_all add_subsets
  reconcile by_id by_registered subsets st = elim subsets [
    | none ↦ (false, st)
    | some found ↦
        let current = add_subsets found [] in
        let st' = sync_all (by_id.order current) st in
        (true, prune_all current (by_registered.order st'.0) st')
  ]
