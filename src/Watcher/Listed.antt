-- ===== src/Watcher/Listed.antt =====
-- cmd/k8s-watcher/main.go: the maps of a reconciliation: what is listed, and what is registered.
use distributed_service_mesh.Watcher.Paths.{IsPlain}
use distributed_service_mesh.Base.Dict.Entries.{
  put-Entries, delete-Entries, Entries-get, Entries, Entries-of_get,
}
use distributed_service_mesh.Watcher.Rounds.{PlainIds}
use distributed_service_mesh.Base.Text.{text_eq_instance, Text}
use distributed_service_mesh.Watcher.Calls.{Watcher, Network}
use distributed_service_mesh.Base.Dict.{put-IsMap, delete-IsMap, put, delete, IsMap, Dict}
use distributed_service_mesh.Watcher.Reconcile.{
  instance_id_for, register_one, sync_one, prune_all, prune_one, sync_all, EndpointAddress,
  RangeOrder, add_subsets, Registered, add_addresses, reconcile,
}
use distributed_service_mesh.Base.{
  refl, ◌∙◌, arith, sym, none, true, some, Option, All, Bool, [], ◌∷◌, List, ◌≡◌,
}

-- The IDs of the addresses stand for themselves in a path.
abbrev pub ArePlain : List (List EndpointAddress) → Type 0
ArePlain = All (All (λ addr. IsPlain (instance_id_for addr)))

abbrev pub IsPlainMap : Dict Text Text → Type 0
IsPlainMap m = IsMap m × PlainIds m

add_addresses-IsPlainMap :
    (addrs : List EndpointAddress) (current : Dict Text Text)
    → All (λ addr. IsPlain (instance_id_for addr)) addrs
    → IsPlainMap current
    → IsPlainMap (add_addresses addrs current)
unfolding add_addresses
add_addresses-IsPlainMap [] current p h = h
add_addresses-IsPlainMap (addr ∷ addrs) current p (v, e) =
    add_addresses-IsPlainMap addrs (put (instance_id_for addr) addr.ip current) p.1 (
      put-IsMap (instance_id_for addr) addr.ip current v,
      put-Entries (λ i b. IsPlain i) (instance_id_for addr) addr.ip current p.0 e,
    )

add_subsets-IsPlainMap :
    (subsets : List (List EndpointAddress)) (current : Dict Text Text)
    → ArePlain subsets
    → IsPlainMap current
    → IsPlainMap (add_subsets subsets current)
unfolding add_subsets
add_subsets-IsPlainMap [] current p h = h
add_subsets-IsPlainMap (subset ∷ subsets) current p h =
    add_subsets-IsPlainMap subsets (add_addresses subset current) p.1
      (add_addresses-IsPlainMap subset current p.0 h)

pub order-PlainIds :
    {V : Type 0} (range : RangeOrder V) (m : Dict Text V)
    → IsMap m
    → PlainIds m
    → PlainIds (range.order m)
order-PlainIds range m v p =
    Entries-of_get (λ i b. IsPlain i) (range.order m) (range.order_IsMap m v)
      λ k b g. Entries-get (λ i c. IsPlain i) k m p (sym (range.get_order k m) ∙ g)

pub add_subsets-IsPlain :
    (subsets : List (List EndpointAddress)) → ArePlain subsets → IsPlainMap (add_subsets subsets [])
unfolding IsMap
add_subsets-IsPlain subsets p = add_subsets-IsPlainMap subsets [] p (tt, tt)

-- A map whose IDs stand for themselves in a path, and all have the value true.
abbrev pub IsProper : Registered → Type 0
IsProper registered = IsMap registered × PlainIds registered × Entries (λ i b. b ≡ true) registered

-- The loops keep it, whatever the calls return.
module _ (net : Network) (w : Watcher) where
  sync_one-IsProper :
      (id addr : Text) (st : Registered × net.World)
      → IsPlain id
      → IsProper st.0
      → IsProper (sync_one net w id addr st).0
  unfolding sync_one register_one
  sync_one-IsProper id addr (registered, world) plain_id (v, p, t) =
      let added : IsProper (put id true registered) = (
        put-IsMap id true registered v,
        put-Entries (λ i b. IsPlain i) id true registered plain_id p,
        put-Entries (λ i b. b ≡ true) id true registered refl t,
      ) in
      ground (arith, added, v, p, t)

  pub sync_all-IsProper :
      (l : Dict Text Text) (st : Registered × net.World)
      → PlainIds l
      → IsProper st.0
      → IsProper (sync_all net w l st).0
  unfolding sync_all
  sync_all-IsProper [] st p h = h
  sync_all-IsProper ((j, addr) ∷ l) st p h =
      sync_all-IsProper l (sync_one net w j addr st) p.1 (sync_one-IsProper j addr st p.0 h)

  prune_one-IsProper :
      (current : Dict Text Text) (id : Text) (st : Registered × net.World)
      → IsProper st.0
      → IsProper (prune_one net w current id st).0
  unfolding prune_one
  prune_one-IsProper current id (registered, world) (v, p, t) =
      let dropped : IsProper (delete id registered) = (
        delete-IsMap id registered v,
        delete-Entries (λ i b. IsPlain i) id registered p,
        delete-Entries (λ i b. b ≡ true) id registered t,
      ) in
      ground (arith, dropped, v, p, t)

  prune_all-IsProper :
      (current : Dict Text Text) (l : Registered) (st : Registered × net.World)
      → IsProper st.0
      → IsProper (prune_all net w current l st).0
  unfolding prune_all
  prune_all-IsProper current [] st h = h
  prune_all-IsProper current ((j, b) ∷ l) st h =
      prune_all-IsProper current l (prune_one net w current j st)
        (prune_one-IsProper current j st h)

  abbrev pub IsPlainPoll : Option (List (List EndpointAddress)) → Type 0
  IsPlainPoll none = Unit
  IsPlainPoll (some subsets) = ArePlain subsets

  pub reconcile-IsProper :
      (by_id : RangeOrder Text) (by_registered : RangeOrder Bool)
      (subsets : Option (List (List EndpointAddress))) (st : Registered × net.World)
      → IsPlainPoll subsets
      → IsProper st.0
      → IsProper (reconcile net w by_id by_registered subsets st).1.0
  unfolding reconcile
  reconcile-IsProper by_id by_registered none st p h = h
  reconcile-IsProper by_id by_registered (some subsets) st p h =
      let listed = add_subsets subsets [] in
      let (v, e) = add_subsets-IsPlain subsets p in
      let st' = sync_all net w (by_id.order listed) st in
      prune_all-IsProper listed (by_registered.order st'.0) st'
        (sync_all-IsProper (by_id.order listed) st (order-PlainIds by_id listed v e) h)
