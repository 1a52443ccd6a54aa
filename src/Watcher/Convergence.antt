-- ===== src/Watcher/Convergence.antt =====
-- cmd/k8s-watcher/main.go: what one reconciliation against the server of the management API leaves,
-- when no one else changes the registry meanwhile.
use distributed_service_mesh.Watcher.Listed.{
  IsProper, IsPlainMap, ArePlain, sync_all-IsProper, order-PlainIds,
}
use distributed_service_mesh.Watcher.Listed.{
  add_subsets-IsPlain, sync_all-IsProper, IsPlainMap, order-PlainIds, ArePlain,
}
use mathlib.Core.Option.{none-ne-some}
use distributed_service_mesh.Registry.Types.{Instance}
use distributed_service_mesh.Watcher.Loops.{
  prune_all-Gone, prune_all-Same, sync_all-Same, sync_all-Synced, server, entry, Now,
}
use distributed_service_mesh.Watcher.Calls.{Watcher}
use distributed_service_mesh.Api.Server.{Circumstance}
use distributed_service_mesh.Base.Dict.Entries.{Entries-get, Entries}
use distributed_service_mesh.Watcher.Rounds.{IsSynced-IsSame, IsSynced, PlainIds}
use distributed_service_mesh.Watcher.Paths.{IsPlain}
use distributed_service_mesh.Api.Request.{Request}
use distributed_service_mesh.Api.Mux.{Target}
use distributed_service_mesh.Base.Text.{text_eq_instance, Text}
use distributed_service_mesh.Api.Debug.{SnapshotReader}
use distributed_service_mesh.Base.Dict.{get, Dict}
use distributed_service_mesh.Watcher.Reconcile.{
  sync_all, reconcile, Registered, EndpointAddress, RangeOrder, add_subsets, is_registered,
}
use distributed_service_mesh.Base.{
  Bool-cases, if◌then◌else◌, arith, inr, inl, ◌∙◌, Option-cases, sym, none, some, Bool, false, ℕ,
  true, [], List, ◌≡◌,
}

-- Where every value is true, what is not registered is not there.
get-unregistered :
    (id : Text) (registered : Registered)
    → Entries (λ i b. b ≡ true) registered
    → is_registered id registered ≡ false
    → get id registered ≡ none
unfolding is_registered
get-unregistered id registered t h = elim (Option-cases (get id registered)) [
  | inl absent ↦ absent
  | inr (b, found) ↦
      absurd (ground (arith, found, h, Entries-get (λ i c. c ≡ true) id registered t found))
]

get-registered :
    (id : Text) (registered : Registered)
    → is_registered id registered ≡ true
    → (b : Bool) × (get id registered ≡ some b)
unfolding is_registered
get-registered id registered h = elim (Option-cases (get id registered)) [
  | inl absent ↦ absurd (ground (arith, absent, h))
  | inr (b, found) ↦ (b, found)
]

module _ {Snapshot : Type 0} (reader : SnapshotReader Snapshot) (page : Target → Request → ℕ)
    (weather : ℕ → Circumstance Snapshot) (w : Watcher) (plain : IsPlain w.service)
    (by_id : RangeOrder Text) (by_registered : RangeOrder Bool)
    (subsets : List (List EndpointAddress)) (are_plain : ArePlain subsets)
    (st : Now reader page weather w plain) (proper : IsProper st.0) where
  -- The addresses by ID, as `reconcile` lists them.
  abbrev pub listed_now : Dict Text Text
  listed_now = add_subsets subsets []

  abbrev pub after : Now reader page weather w plain
  after = (reconcile (server reader page weather w plain) w by_id by_registered (some subsets) st).1

  middle : Now reader page weather w plain
  middle = sync_all (server reader page weather w plain) w (by_id.order listed_now) st

  listed-IsPlainMap : IsPlainMap listed_now
  listed-IsPlainMap = add_subsets-IsPlain subsets are_plain

  ordered-PlainIds : PlainIds (by_id.order listed_now)
  ordered-PlainIds = order-PlainIds by_id listed_now listed-IsPlainMap.0 listed-IsPlainMap.1

  middle-IsProper : IsProper middle.0
  unfolding middle
  middle-IsProper =
      sync_all-IsProper (server reader page weather w plain) w (by_id.order listed_now) st
        ordered-PlainIds proper

  registered-PlainIds : PlainIds (by_registered.order middle.0)
  registered-PlainIds = order-PlainIds by_registered middle.0 middle-IsProper.0 middle-IsProper.1

  -- After one reconciliation against the modelled server, with no one else changing it meanwhile,
  -- each ID that is listed with an address has a stored instance that is marked healthy and is
  -- remembered as registered, whatever the registry and `registered` were before and in whatever
  -- order the ranges go. The service and the IDs stand for themselves in a path, and the values of
  -- `registered` are true, as the watcher leaves them.
  pub reconcile-endpoint :
      (id addr : Text)
      → get id listed_now ≡ some addr
      → IsSynced reader page weather w plain id after
  unfolding reconcile middle
  reconcile-endpoint id addr found =
      let (synced, _) =
        sync_all-Synced reader page weather w plain (by_id.order listed_now) st id {addr = addr}
          (by_id.order_IsMap listed_now listed-IsPlainMap.0) ordered-PlainIds
          (by_id.get_order id listed_now ∙ found) in
      IsSynced-IsSame reader page weather w plain id middle _
        (prune_all-Same reader page weather w plain listed_now (by_registered.order middle.0) middle
          id registered-PlainIds (inr (λ e. none-ne-some addr (sym e ∙ found))))
        synced

  -- After one reconciliation against the modelled server, with no one else changing it meanwhile,
  -- where the service and the IDs stand for themselves in a path and the values of `registered` are
  -- true, a listed ID that was remembered as registered and had a stored instance has the address
  -- of that instance, whatever address is listed for it.
  pub reconcile-address :
      (id addr : Text) (inst : Instance)
      → get id listed_now ≡ some addr
      → entry reader page weather w plain st id ≡ some inst
      → is_registered id st.0 ≡ true
      → (inst' : Instance) × (entry reader page weather w plain after id ≡ some inst')
        × (inst'.address ≡ inst.address)
  unfolding reconcile middle
  reconcile-address id addr inst found there known =
      let (_, keeps) =
        sync_all-Synced reader page weather w plain (by_id.order listed_now) st id {addr = addr}
          (by_id.order_IsMap listed_now listed-IsPlainMap.0) ordered-PlainIds
          (by_id.get_order id listed_now ∙ found) in
      let (inst', there', address) = keeps inst there known in
      let same =
        prune_all-Same reader page weather w plain listed_now (by_registered.order middle.0) middle
          id registered-PlainIds (inr (λ e. none-ne-some addr (sym e ∙ found))) in
      (inst', same.same_instance ∙ there', address)

  -- After one reconciliation against the modelled server, with no one else changing it meanwhile,
  -- where the service and the IDs stand for themselves in a path and the values of `registered` are
  -- true, an ID that is not listed is not remembered as registered. Its instance is gone if it was
  -- remembered before, and otherwise as it was.
  pub reconcile-gone :
      (id : Text)
      → get id listed_now ≡ none
      → (is_registered id after.0 ≡ false)
        × (entry reader page weather w plain after id
            ≡ (if is_registered id st.0 then none else entry reader page weather w plain st id))
  unfolding reconcile middle
  reconcile-gone id absent =
      let first =
        sync_all-Same reader page weather w plain (by_id.order listed_now) st id ordered-PlainIds
          (by_id.get_order id listed_now ∙ absent) in
      elim (Bool-cases (is_registered id st.0)) [
        | inl known ↦
            let (b, met) = get-registered id middle.0 (first.same_listed ∙ known) in
            let (none_there, dropped) =
              prune_all-Gone reader page weather w plain listed_now (by_registered.order middle.0)
                middle id {b = b} (by_registered.order_IsMap middle.0 middle-IsProper.0)
                registered-PlainIds absent (by_registered.get_order id middle.0 ∙ met) in
            (dropped, rw known none_there)
        | inr unknown ↦
            let unmet =
              get-unregistered id middle.0 middle-IsProper.2 (first.same_listed ∙ unknown) in
            let second =
              prune_all-Same reader page weather w plain listed_now (by_registered.order middle.0)
                middle id registered-PlainIds (inl (by_registered.get_order id middle.0 ∙ unmet)) in
            (
              second.same_listed ∙ (first.same_listed ∙ unknown),
              rw unknown (second.same_instance ∙ first.same_instance),
            )
      ]
