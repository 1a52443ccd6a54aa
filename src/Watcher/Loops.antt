-- ===== src/Watcher/Loops.antt =====
-- cmd/k8s-watcher/main.go: the two loops of a reconciliation against the server of the management
-- API, when no one else changes the registry meanwhile.
use distributed_service_mesh.Watcher.Effects.{deregister_pod-effect}
use mathlib.Core.Path.{subst}
use distributed_service_mesh.Registry.Types.{Instance}
use distributed_service_mesh.Base.Dict.{get, Dict, IsMap}
use distributed_service_mesh.Base.Text.{text_eq_refl, text_eq, text_eq_iff, text_eq_instance, Text}
use distributed_service_mesh.Watcher.Reconcile.{
  is_registered, prune_one, sync_all, prune_all, Registered, sync_one,
}
use distributed_service_mesh.Watcher.Rounds.{
  is_registered-delete, IsSynced-IsSame, IsSame-trans, sync_one-Rounds, kept, PlainIds, IsSynced,
  KeepsAddress, to_server, IsSame, State,
}
use distributed_service_mesh.Watcher.Paths.{IsPlain}
use distributed_service_mesh.Watcher.Calls.{Network, Watcher}
use distributed_service_mesh.Api.Server.{Circumstance}
use distributed_service_mesh.Api.Request.{Request}
use distributed_service_mesh.Api.Mux.{Target}
use distributed_service_mesh.Api.Debug.{SnapshotReader}
use distributed_service_mesh.Base.{
  ap, false, Option-cases, sym, Bool, ◌⊎◌, inr, ◌∙◌, inl, Bool-cases, arith, [], ◌≢◌, some, ◌∷◌,
  none, refl, Option, ℕ, ◌≡◌,
}

module _ {Snapshot : Type 0} (reader : SnapshotReader Snapshot) (page : Target → Request → ℕ)
    (weather : ℕ → Circumstance Snapshot) (w : Watcher) (plain : IsPlain w.service) where
  abbrev pub Now : Type 0
  Now = State reader page weather w plain

  abbrev pub server : Network
  server = to_server reader page weather w plain

  abbrev pub entry : Now → Text → Option Instance
  entry = kept reader page weather w plain

  abbrev pub Synced : Text → Now → Type 0
  Synced = IsSynced reader page weather w plain

  abbrev pub Same : Text → Now → Now → Type 0
  Same = IsSame reader page weather w plain

  abbrev pub Keeps : Text → Now → Now → Type 0
  Keeps = KeepsAddress reader page weather w plain

  Same-refl : (id : Text) (st : Now) → Same id st st
  Same-refl id st = record { same_instance = refl; same_listed = refl }

  -- An ID that the loop does not meet keeps what it has.
  pub sync_all-Same :
      (l : Dict Text Text) (st : Now) (id : Text)
      → PlainIds l
      → get id l ≡ none
      → Same id st (sync_all server w l st)
  unfolding sync_all get
  sync_all-Same [] st id p absent = Same-refl id st
  sync_all-Same ((j, addr) ∷ l) st id p absent =
      let other : id ≢ j = ground (arith, absent, text_eq_iff j id) in
      let (_, _, others) = sync_one-Rounds reader page weather w plain j addr st p.0 in
      IsSame-trans reader page weather w plain id st (sync_one server w j addr st) _
        (others id other)
        (sync_all-Same l (sync_one server w j addr st) id p.1 (ground (arith, absent)))

  pub sync_all-Synced :
      (l : Dict Text Text) (st : Now) (id : Text) {addr : Text}
      → IsMap l
      → PlainIds l
      → get id l ≡ some addr
      → Synced id (sync_all server w l st) × Keeps id st (sync_all server w l st)
  unfolding sync_all get IsMap
  sync_all-Synced [] st id v p found = absurd (ground (arith, found))
  sync_all-Synced ((j, addr') ∷ l) st id {addr} v p found =
      let next = sync_one server w j addr' st in
      let (synced, keeps, others) = sync_one-Rounds reader page weather w plain j addr' st p.0 in
      elim (Bool-cases (text_eq j id)) [
        | inl same ↦
            let here : j ≡ id = (text_eq_iff j id).0 same in
            let rest = sync_all-Same l next id p.1 (subst (λ i. get i l ≡ none) here v.0) in
            let synced' : Synced id next = subst (λ i. Synced i next) here synced in
            (
              IsSynced-IsSame reader page weather w plain id next _ rest synced',
              λ inst there known.
                  let keeps' : Keeps id st next = subst (λ i. Keeps i st next) here keeps in
                  let (inst', there', address) = keeps' inst there known in
                  (inst', rest.same_instance ∙ there', address),
            )
        | inr apart ↦
            let other : id ≢ j = ground (arith, apart, text_eq_iff j id) in
            let before = others id other in
            let (synced', keeps') =
              sync_all-Synced l next id {addr = addr} v.1 p.1 (ground (arith, apart, found)) in
            (
              synced',
              λ inst there known.
                  keeps' inst (before.same_instance ∙ there) (before.same_listed ∙ known),
            )
      ]

  -- An ID that is gone is deregistered and dropped.
  abbrev pub Gone : Text → Now → Type 0
  Gone id st = (entry st id ≡ none) × (is_registered id st.0 ≡ false)

  prune_one-current :
      (current : Dict Text Text) (j : Text) (st : Now) {addr : Text}
      → get j current ≡ some addr
      → prune_one server w current j st ≡ st
  unfolding prune_one
  prune_one-current current j st found = rw (found, prune_one) refl

  prune_one-Gone :
      (current : Dict Text Text) (j : Text) (st : Now)
      → IsPlain j
      → get j current ≡ none
      → Gone j (prune_one server w current j st)
        × ((i : Text) → i ≢ j → Same i st (prune_one server w current j st))
  unfolding prune_one
  prune_one-Gone current j (registered, at) plain_j absent =
      let (done, effect) = deregister_pod-effect reader page weather w plain j at plain_j in
      rw (absent, done, prune_one)
        (
          (
            effect j ∙ rw (text_eq_refl j) refl,
            is_registered-delete j j registered ∙ rw (text_eq_refl j) refl,
          ),
          λ i other.
              let apart : text_eq j i ≡ false = ground (arith, text_eq_iff j i, other) in
              record {
                same_instance = effect i ∙ rw apart refl;
                same_listed = is_registered-delete j i registered ∙ rw apart refl;
              },
        )

  -- A round on another ID, or on an endpoint, changes nothing.
  prune_one-Same :
      (current : Dict Text Text) (j : Text) (st : Now) (id : Text)
      → IsPlain j
      → (id ≢ j) ⊎ (get id current ≢ none)
      → Same id st (prune_one server w current j st)
  prune_one-Same current j st id plain_j h = elim (Option-cases (get j current)) [
    | inr (addr, found) ↦
        subst (Same id st) (sym (prune_one-current current j st {addr = addr} found))
          (Same-refl id st)
    | inl absent ↦ elim h [
      | inl other ↦ (prune_one-Gone current j st plain_j absent).1 id other
      | inr there ↦
          (prune_one-Gone current j st plain_j absent).1 id
            λ e. there (ap (λ i. get i current) e ∙ absent)
    ]
  ]

  -- The second loop leaves an endpoint alone, and an ID that it does not meet.
  pub prune_all-Same :
      (current : Dict Text Text) (l : Registered) (st : Now) (id : Text)
      → PlainIds l
      → (get id l ≡ none) ⊎ (get id current ≢ none)
      → Same id st (prune_all server w current l st)
  unfolding prune_all get
  prune_all-Same current [] st id p h = Same-refl id st
  prune_all-Same current ((j, b) ∷ l) st id p h =
      let next = prune_one server w current j st in
      let (now, later) : ((id ≢ j) ⊎ (get id current ≢ none))
          × ((get id l ≡ none) ⊎ (get id current ≢ none)) =
        elim h [
          | inl absent ↦
              (inl (ground (arith, absent, text_eq_iff j id)), inl (ground (arith, absent)))
          | inr there ↦ (inr there, inr there)
        ] in
      IsSame-trans reader page weather w plain id st next _ (prune_one-Same current j st id p.0 now)
        (prune_all-Same current l next id p.1 later)

  pub prune_all-Gone :
      (current : Dict Text Text) (l : Registered) (st : Now) (id : Text) {b : Bool}
      → IsMap l
      → PlainIds l
      → get id current ≡ none
      → get id l ≡ some b
      → Gone id (prune_all server w current l st)
  unfolding prune_all get IsMap
  prune_all-Gone current [] st id v p absent met = absurd (ground (arith, met))
  prune_all-Gone current ((j, b') ∷ l) st id {b} v p absent met =
      let next = prune_one server w current j st in
      elim (Bool-cases (text_eq j id)) [
        | inl same ↦
            let here : j ≡ id = (text_eq_iff j id).0 same in
            let gone : Gone id next =
              subst (λ i. Gone i next) here
                (prune_one-Gone current j st p.0
                  (subst (λ i. get i current ≡ none) (sym here) absent)).0 in
            let rest =
              prune_all-Same current l next id p.1 (inl (subst (λ i. get i l ≡ none) here v.0)) in
            (rest.same_instance ∙ gone.0, rest.same_listed ∙ gone.1)
        | inr apart ↦
            prune_all-Gone current l next id {b = b} v.1 p.1 absent (ground (arith, apart, met))
      ]
