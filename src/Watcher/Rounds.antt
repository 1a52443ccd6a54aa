-- ===== src/Watcher/Rounds.antt =====
-- cmd/k8s-watcher/main.go: one round of the first loop against the server of the management API,
-- when no one else changes the registry meanwhile.
use mathlib.Core.Option.{some-injective}
use distributed_service_mesh.Registry.View.{refreshed}
use distributed_service_mesh.Watcher.Transport.{decoded}
use distributed_service_mesh.Api.Instances.{instance_of}
use distributed_service_mesh.Registry.Ops.{stamped}
use distributed_service_mesh.Watcher.Effects.{
  heartbeat_pod-effect, made_of, register_pod-effect, net, At, stored,
}
use distributed_service_mesh.Watcher.Calls.{heartbeat_pod, Network, Watcher}
use distributed_service_mesh.Api.Server.{Circumstance}
use distributed_service_mesh.Watcher.Paths.{IsPlain}
use distributed_service_mesh.Base.Dict.Entries.{Entries}
use distributed_service_mesh.Api.Request.{RegisterServiceRequest, Request}
use distributed_service_mesh.Base.Text.{text_eq_iff, text_eq_refl, text_eq, text_eq_instance, Text}
use distributed_service_mesh.Api.Mux.{Target}
use distributed_service_mesh.Registry.Types.{Time, Instance}
use distributed_service_mesh.Api.Debug.{SnapshotReader}
use distributed_service_mesh.Base.Dict.{get-delete, get-put, put, delete, Dict}
use distributed_service_mesh.Watcher.Reconcile.{sync_one, register_one, Registered, is_registered}
use distributed_service_mesh.Base.{
  sym, ap, inl, inr, Bool-cases, refl, ◌≢◌, arith, ◌∙◌, false, if◌then◌else◌, ℕ, true, some, Option,
  ◌≡◌,
}

-- The instance is there and marked healthy.
abbrev pub IsUp : Option Instance → Type 0
IsUp o = (inst : Instance) × (o ≡ some inst) × (inst.healthy ≡ true)

-- The ID of every entry stands for itself in a path.
abbrev pub PlainIds {ℓ} : {V : Type ℓ} → Dict Text V → Type 0
PlainIds m = Entries (λ id v. IsPlain id) m

pub is_registered-put :
    (id j : Text) (registered : Registered)
    → is_registered j (put id true registered)
      ≡ (if text_eq id j then true else is_registered j registered)
unfolding is_registered
is_registered-put id j registered = rw (get-put id j true registered, is_registered) (ground arith)

pub is_registered-delete :
    (id j : Text) (registered : Registered)
    → is_registered j (delete id registered)
      ≡ (if text_eq id j then false else is_registered j registered)
unfolding is_registered
is_registered-delete id j registered = rw (get-delete id j registered, is_registered) (ground arith)

stamped-healthy :
    (d : RegisterServiceRequest) (now : Time) → (stamped (instance_of d) now).healthy ≡ true
unfolding stamped instance_of
stamped-healthy d now = refl

module _ {Snapshot : Type 0} (reader : SnapshotReader Snapshot) (page : Target → Request → ℕ)
    (weather : ℕ → Circumstance Snapshot) (w : Watcher) (plain : IsPlain w.service) where
  abbrev pub State : Type 0
  State = Registered × At reader page weather w plain

  abbrev pub to_server : Network
  to_server = net reader page weather w plain

  abbrev pub kept : State → Text → Option Instance
  kept st id = stored reader page weather w plain st.1 id

  -- The ID is registered, and its instance up.
  pub record IsSynced (id : Text) (st : State) : Type 0 where
    pub up : IsUp (kept st id)
    pub listed : is_registered id st.0 ≡ true

  -- Nothing has changed for the ID.
  pub record IsSame (id : Text) (st st' : State) : Type 0 where
    pub same_instance : kept st' id ≡ kept st id
    pub same_listed : is_registered id st'.0 ≡ is_registered id st.0

  pub IsSame-trans : (id : Text) (a b c : State) → IsSame id a b → IsSame id b c → IsSame id a c
  IsSame-trans id a b c p q = record {
    same_instance = q.same_instance ∙ p.same_instance;
    same_listed = q.same_listed ∙ p.same_listed;
  }

  pub IsSynced-IsSame :
      (id : Text) (st st' : State) → IsSame id st st' → IsSynced id st → IsSynced id st'
  IsSynced-IsSame id st st' same h =
      let (inst, there, healthy) = h.up in
      record {
        up = (inst, same.same_instance ∙ there, healthy);
        listed = same.same_listed ∙ h.listed;
      }

  register_one-IsSynced :
      (id addr : Text) (st : State)
      → IsPlain id
      → IsSynced id (register_one to_server w id addr st)
        × ((j : Text) → j ≢ id → IsSame j st (register_one to_server w id addr st))
  unfolding register_one
  register_one-IsSynced id addr (registered, at) plain_id =
      let (done, effect) = register_pod-effect reader page weather w plain id addr at plain_id in
      rw done (
        record {
          up = (
            stamped (instance_of (decoded (made_of reader page weather w plain id addr)))
                (weather at.0).now,
            effect id ∙ rw (text_eq_refl id) refl,
            stamped-healthy _ _,
          );
          listed = is_registered-put id id registered ∙ rw (text_eq_refl id) refl;
        },
        λ j other.
            let apart : text_eq id j ≡ false = ground (arith, text_eq_iff id j, other) in
            record {
              same_instance = effect j ∙ rw apart refl;
              same_listed = is_registered-put id j registered ∙ rw apart refl;
            },
      )

  -- What a round of the first loop leaves of a stored instance that the watcher has registered.
  abbrev pub KeepsAddress : Text → State → State → Type 0
  KeepsAddress id st st' =
      (inst : Instance)
      → kept st id ≡ some inst
      → is_registered id st.0 ≡ true
      → (inst' : Instance) × (kept st' id ≡ some inst') × (inst'.address ≡ inst.address)

  abbrev pub Rounds : Text → State → State → Type 0
  Rounds id st st' =
      IsSynced id st' × KeepsAddress id st st' × ((j : Text) → j ≢ id → IsSame j st st')

  pub sync_one-Rounds :
      (id addr : Text) (st : State) → IsPlain id → Rounds id st (sync_one to_server w id addr st)
  unfolding sync_one
  sync_one-Rounds id addr (registered, at) plain_id =
      elim (Bool-cases (is_registered id registered)) [
        | inr unknown ↦
            let (synced, others) = register_one-IsSynced id addr (registered, at) plain_id in
            rw (unknown, sync_one)
              (synced, λ inst there known. absurd (ground (arith, unknown, known)), others)
        | inl known ↦ elim (heartbeat_pod-effect reader page weather w plain id at plain_id) [
          | inl (inst, there, beaten, effect) ↦
              let refreshed_there : stored reader page weather w plain
                    (heartbeat_pod to_server w id at).1 id
                  ≡ some (refreshed (weather at.0).now inst) =
                effect id ∙ rw (text_eq_refl id, there) refl in
              rw (known, beaten, sync_one)
                (
                  record {
                    up = (
                      refreshed (weather at.0).now inst,
                      refreshed_there,
                      unfold refreshed in refl,
                    );
                    listed = known;
                  },
                  λ inst' there' _. (
                    refreshed (weather at.0).now inst,
                    refreshed_there,
                    unfold refreshed in
                        ap (λ (x : Instance). x.address) (some-injective _ _ (sym there ∙ there')),
                  ),
                  λ j other.
                      let apart : text_eq id j ≡ false = ground (arith, text_eq_iff id j, other) in
                      record { same_instance = effect j ∙ rw apart refl; same_listed = refl },
                )
          | inr (absent, missed, effect) ↦
              let at' = (heartbeat_pod to_server w id at).1 in
              let (synced, others) = register_one-IsSynced id addr (registered, at') plain_id in
              rw (known, missed, sync_one)
                (
                  synced,
                  λ inst there _. absurd (ground (arith, absent, there)),
                  λ j other.
                      IsSame-trans j (registered, at) (registered, at') _
                        (record { same_instance = effect j; same_listed = refl }) (others j other),
                )
        ]
      ]
