-- ===== src/Watcher/Polls.antt =====
-- cmd/k8s-watcher/main.go: the loop of `main`, over the polls that it makes.
use distributed_service_mesh.Base.Text.{Text}
use distributed_service_mesh.Watcher.Listed.{reconcile-IsProper, IsProper, IsPlainPoll}
use distributed_service_mesh.Base.Dict.{IsMap}
use distributed_service_mesh.Watcher.Calls.{Watcher, Network}
use distributed_service_mesh.Watcher.Reconcile.{RangeOrder, Registered, EndpointAddress, reconcile}
use distributed_service_mesh.Base.{Bool, [], ◌∷◌, All, List, Option}

-- One poll: what `Get` returns, and in which order its ranges go.
pub record Poll : Type 0 where
  pub found : Option (List (List EndpointAddress))
  pub by_id : RangeOrder Text
  pub by_registered : RangeOrder Bool

module _ (net : Network) (w : Watcher) where
  -- An error of `reconcile` is logged, and the loop goes on.
  unfoldable pub watch : List Poll → Registered × net.World → Registered × net.World
  watch [] st = st
  watch (poll ∷ polls) st =
      watch polls (reconcile net w poll.by_id poll.by_registered poll.found st).1

  abbrev pub ArePlainPolls : List Poll → Type 0
  ArePlainPolls = All (λ poll. IsPlainPoll net w poll.found)

  pub watch-IsProper :
      (polls : List Poll) (st : Registered × net.World)
      → ArePlainPolls polls
      → IsProper st.0
      → IsProper (watch polls st).0
  unfolding watch
  watch-IsProper [] st p h = h
  watch-IsProper (poll ∷ polls) st p h =
      watch-IsProper polls (reconcile net w poll.by_id poll.by_registered poll.found st).1 p.1
        (reconcile-IsProper net w poll.by_id poll.by_registered poll.found st p.0 h)

  pub watched-IsProper :
      (polls : List Poll) (world : net.World)
      → ArePlainPolls polls
      → IsProper (watch polls ([], world)).0
  unfolding IsMap
  watched-IsProper polls world p = watch-IsProper polls ([], world) p (tt, tt, tt)
