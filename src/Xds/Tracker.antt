-- ===== src/Xds/Tracker.antt =====
-- internal/xds/tracker.go: the open xDS streams, and the callbacks that the server of
-- go-control-plane calls. `onOpen` and `onClose` are counted, where they are not nil.
use mathlib.Core.Option
use distributed_service_mesh.Base.Text.{text_eq, Text}
use distributed_service_mesh.Registry.Types.{Time}
use distributed_service_mesh.Base.Dict.{get, put, delete, Dict}
use distributed_service_mesh.Base.Int.{int_eq_instance, ℤ}
use distributed_service_mesh.Base.{
  none, some, suc, not, none, some, if◌then◌else◌, ◌∷◌, length, Option, [], ℕ, Bool, List,
}

pub record ConnectedEnvoy : Type 0 where
  pub stream_id : ℤ
  pub node : Text
  pub connected_at : Time

pub record ConnectionTracker : Type 0 where
  pub streams : Dict ℤ ConnectedEnvoy
  -- the calls of `onOpen` and `onClose` so far; `none` where the function is nil
  pub opens : Option ℕ
  pub closes : Option ℕ

-- `NewConnectionTracker`, and whether it is given the two functions
abbrev pub new_tracker : Bool → Bool → ConnectionTracker
new_tracker on_open on_close = record {
  streams = [];
  opens = if on_open then some 0 else none;
  closes = if on_close then some 0 else none;
}

-- `StreamOpenFunc`, at the time that it reads.
unfoldable pub stream_open : ℤ → Time → ConnectionTracker → ConnectionTracker
stream_open id now t = record t {
  streams = put id (record { stream_id = id; node = []; connected_at = now }) t.streams;
  opens = Option.map suc t.opens;
}

-- `StreamClosedFunc`
unfoldable pub stream_closed : ℤ → ConnectionTracker → ConnectionTracker
stream_closed id t = record t { streams = delete id t.streams; closes = Option.map suc t.closes }

-- `StreamRequestFunc`; `node` is the ID in the request, empty if it has none.
unfoldable pub stream_request : ℤ → Text → ConnectionTracker → ConnectionTracker
stream_request id node t = elim (get id t.streams) [
  | none ↦ t
  | some entry ↦
      if not (text_eq node [])
      then record t { streams = put id (record entry { node = node }) t.streams }
      else t
]

-- `Connected`, in the order of the range.
unfoldable pub connected_of : Dict ℤ ConnectedEnvoy → List ConnectedEnvoy
connected_of [] = []
connected_of ((id, c) ∷ streams) = c ∷ connected_of streams

unfoldable pub connected : ConnectionTracker → List ConnectedEnvoy
unfolding connected_of
connected t = connected_of t.streams

unfoldable pub count : ConnectionTracker → ℕ
count t = length t.streams

-- What the server calls.
pub data Callback : Type 0 where
  opened : ℤ → Time → Callback
  closed : ℤ → Callback
  requested : ℤ → Text → Callback

unfoldable pub callback : Callback → ConnectionTracker → ConnectionTracker
unfolding stream_open stream_closed stream_request
callback (opened id now) t = stream_open id now t
callback (closed id) t = stream_closed id t
callback (requested id node) t = stream_request id node t

unfoldable pub callbacks : List Callback → ConnectionTracker → ConnectionTracker
unfolding callback
callbacks [] t = t
callbacks (c ∷ cs) t = callbacks cs (callback c t)
