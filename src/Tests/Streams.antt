-- ===== src/Tests/Streams.antt =====
-- Xds/Tracker: two streams, one of which is closed.
use distributed_service_mesh.Base.Dict.{delete, put, get}
use distributed_service_mesh.Base.Text.{text_eq, codes}
use distributed_service_mesh.Base.Int.{pos}
use distributed_service_mesh.Xds.Streams.{count-callbacks, IsOrderly}
use distributed_service_mesh.Xds.Tracker.{
  connected_of, closed, stream_request, requested, stream_closed, opened, stream_open, count,
  Callback, callback, new_tracker, ConnectionTracker, callbacks, connected,
}
use distributed_service_mesh.Base.{refl, ◌+◌, [], ◌∷◌, true, some, ℕ, List, ◌≡◌}

tests : Unit {0}
unfolding callbacks callback stream_open stream_closed stream_request get put delete count connected
    connected_of text_eq
tests = tt

abbrev two_streams : List Callback
two_streams =
    opened (pos 1) 5
    ∷ opened (pos 2) 6
    ∷ requested (pos 2) (codes "demo-envoy")
    ∷ closed (pos 1)
    ∷ []

abbrev after_two : ConnectionTracker
after_two = callbacks two_streams (new_tracker true true)

connected_two :
    connected after_two
    ≡ record { stream_id = pos 2; node = codes "demo-envoy"; connected_at = 6 } ∷ []
unfolding tests
connected_two = refl

two_streams-IsOrderly : IsOrderly two_streams (new_tracker true true)
unfolding tests
two_streams-IsOrderly =
    (refl, (refl, ((record { stream_id = pos 1; node = []; connected_at = 5 }, refl), tt)))

count-callbacks_example :
    (opens : ℕ) × (closes : ℕ) × (after_two.opens ≡ some opens)
    × (after_two.closes ≡ some closes)
    × (count after_two + closes ≡ opens)
count-callbacks_example = count-callbacks two_streams two_streams-IsOrderly
