-- ===== src/Xds/Streams.antt =====
-- The number of open streams that the tracker reports, against the functions that it calls.
use mathlib.Core.Option
use distributed_service_mesh.Base.Dict.Counts.{length-delete-old, length-put-new, length-put-old}
use distributed_service_mesh.Base.Text.{text_eq, Text}
use distributed_service_mesh.Base.Dict.{delete-IsMap, put-IsMap, get, IsMap}
use distributed_service_mesh.Base.Int.{int_eq_instance, ℤ}
use distributed_service_mesh.Xds.Tracker.{
  requested, closed, stream_closed, opened, stream_open, new_tracker, callback, ConnectedEnvoy,
  Callback, callbacks, stream_request, ConnectionTracker, count,
}
use distributed_service_mesh.Base.{
  ◌∙◌, ◌∷◌, arith, none, some, suc, [], ap, Bool-cases, none, inr, refl, inl, true, ◌+◌, ◌∷◌, some,
  Option-cases, ℕ, suc, List, ◌≡◌,
}

abbrev pub IsOpen : ℤ → ConnectionTracker → Type 0
IsOpen id t = (entry : ConnectedEnvoy) × (get id t.streams ≡ some entry)

-- A stream is opened while it is closed and closed while it is open.
abbrev pub IsOrderly : List Callback → ConnectionTracker → Type 0
IsOrderly [] t = Unit
IsOrderly (opened id now ∷ cs) t =
    (get id t.streams ≡ none) × IsOrderly cs (callback (opened id now) t)
IsOrderly (closed id ∷ cs) t = IsOpen id t × IsOrderly cs (callback (closed id) t)
IsOrderly (requested id node ∷ cs) t = IsOrderly cs (callback (requested id node) t)

-- The two functions are there, and the streams that are open are the opens less the closes.
abbrev pub IsBalanced : ConnectionTracker → Type 0
IsBalanced t =
    (opens : ℕ) × (closes : ℕ) × (t.opens ≡ some opens)
    × (t.closes ≡ some closes)
    × (count t + closes ≡ opens)

streams-stream_request :
    (id : ℤ) (node : Text) (t : ConnectionTracker)
    → (count (stream_request id node t) ≡ count t)
      × (IsMap t.streams → IsMap (stream_request id node t).streams)
      × ((stream_request id node t).opens ≡ t.opens)
      × ((stream_request id node t).closes ≡ t.closes)
unfolding stream_request count
streams-stream_request id node t = elim (Option-cases (get id t.streams)) [
  | inl absent ↦ rw (absent, stream_request) (refl, λ v. v, refl, refl)
  | inr (entry, found) ↦ elim (Bool-cases (text_eq node [])) [
    | inl unnamed ↦ rw (found, unnamed, stream_request) (refl, λ v. v, refl, refl)
    | inr named ↦
        rw (found, named, stream_request)
          (length-put-old id _ t.streams found, λ v. put-IsMap id _ t.streams v, refl, refl)
  ]
]

callbacks-IsBalanced :
    (cs : List Callback) (t : ConnectionTracker)
    → IsMap t.streams
    → IsBalanced t
    → IsOrderly cs t
    → IsBalanced (callbacks cs t)
unfolding callbacks callback stream_open stream_closed count
callbacks-IsBalanced [] t v b o = b
callbacks-IsBalanced (opened id now ∷ cs) t v (n, c, en, ec, e) o =
    callbacks-IsBalanced cs (stream_open id now t) (put-IsMap id _ t.streams v)
      (suc n, c, ap (Option.map suc) en, ec, omega (arith, e, length-put-new id _ t.streams o.0))
      o.1
callbacks-IsBalanced (closed id ∷ cs) t v (n, c, en, ec, e) o =
    callbacks-IsBalanced cs (stream_closed id t) (delete-IsMap id t.streams v)
      (
        n,
        suc c,
        en,
        ap (Option.map suc) ec,
        omega (arith, e, length-delete-old id t.streams v o.0.1),
      )
      o.1
callbacks-IsBalanced (requested id node ∷ cs) t v (n, c, en, ec, e) o =
    let (same, keeps, opens, closes) = streams-stream_request id node t in
    callbacks-IsBalanced cs (stream_request id node t) (keeps v)
      (n, c, opens ∙ en, closes ∙ ec, ap (λ k. k + c) same ∙ e) o

-- After any callbacks on a new tracker with both functions, if a stream is opened only while it is
-- closed and closed only while it is open, the tracker counts as many open streams as it has called
-- onOpen more often than onClose.
pub count-callbacks :
    (cs : List Callback)
    → IsOrderly cs (new_tracker true true)
    → (opens : ℕ) × (closes : ℕ) × ((callbacks cs (new_tracker true true)).opens ≡ some opens)
      × ((callbacks cs (new_tracker true true)).closes ≡ some closes)
      × (count (callbacks cs (new_tracker true true)) + closes ≡ opens)
unfolding count IsMap
count-callbacks cs o = callbacks-IsBalanced cs (new_tracker true true) tt (0, 0, refl, refl, refl) o
