-- ===== src/Api/Requests.antt =====
-- internal/api/server.go: what whole requests change, whichever handler the mux chooses.
use mathlib.Core.Option.{some-injective}
use distributed_service_mesh.Api.Patterns.{match_pattern-some}
use distributed_service_mesh.Api.Response.{Recorder}
use distributed_service_mesh.Registry.Calls.{call_all-IsValid}
use distributed_service_mesh.Base.Dict.{Dict}
use distributed_service_mesh.Routing.Store.{change_all-IsSound, IsSound}
use distributed_service_mesh.Api.Request.{Request}
use mathlib.Core.Path.{subst}
use distributed_service_mesh.Api.Effects.{still, handle-IsStep, handle-reader, is_reader, IsStep}
use distributed_service_mesh.Registry.Validity.{IsValid}
use distributed_service_mesh.Api.Debug.{SnapshotReader}
use distributed_service_mesh.Api.Server.{Circumstance, serve, serve_all, serve_mux, Server}
use distributed_service_mesh.Base.Text.{codes, text_eq, Text}
use distributed_service_mesh.Api.Mux.{
  Matched, has_path, match_pattern, page_not_found, patterns, method_not_allowed, is_exact, Pattern,
  handled, Target, Routed, dispatch, match_method, first_match,
}
use distributed_service_mesh.Base.{
  ap, refl, ◌&&◌, arith, [], Bool-cases, ◌||◌, Option-cases, not, some, ◌∷◌, inr, true, Bool, sym,
  ℕ, ◌⊎◌, inl, keep_if, List, ◌≡◌,
}

-- Every pattern that takes the method has a handler that only reads.
only_readers : Text → List Pattern → Bool
only_readers method [] = true
only_readers method (p ∷ ps) =
    (not (match_method p.method method) || is_reader p.target) && only_readers method ps

first_match-reader :
    (ps : List Pattern) (method : Text) (path : List Text) {t : Target} {v : Dict Text Text}
    → only_readers method ps ≡ true
    → first_match ps method path ≡ some (t, v)
    → is_reader t ≡ true
unfolding only_readers first_match
first_match-reader [] method path h e = cc
first_match-reader (p ∷ ps) method path {t} {v} h e =
    elim (Option-cases (match_pattern p method path)) [
      | inl other ↦
          first_match-reader ps method path {v = v} (ground (arith, h))
            (rw (other, first_match) at e)
      | inr (values, fits) ↦
          let (takes, _) = match_pattern-some p method path fits in
          let chosen : p.target ≡ t =
            ap (λ (x : Matched). x.0) (some-injective _ _ (rw (fits, first_match) at e)) in
          subst (λ x. is_reader x ≡ true) chosen (ground (arith, h, takes))
    ]

abbrev IsRead : Routed → Type 0
IsRead (handled t values) = is_reader t ≡ true
IsRead method_not_allowed = Unit
IsRead page_not_found = Unit

dispatch-IsRead :
    (method : Text) (path : List Text)
    → only_readers method (keep_if is_exact patterns) ≡ true
    → only_readers method (keep_if (λ p. p.is_subtree) patterns) ≡ true
    → IsRead (dispatch method path)
unfolding dispatch
dispatch-IsRead method path exact_ones subtrees =
    elim (Option-cases (first_match (keep_if is_exact patterns) method path)) [
      | inr ((t, v), found) ↦
          rw (found, dispatch)
            (first_match-reader (keep_if is_exact patterns) method path {v = v} exact_ones found)
      | inl none_exact ↦
          elim (Option-cases (first_match (keep_if (λ p. p.is_subtree) patterns) method path)) [
            | inr ((t, v), found) ↦
                rw (none_exact, found, dispatch)
                  (first_match-reader (keep_if (λ p. p.is_subtree) patterns) method path {v = v}
                    subtrees found)
            | inl nowhere ↦ elim (Bool-cases (has_path patterns path)) [
              | inl there ↦ rw (none_exact, nowhere, there, dispatch) tt
              | inr absent ↦ rw (none_exact, nowhere, absent, dispatch) tt
            ]
          ]
    ]

-- GET and HEAD, which HTTP calls safe.
abbrev pub IsSafe : Text → Type 0
IsSafe method = (method ≡ codes "GET") ⊎ (method ≡ codes "HEAD")

get-readers :
    (only_readers (codes "GET") (keep_if is_exact patterns) ≡ true)
    × (only_readers (codes "GET") (keep_if (λ p. p.is_subtree) patterns) ≡ true)
unfolding only_readers match_method text_eq is_reader
get-readers = (refl, refl)

head-readers :
    (only_readers (codes "HEAD") (keep_if is_exact patterns) ≡ true)
    × (only_readers (codes "HEAD") (keep_if (λ p. p.is_subtree) patterns) ≡ true)
unfolding only_readers match_method text_eq is_reader
head-readers = (refl, refl)

IsSafe-IsRead : (method : Text) (path : List Text) → IsSafe method → IsRead (dispatch method path)
IsSafe-IsRead method path (inl e) =
    subst (λ m. IsRead (dispatch m path)) (sym e)
      (dispatch-IsRead (codes "GET") path get-readers.0 get-readers.1)
IsSafe-IsRead method path (inr e) =
    subst (λ m. IsRead (dispatch m path)) (sym e)
      (dispatch-IsRead (codes "HEAD") path head-readers.0 head-readers.1)

module _ {Snapshot : Type 0} (reader : SnapshotReader Snapshot) (page : Target → Request → ℕ) where
  serve_mux-read :
      (to : Routed) (req : Request) (env : Circumstance Snapshot) (s : Server Snapshot)
      (w : Recorder)
      → IsRead to
      → (serve_mux reader page to req env s w).1 ≡ s
  unfolding serve_mux
  serve_mux-read (handled t values) req env s w h = handle-reader reader page values req env s w t h
  serve_mux-read method_not_allowed req env s w h = refl
  serve_mux-read page_not_found req env s w h = refl

  -- A request with GET or HEAD, on any path, changes nothing of the server.
  pub serve-safe :
      (env : Circumstance Snapshot) (req : Request) (s : Server Snapshot)
      → IsSafe req.method
      → (serve reader page env req s).1 ≡ s
  unfolding serve
  serve-safe env req s h =
      serve_mux-read (dispatch req.method req.path) req env s _
        (IsSafe-IsRead req.method req.path h)

  serve_mux-IsStep :
      (to : Routed) (req : Request) (env : Circumstance Snapshot) (s : Server Snapshot)
      (w : Recorder)
      → IsStep s (serve_mux reader page to req env s w).1
  unfolding serve_mux
  serve_mux-IsStep (handled t values) req env s w = handle-IsStep reader page values req env s w t
  serve_mux-IsStep method_not_allowed req env s w = still s
  serve_mux-IsStep page_not_found req env s w = still s

  -- A request makes some calls of the registry and some of the store, and changes nothing else.
  pub serve-IsStep :
      (env : Circumstance Snapshot) (req : Request) (s : Server Snapshot)
      → IsStep s (serve reader page env req s).1
  unfolding serve
  serve-IsStep env req s = serve_mux-IsStep (dispatch req.method req.path) req env s _

-- The registry and the store of the server are well-formed.
pub record IsHealthy {Snapshot : Type 0} (s : Server Snapshot) : Type 0 where
  pub registry : IsValid s.registry
  pub routes : IsSound s.routes

IsStep-IsHealthy :
    {Snapshot : Type 0} (s s' : Server Snapshot) → IsStep s s' → IsHealthy s → IsHealthy s'
IsStep-IsHealthy s s' step h =
    let (cs, _, called) = step.registry in
    let (ds, _, changed) = step.routes in
    record {
      registry = subst IsValid (sym called) (call_all-IsValid cs s.registry h.registry);
      routes = subst IsSound (sym changed) (change_all-IsSound ds s.routes h.routes);
    }

module _ {Snapshot : Type 0} (reader : SnapshotReader Snapshot) (page : Target → Request → ℕ) where
  -- Whatever requests are served one after another, in whatever circumstances, a server with a
  -- valid registry and a sound store, in which each spec was accepted and is filed under its own
  -- service, keeps both.
  pub serve_all-IsHealthy :
      (requests : List (Circumstance Snapshot × Request)) (s : Server Snapshot)
      → IsHealthy s
      → IsHealthy (serve_all reader page requests s).1
  unfolding serve_all
  serve_all-IsHealthy [] s h = h
  serve_all-IsHealthy ((env, req) ∷ rest) s h =
      serve_all-IsHealthy rest (serve reader page env req s).1
        (IsStep-IsHealthy s _ (serve-IsStep reader page env req s) h)
