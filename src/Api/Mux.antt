-- ===== src/Api/Mux.antt =====
-- internal/api/server.go: the patterns that `New` registers with the ServeMux of net/http, and the
-- choice that the mux makes: a literal segment matches itself and a wildcard one segment that is
-- not empty, a pattern that ends in a slash matches every path below it, a GET pattern matches HEAD
-- too, and of two patterns that match, the more specific one wins. Paths are clean: the mux
-- redirects others.
use Prim.Native.String.{String}
use distributed_service_mesh.Base.Dict.{Dict}
use distributed_service_mesh.Base.Text.{codes, text_eq, Text}
use distributed_service_mesh.Base.{
  ◌&&◌, ◌++◌, [], some, true, ◌||◌, keep_if, if◌then◌else◌, none, false, ◌∷◌, not, List, Option,
  Bool,
}

pub data Segment : Type 0 where
  literal_segment : Text → Segment
  wildcard : Text → Segment

-- The handlers that `New` registers.
pub data Target : Type 0 where
  healthz readyz metrics_page : Target
  pprof_index pprof_cmdline pprof_profile pprof_symbol pprof_trace : Target
  register_service deregister_instance heartbeat_instance get_service_page list_instances : Target
  put_route get_route delete_route : Target
  debug_service debug_envoys debug_config : Target

-- `is_subtree` is set where the pattern ends in a slash.
pub record Pattern : Type 0 where
  pub method : Text
  pub segments : List Segment
  pub is_subtree : Bool
  pub target : Target

abbrev pub lit : String → Segment
lit s = literal_segment (codes s)

abbrev pub wild : String → Segment
wild s = wildcard (codes s)

abbrev pub exact : String → List Segment → Target → Pattern
exact method segments target = record {
  method = codes method;
  segments = segments;
  is_subtree = false;
  target = target;
}

abbrev pub subtree : String → List Segment → Target → Pattern
subtree method segments target = record {
  method = codes method;
  segments = segments;
  is_subtree = true;
  target = target;
}

-- The calls of `mux.Handle` and `mux.HandleFunc`, in their order.
abbrev pub patterns : List Pattern
patterns =
    exact "GET" (lit "healthz" ∷ []) healthz
    ∷ exact "GET" (lit "readyz" ∷ []) readyz
    ∷ exact "GET" (lit "metrics" ∷ []) metrics_page
    ∷ subtree "GET" (lit "debug" ∷ lit "pprof" ∷ []) pprof_index
    ∷ exact "GET" (lit "debug" ∷ lit "pprof" ∷ lit "cmdline" ∷ []) pprof_cmdline
    ∷ exact "GET" (lit "debug" ∷ lit "pprof" ∷ lit "profile" ∷ []) pprof_profile
    ∷ exact "GET" (lit "debug" ∷ lit "pprof" ∷ lit "symbol" ∷ []) pprof_symbol
    ∷ exact "GET" (lit "debug" ∷ lit "pprof" ∷ lit "trace" ∷ []) pprof_trace
    ∷ exact "POST" (lit "v1" ∷ lit "services" ∷ []) register_service
    ∷ exact "DELETE" (lit "v1" ∷ lit "services" ∷ wild "name" ∷ lit "instances" ∷ wild "id" ∷ [])
        deregister_instance
    ∷ exact "POST"
        (lit "v1"
          ∷ lit "services"
          ∷ wild "name"
          ∷ lit "instances"
          ∷ wild "id"
          ∷ lit "heartbeat"
          ∷ [])
        heartbeat_instance
    ∷ exact "GET" (lit "v1" ∷ lit "services" ∷ wild "name" ∷ []) get_service_page
    ∷ exact "GET" (lit "v1" ∷ lit "services" ∷ wild "name" ∷ lit "instances" ∷ []) list_instances
    ∷ exact "PUT" (lit "v1" ∷ lit "routes" ∷ wild "service" ∷ []) put_route
    ∷ exact "GET" (lit "v1" ∷ lit "routes" ∷ wild "service" ∷ []) get_route
    ∷ exact "DELETE" (lit "v1" ∷ lit "routes" ∷ wild "service" ∷ []) delete_route
    ∷ exact "GET" (lit "v1" ∷ lit "debug" ∷ lit "services" ∷ wild "name" ∷ []) debug_service
    ∷ exact "GET" (lit "v1" ∷ lit "debug" ∷ lit "envoys" ∷ []) debug_envoys
    ∷ exact "GET" (lit "v1" ∷ lit "debug" ∷ lit "config" ∷ wild "service" ∷ []) debug_config
    ∷ []

-- The values of the wildcards where one segment matches.
unfoldable pub match_segment : Segment → Text → Option (Dict Text Text)
match_segment (literal_segment l) s = if text_eq l s then some [] else none
match_segment (wildcard name) s = if text_eq s [] then none else some ((name, s) ∷ [])

abbrev pub join_values : Option (Dict Text Text) → Option (Dict Text Text) → Option (Dict Text Text)
join_values (some a) (some b) = some (a ++ b)
join_values _ _ = none

-- A subtree matches a path that goes on after its segments.
unfoldable pub match_path : Bool → List Segment → List Text → Option (Dict Text Text)
unfolding match_segment
match_path below [] [] = if below then none else some []
match_path below [] (s ∷ path) = if below then some [] else none
match_path below (p ∷ segments) [] = none
match_path below (p ∷ segments) (s ∷ path) =
    join_values (match_segment p s) (match_path below segments path)

unfoldable pub match_method : Text → Text → Bool
match_method pattern method =
    text_eq pattern method || (text_eq pattern (codes "GET") && text_eq method (codes "HEAD"))

unfoldable pub match_pattern : Pattern → Text → List Text → Option (Dict Text Text)
unfolding match_path match_method
match_pattern p method path =
    if match_method p.method method then match_path p.is_subtree p.segments path else none

abbrev pub Matched : Type 0
Matched = Target × Dict Text Text

-- The first of the patterns that matches.
unfoldable pub first_match : List Pattern → Text → List Text → Option Matched
unfolding match_pattern
first_match [] method path = none
first_match (p ∷ ps) method path =
    let rest = first_match ps method path in
    elim (match_pattern p method path) [ some values ↦ some (p.target, values) | none ↦ rest ]

-- Some pattern has the path, with another method.
unfoldable pub has_path : List Pattern → List Text → Bool
unfolding match_path
has_path [] path = false
has_path (p ∷ ps) path = elim (match_path p.is_subtree p.segments path) [
  | some values ↦ true
  | none ↦ has_path ps path
]

pub data Routed : Type 0 where
  handled : Target → Dict Text Text → Routed
  method_not_allowed : Routed
  page_not_found : Routed

abbrev pub is_exact : Pattern → Bool
is_exact p = not p.is_subtree

-- The choice of the mux: every exact pattern is more specific than the one subtree.
unfoldable pub dispatch : Text → List Text → Routed
unfolding first_match has_path
dispatch method path = elim (first_match (keep_if is_exact patterns) method path) [
  | some (target, values) ↦ handled target values
  | none ↦ elim (first_match (keep_if (λ p. p.is_subtree) patterns) method path) [
    | some (target, values) ↦ handled target values
    | none ↦ if has_path patterns path then method_not_allowed else page_not_found
  ]
]
