-- ===== src/Api/Patterns.antt =====
-- internal/api/server.go: no request matches two of the exact patterns, so the choice among them
-- needs no order, and `New` does not panic on a conflict.
use mathlib.Core.Option.{some-injective}
use mathlib.Core.Path.{subst}
use distributed_service_mesh.Base.Dict.{Dict}
use distributed_service_mesh.Api.Mux.{
  literal_segment, wildcard, join_values, patterns, is_exact, Segment, match_segment, match_path,
  match_method, match_pattern, Pattern,
}
use distributed_service_mesh.Base.Text.{text_eq_iff, codes, text_eq, Text}
use distributed_service_mesh.Base.{
  none, ap, zero, suc, sym, inr, [], ◌||◌, refl, inl, arith, Bool-cases, ◌&&◌, get_elem?, some,
  false, ◌∷◌, not, ◌≢◌, keep_if, Bool, true, ℕ, List, Option, ◌≡◌,
}

-- No method matches both.
abbrev methods_apart : Text → Text → Bool
methods_apart a b =
    not (text_eq a b) && (not (text_eq a (codes "HEAD")) && not (text_eq b (codes "HEAD")))

-- The two paths differ in length, or at a place where both have a literal.
segments_apart : List Segment → List Segment → Bool
segments_apart [] [] = false
segments_apart [] (q ∷ qs) = true
segments_apart (p ∷ ps) [] = true
segments_apart (literal_segment a ∷ ps) (literal_segment b ∷ qs) =
    not (text_eq a b) || segments_apart ps qs
segments_apart (literal_segment a ∷ ps) (wildcard n ∷ qs) = segments_apart ps qs
segments_apart (wildcard n ∷ ps) (q ∷ qs) = segments_apart ps qs

apart : Pattern → Pattern → Bool
unfolding segments_apart
apart p q =
    is_exact p
    && (is_exact q && (methods_apart p.method q.method || segments_apart p.segments q.segments))

all_apart : Pattern → List Pattern → Bool
unfolding apart
all_apart p [] = true
all_apart p (q ∷ qs) = apart p q && all_apart p qs

pairwise_apart : List Pattern → Bool
unfolding all_apart
pairwise_apart [] = true
pairwise_apart (p ∷ ps) = all_apart p ps && pairwise_apart ps

methods_apart-ne :
    (a b m : Text) → methods_apart a b ≡ true → match_method a m ≡ true → match_method b m ≢ true
unfolding match_method
methods_apart-ne a b m h x y = ground (
  arith,
  h,
  x,
  y,
  text_eq_iff a b,
  text_eq_iff a m,
  text_eq_iff b m,
  text_eq_iff a (codes "GET"),
  text_eq_iff b (codes "GET"),
  text_eq_iff m (codes "HEAD"),
  text_eq_iff a (codes "HEAD"),
  text_eq_iff b (codes "HEAD"),
)

join_values-some :
    (x y : Option (Dict Text Text)) {v : Dict Text Text}
    → join_values x y ≡ some v
    → (a : Dict Text Text) × (b : Dict Text Text) × (x ≡ some a) × (y ≡ some b)
join_values-some (some a) (some b) h = (a, b, refl, refl)
join_values-some (some a) none h = cc
join_values-some none y h = cc

segments_apart-ne :
    (ps qs : List Segment) (path : List Text) {u v : Dict Text Text}
    → segments_apart ps qs ≡ true
    → match_path false ps path ≡ some u
    → match_path false qs path ≢ some v
unfolding segments_apart match_path match_segment
segments_apart-ne [] [] path h x y = cc
segments_apart-ne [] (q ∷ qs) [] h x y = cc
segments_apart-ne [] (q ∷ qs) (s ∷ path) h x y = cc
segments_apart-ne (p ∷ ps) [] [] h x y = cc
segments_apart-ne (p ∷ ps) [] (s ∷ path) h x y = cc
segments_apart-ne (p ∷ ps) (q ∷ qs) [] h x y = cc
segments_apart-ne (literal_segment a ∷ ps) (literal_segment b ∷ qs) (s ∷ path) h x y =
    let (i, j, xi, xj) = join_values-some _ _ x in
    let (k, l, yk, yl) = join_values-some _ _ y in
    elim (Bool-cases (text_eq a b)) [
      | inl same ↦ segments_apart-ne ps qs path (ground (arith, h, same)) xj yl
      | inr other ↦
          absurd (ground (arith, other, xi, yk, text_eq_iff a b, text_eq_iff a s, text_eq_iff b s))
    ]
segments_apart-ne (literal_segment a ∷ ps) (wildcard n ∷ qs) (s ∷ path) h x y =
    let (i, j, xi, xj) = join_values-some _ _ x in
    let (k, l, yk, yl) = join_values-some _ _ y in segments_apart-ne ps qs path h xj yl
segments_apart-ne (wildcard n ∷ ps) (q ∷ qs) (s ∷ path) h x y =
    let (i, j, xi, xj) = join_values-some _ _ x in
    let (k, l, yk, yl) = join_values-some _ _ y in segments_apart-ne ps qs path h xj yl

-- What it takes for a pattern to match.
pub match_pattern-some :
    (p : Pattern) (m : Text) (path : List Text) {v : Dict Text Text}
    → match_pattern p m path ≡ some v
    → (match_method p.method m ≡ true) × (match_path p.is_subtree p.segments path ≡ some v)
unfolding match_pattern
match_pattern-some p m path h = elim (Bool-cases (match_method p.method m)) [
  | inl fits ↦ (fits, ground (arith, h, fits))
  | inr unfit ↦ absurd (ground (arith, h, unfit))
]

apart-ne :
    (p q : Pattern) (m : Text) (path : List Text) {u v : Dict Text Text}
    → apart p q ≡ true
    → match_pattern p m path ≡ some u
    → match_pattern q m path ≢ some v
unfolding apart
apart-ne p q m path {u} {v} h x y =
    let (pm, pp) = match_pattern-some p m path x in
    let (qm, qp) = match_pattern-some q m path y in
    let p_exact : p.is_subtree ≡ false = ground (arith, h) in
    let q_exact : q.is_subtree ≡ false = ground (arith, h) in
    elim (Bool-cases (methods_apart p.method q.method)) [
      | inl differ ↦ methods_apart-ne p.method q.method m differ pm qm
      | inr same ↦
          segments_apart-ne p.segments q.segments path {u = u} {v = v} (ground (arith, h, same))
            (subst (λ b. match_path b p.segments path ≡ some u) p_exact pp)
            (subst (λ b. match_path b q.segments path ≡ some v) q_exact qp)
    ]

all_apart-ne :
    (p : Pattern) (qs : List Pattern) (j : ℕ) (m : Text) (path : List Text) {q : Pattern}
    {u v : Dict Text Text}
    → all_apart p qs ≡ true
    → get_elem? qs j ≡ some q
    → match_pattern p m path ≡ some u
    → match_pattern q m path ≢ some v
unfolding all_apart
all_apart-ne p [] j m path h g x y = cc
all_apart-ne p (q ∷ qs) zero m path {u = u} {v = v} h g x y =
    apart-ne p q m path {u = u} {v = v} (ground (arith, h)) x
      (subst (λ r. match_pattern r m path ≡ some v) (sym (some-injective _ _ g)) y)
all_apart-ne p (q ∷ qs) (suc j) m path {u = u} {v = v} h g x y =
    all_apart-ne p qs j m path {u = u} {v = v} (ground (arith, h)) g x y

-- Two places of a list whose patterns are apart, pair by pair, do not match the same request.
pairwise_unique :
    (ps : List Pattern) (i j : ℕ) (m : Text) (path : List Text) {p q : Pattern}
    {u v : Dict Text Text}
    → pairwise_apart ps ≡ true
    → get_elem? ps i ≡ some p
    → get_elem? ps j ≡ some q
    → match_pattern p m path ≡ some u
    → match_pattern q m path ≡ some v
    → i ≡ j
unfolding pairwise_apart
pairwise_unique [] i j m path h g k x y = cc
pairwise_unique (r ∷ ps) zero zero m path h g k x y = refl
pairwise_unique (r ∷ ps) zero (suc j) m path {u = u} {v = v} h g k x y = absurd (
    all_apart-ne r ps j m path {u = u} {v = v} (ground (arith, h)) k
      (subst (λ p. match_pattern p m path ≡ some u) (sym (some-injective _ _ g)) x) y)
pairwise_unique (r ∷ ps) (suc i) zero m path {u = u} {v = v} h g k x y = absurd (
    all_apart-ne r ps i m path {u = v} {v = u} (ground (arith, h)) g
      (subst (λ p. match_pattern p m path ≡ some v) (sym (some-injective _ _ k)) y) x)
pairwise_unique (r ∷ ps) (suc i) (suc j) m path {u = u} {v = v} h g k x y =
    ap suc (pairwise_unique ps i j m path {u = u} {v = v} (ground (arith, h)) g k x y)

patterns-apart : pairwise_apart (keep_if is_exact patterns) ≡ true
unfolding pairwise_apart text_eq
patterns-apart = refl

-- No request matches two of the exact patterns: two that match it stand at the same place.
pub patterns_unique :
    (i j : ℕ) (method : Text) (path : List Text) {p q : Pattern} {u v : Dict Text Text}
    → get_elem? (keep_if is_exact patterns) i ≡ some p
    → get_elem? (keep_if is_exact patterns) j ≡ some q
    → match_pattern p method path ≡ some u
    → match_pattern q method path ≡ some v
    → i ≡ j
patterns_unique i j method path g k x y =
    pairwise_unique (keep_if is_exact patterns) i j method path patterns-apart g k x y
