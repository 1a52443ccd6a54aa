-- ===== src/Routing/Validation.antt =====
-- What `Validate` accepts, exactly; what that says of the weights, and what it does not.
use distributed_service_mesh.Base.Outcome.{Outcome-cases, ok}
use distributed_service_mesh.Base.Dict.{get, get-put, put, Dict}
use distributed_service_mesh.Routing.Spec.{validate, seen_at, VersionWeight, check_splits, Spec}
use distributed_service_mesh.Base.Text.{text_eq_instance, text_eq_iff, Text}
use distributed_service_mesh.Base.{
  refl, is_empty, inr, inl, Bool-cases, ◌∙◌, arith, ap, false, ◌^◌, ◌↔◌, true, ◌+◌, ◌%◌, ◌<◌, [], ℕ,
  All, ◌∷◌, Bool, ◌≢◌, List, ◌≡◌,
}

-- The sum of the weights, as numbers.
abbrev pub sum_weights : List VersionWeight → ℕ
sum_weights [] = 0
sum_weights (sp ∷ rest) = sp.weight + sum_weights rest

-- No version occurs twice.
abbrev pub HasDistinctVersions : List VersionWeight → Type 0
HasDistinctVersions [] = Unit
HasDistinctVersions (sp ∷ rest) = All (λ q. q.version ≢ sp.version) rest × HasDistinctVersions rest

Unseen : Dict Text Bool → List VersionWeight → Type 0
Unseen seen = All (λ q. seen_at q.version seen ≡ false)

Unseen-put :
    (v : Text) (seen : Dict Text Bool) (xs : List VersionWeight)
    → Unseen (put v true seen) xs ↔ (Unseen seen xs × All (λ q. q.version ≢ v) xs)
unfolding Unseen
Unseen-put v seen [] = (λ _. (tt, tt), λ _. tt)
Unseen-put v seen (x ∷ xs) =
    let (to, from) = Unseen-put v seen xs in
    let e = get-put v x.version true seen in
    let same = text_eq_iff v x.version in
    (
      λ (h, hs). let (a, b) = to hs in ((ground (arith, e, same), a), (ground (arith, e, same), b)),
      λ ((h, hs), (n, ns)). (ground (arith, e, same), from (hs, ns)),
    )

check_splits_sound :
    (seen : Dict Text Bool) (total : ℕ) (xs : List VersionWeight) {t : ℕ}
    → total < 2 ^ 32
    → check_splits seen total xs ≡ ok t
    → Unseen seen xs × HasDistinctVersions xs × (t ≡ (total + sum_weights xs) % 2 ^ 32)
unfolding check_splits Unseen
check_splits_sound seen total [] l h = (tt, tt, ground arith)
check_splits_sound seen total (x ∷ xs) {t} l h = elim (Bool-cases (seen_at x.version seen)) [
  | inl old ↦ absurd (ground (arith, old))
  | inr new ↦
      let (a, b, c) =
        check_splits_sound (put x.version true seen) ((total + x.weight) % 2 ^ 32) xs {t = t}
          (omega arith) (ground (arith, new)) in
      let (a', n) = (Unseen-put x.version seen xs).0 a in ((new, a'), (n, b), omega arith)
]

check_splits_complete :
    (seen : Dict Text Bool) (total : ℕ) (xs : List VersionWeight)
    → total < 2 ^ 32
    → Unseen seen xs
    → HasDistinctVersions xs
    → check_splits seen total xs ≡ ok ((total + sum_weights xs) % 2 ^ 32)
unfolding check_splits Unseen
check_splits_complete seen total [] l u d = ap ok (omega arith)
check_splits_complete seen total (x ∷ xs) l u d =
    let u' = (Unseen-put x.version seen xs).1 (u.1, d.0) in
    rw u.0 (
      check_splits_complete (put x.version true seen) ((total + x.weight) % 2 ^ 32) xs (omega arith)
        u' d.1
      ∙ ap ok (omega arith))

-- What `Validate` promises.
pub record IsAccepted (s : Spec) : Type 0 where
  pub has_service : s.service ≢ []
  pub has_splits : s.splits ≢ []
  pub distinct : HasDistinctVersions s.splits
  pub total : sum_weights s.splits % 2 ^ 32 ≡ 100
  pub retries : s.retry_on ≢ [] → 0 < s.num_retries

All-Unseen : (xs : List VersionWeight) → Unseen [] xs
unfolding Unseen get
All-Unseen [] = tt
All-Unseen (x ∷ xs) = (refl, All-Unseen xs)

validate_sound : (s : Spec) → validate s ≡ ok tt → IsAccepted s
unfolding validate
validate_sound s h = elim (Outcome-cases (check_splits [] 0 s.splits)) [
  | inl (t, e) ↦
      let (u, d, m) = check_splits_sound [] 0 s.splits {t = t} (omega arith) e in
      record {
        has_service = λ z. ground (arith, (text_eq_iff s.service []).1 z);
        has_splits = λ z. ground (arith, ap is_empty z);
        distinct = d;
        total = ground (arith, e, m);
        retries = λ n. ground (arith, e, text_eq_iff s.retry_on []);
      }
  | inr (x, e) ↦ absurd (ground (arith, e))
]

validate_complete : (s : Spec) → IsAccepted s → validate s ≡ ok tt
unfolding validate
validate_complete s a = ground (
  arith,
  check_splits_complete [] 0 s.splits (omega arith) (All-Unseen s.splits) a.distinct,
  text_eq_iff s.service [],
  text_eq_iff s.retry_on [],
)

-- Validate accepts a spec exactly when it names a service, has a split, repeats no version, its
-- weights sum to 100 modulo 2 ^ 32, and a retry condition comes with a positive number of retries.
pub validate_iff : (s : Spec) → (validate s ≡ ok tt) ↔ IsAccepted s
validate_iff s = (validate_sound s, validate_complete s)

-- The weights of an accepted spec sum to 100, if their sum is less than 2 ^ 32.
pub validate-sum :
    (s : Spec) → sum_weights s.splits < 2 ^ 32 → validate s ≡ ok tt → sum_weights s.splits ≡ 100
validate-sum s l h = omega (arith, (validate_sound s h).total)

-- The check wraps around: a spec of a service with no retry condition and two different versions
-- whose weights sum to 2 ^ 32 + 100 is accepted.
pub validate-wraps :
    (s : Spec) (a b : VersionWeight)
    → s.service ≢ []
    → s.splits ≡ a ∷ b ∷ []
    → b.version ≢ a.version
    → s.retry_on ≡ []
    → a.weight + b.weight ≡ 2 ^ 32 + 100
    → validate s ≡ ok tt
validate-wraps s a b hs e d r w = validate_complete s (record {
  has_service = hs;
  has_splits = rw e (ground arith);
  distinct = rw e (((d, tt), (tt, tt)));
  total = rw e (omega arith);
  retries = λ n. absurd (n r);
})
