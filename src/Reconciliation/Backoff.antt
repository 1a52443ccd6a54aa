-- ===== src/Reconciliation/Backoff.antt =====
-- internal/reconciliation/reconciler.go: the wait after consecutive failures.
use native.Mathlib.Nat.{pow-suc, mod-lt}
use distributed_service_mesh.Registry.Types.{Duration}
use distributed_service_mesh.Base.Int.{int_eq_iff, negsuc, ltb_ℤ, pos, int_eq, wrap_int64}
use distributed_service_mesh.Base.{
  ◌∙◌, ap, ◌%◌, zero, ◌&&◌, ◌==◌, ◌-◌, ◌≤◌, ltb, refl, arith, suc, some, min, none, ◌/◌, true, ◌+◌,
  ◌^◌, Option, ◌<◌, if◌then◌else◌, ◌*◌, Bool, ℕ, ◌≡◌,
}

abbrev pub second : ℕ
second = 1_000_000_000

-- 30 * time.Second
abbrev pub max_backoff : ℕ
max_backoff = 30 * second

-- `time.Duration(1<<uint(attempt)) * time.Second`, in 64 bits.
unfoldable pub backoff_base : ℕ → Duration
unfolding wrap_int64
backoff_base attempt = wrap_int64 (2 ^ attempt * second)

-- `rand.Int63n(n)` panics if n <= 0, and otherwise returns a number below n: which one, the draw
-- says. `none` is the panic.
unfoldable pub int63n : Duration → ℕ → Option ℕ
int63n (pos zero) draw = none
int63n (pos (suc n)) draw = some (draw % suc n)
int63n (negsuc n) draw = none

-- `int64(base) / 5` rounds towards zero.
abbrev pub fifth : Duration → Duration
fifth (pos n) = pos (n / 5)
fifth (negsuc n) = if suc n / 5 == 0 then pos 0 else negsuc (suc n / 5 - 1)

abbrev pub capped : Duration → Duration
capped base = if ltb_ℤ (pos max_backoff) base then pos max_backoff else base

-- `base + jitter`, where the base of a jitter is positive and the sum fits.
abbrev pub later_by : ℕ → Duration → Duration
later_by n (pos m) = pos (m + n)
later_by n (negsuc m) = if ltb n (suc m) then negsuc (m - n) else pos (n - suc m)

-- `none` is a panic.
unfoldable pub jittered : Duration → ℕ → Option Duration
unfolding int63n
jittered base draw = elim (int63n (fifth base) draw) [
  | none ↦ none
  | some jitter ↦ some (later_by jitter base)
]

unfoldable pub backoff : ℕ → ℕ → Option Duration
unfolding backoff_base jittered
backoff attempt draw = jittered (capped (backoff_base attempt)) draw

-- The base is 2 ^ attempt seconds, and 30 at most, for every attempt below the number.
table : ℕ → Bool
unfolding backoff_base
table zero = true
table (suc a) = int_eq (capped (backoff_base a)) (pos (min (2 ^ a * second) max_backoff)) && table a

table-34 : table 34 ≡ true
unfolding table
table-34 = refl

capped-backoff_base_below :
    (n : ℕ)
    → table n ≡ true
    → (attempt : ℕ) → attempt < n
    → capped (backoff_base attempt) ≡ pos (min (2 ^ attempt * second) max_backoff)
unfolding table
capped-backoff_base_below zero e attempt l = absurd (omega arith)
capped-backoff_base_below (suc n) e attempt l = grind (
  arith,
  capped-backoff_base_below n,
  int_eq_iff (capped (backoff_base n)) (pos (min (2 ^ n * second) max_backoff)),
)

capped-backoff_base :
    (attempt : ℕ)
    → attempt < 34
    → capped (backoff_base attempt) ≡ pos (min (2 ^ attempt * second) max_backoff)
capped-backoff_base = capped-backoff_base_below 34 table-34

int63n-pos : (n draw : ℕ) → 0 < n → int63n (pos n) draw ≡ some (draw % n)
unfolding int63n
int63n-pos zero draw h = absurd (omega arith)
int63n-pos (suc n) draw h = refl

jittered_bounds :
    (b draw : ℕ)
    → 5 ≤ b
    → (d : ℕ) × (jittered (pos b) draw ≡ some (pos d)) × (b ≤ d) × (5 * d < 6 * b)
unfolding jittered
jittered_bounds b draw h = (
  b + draw % (b / 5),
  rw (int63n-pos (b / 5) draw (omega arith), jittered) refl,
  omega arith,
  omega (arith, mod-lt draw {m = b / 5} (omega arith)),
)

pow_pos : (n : ℕ) → 0 < 2 ^ n
pow_pos zero = omega arith
pow_pos (suc n) = omega (arith, pow-suc 2 n, pow_pos n)

base_pos : (attempt : ℕ) → 0 < attempt → attempt < 34 → 5 ≤ min (2 ^ attempt * second) max_backoff
base_pos zero h l = absurd (omega arith)
base_pos (suc k) h l = omega (arith, pow_pos (suc k))

-- After one to 33 consecutive failures the backoff is from the base, which is 2 ^ attempt seconds
-- and 30 at most, to less than a fifth more.
pub backoff_bounds :
    (attempt draw : ℕ)
    → 0 < attempt
    → attempt < 34
    → (d : ℕ) × (backoff attempt draw ≡ some (pos d))
      × (min (2 ^ attempt * second) max_backoff ≤ d)
      × (5 * d < 6 * min (2 ^ attempt * second) max_backoff)
unfolding backoff
backoff_bounds attempt draw h l =
    let b = min (2 ^ attempt * second) max_backoff in
    let (d, e, lo, hi) = jittered_bounds b draw (base_pos attempt h l) in
    (d, ap (λ base. jittered base draw) (capped-backoff_base attempt l) ∙ e, lo, hi)

-- 2 ^ (55 + k) seconds are a multiple of 2 ^ 64 nanoseconds.
shift : (k : ℕ) → 55 + suc k ≡ suc (55 + k)
shift k = omega arith

pow-add : (k : ℕ) → 2 ^ (55 + k) ≡ 2 ^ 55 * 2 ^ k
pow-add zero = refl
pow-add (suc k) =
    omega (arith, pow-suc 2 (55 + k), pow-suc 2 k, pow-add k, ap (λ n. 2 ^ n) (shift k))

backoff_base_lost : (k : ℕ) → backoff_base (55 + k) ≡ pos 0
unfolding backoff_base
backoff_base_lost k =
    let e : 2 ^ (55 + k) * second % 2 ^ 64 ≡ 0 = omega (arith, pow-add k) in rw e refl

-- From attempt 55 on the multiplication has lost every bit and the draw of the jitter panics.
pub backoff-panics : (k draw : ℕ) → backoff (55 + k) draw ≡ none
unfolding backoff
backoff-panics k draw = ap (λ base. jittered (capped base) draw) (backoff_base_lost k)

-- After 34 the product is negative as an int64.
pub backoff-overflows : (draw : ℕ) → backoff 34 draw ≡ none
unfolding backoff
backoff-overflows draw = refl
