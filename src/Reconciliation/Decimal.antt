-- ===== src/Reconciliation/Decimal.antt =====
-- `fmt.Sprintf("v%d", version)`: the names of versions, and that they tell versions apart.
use native.Mathlib.Nat.{pow-suc}
use distributed_service_mesh.Base.Text.{codes, Text}
use distributed_service_mesh.Base.{
  drop, ap, sym, ◌∙◌, zero, inr, ◌%◌, inl, refl, ◌-◌, if◌then◌else◌, ltb, ◌/◌, ◌+◌, Bool-cases, ◌*◌,
  arith, suc, ◌∷◌, [], ◌^◌, ◌++◌, ◌<◌, ℕ, ◌≡◌,
}

-- The last digit is written after those of the tenth part; the fuel bounds their number.
unfoldable pub digits_of : ℕ → ℕ → Text
digits_of zero n = []
digits_of (suc f) n =
    let front = digits_of f (n / 10) in
    if ltb n 10 then (b'0' + n) ∷ [] else front ++ (b'0' + n % 10) ∷ []

-- A number below 2 ^ 64 has 20 digits at most.
unfoldable pub version_name : ℕ → Text
unfolding digits_of
version_name version = codes "v" ++ digits_of 20 version

read_digits : ℕ → Text → ℕ
read_digits acc [] = acc
read_digits acc (d ∷ ds) = read_digits (acc * 10 + (d - b'0')) ds

read_digits-append :
    (acc : ℕ) (ds es : Text) → read_digits acc (ds ++ es) ≡ read_digits (read_digits acc ds) es
unfolding read_digits
read_digits-append acc [] es = refl
read_digits-append acc (d ∷ ds) es = read_digits-append (acc * 10 + (d - b'0')) ds es

read_digits-digits_of : (f n : ℕ) → n < 10 ^ f → read_digits 0 (digits_of f n) ≡ n
unfolding read_digits digits_of
read_digits-digits_of zero n h = omega arith
read_digits-digits_of (suc f) n h = elim (Bool-cases (ltb n 10)) [
  | inl small ↦ rw small (omega arith)
  | inr large ↦
      let tenth : n / 10 < 10 ^ f = omega (arith, pow-suc 10 f) in
      rw large (
        read_digits-append 0 (digits_of f (n / 10)) ((b'0' + n % 10) ∷ [])
        ∙ (ap (λ a. a * 10 + (b'0' + n % 10 - b'0')) (read_digits-digits_of f (n / 10) tenth)
            ∙ omega arith))
]

-- Different versions below 2 ^ 64 have different names.
pub version_name-injective :
    (v w : ℕ) → v < 2 ^ 64 → w < 2 ^ 64 → version_name v ≡ version_name w → v ≡ w
unfolding version_name
version_name-injective v w hv hw e =
    sym (read_digits-digits_of 20 v (omega arith))
    ∙ (ap (λ t. read_digits 0 (drop 1 t)) e ∙ read_digits-digits_of 20 w (omega arith))
