-- ===== src/Api/Correlation.antt =====
-- internal/api/server.go: the IDs that `newCorrelationID` makes of eight random bytes.
use distributed_service_mesh.Base.Text.{codes, Text}
use distributed_service_mesh.Base.{
  ap, refl, ◌%◌, ◌/◌, arith, [], ◌+◌, ltb, some, ◌<◌, ◌∷◌, if◌then◌else◌, length, none, All, ℕ,
  Option, ◌≡◌,
}

-- A digit of hex.EncodeToString, 0 to 9 and a to f.
abbrev pub hex_digit : ℕ → ℕ
hex_digit n = if ltb n 10 then 48 + n else 87 + n

unfoldable pub encode_hex : Text → Text
encode_hex [] = []
encode_hex (b ∷ bs) = hex_digit (b / 16) ∷ hex_digit (b % 16) ∷ encode_hex bs

-- Of what rand.Read puts into the buffer, or `none` where it returns an error.
unfoldable pub new_correlation_id : Option Text → Text
unfolding encode_hex
new_correlation_id none = codes "unknown"
new_correlation_id (some buf) = encode_hex buf

-- Eight bytes, or an error.
abbrev pub IsDraw : Option Text → Type 0
IsDraw none = Unit
IsDraw (some buf) = (length buf ≡ 8) × All (λ b. b < 256) buf

pub length-encode_hex : (bs : Text) → length (encode_hex bs) ≡ length bs + length bs
unfolding encode_hex
length-encode_hex [] = refl
length-encode_hex (b ∷ bs) = omega (arith, length-encode_hex bs)

hex_digit_injective : (m n : ℕ) → m < 16 → n < 16 → hex_digit m ≡ hex_digit n → m ≡ n
hex_digit_injective m n h k e = ground (arith, e)

byte_of_digits :
    (a b : ℕ)
    → a < 256
    → b < 256
    → hex_digit (a / 16) ≡ hex_digit (b / 16)
    → hex_digit (a % 16) ≡ hex_digit (b % 16)
    → a ≡ b
byte_of_digits a b h k e f =
    let high = hex_digit_injective (a / 16) (b / 16) (omega arith) (omega arith) e in
    let low = hex_digit_injective (a % 16) (b % 16) (omega arith) (omega arith) f in
    omega (arith, high, low)

cons_cons_injective :
    {x y v w : ℕ} {xs ys : Text} → x ∷ v ∷ xs ≡ y ∷ w ∷ ys → (x ≡ y) × (v ≡ w) × (xs ≡ ys)
cons_cons_injective e = (cc, cc, cc)

encode_hex_injective :
    (a b : Text) → All (λ x. x < 256) a → All (λ x. x < 256) b → encode_hex a ≡ encode_hex b → a ≡ b
unfolding encode_hex
encode_hex_injective [] [] h k e = refl
encode_hex_injective [] (y ∷ b) h k e = absurd (ground (arith, ap length e))
encode_hex_injective (x ∷ a) [] h k e = absurd (ground (arith, ap length e))
encode_hex_injective (x ∷ a) (y ∷ b) h k e =
    let (first, second, rest) = cons_cons_injective e in
    let same : x ≡ y = byte_of_digits x y h.0 k.0 first second in
    let others : a ≡ b = encode_hex_injective a b h.1 k.1 rest in cc (same, others)

-- Two reads of the random source, each of eight bytes or failed, that give the same correlation ID
-- are the same.
pub new_correlation_id_injective :
    (a b : Option Text) → IsDraw a → IsDraw b → new_correlation_id a ≡ new_correlation_id b → a ≡ b
unfolding new_correlation_id
new_correlation_id_injective none none h k e = refl
new_correlation_id_injective none (some b) h k e =
    absurd (omega (arith, ap length e, length-encode_hex b, k.0))
new_correlation_id_injective (some a) none h k e =
    absurd (omega (arith, ap length e, length-encode_hex a, h.0))
new_correlation_id_injective (some a) (some b) h k e = ap some (encode_hex_injective a b h.1 k.1 e)
