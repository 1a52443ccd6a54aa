-- ===== src/Config/Address.antt =====
-- internal/config/config.go: `portOf`, and `strconv.Atoi` of the standard library, which the ports
-- are read with.
use mathlib.Core.Option
use distributed_service_mesh.Base.Int.{negsuc, pos, ℤ}
use distributed_service_mesh.Base.Text.{Text}
use distributed_service_mesh.Base.{
  zero, ◌-◌, drop, ◌+◌, ◌^◌, [], get_elem?, ◌&&◌, ◌==◌, ◌*◌, ltb, if◌then◌else◌, ◌∷◌, leb, false,
  some, length, Bool, suc, none, ℕ, Option,
}

abbrev pub colon : ℕ
colon = b':'

-- `addr[i] == ':'`; the loop reads no byte past the end.
abbrev pub is_colon : Option ℕ → Bool
is_colon none = false
is_colon (some b) = b == colon

-- The loop of `portOf`, from `i - 1` down.
unfoldable pub port_from : ℕ → Text → Text
port_from zero addr = addr
port_from (suc i) addr =
    let before = port_from i addr in
    if is_colon (get_elem? addr i) then drop (suc i) addr else before

unfoldable pub port_of : Text → Text
unfolding port_from
port_of addr = port_from (length addr) addr

abbrev pub is_digit : ℕ → Bool
is_digit b = leb 48 b && leb b 57

unfoldable pub digits_value : ℕ → Text → Option ℕ
digits_value n [] = some n
digits_value n (b ∷ bs) =
    let value = digits_value (n * 10 + (b - 48)) bs in if is_digit b then value else none

unfoldable pub magnitude : Text → Option ℕ
unfolding digits_value
magnitude [] = none
magnitude (b ∷ bs) = digits_value 0 (b ∷ bs)

-- A value that fits an int64, and none out of its range.
abbrev pub positive_int : ℕ → Option ℤ
positive_int n = if ltb n (2 ^ 63) then some (pos n) else none

abbrev pub negative_int : ℕ → Option ℤ
negative_int zero = some (pos 0)
negative_int (suc n) = if ltb n (2 ^ 63) then some (negsuc n) else none

-- `strconv.Atoi`: a sign, if there is one, and then decimal digits alone.
unfoldable pub atoi : Text → Option ℤ
unfolding magnitude
atoi [] = none
atoi (b ∷ bs) =
    if b == 45
    then Option.bind (magnitude bs) negative_int
    else if b == 43
    then Option.bind (magnitude bs) positive_int
    else Option.bind (magnitude (b ∷ bs)) positive_int
