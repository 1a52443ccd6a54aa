-- ===== src/Base/Float.antt =====
-- The conversion of an unsigned integer to a float64, for integers below 2 ^ 64.
use Prim.Native.Nat.{ℕ, zero, suc, ◌+◌, ◌*◌, ◌/◌, ◌%◌, ◌^◌, ◌<◌}
use mathlib.Core.Path.{◌≡◌}
use mathlib.Core.Bool.{◌&&◌, ◌||◌}
use native.Mathlib.Omega.{arith}
use distributed_service_mesh.Base.Tests.{ltb, if◌then◌else◌, ◌==◌}

-- The nearest multiple of the unit, the even one of two that are equally near.
unfoldable nearest : ℕ → ℕ → ℕ
nearest unit n =
    let below = n / unit * unit in
    let rest = n % unit in
    if ltb (2 * rest) unit || ((2 * rest == unit) && (n / unit % 2 == 0))
    then below
    else below + unit

-- A float64 has 53 significant bits: the unit is the least power of two that leaves so many.
unfoldable rounded : ℕ → ℕ → ℕ → ℕ
unfolding nearest
rounded zero unit n = nearest unit n
rounded (suc fuel) unit n =
    let coarser = rounded fuel (2 * unit) n in
    if ltb n (2 ^ 53 * unit) then nearest unit n else coarser

-- The value of `float64(n)`. An integer below 2 ^ 64 takes 11 doublings of the unit at most.
unfoldable pub to_float64 : ℕ → ℕ
unfolding rounded
to_float64 n = rounded 11 1 n

nearest-one : (n : ℕ) → nearest 1 n ≡ n
unfolding nearest
nearest-one n =
    let same : n / 1 * 1 ≡ n = omega arith in
    let none_left : n % 1 ≡ 0 = omega arith in ground (arith, same, none_left)

rounded-one : (fuel n : ℕ) → n < 2 ^ 53 → rounded fuel 1 n ≡ n
unfolding rounded
rounded-one zero n h = nearest-one n
rounded-one (suc fuel) n h = ground (arith, nearest-one n, h)

-- Below 2 ^ 53 nothing is lost.
pub to_float64-exact : (n : ℕ) → n < 2 ^ 53 → to_float64 n ≡ n
unfolding to_float64
to_float64-exact n h = rounded-one 11 n h
