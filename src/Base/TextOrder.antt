-- ===== src/Base/TextOrder.antt =====
-- Go's `<` on strings: bytewise lexicographic, a strict total order.
use mathlib.Core.Path.{◌≡◌, refl}
use mathlib.Core.Bool.{Bool, true, false}
use mathlib.Core.List.{[], ◌∷◌}
use native.Mathlib.Omega.{arith}
use distributed_service_mesh.Base.Tests.{◌==◌, ltb, if◌then◌else◌}
use distributed_service_mesh.Base.Text.{Text}

unfoldable pub text_lt : Text → Text → Bool
text_lt [] [] = false
text_lt [] (y ∷ ys) = true
text_lt (x ∷ xs) [] = false
text_lt (x ∷ xs) (y ∷ ys) = if x == y then text_lt xs ys else ltb x y

pub text_lt_irrefl : (a : Text) → text_lt a a ≡ false
unfolding text_lt
text_lt_irrefl [] = refl
text_lt_irrefl (x ∷ xs) = ground (arith, text_lt_irrefl xs)

pub text_lt_trans : (a b c : Text) → text_lt a b ≡ true → text_lt b c ≡ true → text_lt a c ≡ true
unfolding text_lt
text_lt_trans [] [] c p q = q
text_lt_trans [] (y ∷ b) [] p q = q
text_lt_trans [] (y ∷ b) (z ∷ c) p q = refl
text_lt_trans (x ∷ a) [] c p q = ground arith
text_lt_trans (x ∷ a) (y ∷ b) [] p q = q
text_lt_trans (x ∷ a) (y ∷ b) (z ∷ c) p q = ground (arith, text_lt_trans a b c)

pub text_lt_total : (a b : Text) → text_lt a b ≡ false → text_lt b a ≡ false → a ≡ b
unfolding text_lt
text_lt_total [] [] p q = refl
text_lt_total [] (y ∷ b) p q = ground arith
text_lt_total (x ∷ a) [] p q = ground arith
text_lt_total (x ∷ a) (y ∷ b) p q = ground (arith, text_lt_total a b)

pub text_lt_asymm : (a b : Text) → text_lt a b ≡ true → text_lt b a ≡ false
unfolding text_lt
text_lt_asymm [] [] p = refl
text_lt_asymm [] (y ∷ b) p = refl
text_lt_asymm (x ∷ a) [] p = ground arith
text_lt_asymm (x ∷ a) (y ∷ b) p = ground (arith, text_lt_asymm a b)
