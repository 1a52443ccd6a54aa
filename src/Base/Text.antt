-- ===== src/Base/Text.antt =====
-- Go strings: sequences of bytes, with equality, concatenation and prefixes.
use Prim.Native.Char.{code}
use Prim.Native.String.{String}
use Prim.Native.Nat.{ℕ}
use mathlib.Core.Path.{◌≡◌, refl, sym, ap, ◌∙◌}
use mathlib.Core.Logic.{◌↔◌, ◌≢◌}
use mathlib.Core.Bool.{◌||◌, Bool, true, false, ◌&&◌}
use mathlib.Core.List.{List, [], ◌∷◌, ◌++◌}
use native.Mathlib.Omega.{arith}
use distributed_service_mesh.Base.Tests.{◌==◌}
use distributed_service_mesh.Base.Lists.{All, length, take, drop, take-append-drop}
use distributed_service_mesh.Base.Comparable.{Comparable, compares_refl}

abbrev pub Text : Type 0
Text = List ℕ

-- The bytes of an ASCII literal of the source.
abbrev pub codes : String → Text
codes String.[] = []
codes (String.◌∷◌ c s) = code c ∷ codes s

unfoldable pub text_eq : Text → Text → Bool
text_eq [] [] = true
text_eq (x ∷ xs) (y ∷ ys) = (x == y) && text_eq xs ys
text_eq _ _ = false

pub text_eq_iff : (a b : Text) → (text_eq a b ≡ true) ↔ (a ≡ b)
unfolding text_eq
text_eq_iff [] [] = ground arith
text_eq_iff [] (y ∷ ys) = ground arith
text_eq_iff (x ∷ xs) [] = ground arith
text_eq_iff (x ∷ xs) (y ∷ ys) = ground (arith, text_eq_iff xs ys)

pub text_eq_refl : (k : Text) → text_eq k k ≡ true
text_eq_refl k = (text_eq_iff k k).1 refl

instance abbrev pub text_eq_instance : Comparable Text
text_eq_instance = record { compares = text_eq; compares_iff = text_eq_iff }

-- No byte of the text is `c`.
abbrev pub Free : ℕ → Text → Type 0
Free c = All (λ b. b ≢ c)

head_eq : {x y : ℕ} {xs ys : Text} → x ∷ xs ≡ y ∷ ys → x ≡ y
head_eq h = cc

tail_eq : {x y : ℕ} {xs ys : Text} → x ∷ xs ≡ y ∷ ys → xs ≡ ys
tail_eq h = cc

-- `k[:len(p)] == p`, where `k` is long enough.
unfoldable pub begins_with : Text → Text → Bool
begins_with p k = text_eq (take (length p) k) p

pub take-length-append : (p k : Text) → take (length p) (p ++ k) ≡ p
take-length-append [] k = refl
take-length-append (x ∷ p) k = ap (◌∷◌ x) (take-length-append p k)

pub drop-length-append : (p k : Text) → drop (length p) (p ++ k) ≡ k
drop-length-append [] k = refl
drop-length-append (x ∷ p) k = drop-length-append p k

pub begins_with-append : (p k : Text) → begins_with p (p ++ k) ≡ true
unfolding begins_with
begins_with-append p k = rw take-length-append (compares_refl p)

pub begins_with-split : (p k : Text) → begins_with p k ≡ true → p ++ drop (length p) k ≡ k
unfolding begins_with
begins_with-split p k h =
    ap (λ t. t ++ drop (length p) k) (sym ((text_eq_iff (take (length p) k) p).0 h))
    ∙ take-append-drop (length p) k

-- Reading up to a byte that the text before it does not hold determines both parts.
pub append-cons_injective :
    (c : ℕ) (a b x y : Text) → Free c a → Free c b → a ++ c ∷ x ≡ b ++ c ∷ y → (a ≡ b) × (x ≡ y)
append-cons_injective c [] [] x y fa fb h = (refl, cc)
append-cons_injective c [] (d ∷ b) x y fa fb h = absurd (fb.0 (sym (head_eq h)))
append-cons_injective c (d ∷ a) [] x y fa fb h = absurd (fa.0 (head_eq h))
append-cons_injective c (d ∷ a) (e ∷ b) x y fa fb h =
    let (p, q) = append-cons_injective c a b x y fa.1 fb.1 (tail_eq h) in (cc (p, head_eq h), q)

unfoldable pub contains : Text → List Text → Bool
contains a [] = false
contains a (x ∷ xs) = text_eq x a || contains a xs

pub contains-append :
    (a : Text) (xs ys : List Text) → contains a (xs ++ ys) ≡ (contains a xs || contains a ys)
unfolding contains
contains-append a [] ys = refl
contains-append a (x ∷ xs) ys = ground (arith, contains-append a xs ys)
