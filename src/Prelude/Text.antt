-- ===== src/Prelude/Text.antt =====
-- Texts as the lists of their bytes, and `std::string` equality.
use Prim.Native.Nat.{ℕ}
use mathlib.Core.Path.{◌≡◌, refl}
use mathlib.Core.Bool.{Bool, true, false, ◌&&◌}
use mathlib.Core.List.{List, [], ◌∷◌}
use native.Mathlib.Omega.{arith}
use donkeyji.Prelude.Tests.{◌==◌}

unfoldable pub same_text : List ℕ → List ℕ → Bool
same_text [] [] = true
same_text [] (y ∷ ys) = false
same_text (x ∷ xs) [] = false
same_text (x ∷ xs) (y ∷ ys) = x == y && same_text xs ys

pub same_text-eq : (j k : List ℕ) → same_text j k ≡ true → j ≡ k
unfolding same_text
same_text-eq [] [] h = refl
same_text-eq [] (y ∷ ys) h = cc
same_text-eq (x ∷ xs) [] h = cc
same_text-eq (x ∷ xs) (y ∷ ys) h = ground (arith, same_text-eq xs ys)

pub same_text_self : (k : List ℕ) → same_text k k ≡ true
unfolding same_text
same_text_self [] = refl
same_text_self (x ∷ xs) = ground (arith, same_text_self xs)
