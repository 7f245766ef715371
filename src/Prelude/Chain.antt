-- ===== src/Prelude/Chain.antt =====
-- Linked lists of nodes that are addresses, 0 being NULL, with the link of every node in a function.
use Prim.Native.Nat.{ℕ}
use mathlib.Core.Path.{◌≡◌, refl, subst₂}
use mathlib.Core.Logic.{◌≢◌}
use mathlib.Core.Bool.{Bool, false, ◌||◌}
use mathlib.Core.List.{List, [], ◌∷◌, ◌++◌}
use native.Mathlib.Omega.{arith}
use donkeyji.Prelude.Tests.{◌==◌}
use donkeyji.Prelude.Update.{update}

abbrev pub null : ℕ
null = 0

abbrev pub has : ℕ → List ℕ → Bool
has x [] = false
has x (y ∷ ys) = x == y || has x ys

-- from `p` the links `next` lead through the distinct nodes `xs` to NULL
abbrev pub Chain : (ℕ → ℕ) → ℕ → List ℕ → Type 0
Chain next p [] = p ≡ null
Chain next p (x ∷ xs) = (p ≡ x) × (x ≢ null) × (has x xs ≡ false) × Chain next (next x) xs

-- a write to the link of a node that is not in the chain
pub Chain-update :
    (next : ℕ → ℕ) (p : ℕ) (xs : List ℕ) (t q : ℕ)
    → Chain next p xs
    → has t xs ≡ false
    → Chain (update next t q) p xs
Chain-update next p [] t q c out = c
Chain-update next p (x ∷ xs) t q c out =
    let same : update next t q x ≡ next x = ground arith in
    (c.0, c.1, c.2, rw same (Chain-update next (next x) xs t q c.3 (ground arith)))

pub has-append : (x : ℕ) (ys zs : List ℕ) → has x (ys ++ zs) ≡ (has x ys || has x zs)
has-append x [] zs = refl
has-append x (y ∷ ys) zs = ground (arith, has-append x ys zs)

-- the same links from the same node
pub Chain-eq :
    {next next' : ℕ → ℕ} {p p' : ℕ} (xs : List ℕ)
    → next ≡ next'
    → p ≡ p'
    → Chain next p xs
    → Chain next' p' xs
Chain-eq xs e f c = subst₂ (λ n q. Chain n q xs) e f c
