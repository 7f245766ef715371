-- ===== src/Cpp/KvParser/Entries.antt =====
-- The pairs that a text can express, and maps in order.
use mathlib.Core.Path.{subst}
use donkeyji.Prelude.{
  same_text-eq, same_text_self, same_text, some, ℕ, ◌≡◌, refl, sym, ◌∙◌, ap, Bool, true, false, not,
  List, [], ◌∷◌, ◌++◌, arith, ◌==◌, if◌then◌else◌, Bool-cases, inl, inr,
}
use donkeyji.Cpp.KvParser.{
  KvMap, text_less, assign, find, some_bytes, before_key, in_key, before_value, in_value,
}
use donkeyji.Cpp.KvParser.Words.{All, StopsAt}

abbrev pub not_nul : ℕ → Bool
not_nul c = not (c == 0)

pub record IsKey (k : List ℕ) : Type 0 where
  pub some_key : some_bytes k ≡ true
  pub bytes : All in_key k
  pub start : StopsAt before_key k
  pub text : All not_nul k

pub record IsValue (v : List ℕ) : Type 0 where
  pub some_value : some_bytes v ≡ true
  pub bytes : All in_value v
  pub start : StopsAt before_value v
  pub text : All not_nul v

-- every pair can be written
abbrev pub Expressible : KvMap → Type 0
Expressible [] = Unit {0}
Expressible ((k, v) ∷ m) = IsKey k × IsValue v × Expressible m

-- the key is below every key of the map
abbrev pub Below : List ℕ → KvMap → Type 0
Below k [] = Unit {0}
Below k ((j, w) ∷ m) = (text_less k j ≡ true) × Below k m

-- the keys go up, as they do in a `std::map`
abbrev pub IsOrdered : KvMap → Type 0
IsOrdered [] = Unit {0}
IsOrdered ((k, v) ∷ m) = Below k m × IsOrdered m

less-not_same : (j k : List ℕ) → text_less j k ≡ true → same_text j k ≡ false
unfolding text_less same_text
less-not_same [] [] h = cc
less-not_same [] (y ∷ ys) h = refl
less-not_same (x ∷ xs) [] h = refl
less-not_same (x ∷ xs) (y ∷ ys) h = ground (arith, less-not_same xs ys)

less_asymm : (j k : List ℕ) → text_less j k ≡ true → text_less k j ≡ false
unfolding text_less
less_asymm [] [] h = refl
less_asymm [] (y ∷ ys) h = refl
less_asymm (x ∷ xs) [] h = cc
less_asymm (x ∷ xs) (y ∷ ys) h = ground (arith, less_asymm xs ys)

pub less_trans :
    (i j k : List ℕ) → text_less i j ≡ true → text_less j k ≡ true → text_less i k ≡ true
unfolding text_less
less_trans [] [] k h g = cc
less_trans [] (y ∷ ys) [] h g = cc
less_trans [] (y ∷ ys) (z ∷ zs) h g = refl
less_trans (x ∷ xs) [] k h g = cc
less_trans (x ∷ xs) (y ∷ ys) [] h g = cc
less_trans (x ∷ xs) (y ∷ ys) (z ∷ zs) h g = ground (arith, less_trans xs ys zs)

less_total : (j k : List ℕ) → same_text j k ≡ false → text_less k j ≡ false → text_less j k ≡ true
unfolding same_text text_less
less_total [] [] h g = cc
less_total [] (y ∷ ys) h g = refl
less_total (x ∷ xs) [] h g = cc
less_total (x ∷ xs) (y ∷ ys) h g = ground (arith, less_total xs ys)

Below-trans : (j k : List ℕ) (m : KvMap) → text_less j k ≡ true → Below k m → Below j m
Below-trans j k [] h b = tt
Below-trans j k ((i, w) ∷ m) h b = (less_trans j k i h b.0, Below-trans j k m h b.1)

Below-assign :
    (j k v : List ℕ) (m : KvMap) → text_less j k ≡ true → Below j m → Below j (assign k v m)
unfolding assign
Below-assign j k v [] h b = (h, tt)
Below-assign j k v ((i, w) ∷ m) h b = elim (Bool-cases (same_text i k)) [
  | inl e ↦ rw e (h, b.1)
  | inr e ↦ rw e (elim (Bool-cases (text_less k i)) [
    | inl f ↦ rw f (h, b)
    | inr f ↦ rw f (b.0, Below-assign j k v m h b.1)
  ])
]

-- assigning keeps the keys in order
pub assign-IsOrdered : (k v : List ℕ) (m : KvMap) → IsOrdered m → IsOrdered (assign k v m)
unfolding assign
assign-IsOrdered k v [] o = (tt, tt)
assign-IsOrdered k v ((i, w) ∷ m) o = elim (Bool-cases (same_text i k)) [
  | inl e ↦ rw e (subst (λ j. Below j m) (same_text-eq i k e) o.0, o.1)
  | inr e ↦ rw e (elim (Bool-cases (text_less k i)) [
    | inl f ↦ rw f ((f, Below-trans k i m f o.0), o)
    | inr f ↦ rw f (Below-assign i k v m (less_total i k e f) o.0, assign-IsOrdered k v m o.1)
  ])
]

pub assign-Expressible :
    (k v : List ℕ) (m : KvMap) → IsKey k → IsValue v → Expressible m → Expressible (assign k v m)
unfolding assign
assign-Expressible k v [] a b e = (a, b, tt)
assign-Expressible k v ((i, w) ∷ m) a b e = elim (Bool-cases (same_text i k)) [
  | inl s ↦ rw s (a, b, e.2)
  | inr s ↦ rw s (elim (Bool-cases (text_less k i)) [
    | inl f ↦ rw f (a, b, e)
    | inr f ↦ rw f (e.0, e.1, assign-Expressible k v m a b e.2)
  ])
]

not_both : (i k j : List ℕ) → same_text i k ≡ false → same_text i j ≡ true → same_text k j ≡ false
not_both i k j e g = elim (Bool-cases (same_text k j)) [
  | inr f ↦ f
  | inl f ↦
      let i_k : i ≡ k = same_text-eq i j g ∙ sym (same_text-eq k j f) in
      absurd (cc (e, subst (λ t. same_text i t ≡ true) i_k (same_text_self i)))
]

-- `find` after `assign`
pub find-assign :
    (j k v : List ℕ) (m : KvMap)
    → find j (assign k v m) ≡ (if same_text k j then some v else find j m)
unfolding find assign
find-assign j k v [] = refl
find-assign j k v ((i, w) ∷ m) = elim (Bool-cases (same_text i k)) [
  | inl e ↦
      rw (e, same_text-eq i k e) (elim (Bool-cases (same_text k j)) [ inl f ↦ rw f | inr f ↦ rw f ])
  | inr e ↦ rw e (elim (Bool-cases (text_less k i)) [
    | inl f ↦ rw f
    | inr f ↦ rw f (elim (Bool-cases (same_text i j)) [
      | inl g ↦ let apart : same_text k j ≡ false = not_both i k j e g in rw (g, apart)
      | inr g ↦ rw g (find-assign j k v m)
    ])
  ])
]

-- every key of the first map is below those of the second
abbrev pub Before : KvMap → List ℕ → Type 0
Before [] k = Unit {0}
Before ((j, w) ∷ m) k = (text_less j k ≡ true) × Before m k

-- a key above all others is added at the end
pub assign-last : (k v : List ℕ) (m : KvMap) → Before m k → assign k v m ≡ m ++ ((k, v) ∷ [])
unfolding assign
assign-last k v [] b = refl
assign-last k v ((j, w) ∷ m) b =
    rw (less-not_same j k b.0, less_asymm j k b.0) (ap (◌∷◌ (j, w)) (assign-last k v m b.1))
