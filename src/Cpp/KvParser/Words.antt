-- ===== src/Cpp/KvParser/Words.antt =====
-- The loops over the bytes of a text.
use donkeyji.Prelude.{
  ℕ, ◌≤◌, ◌≡◌, refl, ap, Bool, true, false, List, [], ◌∷◌, ◌++◌, arith, length, Bool-cases, inl,
  inr,
}
use donkeyji.Cpp.KvParser.{skip, word, before_key, in_key, before_value, in_value}

-- every byte passes the test
abbrev pub All : (ℕ → Bool) → List ℕ → Type 0
All p [] = Unit {0}
All p (c ∷ s) = (p c ≡ true) × All p s

-- a text at whose first byte the loop stops
abbrev pub StopsAt : (ℕ → Bool) → List ℕ → Type 0
StopsAt p [] = Unit {0}
StopsAt p (c ∷ s) = p c ≡ false

pub skip-stop : (p : ℕ → Bool) (s : List ℕ) → StopsAt p s → skip p s ≡ s
unfolding skip
skip-stop p [] h = refl
skip-stop p (c ∷ s) h = rw h

pub skip-append : (p : ℕ → Bool) (w s : List ℕ) → All p w → StopsAt p s → skip p (w ++ s) ≡ s
unfolding skip
skip-append p [] s a h = skip-stop p s h
skip-append p (c ∷ w) s a h = rw a.0 (skip-append p w s a.1 h)

pub word-stop : (p : ℕ → Bool) (s : List ℕ) → StopsAt p s → word p s ≡ []
unfolding word
word-stop p [] h = refl
word-stop p (c ∷ s) h = rw h

pub word-append : (p : ℕ → Bool) (w s : List ℕ) → All p w → StopsAt p s → word p (w ++ s) ≡ w
unfolding word
word-append p [] s a h = word-stop p s h
word-append p (c ∷ w) s a h = rw a.0 (ap (◌∷◌ c) (word-append p w s a.1 h))

pub word-All : (p : ℕ → Bool) (s : List ℕ) → All p (word p s)
unfolding word
word-All p [] = tt
word-All p (c ∷ s) = elim (Bool-cases (p c)) [ inl e ↦ rw e (e, word-All p s) | inr e ↦ rw e tt ]

pub skip-StopsAt : (p : ℕ → Bool) (s : List ℕ) → StopsAt p (skip p s)
unfolding skip
skip-StopsAt p [] = tt
skip-StopsAt p (c ∷ s) = elim (Bool-cases (p c)) [
  | inl e ↦ rw e (skip-StopsAt p s)
  | inr e ↦ rw e e
]

-- what comes first in the rest comes first in the text passed over, unless that is empty
pub word-of-StopsAt : (p q : ℕ → Bool) (s : List ℕ) → StopsAt q s → StopsAt q (word p s)
unfolding word
word-of-StopsAt p q [] h = tt
word-of-StopsAt p q (c ∷ s) h = elim (Bool-cases (p c)) [ inl e ↦ rw e h | inr e ↦ rw e tt ]

-- a property of the bytes of a text
pub word-All_of : (p q : ℕ → Bool) (s : List ℕ) → All q s → All q (word p s)
unfolding word
word-All_of p q [] a = tt
word-All_of p q (c ∷ s) a = elim (Bool-cases (p c)) [
  | inl e ↦ rw e (a.0, word-All_of p q s a.1)
  | inr e ↦ rw e tt
]

pub skip-All_of : (p q : ℕ → Bool) (s : List ℕ) → All q s → All q (skip p s)
unfolding skip
skip-All_of p q [] a = tt
skip-All_of p q (c ∷ s) a = elim (Bool-cases (p c)) [
  | inl e ↦ rw e (skip-All_of p q s a.1)
  | inr e ↦ rw e a
]

pub length-skip : (p : ℕ → Bool) (s : List ℕ) → length (skip p s) ≤ length s
unfolding skip
length-skip p [] = omega arith
length-skip p (c ∷ s) = ground (arith, length-skip p s)

-- a round takes at least one byte
pub length-round :
    (c : ℕ) (s : List ℕ)
    → length (skip in_value (skip before_value (skip in_key (skip before_key (c ∷ s))))) ≤ length s
unfolding skip
length-round c s = elim (Bool-cases (before_key c)) [
  | inl e ↦
      let t = skip before_key s in
      rw e (
        omega (
          arith,
          length-skip before_key s,
          length-skip in_key t,
          length-skip before_value (skip in_key t),
          length-skip in_value (skip before_value (skip in_key t)),
        ))
  | inr e ↦ rw e (elim (Bool-cases (in_key c)) [
    | inl f ↦
        let t = skip in_key s in
        rw f (
          omega (
            arith,
            length-skip in_key s,
            length-skip before_value t,
            length-skip in_value (skip before_value t),
          ))
    | inr f ↦
        let t = skip before_value s in
        let is_equals : before_value c ≡ true = ground arith in
        rw (f, is_equals) (omega (arith, length-skip before_value s, length-skip in_value t))
  ])
]
