-- ===== src/Rank/Core/Place.antt =====
-- Where `score_new` puts a node, as a list, and the order of the scores in it.
use donkeyji.Prelude.{
  ℕ, ◌≡◌, refl, sym, subst, false, Bool-cases, inl, inr, ◌||◌, List, [], ◌∷◌, arith, ◌==◌,
  if◌then◌else◌, update,
}
use donkeyji.Prelude.Int.{ℤ, ◌<ℤ◌, ltb_ℤ, eqb_ℤ}
use donkeyji.Prelude.Chain.{null, has, Chain}
use donkeyji.Rank.Core.Buckets.{Below, Falling, seek}

-- no node has the score
abbrev pub Lacks : (ℕ → ℤ) → ℤ → List ℕ → Type 0
Lacks score s [] = Unit
Lacks score s (x ∷ xs) = (eqb_ℤ (score x) s ≡ false) × Lacks score s xs

pub Lacks-seek :
    (score : ℕ → ℤ) (s : ℤ) (next : ℕ → ℕ) (p : ℕ) (xs : List ℕ)
    → Chain next p xs
    → seek score s xs ≡ null
    → Lacks score s xs
Lacks-seek score s next p [] c e = tt
Lacks-seek score s next p (x ∷ xs) c e = elim (Bool-cases (eqb_ℤ (score x) s)) [
  | inl same ↦ absurd (ground (arith, c.1))
  | inr other ↦ (other, Lacks-seek score s next (next x) xs c.3 (ground arith))
]

-- where the loop stops: the last node with a higher score, and the one behind it
abbrev pub before_of : (ℕ → ℤ) → ℤ → ℕ → List ℕ → ℕ
before_of score s pre [] = pre
before_of score s pre (x ∷ xs) = if ltb_ℤ s (score x) then before_of score s x xs else pre

abbrev pub after_of : (ℕ → ℤ) → ℤ → List ℕ → ℕ
after_of score s [] = null
after_of score s (x ∷ xs) = if ltb_ℤ s (score x) then after_of score s xs else x

-- the list in order with a new node
abbrev pub insert_after : (ℕ → ℤ) → ℤ → ℕ → List ℕ → List ℕ
insert_after score s new [] = new ∷ []
insert_after score s new (x ∷ xs) =
    if ltb_ℤ s (score x) then x ∷ insert_after score s new xs else new ∷ x ∷ xs

-- what `score_new` makes of a list: a node that is not behind another one drops all of them
abbrev pub placed : (ℕ → ℤ) → ℤ → ℕ → List ℕ → List ℕ
placed score s new [] = new ∷ []
placed score s new (x ∷ xs) =
    if ltb_ℤ s (score x) then x ∷ insert_after score s new xs else new ∷ []

pub has-insert_after :
    (score : ℕ → ℤ) (s : ℤ) (new y : ℕ) (xs : List ℕ)
    → has y (insert_after score s new xs) ≡ (y == new || has y xs)
has-insert_after score s new y [] = ground arith
has-insert_after score s new y (x ∷ xs) = elim (Bool-cases (ltb_ℤ s (score x))) [
  | inl above ↦ rw above (ground (arith, has-insert_after score s new y xs))
  | inr below ↦ rw below refl
]

pub Below-update :
    (score : ℕ → ℤ) (s bound : ℤ) (new : ℕ) (xs : List ℕ)
    → Below score bound xs
    → has new xs ≡ false
    → Below (update score new s) bound xs
Below-update score s bound new [] below out = tt
Below-update score s bound new (x ∷ xs) below out =
    let same : update score new s x ≡ score x = ground arith in
    (rw same below.0, Below-update score s bound new xs below.1 (ground arith))

pub Below-insert_after :
    (score : ℕ → ℤ) (s bound : ℤ) (new : ℕ) (xs : List ℕ)
    → s <ℤ bound
    → Below score bound xs
    → has new xs ≡ false
    → Below (update score new s) bound (insert_after score s new xs)
Below-insert_after score s bound new [] under below out =
    let at : update score new s new ≡ s = ground arith in (rw at under, tt)
Below-insert_after score s bound new (x ∷ xs) under below out =
    let at : update score new s new ≡ s = ground arith in
    let same : update score new s x ≡ score x = ground arith in
    elim (Bool-cases (ltb_ℤ s (score x))) [
      | inl above ↦
          rw above
            (rw same below.0, Below-insert_after score s bound new xs under below.1 (ground arith))
      | inr low ↦
          rw low (
            rw at under,
            (rw same below.0, Below-update score s bound new xs below.1 (ground arith)),
          )
    ]

pub Below-widen :
    (score : ℕ → ℤ) (bound wider : ℤ) (xs : List ℕ)
    → bound <ℤ wider
    → Below score bound xs
    → Below score wider xs
Below-widen score bound wider [] w below = tt
Below-widen score bound wider (x ∷ xs) w below =
    (ground (arith, below.0), Below-widen score bound wider xs w below.1)

pub Falling-update :
    (score : ℕ → ℤ) (s : ℤ) (new : ℕ) (xs : List ℕ)
    → Falling score xs
    → has new xs ≡ false
    → Falling (update score new s) xs
Falling-update score s new [] f out = tt
Falling-update score s new (x ∷ xs) f out =
    let same : update score new s x ≡ score x = ground arith in
    let away : has new xs ≡ false = ground arith in
    (
      rw same (Below-update score s (score x) new xs f.0 away),
      Falling-update score s new xs f.1 away,
    )

pub Falling-insert_after :
    (score : ℕ → ℤ) (s : ℤ) (new : ℕ) (xs : List ℕ)
    → Falling score xs
    → Lacks score s xs
    → has new xs ≡ false
    → Falling (update score new s) (insert_after score s new xs)
Falling-insert_after score s new [] f lacks out = (tt, tt)
Falling-insert_after score s new (x ∷ xs) f lacks out =
    let at : update score new s new ≡ s = ground arith in
    let same : update score new s x ≡ score x = ground arith in
    let away : has new xs ≡ false = ground arith in
    elim (Bool-cases (ltb_ℤ s (score x))) [
      | inl above ↦ rw above (
        rw same (Below-insert_after score s (score x) new xs (ground arith) f.0 away),
        Falling-insert_after score s new xs f.1 lacks.1 away,
      )
      | inr low ↦
          let under : score x <ℤ s = ground (arith, lacks.0) in
          let rest = Falling-update score s new (x ∷ xs) f out in
          let wide =
            Below-update score s s new xs (Below-widen score (score x) s xs under f.0) away in
          rw low (
            (rw (at, same) under, subst (λ b. Below (update score new s) b xs) (sym at) wide),
            rest,
          )
    ]

pub Falling-placed :
    (score : ℕ → ℤ) (s : ℤ) (new : ℕ) (xs : List ℕ)
    → Falling score xs
    → Lacks score s xs
    → has new xs ≡ false
    → Falling (update score new s) (placed score s new xs)
Falling-placed score s new [] f lacks out = (tt, tt)
Falling-placed score s new (x ∷ xs) f lacks out =
    let ordered = Falling-insert_after score s new (x ∷ xs) f lacks out in
    elim (Bool-cases (ltb_ℤ s (score x))) [
      | inl above ↦
          let e : insert_after score s new (x ∷ xs) ≡ x ∷ insert_after score s new xs =
            rw above refl in
          rw above (subst (λ l. Falling (update score new s) l) e ordered)
      | inr low ↦ rw low (tt, tt)
    ]
