-- ===== src/Rank/Core/Buckets.antt =====
-- A bucket's score nodes: the lookup and the insertion, on the list of nodes that they lead through.
use donkeyji.Prelude.{
  ℕ, zero, suc, ◌<◌, ◌≡◌, refl, false, Bool-cases, inl, inr, List, [], ◌∷◌, arith, ◌==◌,
  if◌then◌else◌, length,
}
use donkeyji.Prelude.Int.{ℤ, ◌<ℤ◌, ltb_ℤ, eqb_ℤ}
use donkeyji.Prelude.Chain.{null, Chain}
use donkeyji.Prelude.Exec.{ok}
use donkeyji.Rank.Core.{ScoreNodes, Ranks, bucket, get_loop, score_get}

-- all scores are below `bound`
abbrev pub Below : (ℕ → ℤ) → ℤ → List ℕ → Type 0
Below score bound [] = Unit
Below score bound (x ∷ xs) = (score x <ℤ bound) × Below score bound xs

-- each score is above those of the later nodes
abbrev pub Falling : (ℕ → ℤ) → List ℕ → Type 0
Falling score [] = Unit
Falling score (x ∷ xs) = Below score (score x) xs × Falling score xs

-- the node of a score, or NULL
abbrev pub seek : (ℕ → ℤ) → ℤ → List ℕ → ℕ
seek score s [] = null
seek score s (x ∷ xs) = if eqb_ℤ (score x) s then x else seek score s xs

seek-Below :
    (score : ℕ → ℤ) (s bound : ℤ) (xs : List ℕ)
    → (ltb_ℤ s bound ≡ false)
    → Below score bound xs
    → seek score s xs ≡ null
seek-Below score s bound [] h below = refl
seek-Below score s bound (x ∷ xs) h below =
    let off : eqb_ℤ (score x) s ≡ false = ground (arith, below.0) in
    rw off (seek-Below score s bound xs h below.1)

get_loop-seek :
    (fuel : ℕ) (n : ScoreNodes) (s : ℤ) (cur : ℕ) (xs : List ℕ)
    → length xs < fuel
    → Chain n.next_score cur xs
    → Falling n.score xs
    → get_loop fuel n s cur ≡ ok (seek n.score s xs)
unfolding get_loop
get_loop-seek zero n s cur xs enough c f = absurd (omega arith)
get_loop-seek (suc fuel) n s cur [] enough c f = rw c refl
get_loop-seek (suc fuel) n s cur (x ∷ xs) enough c f =
    let rest = get_loop-seek fuel n s (n.next_score x) xs (omega arith) c.3 f.1 in
    let some_node : (x == null) ≡ false = ground (arith, c.1) in
    elim (Bool-cases (ltb_ℤ s (n.score x))) [
      | inl above ↦
          let other : eqb_ℤ (n.score x) s ≡ false = ground arith in
          rw (c.0, some_node, above, other) rest
      | inr below ↦ elim (Bool-cases (eqb_ℤ (n.score x) s)) [
        | inl same ↦ rw (c.0, some_node, below, same) refl
        | inr other ↦
            rw (c.0, some_node, below, other, seek-Below n.score s (n.score x) xs below f.0) refl
      ]
    ]

-- if the nodes of a score's bucket lead through `xs`, each with a score above those behind it, and
-- the fuel exceeds their number, then `score_get` returns the node of the score, or NULL if there is
-- none
pub score_get-seek :
    (fuel : ℕ) (r : Ranks) (s : ℤ) (idx : ℕ) (xs : List ℕ)
    → bucket r.gia s ≡ ok idx
    → length xs < fuel
    → Chain r.scores.next_score (r.gia.score_head idx) xs
    → Falling r.scores.score xs
    → score_get fuel r s ≡ ok (seek r.scores.score s xs)
unfolding score_get
score_get-seek fuel r s idx xs at enough c f =
    rw (at, get_loop-seek fuel r.scores s (r.gia.score_head idx) xs enough c f) refl
