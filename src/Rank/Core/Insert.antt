-- ===== src/Rank/Core/Insert.antt =====
-- `score_new` of rank/core.c: the new node in the list of its bucket.
use donkeyji.Prelude.{
  ℕ, zero, suc, ◌<◌, ◌≡◌, ◌≢◌, refl, sym, ap, ◌∙◌, Bool, true, false, Bool-cases, inl, inr, List,
  [], ◌∷◌, arith, ◌==◌, if◌then◌else◌, update, length,
}
use donkeyji.Prelude.Int.{ℤ, pos, ◌+ℤ◌, ltb_ℤ}
use donkeyji.Prelude.Chain.{null, has, Chain, Chain-update, Chain-eq}
use donkeyji.Prelude.Exec.{ok, Yields, yields}
use donkeyji.Rank.Core.{ScoreNodes, Ranks, bucket, place_loop, fresh_score, insert_score, score_new}
use donkeyji.Rank.Core.Buckets.{Falling, seek, score_get-seek}
use donkeyji.Rank.Core.Place.{
  Lacks-seek, insert_after, placed, Falling-placed, before_of, after_of, has-insert_after,
}

place_loop-stops :
    (fuel : ℕ) (n : ScoreNodes) (s : ℤ) (pre cur : ℕ) (xs : List ℕ)
    → length xs < fuel
    → Chain n.next_score cur xs
    → place_loop fuel n s pre cur ≡ ok (before_of n.score s pre xs, after_of n.score s xs)
unfolding place_loop
place_loop-stops zero n s pre cur xs enough c = absurd (omega arith)
place_loop-stops (suc fuel) n s pre cur [] enough c = rw c refl
place_loop-stops (suc fuel) n s pre cur (x ∷ xs) enough c =
    let rest = place_loop-stops fuel n s x (n.next_score x) xs (omega arith) c.3 in
    let some_node : (x == null) ≡ false = ground (arith, c.1) in
    elim (Bool-cases (ltb_ℤ s (n.score x))) [
      | inl above ↦ rw (c.0, some_node, above) rest
      | inr below ↦ rw (c.0, some_node, below) refl
    ]

has-before_of :
    (score : ℕ → ℤ) (s : ℤ) (pre y : ℕ) (xs : List ℕ)
    → y ≢ pre
    → has y xs ≡ false
    → y ≢ before_of score s pre xs
has-before_of score s pre y [] other out = other
has-before_of score s pre y (x ∷ xs) other out = elim (Bool-cases (ltb_ℤ s (score x))) [
  | inl above ↦ rw above (has-before_of score s x y xs (ground arith) (ground arith))
  | inr below ↦ rw below other
]

-- the writes of `score_new` to the links
abbrev linked : (ℕ → ℕ) → (new pre cur : ℕ) → ℕ → ℕ
linked next new pre cur = update (update (update next new null) pre new) new cur

Chain-linked :
    (next : ℕ → ℕ) (score : ℕ → ℤ) (s : ℤ) (new pre : ℕ) (xs : List ℕ)
    → new ≢ null
    → new ≢ pre
    → has new xs ≡ false
    → has pre xs ≡ false
    → Chain next (next pre) xs
    → (next' : ℕ → ℕ) → next' ≡ linked next new (before_of score s pre xs) (after_of score s xs)
    → Chain next' (next' pre) (insert_after score s new xs)
Chain-linked next score s new pre [] some other out alone c next' e =
    rw e (ground arith, some, refl, ground arith)
Chain-linked next score s new pre (x ∷ xs) some other out alone c next' e =
    elim (Bool-cases (ltb_ℤ s (score x))) [
      | inl above ↦
          let stop = has-before_of score s x pre xs (ground arith) (ground arith) in
          let e' : next' ≡ linked next new (before_of score s x xs) (after_of score s xs) =
            e ∙ rw above refl in
          let at : next' pre ≡ x = rw e' (ground (arith, c.0, stop)) in
          let later : has x (insert_after score s new xs) ≡ false =
            ground (arith, has-insert_after score s new x xs, c.2) in
          rw above (
            at,
            c.1,
            later,
            Chain-linked next score s new x xs some (ground arith) (ground arith) c.2 c.3 next' e',
          )
      | inr below ↦
          let e' : next' ≡ linked next new pre x = e ∙ rw below refl in
          let kept =
            Chain-update (update (update next new null) pre new) x (x ∷ xs) new x
              (Chain-update (update next new null) x (x ∷ xs) pre new
                (Chain-update next x (x ∷ xs) new null (refl, c.1, c.2, c.3) out) alone)
              out in
          rw below (
            Chain-eq (new ∷ x ∷ xs) (sym e') (sym (ap (λ (f : ℕ → ℕ). f pre) e'))
              (ground arith, some, out, (ground arith, kept.1, kept.2, kept.3)))
    ]

before_of-after_of :
    (next : ℕ → ℕ) (score : ℕ → ℤ) (s : ℤ) (pre : ℕ) (xs : List ℕ)
    → pre ≢ null
    → has pre xs ≡ false
    → Chain next (next pre) xs
    → (before_of score s pre xs == after_of score s xs) ≡ false
before_of-after_of next score s pre [] some out c = ground (arith, some)
before_of-after_of next score s pre (x ∷ xs) some out c = elim (Bool-cases (ltb_ℤ s (score x))) [
  | inl above ↦ rw above (before_of-after_of next score s x xs c.1 c.2 c.3)
  | inr low ↦ rw low (ground arith)
]

-- the links and the head of a bucket after the insertion
Chain-placed :
    (next : ℕ → ℕ) (score : ℕ → ℤ) (s : ℤ) (new head : ℕ) (xs : List ℕ)
    → new ≢ null
    → has new xs ≡ false
    → Chain next head xs
    → (as_head : Bool) → as_head ≡ (before_of score s head xs == after_of score s xs)
    → Chain
        (if as_head
          then update next new null
          else linked next new (before_of score s head xs) (after_of score s xs))
        (if as_head then new else head)
        (placed score s new xs)
Chain-placed next score s new head [] some out c as_head e =
    let first : as_head ≡ true = ground (arith, c) in rw first (refl, some, refl, ground arith)
Chain-placed next score s new head (x ∷ xs) some out c as_head e =
    elim (Bool-cases (ltb_ℤ s (score x))) [
      | inl above ↦
          let differ = before_of-after_of next score s x xs c.1 c.2 c.3 in
          let behind : as_head ≡ false = e ∙ rw above differ in
          let links = linked next new (before_of score s x xs) (after_of score s xs) in
          let rest =
            Chain-linked next score s new x xs some (ground arith) (ground arith) c.2 c.3 links
              refl in
          let later : has x (insert_after score s new xs) ≡ false =
            ground (arith, has-insert_after score s new x xs, c.2) in
          rw (behind, above) (c.0, c.1, later, rest)
      | inr low ↦
          let first : as_head ≡ true = e ∙ rw low (ground (arith, c.0)) in
          rw (first, low) (refl, some, refl, ground arith)
    ]

-- what `score_new` returns for a new score: the fresh node, without users, stands in the bucket's list
abbrev pub Placed : Ranks → (idx new : ℕ) → ℤ → List ℕ → ℕ × Ranks → Type 0
Placed r idx new s xs out =
    (out.0 ≡ new)
    × Chain out.1.scores.next_score (out.1.gia.score_head idx) (placed r.scores.score s new xs)
    × Falling out.1.scores.score (placed r.scores.score s new xs)
    × (out.1.scores.score new ≡ s)
    × (out.1.scores.uid_head new ≡ null)
    × (out.1.gia.idx_cnt idx ≡ r.gia.idx_cnt idx +ℤ pos 1)

-- if the nodes of a score's bucket lead through `xs`, each with a score above those behind it, none
-- of them has the score, the fuel exceeds their number, and `fresh` is neither NULL nor one of them,
-- then `score_new` returns `fresh`, with the score and no users; the list stays one of falling
-- scores, with the new node behind those with a higher score, and if there are none of these, then it
-- has the new node alone; and the bucket's count grows by one
pub score_new-Placed :
    (fuel fresh : ℕ) (r : Ranks) (s : ℤ) (idx : ℕ) (xs : List ℕ)
    → bucket r.gia s ≡ ok idx
    → length xs < fuel
    → Chain r.scores.next_score (r.gia.score_head idx) xs
    → Falling r.scores.score xs
    → seek r.scores.score s xs ≡ null
    → fresh ≢ null
    → has fresh xs ≡ false
    → Yields (Placed r idx fresh s xs) (score_new fuel fresh r s)
unfolding score_new insert_score fresh_score
score_new-Placed fuel fresh r s idx xs at enough c f none some out =
    let found = score_get-seek fuel r s idx xs at enough c f in
    let stop =
      place_loop-stops fuel r.scores s (r.gia.score_head idx) (r.gia.score_head idx) xs enough c in
    let a_node : (fresh == null) ≡ false = ground (arith, some) in
    let lacks = Lacks-seek r.scores.score s r.scores.next_score (r.gia.score_head idx) xs c none in
    let head = r.gia.score_head idx in
    let as_head = before_of r.scores.score s head xs == after_of r.scores.score s xs in
    let chain =
      Chain-placed r.scores.next_score r.scores.score s fresh head xs some out c as_head refl in
    let at_head : (if as_head then fresh else head)
        ≡ (if as_head then update r.gia.score_head idx fresh else r.gia.score_head) idx =
      ground arith in
    rw (found, none, at, stop, a_node)
      (yields (
        refl,
        Chain-eq (placed r.scores.score s fresh xs) refl at_head chain,
        Falling-placed r.scores.score s fresh xs f lacks out,
        ground arith,
        ground arith,
        ground arith,
      ))
