-- ===== src/Rank/Core/Ranking.antt =====
-- The calls that look a user up, and `core_get_rank` and `core_get_topn` of rank/core.c.
use donkeyji.Prelude.{
  ℕ, zero, suc, ◌+◌, ◌-◌, ◌<◌, ◌≡◌, ◌≢◌, refl, sym, ap, ◌∙◌, true, false, List, [], ◌∷◌, ◌++◌,
  arith, ◌==◌, if◌then◌else◌, length,
}
use donkeyji.Prelude.Int.{ℤ, pos, ◌+ℤ◌, ltb_ℤ, eqb_ℤ, +ℤ_parts, eq_of_parts}
use donkeyji.Prelude.Chain.{null, has-append, Chain}
use donkeyji.Prelude.Exec.{ok, fault, out_of_fuel}
use donkeyji.Rank.Core.{
  idx_len, IdxArray, ScoreNodes, Ranks, core_init, uid_get, core_insert, core_update, above_loop,
  before_loop, plain_index, core_get_rank, topn_up, topn_right, core_get_topn,
}

-- no pair of the table has the key
abbrev Unknown : List (ℤ × ℕ) → ℤ → Type 0
Unknown [] uid = Unit
Unknown ((k, un) ∷ ht) uid = (eqb_ℤ k uid ≡ false) × Unknown ht uid

uid_get-Unknown : (ht : List (ℤ × ℕ)) (uid : ℤ) → Unknown ht uid → uid_get ht uid ≡ fault
unfolding uid_get
uid_get-Unknown [] uid u = refl
uid_get-Unknown ((k, un) ∷ ht) uid u = rw u.0 (uid_get-Unknown ht uid u.1)

-- for a user that is not in the table, `core_insert`, `core_update` and `core_get_rank` all follow the
-- end iterator of the lookup
pub core_insert-Unknown :
    (fuel fresh_un fresh_sn : ℕ) (r : Ranks) (uid score : ℤ)
    → Unknown r.ght uid
    → (core_insert fuel fresh_un fresh_sn r uid score ≡ fault)
      × (core_update fuel fresh_un fresh_sn r uid score ≡ fault)
      × (core_get_rank fuel r uid ≡ fault)
unfolding core_insert core_update core_get_rank
core_insert-Unknown fuel fresh_un fresh_sn r uid score u =
    let none = uid_get-Unknown r.ght uid u in (rw none refl, rw none refl, rw none refl)

-- after `core_init` no user can be added: the first `core_insert` faults, whoever the user is and
-- whatever memory is free
pub core_init-faults :
    (fuel fresh_un fresh_sn : ℕ) (memory : Ranks) (uid score : ℤ)
    → core_insert fuel fresh_un fresh_sn (core_init memory) uid score ≡ fault
unfolding core_init
core_init-faults fuel fresh_un fresh_sn memory uid score =
    (core_insert-Unknown fuel fresh_un fresh_sn (core_init memory) uid score tt).0

topn_right-stuck :
    (fuel : ℕ) (s : ScoreNodes) (topn cnt : ℤ) (sn right : ℕ)
    → (sn == null) ≡ false
    → topn_right fuel s topn cnt sn right ≡ out_of_fuel
unfolding topn_right
topn_right-stuck zero s topn cnt sn right some = refl
topn_right-stuck (suc fuel) s topn cnt sn right some = rw some (
    topn_right-stuck fuel s topn (cnt +ℤ s.cnt sn) sn
      (if ltb_ℤ (cnt +ℤ s.cnt sn) topn then right else sn) some)

-- with a node in the bucket that the first loop of `core_get_topn` chooses, the function does not
-- end: no fuel is enough
pub core_get_topn-stuck :
    (fuel : ℕ) (r : Ranks) (topn cnt : ℤ) (up : ℕ)
    → topn_up r.gia idx_len topn (pos 0) ≡ (cnt, up)
    → r.gia.score_head up ≢ null
    → core_get_topn fuel r topn ≡ out_of_fuel
unfolding core_get_topn
core_get_topn-stuck fuel r topn cnt up e some =
    rw
      (e, topn_right-stuck fuel r.scores topn cnt (r.gia.score_head up) null (ground (arith, some)))
      refl

-- the sum of `f` over the `n` numbers from `from` on
abbrev sum_from : (ℕ → ℤ) → (from n : ℕ) → ℤ
sum_from f from zero = pos 0
sum_from f from (suc n) = f (from + n) +ℤ sum_from f from n

abbrev sum_over : (ℕ → ℤ) → List ℕ → ℤ
sum_over f [] = pos 0
sum_over f (x ∷ xs) = f x +ℤ sum_over f xs

+ℤ_assoc : (a b c : ℤ) → (a +ℤ b) +ℤ c ≡ a +ℤ (b +ℤ c)
+ℤ_assoc a b c =
    eq_of_parts ((a +ℤ b) +ℤ c) (a +ℤ (b +ℤ c))
      (ground (arith, +ℤ_parts (a +ℤ b) c, +ℤ_parts a b, +ℤ_parts a (b +ℤ c), +ℤ_parts b c))

+ℤ_zero : (a : ℤ) → a +ℤ pos 0 ≡ a
+ℤ_zero a = eq_of_parts (a +ℤ pos 0) a (ground (arith, +ℤ_parts a (pos 0)))

zero_+ℤ : (a : ℤ) → pos 0 +ℤ a ≡ a
zero_+ℤ a = eq_of_parts (pos 0 +ℤ a) a (ground (arith, +ℤ_parts (pos 0) a))

before_loop-sum :
    (fuel : ℕ) (s : ScoreNodes) (sn tmp : ℕ) (rank : ℤ) (ys zs : List ℕ)
    → length ys < fuel
    → Chain s.next_score tmp (ys ++ sn ∷ zs)
    → before_loop fuel s sn tmp rank ≡ ok (rank +ℤ sum_over s.cnt ys)
unfolding before_loop
before_loop-sum zero s sn tmp rank ys zs enough c = absurd (omega arith)
before_loop-sum (suc fuel) s sn tmp rank [] zs enough c =
    let here : (tmp == sn) ≡ true = ground (arith, c.0) in rw here (ap ok (sym (+ℤ_zero rank)))
before_loop-sum (suc fuel) s sn tmp rank (y ∷ ys) zs enough c =
    let before : (tmp == sn) ≡ false = ground (arith, c.0, c.2, has-append y ys (sn ∷ zs)) in
    let some : (tmp == null) ≡ false = ground (arith, c.0, c.1) in
    rw
      (
        before,
        some,
        c.0,
        before_loop-sum fuel s sn (s.next_score y) (rank +ℤ s.cnt y) ys zs (omega arith) c.3,
      )
      (ap ok (+ℤ_assoc rank (s.cnt y) (sum_over s.cnt ys)))

above_loop-sum :
    (ia : IdxArray) (idx n : ℕ) (rank : ℤ)
    → above_loop ia idx n rank ≡ rank +ℤ sum_from ia.idx_cnt (suc idx) n
unfolding above_loop
above_loop-sum ia idx zero rank = sym (+ℤ_zero rank)
above_loop-sum ia idx (suc n) rank =
    let top : idx + suc n ≡ suc idx + n = omega arith in
    above_loop-sum ia idx n (rank +ℤ ia.idx_cnt (idx + suc n))
    ∙ +ℤ_assoc rank (ia.idx_cnt (idx + suc n)) (sum_from ia.idx_cnt (suc idx) n)
    ∙ ap (λ i. rank +ℤ (ia.idx_cnt i +ℤ sum_from ia.idx_cnt (suc idx) n)) top

-- for a user in the map, not NULL, whose `owner_score` is a score node that is not NULL, has a score
-- with an index in range, and stands in its bucket's list behind the nodes `ys`, and with fuel above
-- their number, `core_get_rank` returns the sum of the counts of the buckets above and of the counts
-- of `ys`
pub core_get_rank-sum :
    (fuel : ℕ) (r : Ranks) (uid : ℤ) (un sn idx : ℕ) (ys zs : List ℕ)
    → uid_get r.ght uid ≡ ok un
    → un ≢ null
    → r.uids.owner_score un ≡ sn
    → sn ≢ null
    → plain_index (r.scores.score sn) ≡ ok idx
    → Chain r.scores.next_score (r.gia.score_head idx) (ys ++ sn ∷ zs)
    → length ys < fuel
    → core_get_rank fuel r uid
      ≡ ok (sum_from r.gia.idx_cnt (suc idx) (idx_len - 1 - idx) +ℤ sum_over r.scores.cnt ys)
unfolding core_get_rank
core_get_rank-sum fuel r uid un sn idx ys zs known some owner some_score at c enough =
    let a_user : (un == null) ≡ false = ground (arith, some) in
    let a_score : (sn == null) ≡ false = ground (arith, some_score) in
    let above = sum_from r.gia.idx_cnt (suc idx) (idx_len - 1 - idx) in
    let head = r.gia.score_head idx in
    let start : above_loop r.gia idx (idx_len - 1 - idx) (pos 0) ≡ above =
      above_loop-sum r.gia idx (idx_len - 1 - idx) (pos 0) ∙ zero_+ℤ above in
    rw (known, a_user, owner, a_score, at, start)
      (before_loop-sum fuel r.scores sn head above ys zs enough c)
