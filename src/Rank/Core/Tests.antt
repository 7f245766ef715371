-- ===== src/Rank/Core/Tests.antt =====
-- Runs of rank/core.c: two scores in the last bucket, 9,999,900 with the users 7 and 8 and 9,999,500
-- with the user 9.
use donkeyji.Prelude.{ℕ, ◌≡◌, refl, [], ◌∷◌, arith, ◌==◌, if◌then◌else◌}
use donkeyji.Prelude.Int.{pos, ◌+ℤ◌}
use donkeyji.Prelude.Exec.{ok, out_of_fuel, Yields}
use donkeyji.Prelude.Chain.{null}
use donkeyji.Rank.Core.{
  idx_len, Ranks, bucket, score_get, score_new, unbind_score_uid, uid_get, core_get_rank,
  plain_index, topn_up, core_get_topn,
}
use donkeyji.Rank.Core.Buckets.{score_get-seek}
use donkeyji.Rank.Core.Insert.{Placed, score_new-Placed}
use donkeyji.Rank.Core.Users.{Unbound, unbind_score_uid-Unbound}
use donkeyji.Rank.Core.Ranking.{core_get_topn-stuck, core_get_rank-sum}

abbrev at_two {ℓ} : {A : Type ℓ} → (i j : ℕ) → (a b otherwise : A) → ℕ → A
at_two i j a b otherwise n = if n == i then a else if n == j then b else otherwise

abbrev ranks : Ranks
ranks = record {
  gia = record {
    len = 10_000;
    idx_cnt = λ i. if i == 9999 then pos 3 else pos 0;
    score_head = λ i. if i == 9999 then 1 else null;
  };
  scores = record {
    score = at_two 1 2 (pos 9_999_900) (pos 9_999_500) (pos 0);
    cnt = at_two 1 2 (pos 2) (pos 1) (pos 0);
    next_score = at_two 1 2 2 null null;
    uid_head = at_two 1 2 11 13 null;
  };
  uids = record {
    uid = at_two 11 12 (pos 7) (pos 8) (pos 9);
    next_uid = at_two 11 12 12 null null;
    pre_uid = at_two 11 12 null 11 null;
    owner_score = at_two 11 12 1 1 2;
  };
  ght = (pos 7, 11) ∷ (pos 8, 12) ∷ (pos 9, 13) ∷ [];
}

score_get-seek_example : score_get 3 ranks (pos 9_999_500) ≡ ok 2
unfolding bucket
score_get-seek_example =
    score_get-seek 3 ranks (pos 9_999_500) 9999 (1 ∷ 2 ∷ []) refl (omega arith)
      (refl, ground arith, refl, (refl, ground arith, refl, refl)) ((omega arith, tt), (tt, tt))

score_new-Placed_example :
    Yields (Placed ranks 9999 3 (pos 9_999_700) (1 ∷ 2 ∷ [])) (score_new 3 3 ranks (pos 9_999_700))
unfolding bucket
score_new-Placed_example =
    score_new-Placed 3 3 ranks (pos 9_999_700) 9999 (1 ∷ 2 ∷ []) refl (omega arith)
      (refl, ground arith, refl, (refl, ground arith, refl, refl)) ((omega arith, tt), (tt, tt))
      refl (ground arith) refl

unbind_score_uid-Unbound_example :
    Yields (Unbound ranks 1 12 (11 ∷ [])) (unbind_score_uid ranks 1 12)
unbind_score_uid-Unbound_example =
    unbind_score_uid-Unbound ranks 1 12 (11 ∷ []) []
      (refl, ground arith, refl, refl, (refl, ground arith, refl, refl, refl))

core_get_topn-stuck_example : core_get_topn 50 ranks (pos 2) ≡ out_of_fuel
unfolding topn_up idx_len ◌+ℤ◌
core_get_topn-stuck_example = core_get_topn-stuck 50 ranks (pos 2) (pos 0) 9999 refl (ground arith)

core_get_rank-sum_example : core_get_rank 3 ranks (pos 9) ≡ ok (pos 2)
unfolding uid_get plain_index idx_len ◌+ℤ◌
core_get_rank-sum_example =
    core_get_rank-sum 3 ranks (pos 9) 13 2 9999 (1 ∷ []) [] refl (ground arith) refl (ground arith)
      refl (refl, ground arith, refl, (refl, ground arith, refl, refl)) (omega arith)
