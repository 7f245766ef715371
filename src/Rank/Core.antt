-- ===== src/Rank/Core.antt =====
-- rank/core.c: users ranked by score. Scores are in 10,000 buckets of 1,000; a bucket has a list of
-- score nodes, the highest score first, and a score node a doubly linked list of its users.
-- Nodes are addresses, 0 is NULL, and a field of all nodes of a kind is a function. `hash_tbl` is a
-- `std::map`, here a list of pairs; reading `second` of its end iterator is a fault, and so is an
-- index outside the array. `fresh` is what `mem_alloc` returns; its NULL is followed. Loops along a
-- list run on fuel, which is enough if it exceeds the length of the list, but for the second loop of
-- `core_get_topn`, which stays at its node. Sums of counts are read as integers.
pub mod Buckets
pub mod Place
pub mod Insert
pub mod Linked
pub mod Unlink
pub mod Users
pub mod Ranking
mod Tests
use donkeyji.Prelude.{
  ℕ, zero, suc, ◌+◌, ◌-◌, ◌/◌, ◌<◌, Bool, true, false, Option, none, some, List, [], ◌∷◌, ltb, leb,
  ◌==◌, if◌then◌else◌, update,
}
use donkeyji.Prelude.Int.{ℤ, pos, negsuc, ◌+ℤ◌, ◌-ℤ◌, ltb_ℤ, eqb_ℤ}
use donkeyji.Prelude.Chain.{null}
use donkeyji.Prelude.Exec.{Exec, ok, fault, out_of_fuel, ◌>>=◌}

-- `BASE`, and `IDX_LEN`, the length of the array
abbrev base : ℕ
base = 1000

pub idx_len : ℕ
idx_len = 10_000

pub record ScoreNodes : Type 0 where
  pub score : ℕ → ℤ
  pub cnt : ℕ → ℤ
  pub next_score : ℕ → ℕ
  pub uid_head : ℕ → ℕ

pub record UidNodes : Type 0 where
  pub uid : ℕ → ℤ
  pub next_uid : ℕ → ℕ
  pub pre_uid : ℕ → ℕ
  pub owner_score : ℕ → ℕ

-- `gia`, with the fields `cnt` and `score_head` of its array
pub record IdxArray : Type 0 where
  pub len : ℕ
  pub idx_cnt : ℕ → ℤ
  pub score_head : ℕ → ℕ

pub record Ranks : Type 0 where
  pub gia : IdxArray
  pub scores : ScoreNodes
  pub uids : UidNodes
  pub ght : List (ℤ × ℕ)

-- `memory` has what `mem_alloc` leaves in the nodes; the pointer to the array is not NULL
unfoldable pub core_init : Ranks → Ranks
unfolding idx_len
core_init memory = record memory {
  gia = record { len = idx_len; idx_cnt = λ i. pos 0; score_head = λ i. null };
  ght = [];
}

-- `score / BASE`, and the last bucket for a score above all; an index below 0 has no bucket
unfoldable pub bucket : IdxArray → ℤ → Exec ℕ
bucket ia (pos n) = let idx = n / base in if leb ia.len idx then ok (ia.len - 1) else ok idx
bucket ia (negsuc n) = if ltb (suc n) base then ok 0 else fault

-- the loop of `score_get`
unfoldable pub get_loop : ℕ → ScoreNodes → ℤ → ℕ → Exec ℕ
get_loop zero s score cur = out_of_fuel
get_loop (suc k) s score cur =
    let rest = get_loop k s score (s.next_score cur) in
    if cur == null
    then ok null
    else if ltb_ℤ score (s.score cur)
    then rest
    else if eqb_ℤ (s.score cur) score
    then ok cur
    else ok null

unfoldable pub score_get : (fuel : ℕ) → Ranks → ℤ → Exec ℕ
score_get fuel r score = do
  idx ← bucket r.gia score
  get_loop fuel r.scores score (r.gia.score_head idx)

-- the loop of `score_new`: `pre` and `cur`
unfoldable pub place_loop : ℕ → ScoreNodes → ℤ → (pre cur : ℕ) → Exec (ℕ × ℕ)
place_loop zero s score pre cur = out_of_fuel
place_loop (suc k) s score pre cur =
    let rest = place_loop k s score cur (s.next_score cur) in
    if cur == null then ok (pre, cur) else if ltb_ℤ score (s.score cur) then rest else ok (pre, cur)

-- a new node with no users and no next node
unfoldable pub fresh_score : ScoreNodes → (new_sn : ℕ) → ℤ → ScoreNodes
fresh_score s new_sn score = record {
  score = update s.score new_sn score;
  cnt = update s.cnt new_sn (pos 0);
  uid_head = update s.uid_head new_sn null;
  next_score = update s.next_score new_sn null;
}

-- the new node as the head, or between `pre` and `cur`; and one more in the bucket
unfoldable pub insert_score : Ranks → (idx new_sn pre cur : ℕ) → ℤ → Ranks
unfolding fresh_score
insert_score r idx new_sn pre cur score =
    let s = fresh_score r.scores new_sn score in
    let as_head = pre == cur in
    record r {
      gia = record (r.gia) {
        score_head = if as_head then update r.gia.score_head idx new_sn else r.gia.score_head;
        idx_cnt = update r.gia.idx_cnt idx (r.gia.idx_cnt idx +ℤ pos 1);
      };
      scores = record s {
        next_score =
            if as_head then s.next_score else update (update s.next_score pre new_sn) new_sn cur;
      };
    }

unfoldable pub score_new : (fuel fresh : ℕ) → Ranks → ℤ → Exec (ℕ × Ranks)
unfolding insert_score
score_new fuel fresh r score = do
  sn ← score_get fuel r score
  let insert : Exec (ℕ × Ranks) = do
    idx ← bucket r.gia score
    (pre, cur) ← place_loop fuel r.scores score (r.gia.score_head idx) (r.gia.score_head idx)
    if fresh == null then fault else ok (fresh, insert_score r idx fresh pre cur score)
  if sn == null then insert else ok (sn, r)

-- a user becomes the head of a score's list; its owner is set only in an empty list
unfoldable pub bind_score_uid : Ranks → (sn un : ℕ) → Ranks
bind_score_uid r sn un =
    let s = record (r.scores) { cnt = update r.scores.cnt sn (r.scores.cnt sn +ℤ pos 1) } in
    let head = r.scores.uid_head sn in
    let scores = record s { uid_head = update s.uid_head sn un } in
    if head == null
    then record r {
      scores = scores;
      uids = record (r.uids) {
        next_uid = update r.uids.next_uid un null;
        pre_uid = update r.uids.pre_uid un null;
        owner_score = update r.uids.owner_score un sn;
      };
    }
    else record r {
      scores = scores;
      uids = record (r.uids) {
        next_uid = update r.uids.next_uid un head;
        pre_uid = update (update r.uids.pre_uid un null) head un;
      };
    }

-- `un->pre_uid`, `un->next_uid` and `un->owner_score` become NULL
unfoldable pub clear_uid : UidNodes → ℕ → UidNodes
clear_uid u un = record u {
  pre_uid = update u.pre_uid un null;
  next_uid = update u.next_uid un null;
  owner_score = update u.owner_score un null;
}

unfoldable pub unbind_score_uid : Ranks → (sn un : ℕ) → Exec Ranks
unfolding clear_uid
unbind_score_uid r sn un =
    let u = r.uids in
    let next = u.next_uid un in
    let pre = u.pre_uid un in
    let s = record (r.scores) { cnt = update r.scores.cnt sn (r.scores.cnt sn -ℤ pos 1) } in
    let head = record r {
      scores = record s { uid_head = update s.uid_head sn next };
      uids =
          clear_uid
            (record u { pre_uid = if next == null then u.pre_uid else update u.pre_uid next null })
            un;
    } in
    let next_uid = update u.next_uid pre next in
    let inner = record r {
      scores = s;
      uids =
          clear_uid
            (record u {
              next_uid = next_uid;
              pre_uid =
                  if next_uid un == null then u.pre_uid else update u.pre_uid (next_uid un) pre;
            })
            un;
    } in
    if r.scores.uid_head sn == un then ok head else if pre == null then fault else ok inner

-- `ht->find (uid)`, with the end iterator followed
unfoldable pub uid_get : List (ℤ × ℕ) → ℤ → Exec ℕ
uid_get [] uid = fault
uid_get ((k, un) ∷ ht) uid = if eqb_ℤ k uid then ok un else uid_get ht uid

unfoldable pub uid_new : (fresh : ℕ) → Ranks → ℤ → Exec (ℕ × Ranks)
uid_new fresh r uid = do
  un ← uid_get r.ght uid
  let new = record r {
    uids = record {
      pre_uid = update r.uids.pre_uid fresh null;
      next_uid = update r.uids.next_uid fresh null;
      owner_score = update r.uids.owner_score fresh null;
      uid = update r.uids.uid fresh uid;
    };
    ght = (uid, fresh) ∷ r.ght;
  }
  let insert : Exec (ℕ × Ranks) = if fresh == null then fault else ok (fresh, new)
  if un == null then insert else ok (un, r)

-- the score node to put a user under: the one of the score, or a new one
unfoldable pub score_of : (fuel fresh : ℕ) → Ranks → ℤ → Exec (ℕ × Ranks)
score_of fuel fresh r score = do
  sn ← score_get fuel r score
  if sn == null then score_new fuel fresh r score else ok (sn, r)

-- `core_update` for a user that has a node
unfoldable pub move_user : (fuel fresh_sn : ℕ) → Ranks → (un : ℕ) → ℤ → Exec Ranks
move_user fuel fresh_sn r un score =
    let old_sn = r.uids.owner_score un in
    let move : Exec Ranks = do
      (new_sn, r') ← score_of fuel fresh_sn r score
      r'' ← unbind_score_uid r' old_sn un
      ok (bind_score_uid r'' new_sn un)
    in if old_sn == null
      then fault
      else (if eqb_ℤ score (r.scores.score old_sn) then ok r else move)

-- `core_insert` for a user whose node is still to be made
unfoldable pub add_user : (fuel fresh_un fresh_sn : ℕ) → Ranks → ℤ → ℤ → Exec Ranks
add_user fuel fresh_un fresh_sn r uid score = do
  (un, r') ← uid_new fresh_un r uid
  (sn, r'') ← score_of fuel fresh_sn r' score
  ok (bind_score_uid r'' sn un)

-- both functions call each other, but a call from `core_insert` finds a node, so that the call back
-- is not made; `core_update` goes on with `un == NULL` after its call, and follows it
unfoldable pub core_insert : (fuel fresh_un fresh_sn : ℕ) → Ranks → (uid score : ℤ) → Exec Ranks
core_insert fuel fresh_un fresh_sn r uid score = do
  un ← uid_get r.ght uid
  if un == null
      then add_user fuel fresh_un fresh_sn r uid score
      else move_user fuel fresh_sn r un score

unfoldable pub core_update : (fuel fresh_un fresh_sn : ℕ) → Ranks → (uid score : ℤ) → Exec Ranks
core_update fuel fresh_un fresh_sn r uid score = do
  un ← uid_get r.ght uid
  let after_insert : Exec Ranks = core_insert fuel fresh_un fresh_sn r uid score >>= λ r'. fault
  if un == null then after_insert else move_user fuel fresh_sn r un score

-- the counts of the `k` buckets above index `idx`, added from the top
unfoldable pub above_loop : IdxArray → (idx k : ℕ) → ℤ → ℤ
above_loop ia idx zero rank = rank
above_loop ia idx (suc k) rank = above_loop ia idx k (rank +ℤ ia.idx_cnt (idx + suc k))

-- the counts of the nodes from `tmp` to before `sn`
unfoldable pub before_loop : ℕ → ScoreNodes → (sn tmp : ℕ) → ℤ → Exec ℤ
before_loop zero s sn tmp rank = out_of_fuel
before_loop (suc k) s sn tmp rank =
    let rest = before_loop k s sn (s.next_score tmp) (rank +ℤ s.cnt tmp) in
    if tmp == sn then ok rank else if tmp == null then fault else rest

-- `score / 1000` as an index, which the code does not bound here
unfoldable pub plain_index : ℤ → Exec ℕ
unfolding idx_len
plain_index (pos n) = if ltb (n / 1000) idx_len then ok (n / 1000) else fault
plain_index (negsuc n) = if ltb (suc n) 1000 then ok 0 else fault

unfoldable pub core_get_rank : (fuel : ℕ) → Ranks → ℤ → Exec ℤ
unfolding idx_len
core_get_rank fuel r uid = do
  un ← uid_get r.ght uid
  let sn = r.uids.owner_score un
  let rank : Exec ℤ = do
    idx ← plain_index (r.scores.score sn)
    before_loop fuel r.scores sn (r.gia.score_head idx)
        (above_loop r.gia idx (idx_len - 1 - idx) (pos 0))
  if un == null then ok (negsuc 0) else if sn == null then fault else rank

-- the first loop of `core_get_topn`, over the buckets below `k`: `cnt` and `up`
unfoldable pub topn_up : IdxArray → ℕ → ℤ → ℤ → ℤ × ℕ
topn_up ia zero topn cnt = (cnt, 0)
topn_up ia (suc k) topn cnt =
    let rest = topn_up ia k topn (cnt +ℤ ia.idx_cnt k) in
    if ltb_ℤ (cnt +ℤ ia.idx_cnt k) topn then rest else (cnt, k)

-- the second loop, whose `sn` stays the same
unfoldable pub topn_right : ℕ → ScoreNodes → (topn cnt : ℤ) → (sn right : ℕ) → Exec ℕ
topn_right zero s topn cnt sn right = out_of_fuel
topn_right (suc k) s topn cnt sn right =
    let cnt' = cnt +ℤ s.cnt sn in
    let rest = topn_right k s topn cnt' sn (if ltb_ℤ cnt' topn then right else sn) in
    if sn == null then ok right else rest

-- the status is always 0, and nothing is written
unfoldable pub core_get_topn : (fuel : ℕ) → Ranks → ℤ → Exec (Unit {0})
unfolding idx_len
core_get_topn fuel r topn =
    let (cnt, up) = topn_up r.gia idx_len topn (pos 0) in
    topn_right fuel r.scores topn cnt (r.gia.score_head up) null >>= λ right. ok tt
