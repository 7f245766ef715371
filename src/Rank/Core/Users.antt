-- ===== src/Rank/Core/Users.antt =====
-- A score's users: `bind_score_uid` and `unbind_score_uid` of rank/core.c on the list of them.
use donkeyji.Prelude.{
  ℕ, ◌≡◌, ◌≢◌, refl, sym, ap, true, false, List, [], ◌∷◌, ◌++◌, arith, ◌==◌, if◌then◌else◌, update,
}
use donkeyji.Prelude.Int.{pos, ◌+ℤ◌, ◌-ℤ◌}
use donkeyji.Prelude.Chain.{null, has, has-append}
use donkeyji.Prelude.Exec.{Yields, yields}
use donkeyji.Rank.Core.{Ranks, bind_score_uid, unbind_score_uid, clear_uid}
use donkeyji.Rank.Core.Linked.{Linked, Linked-eq, Linked-null, Linked-retarget}
use donkeyji.Rank.Core.Unlink.{Linked-behind, Linked-back, Linked-cut}

-- the users of a score node
abbrev pub UsersOf : Ranks → ℕ → List ℕ → Type 0
UsersOf r sn xs = Linked r.uids.next_uid r.uids.pre_uid null (r.scores.uid_head sn) xs

-- if the users of a score are linked in the list `xs`, and `un` is neither NULL nor one of them, then
-- `bind_score_uid` leaves `un` in front of them, with one more counted; and the score becomes the
-- owner of `un` if there were no users, but else the owner stays what it was
pub bind_score_uid-UsersOf :
    (r : Ranks) (sn un : ℕ) (xs : List ℕ)
    → UsersOf r sn xs
    → un ≢ null
    → has un xs ≡ false
    → UsersOf (bind_score_uid r sn un) sn (un ∷ xs)
      × ((bind_score_uid r sn un).scores.cnt sn ≡ r.scores.cnt sn +ℤ pos 1)
      × ((bind_score_uid r sn un).uids.owner_score un
          ≡ (if r.scores.uid_head sn == null then sn else r.uids.owner_score un))
unfolding bind_score_uid
bind_score_uid-UsersOf r sn un [] l some out =
    let empty : (r.scores.uid_head sn == null) ≡ true = ground (arith, l) in
    rw empty ((ground arith, some, refl, ground arith, ground arith), ground arith, ground arith)
bind_score_uid-UsersOf r sn un (x ∷ xs) l some out =
    let head = r.scores.uid_head sn in
    let used : (head == null) ≡ false = ground (arith, l.0, l.1) in
    let rest =
      Linked-retarget r.uids.next_uid r.uids.pre_uid (update r.uids.next_uid un head)
        (update (update r.uids.pre_uid un null) head un) null un head (x ∷ xs) (λ y m. ground arith)
        (λ y m other. ground arith) (λ ok. ground arith) l in
    let next' : (bind_score_uid r sn un).uids.next_uid ≡ update r.uids.next_uid un head =
      rw used refl in
    let pre' : (bind_score_uid r sn un).uids.pre_uid
        ≡ update (update r.uids.pre_uid un null) head un =
      rw used refl in
    let head' : (bind_score_uid r sn un).scores.uid_head sn ≡ un = rw used (ground arith) in
    let links = Linked-eq null (un ∷ x ∷ xs) (sym next') (sym pre') (sym head') (
      ground arith,
      some,
      out,
      ground arith,
      (ground (arith, l.0), rest.1, rest.2, rest.3, rest.4),
    ) in
    (links, rw used (ground arith), rw used refl)

-- what `unbind_score_uid` leaves: the other users in their order, one less counted, and a user with
-- no links and no owner
abbrev pub Unbound : Ranks → (sn un : ℕ) → List ℕ → Ranks → Type 0
Unbound r sn un xs out =
    UsersOf out sn xs
    × (out.scores.cnt sn ≡ r.scores.cnt sn -ℤ pos 1)
    × (out.uids.next_uid un ≡ null)
    × (out.uids.pre_uid un ≡ null)
    × (out.uids.owner_score un ≡ null)

-- if the users of a score are linked in a list with `un` in it, then `unbind_score_uid` ends, with the
-- other users linked in the same order, one less counted, and no links and no owner left in `un`
pub unbind_score_uid-Unbound :
    (r : Ranks) (sn un : ℕ) (ys zs : List ℕ)
    → UsersOf r sn (ys ++ un ∷ zs)
    → Yields (Unbound r sn un (ys ++ zs)) (unbind_score_uid r sn un)
unfolding unbind_score_uid clear_uid
unbind_score_uid-Unbound r sn un [] zs l =
    let first : (r.scores.uid_head sn == un) ≡ true = ground (arith, l.0) in
    let next = r.uids.next_uid un in
    let rest =
      Linked-retarget r.uids.next_uid r.uids.pre_uid (update r.uids.next_uid un null)
        (update (if next == null then r.uids.pre_uid else update r.uids.pre_uid next null) un null)
        un null next zs (λ y m. ground (arith, l.2)) (λ y m other. ground (arith, l.2))
        (λ some. ground (arith, l.2)) l.4 in
    let at : next ≡ update r.scores.uid_head sn next sn = ground arith in
    rw first (
      yields (
        Linked-eq null zs refl refl at rest,
        ground arith,
        ground arith,
        ground arith,
        ground arith,
      ))
unbind_score_uid-Unbound r sn un (y ∷ ys) zs l =
    let next = r.uids.next_uid in
    let pre = r.uids.pre_uid in
    let back = Linked-back next pre null (r.scores.uid_head sn) y un ys zs l in
    let part = Linked-behind next pre null (r.scores.uid_head sn) un (y ∷ ys) zs l in
    let no_null = Linked-null next pre null (r.scores.uid_head sn) ((y ∷ ys) ++ un ∷ zs) l in
    let inner : (r.scores.uid_head sn == un) ≡ false = ground (arith, l.0, part.2) in
    let some : (pre un == null) ≡ false =
      ground (arith, back, no_null, has-append null ys (un ∷ zs)) in
    let kept : next un ≡ update next (pre un) (next un) un = ground (arith, back, part.2) in
    let rest = Linked-cut next pre null (r.scores.uid_head sn) y un ys zs l in
    rw (inner, some)
      (yields (
        Linked-eq null (y ∷ (ys ++ zs)) refl
            (ap (λ q. update (if q == null then pre else update pre q (pre un)) un null) kept) refl
            rest,
        ground arith,
        ground arith,
        ground arith,
        ground arith,
      ))
