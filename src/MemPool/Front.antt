-- ===== src/MemPool/Front.antt =====
-- The blocks of mempool/memorypool.cpp as a list, with one of them taken out and put in front.
use donkeyji.Prelude.{
  ℕ, ◌*◌, ◌≡◌, ◌≢◌, refl, sym, subst, ◌∙◌, Bool, true, false, List, [], ◌∷◌, ◌++◌, arith, ◌==◌,
  if◌then◌else◌, update,
}
use donkeyji.Prelude.Chain.{null, has, has-append, Chain, Chain-update}
use donkeyji.MemPool.{MemBlock, Pool, skip_block, settle}

abbrev pub next_of : (ℕ → MemBlock) → ℕ → ℕ
next_of blocks b = (blocks b).next

pub Chain-same :
    (next next' : ℕ → ℕ) (p : ℕ) (xs : List ℕ)
    → ((x : ℕ) → next' x ≡ next x)
    → Chain next p xs
    → Chain next' p xs
Chain-same next next' p [] same c = c
Chain-same next next' p (x ∷ xs) same c =
    (c.0, c.1, c.2, rw (same x) (Chain-same next next' (next x) xs same c.3))

-- a node taken out, `pre` being the one before it
Chain-cut :
    (next : ℕ → ℕ) (p b pre : ℕ) (xs zs : List ℕ)
    → Chain next p (xs ++ b ∷ zs)
    → has pre xs ≡ true
    → next pre ≡ b
    → Chain (update next pre (next b)) p (xs ++ zs)
Chain-cut next p b pre [] zs c inside at = cc
Chain-cut next p b pre (x ∷ []) zs c inside at =
    let here : pre ≡ x = ground arith in
    let out : has x zs ≡ false = ground (arith, c.2) in
    let skipped : update next pre (next b) x ≡ next b = ground (arith, here) in
    (
      c.0,
      c.1,
      out,
      rw skipped (Chain-update next (next b) zs pre (next b) c.3.3 (ground (arith, here, out))),
    )
Chain-cut next p b pre (x ∷ y ∷ xs) zs c inside at =
    let apart = has-append y xs (b ∷ zs) in
    let differ : y ≢ b = ground (arith, c.3.2, apart) in
    let other : pre ≢ x = λ e. differ (sym c.3.0 ∙ rw (← e) at) in
    let kept : next x ≡ update next pre (next b) x = ground (arith, other) in
    (
      c.0,
      c.1,
      ground (arith, c.2, has-append x (y ∷ xs) (b ∷ zs), has-append x (y ∷ xs) zs),
      subst (λ q. Chain (update next pre (next b)) q ((y ∷ xs) ++ zs)) kept
          (Chain-cut next (next x) b pre (y ∷ xs) zs c.3 (ground (arith, other)) at),
    )

pub Chain-apart :
    (next : ℕ → ℕ) (p b : ℕ) (xs zs : List ℕ)
    → Chain next p (xs ++ b ∷ zs)
    → (b ≢ null) × (has b xs ≡ false) × (has b zs ≡ false)
Chain-apart next p b [] zs c = (c.1, refl, c.2)
Chain-apart next p b (x ∷ xs) zs c =
    let rest = Chain-apart next (next x) b xs zs c.3 in
    (rest.0, ground (arith, rest.1, c.2, has-append x xs (b ∷ zs)), rest.2)

next_of_if :
    (test : Bool) (m n : MemBlock)
    → (if test then m else n).next ≡ (if test then m.next else n.next)
next_of_if true m n = refl
next_of_if false m n = refl

if_same :
    (test : Bool) {i j k l : ℕ} → i ≡ j → k ≡ l → (if test then i else k) ≡ (if test then j else l)
if_same true e f = e
if_same false e f = f

pub next_of-update :
    (blocks : ℕ → MemBlock) (b : ℕ) (m : MemBlock) (x : ℕ)
    → next_of (update blocks b m) x ≡ update (next_of blocks) b m.next x
next_of-update blocks b m x = next_of_if (x == b) m (blocks x)

-- the first block `h` stays behind no other when `b` goes to the front
pub settle-blocks :
    (p : Pool) (h b pre : ℕ) (ys zs : List ℕ)
    → Chain (next_of p.blocks) p.block ((h ∷ ys) ++ b ∷ zs)
    → has pre (h ∷ ys) ≡ true
    → next_of p.blocks pre ≡ b
    → (p.blocks b).free * p.unit_size ≢ (p.blocks b).size
    → ((settle p pre b).block ≡ b)
      × Chain (next_of (settle p pre b).blocks) b (b ∷ (ys ++ zs))
      × ((settle p pre b).deleted ≡ p.deleted)
unfolding settle skip_block
settle-blocks p h b pre ys zs c inside at some =
    let next = next_of p.blocks in
    let cut = Chain-cut next p.block b pre (h ∷ ys) zs c inside at in
    let other : (b == p.block) ≡ false = ground (arith, c.0, c.2, has-append h ys (b ∷ zs)) in
    let in_use : ((p.blocks b).free * p.unit_size == (p.blocks b).size) ≡ false =
      ground (arith, some) in
    let next' = update next pre (next b) in
    let q = skip_block p pre b in
    let apart = Chain-apart next p.block b (h ∷ ys) zs c in
    let out : has b (ys ++ zs) ≡ false = ground (arith, apart.1, apart.2, has-append b ys zs) in
    let skipped = next_of-update p.blocks pre (record (p.blocks pre) { next = next b }) in
    let front : MemBlock = record (p.blocks b) { next = next_of q.blocks p.block } in
    let head : next_of q.blocks p.block ≡ next' h = skipped p.block ∙ rw c.0 refl in
    let same : (x : ℕ) → next_of (update q.blocks b front) x ≡ update next' b (next' h) x =
      λ x. next_of-update q.blocks b front x ∙ if_same (x == b) head (skipped x) in
    let start : next' h ≡ update next' b (next' h) b = ground arith in
    let chain =
      subst (λ k. Chain (update next' b (next' h)) k (ys ++ zs)) start
        (Chain-update next' (next' h) (ys ++ zs) b (next' h) cut.3 out) in
    let whole =
      Chain-same (update next' b (next' h)) (next_of (update q.blocks b front)) b (b ∷ (ys ++ zs))
        same (refl, apart.0, out, chain) in
    let result : settle p pre b ≡ record q { blocks = update q.blocks b front; block = b } =
      rw (other, in_use) refl in
    subst
      (λ r. (r.block ≡ b) × Chain (next_of r.blocks) b (b ∷ (ys ++ zs)) × (r.deleted ≡ p.deleted))
      (sym result) (refl, whole, refl)
