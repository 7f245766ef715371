-- ===== src/MemPool/Blocks.antt =====
-- The order of the blocks after `freeMem` of mempool/memorypool.cpp.
use donkeyji.Prelude.{
  ℕ, zero, suc, ◌+◌, ◌-◌, ◌/◌, ◌%◌, ◌^◌, ◌<◌, ltb, leb, ◌||◌, length, ◌*◌, ◌≡◌, ◌≢◌, refl, ◌∙◌,
  Bool, true, false, List, [], ◌∷◌, ◌++◌, arith, ◌==◌,
}
use donkeyji.Prelude.Exec.{ok, Yields, yields}
use donkeyji.Prelude.Chain.{null, has, Chain}
use donkeyji.MemPool.{ushort, MemBlock, Pool, data_of, owner_loop, give_unit, free_mem}
use donkeyji.MemPool.Front.{next_of, Chain-same, Chain-apart, next_of-update, settle-blocks}

-- the test of the loop
abbrev pub is_outside : (ℕ → MemBlock) → (unit b : ℕ) → Bool
is_outside blocks unit b = ltb unit (data_of b) || leb (data_of b + (blocks b).size) unit

-- the unit is in no block of the list
abbrev pub Outside : (ℕ → MemBlock) → ℕ → List ℕ → Type 0
Outside blocks unit [] = Unit {0}
Outside blocks unit (x ∷ xs) = (is_outside blocks unit x ≡ true) × Outside blocks unit xs

some_node :
    (next : ℕ → ℕ) (p b : ℕ) (xs zs : List ℕ) → Chain next p (xs ++ b ∷ zs) → (p == null) ≡ false
some_node next p b [] zs c = ground (arith, c.0, c.1)
some_node next p b (x ∷ xs) zs c = ground (arith, c.0, c.1)

owner_loop-found :
    (fuel : ℕ) (blocks : ℕ → MemBlock) (unit pre p b : ℕ) (xs zs : List ℕ)
    → next_of blocks pre ≡ p
    → Chain (next_of blocks) p (xs ++ b ∷ zs)
    → Outside blocks unit xs
    → is_outside blocks unit b ≡ false
    → length xs < fuel
    → (before : ℕ) × (owner_loop fuel blocks unit pre p ≡ ok (before, b))
      × (has before (pre ∷ xs) ≡ true)
      × (next_of blocks before ≡ b)
unfolding owner_loop
owner_loop-found zero blocks unit pre p b xs zs at c out inside enough = absurd (omega arith)
owner_loop-found (suc fuel) blocks unit pre p b [] zs at c out inside enough =
    (pre, rw (c.0, inside) refl, ground arith, at ∙ c.0)
owner_loop-found (suc fuel) blocks unit pre p b (x ∷ xs) zs at c out inside enough =
    let (before, run, member, link) =
      owner_loop-found fuel blocks unit x (next_of blocks x) b xs zs refl c.3 out.1 inside
        (omega (arith, enough)) in
    let more : (next_of blocks x == null) ≡ false =
      some_node (next_of blocks) (next_of blocks x) b xs zs c.3 in
    (before, rw (c.0, out.0, more) run, ground (arith, member), link)

-- what `freeMem` leaves when the block `b` goes to the front
abbrev pub InFront : Pool → (b : ℕ) → List ℕ → Pool → Type 0
InFront p b xs r = (r.block ≡ b) × Chain (next_of r.blocks) b (b ∷ xs) × (r.deleted ≡ p.deleted)

-- if the blocks of the pool lead through `h`, `ys`, `b` and `zs`, the unit is in `b` and not in a
-- block before, `b` keeps units in use, and the fuel exceeds the number of blocks before `b`, then
-- `freeMem` of the unit makes `b` the first block, behind which stand `ys` and `zs`: the block `h` is
-- in the pool no longer, and it is not given back either
pub free_mem-InFront :
    (fuel : ℕ) (p : Pool) (unit h b : ℕ) (ys zs : List ℕ)
    → Chain (next_of p.blocks) p.block ((h ∷ ys) ++ b ∷ zs)
    → Outside p.blocks unit (h ∷ ys)
    → is_outside p.blocks unit b ≡ false
    → 0 < p.unit_size
    → ((p.blocks b).free + 1) % 2 ^ 16 * p.unit_size ≢ (p.blocks b).size
    → length (h ∷ ys) < fuel
    → Yields (InFront p b (ys ++ zs)) (free_mem fuel p unit)
unfolding free_mem owner_loop give_unit
free_mem-InFront zero p unit h b ys zs c out inside sized some enough = absurd (omega arith)
free_mem-InFront (suc fuel) p unit h b ys zs c out inside sized some enough =
    let next = next_of p.blocks in
    let (before, run, member, link) =
      owner_loop-found fuel p.blocks unit h (next h) b ys zs refl c.3 out.1 inside
        (omega (arith, enough)) in
    let apart = Chain-apart next p.block b (h ∷ ys) zs c in
    let a_pool : (p.block == null) ≡ false = ground (arith, c.0, c.1) in
    let first : is_outside p.blocks unit p.block ≡ true = rw c.0 out.0 in
    let more : (next p.block == null) ≡ false = rw c.0 (some_node next (next h) b ys zs c.3) in
    let rest : owner_loop fuel p.blocks unit p.block (next p.block) ≡ ok (before, b) = rw c.0 run in
    let a_block : (b == null) ≡ false = ground (arith, apart.0) in
    let units : (p.unit_size == 0) ≡ false = ground (arith, sized) in
    let q = give_unit p b unit in
    let self : (b == b) ≡ true = ground arith in
    let m = record (p.blocks b) {
      free = ((p.blocks b).free + 1) % ushort;
      first = (unit - data_of b) / p.unit_size % ushort;
    } in
    let same : (x : ℕ) → next_of q.blocks x ≡ next x =
      λ x. next_of-update p.blocks b m x ∙ ground arith in
    let result =
      settle-blocks q h b before ys zs
        (Chain-same next (next_of q.blocks) p.block ((h ∷ ys) ++ b ∷ zs) same c) member
        (same before ∙ link) (rw self some) in
    rw (a_pool, first, more, rest, a_block, units) (yields result)
