-- ===== src/MemPool/Head.antt =====
-- `allocMem` and `freeMem` of mempool/memorypool.cpp on the first block.
use donkeyji.Prelude.{
  ℕ, suc, ◌+◌, ◌-◌, ◌*◌, ◌/◌, ◌%◌, ◌^◌, ◌<◌, ◌≤◌, ◌⊎◌, ◌≡◌, ◌≢◌, refl, true, false, ◌||◌,
  Bool-cases, inl, inr, arith, ltb, leb, ◌==◌, update,
}
use native.Mathlib.Nat.{mul-div_cancel}
use donkeyji.Prelude.Exec.{ok, ◌>>=◌, Yields, yields}
use donkeyji.Prelude.Chain.{null}
use donkeyji.MemPool.{
  data_of, Pool, find_block, take_unit, alloc_mem, owner_loop, give_unit, settle, free_mem,
}

-- the unit of index `i` in block `b`
abbrev pub unit_at : Pool → (b i : ℕ) → ℕ
unit_at p b i = data_of b + i * p.unit_size

-- the first block has a free unit, the one of index `i`, which lies in it
pub record HasUnit (p : Pool) (i : ℕ) : Type 0 where
  pub block : p.block ≢ null
  pub first : (p.blocks p.block).first ≡ i
  pub free : 0 < (p.blocks p.block).free
  pub count : (p.blocks p.block).free < 2 ^ 16
  pub within : i * p.unit_size < (p.blocks p.block).size
  pub small : i < 2 ^ 16
  pub unit : 0 < p.unit_size

-- the pool after the unit is taken
abbrev taken : Pool → ℕ → Pool
taken p u = record p {
  blocks =
      update p.blocks p.block
        (record (p.blocks p.block) { first = p.mem u; free = (p.blocks p.block).free - 1 });
}

alloc_mem-taken :
    (fuel fresh : ℕ) (p : Pool) (i : ℕ)
    → HasUnit p i
    → alloc_mem (suc fuel) fresh p ≡ ok (unit_at p p.block i, taken p (unit_at p p.block i))
unfolding alloc_mem find_block take_unit
alloc_mem-taken fuel fresh p i h =
    let a_block : (p.block == null) ≡ false = ground (arith, h.block) in
    let some_free : ((p.blocks p.block).free == 0) ≡ false = ground (arith, h.free) in
    rw (a_block, some_free, a_block, h.first) refl

free_mem-head :
    (fuel : ℕ) (q : Pool) (i : ℕ)
    → q.block ≢ null
    → i * q.unit_size < (q.blocks q.block).size
    → i < 2 ^ 16
    → 0 < q.unit_size
    → free_mem (suc fuel) q (unit_at q q.block i)
      ≡ ok (record q {
        blocks = update q.blocks q.block (record (q.blocks q.block) {
          free = ((q.blocks q.block).free + 1) % 2 ^ 16;
          first = i;
        });
        mem = update q.mem (unit_at q q.block i) (q.blocks q.block).first;
      })
unfolding free_mem owner_loop give_unit settle
free_mem-head fuel q i real within small unit =
    let a_block : (q.block == null) ≡ false = ground (arith, real) in
    let some_unit : (q.unit_size == 0) ≡ false = ground (arith, unit) in
    let inside : (ltb (unit_at q q.block i) (data_of q.block)
          || leb (data_of q.block + (q.blocks q.block).size) (unit_at q q.block i))
        ≡ false =
      ground (arith, within) in
    let offset : unit_at q q.block i - data_of q.block ≡ i * q.unit_size = omega arith in
    let index : i * q.unit_size / q.unit_size % 2 ^ 16 ≡ i =
      rw (mul-div_cancel i unit) (omega (arith, small)) in
    let head : (q.block == q.block) ≡ true = ground arith in
    rw (a_block, inside, a_block, some_unit, head, offset, index) refl

-- the `ushort` at `x` has no byte in the unit of `size` bytes at `u`
abbrev pub Outside : (u size x : ℕ) → Type 0
Outside u size x = (x + 2 ≤ u) ⊎ (u + size ≤ x)

-- a change of memory within the unit
abbrev pub WritesUnit : (u size : ℕ) → ((ℕ → ℕ) → ℕ → ℕ) → Type 0
WritesUnit u size write = (mem : ℕ → ℕ) (x : ℕ) → Outside u size x → write mem x ≡ mem x

-- the same blocks with the same lists of free units, and the same memory but for the rest of the unit
-- at `u`
pub record SamePool (p : Pool) (u : ℕ) (r : Pool) : Type 0 where
  pub block : r.block ≡ p.block
  pub blocks : (b : ℕ) → r.blocks b ≡ p.blocks b
  pub link : r.mem u ≡ p.mem u
  pub mem : (x : ℕ) → Outside u p.unit_size x → r.mem x ≡ p.mem x
  pub deleted : r.deleted ≡ p.deleted

-- if the first block has a free unit, which lies in the block (a unit is not empty, and its index and
-- the number of free units are below 2^16), then `allocMem` gives it out; and `freeMem` of it,
-- whatever bytes of the unit were written in between, ends in a pool with the same blocks, fields
-- included, the same link at the start of the unit, and the same memory outside the unit
pub alloc_mem-free_mem :
    (fuel fresh : ℕ) (p : Pool) (i : ℕ) (write : (ℕ → ℕ) → ℕ → ℕ)
    → HasUnit p i
    → WritesUnit (unit_at p p.block i) p.unit_size write
    → Yields (SamePool p (unit_at p p.block i)) (
        alloc_mem (suc fuel) fresh p >>= λ (u, q).
        free_mem (suc fuel) (record q { mem = write q.mem }) u)
alloc_mem-free_mem fuel fresh p i write h within_unit =
    let u = unit_at p p.block i in
    let q = taken p u in
    let w = record q { mem = write q.mem } in
    let within : i * w.unit_size < (w.blocks w.block).size = ground (arith, h.within) in
    let self : (p.block == p.block) ≡ true = ground arith in
    let unit : (u == u) ≡ true = ground arith in
    let count : ((p.blocks p.block).free - 1 + 1) % 2 ^ 16 ≡ (p.blocks p.block).free =
      omega (arith, h.free, h.count) in
    rw (alloc_mem-taken fuel fresh p i h, free_mem-head fuel w i h.block within h.small h.unit)
      (yields (record {
        block = refl;
        blocks = λ b. elim (Bool-cases (b == p.block)) [
          | inl here ↦ let e : b ≡ p.block = ground arith in rw (e, self, count, ← h.first) refl
          | inr other ↦ rw other refl
        ];
        link = rw (self, unit) refl;
        mem = λ x away. elim (Bool-cases (x == u)) [
          | inl here ↦ absurd (ground (arith, h.unit))
          | inr other ↦ rw other (within_unit p.mem x away)
        ];
        deleted = refl;
      }))
