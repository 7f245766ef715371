-- ===== src/MemPool.antt =====
-- mempool/memorypool.cpp: a pool of units of one size, in blocks.
-- A block is its address and 0 is NULL; its units begin `header` bytes behind it, the offset of
-- `_data` with 64-bit pointers. `mem` gives the `ushort` at an address. A `ushort` has 16 bits.
-- `fresh` is the block that `operator new` gives. Loops over the blocks run on fuel, which is enough
-- if it exceeds their number.
pub mod Front
pub mod Blocks
pub mod Head
mod Tests
use donkeyji.Prelude.{
  ℕ, zero, suc, ◌+◌, ◌-◌, ◌*◌, ◌/◌, ◌%◌, ◌^◌, Bool, true, false, ◌||◌, Option, none, some, List, [],
  ◌∷◌, ltb, leb, ◌==◌, if◌then◌else◌, update,
}
use donkeyji.Prelude.Exec.{Exec, ok, fault, out_of_fuel, ◌>>=◌}
use donkeyji.Prelude.Chain.{null}

abbrev pub header : ℕ
header = 16

-- the bytes of a `ushort`, as a bound
abbrev pub ushort : ℕ
ushort = 2 ^ 16

-- `MemBlock`
pub record MemBlock : Type 0 where
  pub size : ℕ
  pub free : ℕ
  pub first : ℕ
  pub next : ℕ

-- `MemPool`, with the blocks, the memory in them and the blocks that were given back
pub record Pool : Type 0 where
  pub block : ℕ
  pub unit_size : ℕ
  pub init_size : ℕ
  pub grow_size : ℕ
  pub blocks : ℕ → MemBlock
  pub mem : ℕ → ℕ
  pub deleted : List ℕ

-- `_data`
abbrev pub data_of : ℕ → ℕ
data_of b = b + header

-- the loop of `MemBlock::MemBlock`, from unit `i` on with `k` rounds to go
unfoldable pub link_loop : (ℕ → ℕ) → (at unit i k : ℕ) → ℕ → ℕ
link_loop mem at unit i zero = mem
link_loop mem at unit i (suc k) = link_loop (update mem at i) (at + unit) unit (suc i) k

-- `MemBlock::MemBlock`
unfoldable pub mem_block : (b count unit : ℕ) → Pool → Pool
unfolding link_loop
mem_block b count unit p = record p {
  blocks = update p.blocks b (record {
    size = (count * unit) % ushort;
    free = (count + (ushort - 1)) % ushort;
    first = 1;
    next = null;
  });
  mem = link_loop p.mem (data_of b) unit 1 (count - 1);
}

-- `MemPool::MemPool` (the size of a unit); `garbage` is what the member holds before
unfoldable pub aligned_size : (garbage unit : ℕ) → ℕ
aligned_size garbage unit =
    if ltb 4 unit then (garbage + 1) % ushort / 2 * 2 else if leb unit 2 then 2 else 4

unfoldable pub mem_pool : (garbage unit init_size grow_size : ℕ) → Pool → Pool
unfolding aligned_size
mem_pool garbage unit init_size grow_size p = record p {
  block = null;
  unit_size = aligned_size garbage unit;
  init_size = init_size;
  grow_size = grow_size;
}

-- the first block from `b` on with a free unit
unfoldable pub find_block : ℕ → (ℕ → MemBlock) → ℕ → Exec ℕ
find_block zero blocks b = out_of_fuel
find_block (suc k) blocks b =
    let rest = find_block k blocks (blocks b).next in
    if b == null then ok null else if (blocks b).free == 0 then rest else ok b

-- the first free unit of block `b`
unfoldable pub take_unit : Pool → ℕ → ℕ × Pool
take_unit p b =
    let m = p.blocks b in
    let unit = data_of b + m.first * p.unit_size in
    (
      unit,
      record p { blocks = update p.blocks b (record m { first = p.mem unit; free = m.free - 1 }) },
    )

-- a new block in front of the others, of which the first unit is given out
unfoldable pub grow_pool : (fresh count : ℕ) → Pool → ℕ × Pool
unfolding mem_block
grow_pool fresh count p =
    let q = mem_block fresh count p.unit_size p in
    let m = q.blocks fresh in
    if fresh == null then (null, p) else (
      data_of fresh,
      record q { blocks = update q.blocks fresh (record m { next = p.block }); block = fresh },
    )

-- `MemPool::allocMem`
unfoldable pub alloc_mem : (fuel fresh : ℕ) → Pool → Exec (ℕ × Pool)
unfolding grow_pool take_unit
alloc_mem fuel fresh p =
    let search : Exec (ℕ × Pool) = do
      b ← find_block fuel p.blocks p.block
      let grow = if p.grow_size == 0 then (null, p) else grow_pool fresh p.grow_size p
      ok (if b == null then grow else take_unit p b)
    in if p.block == null then ok (grow_pool fresh p.init_size p) else search

-- the block of a unit and the one before it, or NULL
unfoldable pub owner_loop : ℕ → (ℕ → MemBlock) → (unit pre b : ℕ) → Exec (ℕ × ℕ)
owner_loop zero blocks unit pre b = out_of_fuel
owner_loop (suc k) blocks unit pre b =
    let next = (blocks b).next in
    let rest = owner_loop k blocks unit b next in
    let outside = ltb unit (data_of b) || leb (data_of b + (blocks b).size) unit in
    if outside then (if next == null then ok (b, null) else rest) else ok (pre, b)

-- the unit goes in front of the free ones of block `b`
unfoldable pub give_unit : Pool → (b unit : ℕ) → Pool
give_unit p b unit =
    let m = p.blocks b in
    record p {
      blocks = update p.blocks b (record m {
        free = (m.free + 1) % ushort;
        first = (unit - data_of b) / p.unit_size % ushort;
      });
      mem = update p.mem unit m.first;
    }

-- `pre->_pNext = b->_pNext`
unfoldable pub skip_block : Pool → (pre b : ℕ) → Pool
skip_block p pre b =
    let next = (p.blocks b).next in
    record p { blocks = update p.blocks pre (record (p.blocks pre) { next = next }) }

-- a block with all units free is given back, and another one goes to the front, behind which the
-- block that was there before is not linked; the first block stays in both cases
unfoldable pub settle : Pool → (pre b : ℕ) → Pool
unfolding skip_block
settle p pre b =
    let m = p.blocks b in
    let q = skip_block p pre b in
    let head = q.blocks q.block in
    let empty = m.free * p.unit_size == m.size in
    if b == p.block
    then p
    else if empty
    then record q { deleted = b ∷ q.deleted }
    else record q { blocks = update q.blocks b (record m { next = head.next }); block = b }

-- `MemPool::freeMem`, which divides by the size of a unit
unfoldable pub free_mem : (fuel : ℕ) → Pool → (unit : ℕ) → Exec Pool
unfolding owner_loop give_unit settle
free_mem fuel p unit =
    let give : Exec Pool = do
      (pre, b) ← owner_loop fuel p.blocks unit p.block p.block
      if b == null
          then ok p
          else if p.unit_size == 0
          then fault
          else ok (settle (give_unit p b unit) pre b)
    in if p.block == null then ok p else give

-- `MemPool::~MemPool`
unfoldable pub delete_loop : ℕ → Pool → (b : ℕ) → Exec Pool
delete_loop zero p b = out_of_fuel
delete_loop (suc k) p b =
    let rest = delete_loop k (record p { deleted = b ∷ p.deleted }) (p.blocks b).next in
    if b == null then ok p else rest
