-- ===== src/MemPool/Tests.antt =====
-- Runs of mempool/memorypool.cpp: block 200 with four units of two bytes, and block 100 behind it.
use donkeyji.Prelude.{ℕ, refl, [], arith, ◌==◌, if◌then◌else◌, update}
use donkeyji.Prelude.Exec.{◌>>=◌, Yields}
use donkeyji.Prelude.Chain.{null}
use donkeyji.MemPool.{Pool, alloc_mem, free_mem}
use donkeyji.MemPool.Head.{WritesUnit, SamePool, alloc_mem-free_mem}
use donkeyji.MemPool.Blocks.{InFront, free_mem-InFront}

abbrev pool : Pool
pool = record {
  block = 200;
  unit_size = 2;
  init_size = 4;
  grow_size = 4;
  blocks = λ b.
      if b == 200
      then record { size = 8; free = 2; first = 1; next = 100 }
      else record { size = 8; free = 1; first = 3; next = null };
  mem = λ x. if x == 218 then 3 else 0;
  deleted = [];
}

-- both bytes of the unit at 218
abbrev write_unit : (ℕ → ℕ) → ℕ → ℕ
write_unit mem = update mem 218 77

write_unit-WritesUnit : WritesUnit 218 2 write_unit
write_unit-WritesUnit mem x away = ground arith

alloc_mem-free_mem_example :
    Yields
      (SamePool pool 218)
      (alloc_mem 3 300 pool >>= λ (u, q). free_mem 3 (record q { mem = write_unit q.mem }) u)
alloc_mem-free_mem_example =
    alloc_mem-free_mem 2 300 pool 1 write_unit
      (record {
        block = ground arith;
        first = refl;
        free = omega arith;
        count = omega arith;
        within = omega arith;
        small = omega arith;
        unit = omega arith;
      })
      write_unit-WritesUnit

free_mem-InFront_example : Yields (InFront pool 100 []) (free_mem 3 pool 116)
free_mem-InFront_example =
    free_mem-InFront 3 pool 116 200 100 [] []
      (refl, ground arith, refl, (refl, ground arith, refl, refl)) (refl, tt) refl (omega arith)
      (ground arith) (omega arith)
