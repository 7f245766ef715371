-- ===== src/MultiProgress/Conn/Sample.antt =====
-- A manager of three connections with two in use, for runs of multi_progress/.
use donkeyji.Prelude.{◌+◌, none, some, [], arith, ◌==◌, if◌then◌else◌}
use donkeyji.Prelude.Int.{pos, negsuc}
use donkeyji.Prelude.Chain.{null}
use donkeyji.MultiProgress.Chunk.{Store, empty_queue}
use donkeyji.MultiProgress.Conn.{World}
use donkeyji.MultiProgress.Conn.Manager.{Managed, FreshConns}

abbrev pub no_chunks : Store
no_chunks = record {
  queue = empty_queue;
  next = λ i. null;
  mem = λ i. none;
  offset = λ i. 0;
  freed = [];
}

-- slot `i` has connection `i + 1`
abbrev pub three : World
three = record {
  mgr = record { slot = λ i. i + 1; size = 3; used = 2 };
  fd = λ c. pos (c + 10);
  ndx = λ c. if c == 1 then pos 0 else if c == 2 then pos 1 else negsuc 0;
  bev = λ c. c + 20;
  read_q = λ c. none;
  write_q = λ c. some no_chunks;
  closed = [];
  freed = [];
  freed_bevs = [];
}

pub three-Managed : Managed three
three-Managed = record {
  real = λ i l. ground arith;
  apart = λ i j l l' e. omega (arith, e);
  in_use = λ i l. ground (arith, l);
  spare = λ i l u. ground (arith, l, u);
  fits = omega arith;
  small = omega arith;
}

pub three-FreshConns : FreshConns three (λ i. i + 100)
three-FreshConns = record {
  real = λ i. ground arith;
  apart = λ i j e. omega (arith, e);
  other = λ i j l. ground (arith, l);
}
