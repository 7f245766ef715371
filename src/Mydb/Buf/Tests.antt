-- ===== src/Mydb/Buf/Tests.antt =====
-- The theorems on mydb/buf.c at a buffer that meets their hypotheses.
use donkeyji.Prelude.{◌≡◌, refl, some, arith}
use donkeyji.Mydb.Buf.{DbBuf, db_buf_alloc, db_buf_move}
use donkeyji.Mydb.Buf.Queue.{IsValid, Allocated, db_buf_alloc-Allocated}

-- three bytes at the end of a buffer of eight
abbrev at_end : DbBuf
at_end = record { h = 3; t = 6; total = 8; mem = λ i. i }

at_end-IsValid : IsValid at_end
at_end-IsValid = record { ordered = omega arith; inside = omega arith }

db_buf_alloc-Allocated_example : Allocated at_end 4 (db_buf_alloc at_end 4)
db_buf_alloc-Allocated_example = db_buf_alloc-Allocated at_end 4 at_end-IsValid

-- four bytes fit only after the data has moved
makes_room : (db_buf_alloc at_end 4).0 ≡ some 3
unfolding db_buf_alloc db_buf_move
makes_room = refl
