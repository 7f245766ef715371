-- ===== src/Mydb/Buf.antt =====
-- mydb/buf.c: `db_buf`, a buffer of `total` bytes with the data between `h` and `t`.
-- `h` and `t` are offsets from `START`, and `mem` has the byte at every offset. A result is an offset,
-- or `none` for NULL. `db_buf_alloc_pack` and `db_buf_Chunk` have no code but comments.
pub mod Queue
mod Tests
use donkeyji.Prelude.{ℕ, ◌+◌, ◌-◌, Bool, Option, none, some, ltb, leb, ◌==◌, if◌then◌else◌}
use donkeyji.Prelude.Exec.{Exec, ok, fault}
use donkeyji.Prelude.Memory.{memmove}

pub record DbBuf : Type 0 where
  pub h : ℕ
  pub t : ℕ
  pub total : ℕ
  pub mem : ℕ → ℕ

-- `LEFT ()` and `SIZE ()`
abbrev pub left : DbBuf → ℕ
left b = b.total - b.t

abbrev pub size : DbBuf → ℕ
size b = b.t - b.h

unfoldable pub db_buf_clear : DbBuf → DbBuf
db_buf_clear b = record b { h = 0; t = 0 }

unfoldable pub db_buf_full : DbBuf → DbBuf
db_buf_full b = record b { h = 0; t = b.total }

-- `granted` is whether `malloc` has the memory, in which it finds `fresh`; its result is not tested
unfoldable pub db_buf_new : (granted : Bool) → (fresh : ℕ → ℕ) → ℕ → Exec DbBuf
unfolding db_buf_clear
db_buf_new granted fresh total =
    if granted
    then ok (db_buf_clear (record { h = 0; t = 0; total = total; mem = fresh }))
    else fault

-- the data moves to the start
unfoldable pub db_buf_move : DbBuf → DbBuf
db_buf_move b = record b { h = 0; t = size b; mem = memmove b.mem 0 b.h (size b) }

-- the result is `*rlen` and the place for that many bytes
unfoldable pub db_buf_alloc_less : DbBuf → ℕ → (Option ℕ × ℕ) × DbBuf
db_buf_alloc_less b len =
    let c = if ltb (left b) len then db_buf_move b else b in
    let rlen = if leb len (left c) then len else left c in
    ((if ltb 0 rlen then some c.t else none, rlen), c)

unfoldable pub db_buf_alloc : DbBuf → ℕ → Option ℕ × DbBuf
db_buf_alloc b len =
    let c = if ltb (left b) len then db_buf_move b else b in
    (if leb len (left c) then some c.t else none, c)

unfoldable pub db_buf_seek_tail : DbBuf → ℕ → Option ℕ × DbBuf
db_buf_seek_tail b len =
    if leb len (left b) then (some (b.t + len), record b { t = b.t + len }) else (none, b)

-- an empty buffer is rewound, after the result was taken
unfoldable pub db_buf_seek_head : DbBuf → ℕ → Option ℕ × DbBuf
db_buf_seek_head b len =
    let c = record b { h = b.h + len } in
    if ltb (size b) len then (none, b) else (some c.h, if c.h == c.t then db_buf_clear c else c)
