-- ===== src/Mydb/Buf/Queue.antt =====
-- A `db_buf` is a queue of at most `total` bytes.
use donkeyji.Prelude.{
  ℕ, ◌+◌, ◌-◌, ◌≤◌, ◌≡◌, refl, sym, ap, ◌∙◌, true, Option, none, some, List, ◌++◌, arith, ltb, leb,
  ◌==◌, if◌then◌else◌, length, drop, inl, inr, Bool-cases,
}
use donkeyji.Prelude.Memory.{
  memcpy, memmove, bytes_at, length-bytes_at, bytes_at-memcpy, bytes_at-memcpy_before,
  bytes_at-append, bytes_at-memmove, drop-bytes_at,
}
use donkeyji.Mydb.Buf.{
  DbBuf, left, size, db_buf_clear, db_buf_move, db_buf_alloc, db_buf_seek_tail, db_buf_seek_head,
}

abbrev pub contents : DbBuf → List ℕ
contents b = bytes_at b.mem b.h (size b)

pub record IsValid (b : DbBuf) : Type 0 where
  pub ordered : b.h ≤ b.t
  pub inside : b.t ≤ b.total

-- the same queue in the same memory
pub record Same (b c : DbBuf) : Type 0 where
  pub valid : IsValid c
  pub total : c.total ≡ b.total
  pub kept : contents c ≡ contents b

move-Same : (b : DbBuf) → IsValid b → Same b (db_buf_move b)
unfolding db_buf_move
move-Same b v = record {
  valid = record { ordered = omega arith; inside = omega (arith, v.ordered, v.inside) };
  total = refl;
  kept =
      ap (bytes_at (memmove b.mem 0 b.h (size b)) 0) (omega arith)
      ∙ bytes_at-memmove b.mem 0 b.h (size b);
}

made_room : DbBuf → ℕ → DbBuf
made_room b len = if ltb (left b) len then db_buf_move b else b

made_room-Same : (b : DbBuf) (len : ℕ) → IsValid b → Same b (made_room b len)
unfolding made_room
made_room-Same b len v = elim (Bool-cases (ltb (left b) len)) [
  | inl less ↦ rw less (move-Same b v)
  | inr room ↦ rw room (record { valid = v; total = refl; kept = refl })
]

-- there is a place for `len` bytes exactly if the queue and they fit in the buffer
made_room_lem :
    (b : DbBuf) (len : ℕ)
    → IsValid b
    → leb len (left (made_room b len)) ≡ leb (length (contents b) + len) b.total
unfolding made_room db_buf_move
made_room_lem b len v = ground (arith, length-bytes_at b.mem b.h (size b), v.ordered, v.inside)

-- what `db_buf_alloc` gives: an offset to write at, if the bytes fit, and the same queue
pub record Allocated (b : DbBuf) (len : ℕ) (r : Option ℕ × DbBuf) : Type 0 where
  pub same : Same b r.1
  pub place : r.0 ≡ (if leb (length (contents b) + len) b.total then some r.1.t else none)
  pub room : leb (length (contents b) + len) b.total ≡ leb len (left r.1)

-- `db_buf_alloc` of `len` bytes keeps the queue that a valid buffer holds; it gives the end of the
-- data, with room for `len` bytes behind it, if the queue and they fit in the buffer, and NULL if not
pub db_buf_alloc-Allocated :
    (b : DbBuf) (len : ℕ) → IsValid b → Allocated b len (db_buf_alloc b len)
unfolding db_buf_alloc made_room
db_buf_alloc-Allocated b len v = record {
  same = made_room-Same b len v;
  place = rw (made_room_lem b len v);
  room = sym (made_room_lem b len v);
}

-- Bytes copied to the end of the data of a valid buffer, and passed by `db_buf_seek_tail`, are added
-- to the queue at its end, if there is room for them; if not, the buffer stays as it is.
pub db_buf_seek_tail-append :
    (b : DbBuf) (xs : List ℕ)
    → IsValid b
    → length xs ≤ left b
    → let (p, c) = db_buf_seek_tail (record b { mem = memcpy b.mem b.t xs }) (length xs) in
      (p ≡ some c.t) × IsValid c × (contents c ≡ contents b ++ xs)
unfolding db_buf_seek_tail
db_buf_seek_tail-append b xs v fits =
    let m = memcpy b.mem b.t xs in
    let fitting : leb (length xs) (left b) ≡ true = ground arith in
    let longer : b.t + length xs - b.h ≡ size b + length xs = omega (arith, v.ordered) in
    let end : b.h + size b ≡ b.t = omega (arith, v.ordered) in
    rw fitting (
      refl,
      record { ordered = omega (arith, v.ordered); inside = omega (arith, v.inside, fits) },
      rw (
        longer,
        bytes_at-append m b.h (size b) (length xs),
        bytes_at-memcpy_before b.mem xs b.h b.t (size b) (omega (arith, end)),
        end,
        bytes_at-memcpy b.mem b.t xs,
      ),
    )

-- what is left when `len` bytes have been taken off the front, if there are that many
pub record Taken (b : DbBuf) (len : ℕ) (r : Option ℕ × DbBuf) : Type 0 where
  pub valid : IsValid r.1
  pub done : r.0 ≡ (if ltb (length (contents b)) len then none else some (b.h + len))
  pub kept :
      contents r.1 ≡ (if ltb (length (contents b)) len then contents b else drop len (contents b))

-- `db_buf_seek_head` on a valid buffer takes `len` bytes off the front of the queue and gives the
-- offset behind them, or gives NULL and leaves the queue if it has fewer
pub db_buf_seek_head-Taken :
    (b : DbBuf) (len : ℕ) → IsValid b → Taken b len (db_buf_seek_head b len)
unfolding db_buf_seek_head db_buf_clear
db_buf_seek_head-Taken b len v =
    let count = length-bytes_at b.mem b.h (size b) in
    elim (Bool-cases (ltb (size b) len)) [
      | inl less ↦ rw less (record { valid = v; done = rw (count, less); kept = rw (count, less) })
      | inr enough ↦
          let rest_left : b.t - (b.h + len) ≡ size b - len = omega arith in
          rw enough (elim (Bool-cases (b.h + len == b.t)) [
            | inl all ↦
                let nothing_left : size b - len ≡ 0 = ground arith in
                rw all (record {
                  valid = record { ordered = omega arith; inside = omega arith };
                  done = rw (count, enough);
                  kept =
                      rw (count, enough)
                        (sym (
                          drop-bytes_at b.mem b.h (size b) len (ground arith)
                          ∙ ap (bytes_at b.mem (b.h + len)) nothing_left));
                })
            | inr some_left ↦ rw some_left (record {
              valid = record { ordered = ground (arith, v.ordered); inside = v.inside };
              done = rw (count, enough);
              kept =
                  rw (count, enough)
                    (ap (bytes_at b.mem (b.h + len)) rest_left
                      ∙ sym (drop-bytes_at b.mem b.h (size b) len (ground arith)));
            })
          ])
    ]
