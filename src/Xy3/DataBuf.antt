-- ===== src/Xy3/DataBuf.antt =====
-- cs/my_xy3/databuf.cpp: `DataBuf`, the bytes of a connection, which packets are added to at the end
-- and taken from at the head. `head` and `tail` are offsets in `_data`, and `mem` has the byte at every
-- offset; an access past `_len` is a fault. The members are lengths and offsets that are not negative.
-- An `int` that can overflow is the pattern of its 32 bits, and a `short` has its wrap-around, too.
-- `new` finds the memory, in which it leaves `fresh`, and faults on a negative size.
pub mod Expand
pub mod Queue
pub mod Packets
pub mod Delivery
mod Tests
use donkeyji.Prelude.{
  ℕ, zero, suc, ◌+◌, ◌-◌, ◌*◌, ◌%◌, ◌^◌, Bool, true, false, ◌&&◌, Option, none, some, List, [], ltb,
  leb, ◌==◌, if◌then◌else◌, length,
}
use donkeyji.Prelude.Int.{ℤ, pos, ltb_ℤ}
use donkeyji.Prelude.Exec.{Exec, ok, fault, out_of_fuel, ◌>>=◌}
use donkeyji.Prelude.Memory.{memcpy, memmove, bytes_at}
use donkeyji.Mydb.DataFormat.{bytes_of, value_of, as_short}

pub record DataBuf : Type 0 where
  pub len : ℕ
  pub head : ℕ
  pub tail : ℕ
  pub left : ℕ
  pub mem : ℕ → ℕ

-- the constructor
unfoldable pub data_buf : (fresh : ℕ → ℕ) → (len : ℕ) → DataBuf
data_buf fresh len = record { len = len; head = 0; tail = 0; left = len; mem = fresh }

unfoldable pub move_head : DataBuf → DataBuf
move_head d = record d {
  head = 0;
  tail = d.tail - d.head;
  left = d.left + d.head;
  mem = memmove d.mem 0 d.head (d.tail - d.head);
}

-- `a < b` and `n << 1` of the patterns of two `int`s
abbrev pub ltb_int : (a b : ℕ) → Bool
ltb_int a b = ltb ((a + 2 ^ 31) % 2 ^ 32) ((b + 2 ^ 31) % 2 ^ 32)

abbrev pub shift_int : ℕ → ℕ
shift_int n = n * 2 % 2 ^ 32

-- `while (newLen < realNeed) newLen <<= 1;`
unfoldable pub double_loop : (fuel : ℕ) → (new_len real_need : ℕ) → Exec ℕ
double_loop zero new_len real_need = out_of_fuel
double_loop (suc k) new_len real_need =
    let next : Exec ℕ = double_loop k (shift_int new_len) real_need in
    if ltb_int new_len real_need then next else ok new_len

-- the data in a new array
abbrev pub enlarged : (fresh : ℕ → ℕ) → DataBuf → (new_len : ℕ) → DataBuf
enlarged fresh d new_len = record d {
  len = new_len;
  left = new_len - d.tail;
  mem = memcpy fresh 0 (bytes_at d.mem 0 d.len);
}

-- `new char[newLen]`, and the `memcpy` of `_len` bytes to it
abbrev pub allocated : (fresh : ℕ → ℕ) → DataBuf → (new_len : ℕ) → Exec DataBuf
allocated fresh d new_len =
    if ltb new_len (2 ^ 31) && leb d.len new_len then ok (enlarged fresh d new_len) else fault

unfoldable pub expand_buf : (fuel : ℕ) → (fresh : ℕ → ℕ) → DataBuf → (need : ℕ) → Exec DataBuf
unfolding move_head double_loop
expand_buf fuel fresh d need =
    let m = move_head d in
    let more : Exec DataBuf =
      double_loop fuel (shift_int m.len) ((m.len + need) % 2 ^ 32) >>= λ new_len.
      allocated fresh m new_len in
    if leb need m.left then ok m else more

-- a `memcpy` to the tail
unfoldable pub add_bytes : DataBuf → List ℕ → Exec DataBuf
add_bytes d xs =
    if ltb d.len (d.tail + length xs)
    then fault
    else ok (record d {
      tail = d.tail + length xs;
      left = d.left - length xs;
      mem = memcpy d.mem d.tail xs;
    })

unfoldable pub append_raw_data : (fuel : ℕ) → (fresh : ℕ → ℕ) → DataBuf → List ℕ → Exec DataBuf
unfolding expand_buf add_bytes
append_raw_data fuel fresh d xs = expand_buf fuel fresh d (length xs) >>= λ e. add_bytes e xs

-- `false` is the status -1
unfoldable pub cut_data : DataBuf → ℕ → Bool × DataBuf
cut_data d len =
    if ltb (d.tail - d.head) len then (false, d) else (true, record d { head = d.head + len })

abbrev pub get_data_size : DataBuf → ℕ
get_data_size d = d.tail - d.head

-- `_data[_head] + sizeof(short)` as a `size_t`, where a `char` has a sign
abbrev pub packet_need : ℕ → ℕ
packet_need low = if ltb low 128 then low + 2 else (2 ^ 64 - 256 + low + 2) % 2 ^ 64

-- `size` and the offset of the result, which is `none` for NULL
unfoldable pub get_pack : DataBuf → Option (ℤ × ℕ)
get_pack d =
    if leb 2 (d.tail - d.head) && leb (packet_need (d.mem d.head)) (d.tail - d.head)
    then some (as_short (value_of (bytes_at d.mem d.head 2)), d.head + 2)
    else none

-- `short size = len + sizeof(short)`
abbrev pub short_size : ℕ → ℤ
short_size len = as_short ((len + 2) % 2 ^ 16)

-- the packet with its length, into a buffer with room for `size` bytes, after a move if need be;
-- `false` is the status -1
abbrev pub make_room : DataBuf → (size : ℤ) → DataBuf
make_room d size = if ltb_ℤ (pos d.left) size then move_head d else d

abbrev pub put_pack : DataBuf → List ℕ → (size : ℤ) → Exec (Bool × DataBuf)
put_pack m xs size =
    let run : Exec (Bool × DataBuf) =
      add_bytes m (bytes_of 2 (length xs % 2 ^ 16)) >>= λ e. add_bytes e xs >>= λ a. ok (true, a) in
    if ltb_ℤ (pos m.left) size then ok (false, m) else run

unfoldable pub append_pack : DataBuf → List ℕ → Exec (Bool × DataBuf)
unfolding move_head add_bytes
append_pack d xs = let size = short_size (length xs) in put_pack (make_room d size) xs size
