-- ===== src/Mydb/DataFormat/Array.antt =====
-- mydb/data_format.c: Lua values by the format that a function's argument has, arrays included.
-- A number is the `int` that `lua_number2int` gives for it, and `number_text` is the text that
-- `luaL_checklstring` gives for a number. A table is its length, `lua_objlen`, and its elements by
-- index; what `unpack` makes of an array is a table with the elements that it has set.
pub mod Fits
pub mod Loops
pub mod Safe
mod Tests
use donkeyji.Prelude.{
  ℕ, zero, suc, ◌+◌, ◌-◌, ◌%◌, Bool, true, false, Option, none, some, List, [], ◌∷◌, ◌++◌, ltb,
  ◌==◌, if◌then◌else◌, update, length, drop,
}
use donkeyji.Prelude.Int.{ℤ}
use donkeyji.Prelude.Exec.{Exec, ok, ◌>>=◌}
use donkeyji.Mydb.DataFormat.{
  Packed, packed, refused, raised, check_pack, check_unpack, value_of, read, pack_number,
  unpack_number, pack_byte, unpack_byte, pack_word, unpack_word, pack_dword, unpack_dword,
  pack_string, unpack_string,
}

pub data Value : Type 0 where
  number : ℤ → Value
  string : List ℕ → Value
  table : ℕ → (ℕ → Value) → Value
  other : Value

-- the subclasses of `fcall_base_arg`; an array has the format of its elements and `_size`
pub data Format : Type 0 where
  number_arg : Format
  byte_arg : Format
  word_arg : Format
  dword_arg : Format
  string_arg : Format
  array_arg : Format → ℕ → Format

-- `luaL_checktype (L, data_in, LUA_TNUMBER)`
abbrev pub with_number : (ℤ → Packed) → Value → Packed
with_number f (number n) = f n
with_number f v = raised

-- what was written so far, and what the next element adds; nothing is `cur_used == 0`
abbrev pub then_pack : Packed → (List ℕ → Packed) → Packed
then_pack (packed []) next = refused
then_pack (packed (x ∷ xs)) next = next (x ∷ xs)
then_pack refused next = refused
then_pack raised next = raised

-- the loop of `fcall_array_arg::pack`: `count` elements from index `i` on
unfoldable pub pack_loop :
    (Value → ℕ → Packed) → (count i : ℕ) → (ℕ → Value) → (buf_len : ℕ) → List ℕ → Packed
pack_loop pack_base zero i at buf_len written = packed written
pack_loop pack_base (suc count) i at buf_len written =
    then_pack (pack_base (at i) (buf_len - length written))
      λ bytes. pack_loop pack_base count (i + 1) at buf_len (written ++ bytes)

unfoldable pub pack_array : (Value → ℕ → Packed) → (size : ℕ) → Value → (buf_len : ℕ) → Packed
unfolding pack_loop
pack_array pack_base size (table len at) buf_len =
    if size == 0
    then if ltb 255 len
      then raised
      else check_pack 1 buf_len (pack_loop pack_base len 1 at buf_len (len % 256 ∷ []))
    else pack_loop pack_base size 1 at buf_len []
pack_array pack_base size v buf_len = raised

-- the loop of `fcall_array_arg::unpack`: `count` elements from index `i` on, with `readed_len` read
unfoldable pub unpack_loop :
    (List ℕ → Exec (Option (Value × ℕ)))
    → (count i : ℕ) → List ℕ
    → (readed_len : ℕ) → (ℕ → Value)
    → Exec (Option ((ℕ → Value) × ℕ))
unpack_loop unpack_base zero i buf readed_len at = ok (some (at, readed_len))
unpack_loop unpack_base (suc count) i buf readed_len at = unpack_base (drop readed_len buf) >>= λ r.
    elim r [
      | none ↦ ok none
      | some (v, cur_readed) ↦
          let rest =
            unpack_loop unpack_base count (i + 1) buf (readed_len + cur_readed) (update at i v) in
          if cur_readed == 0 then ok none else rest
    ]

-- the new table has nothing in it
abbrev pub new_table : ℕ → Value
new_table i = other

unfoldable pub unpack_elements :
    (List ℕ → Exec (Option (Value × ℕ)))
    → (array_len : ℕ) → List ℕ
    → (readed_len : ℕ) → Exec (Option (Value × ℕ))
unfolding unpack_loop
unpack_elements unpack_base array_len buf readed_len =
    unpack_loop unpack_base array_len 1 buf readed_len new_table >>= λ r. elim r [
      | none ↦ ok none
      | some (at, n) ↦ ok (some (table array_len at, n))
    ]

unfoldable pub unpack_array :
    (List ℕ → Exec (Option (Value × ℕ))) → (size : ℕ) → List ℕ → Exec (Option (Value × ℕ))
unfolding unpack_elements
unpack_array unpack_base size buf =
    if size == 0
    then check_unpack 1 buf
        (do head ← read buf 0 1; unpack_elements unpack_base (value_of head) buf 1)
    else unpack_elements unpack_base size buf 0

-- a value that was read, as a Lua value
abbrev pub pushed {ℓ} :
    {A : Type ℓ} → (A → Value) → Exec (Option (A × ℕ)) → Exec (Option (Value × ℕ))
pushed push run = run >>= λ r. elim r [ none ↦ ok none | some (x, n) ↦ ok (some (push x, n)) ]

-- `_base_packer->pack` and `_base_packer->unpack`, by the class of the packer
module _ (number_text : ℤ → List ℕ) where
  abbrev pub with_text : (List ℕ → Packed) → Value → Packed
  with_text f (number n) = f (number_text n)
  with_text f (string s) = f s
  with_text f v = raised

  unfoldable pub pack : Format → Value → (buf_len : ℕ) → Packed
  pack number_arg v buf_len = with_number (λ n. pack_number n buf_len) v
  pack byte_arg v buf_len = with_number (λ n. pack_byte n buf_len) v
  pack word_arg v buf_len = with_number (λ n. pack_word n buf_len) v
  pack dword_arg v buf_len = with_number (λ n. pack_dword n buf_len) v
  pack string_arg v buf_len = with_text (λ s. pack_string s buf_len) v
  pack (array_arg base size) v buf_len = pack_array (pack base) size v buf_len

unfoldable pub unpack : Format → List ℕ → Exec (Option (Value × ℕ))
unpack number_arg buf = pushed number (unpack_number buf)
unpack byte_arg buf = pushed number (unpack_byte buf)
unpack word_arg buf = pushed number (unpack_word buf)
unpack dword_arg buf = pushed number (unpack_dword buf)
unpack string_arg buf = pushed string (unpack_string buf)
unpack (array_arg base size) buf = unpack_array (unpack base) size buf
