-- ===== src/Mydb/DataFormat/Array/Fits.antt =====
-- Values that fit a format, and what the formats promise for them.
use donkeyji.Prelude.{
  ℕ, zero, suc, ◌+◌, ◌%◌, ◌≤◌, ◌<◌, ◌≡◌, refl, ap, false, Option, List, [], ◌∷◌, ◌++◌, arith, ltb,
  ◌==◌, length, length-append, inl, inr, Bool-cases,
}
use donkeyji.Prelude.Int.{ℤ, pos}
use donkeyji.Prelude.Exec.{Exec, ok, yields, Yields-bind}
use donkeyji.Mydb.DataFormat.{Packed, value_of, read}
use donkeyji.Mydb.DataFormat.Bytes.{RoundTrip, written, no_room, read-append}
use donkeyji.Mydb.DataFormat.Number.{
  IsInt, IsShort, Is32, pack_number-RoundTrip, pack_byte-RoundTrip, pack_word-RoundTrip,
  pack_dword-RoundTrip,
}
use donkeyji.Mydb.DataFormat.String.{pack_string-RoundTrip}
use donkeyji.Mydb.DataFormat.Array.{
  Value, number, string, table, Format, number_arg, byte_arg, word_arg, dword_arg, string_arg,
  array_arg, pack_array, unpack_elements, unpack_array, pushed, pack, unpack, new_table,
}
use donkeyji.Mydb.DataFormat.Array.Loops.{
  Packs, total, LoopPacks, loop_written, loop_no_room, pack_loop-LoopPacks,
}

-- the values that a format can carry: numbers in range, strings of at most 65534 bytes, and tables of
-- at most 255 such elements, or with as many as the format has
pub data Fits : Format → Value → Type 0 where
  number_fits : {n : ℤ} → IsInt n → Fits number_arg (number n)
  byte_fits : {n : ℕ} → n < 256 → Fits byte_arg (number (pos n))
  word_fits : {n : ℤ} → IsShort n → Fits word_arg (number n)
  dword_fits : {n : ℤ} → Is32 n → Fits dword_arg (number n)
  string_fits : {s : List ℕ} → length s < 65535 → Fits string_arg (string s)
  table_fits :
      {base : Format} {len : ℕ} {at : ℕ → Value}
      → len < 256
      → ((j : ℕ) → 1 ≤ j → j < 1 + len → Fits base (at j))
      → Fits (array_arg base 0) (table len at)
  array_fits :
      {base : Format} {size len : ℕ} {at : ℕ → Value}
      → ((j : ℕ) → 1 ≤ j → j < 1 + suc size → Fits base (at j))
      → Fits (array_arg base (suc size)) (table len at)

-- equal values, or tables with elements alike: as many as the first has, or as the format has
pub data Alike : Format → Value → Value → Type 0 where
  same : {f : Format} {v : Value} → Alike f v v
  tables_alike :
      {base : Format} {len : ℕ} {at at' : ℕ → Value}
      → ((j : ℕ) → 1 ≤ j → j < 1 + len → Alike base (at j) (at' j))
      → Alike (array_arg base 0) (table len at) (table len at')
  arrays_alike :
      {base : Format} {size len : ℕ} {at at' : ℕ → Value}
      → ((j : ℕ) → 1 ≤ j → j < 1 + suc size → Alike base (at j) (at' j))
      → Alike (array_arg base (suc size)) (table len at) (table (suc size) at')

-- the bytes that a value may take
abbrev pub most_text : Value → ℕ
most_text (string s) = length s + 3
most_text v = 0

abbrev pub most_elements : (Value → ℕ) → ℕ → Value → ℕ
most_elements most zero (table len at) = 1 + total most at len 1
most_elements most (suc size) (table len at) = total most at (suc size) 1
most_elements most size v = 0

abbrev pub most : Format → Value → ℕ
most number_arg v = 5
most byte_arg v = 1
most word_arg v = 2
most dword_arg v = 4
most string_arg v = most_text v
most (array_arg base size) v = most_elements (most base) size v

base-Packs :
    {A : Type 0} {unpack_base : List ℕ → Exec (Option (A × ℕ))} {x : A} {m buf_len : ℕ} {p : Packed}
    (f : Format) (push : A → Value)
    → RoundTrip unpack_base x m buf_len p
    → Packs (λ buf. pushed push (unpack_base buf)) (Alike f (push x)) m buf_len p
base-Packs {x} f push (written fits some_bytes le back) =
    Packs.written fits some_bytes le λ rest. rw (back rest) (yields (push x, refl, same))
base-Packs f push (no_room less) = Packs.no_room less

head_value : (len : ℕ) → len < 256 → value_of (len % 256 ∷ []) ≡ len
unfolding value_of
head_value len h = omega arith

unpack_array-table :
    (unpack_base : List ℕ → Exec (Option (Value × ℕ))) (len : ℕ) (buf : List ℕ)
    → len < 256
    → ltb (length buf) 1 ≡ false
    → read buf 0 1 ≡ ok (len % 256 ∷ [])
    → unpack_array unpack_base 0 buf ≡ unpack_elements unpack_base len buf 1
unfolding unpack_array
unpack_array-table unpack_base len buf small some_bytes head =
    rw (some_bytes, head) (ap (λ n. unpack_elements unpack_base n buf 1) (head_value len small))

module _ (number_text : ℤ → List ℕ) (base : Format)
    (base_ok : (v : Value) (buf_len : ℕ)
      → Fits base v
      → Packs
          (unpack base)
          (Alike base v)
          (most base v)
          buf_len
          (pack number_text base v buf_len)) where
  table-Packs :
      (len : ℕ) (at : ℕ → Value) (buf_len : ℕ) {p : Packed}
      → len < 256
      → LoopPacks
          (pack number_text base)
          (unpack base)
          (Fits base)
          (Alike base)
          (most base)
          base_ok
          at
          len
          1
          buf_len
          (len % 256 ∷ [])
          p
      → Packs
          (unpack_array (unpack base) 0)
          (Alike (array_arg base 0) (table len at))
          (most (array_arg base 0) (table len at))
          buf_len
          p
  unfolding unpack_elements
  table-Packs len at buf_len small (loop_no_room less) = Packs.no_room (omega arith)
  table-Packs len at buf_len small (loop_written whole more e room many bound next) =
      Packs.written room (omega arith) (omega arith) λ rest.
        let some_bytes : ltb (length (whole ++ rest)) 1 ≡ false =
          ground (arith, length-append whole rest) in
        let head : read (whole ++ rest) 0 1 ≡ ok (len % 256 ∷ []) =
          rw e (read-append [] (len % 256 ∷ []) (more ++ rest) 0 1 refl refl) in
        rw (unpack_array-table (unpack base) len (whole ++ rest) small some_bytes head) (
          Yields-bind (next rest new_table)
            λ r y. rw y.value (yields (table len y.got, refl, tables_alike y.alike)))

  array-Packs :
      (size len : ℕ) (at : ℕ → Value) (buf_len : ℕ) {p : Packed}
      → LoopPacks
          (pack number_text base)
          (unpack base)
          (Fits base)
          (Alike base)
          (most base)
          base_ok
          at
          (suc size)
          1
          buf_len
          []
          p
      → Packs
          (unpack_array (unpack base) (suc size))
          (Alike (array_arg base (suc size)) (table len at))
          (most (array_arg base (suc size)) (table len at))
          buf_len
          p
  unfolding unpack_array unpack_elements
  array-Packs size len at buf_len (loop_no_room less) = Packs.no_room (omega arith)
  array-Packs size len at buf_len (loop_written whole more e room many bound next) =
      let some_size : (suc size == 0) ≡ false = ground arith in
      Packs.written room (omega arith) (omega arith) λ rest. rw some_size (
        Yields-bind (next rest new_table)
          λ r y. rw y.value (yields (table (suc size) y.got, refl, arrays_alike y.alike)))

-- `pack` and `unpack` of every format, arrays of arrays included: a value that fits its format takes
-- at most `most` bytes and fits in the buffer, or is refused if fewer than that are left; `unpack` of
-- the bytes gives a value alike, and their number, whatever follows them
pub pack-Packs :
    (number_text : ℤ → List ℕ) (f : Format) (v : Value) (buf_len : ℕ)
    → Fits f v
    → Packs (unpack f) (Alike f v) (most f v) buf_len (pack number_text f v buf_len)
unfolding pack unpack pack_array
pack-Packs number_text number_arg v buf_len (number_fits {n} h) =
    base-Packs number_arg number (pack_number-RoundTrip n buf_len h)
pack-Packs number_text byte_arg v buf_len (byte_fits {n} h) =
    base-Packs byte_arg number (pack_byte-RoundTrip n buf_len h)
pack-Packs number_text word_arg v buf_len (word_fits {n} h) =
    base-Packs word_arg number (pack_word-RoundTrip n buf_len h)
pack-Packs number_text dword_arg v buf_len (dword_fits {n} h) =
    base-Packs dword_arg number (pack_dword-RoundTrip n buf_len h)
pack-Packs number_text string_arg v buf_len (string_fits {s} h) =
    base-Packs string_arg string (pack_string-RoundTrip s buf_len h)
pack-Packs number_text (array_arg base zero) v buf_len (table_fits {len} {at} small fit) =
    let few : ltb 255 len ≡ false = ground arith in
    let ok_base = pack-Packs number_text base in
    rw few (elim (Bool-cases (ltb buf_len 1)) [
      | inl less ↦ rw less (Packs.no_room (ground arith))
      | inr room ↦ rw room (
          table-Packs number_text base ok_base len at buf_len small (
            pack_loop-LoopPacks (pack number_text base) (unpack base) (Fits base) (Alike base)
              (most base) ok_base at len 1 buf_len (len % 256 ∷ []) (ground arith) fit))
    ])
pack-Packs number_text (array_arg base (suc size)) v buf_len (array_fits {len} {at} fit) =
    let some_size : (suc size == 0) ≡ false = ground arith in
    let ok_base = pack-Packs number_text base in
    rw some_size (
      array-Packs number_text base ok_base size len at buf_len (
        pack_loop-LoopPacks (pack number_text base) (unpack base) (Fits base) (Alike base)
          (most base) ok_base at (suc size) 1 buf_len [] (omega arith) fit))
