-- ===== src/Mydb/DataFormat.antt =====
-- mydb/data_format.c: Lua values to bytes and back, by the formats `number`, `byte`, `word`, `dword`,
-- `string` and arrays of a format (Array). A buffer is the list of its bytes, of which there are
-- `buf_len`; a read past them is a fault. Numbers are `int`s of 32 bits, the machine is
-- little-endian, and the first bit field of a byte is its low bit. Strings are shorter than 2^31 - 1.
pub mod Bytes
pub mod Number
pub mod String
pub mod Array
pub mod Table
mod Tests
use donkeyji.Prelude.{
  ℕ, zero, suc, ◌+◌, ◌-◌, ◌*◌, ◌/◌, ◌%◌, ◌^◌, Bool, true, false, ◌||◌, Option, none, some, List, [],
  ◌∷◌, ◌++◌, ltb, leb, ◌==◌, if◌then◌else◌, length, take, drop,
}
use donkeyji.Prelude.Int.{ℤ, pos, negsuc}
use donkeyji.Prelude.Exec.{Exec, ok, fault, ◌>>=◌}

-- the bytes written, or `return 0`, or an error raised in Lua
pub data Packed : Type 0 where
  packed : List ℕ → Packed
  refused : Packed
  raised : Packed

-- `k` bytes of a number, the lowest first
unfoldable pub bytes_of : (k : ℕ) → ℕ → List ℕ
bytes_of zero n = []
bytes_of (suc k) n = n % 256 ∷ bytes_of k (n / 256)

unfoldable pub value_of : List ℕ → ℕ
value_of [] = 0
value_of (x ∷ xs) = x + 256 * value_of xs

-- the bits of an `int`, and the signed numbers of 32 and of 16 bits
unfoldable pub bits_of : ℤ → ℕ
bits_of (pos n) = n % 2 ^ 32
bits_of (negsuc n) = 2 ^ 32 - 1 - n % 2 ^ 32

unfoldable pub as_int : ℕ → ℤ
as_int n = if ltb n (2 ^ 31) then pos n else negsuc (2 ^ 32 - 1 - n)

unfoldable pub as_short : ℕ → ℤ
as_short n = if ltb n (2 ^ 15) then pos n else negsuc (2 ^ 16 - 1 - n)

-- `n` bytes from index `i` on
unfoldable pub read : List ℕ → (i n : ℕ) → Exec (List ℕ)
read buf i n = if ltb (length buf) (i + n) then fault else ok (take n (drop i buf))

-- `check_buf`, for `pack` and for `unpack`
abbrev pub check_pack : (used_len buf_len : ℕ) → Packed → Packed
check_pack used_len buf_len p = if ltb buf_len used_len then refused else p

abbrev pub check_unpack {ℓ} :
    {A : Type ℓ} → (readed_len : ℕ) → List ℕ → Exec (Option A) → Exec (Option A)
check_unpack readed_len buf run = if ltb (length buf) readed_len then ok none else run

-- `data` and `is_negative` of `fcall_number_arg::pack`: the sign goes, on `unsigned int`
unfoldable pub magnitude : ℤ → ℕ
magnitude (pos n) = n % 2 ^ 32
magnitude (negsuc n) = suc n % 2 ^ 32

abbrev pub is_negative : ℤ → ℕ
is_negative (pos n) = 0
is_negative (negsuc n) = 1

-- `data_t` with its number: a byte of sign and length, and the bytes
unfoldable pub number_bytes : ℤ → (len : ℕ) → List ℕ
number_bytes num len = (is_negative num + 2 * len) ∷ bytes_of len (magnitude num)

unfoldable pub pack_number : ℤ → (buf_len : ℕ) → Packed
pack_number num buf_len =
    let amount = magnitude num in
    let write : ℕ → Packed = λ len. check_pack (1 + len) buf_len (packed (number_bytes num len)) in
    if leb amount 0xff
    then write 1
    else if leb amount 0xffff
    then write 2
    else if leb amount 0xff_ffff
    then write 3
    else if leb amount 0xffff_ffff
    then write 4
    else raised

-- the value and `readed_len`, or `none` for `return 0`
unfoldable pub unpack_number : List ℕ → Exec (Option (ℤ × ℕ))
unpack_number buf = check_unpack 1 buf (do
  head ← read buf 0 1
  let len = value_of head / 2
  let number : Exec (Option (ℤ × ℕ)) = check_unpack (1 + len) buf (do
    bytes ← read buf 1 len
    let amount = value_of bytes
    ok (
        some (
          as_int (if value_of head % 2 == 0 then amount else (2 ^ 32 - amount) % 2 ^ 32),
          1 + len,
        )))
  if len == 0 || leb 5 len then ok none else number)

-- the low bytes of the `int`: one, two or four of them
unfoldable pub pack_low : (used_len : ℕ) → ℤ → (buf_len : ℕ) → Packed
pack_low used_len num buf_len =
    check_pack used_len buf_len (packed (bytes_of used_len (bits_of num)))

unfoldable pub unpack_low : (readed_len : ℕ) → (ℕ → ℤ) → List ℕ → Exec (Option (ℤ × ℕ))
unpack_low readed_len cast buf =
    check_unpack readed_len buf
      (do bytes ← read buf 0 readed_len; ok (some (cast (value_of bytes), readed_len)))

unfoldable pub pack_byte : ℤ → (buf_len : ℕ) → Packed
unfolding pack_low
pack_byte = pack_low 1

unfoldable pub unpack_byte : List ℕ → Exec (Option (ℤ × ℕ))
unfolding unpack_low
unpack_byte = unpack_low 1 pos

unfoldable pub pack_word : ℤ → (buf_len : ℕ) → Packed
unfolding pack_low
pack_word = pack_low 2

unfoldable pub unpack_word : List ℕ → Exec (Option (ℤ × ℕ))
unfolding unpack_low
unpack_word = unpack_low 2 as_short

unfoldable pub pack_dword : ℤ → (buf_len : ℕ) → Packed
unfolding pack_low
pack_dword = pack_low 4

unfoldable pub unpack_dword : List ℕ → Exec (Option (ℤ × ℕ))
unfolding unpack_low
unpack_dword = unpack_low 4 as_int

-- a length of up to 254 in one byte, of up to 65534 in two after a byte 0
unfoldable pub pack_string : List ℕ → (buf_len : ℕ) → Packed
pack_string content buf_len =
    let str_len = length content in
    let str_id = str_len + 1 in
    if leb str_id 0xff
    then check_pack (str_len + 1) buf_len (packed (bytes_of 1 str_id ++ content))
    else if leb str_id 0xffff
    then check_pack (str_len + 3) buf_len (packed ((0 ∷ bytes_of 2 str_id) ++ content))
    else raised

unfoldable pub unpack_string : List ℕ → Exec (Option (List ℕ × ℕ))
unpack_string buf = check_unpack 1 buf (do
  head ← read buf 0 1
  let id = value_of head
  let short : Exec (Option (List ℕ × ℕ)) =
      if id - 1 == 0
      then ok (some ([], 1))
      else check_unpack (1 + (id - 1)) buf
          (do content ← read buf 1 (id - 1); ok (some (content, 1 + (id - 1))))
  let long : Exec (Option (List ℕ × ℕ)) = check_unpack 3 buf (do
    two ← read buf 1 2
    let str_id = value_of two
    let rest : Exec (Option (List ℕ × ℕ)) =
        check_unpack (3 + (str_id - 1)) buf
          (do content ← read buf 3 (str_id - 1); ok (some (content, 3 + (str_id - 1))))
    if str_id == 0 then ok none else rest)
  if ltb 0 id then short else long)
