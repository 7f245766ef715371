-- ===== src/Mydb/DataFormat/Number.antt =====
-- The formats of numbers.
use donkeyji.Prelude.{
  ℕ, ◌+◌, ◌-◌, ◌*◌, ◌/◌, ◌%◌, ◌^◌, ◌<◌, ◌≡◌, ◌≢◌, take, refl, sym, length-append, false, ◌||◌, some,
  List, [], ◌∷◌, ◌++◌, arith, ltb, leb, ◌==◌, if◌then◌else◌, length,
}
use donkeyji.Prelude.Int.{ℤ, pos, negsuc}
use donkeyji.Prelude.Exec.{ok, Yields, yields, Yields-if}
use donkeyji.Mydb.DataFormat.{
  check_pack, packed, bytes_of, value_of, bits_of, as_int, as_short, magnitude, is_negative,
  number_bytes, pack_number, unpack_number, pack_low, unpack_low, pack_byte, unpack_byte, pack_word,
  unpack_word, pack_dword, unpack_dword,
}
use donkeyji.Mydb.DataFormat.Bytes.{
  length-bytes_of, value_of-bytes_of1, value_of-bytes_of2, value_of-bytes_of3, value_of-bytes_of4,
  read-append, read-ok, RoundTrip, Within, check_pack-RoundTrip, check_unpack-Within, RoundTrip-if,
}

-- an `int` that has a negative: not -2^31
abbrev pub IsInt : ℤ → Type 0
IsInt (pos n) = n < 2 ^ 31
IsInt (negsuc n) = n + 1 < 2 ^ 31

abbrev pub IsShort : ℤ → Type 0
IsShort (pos n) = n < 2 ^ 15
IsShort (negsuc n) = n < 2 ^ 15

value_of-single : (x : ℕ) → value_of (x ∷ []) ≡ x
unfolding value_of
value_of-single x = omega arith

-- the sign and the magnitude make the number
signed-magnitude :
    (num : ℤ) (len : ℕ)
    → IsInt num
    → as_int (
        if (is_negative num + 2 * len) % 2 == 0
        then magnitude num
        else (2 ^ 32 - magnitude num) % 2 ^ 32)
      ≡ num
unfolding as_int magnitude
signed-magnitude (pos n) len h = ground arith
signed-magnitude (negsuc n) len h = ground arith

magnitude_small : (num : ℤ) → leb (magnitude num) 0xffff_ffff ≢ false
unfolding magnitude
magnitude_small (pos n) e = ground arith
magnitude_small (negsuc n) e = ground arith

-- an `int`
abbrev pub Is32 : ℤ → Type 0
Is32 (pos n) = n < 2 ^ 31
Is32 (negsuc n) = n < 2 ^ 31

as_short-bits : (num : ℤ) → IsShort num → as_short (bits_of num % 2 ^ 16) ≡ num
unfolding as_short bits_of
as_short-bits (pos n) h = ground arith
as_short-bits (negsuc n) h = ground arith

as_int-bits : (num : ℤ) → Is32 num → as_int (bits_of num % 2 ^ 32) ≡ num
unfolding as_int bits_of
as_int-bits (pos n) h = ground arith
as_int-bits (negsuc n) h = ground arith

half_head : (num : ℤ) (len : ℕ) → (is_negative num + 2 * len) / 2 ≡ len
half_head (pos n) len = omega arith
half_head (negsuc n) len = omega arith

unpack_number-number_bytes :
    (num : ℤ) (len : ℕ) (rest : List ℕ)
    → IsInt num
    → 0 < len
    → len < 5
    → value_of (bytes_of len (magnitude num)) ≡ magnitude num
    → unpack_number (number_bytes num len ++ rest) ≡ ok (some (num, 1 + len))
unfolding unpack_number number_bytes
unpack_number-number_bytes num len rest h p q e =
    let head = is_negative num + 2 * len in
    let bytes = bytes_of len (magnitude num) in
    let none_less : ltb (length (head ∷ (bytes ++ rest))) 1 ≡ false = ground arith in
    let valid : (len == 0 || leb 5 len) ≡ false = ground arith in
    let room : ltb (length (head ∷ (bytes ++ rest))) (1 + len) ≡ false =
      ground (arith, length-append bytes rest, length-bytes_of len (magnitude num)) in
    rw (
      none_less,
      read-append [] (head ∷ []) (bytes ++ rest) 0 1 refl refl,
      value_of-single head,
      half_head num len,
      valid,
      room,
      read-append (head ∷ []) bytes rest 1 len refl (sym (length-bytes_of len (magnitude num))),
      e,
      signed-magnitude num len h,
    )

write-RoundTrip :
    (num : ℤ) (len buf_len : ℕ)
    → IsInt num
    → 0 < len
    → len < 5
    → value_of (bytes_of len (magnitude num)) ≡ magnitude num
    → RoundTrip unpack_number num 5 buf_len
        (check_pack (1 + len) buf_len (packed (number_bytes num len)))
unfolding number_bytes
write-RoundTrip num len buf_len h p q e =
    let size : length (number_bytes num len) ≡ 1 + len =
      omega (arith, length-bytes_of len (magnitude num)) in
    check_pack-RoundTrip 5 buf_len (1 + len) (number_bytes num len) size (omega arith) (omega arith)
      (λ rest. rw size (unpack_number-number_bytes num len rest h p q e))

-- `fcall_number_arg` for an `int` that is not -2^31: `pack` takes at most five bytes, fits in the
-- buffer, and refuses only if fewer than five are left; `unpack` gives the number back.
pub pack_number-RoundTrip :
    (num : ℤ) (buf_len : ℕ)
    → IsInt num
    → RoundTrip unpack_number num 5 buf_len (pack_number num buf_len)
unfolding pack_number
pack_number-RoundTrip num buf_len h =
    let m = magnitude num in
    RoundTrip-if (leb m 0xff)
      (λ le.
        write-RoundTrip num 1 buf_len h (omega arith) (omega arith)
          (ground (arith, value_of-bytes_of1 m)))
      λ _.
        RoundTrip-if (leb m 0xffff)
          (λ le.
            write-RoundTrip num 2 buf_len h (omega arith) (omega arith)
              (ground (arith, value_of-bytes_of2 m)))
          λ _.
            RoundTrip-if (leb m 0xff_ffff)
              (λ le.
                write-RoundTrip num 3 buf_len h (omega arith) (omega arith)
                  (ground (arith, value_of-bytes_of3 m)))
              λ _.
                RoundTrip-if (leb m 0xffff_ffff)
                  (λ le.
                    write-RoundTrip num 4 buf_len h (omega arith) (omega arith)
                      (ground (arith, value_of-bytes_of4 m)))
                  (λ more. absurd (magnitude_small num more))

low-RoundTrip :
    (k : ℕ) (cast : ℕ → ℤ) (num : ℤ) (buf_len : ℕ)
    → 0 < k
    → cast (value_of (bytes_of k (bits_of num))) ≡ num
    → RoundTrip (unpack_low k cast) num k buf_len (pack_low k num buf_len)
unfolding pack_low unpack_low
low-RoundTrip k cast num buf_len p e =
    let bytes = bytes_of k (bits_of num) in
    let size = length-bytes_of k (bits_of num) in
    check_pack-RoundTrip k buf_len k bytes size p (omega arith) (λ rest.
      let room : ltb (length (bytes ++ rest)) k ≡ false =
        ground (arith, length-append bytes rest, size) in
      rw (room, read-append [] bytes rest 0 k refl (sym size), e, size))

-- `fcall_byte_arg` packs a number below 256 in one byte of the buffer, refuses only if none is left,
-- and gives the number back
pub pack_byte-RoundTrip :
    (num buf_len : ℕ)
    → num < 256
    → RoundTrip unpack_byte (pos num) 1 buf_len (pack_byte (pos num) buf_len)
unfolding pack_byte unpack_byte bits_of
pack_byte-RoundTrip num buf_len h =
    low-RoundTrip 1 pos (pos num) buf_len (omega arith) (rw value_of-bytes_of1 (ground arith))

-- `fcall_word_arg` packs a signed number of 16 bits inside the buffer, refuses only if fewer than two
-- bytes are left, and gives the number back
pub pack_word-RoundTrip :
    (num : ℤ) (buf_len : ℕ)
    → IsShort num
    → RoundTrip unpack_word num 2 buf_len (pack_word num buf_len)
unfolding pack_word unpack_word
pack_word-RoundTrip num buf_len h =
    low-RoundTrip 2 as_short num buf_len (omega arith)
      (rw (value_of-bytes_of2 (bits_of num)) (as_short-bits num h))

-- `fcall_dword_arg` packs an `int` inside the buffer, refuses only if fewer than four bytes are left,
-- and gives the number back
pub pack_dword-RoundTrip :
    (num : ℤ) (buf_len : ℕ)
    → Is32 num
    → RoundTrip unpack_dword num 4 buf_len (pack_dword num buf_len)
unfolding pack_dword unpack_dword
pack_dword-RoundTrip num buf_len h =
    low-RoundTrip 4 as_int num buf_len (omega arith)
      (rw (value_of-bytes_of4 (bits_of num)) (as_int-bits num h))

low-Within :
    (k : ℕ) (cast : ℕ → ℤ) (buf : List ℕ) → 0 < k → Yields (Within buf) (unpack_low k cast buf)
unfolding unpack_low
low-Within k cast buf p =
    check_unpack-Within k buf λ room. rw (read-ok buf 0 k (omega (arith, room))) (yields (p, room))

-- `fcall_number_arg::unpack`, on any bytes, reads none past the buffer, and takes at least one byte and
-- no more than there are, or returns 0
pub unpack_number-Within : (buf : List ℕ) → Yields (Within buf) (unpack_number buf)
unfolding unpack_number
unpack_number-Within buf = check_unpack-Within 1 buf λ one. rw (read-ok buf 0 1 one) (
    Yields-if (value_of (take 1 buf) / 2 == 0 || leb 5 (value_of (take 1 buf) / 2)) (λ _. yields tt)
      (λ _.
        check_unpack-Within (1 + value_of (take 1 buf) / 2) buf
          λ room. rw (read-ok buf 1 (value_of (take 1 buf) / 2) room) (yields (omega arith, room))))

pub unpack_byte-Within : (buf : List ℕ) → Yields (Within buf) (unpack_byte buf)
unfolding unpack_byte
unpack_byte-Within buf = low-Within 1 pos buf (omega arith)

pub unpack_word-Within : (buf : List ℕ) → Yields (Within buf) (unpack_word buf)
unfolding unpack_word
unpack_word-Within buf = low-Within 2 as_short buf (omega arith)

pub unpack_dword-Within : (buf : List ℕ) → Yields (Within buf) (unpack_dword buf)
unfolding unpack_dword
unpack_dword-Within buf = low-Within 4 as_int buf (omega arith)
