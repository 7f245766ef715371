-- ===== src/Mydb/DataFormat/String.antt =====
-- The format of strings.
use mathlib.Core.List.{append_assoc}
use donkeyji.Prelude.{
  ℕ, ◌+◌, ◌-◌, ◌%◌, ◌^◌, ◌≤◌, ◌<◌, ◌≡◌, refl, sym, true, false, Option, some, List, [], ◌∷◌, ◌++◌,
  arith, ltb, leb, ◌==◌, length, take, drop, length-append, inl, inr, Bool-cases,
}
use donkeyji.Prelude.Exec.{Exec, ok, Yields, yields, Yields-if}
use donkeyji.Mydb.DataFormat.{raised, bytes_of, value_of, pack_string, unpack_string}
use donkeyji.Mydb.DataFormat.Bytes.{
  length-bytes_of, value_of-bytes_of1, value_of-bytes_of2, read-append, read-ok, RoundTrip,
  RoundTrip-if, Within, check_pack-RoundTrip, check_unpack-Within,
}

value_of-zero : value_of (0 ∷ []) ≡ 0
unfolding value_of
value_of-zero = refl

empty : (str : List ℕ) → length str ≡ 0 → str ≡ []
empty [] e = refl
empty (x ∷ str) e = absurd (omega arith)

ok_pair :
    (str : List ℕ) {m n : ℕ}
    → m ≡ n
    → Path (Exec (Option (List ℕ × ℕ))) (ok (some (str, m))) (ok (some (str, n)))
ok_pair str e = rw e

module _ (str : List ℕ) (rest : List ℕ) where
  abbrev id : ℕ
  id = length str + 1

  unpack-short :
      id ≤ 255 → unpack_string ((bytes_of 1 id ++ str) ++ rest) ≡ ok (some (str, length str + 1))
  unfolding unpack_string
  unpack-short small =
      let whole = length-append (bytes_of 1 id) (str ++ rest) in
      let size = length-bytes_of 1 id in
      let some_bytes : ltb (length (bytes_of 1 id ++ (str ++ rest))) 1 ≡ false =
        ground (arith, whole, size) in
      let head : id % 256 ≡ id = omega arith in
      let is_short : ltb 0 id ≡ true = ground arith in
      let body : id - 1 ≡ length str = omega arith in
      let room : ltb (length (bytes_of 1 id ++ (str ++ rest))) (1 + length str) ≡ false =
        ground (arith, whole, size, length-append str rest) in
      rw
        (
          append_assoc (bytes_of 1 id) str rest,
          some_bytes,
          read-append [] (bytes_of 1 id) (str ++ rest) 0 1 refl (sym size),
          value_of-bytes_of1 id,
          head,
          is_short,
          body,
          room,
          read-append (bytes_of 1 id) str rest 1 (length str) (sym size) refl,
        )
        (elim (Bool-cases (length str == 0)) [
          | inl e ↦ rw (e, empty str (ground arith))
          | inr e ↦ rw e (ok_pair str (omega arith))
        ])

  unpack-long :
      id ≤ 65535
      → unpack_string (((0 ∷ bytes_of 2 id) ++ str) ++ rest) ≡ ok (some (str, length str + 3))
  unfolding unpack_string
  unpack-long small =
      let buf = 0 ∷ (bytes_of 2 id ++ (str ++ rest)) in
      let whole = length-append (bytes_of 2 id) (str ++ rest) in
      let size = length-bytes_of 2 id in
      let some_bytes : ltb (length buf) 1 ≡ false = ground arith in
      let three : ltb (length buf) 3 ≡ false = ground (arith, whole, size) in
      let value : id % 2 ^ 16 ≡ id = omega arith in
      let some_id : (id == 0) ≡ false = ground arith in
      let body : id - 1 ≡ length str = omega arith in
      let room : ltb (length buf) (3 + length str) ≡ false =
        ground (arith, whole, size, length-append str rest) in
      rw
        (
          append_assoc (bytes_of 2 id) str rest,
          some_bytes,
          read-append [] (0 ∷ []) (bytes_of 2 id ++ (str ++ rest)) 0 1 refl refl,
          value_of-zero,
          three,
          read-append (0 ∷ []) (bytes_of 2 id) (str ++ rest) 1 2 refl (sym size),
          value_of-bytes_of2 id,
          value,
          some_id,
          body,
          room,
          read-append (0 ∷ bytes_of 2 id) str rest 3 (length str) (omega (arith, size)) refl,
        )
        (ok_pair str (omega arith))

-- `fcall_string_arg` for a string of at most 65534 bytes: `pack` takes at most three bytes more than
-- the string has, fits in the buffer, and refuses only if fewer are left; `unpack` gives the string
-- back, whatever bytes follow
pub pack_string-RoundTrip :
    (str : List ℕ) (buf_len : ℕ)
    → length str < 65535
    → RoundTrip unpack_string str (length str + 3) buf_len (pack_string str buf_len)
unfolding pack_string
pack_string-RoundTrip str buf_len h =
    let size1 = length-append (bytes_of 1 (length str + 1)) str in
    let size2 = length-append (bytes_of 2 (length str + 1)) str in
    let short : length (bytes_of 1 (length str + 1) ++ str) ≡ length str + 1 =
      omega (arith, size1, length-bytes_of 1 (length str + 1)) in
    let long : length ((0 ∷ bytes_of 2 (length str + 1)) ++ str) ≡ length str + 3 =
      omega (arith, size2, length-bytes_of 2 (length str + 1)) in
    RoundTrip-if (leb (length str + 1) 0xff)
      (λ le.
        check_pack-RoundTrip (length str + 3) buf_len (length str + 1) _ short (omega arith)
          (omega arith) (λ rest. rw short (unpack-short str rest (ground arith))))
      λ _.
        RoundTrip-if (leb (length str + 1) 0xffff)
          (λ le.
            check_pack-RoundTrip (length str + 3) buf_len (length str + 3) _ long (omega arith)
              (omega arith) (λ rest. rw long (unpack-long str rest (ground arith))))
          (λ more. absurd (ground arith))

-- a string of more than 65534 bytes is an error in Lua, whatever the buffer
pub pack_string-raised :
    (str : List ℕ) (buf_len : ℕ) → 65535 ≤ length str → pack_string str buf_len ≡ raised
unfolding pack_string
pack_string-raised str buf_len h = ground arith

-- `unpack` of strings, on any bytes, reads none past the buffer, and takes no more than there are
pub unpack_string-Within : (buf : List ℕ) → Yields (Within buf) (unpack_string buf)
unfolding unpack_string
unpack_string-Within buf = check_unpack-Within 1 buf λ one. rw (read-ok buf 0 1 one) (
    Yields-if (ltb 0 (value_of (take 1 buf)))
      (λ short.
        Yields-if (value_of (take 1 buf) - 1 == 0) (λ _. yields (omega arith, one))
          (λ _. check_unpack-Within (1 + (value_of (take 1 buf) - 1)) buf λ room.
            rw (read-ok buf 1 (value_of (take 1 buf) - 1) room) (yields (omega arith, room))))
      (λ long. check_unpack-Within 3 buf λ three. rw (read-ok buf 1 2 three) (
        Yields-if (value_of (take 2 (drop 1 buf)) == 0) (λ _. yields tt)
          (λ _. check_unpack-Within (3 + (value_of (take 2 (drop 1 buf)) - 1)) buf λ room.
            rw (read-ok buf 3 (value_of (take 2 (drop 1 buf)) - 1) room)
              (yields (omega arith, room))))))
