-- ===== src/Mydb/DataFormat/Bytes.antt =====
-- Numbers as bytes, and reads of a buffer.
use donkeyji.Prelude.{
  ℕ, zero, suc, ◌+◌, ◌/◌, ◌%◌, ◌^◌, ◌≤◌, ◌<◌, ◌≡◌, refl, Bool, List, ◌++◌, arith, ltb,
  if◌then◌else◌, length, take, drop, take-append, drop-append, length-append, true, false, Option,
  none, some, inl, inr, Bool-cases,
}
use donkeyji.Prelude.Exec.{Exec, ok, Yields, yields, Yields-if}
use donkeyji.Mydb.DataFormat.{
  Packed, packed, refused, bytes_of, value_of, read, check_pack, check_unpack,
}

pub length-bytes_of : (k n : ℕ) → length (bytes_of k n) ≡ k
unfolding bytes_of
length-bytes_of zero n = refl
length-bytes_of (suc k) n = omega (arith, length-bytes_of k (n / 256))

-- the bytes of a number of up to four bytes give it back
pub value_of-bytes_of1 : (n : ℕ) → value_of (bytes_of 1 n) ≡ n % 256
unfolding bytes_of value_of
value_of-bytes_of1 n = omega arith

pub value_of-bytes_of2 : (n : ℕ) → value_of (bytes_of 2 n) ≡ n % 2 ^ 16
unfolding bytes_of value_of
value_of-bytes_of2 n = omega arith

pub value_of-bytes_of3 : (n : ℕ) → value_of (bytes_of 3 n) ≡ n % 2 ^ 24
unfolding bytes_of value_of
value_of-bytes_of3 n = omega arith

pub value_of-bytes_of4 : (n : ℕ) → value_of (bytes_of 4 n) ≡ n % 2 ^ 32
unfolding bytes_of value_of
value_of-bytes_of4 n = omega arith

pub read-ok :
    (buf : List ℕ) (i n : ℕ) → i + n ≤ length buf → read buf i n ≡ ok (take n (drop i buf))
unfolding read
read-ok buf i n h = ground arith

-- what was written after `xs` is read there
pub read-append :
    (xs ys zs : List ℕ) (i n : ℕ)
    → i ≡ length xs
    → n ≡ length ys
    → read (xs ++ (ys ++ zs)) i n ≡ ok ys
read-append xs ys zs i n e f = rw (
  e,
  f,
  read-ok (xs ++ (ys ++ zs)) (length xs) (length ys)
      (omega (arith, length-append xs (ys ++ zs), length-append ys zs)),
  drop-append xs (ys ++ zs),
  take-append ys zs,
)

-- What a format promises for the value `x`, which takes at most `most` bytes: `pack` fits in the
-- `buf_len` bytes, and `unpack` gives `x` and the length back, whatever follows; or it refuses, with
-- fewer than `most` bytes to be had.
pub data RoundTrip {ℓ} {A : Type ℓ} (unpack : List ℕ → Exec (Option (A × ℕ))) (x : A)
    (most buf_len : ℕ) : Packed → Type ℓ where
  written :
      {bytes : List ℕ}
      → length bytes ≤ buf_len
      → 0 < length bytes
      → length bytes ≤ most
      → ((rest : List ℕ) → unpack (bytes ++ rest) ≡ ok (some (x, length bytes)))
      → RoundTrip unpack x most buf_len (packed bytes)
  no_room : buf_len < most → RoundTrip unpack x most buf_len refused

-- the bytes taken are there
abbrev pub Within {ℓ} : {A : Type ℓ} → List ℕ → Option (A × ℕ) → Type 0
Within buf none = Unit {0}
Within buf (some (x, readed_len)) = (0 < readed_len) × (readed_len ≤ length buf)

pub check_pack-RoundTrip {ℓ} :
    {A : Type ℓ} {unpack : List ℕ → Exec (Option (A × ℕ))} {x : A} (most buf_len used_len : ℕ)
    (bytes : List ℕ)
    → length bytes ≡ used_len
    → 0 < used_len
    → used_len ≤ most
    → ((rest : List ℕ) → unpack (bytes ++ rest) ≡ ok (some (x, length bytes)))
    → RoundTrip unpack x most buf_len (check_pack used_len buf_len (packed bytes))
check_pack-RoundTrip most buf_len used_len bytes size some_used le back =
    elim (Bool-cases (ltb buf_len used_len)) [
      | inl less ↦ rw less (no_room (ground arith))
      | inr room ↦ rw room (written (ground arith) (omega arith) (omega arith) back)
    ]

-- `check_buf` lets `unpack` go on only if the bytes are there
pub check_unpack-Within {ℓ} :
    {A : Type ℓ} (n : ℕ) (buf : List ℕ) {run : Exec (Option (A × ℕ))}
    → (n ≤ length buf → Yields (Within buf) run)
    → Yields (Within buf) (check_unpack n buf run)
check_unpack-Within n buf run =
    Yields-if (ltb (length buf) n) (λ _. yields tt) (λ room. run (ground arith))

pub RoundTrip-if {ℓ} :
    {A : Type ℓ} {unpack : List ℕ → Exec (Option (A × ℕ))} {x : A} {most buf_len : ℕ} {p q : Packed}
    (test : Bool)
    → (test ≡ true → RoundTrip unpack x most buf_len p)
    → (test ≡ false → RoundTrip unpack x most buf_len q)
    → RoundTrip unpack x most buf_len (if test then p else q)
RoundTrip-if true on off = on refl
RoundTrip-if false on off = off refl
