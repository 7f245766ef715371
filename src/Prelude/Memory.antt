-- ===== src/Prelude/Memory.antt =====
-- Memory as a function on offsets, its bytes, and `memcpy` and `memmove`.
use native.Mathlib.Nat.{add-zero, zero-add, suc-add}
use Prim.Native.Nat.{ℕ, zero, suc, ◌+◌, ◌-◌, ◌<◌, ◌≤◌}
use mathlib.Core.Path.{◌≡◌, refl, ap, ◌∙◌}
use mathlib.Core.Bool.{◌&&◌}
use mathlib.Core.List.{List, [], ◌∷◌, ◌++◌}
use native.Mathlib.Omega.{arith}
use donkeyji.Prelude.Tests.{ltb, leb, if◌then◌else◌}
use donkeyji.Prelude.Lists.{length, drop}
use donkeyji.Prelude.Update.{update}

-- the bytes written to offset `i` on
unfoldable pub memcpy : (ℕ → ℕ) → ℕ → List ℕ → ℕ → ℕ
memcpy m i [] = m
memcpy m i (x ∷ xs) = memcpy (update m i x) (i + 1) xs

-- `n` bytes from offset `src` copied to offset `dst`, as if all were read first
unfoldable pub memmove : (ℕ → ℕ) → (dst src n : ℕ) → ℕ → ℕ
memmove m dst src n j = if leb dst j && ltb j (dst + n) then m (src + (j - dst)) else m j

-- `n` bytes from offset `i` on
abbrev pub bytes_at : (ℕ → ℕ) → ℕ → ℕ → List ℕ
bytes_at m i zero = []
bytes_at m i (suc n) = m i ∷ bytes_at m (i + 1) n

pub length-bytes_at : (m : ℕ → ℕ) (i n : ℕ) → length (bytes_at m i n) ≡ n
length-bytes_at m i zero = refl
length-bytes_at m i (suc n) = ap suc (length-bytes_at m (i + 1) n)

-- a copy leaves the bytes before it
pub memcpy-before : (m : ℕ → ℕ) (i : ℕ) (xs : List ℕ) (j : ℕ) → j < i → memcpy m i xs j ≡ m j
unfolding memcpy
memcpy-before m i [] j h = refl
memcpy-before m i (x ∷ xs) j h =
    memcpy-before (update m i x) (i + 1) xs j (omega arith) ∙ ground arith

pub bytes_at-memcpy_before :
    (m : ℕ → ℕ) (xs : List ℕ) (k i n : ℕ)
    → k + n ≤ i
    → bytes_at (memcpy m i xs) k n ≡ bytes_at m k n
bytes_at-memcpy_before m xs k i zero h = refl
bytes_at-memcpy_before m xs k i (suc n) h =
    rw (memcpy-before m i xs k (omega arith), bytes_at-memcpy_before m xs (k + 1) i n (omega arith))

pub bytes_at-memcpy :
    (m : ℕ → ℕ) (i : ℕ) (xs : List ℕ) → bytes_at (memcpy m i xs) i (length xs) ≡ xs
unfolding memcpy
bytes_at-memcpy m i [] = refl
bytes_at-memcpy m i (x ∷ xs) =
    rw
      (
        memcpy-before (update m i x) (i + 1) xs i (omega arith),
        bytes_at-memcpy (update m i x) (i + 1) xs,
      )
      (ground arith)

pub bytes_at-append :
    (m : ℕ → ℕ) (i n k : ℕ) → bytes_at m i (n + k) ≡ bytes_at m i n ++ bytes_at m (i + n) k
bytes_at-append m i zero k = rw (zero-add k, add-zero i)
bytes_at-append m i (suc n) k =
    let shift : i + suc n ≡ i + 1 + n = omega arith in
    rw (suc-add n k, shift) (ap (◌∷◌ (m i)) (bytes_at-append m (i + 1) n k))

-- memory that is the same byte by byte
pub bytes_at-same :
    (m m' : ℕ → ℕ) (i j n : ℕ)
    → ((k : ℕ) → k < n → m (i + k) ≡ m' (j + k))
    → bytes_at m i n ≡ bytes_at m' j n
bytes_at-same m m' i j zero h = refl
bytes_at-same m m' i j (suc n) h =
    let first : m i ≡ m' j = ground (arith, h 0) in
    rw (first, bytes_at-same m m' (i + 1) (j + 1) n (λ k p. ground (arith, h (suc k))))

pub bytes_at-memmove :
    (m : ℕ → ℕ) (dst src n : ℕ) → bytes_at (memmove m dst src n) dst n ≡ bytes_at m src n
unfolding memmove
bytes_at-memmove m dst src n = bytes_at-same (memmove m dst src n) m dst src n (λ k p. ground arith)

pub drop-bytes_at :
    (m : ℕ → ℕ) (i n k : ℕ) → k ≤ n → drop k (bytes_at m i n) ≡ bytes_at m (i + k) (n - k)
drop-bytes_at m i n zero h =
    let here : i + 0 ≡ i = omega arith in let whole : n - 0 ≡ n = omega arith in rw (here, whole)
drop-bytes_at m i zero (suc k) h = absurd (omega arith)
drop-bytes_at m i (suc n) (suc k) h =
    let here : i + suc k ≡ i + 1 + k = omega arith in
    let left : suc n - suc k ≡ n - k = omega arith in
    rw (here, left) (drop-bytes_at m (i + 1) n k (omega arith))
