-- ===== src/Mydb/DataFormat/Array/Loops.antt =====
-- The loops over the elements of an array, for elements whose format keeps its promise.
use mathlib.Core.Path.{subst}
use mathlib.Core.List.{append_assoc, append-nil}
use donkeyji.Prelude.{
  ℕ, zero, suc, ◌+◌, ◌-◌, ◌≤◌, ◌<◌, ◌≡◌, refl, sym, ◌∙◌, true, false, Option, some, List, [], ◌∷◌,
  ◌++◌, arith, ◌==◌, length, drop, update, length-append, drop-append, inl, inr, Bool-cases,
}
use donkeyji.Prelude.Exec.{Exec, Yields, yields, Yields-map, Yields-bind}
use donkeyji.Mydb.DataFormat.{Packed, packed, refused}
use donkeyji.Mydb.DataFormat.Array.{Value, then_pack, pack_loop, unpack_loop}

-- What a format promises for a value that takes at most `most` bytes: as `RoundTrip`, but `unpack`
-- gives a value that is alike.
pub data Packs (unpack : List ℕ → Exec (Option (Value × ℕ))) (Alike : Value → Type 0)
    (most buf_len : ℕ) : Packed → Type 0 where
  written :
      {bytes : List ℕ}
      → length bytes ≤ buf_len
      → 0 < length bytes
      → length bytes ≤ most
      → ((rest : List ℕ)
          → Yields
              (λ r. (w : Value) × (r ≡ some (w, length bytes)) × Alike w)
              (unpack (bytes ++ rest)))
      → Packs unpack Alike most buf_len (packed bytes)
  no_room : buf_len < most → Packs unpack Alike most buf_len refused

-- the bytes that `count` elements from index `i` on may take
abbrev pub total : (Value → ℕ) → (ℕ → Value) → (count i : ℕ) → ℕ
total most at zero i = 0
total most at (suc count) i = most (at i) + total most at count (i + 1)

module _ (pack_base : Value → ℕ → Packed) (unpack_base : List ℕ → Exec (Option (Value × ℕ)))
    (Fit : Value → Type 0) (Alike : Value → Value → Type 0) (most : Value → ℕ)
    (base_ok : (v : Value) (buf_len : ℕ)
      → Fit v
      → Packs unpack_base (Alike v) (most v) buf_len (pack_base v buf_len))
    (at : ℕ → Value) where
  -- the elements from `i` on are read, and those before are left
  pub record Elements (count i : ℕ) (acc : ℕ → Value) (n : ℕ) (r : Option ((ℕ → Value) × ℕ))
      : Type 0 where
    pub got : ℕ → Value
    pub value : r ≡ some (got, n)
    pub alike : (j : ℕ) → i ≤ j → j < i + count → Alike (at j) (got j)
    pub kept : (j : ℕ) → j < i → got j ≡ acc j

  pub data LoopPacks (count i buf_len : ℕ) (before : List ℕ) : Packed → Type 0 where
    loop_written :
        (whole more : List ℕ)
        → whole ≡ before ++ more
        → length whole ≤ buf_len
        → length before + count ≤ length whole
        → length whole ≤ length before + total most at count i
        → ((rest : List ℕ) (acc : ℕ → Value)
            → Yields
                (Elements count i acc (length whole))
                (unpack_loop unpack_base count i (whole ++ rest) (length before) acc))
        → LoopPacks count i buf_len before (packed whole)
    loop_no_room :
        buf_len < length before + total most at count i → LoopPacks count i buf_len before refused

  first-Alike :
      {i : ℕ} (j : ℕ) (w : Value) (got acc : ℕ → Value)
      → (j == i) ≡ true
      → Alike (at i) w
      → got j ≡ update acc i w j
      → Alike (at j) (got j)
  first-Alike {i} j w got acc same alike e =
      let is_i : j ≡ i = ground arith in
      let is_w : got i ≡ w = subst (λ k. got k ≡ update acc i w k) is_i e ∙ ground arith in
      rw (is_i, is_w) alike

  read_on :
      (count i : ℕ) (before more whole : List ℕ) (x : ℕ) (xs : List ℕ)
      → whole ≡ (before ++ (x ∷ xs)) ++ more
      → ((rest : List ℕ)
          → Yields
              (λ r. (w : Value) × (r ≡ some (w, length (x ∷ xs))) × Alike (at i) w)
              (unpack_base ((x ∷ xs) ++ rest)))
      → ((rest : List ℕ) (acc : ℕ → Value)
          → Yields (Elements count (i + 1) acc (length whole)) (
              unpack_loop unpack_base count
                (i + 1)
                (whole ++ rest)
                (length (before ++ (x ∷ xs)))
                acc))
      → (rest : List ℕ) (acc : ℕ → Value)
      → Yields
          (Elements (suc count) i acc (length whole))
          (unpack_loop unpack_base (suc count) i (whole ++ rest) (length before) acc)
  unfolding unpack_loop
  read_on count i before more whole x xs e first next rest acc =
      let here : drop (length before) (whole ++ rest) ≡ (x ∷ xs) ++ (more ++ rest) = rw (
        e,
        append_assoc (before ++ (x ∷ xs)) more rest,
        append_assoc before (x ∷ xs) (more ++ rest),
        drop-append before ((x ∷ xs) ++ (more ++ rest)),
      ) in
      let size = length-append before (x ∷ xs) in
      let some_bytes : (length (x ∷ xs) == 0) ≡ false = ground arith in
      rw here (
        Yields-bind (first (more ++ rest)) λ r (w, is_w, alike).
          rw (is_w, some_bytes, ← size)
            (Yields-map (next rest (update acc i w)) λ q y. record {
              got = y.got;
              value = y.value;
              alike = λ j p q. elim (Bool-cases (j == i)) [
                | inl same ↦ first-Alike j w y.got acc same alike (y.kept j (ground arith))
                | inr later ↦ y.alike j (ground arith) (omega arith)
              ];
              kept = λ j h. y.kept j (omega arith) ∙ ground arith;
            }))

  -- an element of `bytes`, and then the loop over the others
  after-LoopPacks :
      (count i buf_len : ℕ) (before : List ℕ) (x : ℕ) (xs : List ℕ) {p : Packed}
      → ((rest : List ℕ)
          → Yields
              (λ r. (w : Value) × (r ≡ some (w, length (x ∷ xs))) × Alike (at i) w)
              (unpack_base ((x ∷ xs) ++ rest)))
      → length (x ∷ xs) ≤ buf_len - length before
      → length (x ∷ xs) ≤ most (at i)
      → LoopPacks count (i + 1) buf_len (before ++ (x ∷ xs)) p
      → LoopPacks (suc count) i buf_len before p
  after-LoopPacks count i buf_len before x xs first fits le
        (loop_written whole more e room many bound next) =
      let size = length-append before (x ∷ xs) in
      loop_written whole ((x ∷ xs) ++ more) (e ∙ append_assoc before (x ∷ xs) more) room
        (omega (arith, size)) (omega (arith, size))
        (read_on count i before more whole x xs e first next)
  after-LoopPacks count i buf_len before x xs first fits le (loop_no_room less) =
      loop_no_room (omega (arith, length-append before (x ∷ xs)))

  next-LoopPacks :
      (count i buf_len : ℕ) (before : List ℕ) {p : Packed}
      → length before ≤ buf_len
      → Packs unpack_base (Alike (at i)) (most (at i)) (buf_len - length before) p
      → ((before' : List ℕ)
          → length before' ≤ buf_len
          → LoopPacks count
              (i + 1)
              buf_len
              before'
              (pack_loop pack_base count (i + 1) at buf_len before'))
      → LoopPacks
          (suc count)
          i
          buf_len
          before
          (then_pack p (λ bytes. pack_loop pack_base count (i + 1) at buf_len (before ++ bytes)))
  next-LoopPacks count i buf_len before room (written {bytes = []} fits some_bytes le back) next =
      absurd (omega arith)
  next-LoopPacks count i buf_len before room (written {bytes = x ∷ xs} fits some_bytes le back)
        next =
      after-LoopPacks count i buf_len before x xs back fits le
        (next (before ++ (x ∷ xs)) (omega (arith, length-append before (x ∷ xs))))
  next-LoopPacks count i buf_len before room (no_room less) next = loop_no_room (omega arith)

  pub pack_loop-LoopPacks :
      (count i buf_len : ℕ) (before : List ℕ)
      → length before ≤ buf_len
      → ((j : ℕ) → i ≤ j → j < i + count → Fit (at j))
      → LoopPacks count i buf_len before (pack_loop pack_base count i at buf_len before)
  unfolding pack_loop unpack_loop
  pack_loop-LoopPacks zero i buf_len before room fit =
      loop_written before [] (sym (append-nil before)) room (omega arith) (omega arith) λ rest acc.
        yields (record {
          got = acc;
          value = refl;
          alike = λ j p q. absurd (omega arith);
          kept = λ j h. refl;
        })
  pack_loop-LoopPacks (suc count) i buf_len before room fit =
      next-LoopPacks count i buf_len before room
        (base_ok (at i) (buf_len - length before) (fit i (omega arith) (omega arith)))
        λ before' room'.
          pack_loop-LoopPacks count (i + 1) buf_len before' room'
            (λ j p q. fit j (omega arith) (omega arith))
