-- ===== src/MultiProgress/Chunk/Finish.antt =====
-- `chunkqueue_remove_finished_chunks`
use mathlib.Core.Path.{subst}
use donkeyji.Prelude.{
  ℕ, zero, suc, ◌<◌, ◌≤◌, ◌≡◌, ◌⊎◌, refl, sym, ap, ◌∙◌, Bool, true, false, ◌||◌, some, List, [],
  ◌∷◌, arith, leb, ◌==◌, update, length, Bool-cases, inl, inr,
}
use donkeyji.Prelude.Exec.{ok, Yields, yields, Yields-map}
use donkeyji.Prelude.Chain.{null, has}
use donkeyji.MultiProgress.Buffer.{Buffer}
use donkeyji.MultiProgress.Chunk.{
  Store, is_handled, retire, finish_loop, chunkqueue_remove_finished_chunks,
}
use donkeyji.MultiProgress.Chunk.Append.{IsQueue}
use donkeyji.MultiProgress.Chunk.Retire.{
  HaveBuffers, HaveBuffers-update, chunk_reset-ok, retire-kept, retire-freed, reset-IsQueue,
  retire-mem, retire-offset,
}

-- the chunk starts at offset 0 of a buffer with nothing in it
abbrev pub IsReset : Store → ℕ → Type 0
IsReset t x = (t.offset x ≡ 0) × (b : Buffer) × (t.mem x ≡ some b) × (b.used ≡ 0)

-- the chunks of the queue are reset and gone from it: each waits for another use, or is freed; the
-- other chunks keep their offsets and buffers
pub record Emptied (s : Store) (xs us : List ℕ) (t : Store) : Type 0 where
  pub waiting : List ℕ
  pub queue : IsQueue t [] waiting
  pub accounted :
      (x : ℕ) → (has x waiting || has x t.freed) ≡ ((has x xs || has x us) || has x s.freed)
  pub bounded : (length waiting ≤ 4) ⊎ (length waiting ≤ length us)
  pub reset : (x : ℕ) → has x xs ≡ true → IsReset t x
  pub kept : (x : ℕ) → has x xs ≡ false → (t.offset x ≡ s.offset x) × (t.mem x ≡ s.mem x)

-- the first chunk is reset, and no other one changes
record ResetFirst (s : Store) (x : ℕ) (r : Store) : Type 0 where
  buffer : Buffer
  clear : buffer.used ≡ 0
  offset : r.offset ≡ update s.offset x 0
  mem : r.mem ≡ update s.mem x (some buffer)

-- a round of the loop, and then the rest of it
module _ (s : Store) (x : ℕ) (xs us : List ℕ) (r t : Store) (first : ResetFirst s x r)
    (out : has x xs ≡ false) where
  IsReset-cons : (vs : List ℕ) → Emptied r xs vs t → (y : ℕ) → has y (x ∷ xs) ≡ true → IsReset t y
  IsReset-cons vs e y m = elim (Bool-cases (y == x)) [
    | inl here ↦
        let same : y ≡ x = ground arith in
        let k = e.kept x out in
        rw same (
          ground (arith, k.0, first.offset),
          first.buffer,
          k.1 ∙ ap (λ f. f x) first.mem ∙ ground arith,
          first.clear,
        )
    | inr there ↦ e.reset y (ground arith)
  ]

  kept-cons :
      (vs : List ℕ)
      → Emptied r xs vs t
      → (y : ℕ) → has y (x ∷ xs) ≡ false
      → (t.offset y ≡ s.offset y) × (t.mem y ≡ s.mem y)
  kept-cons vs e y m =
      let k = e.kept y (ground arith) in
      (
        k.0 ∙ ap (λ f. f y) first.offset ∙ ground arith,
        k.1 ∙ ap (λ f. f y) first.mem ∙ ground arith,
      )

  Emptied-kept :
      r.freed ≡ s.freed → length us < 4 → Emptied r xs (x ∷ us) t → Emptied s (x ∷ xs) us t
  Emptied-kept same few e = record {
    waiting = e.waiting;
    queue = e.queue;
    accounted = λ y. ground (arith, e.accounted y, same);
    bounded = omega (arith, e.bounded);
    reset = IsReset-cons (x ∷ us) e;
    kept = kept-cons (x ∷ us) e;
  }

  Emptied-freed : r.freed ≡ x ∷ s.freed → Emptied r xs us t → Emptied s (x ∷ xs) us t
  Emptied-freed same e = record {
    waiting = e.waiting;
    queue = e.queue;
    accounted = λ y. ground (arith, e.accounted y, same);
    bounded = e.bounded;
    reset = IsReset-cons us e;
    kept = kept-cons us e;
  }

finish_loop-Emptied :
    (k : ℕ) (s : Store) (xs us : List ℕ)
    → length xs < k
    → IsQueue s xs us
    → HaveBuffers s.mem xs
    → Yields (Emptied s xs us) (finish_loop k true s)
unfolding finish_loop is_handled
finish_loop-Emptied zero s xs us f q h = absurd (omega arith)
finish_loop-Emptied (suc k) s [] us f q h =
    let none_left : (s.queue.head == null) ≡ true = ground (arith, q.used) in
    rw none_left (
      yields (record {
        waiting = us;
        queue = q;
        accounted = λ y. refl;
        bounded = omega arith;
        reset = λ y m. absurd (ground arith);
        kept = λ y m. (refl, refl);
      }))
finish_loop-Emptied (suc k) s (x ∷ xs) us f q h =
    subst (λ y. Yields (Emptied s (y ∷ xs) us) (finish_loop (suc k) true s)) q.used.0
      (let q' = subst (λ y. IsQueue s (y ∷ xs) us) (sym q.used.0) q in
        let h' = subst (λ y. HaveBuffers s.mem (y ∷ xs)) (sym q.used.0) h in
        let c = s.queue.head in
        let (b, at, backed) = h'.0 in
        let node : (c == null) ≡ false = ground (arith, q'.used.1) in
        let (d, reset, clear) = chunk_reset-ok s c b q'.used.1 at backed in
        let t = record s { offset = update s.offset c 0; mem = update s.mem c (some d) } in
        let clean = reset-IsQueue s (c ∷ xs) us c (some d) q' in
        let first : ResetFirst s c (retire t c) = record {
          buffer = d;
          clear = clear;
          offset = retire-offset t c;
          mem = retire-mem t c;
        } in
        let buffers : HaveBuffers (retire t c).mem xs =
          rw (retire-mem t c) (HaveBuffers-update s.mem xs c (some d) q'.used.2 h'.1) in
        rw (node, at, is_handled, reset)
          (elim (Bool-cases (leb 4 s.queue.unused_chunks)) [
            | inl many ↦
                let (out, freed) = retire-freed t c xs us clean many in
                Yields-map (finish_loop-Emptied k (retire t c) xs us (omega arith) out buffers)
                  (λ u. Emptied-freed s c xs us (retire t c) u first q'.used.2 freed)
            | inr few ↦
                let (out, freed, bound) = retire-kept t c xs us clean few in
                Yields-map
                  (finish_loop-Emptied k (retire t c) xs (c ∷ us) (omega arith) out buffers)
                  (λ u. Emptied-kept s c xs us (retire t c) u first q'.used.2 freed bound)
          ]))

-- whether the first chunk is handled
abbrev pub Handled : Store → Bool → Type 0
Handled s b = is_handled s s.queue.head ≡ ok b

-- what becomes of the queue `xs`, by whether its first chunk is handled
abbrev pub Finished : Store → (xs us : List ℕ) → Bool → Store → Type 0
Finished s xs us true t = Emptied s xs us t
Finished s xs us false t = t ≡ s

-- `chunkqueue_remove_finished_chunks` on a well-formed queue that is not empty leaves it alone if the
-- first chunk is not handled. If it is handled, the function empties the queue: all chunks are reset,
-- to offset 0 of a buffer with nothing in it, and wait for another use or are freed, whether or not
-- they are handled. Other chunks keep their offsets and buffers. At most four chunks, or as many as
-- before, then wait. Every chunk of the queue has a buffer, with memory if its size is not 0. Fuel
-- above the number of chunks is enough.
pub chunkqueue_remove_finished_chunks-Finished :
    (fuel : ℕ) (s : Store) (x : ℕ) (xs us : List ℕ) (handled : Bool)
    → IsQueue s (x ∷ xs) us
    → HaveBuffers s.mem (x ∷ xs)
    → length (x ∷ xs) < fuel
    → Handled s handled
    → Yields (Finished s (x ∷ xs) us handled) (chunkqueue_remove_finished_chunks fuel s)
unfolding chunkqueue_remove_finished_chunks
chunkqueue_remove_finished_chunks-Finished zero s x xs us handled q h f e = absurd (omega arith)
chunkqueue_remove_finished_chunks-Finished (suc k) s x xs us false q h f e =
    let node : (s.queue.head == null) ≡ false = ground (arith, q.used.0, q.used.1) in
    rw (node, e) (yields refl)
chunkqueue_remove_finished_chunks-Finished (suc k) s x xs us true q h f e =
    subst (λ r. Yields (Emptied s (x ∷ xs) us) r) same
      (finish_loop-Emptied (suc k) s (x ∷ xs) us f q h)
  where
    node : (s.queue.head == null) ≡ false
    node = ground (arith, q.used.0, q.used.1)

    -- with its first chunk handled, the loop starts as if one had been
    same : finish_loop (suc k) true s ≡ finish_loop (suc k) false s
    same = rw (node, e)
