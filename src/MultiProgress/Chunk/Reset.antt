-- ===== src/MultiProgress/Chunk/Reset.antt =====
-- `chunkqueue_reset`
use mathlib.Core.Path.{subst}
use donkeyji.Prelude.{
  ap, sym, ◌∙◌, ℕ, zero, suc, ◌+◌, ◌-◌, ◌%◌, ◌<◌, ◌≡◌, refl, true, false, Option, none, some, List,
  [], ◌∷◌, arith, ◌==◌, update, length,
}
use donkeyji.Prelude.Exec.{ok, Yields, yields, Yields-map, Yields-bind}
use donkeyji.Prelude.Chain.{null, has, Chain}
use donkeyji.MultiProgress.Buffer.{Buffer, size_mod}
use donkeyji.MultiProgress.Chunk.{
  Store, is_handled, mark_loop, chunkqueue_reset, chunkqueue_remove_finished_chunks,
}
use donkeyji.MultiProgress.Chunk.Append.{IsQueue}
use donkeyji.MultiProgress.Chunk.Retire.{HaveBuffers}
use donkeyji.MultiProgress.Chunk.Finish.{
  Emptied, Handled, chunkqueue_remove_finished_chunks-Finished,
}

-- the offset that `chunkqueue_reset` gives to a chunk with this buffer
abbrev mark_of : Option Buffer → ℕ
mark_of none = 0
mark_of (some b) = (b.used + (size_mod - 1)) % size_mod

abbrev marked : Store → ℕ → ℕ
marked s c = mark_of (s.mem c)

-- only offsets of the chunks change, to marks
record Marked (s : Store) (xs : List ℕ) (t : Store) : Type 0 where
  same : t ≡ record s { offset = t.offset }
  stay : (y : ℕ) → s.offset y ≡ marked s y → t.offset y ≡ marked s y
  others : (y : ℕ) → has y xs ≡ false → t.offset y ≡ s.offset y

mark_loop-Marked :
    (k : ℕ) (s : Store) (c : ℕ) (xs : List ℕ)
    → Chain s.next c xs
    → HaveBuffers s.mem xs
    → length xs < k
    → Yields (Marked s xs) (mark_loop k s c)
unfolding mark_loop
mark_loop-Marked zero s c xs h m f = absurd (omega arith)
mark_loop-Marked (suc k) s c [] h m f =
    rw h (yields (record { same = refl; stay = λ y e. e; others = λ y o. refl }))
mark_loop-Marked (suc k) s c (x ∷ xs) h m f =
    let some_node : (x == null) ≡ false = ground (arith, h.1) in
    let (b, at, backed) = m.0 in
    let mark = (b.used + (size_mod - 1)) % size_mod in
    let is_mark : marked s x ≡ mark = ap mark_of at in
    subst (λ p. Yields (Marked s (x ∷ xs)) (mark_loop (suc k) s p)) (sym h.0)
      (rw (some_node, at)
        (Yields-map
          (mark_loop-Marked k (record s { offset = update s.offset x mark }) (s.next x) xs h.3 m.1
            (omega arith))
          λ t r. record {
            same = r.same;
            stay = λ y e. r.stay y (ground (arith, is_mark));
            others = λ y o. r.others y (ground arith) ∙ ground arith;
          }))

-- the first chunk is marked, too
abbrev FirstMarked : (s : Store) (x : ℕ) (xs : List ℕ) → Store → Type 0
FirstMarked s x xs t = Marked s (x ∷ xs) t × (t.offset x ≡ marked s x)

-- its offset is set in the first round, and no later round undoes that
first_marked :
    (k : ℕ) (s : Store) (x : ℕ) (xs : List ℕ)
    → Chain s.next s.queue.head (x ∷ xs)
    → HaveBuffers s.mem (x ∷ xs)
    → length (x ∷ xs) < k
    → Yields (FirstMarked s x xs) (mark_loop k s s.queue.head)
unfolding mark_loop
first_marked zero s x xs h m f = absurd (omega arith)
first_marked (suc k) s x xs h m f =
    let some_node : (x == null) ≡ false = ground (arith, h.1) in
    let (b, at, backed) = m.0 in
    let mark = (b.used + (size_mod - 1)) % size_mod in
    let is_mark : marked s x ≡ mark = ap mark_of at in
    let set : update s.offset x mark x ≡ marked s x = ground (arith, is_mark) in
    subst (λ p. Yields (FirstMarked s x xs) (mark_loop (suc k) s p)) (sym h.0)
      (rw (some_node, at)
        (Yields-map
          (mark_loop-Marked k (record s { offset = update s.offset x mark }) (s.next x) xs h.3 m.1
            (omega arith))
          λ t r. (
            record {
              same = r.same;
              stay = λ y e. r.stay y (ground (arith, is_mark));
              others = λ y o. r.others y (ground arith) ∙ ground arith;
            },
            r.stay x set,
          )))

marked-Handled :
    (s : Store) (o : ℕ → ℕ) (x : ℕ) (b : Buffer)
    → s.queue.head ≡ x
    → s.mem x ≡ some b
    → o x ≡ marked s x
    → Handled (record s { offset = o }) true
unfolding is_handled
marked-Handled s o x b first at e =
    let is_mark : o x ≡ (b.used + (size_mod - 1)) % size_mod = e ∙ ap mark_of at in
    rw (first, at) (ap ok (ground (arith, is_mark)))

-- `chunkqueue_reset` of a well-formed queue whose chunks have buffers empties it: all chunks are
-- reset, and wait for another use or are freed; other chunks keep their offsets and buffers. At most
-- four chunks, or as many as before, then wait. Fuel above the number of chunks is enough.
pub chunkqueue_reset-Emptied :
    (fuel : ℕ) (s : Store) (x : ℕ) (xs us : List ℕ)
    → IsQueue s (x ∷ xs) us
    → HaveBuffers s.mem (x ∷ xs)
    → length (x ∷ xs) < fuel
    → Yields (Emptied s (x ∷ xs) us) (chunkqueue_reset fuel s)
unfolding chunkqueue_reset
chunkqueue_reset-Emptied fuel s x xs us q m f =
    Yields-bind (first_marked fuel s x xs q.used m f) λ t (r, set).
      let (b, at, backed) = m.0 in
      subst (λ u. Yields (Emptied s (x ∷ xs) us) (chunkqueue_remove_finished_chunks fuel u))
        (sym r.same)
        (Yields-map
          (chunkqueue_remove_finished_chunks-Finished fuel (record s { offset = t.offset }) x xs us
            true
            (record {
              used = q.used;
              waiting = q.waiting;
              apart = q.apart;
              ends = q.ends;
              count = q.count;
              small = q.small;
            })
            m f (marked-Handled s t.offset x b q.used.0 at set))
          λ u e. record {
            waiting = e.waiting;
            queue = e.queue;
            accounted = e.accounted;
            bounded = e.bounded;
            reset = e.reset;
            kept = λ y o. ((e.kept y o).0 ∙ r.others y o, (e.kept y o).1);
          })
