-- ===== src/MultiProgress/Chunk/Append.antt =====
-- `chunkqueue_get_append_chunk`, and the well-formedness of a queue.
use mathlib.Core.List.{tail}
use mathlib.Core.Path.{subst}
use donkeyji.Prelude.{
  ℕ, ◌+◌, ◌-◌, ◌%◌, ◌^◌, ◌<◌, ◌≡◌, ◌≢◌, refl, sym, ◌∙◌, Bool, true, false, List, [], ◌∷◌, ◌++◌,
  arith, ◌==◌, if◌then◌else◌, update, length, Bool-cases, inl, inr,
}
use donkeyji.Prelude.Chain.{null, has, Chain, Chain-update, Chain-eq, has-append}
use donkeyji.MultiProgress.Buffer.{size_mod}
use donkeyji.MultiProgress.Chunk.{
  Store, chunk_new, chunkqueue_get_unused_chunk, chunkqueue_append_chunk,
  chunkqueue_get_append_chunk,
}

abbrev pub last : List ℕ → ℕ
last [] = null
last (x ∷ []) = x
last (x ∷ y ∷ ys) = last (y ∷ ys)

pub has-last : (x : ℕ) (xs : List ℕ) → has (last (x ∷ xs)) (x ∷ xs) ≡ true
has-last x [] = ground arith
has-last x (y ∷ ys) = ground (arith, has-last y ys)

-- the queue holds the chunks `xs` and the unused chunks `us`, all of them different
pub record IsQueue (s : Store) (xs us : List ℕ) : Type 0 where
  pub used : Chain s.next s.queue.head xs
  pub waiting : Chain s.next s.queue.unused us
  pub apart : (x : ℕ) → has x xs ≡ true → has x us ≡ false
  pub ends : s.queue.tail ≡ last xs
  pub count : s.queue.unused_chunks ≡ length us
  pub small : length us < 2 ^ 63

Chain-has-ne :
    (next : ℕ → ℕ) (p : ℕ) (xs : List ℕ) (x : ℕ) → Chain next p xs → has x xs ≡ true → x ≢ null
Chain-has-ne next p [] x c m = cc
Chain-has-ne next p (y ∷ ys) x c m = ground (arith, c.1, Chain-has-ne next (next y) ys x c.3)

-- a chunk is linked behind the last one
Chain-snoc :
    (next : ℕ → ℕ) (p x : ℕ) (xs : List ℕ) (c : ℕ)
    → Chain next p (x ∷ xs)
    → c ≢ null
    → next c ≡ null
    → has c (x ∷ xs) ≡ false
    → Chain (update next (last (x ∷ xs)) c) p ((x ∷ xs) ++ (c ∷ []))
Chain-snoc next p x [] c h ne end out =
    let here : update next x c x ≡ c = ground arith in
    let there : update next x c c ≡ null = ground arith in
    (h.0, h.1, ground arith, rw here (refl, ne, refl, there))
Chain-snoc next p x (y ∷ ys) c h ne end out =
    let same : update next (last (y ∷ ys)) c x ≡ next x = ground (arith, has-last y ys, h.2) in
    (
      h.0,
      h.1,
      ground (arith, has-append x (y ∷ ys) (c ∷ []), h.2),
      rw same (Chain-snoc next (next x) y ys c h.3 ne end (ground arith)),
    )

last-snoc : (xs : List ℕ) (c : ℕ) → last (xs ++ (c ∷ [])) ≡ c
last-snoc [] c = refl
last-snoc (x ∷ []) c = refl
last-snoc (x ∷ y ∷ ys) c = last-snoc (y ∷ ys) c

-- a chunk of no list goes to the end of the queue
append-IsQueue :
    (s : Store) (xs us : List ℕ) (c : ℕ)
    → IsQueue s xs us
    → c ≢ null
    → s.next c ≡ null
    → has c xs ≡ false
    → has c us ≡ false
    → IsQueue (chunkqueue_append_chunk s c) (xs ++ (c ∷ [])) us
unfolding chunkqueue_append_chunk
append-IsQueue s [] us c q ne end out out' =
    let none_left : (s.queue.tail == null) ≡ true = ground (arith, q.ends) in
    let none_first : (s.queue.head == null) ≡ true = ground (arith, q.used) in
    record {
      used = rw (none_left, none_first) (refl, ne, refl, end);
      waiting = rw none_left q.waiting;
      apart = λ x m. ground arith;
      ends = refl;
      count = q.count;
      small = q.small;
    }
append-IsQueue s (x ∷ xs) us c q ne end out out' =
    let in_queue : has (last (x ∷ xs)) (x ∷ xs) ≡ true = has-last x xs in
    let some_left : (s.queue.tail == null) ≡ false =
      ground (
        arith,
        q.ends,
        in_queue,
        Chain-has-ne s.next s.queue.head (x ∷ xs) (last (x ∷ xs)) q.used,
      ) in
    let some_first : (s.queue.head == null) ≡ false = ground (arith, q.used.0, q.used.1) in
    let nexts : update s.next (last (x ∷ xs)) c ≡ (chunkqueue_append_chunk s c).next =
      rw (some_left, q.ends) in
    let heads : s.queue.head ≡ (chunkqueue_append_chunk s c).queue.head = rw some_first in
    record {
      used =
          Chain-eq ((x ∷ xs) ++ (c ∷ [])) nexts heads
            (Chain-snoc s.next s.queue.head x xs c q.used ne end out);
      waiting = Chain-eq us nexts refl (
          Chain-update s.next s.queue.unused us (last (x ∷ xs)) c q.waiting
            (q.apart (last (x ∷ xs)) in_queue));
      apart = λ y m. ground (arith, has-append y (x ∷ xs) (c ∷ []), q.apart y);
      ends = sym (last-snoc (x ∷ xs) c);
      count = q.count;
      small = q.small;
    }

freed-append : (s : Store) (c : ℕ) → (chunkqueue_append_chunk s c).freed ≡ s.freed
unfolding chunkqueue_append_chunk
freed-append s c = refl

-- the first unused chunk leaves its list
abbrev taken : Store → Store
taken s = record s {
  queue = record (s.queue) {
    unused = s.next s.queue.unused;
    unused_chunks = (s.queue.unused_chunks + (size_mod - 1)) % size_mod;
  };
  next = update s.next s.queue.unused null;
}

taken-IsQueue :
    (s : Store) (xs : List ℕ) (u : ℕ) (us : List ℕ)
    → IsQueue s xs (u ∷ us)
    → IsQueue (taken s) xs us × (has s.queue.unused xs ≡ false) × (has s.queue.unused us ≡ false)
taken-IsQueue s xs u us q = (
  record {
    used =
        Chain-update s.next s.queue.head xs s.queue.unused null q.used
          (subst (λ y. has y xs ≡ false) (sym q.waiting.0) out);
    waiting =
        Chain-update s.next (s.next s.queue.unused) us s.queue.unused null
          (subst (λ y. Chain s.next (s.next y) us) (sym q.waiting.0) q.waiting.3)
          (subst (λ y. has y us ≡ false) (sym q.waiting.0) q.waiting.2);
    apart = λ x m. ground (arith, q.apart x);
    ends = q.ends;
    count = omega (arith, q.count, q.small);
    small = omega (arith, q.small);
  },
  subst (λ y. has y xs ≡ false) (sym q.waiting.0) out,
  subst (λ y. has y us ≡ false) (sym q.waiting.0) q.waiting.2,
)
  where
    out : has u xs ≡ false
    out = elim (Bool-cases (has u xs)) [ inl m ↦ absurd (ground (arith, q.apart u)) | inr o ↦ o ]

-- what `chunkqueue_get_append_chunk` gives: a chunk that now ends the queue, the first of the unused
-- ones or, if there is none, the new one; the other chunks stay where they are
pub record GotChunk (s : Store) (xs us : List ℕ) (fresh : ℕ) (r : ℕ × Store) : Type 0 where
  pub chosen : r.0 ≡ (if s.queue.unused == null then fresh else s.queue.unused)
  pub queue : IsQueue r.1 (xs ++ (r.0 ∷ [])) (tail us)
  pub freed : r.1.freed ≡ s.freed

module _ (fresh : ℕ) (granted : Bool) (s : Store) (xs : List ℕ) where
  new-IsQueue :
      IsQueue s xs []
      → fresh ≢ null
      → has fresh xs ≡ false
      → IsQueue (chunk_new fresh granted s) xs []
        × ((chunk_new fresh granted s).next fresh ≡ null)
        × ((chunk_new fresh granted s).freed ≡ s.freed)
  unfolding chunk_new
  new-IsQueue q ne out =
      let some_fresh : (fresh == null) ≡ false = ground arith in
      rw some_fresh (
        record {
          used = Chain-update s.next s.queue.head xs fresh null q.used out;
          waiting = q.waiting;
          apart = q.apart;
          ends = q.ends;
          count = q.count;
          small = q.small;
        },
        ground arith,
        refl,
      )

  -- with no unused chunk, the new one is appended
  get_append-new :
      IsQueue s xs []
      → fresh ≢ null
      → has fresh xs ≡ false
      → GotChunk s xs [] fresh (chunkqueue_get_append_chunk fresh granted fresh s)
  unfolding chunkqueue_get_append_chunk chunkqueue_get_unused_chunk
  get_append-new q ne out =
      let no_unused : (s.queue.unused == null) ≡ true = ground (arith, q.waiting) in
      let some_fresh : (fresh == null) ≡ false = ground arith in
      let (q', end, kept) = new-IsQueue q ne out in
      rw (no_unused, some_fresh)
        (record {
          chosen = rw no_unused;
          queue = append-IsQueue (chunk_new fresh granted s) xs [] fresh q' ne end out refl;
          freed = freed-append (chunk_new fresh granted s) fresh ∙ kept;
        })

  get_append-unused :
      (u : ℕ) (us : List ℕ)
      → IsQueue s xs (u ∷ us)
      → (returned : ℕ)
      → GotChunk s xs (u ∷ us) fresh (chunkqueue_get_append_chunk fresh granted returned s)
  unfolding chunkqueue_get_append_chunk chunkqueue_get_unused_chunk
  get_append-unused u us q returned =
      let some_unused : (s.queue.unused == null) ≡ false =
        ground (arith, q.waiting.0, q.waiting.1) in
      let (q', out, out') = taken-IsQueue s xs u us q in
      let node : s.queue.unused ≢ null = ground (arith, q.waiting.0, q.waiting.1) in
      rw (some_unused, some_unused)
        (record {
          chosen = rw some_unused;
          queue = append-IsQueue (taken s) xs us s.queue.unused q' node (ground arith) out out';
          freed = freed-append (taken s) s.queue.unused;
        })

-- `malloc` gives a chunk that is not NULL and not in the queue, and its address reaches the caller of
-- `chunk_new`, although that has no return statement
pub record NewChunk (fresh returned : ℕ) (xs : List ℕ) : Type 0 where
  pub arrives : returned ≡ fresh
  pub real : fresh ≢ null
  pub apart : has fresh xs ≡ false

-- `chunkqueue_get_append_chunk` appends the first unused chunk to a well-formed queue, if there is
-- any. If there is none, it appends the new chunk, provided that `malloc` gives one, not NULL and not
-- in the queue, and that its address reaches the caller of `chunk_new`, although that has no return
-- statement.
pub chunkqueue_get_append_chunk-GotChunk :
    (fresh : ℕ) (granted : Bool) (returned : ℕ) (s : Store) (xs us : List ℕ)
    → IsQueue s xs us
    → (us ≡ [] → NewChunk fresh returned xs)
    → GotChunk s xs us fresh (chunkqueue_get_append_chunk fresh granted returned s)
chunkqueue_get_append_chunk-GotChunk fresh granted returned s xs [] q new =
    let n = new refl in rw n.arrives (get_append-new fresh granted s xs q n.real n.apart)
chunkqueue_get_append_chunk-GotChunk fresh granted returned s xs (u ∷ us) q new =
    get_append-unused fresh granted s xs u us q returned
