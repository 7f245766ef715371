-- ===== src/MultiProgress/Chunk/Retire.antt =====
-- multi_progress/chunk.c: a chunk is reset and retired.
use donkeyji.Prelude.{
  ℕ, ◌<◌, ◌≡◌, ◌≢◌, refl, sym, true, false, Option, none, some, List, [], ◌∷◌, arith, ltb, leb,
  ◌==◌, if◌then◌else◌, update, length, Bool-cases, Option-cases, inl, inr,
}
use donkeyji.Prelude.Exec.{ok}
use donkeyji.Prelude.Chain.{null, has, Chain-update, Chain-eq}
use donkeyji.MultiProgress.Buffer.{Buffer, buffer_reset, clear_first}
use donkeyji.MultiProgress.Chunk.{Store, chunk_free, chunk_reset, retire}
use donkeyji.MultiProgress.Chunk.Append.{last, has-last, IsQueue}

-- every chunk has a buffer, and a buffer of some size has memory
abbrev pub HaveBuffers : (ℕ → Option Buffer) → List ℕ → Type 0
HaveBuffers mem [] = Unit {0}
HaveBuffers mem (x ∷ xs) =
    ((b : Buffer) × (mem x ≡ some b) × (0 < b.size → b.ptr ≢ none)) × HaveBuffers mem xs

pub HaveBuffers-update :
    (mem : ℕ → Option Buffer) (xs : List ℕ) (c : ℕ) (b : Option Buffer)
    → has c xs ≡ false
    → HaveBuffers mem xs
    → HaveBuffers (update mem c b) xs
HaveBuffers-update mem [] c b out h = tt
HaveBuffers-update mem (x ∷ xs) c b out h =
    let (d, at, backed) = h.0 in
    ((d, ground arith, backed), HaveBuffers-update mem xs c b (ground arith) h.1)

buffer_reset-ok :
    (b : Buffer)
    → (0 < b.size → b.ptr ≢ none)
    → (c : Buffer) × (buffer_reset (some b) ≡ ok (some c)) × (c.used ≡ 0)
unfolding buffer_reset clear_first
buffer_reset-ok b backed = elim (Bool-cases (ltb 0 b.size)) [
  | inr empty ↦ (record b { used = 0 }, rw empty, refl)
  | inl full ↦ elim (Option-cases b.ptr) [
    | inl unset ↦ absurd (backed (ground arith) unset)
    | inr (m, set) ↦ (
      record { ptr = some (update m 0 0); size = b.size; used = 0 },
      rw (full, clear_first, set),
      refl,
    )
  ]
]

pub chunk_reset-ok :
    (s : Store) (c : ℕ) (b : Buffer)
    → c ≢ null
    → s.mem c ≡ some b
    → (0 < b.size → b.ptr ≢ none)
    → (d : Buffer) × (chunk_reset s c
        ≡ ok (record s { offset = update s.offset c 0; mem = update s.mem c (some d) }))
      × (d.used ≡ 0)
unfolding chunk_reset
chunk_reset-ok s c b ne at backed =
    let node : (c == null) ≡ false = ground arith in
    let (d, e, clear) = buffer_reset-ok b backed in (d, rw (node, at, e), clear)

tail_moves :
    (s : Store) (x : ℕ) (xs us : List ℕ)
    → IsQueue s (x ∷ xs) us
    → (if x == s.queue.tail then null else s.queue.tail) ≡ last xs
tail_moves s x [] us q = ground (arith, q.ends)
tail_moves s x (y ∷ ys) us q = ground (arith, q.ends, q.used.2, has-last y ys)

module _ (s : Store) (x : ℕ) (xs us : List ℕ) (q : IsQueue s (x ∷ xs) us) where
  not_waiting : has x us ≡ false
  not_waiting = q.apart x (ground arith)

  pub retire-kept :
      leb 4 s.queue.unused_chunks ≡ false
      → IsQueue (retire s x) xs (x ∷ us) × ((retire s x).freed ≡ s.freed) × (length us < 4)
  unfolding retire
  retire-kept few =
      let here : update s.next x s.queue.unused x ≡ s.queue.unused = ground arith in
      rw few (
        record {
          used = Chain-update s.next (s.next x) xs x s.queue.unused q.used.3 q.used.2;
          waiting = (
            refl,
            q.used.1,
            not_waiting,
            Chain-eq us refl (sym here)
                (Chain-update s.next s.queue.unused us x s.queue.unused q.waiting not_waiting),
          );
          apart = λ y m. ground (arith, q.apart y, q.used.2);
          ends = tail_moves s x xs us q;
          count = omega (arith, q.count, q.small);
          small = ground (arith, q.count);
        },
        refl,
        ground (arith, q.count),
      )

  pub retire-freed :
      leb 4 s.queue.unused_chunks ≡ true
      → IsQueue (retire s x) xs us × ((retire s x).freed ≡ x ∷ s.freed)
  unfolding retire chunk_free
  retire-freed many =
      let node : (x == null) ≡ false = ground (arith, q.used.1) in
      rw (many, node)
        (
          record {
            used = q.used.3;
            waiting = q.waiting;
            apart = λ y m. q.apart y (ground arith);
            ends = tail_moves s x xs us q;
            count = q.count;
            small = q.small;
          },
          refl,
        )

pub reset-IsQueue :
    (s : Store) (xs us : List ℕ) (c : ℕ) (d : Option Buffer)
    → IsQueue s xs us
    → IsQueue (record s { offset = update s.offset c 0; mem = update s.mem c d }) xs us
reset-IsQueue s xs us c d q = record {
  used = q.used;
  waiting = q.waiting;
  apart = q.apart;
  ends = q.ends;
  count = q.count;
  small = q.small;
}

pub retire-mem : (s : Store) (x : ℕ) → (retire s x).mem ≡ s.mem
unfolding retire chunk_free
retire-mem s x = elim (Bool-cases (leb 4 s.queue.unused_chunks)) [
  | inl many ↦ elim (Bool-cases (x == null)) [ inl e ↦ rw (many, e) | inr e ↦ rw (many, e) ]
  | inr few ↦ rw few
]

pub retire-offset : (s : Store) (x : ℕ) → (retire s x).offset ≡ s.offset
unfolding retire chunk_free
retire-offset s x = elim (Bool-cases (leb 4 s.queue.unused_chunks)) [
  | inl many ↦ elim (Bool-cases (x == null)) [ inl e ↦ rw (many, e) | inr e ↦ rw (many, e) ]
  | inr few ↦ rw few
]
