-- ===== src/MultiProgress/Chunk.antt =====
-- multi_progress/chunk.c: queues of chunks, with the chunks that wait for another use.
-- A chunk is its address and 0 is NULL; `next`, `mem` and `offset` give the fields of every chunk.
-- `chunk_new` and `chunkqueue_new` have no return statement, so what their callers receive is an
-- argument here, `returned`. `off_t` is read as the 64 bits of its pattern. Loops over the chunks
-- run on fuel, which is enough if it exceeds their number.
pub mod Append
pub mod Retire
pub mod Finish
pub mod Free
pub mod Reset
mod Tests
use donkeyji.Prelude.{
  ℕ, zero, suc, ◌+◌, ◌-◌, ◌%◌, ◌^◌, Bool, true, false, ◌||◌, Option, none, some, List, [], ◌∷◌,
  ◌++◌, leb, ◌==◌, if◌then◌else◌, update,
}
use donkeyji.Prelude.Exec.{Exec, ok, fault, out_of_fuel, ◌>>=◌}
use donkeyji.Prelude.Chain.{null}
use donkeyji.MultiProgress.Buffer.{Buffer, size_mod, buffer_new, buffer_reset}

pub record ChunkQueue : Type 0 where
  pub head : ℕ
  pub tail : ℕ
  pub unused : ℕ
  pub unused_chunks : ℕ

-- a queue and the chunks; `freed` has the chunks given to `chunk_free`, the last one first
pub record Store : Type 0 where
  pub queue : ChunkQueue
  pub next : ℕ → ℕ
  pub mem : ℕ → Option Buffer
  pub offset : ℕ → ℕ
  pub freed : List ℕ

-- `fresh` is what `malloc` returns; `granted` is whether `buffer_new` gets memory
unfoldable pub chunk_new : (fresh : ℕ) → (granted : Bool) → Store → Store
chunk_new fresh granted s = if fresh == null then s else record s {
  mem = update s.mem fresh (buffer_new granted);
  next = update s.next fresh null;
  offset = update s.offset fresh 0;
}

-- the chunk and its buffer are given back
unfoldable pub chunk_free : Store → ℕ → Store
chunk_free s c = if c == null then s else record s { freed = c ∷ s.freed }

unfoldable pub chunk_reset : Store → ℕ → Exec Store
chunk_reset s c = if c == null then ok s else do
  b ← buffer_reset (s.mem c)
  ok (record s { offset = update s.offset c 0; mem = update s.mem c b })

abbrev pub empty_queue : ChunkQueue
empty_queue = record { head = null; tail = null; unused = null; unused_chunks = 0 }

-- `granted` is whether `malloc` has the memory
unfoldable pub chunkqueue_new : (granted : Bool) → Store → Store
chunkqueue_new granted s = if granted then record s { queue = empty_queue } else s

unfoldable pub chunkqueue_get_unused_chunk :
    (fresh : ℕ) → (granted : Bool) → (returned : ℕ) → Store → ℕ × Store
chunkqueue_get_unused_chunk fresh granted returned s =
    let c = s.queue.unused in
    if c == null then (returned, chunk_new fresh granted s) else (
      c,
      record s {
        queue = record (s.queue) {
          unused = s.next c;
          unused_chunks = (s.queue.unused_chunks + (size_mod - 1)) % size_mod;
        };
        next = update s.next c null;
      },
    )

unfoldable pub chunkqueue_append_chunk : Store → ℕ → Store
chunkqueue_append_chunk s c =
    let next = if s.queue.tail == null then s.next else update s.next s.queue.tail c in
    let head = if s.queue.head == null then c else s.queue.head in
    record s { queue = record (s.queue) { tail = c; head = head }; next = next }

-- 0 for NULL, or the chunk that now ends the queue
unfoldable pub chunkqueue_get_append_chunk :
    (fresh : ℕ) → (granted : Bool) → (returned : ℕ) → Store → ℕ × Store
chunkqueue_get_append_chunk fresh granted returned s =
    let (c, t) = chunkqueue_get_unused_chunk fresh granted returned s in
    if c == null then (null, t) else (c, chunkqueue_append_chunk t c)

-- `c->mem->used == 0 || c->offset == c->mem->used - 1`
unfoldable pub is_handled : Store → ℕ → Exec Bool
is_handled s c = elim (s.mem c) [
  | none ↦ fault
  | some b ↦ ok (b.used == 0 || s.offset c == (b.used + (size_mod - 1)) % size_mod)
]

-- the chunk at the head leaves the queue
unfoldable pub retire : Store → ℕ → Store
unfolding chunk_free
retire s c =
    let tail = if c == s.queue.tail then null else s.queue.tail in
    let out = record s { queue = record (s.queue) { head = s.next c; tail = tail } } in
    if leb 4 s.queue.unused_chunks then chunk_free out c else record out {
      next = update s.next c s.queue.unused;
      queue = record (out.queue) {
        unused = c;
        unused_chunks = (s.queue.unused_chunks + 1) % size_mod;
      };
    }

-- `is_finished` is set once and not cleared for the next chunk
unfoldable pub finish_loop : ℕ → Bool → Store → Exec Store
finish_loop zero is_finished s = out_of_fuel
finish_loop (suc k) is_finished s =
    let c = s.queue.head in
    let round : Exec Store = do
      handled ← is_handled s c
      let remove : Exec Store = do t ← chunk_reset s c; finish_loop k true (retire t c)
      if is_finished || handled then remove else ok s
    in if c == null then ok s else round

unfoldable pub chunkqueue_remove_finished_chunks : (fuel : ℕ) → Store → Exec Store
unfolding finish_loop
chunkqueue_remove_finished_chunks fuel s = finish_loop fuel false s

-- `c->offset = c->mem->used-1` from chunk `c` on
unfoldable pub mark_loop : ℕ → Store → ℕ → Exec Store
mark_loop zero s c = out_of_fuel
mark_loop (suc k) s c =
    let mark : Exec Store = elim (s.mem c) [
      | none ↦ fault
      | some b ↦
          mark_loop k
            (record s { offset = update s.offset c ((b.used + (size_mod - 1)) % size_mod) })
            (s.next c)
    ] in
    if c == null then ok s else mark

unfoldable pub chunkqueue_reset : (fuel : ℕ) → Store → Exec Store
unfolding mark_loop
chunkqueue_reset fuel s = mark_loop fuel s s.queue.head >>= chunkqueue_remove_finished_chunks fuel

-- the first loop of `chunkqueue_free`: every chunk from `c` on
unfoldable pub free_used_loop : ℕ → Store → ℕ → Exec Store
free_used_loop zero s c = out_of_fuel
free_used_loop (suc k) s c =
    let rest = free_used_loop k (chunk_free s c) (s.next c) in if c == null then ok s else rest

-- the second loop: its body steps to the next chunk, and so does its head, `c = c->next`
unfoldable pub free_unused_loop : ℕ → Store → ℕ → Exec Store
free_unused_loop zero s c = out_of_fuel
free_unused_loop (suc k) s c =
    let tmp = s.next c in
    let rest = free_unused_loop k (chunk_free s c) (s.next tmp) in
    if c == null then ok s else if tmp == null then fault else rest

unfoldable pub chunkqueue_free : (fuel : ℕ) → Store → Exec Store
unfolding free_used_loop free_unused_loop
chunkqueue_free fuel s = do
  t ← free_used_loop fuel s s.queue.head
  free_unused_loop fuel t t.queue.unused
