-- ===== src/MultiProgress/Chunk/Tests.antt =====
-- The theorems on multi_progress/chunk.c at queues that meet their hypotheses.
use donkeyji.Prelude.{ℕ, ◌≡◌, refl, true, false, some, [], ◌∷◌, arith, ◌==◌, if◌then◌else◌}
use donkeyji.Prelude.Exec.{ok, Yields}
use donkeyji.MultiProgress.Buffer.{Buffer}
use donkeyji.MultiProgress.Chunk.{
  Store, is_handled, chunkqueue_get_append_chunk, chunkqueue_remove_finished_chunks,
}
use donkeyji.MultiProgress.Chunk.Append.{IsQueue, GotChunk, chunkqueue_get_append_chunk-GotChunk}
use donkeyji.MultiProgress.Chunk.Finish.{Finished, chunkqueue_remove_finished_chunks-Finished}

abbrev bytes : ℕ → Buffer
bytes n = record { ptr = some (λ i. 0); size = 128; used = n }

-- the chunks 1 and 2 are in the queue, 3 waits; chunk 1 is empty, chunk 2 has five bytes to read
abbrev two_queued : Store
two_queued = record {
  queue = record { head = 1; tail = 2; unused = 3; unused_chunks = 1 };
  next = λ x. if x == 1 then 2 else 0;
  mem = λ x. some (bytes (if x == 1 then 0 else 5));
  offset = λ x. 0;
  freed = [];
}

two_queued-IsQueue : IsQueue two_queued (1 ∷ 2 ∷ []) (3 ∷ [])
two_queued-IsQueue = record {
  used = ground arith;
  waiting = ground arith;
  apart = λ x m. ground arith;
  ends = refl;
  count = refl;
  small = omega arith;
}

-- the same with no chunk that waits
abbrev none_waiting : Store
none_waiting = record two_queued {
  queue = record { head = 1; tail = 2; unused = 0; unused_chunks = 0 };
}

none_waiting-IsQueue : IsQueue none_waiting (1 ∷ 2 ∷ []) []
none_waiting-IsQueue = record {
  used = ground arith;
  waiting = refl;
  apart = λ x m. refl;
  ends = refl;
  count = refl;
  small = omega arith;
}

chunkqueue_get_append_chunk-GotChunk_example :
    GotChunk none_waiting (1 ∷ 2 ∷ []) [] 7 (chunkqueue_get_append_chunk 7 true 7 none_waiting)
chunkqueue_get_append_chunk-GotChunk_example =
    chunkqueue_get_append_chunk-GotChunk 7 true 7 none_waiting (1 ∷ 2 ∷ []) [] none_waiting-IsQueue
      (λ _. record { arrives = refl; real = omega arith; apart = refl })

-- chunk 1 is handled and chunk 2 is not
unread : (is_handled two_queued 1 ≡ ok true) × (is_handled two_queued 2 ≡ ok false)
unfolding is_handled
unread = (refl, refl)

-- chunk 2 leaves the queue with its five bytes unread
chunkqueue_remove_finished_chunks-Finished_example :
    Yields
      (Finished two_queued (1 ∷ 2 ∷ []) (3 ∷ []) true)
      (chunkqueue_remove_finished_chunks 3 two_queued)
chunkqueue_remove_finished_chunks-Finished_example =
    chunkqueue_remove_finished_chunks-Finished 3 two_queued 1 (2 ∷ []) (3 ∷ []) true
      two_queued-IsQueue ((bytes 0, refl, λ p e. cc), ((bytes 5, refl, λ p e. cc), tt))
      (omega arith) unread.0
