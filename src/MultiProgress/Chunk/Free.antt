-- ===== src/MultiProgress/Chunk/Free.antt =====
-- `chunkqueue_free`
use donkeyji.Prelude.{
  ℕ, zero, suc, ◌<◌, ◌≡◌, Bool, true, false, List, [], ◌∷◌, arith, ◌==◌, if◌then◌else◌, length,
}
use donkeyji.Prelude.Exec.{ok, fault}
use donkeyji.Prelude.Chain.{null, Chain}
use donkeyji.MultiProgress.Chunk.{
  Store, chunk_free, free_used_loop, free_unused_loop, chunkqueue_free,
}
use donkeyji.MultiProgress.Chunk.Append.{IsQueue}

-- the chunks given back, the last one first
abbrev pub freed_all : List ℕ → List ℕ → List ℕ
freed_all [] fs = fs
freed_all (x ∷ xs) fs = freed_all xs (x ∷ fs)

free_used_loop_lem :
    (k : ℕ) (s : Store) (p : ℕ) (xs : List ℕ)
    → Chain s.next p xs
    → length xs < k
    → free_used_loop k s p ≡ ok (record s { freed = freed_all xs s.freed })
unfolding free_used_loop chunk_free
free_used_loop_lem zero s p xs c f = absurd (omega arith)
free_used_loop_lem (suc k) s p [] c f = rw c
free_used_loop_lem (suc k) s p (x ∷ xs) c f =
    let node : (x == null) ≡ false = ground (arith, c.1) in
    rw (c.0, node)
      (free_used_loop_lem k (record s { freed = x ∷ s.freed }) (s.next x) xs c.3 (omega arith))

-- every second chunk, from the first on
abbrev pub every_second : List ℕ → List ℕ
every_second [] = []
every_second (x ∷ []) = x ∷ []
every_second (x ∷ y ∷ xs) = x ∷ every_second xs

abbrev pub is_odd : List ℕ → Bool
is_odd [] = false
is_odd (x ∷ []) = true
is_odd (x ∷ y ∷ xs) = is_odd xs

free_unused_loop_lem :
    (k : ℕ) (s : Store) (p : ℕ) (us : List ℕ)
    → Chain s.next p us
    → length us < k
    → free_unused_loop k s p
      ≡ (if is_odd us then fault else ok (record s { freed = freed_all (every_second us) s.freed }))
unfolding free_unused_loop chunk_free
free_unused_loop_lem zero s p us c f = absurd (omega arith)
free_unused_loop_lem (suc k) s p [] c f = rw c
free_unused_loop_lem (suc k) s p (x ∷ []) c f =
    let node : (x == null) ≡ false = ground (arith, c.1) in rw (c.0, node, c.3)
free_unused_loop_lem (suc k) s p (x ∷ y ∷ us) c f =
    let node : (x == null) ≡ false = ground (arith, c.1) in
    let second : (s.next x == null) ≡ false = ground (arith, c.3.0, c.3.1) in
    rw (c.0, node, second, c.3.0)
      (free_unused_loop_lem k (record s { freed = x ∷ s.freed }) (s.next y) us c.3.3 (omega arith))

-- `chunkqueue_free` of a well-formed queue frees the chunks of the queue. With an odd number of unused
-- chunks it then reads through NULL; of an even number it frees every second one only.
pub chunkqueue_free_lem :
    (fuel : ℕ) (s : Store) (xs us : List ℕ)
    → IsQueue s xs us
    → length xs < fuel
    → length us < fuel
    → chunkqueue_free fuel s ≡ (
        if is_odd us
        then fault
        else ok (record s { freed = freed_all (every_second us) (freed_all xs s.freed) }))
unfolding chunkqueue_free
chunkqueue_free_lem fuel s xs us q f g = rw (free_used_loop_lem fuel s s.queue.head xs q.used f) (
    free_unused_loop_lem fuel (record s { freed = freed_all xs s.freed }) s.queue.unused us
      q.waiting g)
