-- ===== src/MultiProgress/Conn/Response.antt =====
-- multi_progress/conn.c: `_conn_write_response` with a chunk to write, and where that chunk is from.
use donkeyji.Prelude.{
  ℕ, zero, suc, ◌+◌, ◌%◌, ◌^◌, ◌<◌, ◌≤◌, ◌≡◌, ◌≢◌, refl, ap, true, false, none, some, [], arith,
  ◌==◌, update, length,
}
use donkeyji.Prelude.Exec.{ok, out_of_fuel, ◌>>=◌, Yields-value}
use donkeyji.Prelude.Chain.{null}
use donkeyji.MultiProgress.Buffer.{Buffer, size_mod, buffer_new}
use donkeyji.MultiProgress.Buffer.Append.{IsValid, buffer_append-Appended}
use donkeyji.MultiProgress.Chunk.{
  Store, chunk_new, is_handled, finish_loop, chunkqueue_append_chunk, chunkqueue_get_unused_chunk,
  chunkqueue_get_append_chunk, chunkqueue_remove_finished_chunks,
}
use donkeyji.MultiProgress.Chunk.Append.{IsQueue}
use donkeyji.MultiProgress.Conn.{World}
use donkeyji.MultiProgress.Conn.Handlers.{
  Inputs, append_read, write_loop, write_response, cgi_handle_read,
}

write_loop-stuck :
    (fuel : ℕ) (sizes : ℕ → ℕ) (s : Store) (ck : ℕ) (b : Buffer)
    → ck ≢ null
    → s.mem ck ≡ some b
    → write_loop fuel sizes s ck ≡ out_of_fuel
unfolding write_loop
write_loop-stuck zero sizes s ck b real at = refl
write_loop-stuck (suc fuel) sizes s ck b real at =
    let a_chunk : (ck == null) ≡ false = ground (arith, real) in
    rw (a_chunk, at)
      (write_loop-stuck fuel sizes
        (record s { offset = update s.offset ck ((s.offset ck + sizes fuel) % size_mod) }) ck b real
        at)

-- if the first chunk of the write queue has a buffer and is not handled yet, then
-- `_conn_write_response` does not end, whatever `bufferevent_write` returns: no fuel is enough
pub write_response-stuck :
    (fuel : ℕ) (i : Inputs) (w : World) (c : ℕ) (q : Store) (b : Buffer)
    → w.write_q c ≡ some q
    → q.queue.head ≢ null
    → q.mem q.queue.head ≡ some b
    → is_handled q q.queue.head ≡ ok false
    → write_response fuel i w c ≡ out_of_fuel
unfolding write_response chunkqueue_remove_finished_chunks finish_loop
write_response-stuck zero i w c q b queue real at fresh = rw (write_response, queue) refl
write_response-stuck (suc fuel) i w c q b queue real at fresh =
    let a_chunk : (q.queue.head == null) ≡ false = ground (arith, real) in
    rw
      (
        write_response,
        queue,
        a_chunk,
        fresh,
        write_loop-stuck (suc fuel) i.sizes q q.queue.head b real at,
      )
      refl

-- a CGI program's answer of at least two bytes, for a connection with nothing in its write queue
pub record Answer (off : ℕ) (i : Inputs) (w : World) (c : ℕ) (q : Store) : Type 0 where
  pub some_input : off ≢ 0
  pub long : 2 ≤ length i.got
  pub short : length i.got < 2 ^ 30
  pub chunk : i.fresh_chunk ≢ null
  pub returned : i.returned ≡ i.fresh_chunk
  pub memory : i.chunk_granted ≡ true
  pub more : i.granted ≡ true
  pub queue : w.write_q c ≡ some q
  pub empty : IsQueue q [] []

abbrev no_bytes : Buffer
no_bytes = record { ptr = none; size = 0; used = 0 }

-- the queue with its one new chunk, `c`
abbrev one_chunk : Store → (c : ℕ) → Store
one_chunk q c = record q {
  queue = record (q.queue) { tail = c; head = c };
  mem = update q.mem c (some no_bytes);
  next = update q.next c null;
  offset = update q.offset c 0;
}

get_append-one :
    (off : ℕ) (i : Inputs) (w : World) (c : ℕ) (q : Store)
    → Answer off i w c q
    → chunkqueue_get_append_chunk i.fresh_chunk i.chunk_granted i.returned q
      ≡ (i.fresh_chunk, one_chunk q i.fresh_chunk)
unfolding chunkqueue_get_append_chunk chunkqueue_get_unused_chunk chunkqueue_append_chunk chunk_new
    buffer_new
get_append-one off i w c q a =
    let unused : (q.queue.unused == null) ≡ true = ground (arith, a.empty.waiting) in
    let a_chunk : (i.fresh_chunk == null) ≡ false = ground (arith, a.chunk) in
    let no_tail : (q.queue.tail == null) ≡ true = ground (arith, a.empty.ends) in
    let no_head : (q.queue.head == null) ≡ true = ground (arith, a.empty.used) in
    rw (unused, a.returned, a_chunk, no_tail, no_head, a.memory) refl

no_bytes-IsValid : IsValid no_bytes
no_bytes-IsValid = record {
  within = omega arith;
  small = omega arith;
  backed = λ l. absurd (omega arith);
}

fresh_chunk-waits :
    (s : Store) (c : ℕ) (d : Buffer)
    → s.mem c ≡ some d
    → s.offset c ≡ 0
    → 2 ≤ d.used
    → d.used < 2 ^ 30
    → is_handled s c ≡ ok false
unfolding is_handled
fresh_chunk-waits s c d at start long short =
    rw (is_handled, at, start) (ap ok (ground (arith, long, short)))

-- once a CGI program has answered, with at least two and fewer than 2^30 bytes, a connection whose
-- write queue is there, has no chunk in use and none that waits for another use, the next
-- `_conn_write_response` for it does not end, whatever the fuel; provided that memory is given for the
-- new chunk, not NULL, its buffer and the bytes, and that the address of the chunk reaches the caller
-- of `chunk_new`, although that has no return statement
pub cgi_handle_read-stuck :
    (fuel off : ℕ) (i : Inputs) (w : World) (c : ℕ) (q : Store)
    → Answer off i w c q
    → (cgi_handle_read off i w c >>= λ v. write_response fuel i v c) ≡ out_of_fuel
unfolding cgi_handle_read append_read
cgi_handle_read-stuck fuel off i w c q a =
    let input : (off == 0) ≡ false = ground (arith, a.some_input) in
    let bytes : (length i.got == 0) ≡ false = ground (arith, a.long) in
    let a_chunk : (i.fresh_chunk == null) ≡ false = ground (arith, a.chunk) in
    let t = one_chunk q i.fresh_chunk in
    let at : t.mem i.fresh_chunk ≡ some no_bytes = ground arith in
    let (r, run, (done, (d, result, got))) =
      Yields-value (buffer_append-Appended no_bytes i.got no_bytes-IsValid a.short i.fresh) in
    let u = record t { mem = update t.mem i.fresh_chunk (some d) } in
    let v = record w { write_q = update w.write_q c (some u) } in
    let answered : cgi_handle_read off i w c ≡ ok v =
      rw (input, bytes, a.queue, get_append-one off i w c q a, a_chunk, at, a.more, run, result)
        refl in
    let head : u.mem u.queue.head ≡ some d = ground arith in
    let start : u.offset u.queue.head ≡ 0 = ground arith in
    let fresh : is_handled u u.queue.head ≡ ok false =
      fresh_chunk-waits u i.fresh_chunk d head start (omega (arith, got.count, a.long))
        (omega (arith, got.count, a.short)) in
    rw answered (write_response-stuck fuel i v c u d (ground arith) a.chunk head fresh)
