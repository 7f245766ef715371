-- ===== src/MultiProgress/Conn/Handlers.antt =====
-- multi_progress/conn.c: the handlers of a connection's events and of those of its CGI program.
use donkeyji.Prelude.{
  ℕ, zero, suc, ◌+◌, ◌%◌, Bool, true, false, Option, none, some, List, ◌∷◌, ◌==◌, if◌then◌else◌,
  update, length,
}
use donkeyji.Prelude.Int.{ℤ}
use donkeyji.Prelude.Exec.{Exec, ok, fault, out_of_fuel, ◌>>=◌}
use donkeyji.Prelude.Chain.{null}
use donkeyji.MultiProgress.Buffer.{Buffer, size_mod, buffer_append}
use donkeyji.MultiProgress.Chunk.{
  Store, chunkqueue_get_append_chunk, chunkqueue_remove_finished_chunks,
}
use donkeyji.MultiProgress.Conn.{World, conn_mgr_del_conn}

-- what a handler gets from outside: the bytes that `bufferevent_read` delivers, whether memory is
-- granted to a chunk and to a buffer, with the addresses and the contents that come with it, and what
-- `bufferevent_write` returns, as a `size_t`, in each round
pub record Inputs : Type 0 where
  pub got : List ℕ
  pub fresh_chunk : ℕ
  pub chunk_granted : Bool
  pub returned : ℕ
  pub granted : Bool
  pub fresh : ℕ → ℕ
  pub sizes : ℕ → ℕ

-- a NULL buffer
abbrev is_none : Option Buffer → Bool
is_none none = true
is_none (some b) = false

-- the bytes go to the end of the queue, in the chunk's buffer, which the log line reads; `false` is
-- the early return without a chunk
unfoldable pub append_read : Inputs → Option Store → Exec (Bool × Option Store)
append_read i none = fault
append_read i (some q) =
    let (c, t) = chunkqueue_get_append_chunk i.fresh_chunk i.chunk_granted i.returned q in
    let append : Exec (Bool × Option Store) = do
      (_, b) ← buffer_append i.granted i.fresh (t.mem c) i.got
      if is_none b then fault else ok (true, some (record t { mem = update t.mem c b }))
    in if c == null then ok (false, some t) else append

-- the loop of `_conn_write_response` at chunk `ck`, whose end does not step to the next chunk
unfoldable pub write_loop : ℕ → (sizes : ℕ → ℕ) → Store → (ck : ℕ) → Exec Store
write_loop zero sizes s ck = out_of_fuel
write_loop (suc k) sizes s ck =
    let rest =
      write_loop k sizes
        (record s { offset = update s.offset ck ((s.offset ck + sizes k) % size_mod) }) ck in
    let write : Exec Store = elim (s.mem ck) [ none ↦ fault | some b ↦ rest ] in
    if ck == null then ok s else write

-- `_conn_write_response`, which ends with the write of `hello`
unfoldable pub write_response : (fuel : ℕ) → Inputs → World → ℕ → Exec World
unfolding write_loop
write_response fuel i w c = elim (w.write_q c) [
  | none ↦ fault
  | some q ↦ do
    t ← chunkqueue_remove_finished_chunks fuel q
    u ← write_loop fuel i.sizes t t.queue.head
    ok (record w { write_q = update w.write_q c (some u) })
]

-- how `pipe` and `fork` end; in the child `execve` has failed, since else nothing of the program goes
-- on there
pub data Spawn : Type 0 where
  no_pipe : Spawn
  no_child : Spawn
  in_child : (read_end : ℤ) → Spawn
  in_parent : (write_end : ℤ) → Spawn

-- `_conn_parse_request`: the connection itself is not touched
unfoldable pub parse_request : Spawn → World → World
parse_request no_pipe w = w
parse_request no_child w = w
parse_request (in_child read_end) w = record w { closed = read_end ∷ w.closed }
parse_request (in_parent write_end) w = record w { closed = write_end ∷ w.closed }

-- `_conn_process_read`
unfoldable pub process_read : (fuel : ℕ) → Inputs → Spawn → World → ℕ → Exec World
process_read fuel i spawn w c = elim (w.read_q c) [
  | none ↦ fault
  | some q ↦ do
    t ← chunkqueue_remove_finished_chunks fuel q
    write_response fuel i (parse_request spawn (record w { read_q = update w.read_q c (some t) })) c
]

-- `_conn_handle_read`; `off` is the length of the event's input
unfoldable pub handle_read : (fuel : ℕ) → (off : ℕ) → Inputs → Spawn → World → ℕ → Exec World
handle_read fuel off i spawn w c =
    let read : Exec World = do
      (appended, q) ← append_read i (w.read_q c)
      let v = record w { read_q = update w.read_q c q }
      if appended then process_read fuel i spawn v c else ok v
    in if off == 0 then ok w else if length i.got == 0 then ok w else read

-- `_conn_handle_err`
unfoldable pub handle_err : (fuel : ℕ) → World → ℕ → Exec World
handle_err fuel w c = conn_mgr_del_conn fuel w c

-- `_cgi_handle_read`
unfoldable pub cgi_handle_read : (off : ℕ) → Inputs → World → ℕ → Exec World
unfolding append_read
cgi_handle_read off i w c =
    let read : Exec World = do
      (_, q) ← append_read i (w.write_q c)
      ok (record w { write_q = update w.write_q c q })
    in if off == 0 then ok w else if length i.got == 0 then ok w else read

-- `_cgi_handle_err`
unfoldable pub cgi_handle_err : World → (bev : ℕ) → World
cgi_handle_err w bev = record w { freed_bevs = bev ∷ w.freed_bevs }
