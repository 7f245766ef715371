-- ===== src/MultiProgress/Conn/Tests.antt =====
-- Runs of multi_progress/conn.c: a manager of three connections with two in use.
use donkeyji.Prelude.{◌+◌, ◌≡◌, refl, true, none, [], ◌∷◌, arith}
use donkeyji.Prelude.Int.{pos}
use donkeyji.Prelude.Exec.{out_of_fuel, ◌>>=◌, Yields}
use donkeyji.MultiProgress.Chunk.Append.{IsQueue}
use donkeyji.MultiProgress.Conn.{conn_mgr_add_conn, conn_mgr_del_conn}
use donkeyji.MultiProgress.Conn.Handlers.{Inputs, write_response, cgi_handle_read}
use donkeyji.MultiProgress.Conn.Add.{Added, conn_mgr_add_conn-Added}
use donkeyji.MultiProgress.Conn.Delete.{Deleted, conn_mgr_del_conn-Deleted}
use donkeyji.MultiProgress.Conn.Response.{Answer, cgi_handle_read-stuck}
use donkeyji.MultiProgress.Conn.Sample.{no_chunks, three, three-Managed, three-FreshConns}

no_chunks-IsQueue : IsQueue no_chunks [] []
no_chunks-IsQueue = record {
  used = refl;
  waiting = refl;
  apart = λ x m. refl;
  ends = refl;
  count = refl;
  small = omega arith;
}

conn_mgr_add_conn-Added_example :
    Yields
      (Added three (pos 7) 50)
      (conn_mgr_add_conn (λ c. (none, none)) (λ i. i + 100) 50 three (pos 7))
conn_mgr_add_conn-Added_example =
    conn_mgr_add_conn-Added (λ c. (none, none)) (λ i. i + 100) 50 three (pos 7) three-Managed
      three-FreshConns (omega arith)

conn_mgr_del_conn-Deleted_example : Yields (Deleted three 0) (conn_mgr_del_conn 5 three 1)
conn_mgr_del_conn-Deleted_example =
    conn_mgr_del_conn-Deleted 5 three 0 three-Managed (omega arith) tt
      ([], [], no_chunks-IsQueue, tt, omega arith)

abbrev inputs : Inputs
inputs = record {
  got = 104 ∷ 105 ∷ [];
  fresh_chunk = 9;
  chunk_granted = true;
  returned = 9;
  granted = true;
  fresh = λ i. 0;
  sizes = λ i. 0;
}

three-Answer : Answer 2 inputs three 1 no_chunks
three-Answer = record {
  some_input = ground arith;
  long = omega arith;
  short = omega arith;
  chunk = ground arith;
  returned = refl;
  memory = refl;
  more = refl;
  queue = refl;
  empty = no_chunks-IsQueue;
}

cgi_handle_read-stuck_example :
    (cgi_handle_read 2 inputs three 1 >>= λ v. write_response 100 inputs v 1) ≡ out_of_fuel
cgi_handle_read-stuck_example = cgi_handle_read-stuck 100 2 inputs three 1 no_chunks three-Answer
