-- ===== src/Mydb/Protocol/Dispatch.antt =====
-- mydb/protocol.c, `proto_manager`: messages that come in, messages as texts, and the numbers that
-- scripts ask for. What a handler does to the manager is not part of the model.
use donkeyji.Prelude.{
  ℕ, ◌+◌, Bool, ◌&&◌, Option, none, some, List, [], ◌∷◌, ◌++◌, ltb, ◌==◌, if◌then◌else◌, update,
  length, get_elem?, drop,
}
use donkeyji.Prelude.Chain.{null}
use donkeyji.Prelude.Int.{ℤ, pos, negsuc}
use donkeyji.Prelude.Exec.{Exec, ok, fault, ◌>>=◌}
use donkeyji.Mydb.DataFormat.{Packed, packed, refused, raised, value_of, read, bytes_of}
use donkeyji.Mydb.DataFormat.Array.{Value}
use donkeyji.Mydb.Protocol.{
  Arg, NetProtocol, maxtonetd, marshal, Sent, Call, unpack_call, xynet_error_unpack_format,
}
use donkeyji.Mydb.Protocol.Names.{calc_hashnr, get_check_id}
use donkeyji.Mydb.Protocol.Manager.{Manager, next_count, at_object}

-- `_unpack_count` and `_total_unpack_count`, which `unpack` counts where there is a handler
abbrev pub count_unpack : (self : ℕ) → NetProtocol → Manager → Manager
count_unpack self p m = elim p.unpack_ref [
  | none ↦ m
  | some f ↦ record m {
    objects = update m.objects self (some (record p { unpack_count = next_count p.unpack_count }));
    total_unpack_count = next_count m.total_unpack_count;
  }
]

-- the result of `unpack_data`, from that of `unpack`
abbrev pub data_result : List Arg → (readed_len : ℕ) → ℤ → ℤ
data_result args readed_len (negsuc n) = negsuc n
data_result args readed_len (pos n) =
    if (n == 0) && ltb 0 (length args) then xynet_error_unpack_format else pos (readed_len + n)

module _ (failed : Call → Bool) where
  -- the arguments of the protocol `proto_id`, from `readed_len` on
  unfoldable pub unpack_rest :
      Manager → List ℕ → (ext : ℤ) (proto_id readed_len : ℕ) → Exec (ℤ × List Call × Manager)
  unfolding unpack_call
  unpack_rest m buf ext proto_id readed_len = elim (get_elem? m.protos proto_id) [
    | none ↦ ok (xynet_error_unpack_format, [], m)
    | some self ↦
        if self == null
        then ok (xynet_error_unpack_format, [], m)
        else at_object m self λ p. unpack_call failed p (drop readed_len buf) ext >>= λ (r, calls).
            ok (data_result p.args readed_len r, calls, count_unpack self p m)
  ]

  -- `unpack_data`; the result 0 is that of `check_buf`
  unfoldable pub unpack_data : Manager → List ℕ → (ext : ℤ) → Exec (ℤ × List Call × Manager)
  unfolding unpack_rest
  unpack_data m buf ext =
      if ltb (length buf) 1
      then ok (pos 0, [], m)
      else read buf 0 1 >>= λ head.
          let long : Exec (ℤ × List Call × Manager) =
            if ltb (length buf) 3
            then ok (pos 0, [], m)
            else read buf 1 2 >>= λ two. unpack_rest m buf ext (value_of two) 3 in
          if value_of head == 0 then long else unpack_rest m buf ext (value_of head) 1

-- the texts that `pack_protocol` returns, or `none` for a Lua error; a packer does not return -1
abbrev pub as_text : Packed → Option (List (List ℕ))
as_text (packed bytes) = some (bytes ∷ [])
as_text refused = none
as_text raised = none

unfoldable pub pack_protocol :
    (number_text : ℤ → List ℕ) (room : Bool)
    → (self : ℕ) → List Value
    → Manager
    → Exec (Option (List (List ℕ)))
unfolding marshal
pack_protocol number_text room self vs m =
    let run : Exec (Option (List (List ℕ))) =
      at_object m self (λ p. marshal number_text p vs maxtonetd >>= λ r. ok (as_text r)) in
    if room then run else ok (some [])

-- the text is copied to the MAXTONETD bytes
unfoldable pub send_pack_data : (room : Bool) → (vfd : ℤ) → List ℕ → Exec (List Sent)
send_pack_data room vfd text =
    if ltb 0 (length text) && room
    then if ltb maxtonetd (length text)
      then fault
      else ok (
          record {
            data_sent = text;
            data_len = length text;
            ext = vfd;
            ismulticast = 0;
            mcpayloadlen = 0;
          }
          ∷ [])
    else ok []

-- `stat`: the counts of sent messages and of received ones, by number
abbrev pub counts_of : (NetProtocol → ℕ) → List ℕ → Manager → Exec (List (ℕ × ℕ))
counts_of count [] m = ok []
counts_of count (a ∷ protos) m =
    at_object m a λ p. counts_of count protos m >>= λ rest. ok ((p.id, count p) ∷ rest)

unfoldable pub stat : Manager → Exec ((ℕ × List (ℕ × ℕ)) × (ℕ × List (ℕ × ℕ)))
stat m = counts_of (λ p. p.pack_count) m.protos m >>= λ packs.
    counts_of (λ p. p.unpack_count) m.protos m >>= λ unpacks.
    ok ((m.total_pack_count, packs), (m.total_unpack_count, unpacks))

-- the check numbers of all protocols, as bytes
unfoldable pub check_ids : List ℕ → Manager → Exec (List ℕ)
check_ids [] m = ok []
check_ids (a ∷ protos) m =
    (if a == null then ok 0 else at_object m a (λ p. ok (get_check_id p))) >>= λ id.
    check_ids protos m >>= λ rest. ok (bytes_of 4 id ++ rest)

unfoldable pub get_ptos_checkid : Manager → Exec ℕ
unfolding check_ids calc_hashnr
get_ptos_checkid m = check_ids m.protos m >>= λ bytes. ok (calc_hashnr bytes)
