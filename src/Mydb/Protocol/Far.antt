-- ===== src/Mydb/Protocol/Far.antt =====
-- A call of a function of `for_caller`, to the handler of the process that it names.
use donkeyji.Prelude.{
  ℕ, ◌+◌, ◌≤◌, ◌<◌, ◌^◌, ◌≡◌, refl, Bool, true, false, Option, none, some, List, [], ◌∷◌, ◌++◌,
  arith, ltb, ◌==◌, length, get_elem?,
}
use donkeyji.Prelude.Chain.{null}
use donkeyji.Prelude.Int.{ℤ}
use donkeyji.Prelude.Exec.{ok, Yields, yields, Yields-bind, Yields-value}
use donkeyji.Mydb.DataFormat.{Packed}
use donkeyji.Mydb.DataFormat.Array.{Value}
use donkeyji.Mydb.Protocol.{
  NetProtocol, maxtonetd, unicast, Sent, reached, send_unicast, when_packed, pack_call, Call,
}
use donkeyji.Mydb.Protocol.Load.{rawget}
use donkeyji.Mydb.Protocol.Manager.{Manager, at_object, call_far}
use donkeyji.Mydb.Protocol.Dispatch.{unpack_data}
use donkeyji.Mydb.Protocol.Message.{FitsAll, most_all}
use donkeyji.Mydb.Protocol.RoundTrip.{Handled, Delivered, delivered, too_long, unpack_data-marshal}

module _ (failed : Call → Bool) (m : Manager) (self f : ℕ) (q : NetProtocol) (from : ℤ)
    (vs : List Value) where
  -- one message, to one destination, which is handled whatever follows it; or a Lua error, as there is
  -- no room
  pub data Arrives (to : ℤ) : Option (List Sent) → Type 0 where
    arrives :
        {s : Sent}
        → s.ext ≡ to
        → s.ismulticast ≡ 0
        → s.data_len ≡ length s.data_sent
        → s.data_len ≤ maxtonetd
        → ((rest : List ℕ)
            → Yields
                (Handled failed m self f q from vs s.data_len)
                (unpack_data failed m (s.data_sent ++ rest) from))
        → Arrives to (some (s ∷ []))
    not_sent : maxtonetd < 3 + most_all q.args vs → Arrives to none

  Delivered-Arrives :
      (to : ℤ) {p : Packed}
      → Delivered failed m self f q from vs maxtonetd p
      → Yields (Arrives to) (when_packed (ok p) λ bytes. some (send_unicast bytes to))
  unfolding send_unicast
  Delivered-Arrives to (delivered {bytes} fits some_bytes handled) =
      let some_sent : ltb 0 (length bytes) ≡ true = ground arith in
      rw some_sent (yields (arrives refl refl refl fits handled))
  Delivered-Arrives to (too_long less) = yields (not_sent less)

  -- A call of a function of `for_caller` with a destination over VFD_NULL, by a protocol of a number from
  -- 1 to 65535 and values that fit, with memory for the message, sends one message of at most MAXTONETD
  -- bytes to that destination, or ends in a Lua error as there is no room. A process with a protocol of
  -- that number and of these formats calls its handler for the message with values alike.
  pub call_far-Arrives :
      (number_text : ℤ → List ℕ) (name : List ℕ) (to : ℤ) (sender : Manager) (at id : ℕ)
      (p : NetProtocol)
      → rawget name sender.world.for_caller ≡ some at
      → sender.objects at ≡ some p
      → reached to ≡ true
      → p.id ≡ id
      → 0 < id
      → id < 2 ^ 16
      → p.args ≡ q.args
      → FitsAll q.args vs
      → get_elem? m.protos id ≡ some self
      → (self == null) ≡ false
      → m.objects self ≡ some q
      → q.unpack_ref ≡ some f
      → Yields (λ out. Arrives to out.0) (call_far number_text true name (unicast to) vs sender)
  unfolding call_far pack_call
  call_far-Arrives number_text name to sender at id p bound object far is_id some_id small same fits
        entry not_null target handler =
      let (r, e, d) = Yields-value (
        unpack_data-marshal failed m self f q from vs id entry not_null target handler some_id small
          number_text p maxtonetd is_id same fits (omega arith)) in
      rw (call_far, bound, at_object, object, pack_call, far, e)
        (Yields-bind (Delivered-Arrives to d) λ sent a. yields a)
