-- ===== src/Mydb/Protocol/RoundTrip.antt =====
-- A message from `marshal` to the handler of the process that receives it.
use mathlib.Core.List.{append_assoc, append-nil}
use donkeyji.Prelude.{
  ℕ, ◌+◌, ◌^◌, ◌≤◌, ◌<◌, ◌≡◌, refl, subst, Bool, true, false, ◌&&◌, ◌||◌, some, List, [], ◌∷◌, ◌++◌,
  arith, ltb, ◌==◌, if◌then◌else◌, length, drop, length-append, get_elem?, inl, inr, Bool-cases,
}
use donkeyji.Prelude.Chain.{null}
use donkeyji.Prelude.Int.{ℤ, pos}
use donkeyji.Prelude.Exec.{ok, Yields, yields, Yields-bind}
use donkeyji.Mydb.DataFormat.{Packed, packed, raised, bytes_of, value_of, read}
use donkeyji.Mydb.DataFormat.Bytes.{
  value_of-bytes_of1, value_of-bytes_of2, length-bytes_of, read-append,
}
use donkeyji.Mydb.DataFormat.Array.{Value}
use donkeyji.Mydb.Protocol.{
  NetProtocol, marshal_id, marshal, marshal_loop, Call, unpack_call, xynet_error_unpack_script,
}
use donkeyji.Mydb.Protocol.Manager.{Manager, at_object}
use donkeyji.Mydb.Protocol.Dispatch.{count_unpack, data_result, unpack_rest, unpack_data}
use donkeyji.Mydb.Protocol.Message.{
  FitsAll, AlikeAll, most_all, ReadsAll, Marshals, marshalled, no_space, marshal_loop-Marshals,
}

zero_value : (value_of (0 ∷ []) == 0) ≡ true
unfolding value_of
zero_value = refl

module _ (failed : Call → Bool) (m : Manager) (self f : ℕ) (q : NetProtocol) (ext : ℤ)
    (vs : List Value) where
  -- the handler `f` was called with values alike, and the result is the length of the message, or
  -- tells that the handler failed
  pub record Handled (len : ℕ) (out : ℤ × List Call × Manager) : Type 0 where
    pub got : List Value
    pub alike : AlikeAll q.args vs got
    pub called : out.1 ≡ record { handler = f; vfd = ext; values = got } ∷ []
    pub result : out.0 ≡ (
        if failed (record { handler = f; vfd = ext; values = got })
        then xynet_error_unpack_script
        else pos len)
    pub counted : out.2 ≡ count_unpack self q m

  abbrev call_of : List Value → Call
  call_of ws = record { handler = f; vfd = ext; values = ws }

  abbrev status_of : List Value → (n : ℕ) → ℤ
  status_of ws n = if failed (call_of ws) then xynet_error_unpack_script else pos n

  abbrev Called : (n : ℕ) → ℤ × List Call → Type 0
  Called n out =
      (ws : List Value) × AlikeAll q.args vs ws × (out ≡ (status_of ws n, call_of ws ∷ []))

  unpack_call-Called :
      (buf : List ℕ) (n : ℕ)
      → q.unpack_ref ≡ some f
      → ReadsAll q.args vs buf 0 n
      → Yields (Called n) (unpack_call failed q buf ext)
  unfolding unpack_call
  unpack_call-Called buf n handler reads =
      rw (unpack_call, handler)
        (Yields-bind {Q = Called n} reads
          λ r (ws, is_ws, alike). rw is_ws (yields (ws, alike, refl)))

  data_result-status :
      (ws : List Value) (k n : ℕ)
      → length q.args ≤ n
      → data_result q.args k (status_of ws n) ≡ status_of ws (k + n)
  data_result-status ws k n many = elim (Bool-cases (failed (call_of ws))) [
    | inl e ↦ rw e refl
    | inr e ↦
        let some_read : (n == 0 && ltb 0 (length q.args)) ≡ false = ground arith in
        rw (e, some_read) refl
  ]

  unpack_rest-Handled :
      (buf tail : List ℕ) (id k n : ℕ)
      → get_elem? m.protos id ≡ some self
      → (self == null) ≡ false
      → m.objects self ≡ some q
      → q.unpack_ref ≡ some f
      → drop k buf ≡ tail
      → length q.args ≤ n
      → ReadsAll q.args vs tail 0 n
      → Yields (Handled (k + n)) (unpack_rest failed m buf ext id k)
  unfolding unpack_rest
  unpack_rest-Handled buf tail id k n entry not_null object handler here many reads =
      rw (unpack_rest, entry, not_null, at_object, object, here)
        (Yields-bind {Q = Handled (k + n)} (unpack_call-Called tail n handler reads)
          λ out (ws, alike, is_out). rw is_out (
            yields (record {
              got = ws;
              alike = alike;
              called = refl;
              result = data_result-status ws k n many;
              counted = refl;
            })))

  module _ (id n : ℕ) (tail : List ℕ) (entry : get_elem? m.protos id ≡ some self)
      (not_null : (self == null) ≡ false) (object : m.objects self ≡ some q)
      (handler : q.unpack_ref ≡ some f) (many : length q.args ≤ n)
      (reads : ReadsAll q.args vs tail 0 n) where
    -- a number in one byte
    unpack_data-short :
        0 < id
        → id < 256
        → Yields (Handled (1 + n)) (unpack_data failed m (bytes_of 1 id ++ tail) ext)
    unfolding unpack_data bytes_of
    unpack_data-short some_id small =
        let buf : List ℕ = bytes_of 1 id ++ tail in
        let long : ltb (length buf) 1 ≡ false = ground arith in
        let head : read buf 0 1 ≡ ok (bytes_of 1 id) =
          read-append [] (bytes_of 1 id) tail 0 1 refl refl in
        let is_id : value_of (bytes_of 1 id) ≡ id = omega (arith, value_of-bytes_of1 id) in
        let not_zero : (id == 0) ≡ false = ground arith in
        rw (unpack_data, long, head, is_id, not_zero)
          (unpack_rest-Handled buf tail id 1 n entry not_null object handler refl many reads)

    -- a byte 0 and a number in two bytes
    unpack_data-long :
        id < 2 ^ 16
        → Yields (Handled (3 + n)) (unpack_data failed m ((0 ∷ bytes_of 2 id) ++ tail) ext)
    unfolding unpack_data bytes_of
    unpack_data-long small =
        let buf : List ℕ = (0 ∷ bytes_of 2 id) ++ tail in
        let long : ltb (length buf) 1 ≡ false = ground arith in
        let longer : ltb (length buf) 3 ≡ false = ground arith in
        let head : read buf 0 1 ≡ ok (0 ∷ []) =
          read-append [] (0 ∷ []) (bytes_of 2 id ++ tail) 0 1 refl refl in
        let two : read buf 1 2 ≡ ok (bytes_of 2 id) =
          read-append (0 ∷ []) (bytes_of 2 id) tail 1 2 refl refl in
        let is_zero : (value_of (0 ∷ []) == 0) ≡ true = zero_value in
        let is_id : value_of (bytes_of 2 id) ≡ id = omega (arith, value_of-bytes_of2 id) in
        rw (unpack_data, long, head, is_zero, longer, two, is_id)
          (unpack_rest-Handled buf tail id 3 n entry not_null object handler refl many reads)

  -- the message is in the buffer and is handled, whatever follows it; an error is for want of room
  pub data Delivered (buf_len : ℕ) : Packed → Type 0 where
    delivered :
        {bytes : List ℕ}
        → length bytes ≤ buf_len
        → 0 < length bytes
        → ((rest : List ℕ)
            → Yields (Handled (length bytes)) (unpack_data failed m (bytes ++ rest) ext))
        → Delivered buf_len (packed bytes)
    too_long : buf_len < 3 + most_all q.args vs → Delivered buf_len raised

  module _ (id : ℕ) (entry : get_elem? m.protos id ≡ some self) (not_null : (self == null) ≡ false)
      (object : m.objects self ≡ some q) (handler : q.unpack_ref ≡ some f) (some_id : 0 < id)
      (small : id < 2 ^ 16) where
    unpack_data-marshal_id :
        (tail : List ℕ) (n : ℕ)
        → length q.args ≤ n
        → ReadsAll q.args vs tail 0 n
        → Yields
            (Handled (length (marshal_id id) + n))
            (unpack_data failed m (marshal_id id ++ tail) ext)
    unpack_data-marshal_id tail n many reads = elim (Bool-cases (ltb id 256)) [
      | inl e ↦
          rw (e, length-bytes_of 1 id)
            (unpack_data-short id n tail entry not_null object handler many reads some_id
              (ground arith))
      | inr e ↦
          rw (e, length-bytes_of 2 id)
            (unpack_data-long id n tail entry not_null object handler many reads small)
    ]

    Marshals-Delivered :
        {p : Packed} (buf_len : ℕ)
        → length (marshal_id id) ≤ 3
        → 0 < length (marshal_id id)
        → Marshals q.args vs buf_len (marshal_id id) [] p
        → Delivered buf_len p
    Marshals-Delivered buf_len le some_id (marshalled body more e fits many bound reads) =
        delivered fits (omega (arith, length-append (marshal_id id) body)) λ rest.
          rw (append_assoc (marshal_id id) body rest, length-append (marshal_id id) body)
            (unpack_data-marshal_id (body ++ rest) (length body) (omega arith) (reads rest))
    Marshals-Delivered buf_len le some_id (no_space less) = too_long (omega arith)

    -- A message of a protocol with a number from 1 to 65535, whose arguments fit, is in the buffer,
    -- or `marshal` raises an error as there is no room. `unpack_data` of its bytes, whatever follows
    -- them, calls the handler of a protocol that has the same number and formats with values alike,
    -- and returns the length of the message, or the error of the handler.
    pub unpack_data-marshal :
        (number_text : ℤ → List ℕ) (p : NetProtocol) (buf_len : ℕ)
        → p.id ≡ id
        → p.args ≡ q.args
        → FitsAll q.args vs
        → 3 ≤ buf_len
        → Yields (Delivered buf_len) (marshal number_text p vs buf_len)
    unfolding marshal
    unpack_data-marshal number_text p buf_len is_id same fits room =
        let le : length (marshal_id id) ≤ 3 =
          ground (arith, length-bytes_of 1 id, length-bytes_of 2 id) in
        let some_head : 0 < length (marshal_id id) =
          ground (arith, length-bytes_of 1 id, length-bytes_of 2 id) in
        let ready : (id == 0 || ltb buf_len (length (marshal_id id))) ≡ false = ground arith in
        rw (marshal, is_id, ready, same)
          (yields (
            Marshals-Delivered buf_len le some_head (
              subst
                (λ head.
                  Marshals q.args vs buf_len (marshal_id id) []
                    (marshal_loop number_text q.args vs buf_len head))
                (append-nil (marshal_id id))
                (marshal_loop-Marshals number_text q.args vs buf_len (marshal_id id) [] fits
                  (rw (append-nil (marshal_id id)) (omega arith))))))
