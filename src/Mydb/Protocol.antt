-- ===== src/Mydb/Protocol.antt =====
-- mydb/protocol.c: calls of Lua functions between processes. A protocol has a number, the formats of
-- its arguments, and a handler where the process implements it. This file is about a message:
-- `marshal` and the two ways to send it, `unpack` and the call of the handler, and the check number.
-- A Lua function is a number. The stack of arguments is a list, in which a missing one is `nil`. The
-- memory of `db_buf_alloc_pack`, which has no code, is there or not as the caller says, and is of
-- MAXTONETD bytes. An `int` of a table or a number is the one that Lua gives for it.
pub mod Names
pub mod Load
pub mod Loads
pub mod Manager
pub mod Dispatch
pub mod Message
pub mod RoundTrip
pub mod Far
pub mod Multicast
pub mod Path
pub mod Safe
pub mod Registry
pub mod Register
pub mod Callers
pub mod Dangling
mod Tests
use donkeyji.Prelude.{
  ℕ, ◌+◌, ◌-◌, ◌*◌, Bool, ◌&&◌, ◌||◌, Option, none, some, List, [], ◌∷◌, ◌++◌, ltb, leb, ◌==◌,
  if◌then◌else◌, length, drop,
}
use donkeyji.Prelude.Int.{ℤ, pos, negsuc, ltb_ℤ}
use donkeyji.Prelude.Exec.{Exec, ok, fault, out_of_fuel, ◌>>=◌}
use donkeyji.Mydb.DataFormat.{Packed, packed, refused, raised, bytes_of, bits_of}
use donkeyji.Mydb.DataFormat.Array.{Value, other, Format, pack, unpack}

-- `fcall_base_arg`
pub record Arg : Type 0 where
  pub get_type : List ℕ
  pub get_hashstr : List ℕ
  pub format : Format

-- `_unpack_ref` is `none` for LUA_NOREF
pub record NetProtocol : Type 0 where
  pub args : List Arg
  pub pack_func_name : List ℕ
  pub unpack_ref : Option ℕ
  pub id : ℕ
  pub is_maker : Bool
  pub pack_count : ℕ
  pub unpack_count : ℕ

-- the constructor
abbrev pub net_protocol : ℕ → NetProtocol
net_protocol id = record {
  args = [];
  pack_func_name = [];
  unpack_ref = none;
  id = id;
  is_maker = Bool.false;
  pack_count = 0;
  unpack_count = 0;
}

abbrev pub vfd_null : ℕ
vfd_null = 200000

abbrev pub maxtonetd : ℕ
maxtonetd = 0x8000

-- a byte of the number, or a byte 0 and two
abbrev pub marshal_id : ℕ → List ℕ
marshal_id id = if ltb id 256 then bytes_of 1 id else 0 ∷ bytes_of 2 id

-- no byte of an argument is an error
abbrev pub or_raise : Packed → (List ℕ → Packed) → Packed
or_raise (packed []) next = raised
or_raise (packed (x ∷ xs)) next = next (x ∷ xs)
or_raise refused next = raised
or_raise raised next = raised

abbrev pub first_value : List Value → Value
first_value [] = other
first_value (v ∷ vs) = v

module _ (number_text : ℤ → List ℕ) where
  unfoldable pub marshal_loop : List Arg → List Value → (buf_len : ℕ) → List ℕ → Packed
  marshal_loop [] vs buf_len written = packed written
  marshal_loop (a ∷ args) vs buf_len written =
      or_raise (pack number_text a.format (first_value vs) (buf_len - length written))
        λ bytes. marshal_loop args (drop 1 vs) buf_len (written ++ bytes)

  -- the bytes of the message, of which the result is the number
  unfoldable pub marshal : NetProtocol → List Value → (buf_len : ℕ) → Exec Packed
  unfolding marshal_loop
  marshal p vs buf_len =
      if p.id == 0 || ltb buf_len (length (marshal_id p.id))
      then fault
      else ok (marshal_loop p.args vs buf_len (marshal_id p.id))

-- the first value of a call: a number, or a table of what should be numbers
pub data Destination : Type 0 where
  unicast : ℤ → Destination
  multicast : List (Option ℤ) → Destination
  unknown : Destination

-- a call of `s_data_sender`
pub record Sent : Type 0 where
  pub data_sent : List ℕ
  pub data_len : ℕ
  pub ext : ℤ
  pub ismulticast : ℕ
  pub mcpayloadlen : ℕ

-- the bytes up to `beginp`, and `c` and `t`
pub record Copied : Type 0 where
  pub bytes : List ℕ
  pub c : ℕ
  pub t : ℕ

abbrev pub reached : ℤ → Bool
reached to = ltb_ℤ (pos vfd_null) to

abbrev pub copy_to : Copied → ℤ → Copied
copy_to s to =
    if reached to
    then if leb (length s.bytes + 4) maxtonetd
      then record { bytes = s.bytes ++ bytes_of 4 (bits_of to); c = s.c + 1; t = s.t + 1 }
      else record s { t = s.t + 1 }
    else s

-- `none` is the error of `luaL_checkinteger`
unfoldable pub multicast_loop : List (Option ℤ) → Copied → Option Copied
multicast_loop [] s = some s
multicast_loop (none ∷ tos) s = none
multicast_loop (some to ∷ tos) s = multicast_loop tos (copy_to s to)

-- what is sent after the loop
abbrev pub sent_to : (message : List ℕ) → Copied → List Sent
sent_to message s =
    if ltb 0 s.c
    then record {
      data_sent = s.bytes;
      data_len = length message + s.c * 4;
      ext = pos s.c;
      ismulticast = 1;
      mcpayloadlen = length message;
    }
      ∷ []
    else []

unfoldable pub send_multicast : (message : List ℕ) → List (Option ℤ) → Option (List Sent)
unfolding multicast_loop
send_multicast message tos = elim (multicast_loop tos (record { bytes = message; c = 0; t = 0 })) [
  | none ↦ none
  | some s ↦ some (sent_to message s)
]

unfoldable pub send_unicast : (message : List ℕ) → ℤ → List Sent
send_unicast message ext =
    if ltb 0 (length message)
    then record {
      data_sent = message;
      data_len = length message;
      ext = ext;
      ismulticast = 0;
      mcpayloadlen = 0;
    }
      ∷ []
    else []

abbrev pub when_packed : Exec Packed → (List ℕ → Option (List Sent)) → Exec (Option (List Sent))
when_packed (ok (packed bytes)) send = ok (send bytes)
when_packed (ok refused) send = ok (some [])
when_packed (ok raised) send = ok none
when_packed fault send = fault
when_packed out_of_fuel send = out_of_fuel

-- `pack`, that Lua calls: what it sends, or `none` for a Lua error
unfoldable pub pack_call :
    (number_text : ℤ → List ℕ) (room : Bool)
    → NetProtocol
    → Destination
    → List Value
    → Exec (Option (List Sent))
unfolding marshal send_unicast send_multicast
pack_call number_text room p (unicast ext) vs =
    if reached ext && room
    then when_packed (marshal number_text p vs maxtonetd) (λ bytes. some (send_unicast bytes ext))
    else ok (some [])
pack_call number_text room p (multicast tos) vs =
    if ltb 0 (length tos) && room
    then when_packed (marshal number_text p vs maxtonetd)
        (λ bytes. if ltb 0 (length bytes) then send_multicast bytes tos else some [])
    else ok (some [])
pack_call number_text room p unknown vs = ok (some [])

-- a call of a handler: `vfd`, and the values that were read
pub record Call : Type 0 where
  pub handler : ℕ
  pub vfd : ℤ
  pub values : List Value

-- the values, and `readed_len`; or `none`, for an argument of which no byte was read
unfoldable pub unpack_args : List Arg → List ℕ → (readed_len : ℕ) → Exec (Option (List Value × ℕ))
unpack_args [] buf readed_len = ok (some ([], readed_len))
unpack_args (a ∷ args) buf readed_len = unpack a.format (drop readed_len buf) >>= λ r. elim r [
  | none ↦ ok none
  | some (v, cur_readed) ↦
      let rest = unpack_args args buf (readed_len + cur_readed) in
      if cur_readed == 0
      then ok none
      else rest >>= λ q. elim q [ none ↦ ok none | some (vs, n) ↦ ok (some (v ∷ vs, n)) ]
]

abbrev pub xynet_error_unpack_format : ℤ
xynet_error_unpack_format = negsuc 0

abbrev pub xynet_error_unpack_script : ℤ
xynet_error_unpack_script = negsuc 1

-- `unpack`: the result, and the call that was made; `failed` is whether `lua_pcall` has a status
unfoldable pub unpack_call :
    (failed : Call → Bool) → NetProtocol → List ℕ → (ext : ℤ) → Exec (ℤ × List Call)
unfolding unpack_args
unpack_call failed p buf ext = elim p.unpack_ref [
  | none ↦ ok (xynet_error_unpack_format, [])
  | some f ↦ unpack_args p.args buf 0 >>= λ r. elim r [
    | none ↦ ok (xynet_error_unpack_format, [])
    | some (vs, readed_len) ↦
        let call : Call = record { handler = f; vfd = ext; values = vs } in
        ok (if failed call then xynet_error_unpack_script else pos readed_len, call ∷ [])
  ]
]
