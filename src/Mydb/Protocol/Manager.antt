-- ===== src/Mydb/Protocol/Manager.antt =====
-- mydb/protocol.c, `proto_manager`: the protocols by number, and the scripts' calls.
-- A protocol is an object at an address, 0 being NULL, and `objects` has those that are not deleted.
-- Fewer than 2^32 protocols are added. A script's call returns values, or ends in a Lua error; what
-- `add_protocol` and `update_protocol` do after `raise_error` is not reached.
use donkeyji.Prelude.{
  ℕ, suc, zero, ◌+◌, ◌%◌, ◌^◌, Bool, Option, none, some, List, [], ◌∷◌, ◌++◌, ◌==◌, if◌then◌else◌,
  update, length, get_elem?,
}
use donkeyji.Prelude.Chain.{null}
use donkeyji.Prelude.Int.{ℤ}
use donkeyji.Prelude.Exec.{Exec, ok, fault, ◌>>=◌}
use donkeyji.Mydb.DataFormat.Array.{
  Value, Format, number_arg, byte_arg, word_arg, dword_arg, string_arg,
}
use donkeyji.Mydb.Protocol.{Arg, NetProtocol, net_protocol, Destination, Sent, pack_call}
use donkeyji.Mydb.Protocol.Load.{
  File, World, proto_ok, proto_error, lua_error, Loading, rawget, load,
}

pub record Manager : Type 0 where
  pub protos : List ℕ
  pub objects : ℕ → Option NetProtocol
  pub fresh : ℕ
  pub world : World
  pub static_protocol_count : ℕ
  pub total_pack_count : ℕ
  pub total_unpack_count : ℕ

-- `size_t`
abbrev pub next_count : ℕ → ℕ
next_count n = (n + 1) % 2 ^ 64

abbrev pub basic_arg : List ℕ → Format → Arg
basic_arg name f = record { get_type = name; get_hashstr = name; format = f }

-- `fcall_arg_manager::init`: "number", "byte", "word", "dword" and "string"
abbrev pub basic_args : List Arg
basic_args =
    basic_arg (110 ∷ 117 ∷ 109 ∷ 98 ∷ 101 ∷ 114 ∷ []) number_arg
    ∷ basic_arg (98 ∷ 121 ∷ 116 ∷ 101 ∷ []) byte_arg
    ∷ basic_arg (119 ∷ 111 ∷ 114 ∷ 100 ∷ []) word_arg
    ∷ basic_arg (100 ∷ 119 ∷ 111 ∷ 114 ∷ 100 ∷ []) dword_arg
    ∷ basic_arg (115 ∷ 116 ∷ 114 ∷ 105 ∷ 110 ∷ 103 ∷ []) string_arg
    ∷ []

-- `new net_protocol`
abbrev pub new_protocol : ℕ → Manager → Manager
new_protocol id m = record m {
  objects = update m.objects m.fresh (some (net_protocol id));
  fresh = m.fresh + 1;
}

-- the constructor
unfoldable pub proto_manager : Manager → Manager
proto_manager m =
    let w : World = record m.world { arg_types = m.world.arg_types ++ basic_args } in
    let m' : Manager = record m { world = w } in
    if length m.protos == 0 then record (new_protocol 0 m') { protos = m.fresh ∷ [] } else m'

-- the destructor
abbrev pub delete_all : List ℕ → (ℕ → Option NetProtocol) → ℕ → Option NetProtocol
delete_all [] objects = objects
delete_all (a ∷ protos) objects = delete_all protos (update objects a none)

unfoldable pub delete_manager : Manager → Manager
delete_manager m = record m {
  protos = [];
  objects = delete_all m.protos m.objects;
  world = record m.world { arg_types = [] };
}

-- what a script gets from a call
pub data Reply : Type 0 where
  nothing : Reply
  proto_id : ℕ → Reply
  script_error : Reply

-- the object of `self` and the state, after `load`
abbrev pub loaded : (self : ℕ) → Loading → Manager → Manager
loaded self l m = record m { objects = update m.objects self (some l.protocol); world = l.world }

unfoldable pub add_protocol : (cur_char path : List ℕ) → File → Manager → Exec (Reply × Manager)
unfolding load
add_protocol cur_char path file m =
    let id = length m.protos in
    let self = m.fresh in
    let run : Exec (Reply × Manager) =
      load cur_char path file self (net_protocol id) m.world >>= λ l.
      let m' = loaded self l (new_protocol id m) in
      ok (elim l.status [
        | proto_ok ↦ (proto_id id, record m' { protos = m.protos ++ (self ∷ []) })
        | proto_error ↦ (script_error, m')
        | lua_error ↦ (script_error, m')
      ]) in
    if id == 0 then fault else run

unfoldable pub add_static_protocol :
    (cur_char path : List ℕ) → File → Manager → Exec (Reply × Manager)
unfolding add_protocol
add_static_protocol cur_char path file m = add_protocol cur_char path file m >>= λ (r, m'). ok (
  r,
  elim r [
    | nothing ↦ m'
    | proto_id id ↦ record m' { static_protocol_count = (m'.static_protocol_count + 1) % 2 ^ 32 }
    | script_error ↦ m'
  ],
)

abbrev pub replace : List ℕ → ℕ → ℕ → List ℕ
replace [] i a = []
replace (x ∷ xs) zero a = a ∷ xs
replace (x ∷ xs) (suc i) a = x ∷ replace xs i a

-- `given` is the number of the call, if its arguments are a number and a text
unfoldable pub update_protocol :
    (cur_char path : List ℕ) → File → (given : Option ℕ) → Manager → Exec (Reply × Manager)
unfolding load
update_protocol cur_char path file none m = ok (nothing, m)
update_protocol cur_char path file (some id) m = elim (get_elem? m.protos id) [
  | none ↦ ok (nothing, m)
  | some old ↦
      let self = m.fresh in
      let run : Exec (Reply × Manager) =
        load cur_char path file self (net_protocol id) m.world >>= λ l.
        let m' = loaded self l (new_protocol id m) in
        ok (elim l.status [
          | proto_ok ↦ (
            proto_id id,
            record m' { protos = replace m.protos id self; objects = update m'.objects old none },
          )
          | proto_error ↦ (script_error, record m' { objects = update m'.objects self none })
          | lua_error ↦ (script_error, m')
        ]) in
      if old == null then fault else run
]

-- an access to an object
abbrev pub at_object {ℓ} : {A : Type ℓ} → Manager → ℕ → (NetProtocol → Exec A) → Exec A
at_object m a f = elim (m.objects a) [ none ↦ fault | some p ↦ f p ]

-- `for_caller.name (destination, ...)`, where `for_caller` has that name
unfoldable pub call_far :
    (number_text : ℤ → List ℕ) (room : Bool)
    → List ℕ
    → Destination
    → List Value
    → Manager
    → Exec (Option (List Sent) × Manager)
unfolding pack_call rawget
call_far number_text room name dest vs m = elim (rawget name m.world.for_caller) [
  | none ↦ ok (none, m)
  | some self ↦ at_object m self λ p. pack_call number_text room p dest vs >>= λ sent. ok (
    sent,
    record m {
      objects = update m.objects self (some (record p { pack_count = next_count p.pack_count }));
      total_pack_count = next_count m.total_pack_count;
    },
  )
]
