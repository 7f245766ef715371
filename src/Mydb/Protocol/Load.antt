-- ===== src/Mydb/Protocol/Load.antt =====
-- mydb/protocol.c and the argument types of mydb/data_format.c: what a protocol is made of, from the
-- path of its file and the table that the file returns. A Lua error leaves what was done before it.
-- `for_caller` has its entries with the last one first; its functions hold the address of a protocol.
-- Argument types that are tables, which `add_table_args` adds, are left out.
use donkeyji.Prelude.{ℕ, Option, none, some, List, [], ◌∷◌, ◌++◌, ltb, if◌then◌else◌, same_text}
use donkeyji.Prelude.Int.{ℤ, pos, negsuc}
use donkeyji.Prelude.Exec.{Exec, ok, fault, ◌>>=◌}
use donkeyji.Mydb.DataFormat.Array.{array_arg}
use donkeyji.Mydb.Protocol.{Arg, NetProtocol}
use donkeyji.Mydb.Protocol.Names.{process_type}

-- an entry of `arg_list`: the text of its type, and its number of elements, where they are there
pub data ArgDesc : Type 0 where
  not_table : ArgDesc
  arg_desc : Option (List ℕ) → Option ℤ → ArgDesc

-- the table of a protocol file
pub record Desc : Type 0 where
  pub func_name : Option (List ℕ)
  pub arg_list : Option (List ArgDesc)

-- what the file gives: it cannot be read, or is no chunk, or has no environment, or fails, or returns
-- something that may be a table
pub data File : Type 0 where
  unreadable : File
  bad_chunk : File
  no_env : File
  failed_chunk : File
  returned : Option Desc → File

-- the state that loading may change: `_s_args`, and the tables `for_maker` and `for_caller` of Lua
pub record World : Type 0 where
  pub arg_types : List Arg
  pub for_maker : Option (List (List ℕ × ℕ))
  pub for_caller : List (List ℕ × ℕ)

pub data Status : Type 0 where
  proto_ok : Status
  proto_error : Status
  lua_error : Status

pub record Loading : Type 0 where
  pub status : Status
  pub protocol : NetProtocol
  pub world : World

unfoldable pub rawget : List ℕ → List (List ℕ × ℕ) → Option ℕ
rawget k [] = none
rawget k ((j, f) ∷ t) = if same_text j k then some f else rawget k t

-- `self` is the address of `p`
unfoldable pub func_proc : (self : ℕ) → NetProtocol → World → Loading
unfolding rawget
func_proc self p w =
    if p.is_maker
    then elim w.for_maker [
      | none ↦ record { status = lua_error; protocol = p; world = w }
      | some t ↦ elim (rawget p.pack_func_name t) [
        | none ↦ record { status = lua_error; protocol = p; world = w }
        | some f ↦ record {
          status = proto_ok;
          protocol = record p { unpack_ref = some f };
          world = w;
        }
      ]
    ]
    else record {
      status = proto_ok;
      protocol = p;
      world = record w { for_caller = (p.pack_func_name, self) ∷ w.for_caller };
    }

-- `fcall_arg_manager::get_arg`, by name
unfoldable pub get_arg : List ℕ → List Arg → Option Arg
get_arg name [] = none
get_arg name (a ∷ args) = if same_text a.get_type name then some a else get_arg name args

abbrev pub array_name : List ℕ
array_name = 97 ∷ 114 ∷ 114 ∷ 97 ∷ 121 ∷ []

-- `new fcall_array_arg`: `_base_packer` is read before it is tested
unfoldable pub new_array_arg : List ℕ → (size : ℕ) → List Arg → Exec Arg
unfolding get_arg
new_array_arg base_type size args = elim (get_arg base_type args) [
  | none ↦ fault
  | some b ↦ ok (record {
    get_type = array_name;
    get_hashstr = array_name ++ (base_type ++ b.get_hashstr);
    format = array_arg b.format size;
  })
]

-- the argument of an entry, and `_s_args` after it; `none` is a Lua error
unfoldable pub arg_proc : ArgDesc → List Arg → Exec (Option Arg × List Arg)
unfolding get_arg new_array_arg
arg_proc not_table args = ok (none, args)
arg_proc (arg_desc none n) args = ok (none, args)
arg_proc (arg_desc (some name) none) args = ok (get_arg name args, args)
arg_proc (arg_desc (some name) (some (negsuc n))) args = ok (none, args)
arg_proc (arg_desc (some name) (some (pos n))) args =
    if ltb 255 n
    then ok (none, args)
    else (do a ← new_array_arg name n args; ok (some a, args ++ (a ∷ [])))

-- `arglist_proc`: the arguments are added one by one
unfoldable pub arglist_loop : List ArgDesc → NetProtocol → World → Exec Loading
unfolding arg_proc
arglist_loop [] p w = ok (record { status = proto_ok; protocol = p; world = w })
arglist_loop (d ∷ ds) p w = arg_proc d w.arg_types >>= λ (a, args).
    let w' : World = record w { arg_types = args } in
    elim a [
      | none ↦ ok (record { status = lua_error; protocol = p; world = w' })
      | some a ↦ arglist_loop ds (record p { args = p.args ++ (a ∷ []) }) w'
    ]

unfoldable pub arglist_proc : Option (List ArgDesc) → NetProtocol → World → Exec Loading
unfolding arglist_loop
arglist_proc none p w = ok (record { status = proto_error; protocol = p; world = w })
arglist_proc (some ds) p w = arglist_loop ds p w

abbrev pub named : Option (List ℕ) → NetProtocol → NetProtocol
named none p = p
named (some name) p = record p { pack_func_name = name }

abbrev pub arglist_after : Option (List ArgDesc) → Loading → Exec Loading
arglist_after ds l = elim l.status [
  | proto_ok ↦ arglist_proc ds l.protocol l.world
  | proto_error ↦ ok l
  | lua_error ↦ ok l
]

unfoldable pub convert_protocol : (self : ℕ) → Option Desc → NetProtocol → World → Exec Loading
unfolding func_proc arglist_proc
convert_protocol self none p w = ok (record { status = proto_error; protocol = p; world = w })
convert_protocol self (some d) p w =
    arglist_after d.arg_list (func_proc self (named d.func_name p) w)

-- the chunk of the file, run
abbrev pub load_file : (self : ℕ) → File → NetProtocol → World → Exec Loading
load_file self unreadable p w = ok (record { status = lua_error; protocol = p; world = w })
load_file self bad_chunk p w = ok (record { status = lua_error; protocol = p; world = w })
load_file self no_env p w = ok (record { status = proto_error; protocol = p; world = w })
load_file self failed_chunk p w = ok (record { status = proto_error; protocol = p; world = w })
load_file self (returned d) p w = convert_protocol self d p w

unfoldable pub load :
    (cur_char path : List ℕ) → File → (self : ℕ) → NetProtocol → World → Exec Loading
unfolding process_type convert_protocol
load cur_char path file self p w = elim (process_type cur_char path p) [
  | none ↦ ok (record { status = lua_error; protocol = p; world = w })
  | some q ↦ load_file self file q w
]
