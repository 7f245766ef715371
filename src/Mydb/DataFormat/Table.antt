-- ===== src/Mydb/DataFormat/Table.antt =====
-- mydb/data_format.c, `fcall_table_arg`: tables by a format that is a sample table. The sample is
-- translated to opcodes, which pack and unpack follow with a stack of tables.
-- A key is a number that stands for it, an index for itself, and `key_ref` is the key. A sample is its
-- entries in the order of `lua_next`. Formats are those of Array: a table as the type of a value, and
-- of an argument, by its name, is left out. What `unpack` makes has its fields; its `lua_objlen` is
-- not part of the model.
pub mod Layout
pub mod Compile
pub mod Read
pub mod Pack
mod Tests
use donkeyji.Prelude.{
  ℕ, ◌+◌, ◌-◌, Option, none, some, List, [], ◌∷◌, ◌++◌, ltb, ◌==◌, if◌then◌else◌, update, length,
  drop,
}
use donkeyji.Prelude.Int.{ℤ}
use donkeyji.Prelude.Exec.{Exec, ok, fault, ◌>>=◌}
use donkeyji.Mydb.DataFormat.{Packed, packed, refused, raised}
use donkeyji.Mydb.DataFormat.Array.{Value, table, Format, pack, unpack, new_table}

-- `table_opcode`; the fields that an operation does not read are left out
pub data Opcode : Type 0 where
  tb_begin : ℕ → Opcode
  push_value : ℕ → Format → Opcode
  tb_end : Opcode

-- the entries of a sample table: a key with its text, which is "number" for a number, and a number, a
-- text, or a table; or a key or a value of another kind
pub data Sample : Type 0 where
  no_entry : Sample
  number_entry : ℕ → List ℕ → Sample → Sample
  text_entry : ℕ → List ℕ → List ℕ → Sample → Sample
  table_entry : ℕ → List ℕ → Sample → Sample → Sample
  invalid_entry : Sample → Sample

-- `_opcodes`, `_hashstr` and `_cur_table_deep`
pub record TableArg : Type 0 where
  pub opcodes : List Opcode
  pub hashstr : List ℕ
  pub cur_table_deep : ℕ

abbrev pub max_table_deep : ℕ
max_table_deep = 10

-- "number"
abbrev pub number_name : List ℕ
number_name = 110 ∷ 117 ∷ 109 ∷ 98 ∷ 101 ∷ 114 ∷ []

abbrev pub add_opcode : Opcode → (text : List ℕ) → TableArg → TableArg
add_opcode op text t = record t { opcodes = t.opcodes ++ (op ∷ []); hashstr = t.hashstr ++ text }

abbrev pub add_value : Option Format → (key : ℕ) → (text : List ℕ) → TableArg → Option TableArg
add_value none key text t = none
add_value (some f) key text t = some (add_opcode (push_value key f) text t)

-- `none` is an error
abbrev pub bind_arg : Option TableArg → (TableArg → Option TableArg) → Option TableArg
bind_arg none next = none
bind_arg (some t) next = next t

-- one more table
abbrev pub enter : TableArg → Option TableArg
enter t =
    if ltb max_table_deep (t.cur_table_deep + 1)
    then none
    else some (record t { cur_table_deep = t.cur_table_deep + 1 })

-- `get_arg` is the table of formats
module _ (get_arg : List ℕ → Option Format) where
  -- the loop of `_travel_table`
  unfoldable pub travel_loop : Sample → TableArg → Option TableArg
  travel_loop no_entry t = some (add_opcode tb_end [] t)
  travel_loop (number_entry key text rest) t =
      bind_arg (add_value (get_arg number_name) key (text ++ number_name) t) (travel_loop rest)
  travel_loop (text_entry key text name rest) t =
      bind_arg (add_value (get_arg name) key (text ++ name) t) (travel_loop rest)
  travel_loop (table_entry key text sub rest) t =
      bind_arg (enter (add_opcode (tb_begin key) text t))
        (λ u. bind_arg (travel_loop sub u) (travel_loop rest))
  travel_loop (invalid_entry rest) t = none

  unfoldable pub travel_table : Sample → TableArg → Option TableArg
  unfolding travel_loop
  travel_table s t = bind_arg (enter t) (travel_loop s)

  -- the end of `_read_format`, for a file that returns a name and a table
  unfoldable pub read_format : (type : List ℕ) → Sample → Option TableArg
  unfolding travel_table
  read_format type s = travel_table s (record { opcodes = []; hashstr = type; cur_table_deep = 0 })

-- the value under a key, which should be a table
abbrev pub with_table : Value → ((ℕ → Value) → Exec Packed) → Exec Packed
with_table (table len at) next = next at
with_table v next = ok raised

-- what was written so far, and what follows a value
abbrev pub after_value : Packed → (List ℕ → Exec Packed) → Exec Packed
after_value (packed []) next = ok refused
after_value (packed (x ∷ xs)) next = next (x ∷ xs)
after_value refused next = ok refused
after_value raised next = ok raised

module _ (number_text : ℤ → List ℕ) where
  -- the loop of `fcall_table_arg::pack`, with the tables on the stack
  unfoldable pub pack_opcodes :
      List Opcode → List (ℕ → Value) → (buf_len : ℕ) → List ℕ → Exec Packed
  pack_opcodes [] stack buf_len written = ok (packed written)
  pack_opcodes (op ∷ ops) [] buf_len written = fault
  pack_opcodes (tb_begin key ∷ ops) (at ∷ stack) buf_len written =
      with_table (at key) λ sub. pack_opcodes ops (sub ∷ at ∷ stack) buf_len written
  pack_opcodes (push_value key f ∷ ops) (at ∷ stack) buf_len written =
      after_value (pack number_text f (at key) (buf_len - length written))
        λ bytes. pack_opcodes ops (at ∷ stack) buf_len (written ++ bytes)
  pack_opcodes (tb_end ∷ ops) (at ∷ stack) buf_len written = pack_opcodes ops stack buf_len written

  unfoldable pub pack_table : List Opcode → Value → (buf_len : ℕ) → Exec Packed
  unfolding pack_opcodes
  pack_table ops v buf_len = with_table v λ at. pack_opcodes ops (at ∷ []) buf_len []

-- the loop of `fcall_table_arg::unpack`: the table on top, and the keys and tables under it
unfoldable pub unpack_opcodes :
    List Opcode
    → (ℕ → Value)
    → List (ℕ × (ℕ → Value))
    → List ℕ
    → (readed_len : ℕ) → Exec (Option (Value × ℕ))
unpack_opcodes [] top under buf readed_len = ok (some (table 0 top, readed_len))
unpack_opcodes (tb_begin key ∷ ops) top under buf readed_len =
    unpack_opcodes ops new_table ((key, top) ∷ under) buf readed_len
unpack_opcodes (push_value key f ∷ ops) top under buf readed_len =
    unpack f (drop readed_len buf) >>= λ r. elim r [
      | none ↦ ok none
      | some (v, cur_readed) ↦
          let rest = unpack_opcodes ops (update top key v) under buf (readed_len + cur_readed) in
          if cur_readed == 0 then ok none else rest
    ]
unpack_opcodes (tb_end ∷ ops) top [] buf readed_len = fault
unpack_opcodes (tb_end ∷ ops) top ((key, up) ∷ under) buf readed_len =
    unpack_opcodes ops (update up key (table 0 top)) under buf readed_len

abbrev pub but_last : List Opcode → List Opcode
but_last [] = []
but_last (op ∷ []) = []
but_last (op ∷ o ∷ ops) = op ∷ but_last (o ∷ ops)

-- `_opcodes.size () - 1` operations; of none there would be more than there are
unfoldable pub unpack_table : List Opcode → List ℕ → Exec (Option (Value × ℕ))
unfolding unpack_opcodes
unpack_table [] buf = fault
unpack_table (op ∷ ops) buf = unpack_opcodes (but_last (op ∷ ops)) new_table [] buf 0
