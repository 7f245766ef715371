-- ===== src/Mydb/Protocol/Tests.antt =====
-- A process with one protocol beside that of number 0, and the theorems on protocols at it.
use donkeyji.Prelude.{
  ◌<◌, inl, inr, Bool-cases, ℕ, zero, suc, ◌≡◌, refl, subst, Bool, true, false, Option, none, some,
  List, [], ◌∷◌, arith, map, update, get_elem?, take, same_text,
}
use donkeyji.Prelude.Int.{ℤ, pos, negsuc}
use donkeyji.Prelude.Exec.{Yields}
use donkeyji.Mydb.DataFormat.Array.{Value, number, string, word_arg, string_arg}
use donkeyji.Mydb.DataFormat.Array.Fits.{word_fits, string_fits}
use donkeyji.Mydb.Protocol.{unicast, Arg, NetProtocol, net_protocol, marshal, Call, send_multicast}
use donkeyji.Mydb.Protocol.Names.{calc_hashnr, hash_loop, process_type}
use donkeyji.Mydb.Protocol.Load.{rawget, arg_desc, Desc, File, returned, get_arg}
use donkeyji.Mydb.Protocol.Manager.{
  call_far, Manager, basic_arg, basic_args, add_protocol, update_protocol,
}
use donkeyji.Mydb.Protocol.Dispatch.{unpack_data}
use donkeyji.Mydb.Protocol.Message.{FitsAll, all_fit, fits_next}
use donkeyji.Mydb.Protocol.RoundTrip.{Delivered, unpack_data-marshal}
use donkeyji.Mydb.Protocol.Safe.{Dispatched, unpack_data-Dispatched}
use donkeyji.Mydb.Protocol.Multicast.{to_all, wanted, room_for, send_multicast-to_all}
use donkeyji.Mydb.Protocol.Path.{path_of, process_type-path_of}
use donkeyji.Mydb.Protocol.Registry.{IsEntry, IsRegistered}
use donkeyji.Mydb.Protocol.Loads.{KnownFile}
use donkeyji.Mydb.Protocol.Register.{Added, add_protocol-Added, Updated, update_protocol-Updated}
use donkeyji.Mydb.Protocol.Far.{Arrives, call_far-Arrives}
use donkeyji.Mydb.Protocol.Callers.{CallersLive, AllLive, add_protocol-CallersLive}
use donkeyji.Mydb.Protocol.Dangling.{Dangles, update_protocol-Dangles}

abbrev digits_of : ℤ → List ℕ
digits_of n = []

abbrev says : Call → Bool
says call = false

-- `c_say`, of a word and a string
abbrev say_args : List Arg
say_args = basic_arg (119 ∷ []) word_arg ∷ basic_arg (115 ∷ []) string_arg ∷ []

abbrev c_say : List ℕ
c_say = 99 ∷ 95 ∷ 115 ∷ 97 ∷ 121 ∷ []

abbrev say : NetProtocol
say = record (net_protocol 1) {
  args = say_args;
  pack_func_name = c_say;
  unpack_ref = some 7;
  is_maker = true;
}

abbrev both : ℕ → Option NetProtocol
both = update (update (λ a. none) 1 (some (net_protocol 0))) 2 (some say)

abbrev process : Manager
process = record {
  protos = 1 ∷ 2 ∷ [];
  objects = both;
  fresh = 3;
  world = record { arg_types = basic_args; for_maker = none; for_caller = [] };
  static_protocol_count = 0;
  total_pack_count = 0;
  total_unpack_count = 0;
}

abbrev words : List Value
words = number (pos 300) ∷ string (104 ∷ 105 ∷ []) ∷ []

words-FitsAll : FitsAll say_args words
words-FitsAll = fits_next (word_fits (omega arith)) (fits_next (string_fits (omega arith)) all_fit)

unpack_data-marshal_example :
    Yields (Delivered says process 2 7 say (pos 5) words 100) (marshal digits_of say words 100)
unpack_data-marshal_example =
    unpack_data-marshal says process 2 7 say (pos 5) words 1 refl refl refl refl (omega arith)
      (omega arith) digits_of say 100 refl refl words-FitsAll (omega arith)

process-IsRegistered : IsRegistered process
process-IsRegistered = record {
  some_protos = omega arith;
  some_fresh = omega arith;
  entries = entries_of;
}
  where
    entries_of : (i a : ℕ) → get_elem? (1 ∷ 2 ∷ []) i ≡ some a → IsEntry both 3 i a
    entries_of zero a h =
        let is : 1 ≡ a = ground (arith, h) in
        subst (λ c. IsEntry both 3 0 c) is
          (record {
            not_null = omega arith;
            allocated = omega arith;
            object = net_protocol 0;
            live = refl;
            numbered = refl;
          })
    entries_of (suc zero) a h =
        let is : 2 ≡ a = ground (arith, h) in
        subst (λ c. IsEntry both 3 1 c) is
          (record {
            not_null = omega arith;
            allocated = omega arith;
            object = say;
            live = refl;
            numbered = refl;
          })
    entries_of (suc (suc i)) a h = cc

unpack_data-Dispatched_example :
    Yields
      (Dispatched process (1 ∷ 44 ∷ 1 ∷ []))
      (unpack_data says process (1 ∷ 44 ∷ 1 ∷ []) (pos 5))
unpack_data-Dispatched_example =
    unpack_data-Dispatched says process (1 ∷ 44 ∷ 1 ∷ []) (pos 5) process-IsRegistered

abbrev targets : List ℤ
targets = pos 200001 ∷ pos 7 ∷ negsuc 4 ∷ pos 300000 ∷ []

send_multicast-to_all_example :
    send_multicast (1 ∷ 2 ∷ []) (map some targets)
    ≡ some (to_all (1 ∷ 2 ∷ []) (take (room_for (1 ∷ 2 ∷ [])) (wanted targets)))
send_multicast-to_all_example = send_multicast-to_all (1 ∷ 2 ∷ []) targets

-- `p/c_say.lua` in a client
abbrev client_side : List ℕ
client_side = 99 ∷ 108 ∷ 105 ∷ 101 ∷ 110 ∷ 116 ∷ []

abbrev lua : List ℕ
lua = 108 ∷ 117 ∷ 97 ∷ []

abbrev word_text : List ℕ
word_text = 119 ∷ 111 ∷ 114 ∷ 100 ∷ []

-- an array of three words
abbrev file : File
file = returned (
    some (record {
      func_name = none;
      arg_list = some (arg_desc (some word_text) (some (pos 3)) ∷ []);
    }))

file-KnownFile : KnownFile file basic_args
unfolding get_arg same_text
file-KnownFile = ((basic_arg word_text word_arg, refl), tt)

add_protocol-Added_example :
    Yields (Added process) (add_protocol client_side (path_of (112 ∷ []) c_say lua) file process)
add_protocol-Added_example =
    add_protocol-Added client_side (path_of (112 ∷ []) c_say lua) file process process-IsRegistered
      file-KnownFile

update_protocol-Updated_example :
    Yields
      (Updated process 1)
      (update_protocol client_side (path_of (112 ∷ []) c_say lua) file (some 1) process)
update_protocol-Updated_example =
    update_protocol-Updated client_side (path_of (112 ∷ []) c_say lua) file 1 process
      process-IsRegistered file-KnownFile

process_type-path_of_example :
    process_type client_side (path_of (112 ∷ []) c_say lua) (net_protocol 2)
    ≡ some (record (net_protocol 2) { pack_func_name = c_say; is_maker = true })
unfolding same_text
process_type-path_of_example =
    process_type-path_of (112 ∷ []) c_say lua (refl, (refl, (refl, (refl, (refl, tt)))))
      (refl, (refl, (refl, tt))) (refl, (refl, (refl, tt))) client_side (net_protocol 2)

-- a protocol of the other side, whose file has no list of arguments
abbrev s_say : List ℕ
s_say = 115 ∷ 95 ∷ 115 ∷ 97 ∷ 121 ∷ []

abbrev no_list : Desc
no_list = record { func_name = none; arg_list = none }

s_say-typed :
    process_type client_side (path_of (112 ∷ []) s_say lua) (net_protocol 1)
    ≡ some (record (net_protocol 1) { pack_func_name = s_say; is_maker = false })
unfolding process_type same_text
s_say-typed = refl

update_protocol-Dangles_example : Yields (Dangles s_say) (
    update_protocol client_side
      (path_of (112 ∷ []) s_say lua)
      (returned (some no_list))
      (some 1)
      process)
update_protocol-Dangles_example =
    update_protocol-Dangles client_side (path_of (112 ∷ []) s_say lua) no_list 1 2
      (record (net_protocol 1) { pack_func_name = s_say; is_maker = false }) process refl
      (λ e. absurd (omega (arith, e))) s_say-typed refl refl

-- 1 ^ ((1 + 4) * 97 + 256)
hash_of_a : calc_hashnr (97 ∷ []) ≡ 740
unfolding calc_hashnr hash_loop
hash_of_a = refl

-- a process that calls `c_say`
abbrev caller : Manager
caller = record process {
  world = record { arg_types = basic_args; for_maker = none; for_caller = (c_say, 2) ∷ [] };
}

c_say-bound : rawget c_say caller.world.for_caller ≡ some 2
unfolding rawget same_text
c_say-bound = refl

call_far-Arrives_example :
    Yields
      (λ out. Arrives says process 2 7 say (pos 5) words (pos 200001) out.0)
      (call_far digits_of true c_say (unicast (pos 200001)) words caller)
call_far-Arrives_example =
    call_far-Arrives says process 2 7 say (pos 5) words digits_of c_say (pos 200001) caller 2 1 say
      c_say-bound refl refl refl (omega arith) (omega arith) refl words-FitsAll refl refl refl refl

caller-CallersLive : CallersLive caller
unfolding rawget
caller-CallersLive name a h = elim (Bool-cases (same_text c_say name)) [
  | inl e ↦
      let is : 2 ≡ a = ground (arith, h, e) in
      subst (λ b. (b < 3) × (p : NetProtocol) × (both b ≡ some p)) is (omega arith, say, refl)
  | inr e ↦ absurd (ground (arith, h, e))
]

add_protocol-CallersLive_example :
    Yields AllLive (add_protocol client_side (path_of (112 ∷ []) c_say lua) file caller)
add_protocol-CallersLive_example =
    add_protocol-CallersLive client_side (path_of (112 ∷ []) c_say lua) file caller (omega arith)
      caller-CallersLive file-KnownFile
