-- ===== src/Mydb/Protocol/Dangling.antt =====
-- The functions of `for_caller` after an update that fails.
use donkeyji.Prelude.{
  ℕ, ◌≡◌, ◌≢◌, refl, true, false, Bool, none, some, List, arith, ◌==◌, get_elem?, same_text_self,
}
use donkeyji.Prelude.Int.{ℤ}
use donkeyji.Prelude.Chain.{null}
use donkeyji.Prelude.Exec.{fault, Yields, yields}
use donkeyji.Mydb.DataFormat.Array.{Value}
use donkeyji.Mydb.Protocol.{NetProtocol, net_protocol, Destination}
use donkeyji.Mydb.Protocol.Names.{process_type}
use donkeyji.Mydb.Protocol.Load.{
  Desc, returned, load, convert_protocol, func_proc, arglist_proc, rawget, named,
}
use donkeyji.Mydb.Protocol.Manager.{
  Manager, Reply, script_error, update_protocol, call_far, at_object,
}

-- a call of the function with that name in `for_caller` follows a pointer to a deleted protocol
abbrev pub Dangles : (name : List ℕ) → Reply × Manager → Type 0
Dangles name (reply, m) =
    (reply ≡ script_error)
    × ((number_text : ℤ → List ℕ) (room : Bool) (dest : Destination) (vs : List Value)
        → call_far number_text room name dest vs m ≡ fault)

-- `update_protocol` of a protocol that is called from here, with a file that has no table `arg_list`,
-- ends in a Lua error, and leaves in `for_caller`, under the name of the protocol, a function whose call
-- accesses a deleted object
pub update_protocol-Dangles :
    (cur_char path : List ℕ) (d : Desc) (id old : ℕ) (q : NetProtocol) (m : Manager)
    → get_elem? m.protos id ≡ some old
    → old ≢ null
    → process_type cur_char path (net_protocol id) ≡ some q
    → (named d.func_name q).is_maker ≡ false
    → d.arg_list ≡ none
    → Yields
        (Dangles (named d.func_name q).pack_func_name)
        (update_protocol cur_char path (returned (some d)) (some id) m)
unfolding update_protocol load convert_protocol func_proc arglist_proc call_far rawget
update_protocol-Dangles cur_char path d id old q m entry some_old typed caller no_list =
    let not_null : (old == null) ≡ false = ground (arith, some_old) in
    let mine : (m.fresh == m.fresh) ≡ true = ground arith in
    rw (update_protocol, entry, not_null, load, typed, convert_protocol, func_proc, caller, no_list)
      (yields (
        refl,
        λ number_text room dest vs.
            rw
              (
                call_far,
                rawget,
                same_text_self (named d.func_name q).pack_func_name,
                at_object,
                mine,
              )
              refl,
      ))
