-- ===== src/Mydb/Protocol/Callers.antt =====
-- The functions of `for_caller` while protocols are added.
use donkeyji.Prelude.{
  ℕ, ◌<◌, ◌≡◌, refl, true, false, inl, inr, some, List, [], ◌∷◌, ◌++◌, arith, ◌==◌, length,
}
use donkeyji.Prelude.Exec.{ok, Yields, yields, Yields-bind}
use donkeyji.Mydb.Protocol.{NetProtocol, net_protocol}
use donkeyji.Mydb.Protocol.Load.{File, Status, proto_ok, proto_error, lua_error, Loading, rawget}
use donkeyji.Mydb.Protocol.Loads.{KnownFile, Binds, load-Keeps}
use donkeyji.Mydb.Protocol.Manager.{
  Manager, Reply, proto_id, script_error, new_protocol, loaded, add_protocol,
}

-- the functions of `for_caller` point to objects that are not deleted
abbrev pub CallersLive : Manager → Type 0
CallersLive m =
    (name : List ℕ) (a : ℕ)
    → rawget name m.world.for_caller ≡ some a
    → (a < m.fresh) × (p : NetProtocol) × (m.objects a ≡ some p)

abbrev pub AllLive : Reply × Manager → Type 0
AllLive (r, m) = CallersLive m

loaded-CallersLive :
    (m : Manager) (l : Loading) (id : ℕ)
    → CallersLive m
    → Binds m.fresh m.world l
    → CallersLive (loaded m.fresh l (new_protocol id m))
loaded-CallersLive m l id live binds name a h = elim (binds name a h) [
  | inl new ↦
      let mine : (a == m.fresh) ≡ true = ground (arith, new) in
      (omega (arith, new), l.protocol, rw mine refl)
  | inr old ↦
      let (less, p, e) = live name a old in
      let other : (a == m.fresh) ≡ false = ground (arith, less) in
      (omega (arith, less), p, rw other e)
]

-- `add_protocol`, whether it adds a protocol or ends in an error, of a file in which the arrays have
-- elements of known types, ends with every function of `for_caller` pointing to a live object, if that
-- was so before
pub add_protocol-CallersLive :
    (cur_char path : List ℕ) (file : File) (m : Manager)
    → 0 < length m.protos
    → CallersLive m
    → KnownFile file m.world.arg_types
    → Yields AllLive (add_protocol cur_char path file m)
unfolding add_protocol
add_protocol-CallersLive cur_char path file m some_protos live known =
    let not_empty : (length m.protos == 0) ≡ false = ground arith in
    rw (add_protocol, not_empty)
      (Yields-bind
        (load-Keeps cur_char path file m.fresh (net_protocol (length m.protos)) m.world known)
        λ l k. by_status l l.status (loaded-CallersLive m l (length m.protos) live k.binds))
  where
    by_status :
        (l : Loading) (s : Status)
        → CallersLive (loaded m.fresh l (new_protocol (length m.protos) m))
        → Yields AllLive (
            let m' = loaded m.fresh l (new_protocol (length m.protos) m) in
            ok (elim s [
              | proto_ok ↦
                  (proto_id (length m.protos), record m' { protos = m.protos ++ (m.fresh ∷ []) })
              | proto_error ↦ (script_error, m')
              | lua_error ↦ (script_error, m')
            ]))
    by_status l proto_ok after = yields after
    by_status l proto_error after = yields after
    by_status l lua_error after = yields after
