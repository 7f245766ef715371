-- ===== src/Mydb/Protocol/Register.antt =====
-- What `add_protocol` and `update_protocol` do to the protocols of the manager.
use donkeyji.Prelude.{
  ℕ, zero, suc, ◌+◌, ◌<◌, ◌≡◌, refl, true, false, ◌⊎◌, inl, inr, none, some, List, [], ◌∷◌, ◌++◌,
  arith, ◌==◌, update, length, length-append, get_elem?, Option-cases,
}
use donkeyji.Prelude.Chain.{null}
use donkeyji.Prelude.Exec.{ok, Yields, yields, Yields-bind}
use donkeyji.Mydb.Protocol.{net_protocol}
use donkeyji.Mydb.Protocol.Load.{File, Status, proto_ok, proto_error, lua_error, Loading}
use donkeyji.Mydb.Protocol.Loads.{KnownFile, Keeps, load-Keeps}
use donkeyji.Mydb.Protocol.Manager.{
  Manager, Reply, nothing, proto_id, script_error, new_protocol, loaded, add_protocol,
  update_protocol, replace,
}
use donkeyji.Mydb.Protocol.Registry.{
  IsEntry, IsRegistered, IsEntry-update, IsEntry-apart, IsEntry-delete, get_elem?-snoc,
  length-replace, get_elem?-replace,
}

-- the new object, as an entry
new-IsEntry :
    (m : Manager) (l : Loading) (id : ℕ)
    → 0 < m.fresh
    → l.protocol.id ≡ id
    → IsEntry (loaded m.fresh l (new_protocol id m)).objects (m.fresh + 1) id m.fresh
new-IsEntry m l id some_fresh is_id =
    let same : (m.fresh == m.fresh) ≡ true = ground arith in
    record {
      not_null = some_fresh;
      allocated = omega arith;
      object = l.protocol;
      live = rw same refl;
      numbered = is_id;
    }

-- the entries before, after `load`
old-IsEntry :
    (m : Manager) (l : Loading) (id i a : ℕ)
    → IsEntry m.objects m.fresh i a
    → IsEntry (loaded m.fresh l (new_protocol id m)).objects (m.fresh + 1) i a
old-IsEntry m l id i a e =
    IsEntry-update m.fresh l.protocol
      (IsEntry-update {fresh' = m.fresh + 1} m.fresh (net_protocol id) e (omega arith)
        λ is. absurd (omega (arith, e.allocated, is)))
      (omega arith) λ is. absurd (omega (arith, e.allocated, is))

loaded-IsRegistered :
    (m : Manager) (l : Loading) (id : ℕ)
    → IsRegistered m
    → IsRegistered (loaded m.fresh l (new_protocol id m))
loaded-IsRegistered m l id r = record {
  some_protos = r.some_protos;
  some_fresh = omega arith;
  entries = λ i a h. old-IsEntry m l id i a (r.entries i a h);
}

added-IsRegistered :
    (m : Manager) (l : Loading)
    → IsRegistered m
    → l.protocol.id ≡ length m.protos
    → IsRegistered (record (loaded m.fresh l (new_protocol (length m.protos) m)) {
      protos = m.protos ++ (m.fresh ∷ []);
    })
added-IsRegistered m l r is_id = record {
  some_protos = omega (arith, length-append m.protos (m.fresh ∷ []));
  some_fresh = omega arith;
  entries = λ i a h. elim (get_elem?-snoc m.protos m.fresh i a h) [
    | inl e ↦ old-IsEntry m l (length m.protos) i a (r.entries i a e)
    | inr e ↦ rw (e.0, e.1) (new-IsEntry m l (length m.protos) r.some_fresh is_id)
  ];
}

-- a protocol more, under the next number; or an error, and no change of the protocols
pub record Added (m : Manager) (out : Reply × Manager) : Type 0 where
  pub registered : IsRegistered out.1
  pub reply :
      ((out.0 ≡ proto_id (length m.protos)) × (out.1.protos ≡ m.protos ++ (m.fresh ∷ [])))
      ⊎ ((out.0 ≡ script_error) × (out.1.protos ≡ m.protos))

-- `add_protocol` of a file, in which the arrays have elements of known types, ends; it adds a protocol
-- under the next number, or ends in a Lua error and leaves the protocols. Every protocol still is a
-- live object that has its number
pub add_protocol-Added :
    (cur_char path : List ℕ) (file : File) (m : Manager)
    → IsRegistered m
    → KnownFile file m.world.arg_types
    → Yields (Added m) (add_protocol cur_char path file m)
unfolding add_protocol
add_protocol-Added cur_char path file m r known =
    let some_protos : (length m.protos == 0) ≡ false = ground (arith, r.some_protos) in
    rw (add_protocol, some_protos)
      (Yields-bind
        (load-Keeps cur_char path file m.fresh (net_protocol (length m.protos)) m.world known)
        λ l is_id. by_status l l.status is_id)
  where
    by_status :
        (l : Loading) (s : Status)
        → Keeps m.fresh (net_protocol (length m.protos)) m.world l
        → Yields (Added m) (
            let m' = loaded m.fresh l (new_protocol (length m.protos) m) in
            ok (elim s [
              | proto_ok ↦
                  (proto_id (length m.protos), record m' { protos = m.protos ++ (m.fresh ∷ []) })
              | proto_error ↦ (script_error, m')
              | lua_error ↦ (script_error, m')
            ]))
    by_status l proto_ok is_id =
        yields (record { registered = added-IsRegistered m l r is_id.id; reply = inl (refl, refl) })
    by_status l proto_error is_id = yields (record {
      registered = loaded-IsRegistered m l (length m.protos) r;
      reply = inr (refl, refl);
    })
    by_status l lua_error is_id = yields (record {
      registered = loaded-IsRegistered m l (length m.protos) r;
      reply = inr (refl, refl);
    })

-- the new protocol takes the place of the old one, which is deleted
replaced-IsRegistered :
    (m : Manager) (l : Loading) (id old : ℕ)
    → IsRegistered m
    → get_elem? m.protos id ≡ some old
    → l.protocol.id ≡ id
    → (let m' = loaded m.fresh l (new_protocol id m) in
        IsRegistered (record m' {
          protos = replace m.protos id m.fresh;
          objects = update m'.objects old none;
        }))
replaced-IsRegistered m l id old r entry is_id = record {
  some_protos = omega (arith, r.some_protos, length-replace m.protos id m.fresh);
  some_fresh = omega arith;
  entries = λ i a h. elim (get_elem?-replace m.protos id m.fresh i a h) [
    | inl e ↦
        rw (e.0, e.1)
          (IsEntry-delete old (new-IsEntry m l id r.some_fresh is_id)
            λ is. absurd (omega (arith, is, (r.entries id old entry).allocated)))
    | inr e ↦
        IsEntry-delete old (old-IsEntry m l id i a (r.entries i a e.1))
          (IsEntry-apart (r.entries i a e.1) (r.entries id old entry) e.0)
  ];
}

-- the object of a failed update is deleted
deleted-IsRegistered :
    (m : Manager) (l : Loading) (id : ℕ)
    → IsRegistered m
    → (let m' = loaded m.fresh l (new_protocol id m) in
        IsRegistered (record m' { objects = update m'.objects m.fresh none }))
deleted-IsRegistered m l id r = record {
  some_protos = r.some_protos;
  some_fresh = omega arith;
  entries = λ i a h.
      let e = r.entries i a h in
      IsEntry-delete m.fresh (old-IsEntry m l id i a e)
        λ is. absurd (omega (arith, is, e.allocated));
}

-- a new object under the number, and its number as the reply; or no change of the protocols
pub record Updated (m : Manager) (id : ℕ) (out : Reply × Manager) : Type 0 where
  pub registered : IsRegistered out.1
  pub reply :
      ((out.0 ≡ proto_id id)
        × (out.1.protos ≡ replace m.protos id m.fresh)
        × (id < length m.protos))
      ⊎ (((out.0 ≡ script_error) ⊎ (out.0 ≡ nothing)) × (out.1.protos ≡ m.protos))

get_elem?-bound :
    {A : Type 0} (xs : List A) (i : ℕ) {a : A} → get_elem? xs i ≡ some a → i < length xs
get_elem?-bound [] i h = cc
get_elem?-bound (x ∷ xs) zero h = omega arith
get_elem?-bound (x ∷ xs) (suc i) h = omega (arith, get_elem?-bound xs i h)

-- `update_protocol` of a number, with a file in which the arrays have elements of known types, ends; it
-- puts a new protocol under that number, which is one of those that there are, or leaves the protocols.
-- Every protocol still is a live object that has its number
pub update_protocol-Updated :
    (cur_char path : List ℕ) (file : File) (id : ℕ) (m : Manager)
    → IsRegistered m
    → KnownFile file m.world.arg_types
    → Yields (Updated m id) (update_protocol cur_char path file (some id) m)
unfolding update_protocol
update_protocol-Updated cur_char path file id m r known =
    elim (Option-cases (get_elem? m.protos id)) [
      | inl e ↦
          rw (update_protocol, e) (yields (record { registered = r; reply = inr (inr refl, refl) }))
      | inr (old, e) ↦
          let not_null : (old == null) ≡ false = ground (arith, (r.entries id old e).not_null) in
          rw (update_protocol, e, not_null)
            (Yields-bind (load-Keeps cur_char path file m.fresh (net_protocol id) m.world known)
              λ l is_id. by_status old e l l.status is_id)
    ]
  where
    by_status :
        (old : ℕ)
        → get_elem? m.protos id ≡ some old
        → (l : Loading) (s : Status) → Keeps m.fresh (net_protocol id) m.world l
        → Yields (Updated m id) (
            let m' = loaded m.fresh l (new_protocol id m) in
            ok (elim s [
              | proto_ok ↦ (
                proto_id id,
                record m' {
                  protos = replace m.protos id m.fresh;
                  objects = update m'.objects old none;
                },
              )
              | proto_error ↦ (script_error, record m' { objects = update m'.objects m.fresh none })
              | lua_error ↦ (script_error, m')
            ]))
    by_status old entry l proto_ok is_id = yields (record {
      registered = replaced-IsRegistered m l id old r entry is_id.id;
      reply = inl (refl, refl, get_elem?-bound m.protos id entry);
    })
    by_status old entry l proto_error is_id =
        yields (record { registered = deleted-IsRegistered m l id r; reply = inr (inl refl, refl) })
    by_status old entry l lua_error is_id =
        yields (record { registered = loaded-IsRegistered m l id r; reply = inr (inl refl, refl) })
