-- ===== src/Mydb/Protocol/Safe.antt =====
-- `unpack_data` on any bytes.
use donkeyji.Prelude.{
  ℕ, ◌+◌, ◌≤◌, ◌<◌, ◌≡◌, refl, sym, ◌∙◌, subst, Bool, false, ◌&&◌, inl, inr, Option, none, some,
  List, [], ◌∷◌, arith, ltb, ◌==◌, if◌then◌else◌, length, drop, length-drop, get_elem?, Bool-cases,
  Option-cases, take,
}
use donkeyji.Prelude.Chain.{null}
use donkeyji.Prelude.Int.{ℤ, pos, negsuc}
use donkeyji.Prelude.Exec.{ok, ◌>>=◌, Yields, yields, Yields-bind, Yields-if}
use donkeyji.Mydb.DataFormat.{value_of}
use donkeyji.Mydb.DataFormat.Bytes.{Within, read-ok}
use donkeyji.Mydb.DataFormat.Array.{Value}
use donkeyji.Mydb.DataFormat.Array.Safe.{unpack-Within}
use donkeyji.Mydb.Protocol.{
  Arg, NetProtocol, Call, unpack_args, unpack_call, xynet_error_unpack_format,
  xynet_error_unpack_script,
}
use donkeyji.Mydb.Protocol.Manager.{Manager, at_object}
use donkeyji.Mydb.Protocol.Registry.{IsEntry, IsRegistered, IsEntry-update}
use donkeyji.Mydb.Protocol.Dispatch.{count_unpack, data_result, unpack_rest, unpack_data}

-- as many values as arguments, each of some bytes, which are there
abbrev pub AllWithin : List Arg → List ℕ → ℕ → Option (List Value × ℕ) → Type 0
AllWithin args buf readed_len none = Unit {0}
AllWithin args buf readed_len (some (vs, n)) =
    (length vs ≡ length args) × (readed_len + length args ≤ n) × (n ≤ length buf)

pub unpack_args-AllWithin :
    (args : List Arg) (buf : List ℕ) (readed_len : ℕ)
    → readed_len ≤ length buf
    → Yields (AllWithin args buf readed_len) (unpack_args args buf readed_len)
unfolding unpack_args
unpack_args-AllWithin [] buf readed_len le = yields (refl, omega arith, le)
unpack_args-AllWithin (a ∷ args) buf readed_len le =
    Yields-bind (unpack-Within a.format (drop readed_len buf))
      λ r w. one r w λ n fits. unpack_args-AllWithin args buf (readed_len + n) fits
  where
    more :
        (v : Value) (n : ℕ) (q : Option (List Value × ℕ))
        → 0 < n
        → AllWithin args buf (readed_len + n) q
        → Yields
            (AllWithin (a ∷ args) buf readed_len)
            (elim q [ none ↦ ok none | some (vs, k) ↦ ok (some (v ∷ vs, k)) ])
    more v n none some_bytes h = yields tt
    more v n (some (vs, k)) some_bytes h = yields (omega (arith, h.0), omega (arith, h.1), h.2)

    one :
        (r : Option (Value × ℕ))
        → Within (drop readed_len buf) r
        → ((n : ℕ)
            → readed_len + n ≤ length buf
            → Yields (AllWithin args buf (readed_len + n)) (unpack_args args buf (readed_len + n)))
        → Yields (AllWithin (a ∷ args) buf readed_len) (elim r [
          | none ↦ ok none
          | some (v, cur_readed) ↦
              if cur_readed == 0
              then ok none
              else unpack_args args buf (readed_len + cur_readed) >>= λ q. elim q [
                | none ↦ ok none
                | some (vs, n) ↦ ok (some (v ∷ vs, n))
              ]
        ])
    one none w go = yields tt
    one (some (v, n)) w go =
        Yields-if (n == 0) (λ _. yields tt)
          λ _.
            Yields-bind (go n (omega (arith, w.1, length-drop readed_len buf)))
              λ q h. more v n q w.0 h

-- what `unpack_data` may return: an error, or no more bytes than there are, and 0 only if there are
-- fewer than three
abbrev pub Taken : List ℕ → ℤ → Type 0
Taken buf (negsuc n) = Unit {0}
Taken buf (pos n) = (n ≤ length buf) × (n ≡ 0 → length buf < 3)

pub record Dispatched (m : Manager) (buf : List ℕ) (out : ℤ × List Call × Manager) : Type 0 where
  pub taken : Taken buf out.0
  pub calls : length (out.1) ≤ 1
  pub registered : IsRegistered (out.2)
  pub same_protos : out.2.protos ≡ m.protos

-- `unpack` of a message returns an error, or the bytes of as many arguments as there are
abbrev Result : NetProtocol → List ℕ → ℤ × List Call → Type 0
Result p buf (negsuc n, calls) = length calls ≤ 1
Result p buf (pos n, calls) = (length calls ≤ 1) × (n ≤ length buf) × (length p.args ≤ n)

module _ (failed : Call → Bool) where
  unpack_call-Result :
      (p : NetProtocol) (buf : List ℕ) (ext : ℤ)
      → Yields (Result p buf) (unpack_call failed p buf ext)
  unfolding unpack_call
  unpack_call-Result p buf ext = elim (Option-cases p.unpack_ref) [
    | inl e ↦ rw (unpack_call, e) (yields (omega arith))
    | inr (f, e) ↦
        rw (unpack_call, e)
          (Yields-bind (unpack_args-AllWithin p.args buf 0 (omega arith)) λ r h. called f r h)
  ]
    where
      called :
          (f : ℕ) (r : Option (List Value × ℕ))
          → AllWithin p.args buf 0 r
          → Yields (Result p buf) (elim r [
            | none ↦ ok (xynet_error_unpack_format, [])
            | some (vs, n) ↦
                let call : Call = record { handler = f; vfd = ext; values = vs } in
                ok (if failed call then xynet_error_unpack_script else pos n, call ∷ [])
          ])
      called f none h = yields (omega arith)
      called f (some (vs, n)) h =
          let call : Call = record { handler = f; vfd = ext; values = vs } in
          elim (Bool-cases (failed call)) [
            | inl e ↦ rw e (yields (omega arith))
            | inr e ↦ rw e (yields (omega arith, h.2, omega (arith, h.1)))
          ]

count_unpack-IsRegistered :
    (m : Manager) (self : ℕ) (p : NetProtocol)
    → IsRegistered m
    → m.objects self ≡ some p
    → IsRegistered (count_unpack self p m) × ((count_unpack self p m).protos ≡ m.protos)
count_unpack-IsRegistered m self p r object = elim (Option-cases p.unpack_ref) [
  | inl e ↦ rw e (r, refl)
  | inr (f, e) ↦ rw e (
    record {
      some_protos = r.some_protos;
      some_fresh = r.some_fresh;
      entries = λ i a h.
          IsEntry-update self _ (r.entries i a h) (omega arith)
            λ is. same_number (r.entries i a h) is;
    },
    refl,
  )
]
  where
    same_number : {i a : ℕ} → IsEntry m.objects m.fresh i a → a ≡ self → p.id ≡ i
    same_number {a} e is =
        let same : some e.object ≡ some p =
          sym e.live ∙ subst (λ c. m.objects c ≡ some p) (sym is) object in
        cc (e.numbered, same)

data_result-Taken :
    (p : NetProtocol) (buf : List ℕ) (k : ℕ) (r : ℤ) (calls : List Call)
    → k ≤ length buf
    → 0 < k
    → Result p (drop k buf) (r, calls)
    → Taken buf (data_result p.args k r) × (length calls ≤ 1)
data_result-Taken p buf k (negsuc n) calls le some_read h = (tt, h)
data_result-Taken p buf k (pos n) calls le some_read h =
    elim (Bool-cases ((n == 0) && ltb 0 (length p.args))) [
      | inl e ↦ rw e (tt, h.0)
      | inr e ↦ rw e ((omega (arith, h.1, length-drop k buf), λ z. absurd (omega (arith, z))), h.0)
    ]

module _ (failed : Call → Bool) (m : Manager) (buf : List ℕ) (ext : ℤ) (r : IsRegistered m) where
  unpack_rest-Dispatched :
      (id k : ℕ)
      → k ≤ length buf
      → 0 < k
      → Yields (Dispatched m buf) (unpack_rest failed m buf ext id k)
  unfolding unpack_rest
  unpack_rest-Dispatched id k le some_read = elim (Option-cases (get_elem? m.protos id)) [
    | inl e ↦
        rw (unpack_rest, e)
          (yields (record { taken = tt; calls = omega arith; registered = r; same_protos = refl }))
    | inr (self, e) ↦
        let entry = r.entries id self e in
        let p : NetProtocol = entry.object in
        let not_null : (self == null) ≡ false = ground (arith, entry.not_null) in
        rw (unpack_rest, e, not_null, at_object, entry.live)
          (Yields-bind (unpack_call-Result failed p (drop k buf) ext) λ out h.
            let t = data_result-Taken p buf k out.0 out.1 le some_read h in
            let c = count_unpack-IsRegistered m self p r entry.live in
            yields (record { taken = t.0; calls = t.1; registered = c.0; same_protos = c.1 }))
  ]

  -- `unpack_data` on any bytes, with protocols that are live objects under their numbers, ends and reads
  -- no byte past the buffer. It returns an error, or the number of bytes taken, which is no more than
  -- there are and is 0 only if there are fewer than three; at most one handler is called
  pub unpack_data-Dispatched : Yields (Dispatched m buf) (unpack_data failed m buf ext)
  unfolding unpack_data
  unpack_data-Dispatched =
      Yields-if (ltb (length buf) 1) (λ less. yields (short (ground arith)))
        λ more. rw (read-ok buf 0 1 (ground arith)) (
          Yields-if (value_of (take 1 buf) == 0)
            (λ _.
              Yields-if (ltb (length buf) 3) (λ less. yields (short (ground arith)))
                λ long. rw (read-ok buf 1 2 (ground arith)) (
                  unpack_rest-Dispatched (value_of (take 2 (drop 1 buf))) 3 (ground arith)
                    (omega arith)))
            (λ _. unpack_rest-Dispatched (value_of (take 1 buf)) 1 (ground arith) (omega arith)))
    where
      short : length buf < 3 → Dispatched m buf (pos 0, [], m)
      short less = record {
        taken = (omega arith, λ z. less);
        calls = omega arith;
        registered = r;
        same_protos = refl;
      }
