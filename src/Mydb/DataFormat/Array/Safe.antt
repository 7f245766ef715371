-- ===== src/Mydb/DataFormat/Array/Safe.antt =====
-- `unpack` on any bytes.
use donkeyji.Prelude.{
  ℕ, zero, suc, ◌+◌, ◌≤◌, ◌<◌, Option, none, some, List, arith, ◌==◌, update, length, drop,
  length-drop, take,
}
use donkeyji.Prelude.Exec.{Exec, ok, Yields, yields, Yields-bind, Yields-map, Yields-if}
use donkeyji.Mydb.DataFormat.{value_of}
use donkeyji.Mydb.DataFormat.Bytes.{Within, check_unpack-Within, read-ok}
use donkeyji.Mydb.DataFormat.Number.{
  unpack_number-Within, unpack_byte-Within, unpack_word-Within, unpack_dword-Within,
}
use donkeyji.Mydb.DataFormat.String.{unpack_string-Within}
use donkeyji.Mydb.DataFormat.Array.{
  Value, Format, number_arg, byte_arg, word_arg, dword_arg, string_arg, array_arg, number, string,
  unpack_loop, unpack_elements, unpack_array, unpack, pushed, new_table,
}

-- what was read is in the buffer, and no less than before
abbrev pub Ahead {ℓ} : {A : Type ℓ} → List ℕ → ℕ → Option (A × ℕ) → Type 0
Ahead buf n none = Unit {0}
Ahead buf n (some (x, readed_len)) = (n ≤ readed_len) × (readed_len ≤ length buf)

-- a call goes on with what was read, or returns 0 in turn
Yields-some {ℓ κ μ} :
    {A : Type ℓ} {B : Type κ} {P : Option B → Type μ} (n : ℕ) (buf : List ℕ) (r : Option (A × ℕ))
    (next : A × ℕ → Exec (Option B))
    → Ahead buf n r
    → P none
    → ((x : A) (m : ℕ) → n ≤ m → m ≤ length buf → Yields P (next (x, m)))
    → Yields P (elim r [ none ↦ ok none | some q ↦ next q ])
Yields-some n buf none next a stop go = yields stop
Yields-some n buf (some (x, m)) next a stop go = go x m a.0 a.1

module _ (unpack_base : List ℕ → Exec (Option (Value × ℕ)))
    (base_ok : (buf : List ℕ) → Yields (Within buf) (unpack_base buf)) where
  unpack_loop-Ahead :
      (count i : ℕ) (buf : List ℕ) (readed_len : ℕ) (at : ℕ → Value)
      → readed_len ≤ length buf
      → Yields (Ahead buf (readed_len + count)) (unpack_loop unpack_base count i buf readed_len at)
  unfolding unpack_loop
  unpack_loop-Ahead zero i buf readed_len at le = yields (omega arith, le)
  unpack_loop-Ahead (suc count) i buf readed_len at le =
      Yields-bind (base_ok (drop readed_len buf)) λ r w.
        Yields-some 1 (drop readed_len buf) r _ (one_read r w) tt λ v n some_read room.
          let fits : readed_len + n ≤ length buf = omega (arith, length-drop readed_len buf) in
          Yields-if (n == 0) (λ nothing. yields tt)
            (λ _.
              Yields-map (unpack_loop-Ahead count (i + 1) buf (readed_len + n) (update at i v) fits)
                (λ q a. farther q a some_read))
    where
      one_read :
          (r : Option (Value × ℕ))
          → Within (drop readed_len buf) r
          → Ahead (drop readed_len buf) 1 r
      one_read none w = tt
      one_read (some (v, n)) w = (omega (arith, w.0), w.1)

      farther :
          {n : ℕ} (q : Option ((ℕ → Value) × ℕ))
          → Ahead buf (readed_len + n + count) q
          → 1 ≤ n
          → Ahead buf (readed_len + suc count) q
      farther none a h = tt
      farther (some (t, m)) a h = (omega (arith, a.0), a.1)

  unpack_elements-Within :
      (array_len : ℕ) (buf : List ℕ) (readed_len : ℕ)
      → readed_len ≤ length buf
      → 0 < readed_len + array_len
      → Yields (Within buf) (unpack_elements unpack_base array_len buf readed_len)
  unfolding unpack_elements
  unpack_elements-Within array_len buf readed_len le some_len =
      Yields-bind (unpack_loop-Ahead array_len 1 buf readed_len new_table le) λ r a.
        Yields-some (readed_len + array_len) buf r _ a tt
          λ at n more room. yields (omega arith, room)

  unpack_array-Within :
      (size : ℕ) (buf : List ℕ) → Yields (Within buf) (unpack_array unpack_base size buf)
  unfolding unpack_array
  unpack_array-Within size buf =
      Yields-if (size == 0)
        (λ _. check_unpack-Within 1 buf λ one.
          rw (read-ok buf 0 1 one)
            (unpack_elements-Within (value_of (take 1 buf)) buf 1 one (omega arith)))
        (λ fixed. unpack_elements-Within size buf 0 (omega arith) (ground arith))

pushed-Within {ℓ} :
    {A : Type ℓ} (push : A → Value) (buf : List ℕ) {run : Exec (Option (A × ℕ))}
    → Yields (Within buf) run
    → Yields (Within buf) (pushed push run)
pushed-Within {A = A} push buf h = Yields-bind h λ r w. each r w
  where
    each :
        (r : Option (A × ℕ))
        → Within buf r
        → Yields (Within buf) (elim r [ none ↦ ok none | some (x, n) ↦ ok (some (push x, n)) ])
    each none w = yields tt
    each (some (x, n)) w = yields w

-- `unpack` of every format, on any bytes, ends, reads no byte past the buffer, and takes at least one
-- byte and no more than there are, or returns 0
pub unpack-Within : (f : Format) (buf : List ℕ) → Yields (Within buf) (unpack f buf)
unfolding unpack
unpack-Within number_arg buf = pushed-Within number buf (unpack_number-Within buf)
unpack-Within byte_arg buf = pushed-Within number buf (unpack_byte-Within buf)
unpack-Within word_arg buf = pushed-Within number buf (unpack_word-Within buf)
unpack-Within dword_arg buf = pushed-Within number buf (unpack_dword-Within buf)
unpack-Within string_arg buf = pushed-Within string buf (unpack_string-Within buf)
unpack-Within (array_arg base size) buf =
    unpack_array-Within (unpack base) (unpack-Within base) size buf
