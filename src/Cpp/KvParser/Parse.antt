-- ===== src/Cpp/KvParser/Parse.antt =====
-- `parse_string` on any text.
use donkeyji.Prelude.{
  ℕ, zero, suc, ◌+◌, ◌<◌, ◌≡◌, refl, sym, Bool, true, false, ◌&&◌, List, [], ◌∷◌, arith, length,
  Bool-cases, inl, inr,
}
use donkeyji.Prelude.Exec.{Yields, yields}
use donkeyji.Cpp.KvParser.{
  KvMap, assign, skip, word, some_bytes, before_key, in_key, before_value, in_value, parse_loop,
  parse_string,
}
use donkeyji.Cpp.KvParser.Words.{
  All, word-All, skip-StopsAt, word-of-StopsAt, word-All_of, skip-All_of, length-round,
}
use donkeyji.Cpp.KvParser.Entries.{
  not_nul, IsKey, IsValue, Expressible, IsOrdered, assign-IsOrdered, assign-Expressible,
}

abbrev pub some_pairs : KvMap → Bool
some_pairs [] = false
some_pairs (p ∷ m) = true

some_pairs-assign : (k v : List ℕ) (m : KvMap) → some_pairs (assign k v m) ≡ true
unfolding assign
some_pairs-assign k v [] = refl
some_pairs-assign k v ((j, w) ∷ m) = ground arith

-- the map is in order and can be written, and `has_kv` says whether it has anything
pub record Parsed (r : KvMap × Bool) : Type 0 where
  pub ordered : IsOrdered r.0
  pub expressible : Expressible r.0
  pub reported : r.1 ≡ some_pairs r.0

next-IsKey :
    (str : List ℕ)
    → All not_nul str
    → some_bytes (word in_key (skip before_key str)) ≡ true
    → IsKey (word in_key (skip before_key str))
next-IsKey str a e = record {
  some_key = e;
  bytes = word-All in_key (skip before_key str);
  start = word-of-StopsAt in_key before_key (skip before_key str) (skip-StopsAt before_key str);
  text = word-All_of in_key not_nul (skip before_key str) (skip-All_of before_key not_nul str a);
}

next-IsValue :
    (str : List ℕ)
    → All not_nul str
    → some_bytes (word in_value (skip before_value str)) ≡ true
    → IsValue (word in_value (skip before_value str))
next-IsValue str a e = record {
  some_value = e;
  bytes = word-All in_value (skip before_value str);
  start =
      word-of-StopsAt in_value before_value (skip before_value str) (skip-StopsAt before_value str);
  text =
      word-All_of in_value not_nul (skip before_value str) (skip-All_of before_value not_nul str a);
}

parse_loop-Parsed :
    (k : ℕ) (str : List ℕ) (kv : KvMap) (has_kv : Bool)
    → length str < k
    → All not_nul str
    → Parsed (kv, has_kv)
    → Yields Parsed (parse_loop k str kv has_kv)
unfolding parse_loop
parse_loop-Parsed zero str kv has_kv f a p = absurd (omega arith)
parse_loop-Parsed (suc k) [] kv has_kv f a p = yields p
parse_loop-Parsed (suc k) (c ∷ s) kv has_kv f a p =
    let key_start = skip before_key (c ∷ s) in
    let key = word in_key key_start in
    let after_key = skip in_key key_start in
    let value = word in_value (skip before_value after_key) in
    let more = length-round c s in
    let text = skip-All_of in_key not_nul key_start (skip-All_of before_key not_nul (c ∷ s) a) in
    let text' =
      skip-All_of in_value not_nul (skip before_value after_key)
        (skip-All_of before_value not_nul after_key text) in
    elim (Bool-cases (some_bytes key && some_bytes value)) [
      | inl e ↦ rw e (
          parse_loop-Parsed k (skip in_value (skip before_value after_key)) (assign key value kv)
            true (omega (arith, more)) text'
            (record {
              ordered = assign-IsOrdered key value kv p.ordered;
              expressible =
                  assign-Expressible key value kv (next-IsKey (c ∷ s) a (ground arith))
                    (next-IsValue after_key text (ground arith)) p.expressible;
              reported = sym (some_pairs-assign key value kv);
            }))
      | inr e ↦ rw e (
          parse_loop-Parsed k (skip in_value (skip before_value after_key)) kv has_kv
            (omega (arith, more)) text' p)
    ]

-- `parse_string` of any C string into an empty map ends. The map that it makes has its keys in order,
-- and pairs that can be written: keys and values are not empty, a key has no space or `=` and does
-- not start with `;`, a value has no space or `;` and does not start with `=`. The result says whether
-- there is a pair.
pub parse_string-Parsed : (str : List ℕ) → All not_nul str → Yields Parsed (parse_string str [])
unfolding parse_string
parse_string-Parsed str a =
    parse_loop-Parsed (length str + 1) str [] false (omega arith) a
      (record { ordered = tt; expressible = tt; reported = refl })
