-- ===== src/Cpp/KvParser/Print.antt =====
-- `make_str`, and what `parse_string` makes of it.
use mathlib.Core.List.{append_assoc, append-nil}
use donkeyji.Prelude.{
  ℕ, zero, suc, ◌+◌, ◌-◌, ◌<◌, ◌≡◌, refl, ap, Bool, true, false, List, [], ◌∷◌, ◌++◌, arith, ltb,
  ◌==◌, length, length-append,
}
use donkeyji.Prelude.Exec.{ok}
use donkeyji.Cpp.KvParser.{
  KvMap, text_less, assign, skip, some_bytes, before_key, in_key, before_value, in_value,
  parse_loop, parse_string, print_loop, write_at, make_str, c_str,
}
use donkeyji.Cpp.KvParser.Words.{All, StopsAt, skip-stop, skip-append, word-append}
use donkeyji.Cpp.KvParser.Entries.{
  not_nul, IsKey, IsValue, Expressible, Below, IsOrdered, Before, assign-last,
}
use donkeyji.Cpp.KvParser.Parse.{some_pairs}

-- a pair with what follows it, and what follows a value
abbrev pair_text : List ℕ → List ℕ → List ℕ → List ℕ
pair_text k v s = k ++ (b'=' ∷ (v ++ s))

abbrev rest_text : KvMap → List ℕ
rest_text [] = []
rest_text ((k, v) ∷ m) = b';' ∷ pair_text k v (rest_text m)

rest_text-stops : (m : KvMap) → StopsAt in_value (rest_text m)
rest_text-stops [] = tt
rest_text-stops (p ∷ m) = refl

StopsAt-append :
    (p : ℕ → Bool) (w s : List ℕ) → some_bytes w ≡ true → StopsAt p w → StopsAt p (w ++ s)
StopsAt-append p [] s e h = cc
StopsAt-append p (c ∷ w) s e h = h

All-append : (p : ℕ → Bool) (w s : List ℕ) → All p w → All p s → All p (w ++ s)
All-append p [] s a b = b
All-append p (c ∷ w) s a b = (a.0, All-append p w s a.1 b)

-- one round on a text that starts, after separators, with a pair
round-pair :
    (f c : ℕ) (s k v : List ℕ) (m kv : KvMap) (has_kv : Bool)
    → IsKey k
    → IsValue v
    → skip before_key (c ∷ s) ≡ pair_text k v (rest_text m)
    → parse_loop (suc f) (c ∷ s) kv has_kv ≡ parse_loop f (rest_text m) (assign k v kv) true
unfolding parse_loop
round-pair f c s k v m kv has_kv a b e =
    let value_starts = StopsAt-append before_value v (rest_text m) b.some_value b.start in
    let after_key : skip before_value (b'=' ∷ (v ++ rest_text m)) ≡ v ++ rest_text m =
      skip-append before_value (b'=' ∷ []) (v ++ rest_text m) (refl, tt) value_starts in
    rw (
      e,
      word-append in_key k (b'=' ∷ (v ++ rest_text m)) a.bytes refl,
      skip-append in_key k (b'=' ∷ (v ++ rest_text m)) a.bytes refl,
      after_key,
      word-append in_value v (rest_text m) b.bytes (rest_text-stops m),
      skip-append in_value v (rest_text m) b.bytes (rest_text-stops m),
      a.some_key,
      b.some_value,
    )

-- the keys of `kv` are below those of `m`
abbrev AllBefore : KvMap → KvMap → Type 0
AllBefore kv [] = Unit {0}
AllBefore kv ((k, v) ∷ m) = Before kv k × AllBefore kv m

Before-snoc :
    (k v j : List ℕ) (kv : KvMap)
    → Before kv j
    → text_less k j ≡ true
    → Before (kv ++ ((k, v) ∷ [])) j
Before-snoc k v j [] b h = (h, tt)
Before-snoc k v j ((i, w) ∷ kv) b h = (b.0, Before-snoc k v j kv b.1 h)

AllBefore-snoc :
    (k v : List ℕ) (kv m : KvMap) → AllBefore kv m → Below k m → AllBefore (kv ++ ((k, v) ∷ [])) m
AllBefore-snoc k v kv [] b h = tt
AllBefore-snoc k v kv ((j, w) ∷ m) b h =
    (Before-snoc k v j kv b.0 h.0, AllBefore-snoc k v kv m b.1 h.1)

AllBefore-nil : (m : KvMap) → AllBefore [] m
AllBefore-nil [] = tt
AllBefore-nil (p ∷ m) = (tt, AllBefore-nil m)

parse_loop-nil :
    (f : ℕ) (kv : KvMap) (has_kv : Bool) → parse_loop (suc f) [] kv has_kv ≡ ok (kv, has_kv)
unfolding parse_loop
parse_loop-nil f kv has_kv = refl

parse_loop-rest :
    (f : ℕ) (m kv : KvMap)
    → length (rest_text m) < f
    → IsOrdered m
    → Expressible m
    → AllBefore kv m
    → parse_loop f (rest_text m) kv true ≡ ok (kv ++ m, true)
parse_loop-rest zero m kv h o e b = absurd (omega arith)
parse_loop-rest (suc f) [] kv h o e b = rw (append-nil kv) (parse_loop-nil f kv true)
parse_loop-rest (suc f) ((k, v) ∷ m) kv h o e b =
    let size = length-append k (b'=' ∷ (v ++ rest_text m)) in
    let size' = length-append v (rest_text m) in
    let starts =
      StopsAt-append before_key k (b'=' ∷ (v ++ rest_text m)) (e.0).some_key (e.0).start in
    rw (
      round-pair f b';' (pair_text k v (rest_text m)) k v m kv true e.0 e.1
          (skip-append before_key (b';' ∷ []) (pair_text k v (rest_text m)) (refl, tt) starts),
      assign-last k v kv b.0,
      parse_loop-rest f m (kv ++ ((k, v) ∷ [])) (omega (arith, size, size')) o.1 e.2
          (AllBefore-snoc k v kv m b.1 o.0),
      append_assoc kv ((k, v) ∷ []) m,
    )

-- what `make_str` leaves before the NUL
abbrev joined : KvMap → List ℕ
joined [] = []
joined ((k, v) ∷ m) = pair_text k v (rest_text m)

rest_text-print : (m : KvMap) → rest_text m ++ (b';' ∷ []) ≡ b';' ∷ print_loop m
unfolding print_loop
rest_text-print [] = refl
rest_text-print ((k, v) ∷ m) = rw (
  append_assoc k (b'=' ∷ (v ++ rest_text m)) (b';' ∷ []),
  append_assoc v (rest_text m) (b';' ∷ []),
  rest_text-print m,
)

print_loop-joined :
    (k v : List ℕ) (m : KvMap) → print_loop ((k, v) ∷ m) ≡ joined ((k, v) ∷ m) ++ (b';' ∷ [])
unfolding print_loop
print_loop-joined k v m = rw (
  append_assoc k (b'=' ∷ (v ++ rest_text m)) (b';' ∷ []),
  append_assoc v (rest_text m) (b';' ∷ []),
  rest_text-print m,
)

write_at-last : (xs : List ℕ) (y c : ℕ) → write_at (xs ++ (y ∷ [])) (length xs) c ≡ xs ++ (c ∷ [])
unfolding write_at
write_at-last [] y c = refl
write_at-last (x ∷ xs) y c = ap (◌∷◌ x) (write_at-last xs y c)

c_str-nul : (xs ys : List ℕ) → All not_nul xs → c_str (xs ++ (0 ∷ ys)) ≡ xs
unfolding c_str
c_str-nul [] ys a = refl
c_str-nul (x ∷ xs) ys a =
    let not_zero : (x == 0) ≡ false = ground (arith, a.0) in
    rw not_zero (ap (◌∷◌ x) (c_str-nul xs ys a.1))

pair_text-not_nul :
    (k v s : List ℕ) → IsKey k → IsValue v → All not_nul s → All not_nul (pair_text k v s)
pair_text-not_nul k v s a b h =
    All-append not_nul k (b'=' ∷ (v ++ s)) a.text (refl, All-append not_nul v s b.text h)

rest_text-not_nul : (m : KvMap) → Expressible m → All not_nul (rest_text m)
rest_text-not_nul [] e = tt
rest_text-not_nul ((k, v) ∷ m) e =
    (refl, pair_text-not_nul k v (rest_text m) e.0 e.1 (rest_text-not_nul m e.2))

c_str-make_str :
    (k v : List ℕ) (m : KvMap)
    → Expressible ((k, v) ∷ m)
    → c_str (make_str ((k, v) ∷ m)) ≡ joined ((k, v) ∷ m)
unfolding make_str
c_str-make_str k v m e =
    let text = joined ((k, v) ∷ m) in
    let size = length-append text (b';' ∷ []) in
    let some_text : ltb 0 (length (text ++ (b';' ∷ []))) ≡ true = ground (arith, size) in
    let last : length (text ++ (b';' ∷ [])) - 1 ≡ length text = omega (arith, size) in
    rw (print_loop-joined k v m, some_text, last, write_at-last text b';' 0)
      (c_str-nul text [] (pair_text-not_nul k v (rest_text m) e.0 e.1 (rest_text-not_nul m e.2)))

parse_string-pair :
    (k v : List ℕ) (m : KvMap)
    → IsOrdered ((k, v) ∷ m)
    → Expressible ((k, v) ∷ m)
    → parse_string (pair_text k v (rest_text m)) [] ≡ ok ((k, v) ∷ m, true)
unfolding parse_string
parse_string-pair [] v m o e = cc ((e.0).some_key)
parse_string-pair (c ∷ k) v m o e =
    let tail = pair_text k v (rest_text m) in
    let fuel : length (c ∷ tail) + 1 ≡ suc (length (c ∷ tail)) = omega arith in
    let size = length-append k (b'=' ∷ (v ++ rest_text m)) in
    let size' = length-append v (rest_text m) in
    rw (
      fuel,
      round-pair (length (c ∷ tail)) c tail (c ∷ k) v m [] false e.0 e.1
          (skip-stop before_key (c ∷ tail) (e.0).start),
      assign-last (c ∷ k) v [] tt,
      parse_loop-rest (length (c ∷ tail)) m ((c ∷ k, v) ∷ []) (omega (arith, size, size')) o.1 e.2
          (AllBefore-snoc (c ∷ k) v [] m (AllBefore-nil m) o.0),
    )

-- A map in order, whose pairs can be written, is what `parse_string` makes of the C string that
-- `make_str` gives for it, and the result says whether there is a pair.
pub parse_string-make_str :
    (kv : KvMap)
    → IsOrdered kv
    → Expressible kv
    → parse_string (c_str (make_str kv)) [] ≡ ok (kv, some_pairs kv)
unfolding parse_string parse_loop make_str c_str print_loop
parse_string-make_str [] o e = refl
parse_string-make_str ((k, v) ∷ m) o e = rw (c_str-make_str k v m e) (parse_string-pair k v m o e)
