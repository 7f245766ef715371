-- ===== src/Cpp/KvParser.antt =====
-- cpp/kv_parser.cpp: texts of the form `key=value;key=value` and a map of strings.
-- A C string is the list of its bytes before the NUL, so a place in it is the list of the bytes from
-- there on, `[]` being the NUL. A `std::string` may hold NUL bytes. A `std::map` is the list of its
-- pairs in the order of their keys. Lengths are below 2^31.
pub mod Words
pub mod Entries
pub mod Parse
pub mod Print
mod Tests
use donkeyji.Prelude.{
  ℕ, zero, suc, ◌+◌, ◌-◌, Bool, true, false, ◌&&◌, ◌||◌, not, Option, none, some, List, [], ◌∷◌,
  ◌++◌, ltb, ◌==◌, if◌then◌else◌, length, same_text,
}
use donkeyji.Prelude.Exec.{Exec, ok, out_of_fuel, ◌>>=◌}

abbrev pub KvMap : Type 0
KvMap = List (List ℕ × List ℕ)

-- `std::string` order; `same_text` is its equality
unfoldable pub text_less : List ℕ → List ℕ → Bool
text_less xs [] = false
text_less [] (y ∷ ys) = true
text_less (x ∷ xs) (y ∷ ys) = ltb x y || (x == y && text_less xs ys)

-- `result[key] = value`
unfoldable pub assign : List ℕ → List ℕ → KvMap → KvMap
assign k v [] = (k, v) ∷ []
assign k v ((j, w) ∷ m) =
    if same_text j k
    then (k, v) ∷ m
    else if text_less k j
    then (k, v) ∷ (j, w) ∷ m
    else (j, w) ∷ assign k v m

unfoldable pub find : List ℕ → KvMap → Option (List ℕ)
find k [] = none
find k ((j, w) ∷ m) = if same_text j k then some w else find k m

-- `while (str[i] != '\0' && p (str[i])) ++i;`: where the loop ends, and what it passes over
unfoldable pub skip : (ℕ → Bool) → List ℕ → List ℕ
skip p [] = []
skip p (c ∷ s) = if p c then skip p s else c ∷ s

unfoldable pub word : (ℕ → Bool) → List ℕ → List ℕ
word p [] = []
word p (c ∷ s) = if p c then c ∷ word p s else []

abbrev pub before_key : ℕ → Bool
before_key c = c == b';' || c == b' '

abbrev pub in_key : ℕ → Bool
in_key c = not (c == b' ') && not (c == b'=')

abbrev pub before_value : ℕ → Bool
before_value c = c == b'=' || c == b' '

abbrev pub in_value : ℕ → Bool
in_value c = not (c == b' ') && not (c == b';')

abbrev pub some_bytes : List ℕ → Bool
some_bytes [] = false
some_bytes (c ∷ s) = true

-- the outer loop, with the map and `has_kv`
unfoldable pub parse_loop : ℕ → List ℕ → KvMap → Bool → Exec (KvMap × Bool)
parse_loop zero str kv has_kv = out_of_fuel
parse_loop (suc k) str kv has_kv =
    let key_start = skip before_key str in
    let key = word in_key key_start in
    let value_start = skip before_value (skip in_key key_start) in
    let value = word in_value value_start in
    let found = some_bytes key && some_bytes value in
    let rest =
      parse_loop k (skip in_value value_start) (if found then assign key value kv else kv)
        (if found then true else has_kv) in
    elim str [ [] ↦ ok (kv, has_kv) | _ ∷ _ ↦ rest ]

-- every round takes at least one byte
unfoldable pub parse_string : List ℕ → KvMap → Exec (KvMap × Bool)
parse_string str kv = parse_loop (length str + 1) str kv false

-- the constructor
unfoldable pub kv_parser : List ℕ → Exec KvMap
kv_parser str = do (kv, has_kv) ← parse_string str []; ok kv

unfoldable pub clear : KvMap → KvMap
clear kv = []

unfoldable pub get : List ℕ → KvMap → Option (List ℕ)
get key kv = find key kv

unfoldable pub set : List ℕ → List ℕ → KvMap → KvMap
set key value kv = assign key value kv

-- the loop of `make_str`
unfoldable pub print_loop : KvMap → List ℕ
print_loop [] = []
print_loop ((k, v) ∷ m) = k ++ (b'=' ∷ (v ++ (b';' ∷ print_loop m)))

-- `out[i] = c`
unfoldable pub write_at : List ℕ → ℕ → ℕ → List ℕ
write_at [] i c = []
write_at (x ∷ xs) zero c = c ∷ xs
write_at (x ∷ xs) (suc i) c = x ∷ write_at xs i c

unfoldable pub make_str : KvMap → List ℕ
make_str kv =
    let out = print_loop kv in if ltb 0 (length out) then write_at out (length out - 1) 0 else out

-- the C string that a `std::string` starts with
unfoldable pub c_str : List ℕ → List ℕ
c_str [] = []
c_str (c ∷ s) = if c == 0 then [] else c ∷ c_str s
