-- ===== src/Mydb/Protocol/Names.antt =====
-- mydb/protocol.c: the check number of a protocol, and its name from the path of its file.
use Prim.Native.Nat.{bit_xor}
use donkeyji.Prelude.{
  ℕ, ◌+◌, ◌-◌, ◌*◌, ◌%◌, ◌^◌, Option, none, some, List, [], ◌∷◌, ◌++◌, ltb, leb, ◌==◌,
  if◌then◌else◌, take, drop, same_text,
}
use donkeyji.Mydb.Protocol.{Arg, NetProtocol}

-- `calc_hashnr` on `int`s as their 32 bits; a `char` has a sign
abbrev pub char_bits : ℕ → ℕ
char_bits c = if ltb c 128 then c else 2 ^ 32 - 256 + c

unfoldable pub hash_loop : List ℕ → (nr nr2 : ℕ) → ℕ
hash_loop [] nr nr2 = nr
hash_loop (c ∷ key) nr nr2 =
    hash_loop key (bit_xor nr (((nr % 64 + nr2) * char_bits c + nr * 2 ^ 8) % 2 ^ 32))
      ((nr2 + 3) % 2 ^ 32)

unfoldable pub calc_hashnr : List ℕ → ℕ
unfolding hash_loop
calc_hashnr key = hash_loop key 1 4

abbrev pub arg_names : List Arg → List ℕ
arg_names [] = []
arg_names (a ∷ args) = a.get_type ++ (a.get_hashstr ++ arg_names args)

unfoldable pub get_check_id : NetProtocol → ℕ
unfolding calc_hashnr
get_check_id p = calc_hashnr (p.pack_func_name ++ arg_names p.args)

-- the places of `std::string`, and `npos`
abbrev pub npos : ℕ
npos = 2 ^ 64 - 1

abbrev pub last_from : ℕ → List ℕ → (i found : ℕ) → ℕ
last_from c [] i found = found
last_from c (x ∷ xs) i found = last_from c xs (i + 1) (if x == c then i else found)

abbrev pub find_last_of : ℕ → List ℕ → ℕ
find_last_of c xs = last_from c xs 0 npos

abbrev pub substr : List ℕ → (from n : ℕ) → List ℕ
substr xs from n = take n (drop from xs)

-- "client", "server", and "c_", "s_"
abbrev pub client : List ℕ
client = 99 ∷ 108 ∷ 105 ∷ 101 ∷ 110 ∷ 116 ∷ []

abbrev pub server : List ℕ
server = 115 ∷ 101 ∷ 114 ∷ 118 ∷ 101 ∷ 114 ∷ []

abbrev pub client_prefix : List ℕ
client_prefix = 99 ∷ 95 ∷ []

abbrev pub server_prefix : List ℕ
server_prefix = 115 ∷ 95 ∷ []

-- `none` is an error. `begin_pos` and `end_pos` are unsigned, so no test of them with 0 holds
unfoldable pub process_type : (cur_char path : List ℕ) → NetProtocol → Option NetProtocol
process_type cur_char path p =
    let begin_pos = find_last_of 47 path in
    let end_pos = find_last_of 46 path in
    let name = substr path (begin_pos + 1) (end_pos - (begin_pos + 1)) in
    if leb end_pos begin_pos
    then none
    else if same_text (substr name 0 2) client_prefix
    then some (record p { pack_func_name = name; is_maker = same_text cur_char client })
    else if same_text (substr name 0 2) server_prefix
    then some (record p { pack_func_name = name; is_maker = same_text cur_char server })
    else none
