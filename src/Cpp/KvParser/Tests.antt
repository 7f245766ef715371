-- ===== src/Cpp/KvParser/Tests.antt =====
-- Runs of cpp/kv_parser.cpp at fixed inputs, and its theorems at inputs that meet their hypotheses.
use donkeyji.Prelude.{same_text, ℕ, ◌≡◌, refl, true, List, [], ◌∷◌, arith}
use donkeyji.Prelude.Exec.{ok, Yields}
use donkeyji.Cpp.KvParser.{
  KvMap, text_less, assign, skip, word, parse_loop, parse_string, make_str, c_str,
}
use donkeyji.Cpp.KvParser.Entries.{Expressible, IsOrdered}
use donkeyji.Cpp.KvParser.Parse.{Parsed, some_pairs, parse_string-Parsed}
use donkeyji.Cpp.KvParser.Print.{parse_string-make_str}

-- `; a = 1;b=;c=2`
abbrev text : List ℕ
text =
    b';' ∷ b' ' ∷ b'a' ∷ b' ' ∷ b'=' ∷ b' ' ∷ b'1' ∷ b';' ∷ b'b' ∷ b'=' ∷ b';' ∷ b'c' ∷ b'=' ∷ b'2'
    ∷ []

abbrev a1_c2 : KvMap
a1_c2 = (b'a' ∷ [], b'1' ∷ []) ∷ (b'c' ∷ [], b'2' ∷ []) ∷ []

parse_string-Parsed_example : Yields Parsed (parse_string text [])
parse_string-Parsed_example = parse_string-Parsed text (ground arith)

a1_c2-Expressible : Expressible a1_c2
a1_c2-Expressible = ground arith

a1_c2-IsOrdered : IsOrdered a1_c2
unfolding text_less
a1_c2-IsOrdered = ((refl, tt), (tt, tt))

parse_string-make_str_example :
    parse_string (c_str (make_str a1_c2)) [] ≡ ok (a1_c2, some_pairs a1_c2)
parse_string-make_str_example = parse_string-make_str a1_c2 a1_c2-IsOrdered a1_c2-Expressible

-- a key without a value is left out
parses : parse_string text [] ≡ ok ((b'a' ∷ [], b'1' ∷ []) ∷ (b'c' ∷ [], b'2' ∷ []) ∷ [], true)
unfolding parse_string parse_loop skip word assign same_text text_less
parses = refl
