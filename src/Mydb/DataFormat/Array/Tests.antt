-- ===== src/Mydb/DataFormat/Array/Tests.antt =====
-- Arrays at fixed inputs, and the theorems on formats at inputs that meet their hypotheses.
use donkeyji.Prelude.{ℕ, ◌+◌, ◌≡◌, refl, List, [], ◌∷◌, arith}
use donkeyji.Prelude.Int.{ℤ, pos}
use donkeyji.Mydb.DataFormat.{packed, bytes_of, bits_of, pack_low, pack_word, bytes_of}
use donkeyji.Mydb.DataFormat.Array.{
  Value, Format, number, table, word_arg, array_arg, pack, unpack, pack_array, pack_loop,
}
use donkeyji.Mydb.DataFormat.Array.Loops.{Packs}
use donkeyji.Mydb.DataFormat.Array.Fits.{
  Fits, word_fits, table_fits, array_fits, Alike, most, pack-Packs,
}

abbrev no_text : ℤ → List ℕ
no_text n = []

-- pairs of numbers of 16 bits, as many as there are
abbrev pairs : Format
pairs = array_arg (array_arg word_arg 2) 0

abbrev pair : ℕ → Value
pair j = table 2 (λ i. number (pos (i + j)))

abbrev three_pairs : Value
three_pairs = table 3 pair

three_pairs-Fits : Fits pairs three_pairs
three_pairs-Fits = table_fits (omega arith) λ j p q. array_fits λ i r s. word_fits (omega arith)

pack-Packs_example :
    Packs
      (unpack pairs)
      (Alike pairs three_pairs)
      (most pairs three_pairs)
      20
      (pack no_text pairs three_pairs 20)
pack-Packs_example = pack-Packs no_text pairs three_pairs 20 three_pairs-Fits

packs_words :
    pack no_text (array_arg word_arg 0) (table 2 (λ i. number (pos (i + 255)))) 20
    ≡ packed (2 ∷ 0 ∷ 1 ∷ 1 ∷ 1 ∷ [])
unfolding pack pack_array pack_loop pack_word pack_low bytes_of bits_of
packs_words = refl
