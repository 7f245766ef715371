-- ===== src/Mydb/DataFormat/Table/Tests.antt =====
-- A table with a number, and a table with a word under it.
use donkeyji.Prelude.{ℕ, refl, Option, some, List, [], ◌∷◌, arith, update}
use donkeyji.Prelude.Int.{ℤ, pos}
use donkeyji.Mydb.DataFormat.Array.{Value, number, table, Format, number_arg, word_arg, new_table}
use donkeyji.Mydb.DataFormat.Array.Fits.{number_fits, word_fits}
use donkeyji.Mydb.DataFormat.Table.{
  Sample, no_entry, number_entry, text_entry, table_entry, pack_table, read_format,
}
use donkeyji.Mydb.DataFormat.Table.Layout.{
  Layout, no_field, value_field, table_field, opcodes_of, FitsLayout, no_fields, value_fits,
  sub_fits,
}
use donkeyji.Mydb.DataFormat.Table.Pack.{TablePacks, pack_table-TablePacks}
use donkeyji.Mydb.DataFormat.Table.Compile.{IsFormat, read_format-IsFormat}

abbrev no_digits : ℤ → List ℕ
no_digits n = []

-- keys 7 and 8, and 9 in the table under 8
abbrev fields : Layout
fields = value_field 7 number_arg (table_field 8 (value_field 9 word_arg no_field) no_field)

abbrev inner_values : ℕ → Value
inner_values = update new_table 9 (number (pos 513))

abbrev values : ℕ → Value
values = update (update new_table 7 (number (pos 5))) 8 (table 0 inner_values)

values-FitsLayout : FitsLayout fields values
values-FitsLayout = value_fits (number_fits (omega arith)) (
    sub_fits {inner = inner_values} refl (value_fits (word_fits (omega arith)) no_fields) no_fields)

pack_table-TablePacks_example :
    TablePacks fields values 10 (pack_table no_digits (opcodes_of fields) (table 0 values) 10)
pack_table-TablePacks_example =
    pack_table-TablePacks no_digits fields 0 values 10 ((refl, tt), (tt, (tt, tt), tt))
      values-FitsLayout

abbrev formats : List ℕ → Option Format
formats name = some word_arg

-- the sample of these fields, with the keys "a", "b" and "c"
abbrev sample : Sample
sample =
    number_entry 7 (97 ∷ [])
      (table_entry 8 (98 ∷ []) (text_entry 9 (99 ∷ []) (119 ∷ []) no_entry) no_entry)

read_format-IsFormat_example : IsFormat formats sample (read_format formats (116 ∷ []) sample)
read_format-IsFormat_example = read_format-IsFormat formats (116 ∷ []) sample
