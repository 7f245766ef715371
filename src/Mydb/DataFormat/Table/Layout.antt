-- ===== src/Mydb/DataFormat/Table/Layout.antt =====
-- The tables that a sample describes, and the opcodes for them.
use donkeyji.Prelude.{ℕ, ◌+◌, ◌≡◌, false, List, [], ◌∷◌, ◌++◌, ◌==◌}
use donkeyji.Mydb.DataFormat.Array.{Value, table, Format}
use donkeyji.Mydb.DataFormat.Array.Fits.{Fits, Alike, most}
use donkeyji.Mydb.DataFormat.Table.{Opcode, tb_begin, push_value, tb_end}

-- the keys of a table, with the formats of the values or the layouts of the tables under them
pub data Layout : Type 0 where
  no_field : Layout
  value_field : ℕ → Format → Layout → Layout
  table_field : ℕ → Layout → Layout → Layout

abbrev pub body : Layout → List Opcode
body no_field = []
body (value_field key f l) = push_value key f ∷ body l
body (table_field key sub l) = tb_begin key ∷ (body sub ++ (tb_end ∷ body l))

-- with the end of the table
abbrev pub opcodes_of : Layout → List Opcode
opcodes_of l = body l ++ (tb_end ∷ [])

abbrev pub NotIn : ℕ → Layout → Type 0
NotIn k no_field = Unit {0}
NotIn k (value_field key f l) = ((k == key) ≡ false) × NotIn k l
NotIn k (table_field key sub l) = ((k == key) ≡ false) × NotIn k l

-- no key twice in a table
abbrev pub Distinct : Layout → Type 0
Distinct no_field = Unit {0}
Distinct (value_field key f l) = NotIn key l × Distinct l
Distinct (table_field key sub l) = NotIn key l × Distinct sub × Distinct l

-- the table has the fields, which fit
pub data FitsLayout : Layout → (ℕ → Value) → Type 0 where
  no_fields : {at : ℕ → Value} → FitsLayout no_field at
  value_fits :
      {key : ℕ} {f : Format} {l : Layout} {at : ℕ → Value}
      → Fits f (at key)
      → FitsLayout l at
      → FitsLayout (value_field key f l) at
  sub_fits :
      {key len : ℕ} {sub l : Layout} {at inner : ℕ → Value}
      → at key ≡ table len inner
      → FitsLayout sub inner
      → FitsLayout l at
      → FitsLayout (table_field key sub l) at

-- the fields of the two tables are alike
pub data AlikeLayout : Layout → (ℕ → Value) → (ℕ → Value) → Type 0 where
  none_alike : {at got : ℕ → Value} → AlikeLayout no_field at got
  value_alike :
      {key : ℕ} {f : Format} {l : Layout} {at got : ℕ → Value}
      → Alike f (at key) (got key)
      → AlikeLayout l at got
      → AlikeLayout (value_field key f l) at got
  sub_alike :
      {key len n : ℕ} {sub l : Layout} {at got inner found : ℕ → Value}
      → at key ≡ table len inner
      → got key ≡ table n found
      → AlikeLayout sub inner found
      → AlikeLayout l at got
      → AlikeLayout (table_field key sub l) at got

-- the bytes that the fields may take
abbrev most_inner : ((ℕ → Value) → ℕ) → Value → ℕ
most_inner most_sub (table len inner) = most_sub inner
most_inner most_sub v = 0

abbrev pub most_layout : Layout → (ℕ → Value) → ℕ
most_layout no_field at = 0
most_layout (value_field key f l) at = most f (at key) + most_layout l at
most_layout (table_field key sub l) at = most_inner (most_layout sub) (at key) + most_layout l at
