-- ===== src/Mydb/DataFormat/Table/Compile.antt =====
-- The opcodes of a sample are those of its layout.
use mathlib.Core.List.{append_assoc}
use donkeyji.Prelude.{
  ℕ, ◌+◌, ◌≤◌, ◌<◌, ◌≡◌, refl, ◌∙◌, ap, inl, inr, Option, none, some, List, [], ◌∷◌, ◌++◌, arith,
  ltb, Bool-cases,
}
use donkeyji.Mydb.DataFormat.Array.{Format}
use donkeyji.Mydb.DataFormat.Table.{
  tb_begin, push_value, tb_end, Sample, no_entry, number_entry, text_entry, table_entry,
  invalid_entry, TableArg, max_table_deep, number_name, add_opcode, add_value, bind_arg, enter,
  travel_loop, travel_table, read_format,
}
use donkeyji.Mydb.DataFormat.Table.Layout.{
  Layout, no_field, value_field, table_field, body, opcodes_of,
}

-- the tables in a sample, at any depth
abbrev pub tables : Sample → ℕ
tables no_entry = 0
tables (number_entry key text rest) = tables rest
tables (text_entry key text name rest) = tables rest
tables (table_entry key text sub rest) = 1 + tables sub + tables rest
tables (invalid_entry rest) = tables rest

abbrev with_format : Option Format → ℕ → Option Layout → Option Layout
with_format none key l = none
with_format (some f) key none = none
with_format (some f) key (some l) = some (value_field key f l)

abbrev with_layout : Option Layout → ℕ → Option Layout → Option Layout
with_layout none key l = none
with_layout (some sub) key none = none
with_layout (some sub) key (some l) = some (table_field key sub l)

module _ (get_arg : List ℕ → Option Format) where
  -- the layout that a sample describes, if its keys and values are valid
  abbrev pub layout_of : Sample → Option Layout
  layout_of no_entry = some no_field
  layout_of (number_entry key text rest) = with_format (get_arg number_name) key (layout_of rest)
  layout_of (text_entry key text name rest) = with_format (get_arg name) key (layout_of rest)
  layout_of (table_entry key text sub rest) = with_layout (layout_of sub) key (layout_of rest)
  layout_of (invalid_entry rest) = none

  -- the opcodes of the layout are added, and the tables counted; or the sample has no layout, or there
  -- are more than ten tables
  pub data Travelled (s : Sample) (t : TableArg) : Option TableArg → Type 0 where
    travelled :
        (l : Layout) {u : TableArg}
        → layout_of s ≡ some l
        → u.opcodes ≡ t.opcodes ++ opcodes_of l
        → u.cur_table_deep ≡ t.cur_table_deep + tables s
        → t.cur_table_deep + tables s ≤ max_table_deep
        → Travelled s t (some u)
    no_layout : layout_of s ≡ none → Travelled s t none
    too_many : max_table_deep < t.cur_table_deep + tables s → Travelled s t none

  value-Travelled :
      (s rest : Sample) (f : Option Format) (key : ℕ) (text : List ℕ) (t : TableArg)
      → layout_of s ≡ with_format f key (layout_of rest)
      → tables s ≡ tables rest
      → ((u : TableArg)
          → u.cur_table_deep ≡ t.cur_table_deep
          → Travelled rest u (travel_loop get_arg rest u))
      → Travelled s t (bind_arg (add_value f key text t) (travel_loop get_arg rest))
  value-Travelled s rest none key text t e n next = no_layout e
  value-Travelled s rest (some f) key text t e n next =
      after (next (add_opcode (push_value key f) text t) refl)
    where
      after :
          {r : Option TableArg}
          → Travelled rest (add_opcode (push_value key f) text t) r
          → Travelled s t r
      after (travelled l h ops deep bound) =
          travelled (value_field key f l) (e ∙ rw h refl)
            (ops ∙ append_assoc t.opcodes (push_value key f ∷ []) (opcodes_of l)) (omega arith)
            (omega arith)
      after (no_layout h) = no_layout (e ∙ rw h refl)
      after (too_many h) = too_many (omega arith)

  table-Travelled :
      (key : ℕ) (text : List ℕ) (sub rest : Sample) (t : TableArg)
      → ((u : TableArg)
          → u.cur_table_deep ≤ max_table_deep
          → Travelled sub u (travel_loop get_arg sub u))
      → ((u : TableArg)
          → u.cur_table_deep ≤ max_table_deep
          → Travelled rest u (travel_loop get_arg rest u))
      → Travelled (table_entry key text sub rest) t (
          bind_arg
            (enter (add_opcode (tb_begin key) text t))
            λ u. bind_arg (travel_loop get_arg sub u) (travel_loop get_arg rest))
  table-Travelled key text sub rest t first second =
      elim (Bool-cases (ltb max_table_deep (t.cur_table_deep + 1))) [
        | inl e ↦ rw e (too_many (ground arith))
        | inr e ↦ rw e (inside (first entered (ground arith)))
      ]
    where
      entered : TableArg
      entered = record {
        opcodes = t.opcodes ++ (tb_begin key ∷ []);
        hashstr = t.hashstr ++ text;
        cur_table_deep = t.cur_table_deep + 1;
      }

      joined :
          (l k : Layout)
          → ((t.opcodes ++ (tb_begin key ∷ [])) ++ opcodes_of l) ++ opcodes_of k
            ≡ t.opcodes ++ opcodes_of (table_field key l k)
      joined l k =
          rw
            (
              append_assoc t.opcodes (tb_begin key ∷ []) (opcodes_of l),
              append_assoc t.opcodes (tb_begin key ∷ opcodes_of l) (opcodes_of k),
              append_assoc (body l) (tb_end ∷ []) (opcodes_of k),
              append_assoc (body l) (tb_end ∷ body k) (tb_end ∷ []),
            )
            refl

      after :
          {r : Option TableArg} (l : Layout) (u : TableArg)
          → layout_of sub ≡ some l
          → u.opcodes ≡ (t.opcodes ++ (tb_begin key ∷ [])) ++ opcodes_of l
          → u.cur_table_deep ≡ t.cur_table_deep + 1 + tables sub
          → Travelled rest u r
          → Travelled (table_entry key text sub rest) t r
      after l u h ops deep (travelled k h' ops' deep' bound) =
          travelled (table_field key l k) (rw (h, h') refl)
            (ops' ∙ (ap (λ os. os ++ opcodes_of k) ops ∙ joined l k)) (omega arith) (omega arith)
      after l u h ops deep (no_layout h') = no_layout (rw (h, h') refl)
      after l u h ops deep (too_many less) = too_many (omega arith)

      inside :
          {r : Option TableArg}
          → Travelled sub entered r
          → Travelled (table_entry key text sub rest) t (bind_arg r (travel_loop get_arg rest))
      inside (travelled l {u} h ops deep bound) = after l u h ops deep (second u (omega arith))
      inside (no_layout h) = no_layout (rw h refl)
      inside (too_many less) = too_many (omega arith)

  travel_loop-Travelled :
      (s : Sample) (t : TableArg)
      → t.cur_table_deep ≤ max_table_deep
      → Travelled s t (travel_loop get_arg s t)
  unfolding travel_loop
  travel_loop-Travelled no_entry t le = travelled no_field refl refl (omega arith) (omega arith)
  travel_loop-Travelled (number_entry key text rest) t le =
      value-Travelled (number_entry key text rest) rest (get_arg number_name) key
        (text ++ number_name) t refl refl λ u e. travel_loop-Travelled rest u (omega arith)
  travel_loop-Travelled (text_entry key text name rest) t le =
      value-Travelled (text_entry key text name rest) rest (get_arg name) key (text ++ name) t refl
        refl λ u e. travel_loop-Travelled rest u (omega arith)
  travel_loop-Travelled (table_entry key text sub rest) t le =
      table-Travelled key text sub rest t (λ u h. travel_loop-Travelled sub u h)
        (λ u h. travel_loop-Travelled rest u h)
  travel_loop-Travelled (invalid_entry rest) t le = no_layout refl

  -- `read_format` gives the opcodes of the layout that the sample describes; it fails if there is none,
  -- or if the sample has ten tables in it, at whatever depth, or more
  pub data IsFormat (s : Sample) : Option TableArg → Type 0 where
    is_format :
        (l : Layout) {u : TableArg}
        → layout_of s ≡ some l
        → u.opcodes ≡ opcodes_of l
        → tables s < max_table_deep
        → IsFormat s (some u)
    not_layout : layout_of s ≡ none → IsFormat s none
    many_tables : max_table_deep ≤ tables s → IsFormat s none

  Travelled-IsFormat :
      (s : Sample) (type : List ℕ) {r : Option TableArg}
      → Travelled s (record { opcodes = []; hashstr = type; cur_table_deep = 1 }) r
      → IsFormat s r
  Travelled-IsFormat s type (travelled l h ops deep bound) = is_format l h ops (omega arith)
  Travelled-IsFormat s type (no_layout h) = not_layout h
  Travelled-IsFormat s type (too_many less) = many_tables (omega arith)

  -- `read_format` translates a sample to the opcodes of the layout that it describes; it fails if there
  -- is none, or if the sample has ten or more tables in it, at whatever depth
  pub read_format-IsFormat : (type : List ℕ) (s : Sample) → IsFormat s (read_format get_arg type s)
  unfolding read_format travel_table
  read_format-IsFormat type s = Travelled-IsFormat s type (
      travel_loop-Travelled s (record { opcodes = []; hashstr = type; cur_table_deep = 1 })
        (omega arith))
