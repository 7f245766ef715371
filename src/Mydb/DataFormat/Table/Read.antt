-- ===== src/Mydb/DataFormat/Table/Read.antt =====
-- The opcodes of a layout, followed by `unpack`.
use mathlib.Core.List.{append_assoc}
use donkeyji.Prelude.{
  ℕ, suc, ◌+◌, ◌≡◌, refl, sym, ◌∙◌, ap, subst, true, false, Option, some, List, ◌∷◌, ◌++◌, arith,
  ◌==◌, update, length, drop, length-append, drop-append,
}
use donkeyji.Prelude.Exec.{Exec, ok, Yields, Yields-value}
use donkeyji.Mydb.DataFormat.Array.{Value, table, Format, unpack, new_table}
use donkeyji.Mydb.DataFormat.Array.Fits.{Alike}
use donkeyji.Mydb.DataFormat.Table.{Opcode, tb_begin, push_value, tb_end, unpack_opcodes}
use donkeyji.Mydb.DataFormat.Table.Layout.{
  Layout, value_field, table_field, body, NotIn, AlikeLayout, value_alike, sub_alike,
}

-- the fields of `l` are read to the table on top, and its other fields are kept
pub record Filled (l : Layout) (at top : ℕ → Value) (ops : List Opcode)
    (under : List (ℕ × (ℕ → Value))) (buf : List ℕ) (n : ℕ) (run : Exec (Option (Value × ℕ)))
    : Type 0 where
  pub got : ℕ → Value
  pub value : run ≡ unpack_opcodes ops got under buf n
  pub alike : AlikeLayout l at got
  pub kept : (k : ℕ) → NotIn k l → got k ≡ top k

-- the bytes `more` behind `before` are read, whatever follows them
abbrev pub Reads : Layout → (ℕ → Value) → (before more : List ℕ) → Type 0
Reads l at before more =
    (buf rest : List ℕ)
    → buf ≡ before ++ (more ++ rest)
    → (ops : List Opcode) (top : ℕ → Value) (under : List (ℕ × (ℕ → Value)))
    → Filled l at top ops under buf (length before + length more)
        (unpack_opcodes (body l ++ ops) top under buf (length before))

unpack_value-step :
    (key n k : ℕ) (f : Format) (w : Value) (ops : List Opcode) (top : ℕ → Value)
    (under : List (ℕ × (ℕ → Value))) (buf tail : List ℕ)
    → drop n buf ≡ tail
    → unpack f tail ≡ ok (some (w, suc k))
    → unpack_opcodes (push_value key f ∷ ops) top under buf n
      ≡ unpack_opcodes ops (update top key w) under buf (n + suc k)
unfolding unpack_opcodes
unpack_value-step key n k f w ops top under buf tail here found =
    let some_bytes : (suc k == 0) ≡ false = ground arith in
    rw (unpack_opcodes, here, found, some_bytes) refl

-- a value is read, and then the other fields
Filled-value :
    {key : ℕ} {f : Format} {l : Layout} {at top : ℕ → Value} {ops : List Opcode}
    {under : List (ℕ × (ℕ → Value))} {buf : List ℕ} {n : ℕ} {run next : Exec (Option (Value × ℕ))}
    (w : Value)
    → NotIn key l
    → Alike f (at key) w
    → run ≡ next
    → Filled l at (update top key w) ops under buf n next
    → Filled (value_field key f l) at top ops under buf n run
Filled-value {key} {f} {at} {top} w apart alike e y =
    let mine : (key == key) ≡ true = ground arith in
    let is_w : y.got key ≡ w = y.kept key apart ∙ rw mine refl in
    record {
      got = y.got;
      value = e ∙ y.value;
      alike = value_alike (subst (Alike f (at key)) (sym is_w) alike) y.alike;
      kept = λ k out. y.kept k out.1 ∙ rw out.0 refl;
    }

pub read_value :
    (key : ℕ) (f : Format) (l : Layout) (at : ℕ → Value) (before : List ℕ) (x : ℕ)
    (xs more : List ℕ)
    → NotIn key l
    → ((rest : List ℕ)
        → Yields
            (λ r. (w : Value) × (r ≡ some (w, length (x ∷ xs))) × Alike f (at key) w)
            (unpack f ((x ∷ xs) ++ rest)))
    → Reads l at (before ++ (x ∷ xs)) more
    → Reads (value_field key f l) at before ((x ∷ xs) ++ more)
read_value key f l at before x xs more apart back reads buf rest e ops top under =
    let e' : buf ≡ before ++ ((x ∷ xs) ++ (more ++ rest)) =
      e ∙ ap (λ b. before ++ b) (append_assoc (x ∷ xs) more rest) in
    let here : drop (length before) buf ≡ (x ∷ xs) ++ (more ++ rest) =
      rw (e', drop-append before ((x ∷ xs) ++ (more ++ rest))) refl in
    let (r, found, (w, is_w, alike)) = Yields-value (back (more ++ rest)) in
    let after =
      reads buf rest (e' ∙ sym (append_assoc before (x ∷ xs) (more ++ rest))) ops (update top key w)
        under in
    let size : length (before ++ (x ∷ xs)) ≡ length before + suc (length xs) =
      length-append before (x ∷ xs) in
    let total : length (before ++ (x ∷ xs)) + length more
        ≡ length before + length ((x ∷ xs) ++ more) =
      omega (arith, length-append before (x ∷ xs), length-append (x ∷ xs) more) in
    Filled-value w apart alike
      (unpack_value-step key (length before) (length xs) f w (body l ++ ops) top under buf _ here
          (found ∙ ap ok is_w)
        ∙ ap (unpack_opcodes (body l ++ ops) (update top key w) under buf) (sym size))
      (subst
        (λ n. Filled l at (update top key w) ops under buf n (
          unpack_opcodes (body l ++ ops) (update top key w) under buf
            (length (before ++ (x ∷ xs)))))
        total after)

-- a table is read, and then the other fields
Filled-table :
    {key len : ℕ} {sub l : Layout} {at top inner : ℕ → Value} {ops : List Opcode}
    {under : List (ℕ × (ℕ → Value))} {buf : List ℕ} {n : ℕ} {run next : Exec (Option (Value × ℕ))}
    (found : ℕ → Value)
    → NotIn key l
    → at key ≡ table len inner
    → AlikeLayout sub inner found
    → run ≡ next
    → Filled l at (update top key (table 0 found)) ops under buf n next
    → Filled (table_field key sub l) at top ops under buf n run
Filled-table {key} {at} {top} found apart inside alike e y =
    let mine : (key == key) ≡ true = ground arith in
    let is_table : update top key (table 0 found) key ≡ table 0 found = rw mine refl in
    record {
      got = y.got;
      value = e ∙ y.value;
      alike = sub_alike inside (y.kept key apart ∙ is_table) alike y.alike;
      kept = λ k out. y.kept k out.1 ∙ rw out.0 refl;
    }

tb_end-step :
    (key n : ℕ) (ops : List Opcode) (top up : ℕ → Value) (under : List (ℕ × (ℕ → Value)))
    (buf : List ℕ)
    → unpack_opcodes (tb_end ∷ ops) top ((key, up) ∷ under) buf n
      ≡ unpack_opcodes ops (update up key (table 0 top)) under buf n
unfolding unpack_opcodes
tb_end-step key n ops top up under buf = refl

tb_begin-step :
    (key n : ℕ) (ops : List Opcode) (top : ℕ → Value) (under : List (ℕ × (ℕ → Value)))
    (buf : List ℕ)
    → unpack_opcodes (tb_begin key ∷ ops) top under buf n
      ≡ unpack_opcodes ops new_table ((key, top) ∷ under) buf n
unfolding unpack_opcodes
tb_begin-step key n ops top under buf = refl

pub read_table :
    (key len : ℕ) (sub l : Layout) (at inner : ℕ → Value) (before more next : List ℕ)
    → NotIn key l
    → at key ≡ table len inner
    → Reads sub inner before more
    → Reads l at (before ++ more) next
    → Reads (table_field key sub l) at before (more ++ next)
read_table key len sub l at inner before more next apart inside first second buf rest e ops top
      under =
    let e' : buf ≡ before ++ (more ++ (next ++ rest)) =
      e ∙ ap (λ b. before ++ b) (append_assoc more next rest) in
    let size = length-append before more in
    let total : length (before ++ more) + length next ≡ length before + length (more ++ next) =
      omega (arith, size, length-append more next) in
    let mid =
      first buf (next ++ rest) e' (tb_end ∷ (body l ++ ops)) new_table ((key, top) ∷ under) in
    let last =
      second buf rest (e' ∙ sym (append_assoc before more (next ++ rest))) ops
        (update top key (table 0 mid.got)) under in
    Filled-table mid.got apart inside mid.alike
      (tb_begin-step key (length before) ((body sub ++ (tb_end ∷ body l)) ++ ops) top under buf
        ∙ (ap (λ os. unpack_opcodes os new_table ((key, top) ∷ under) buf (length before))
              (append_assoc (body sub) (tb_end ∷ body l) ops)
            ∙ (mid.value
                ∙ (tb_end-step key (length before + length more) (body l ++ ops) mid.got top under
                      buf
                    ∙ ap
                        (unpack_opcodes (body l ++ ops) (update top key (table 0 mid.got)) under
                          buf)
                        (sym size)))))
      (subst
        (λ n. Filled l at (update top key (table 0 mid.got)) ops under buf n (
          unpack_opcodes (body l ++ ops) (update top key (table 0 mid.got)) under buf
            (length (before ++ more))))
        total last)
