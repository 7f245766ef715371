-- ===== src/Mydb/DataFormat/Table/Pack.antt =====
-- The opcodes of a layout pack the fields of a table, and unpack them again.
use mathlib.Core.List.{append_assoc, append-nil}
use donkeyji.Prelude.{
  ℕ, ◌+◌, ◌-◌, ◌≤◌, ◌<◌, ◌≡◌, refl, sym, ◌∙◌, ap, some, List, [], ◌∷◌, ◌++◌, arith, length,
  length-append,
}
use native.Mathlib.Nat.{add-zero, zero-add}
use donkeyji.Prelude.Int.{ℤ}
use donkeyji.Prelude.Exec.{Exec, ok}
use donkeyji.Mydb.DataFormat.{Packed, packed, refused}
use donkeyji.Mydb.DataFormat.Array.{Value, table, Format, unpack, new_table}
use donkeyji.Mydb.DataFormat.Array.Fits.{Alike, most, pack-Packs}
use donkeyji.Mydb.DataFormat.Array.Loops.{Packs, written, no_room}
use donkeyji.Mydb.DataFormat.Table.{
  Opcode, tb_end, after_value, pack_opcodes, pack_table, unpack_opcodes, but_last, unpack_table,
}
use donkeyji.Mydb.DataFormat.Table.Read.{Reads, read_value, read_table}
use donkeyji.Mydb.DataFormat.Table.Layout.{
  opcodes_of, Layout, no_field, value_field, table_field, body, NotIn, Distinct, FitsLayout,
  no_fields, value_fits, sub_fits, AlikeLayout, none_alike, most_layout,
}

-- The opcodes of `l` write `more` and go on, or refuse for want of room.
pub data BodyPacks (number_text : ℤ → List ℕ) (l : Layout) (at : ℕ → Value) (buf_len : ℕ)
    (before : List ℕ) (ops : List Opcode) (stack : List (ℕ → Value)) (run : Exec Packed)
    : Type 0 where
  body_written :
      (more : List ℕ)
      → run ≡ pack_opcodes number_text ops (at ∷ stack) buf_len (before ++ more)
      → length before + length more ≤ buf_len
      → length more ≤ most_layout l at
      → Reads l at before more
      → BodyPacks number_text l at buf_len before ops stack run
  body_no_room :
      run ≡ ok refused
      → buf_len < length before + most_layout l at
      → BodyPacks number_text l at buf_len before ops stack run

module _ (number_text : ℤ → List ℕ) where
  value-BodyPacks :
      (key : ℕ) (f : Format) (l : Layout) (at : ℕ → Value) (buf_len : ℕ) (before : List ℕ)
      (ops : List Opcode) (stack : List (ℕ → Value)) {p : Packed}
      → NotIn key l
      → length before ≤ buf_len
      → Packs (unpack f) (Alike f (at key)) (most f (at key)) (buf_len - length before) p
      → ((before' : List ℕ)
          → length before' ≤ buf_len
          → BodyPacks number_text l at buf_len before' ops stack
              (pack_opcodes number_text (body l ++ ops) (at ∷ stack) buf_len before'))
      → BodyPacks number_text (value_field key f l) at buf_len before ops stack (
          after_value p λ bytes.
            pack_opcodes number_text (body l ++ ops) (at ∷ stack) buf_len (before ++ bytes))
  value-BodyPacks key f l at buf_len before ops stack apart room
        (written {bytes = []} fits some_bytes le back) next =
      absurd (omega arith)
  value-BodyPacks key f l at buf_len before ops stack apart room
        (written {bytes = x ∷ xs} fits some_bytes le back) next =
      after (next (before ++ (x ∷ xs)) (omega (arith, length-append before (x ∷ xs))))
    where
      after :
          {run : Exec Packed}
          → BodyPacks number_text l at buf_len (before ++ (x ∷ xs)) ops stack run
          → BodyPacks number_text (value_field key f l) at buf_len before ops stack run
      after (body_written more e room' le' reads) =
          body_written ((x ∷ xs) ++ more)
            (e
              ∙ ap (pack_opcodes number_text ops (at ∷ stack) buf_len)
                  (append_assoc before (x ∷ xs) more))
            (omega (arith, length-append before (x ∷ xs), length-append (x ∷ xs) more))
            (omega (arith, length-append (x ∷ xs) more))
            (read_value key f l at before x xs more apart back reads)
      after (body_no_room e less) = body_no_room e (omega (arith, length-append before (x ∷ xs)))
  value-BodyPacks key f l at buf_len before ops stack apart room (no_room less) next =
      body_no_room refl (omega arith)

  table-BodyPacks :
      (key len : ℕ) (sub l : Layout) (at inner : ℕ → Value) (buf_len : ℕ) (before : List ℕ)
      (ops : List Opcode) (stack : List (ℕ → Value)) {run : Exec Packed}
      → NotIn key l
      → at key ≡ table len inner
      → BodyPacks number_text sub inner buf_len before (tb_end ∷ (body l ++ ops)) (at ∷ stack) run
      → ((before' : List ℕ)
          → length before' ≤ buf_len
          → BodyPacks number_text l at buf_len before' ops stack
              (pack_opcodes number_text (body l ++ ops) (at ∷ stack) buf_len before'))
      → BodyPacks number_text (table_field key sub l) at buf_len before ops stack run
  unfolding pack_opcodes
  table-BodyPacks key len sub l at inner buf_len before ops stack {run} apart inside
        (body_written more e room le reads) next =
      after (next (before ++ more) (omega (arith, length-append before more)))
    where
      whole : most_layout (table_field key sub l) at ≡ most_layout sub inner + most_layout l at
      whole = rw inside refl

      after :
          BodyPacks number_text l at buf_len
            (before ++ more)
            ops
            stack
            (pack_opcodes number_text (body l ++ ops) (at ∷ stack) buf_len (before ++ more))
          → BodyPacks number_text (table_field key sub l) at buf_len before ops stack run
      after (body_written next' e' room' le' reads') =
          body_written (more ++ next')
            (e
              ∙ (e'
                  ∙ ap (pack_opcodes number_text ops (at ∷ stack) buf_len)
                      (append_assoc before more next')))
            (omega (arith, length-append before more, length-append more next'))
            (omega (arith, whole, length-append more next'))
            (read_table key len sub l at inner before more next' apart inside reads reads')
      after (body_no_room e' less) =
          body_no_room (e ∙ e') (omega (arith, whole, length-append before more))
  table-BodyPacks key len sub l at inner buf_len before ops stack apart inside (body_no_room e less)
        next =
      let whole : most_layout (table_field key sub l) at
          ≡ most_layout sub inner + most_layout l at =
        rw inside refl in
      body_no_room e (omega (arith, whole))

  pub body-BodyPacks :
      (l : Layout) (at : ℕ → Value) (buf_len : ℕ) (before : List ℕ) (ops : List Opcode)
      (stack : List (ℕ → Value))
      → Distinct l
      → FitsLayout l at
      → length before ≤ buf_len
      → BodyPacks number_text l at buf_len before ops stack
          (pack_opcodes number_text (body l ++ ops) (at ∷ stack) buf_len before)
  unfolding pack_opcodes
  body-BodyPacks no_field at buf_len before ops stack apart no_fields room =
      body_written [] (rw (append-nil before) refl) (omega arith) (omega arith)
        λ buf rest e ops top under. record {
          got = top;
          value = rw (add-zero (length before)) refl;
          alike = none_alike;
          kept = λ k h. refl;
        }
  body-BodyPacks (value_field key f l) at buf_len before ops stack apart (value_fits fit fits)
        room =
      value-BodyPacks key f l at buf_len before ops stack apart.0 room
        (pack-Packs number_text f (at key) (buf_len - length before) fit)
        λ before' room'. body-BodyPacks l at buf_len before' ops stack apart.1 fits room'
  body-BodyPacks (table_field key sub l) at buf_len before ops stack apart
        (sub_fits {inner} inside fit fits) room =
      rw (inside, append_assoc (body sub) (tb_end ∷ body l) ops)
        (table-BodyPacks key _ sub l at inner buf_len before ops stack apart.0 inside
          (body-BodyPacks sub inner buf_len before (tb_end ∷ (body l ++ ops)) (at ∷ stack) apart.1
            fit room)
          λ before' room'. body-BodyPacks l at buf_len before' ops stack apart.2 fits room')

-- What the format promises for a table with the fields of `l`: as for the other formats, for the bytes
-- of all fields.
pub data TablePacks (l : Layout) (at : ℕ → Value) (buf_len : ℕ) : Exec Packed → Type 0 where
  table_written :
      {bytes : List ℕ}
      → length bytes ≤ buf_len
      → length bytes ≤ most_layout l at
      → ((rest : List ℕ)
          → (got : ℕ → Value) × (unpack_table (opcodes_of l) (bytes ++ rest)
              ≡ ok (some (table 0 got, length bytes)))
            × AlikeLayout l at got)
      → TablePacks l at buf_len (ok (packed bytes))
  table_no_room : buf_len < most_layout l at → TablePacks l at buf_len (ok refused)

unpack_table-last :
    (ops : List Opcode) (op : Opcode) (buf : List ℕ)
    → unpack_table (ops ++ (op ∷ [])) buf ≡ unpack_opcodes ops new_table [] buf 0
unfolding unpack_table
unpack_table-last [] op buf = refl
unpack_table-last (o ∷ ops) op buf =
    ap (λ os. unpack_opcodes os new_table [] buf 0) (but_last-snoc o ops)
  where
    but_last-snoc : (o : Opcode) (os : List Opcode) → but_last (o ∷ (os ++ (op ∷ []))) ≡ o ∷ os
    but_last-snoc o [] = refl
    but_last-snoc o (p ∷ os) = ap (λ rest. o ∷ rest) (but_last-snoc p os)

BodyPacks-TablePacks :
    (number_text : ℤ → List ℕ) (l : Layout) (at : ℕ → Value) (buf_len : ℕ) {run : Exec Packed}
    → BodyPacks number_text l at buf_len [] (tb_end ∷ []) [] run
    → TablePacks l at buf_len run
unfolding pack_opcodes unpack_opcodes
BodyPacks-TablePacks number_text l at buf_len (body_written more e room le reads) = rw e (
    table_written (omega arith) le λ rest.
      let y = reads (more ++ rest) rest refl [] new_table [] in
      (
        y.got,
        unpack_table-last (body l) tb_end (more ++ rest)
            ∙ (ap (λ os. unpack_opcodes os new_table [] (more ++ rest) 0)
                  (sym (append-nil (body l)))
                ∙ (y.value ∙ rw (zero-add (length more)) refl)),
        y.alike,
      ))
BodyPacks-TablePacks number_text l at buf_len (body_no_room e less) =
    rw e (table_no_room (omega arith))

-- The opcodes of a layout, in which no table has a key twice, pack a table with these fields, which fit,
-- in the buffer, or refuse it as there is no room; `unpack` of the bytes, whatever follows them, gives a
-- table with fields alike, and their number
pub pack_table-TablePacks :
    (number_text : ℤ → List ℕ) (l : Layout) (len : ℕ) (at : ℕ → Value) (buf_len : ℕ)
    → Distinct l
    → FitsLayout l at
    → TablePacks l at buf_len (pack_table number_text (opcodes_of l) (table len at) buf_len)
unfolding pack_table
pack_table-TablePacks number_text l len at buf_len apart fits =
    BodyPacks-TablePacks number_text l at buf_len
      (body-BodyPacks number_text l at buf_len [] (tb_end ∷ []) [] apart fits (omega arith))
