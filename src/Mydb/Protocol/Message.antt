-- ===== src/Mydb/Protocol/Message.antt =====
-- `marshal` and `unpack` of a message: the arguments one after the other.
use mathlib.Core.List.{append_assoc, append-nil}
use donkeyji.Prelude.{
  ℕ, ◌+◌, ◌-◌, ◌≤◌, ◌<◌, ◌≡◌, refl, sym, ◌∙◌, false, some, List, [], ◌∷◌, ◌++◌, arith, ◌==◌, length,
  drop, length-append, drop-append,
}
use donkeyji.Prelude.Int.{ℤ}
use donkeyji.Prelude.Exec.{Yields, yields, Yields-bind}
use donkeyji.Mydb.DataFormat.{Packed, packed, raised}
use donkeyji.Mydb.DataFormat.Array.{Value, unpack}
use donkeyji.Mydb.DataFormat.Array.Fits.{Fits, Alike, most, pack-Packs}
use donkeyji.Mydb.DataFormat.Array.Loops.{Packs, written, no_room}
use donkeyji.Mydb.Protocol.{Arg, or_raise, marshal_loop, unpack_args}

-- a value that fits for every argument, and maybe more
pub data FitsAll : List Arg → List Value → Type 0 where
  all_fit : {vs : List Value} → FitsAll [] vs
  fits_next :
      {a : Arg} {args : List Arg} {v : Value} {vs : List Value}
      → Fits a.format v
      → FitsAll args vs
      → FitsAll (a ∷ args) (v ∷ vs)

-- the values sent and the values read
pub data AlikeAll : List Arg → List Value → List Value → Type 0 where
  all_alike : {vs : List Value} → AlikeAll [] vs []
  alike_next :
      {a : Arg} {args : List Arg} {v w : Value} {vs ws : List Value}
      → Alike a.format v w
      → AlikeAll args vs ws
      → AlikeAll (a ∷ args) (v ∷ vs) (w ∷ ws)

-- the bytes that the arguments may take
abbrev pub most_all : List Arg → List Value → ℕ
most_all [] vs = 0
most_all (a ∷ args) [] = 0
most_all (a ∷ args) (v ∷ vs) = most a.format v + most_all args vs

-- what is read from `buf`, of which `readed_len` bytes were read before
abbrev pub ReadsAll : List Arg → List Value → List ℕ → (readed_len n : ℕ) → Type 0
ReadsAll args vs buf readed_len n =
    Yields (λ r. (ws : List Value) × (r ≡ some (ws, n)) × AlikeAll args vs ws)
      (unpack_args args buf readed_len)

-- The message is `head`, `mid` and what `args` give. An error is for want of room.
pub data Marshals (args : List Arg) (vs : List Value) (buf_len : ℕ) (head mid : List ℕ)
    : Packed → Type 0 where
  marshalled :
      (body more : List ℕ)
      → body ≡ mid ++ more
      → length (head ++ body) ≤ buf_len
      → length mid + length args ≤ length body
      → length body ≤ length mid + most_all args vs
      → ((rest : List ℕ) → ReadsAll args vs (body ++ rest) (length mid) (length body))
      → Marshals args vs buf_len head mid (packed (head ++ body))
  no_space :
      buf_len < length head + length mid + most_all args vs
      → Marshals args vs buf_len head mid raised

-- one argument is read, and then the others
read_next :
    (a : Arg) (args : List Arg) (v : Value) (vs : List Value) (mid more body : List ℕ) (x : ℕ)
    (xs : List ℕ)
    → body ≡ (mid ++ (x ∷ xs)) ++ more
    → ((rest : List ℕ)
        → Yields
            (λ r. (w : Value) × (r ≡ some (w, length (x ∷ xs))) × Alike a.format v w)
            (unpack a.format ((x ∷ xs) ++ rest)))
    → ((rest : List ℕ) → ReadsAll args vs (body ++ rest) (length (mid ++ (x ∷ xs))) (length body))
    → (rest : List ℕ) → ReadsAll (a ∷ args) (v ∷ vs) (body ++ rest) (length mid) (length body)
unfolding unpack_args
read_next a args v vs mid more body x xs e first next rest =
    let here : drop (length mid) (body ++ rest) ≡ (x ∷ xs) ++ (more ++ rest) = rw (
      e,
      append_assoc (mid ++ (x ∷ xs)) more rest,
      append_assoc mid (x ∷ xs) (more ++ rest),
      drop-append mid ((x ∷ xs) ++ (more ++ rest)),
    ) in
    let some_bytes : (length (x ∷ xs) == 0) ≡ false = ground arith in
    rw here (
      Yields-bind (first (more ++ rest)) λ r (w, is_w, alike).
        rw (is_w, some_bytes, ← length-append mid (x ∷ xs))
          (Yields-bind (next rest)
            λ q (ws, is_ws, alikes). rw is_ws (yields (w ∷ ws, refl, alike_next alike alikes))))

module _ (number_text : ℤ → List ℕ) where
  next-Marshals :
      (a : Arg) (args : List Arg) (v : Value) (vs : List Value) (buf_len : ℕ) (head mid : List ℕ)
      {p : Packed}
      → length (head ++ mid) ≤ buf_len
      → Packs
          (unpack a.format)
          (Alike a.format v)
          (most a.format v)
          (buf_len - length (head ++ mid))
          p
      → ((mid' : List ℕ)
          → length (head ++ mid') ≤ buf_len
          → Marshals args vs buf_len head mid'
              (marshal_loop number_text args vs buf_len (head ++ mid')))
      → Marshals
          (a ∷ args)
          (v ∷ vs)
          buf_len
          head
          mid
          (or_raise p λ bytes. marshal_loop number_text args vs buf_len ((head ++ mid) ++ bytes))
  next-Marshals a args v vs buf_len head mid room (written {bytes = []} fits some_bytes le back)
        next =
      absurd (omega arith)
  next-Marshals a args v vs buf_len head mid room (written {bytes = x ∷ xs} fits some_bytes le back)
        next =
      let size = length-append mid (x ∷ xs) in
      let sizes = length-append head mid in
      rw (append_assoc head mid (x ∷ xs)) (
        after (
          next (mid ++ (x ∷ xs))
            (omega (arith, size, sizes, length-append head (mid ++ (x ∷ xs))))))
    where
      after :
          {q : Packed}
          → Marshals args vs buf_len head (mid ++ (x ∷ xs)) q
          → Marshals (a ∷ args) (v ∷ vs) buf_len head mid q
      after (marshalled body more e fit many bound reads) =
          marshalled body ((x ∷ xs) ++ more) (e ∙ append_assoc mid (x ∷ xs) more) fit
            (omega (arith, length-append mid (x ∷ xs))) (omega (arith, length-append mid (x ∷ xs)))
            (read_next a args v vs mid more body x xs e back reads)
      after (no_space less) = no_space (omega (arith, length-append mid (x ∷ xs)))
  next-Marshals a args v vs buf_len head mid room (no_room less) next =
      no_space (omega (arith, length-append head mid))

  pub marshal_loop-Marshals :
      (args : List Arg) (vs : List Value) (buf_len : ℕ) (head mid : List ℕ)
      → FitsAll args vs
      → length (head ++ mid) ≤ buf_len
      → Marshals args vs buf_len head mid (marshal_loop number_text args vs buf_len (head ++ mid))
  unfolding marshal_loop unpack_args
  marshal_loop-Marshals [] vs buf_len head mid fit room =
      marshalled mid [] (sym (append-nil mid)) room (omega arith) (omega arith)
        λ rest. yields ([], refl, all_alike)
  marshal_loop-Marshals (a ∷ args) (v ∷ vs) buf_len head mid (fits_next fit fits) room =
      next-Marshals a args v vs buf_len head mid room
        (pack-Packs number_text a.format v (buf_len - length (head ++ mid)) fit)
        λ mid' room'. marshal_loop-Marshals args vs buf_len head mid' fits room'
  marshal_loop-Marshals (a ∷ args) [] buf_len head mid fit room = elim fit [ ]
