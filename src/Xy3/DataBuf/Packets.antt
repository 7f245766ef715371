-- ===== src/Xy3/DataBuf/Packets.antt =====
-- Packets in a `DataBuf`: a length in two bytes, and as many bytes.
use mathlib.Core.List.{append_assoc}
use donkeyji.Prelude.{
  ℕ, ◌+◌, ◌-◌, ◌%◌, ◌^◌, ◌≤◌, ◌<◌, ◌≡◌, refl, sym, ◌∙◌, ap, subst, Bool, true, false, ◌⊎◌, inl, inr,
  List, ◌++◌, arith, ltb, length, Bool-cases,
}
use donkeyji.Prelude.Int.{pos, ltb_ℤ}
use donkeyji.Prelude.Exec.{ok, ◌>>=◌, Yields, yields, Yields-bind}
use donkeyji.Prelude.Memory.{length-bytes_at}
use donkeyji.Mydb.DataFormat.{bytes_of, as_short}
use donkeyji.Mydb.DataFormat.Bytes.{length-bytes_of}
use donkeyji.Xy3.DataBuf.{
  DataBuf, move_head, add_bytes, short_size, make_room, put_pack, append_pack,
}
use donkeyji.Xy3.DataBuf.Expand.{contents, IsValid, Roomy, move_head-Roomy}
use donkeyji.Xy3.DataBuf.Queue.{add_bytes-Grown}

-- the packet is at the end of the queue; or there is no room for it, and the queue is as it was
pub record Appended (d : DataBuf) (xs : List ℕ) (out : Bool × DataBuf) : Type 0 where
  pub valid : IsValid out.1
  pub queue :
      ((out.0 ≡ true) × (contents out.1 ≡ contents d ++ (bytes_of 2 (length xs) ++ xs)))
      ⊎ ((out.0 ≡ false)
          × (contents out.1 ≡ contents d)
          × (d.len < length (contents d) + (2 + length xs)))

short_size-pos : (n : ℕ) → n ≤ 32765 → short_size n ≡ pos (n + 2)
unfolding as_short
short_size-pos n small =
    let plain : (n + 2) % 2 ^ 16 ≡ n + 2 = omega arith in
    let fits : ltb (n + 2) (2 ^ 15) ≡ true = ground arith in rw (plain, fits) refl

-- into a buffer with room
put-Appended :
    (d m : DataBuf) (xs : List ℕ)
    → Roomy (length xs + 2) d m
    → Yields
        (Appended d xs)
        (add_bytes m (bytes_of 2 (length xs)) >>= λ e. add_bytes e xs >>= λ a. ok (true, a))
put-Appended d m xs r =
    let two = length-bytes_of 2 (length xs) in
    Yields-bind (add_bytes-Grown m (bytes_of 2 (length xs)) r.valid (omega (arith, two, r.room)))
      λ e g. Yields-bind (add_bytes-Grown e xs g.0.valid (omega (arith, two, r.room, g.1))) λ a h.
        yields (record {
          valid = h.0.valid;
          queue = inl (
            refl,
            h.0.queue
                ∙ (ap (λ q. q ++ xs) (g.0.queue ∙ ap (λ q. q ++ bytes_of 2 (length xs)) r.kept)
                    ∙ append_assoc (contents d) (bytes_of 2 (length xs)) xs),
          );
        })

fitting :
    (d m : DataBuf) (xs : List ℕ)
    → length xs ≤ 32765
    → Roomy (length xs + 2) d m
    → Yields (Appended d xs) (put_pack m xs (pos (length xs + 2)))
fitting d m xs small r =
    let plain : length xs % 2 ^ 16 ≡ length xs = omega arith in
    let room : ltb_ℤ (pos m.left) (pos (length xs + 2)) ≡ false = ground (arith, r.room) in
    rw (room, plain) (put-Appended d m xs r)

moved :
    (d : DataBuf) (xs : List ℕ)
    → IsValid d
    → length xs ≤ 32765
    → Yields (Appended d xs) (put_pack (move_head d) xs (pos (length xs + 2)))
unfolding move_head
moved d xs v small =
    let m = move_head-Roomy d v in
    elim (Bool-cases (ltb_ℤ (pos (d.left + d.head)) (pos (length xs + 2)))) [
      | inr room ↦
          fitting d (move_head d) xs small
            (record { valid = m.valid; kept = m.kept; room = ground arith })
      | inl full ↦ rw full (
          yields (record {
            valid = m.valid;
            queue = inr (
              refl,
              m.kept,
              ground (
                arith,
                length-bytes_at d.mem d.head (d.tail - d.head),
                v.rest,
                v.inside,
                v.ordered,
              ),
            );
          }))
    ]

-- `appendPack` of at most 32765 bytes to a valid buffer puts their length and them at the end of the
-- queue; or the queue and they do not fit in the buffer, and the queue is as it was
pub append_pack-Appended :
    (d : DataBuf) (xs : List ℕ)
    → IsValid d
    → length xs ≤ 32765
    → Yields (Appended d xs) (append_pack d xs)
unfolding append_pack
append_pack-Appended d xs v small =
    subst (λ size. Yields (Appended d xs) (put_pack (make_room d size) xs size))
      (sym (short_size-pos (length xs) small)) (sized d xs v small)
  where
    sized :
        (d : DataBuf) (xs : List ℕ)
        → IsValid d
        → length xs ≤ 32765
        → Yields
            (Appended d xs)
            (put_pack (make_room d (pos (length xs + 2))) xs (pos (length xs + 2)))
    sized d xs v small = elim (Bool-cases (ltb_ℤ (pos d.left) (pos (length xs + 2)))) [
      | inr room ↦
          let r : Roomy (length xs + 2) d d = record {
            valid = v;
            kept = refl;
            room = ground arith;
          } in
          rw room (fitting d d xs small r)
      | inl less ↦ rw less (moved d xs v small)
    ]
