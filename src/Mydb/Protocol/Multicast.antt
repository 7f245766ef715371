-- ===== src/Mydb/Protocol/Multicast.antt =====
-- The destinations of a message, behind it in the same MAXTONETD bytes.
use mathlib.Core.List.{append_assoc, append-nil}
use donkeyji.Prelude.{
  ℕ, zero, suc, ◌+◌, ◌-◌, ◌*◌, ◌/◌, ◌≡◌, refl, sym, ◌∙◌, ap, true, Option, none, some, List, [],
  ◌∷◌, ◌++◌, map, arith, ltb, leb, if◌then◌else◌, length, take, length-append, inl, inr, Bool-cases,
}
use donkeyji.Prelude.Int.{ℤ, pos}
use donkeyji.Mydb.DataFormat.{bytes_of, bits_of}
use donkeyji.Mydb.DataFormat.Bytes.{length-bytes_of}
use donkeyji.Mydb.Protocol.{
  maxtonetd, Sent, Copied, reached, copy_to, multicast_loop, sent_to, send_multicast,
}

-- the destinations that a message is sent to, and their bytes
abbrev pub wanted : List ℤ → List ℤ
wanted [] = []
wanted (to ∷ tos) = if reached to then to ∷ wanted tos else wanted tos

abbrev pub int_bytes : List ℤ → List ℕ
int_bytes [] = []
int_bytes (to ∷ tos) = bytes_of 4 (bits_of to) ++ int_bytes tos

length-int_bytes : (tos : List ℤ) → length (int_bytes tos) ≡ 4 * length tos
length-int_bytes [] = omega arith
length-int_bytes (to ∷ tos) = omega (
  arith,
  length-append (bytes_of 4 (bits_of to)) (int_bytes tos),
  length-bytes_of 4 (bits_of to),
  length-int_bytes tos,
)

take_nil : (n : ℕ) → take {A = ℤ} n [] ≡ []
take_nil zero = refl
take_nil (suc n) = refl

-- how many destinations have room behind a message
abbrev pub room_for : List ℕ → ℕ
room_for message = (maxtonetd - length message) / 4

-- the message to some destinations
abbrev pub to_all : List ℕ → List ℤ → List Sent
to_all message [] = []
to_all message (to ∷ tos) =
    record {
      data_sent = message ++ int_bytes (to ∷ tos);
      data_len = length (message ++ int_bytes (to ∷ tos));
      ext = pos (length (to ∷ tos));
      ismulticast = 1;
      mcpayloadlen = length message;
    }
    ∷ []

module _ (message : List ℕ) where
  -- the destinations that are copied after the state `s`
  abbrev left : Copied → List ℤ → List ℤ
  left s tos = take (room_for message - s.c) (wanted tos)

  -- the same bytes and the same number of destinations, after one destination
  copy_to-left :
      (s : Copied) (to : ℤ) (tos : List ℤ)
      → length s.bytes ≡ length message + 4 * s.c
      → ((copy_to s to).bytes ++ int_bytes (left (copy_to s to) tos)
          ≡ s.bytes ++ int_bytes (left s (to ∷ tos)))
        × ((copy_to s to).c + length (left (copy_to s to) tos) ≡ s.c + length (left s (to ∷ tos)))
        × (length (copy_to s to).bytes ≡ length message + 4 * (copy_to s to).c)
  copy_to-left s to tos size = elim (Bool-cases (reached to)) [
    | inr e ↦ rw e (refl, refl, size)
    | inl e ↦ elim (Bool-cases (leb (length s.bytes + 4) maxtonetd)) [
      | inl f ↦
          let more : room_for message - s.c ≡ suc (room_for message - (s.c + 1)) = ground arith in
          rw (e, f, more)
            (
              append_assoc s.bytes (bytes_of 4 (bits_of to)) _,
              omega arith,
              omega (
                arith,
                length-append s.bytes (bytes_of 4 (bits_of to)),
                length-bytes_of 4 (bits_of to),
              ),
            )
      | inr f ↦
          let full : room_for message - s.c ≡ 0 = ground arith in rw (e, f, full) (refl, refl, size)
    ]
  ]

  record Copies (s : Copied) (tos : List ℤ) (r : Option Copied) : Type 0 where
    final : Copied
    value : r ≡ some final
    copied : final.bytes ≡ s.bytes ++ int_bytes (left s tos)
    count : final.c ≡ s.c + length (left s tos)

  multicast_loop-Copies :
      (tos : List ℤ) (s : Copied)
      → length s.bytes ≡ length message + 4 * s.c
      → Copies s tos (multicast_loop (map some tos) s)
  unfolding multicast_loop
  multicast_loop-Copies [] s size =
      let nothing : left s [] ≡ [] = take_nil (room_for message - s.c) in
      record {
        final = s;
        value = refl;
        copied = rw nothing (sym (append-nil s.bytes));
        count = rw nothing (omega arith);
      }
  multicast_loop-Copies (to ∷ tos) s size =
      let step = copy_to-left s to tos size in
      let rest = multicast_loop-Copies tos (copy_to s to) step.2 in
      record {
        final = rest.final;
        value = rest.value;
        copied = rest.copied ∙ step.0;
        count = rest.count ∙ step.1;
      }

sent_to-to_all :
    (message : List ℕ) (s : Copied) (tos : List ℤ)
    → s.bytes ≡ message ++ int_bytes tos
    → s.c ≡ length tos
    → sent_to message s ≡ to_all message tos
sent_to-to_all message s [] copied count = rw count refl
sent_to-to_all message s (to ∷ tos) copied count =
    let some_sent : ltb 0 s.c ≡ true = ground arith in
    let size : length message + s.c * 4 ≡ length (message ++ int_bytes (to ∷ tos)) =
      omega (arith, length-append message (int_bytes (to ∷ tos)), length-int_bytes (to ∷ tos)) in
    rw (some_sent, size, copied, count) refl

-- The destinations over VFD_NULL, as many as have room in MAXTONETD bytes, follow the message in
-- order; if there is one, they are sent with the message, by its length and their number
pub send_multicast-to_all :
    (message : List ℕ) (tos : List ℤ)
    → send_multicast message (map some tos)
      ≡ some (to_all message (take (room_for message) (wanted tos)))
unfolding send_multicast
send_multicast-to_all message tos =
    after_loop
      (multicast_loop-Copies message tos (record { bytes = message; c = 0; t = 0 }) (omega arith))
  where
    all_room : room_for message - 0 ≡ room_for message
    all_room = omega arith

    after_loop :
        {r : Option Copied}
        → Copies message (record { bytes = message; c = 0; t = 0 }) tos r
        → (elim r [ none ↦ none | some s ↦ some (sent_to message s) ])
          ≡ some (to_all message (take (room_for message) (wanted tos)))
    after_loop c =
        rw (c.value, ← all_room)
          (ap some (sent_to-to_all message c.final _ c.copied (c.count ∙ omega arith)))
