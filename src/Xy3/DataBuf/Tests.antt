-- ===== src/Xy3/DataBuf/Tests.antt =====
-- Buffers of a few bytes, and the theorems on them.
use donkeyji.Prelude.{
  ℕ, zero, suc, ◌+◌, ◌-◌, ◌^◌, ◌≡◌, refl, none, some, [], ◌∷◌, ◌==◌, if◌then◌else◌, arith,
}
use donkeyji.Prelude.Int.{pos}
use donkeyji.Prelude.Exec.{out_of_fuel, Yields}
use donkeyji.Prelude.Memory.{bytes_at}
use donkeyji.Mydb.DataFormat.{bytes_of}
use donkeyji.Xy3.DataBuf.{DataBuf, shift_int, double_loop, append_raw_data, get_pack, append_pack}
use donkeyji.Xy3.DataBuf.Expand.{IsValid, double_loop-zero}
use donkeyji.Xy3.DataBuf.Queue.{Grown, append_raw_data-Grown}
use donkeyji.Xy3.DataBuf.Packets.{Appended, append_pack-Appended}
use donkeyji.Xy3.DataBuf.Delivery.{get_pack-first, get_pack-stuck}

abbrev zeros : ℕ → ℕ
zeros i = 0

-- the bytes 1 and 2 in a buffer of 4
abbrev two_bytes : DataBuf
two_bytes = record { len = 4; head = 1; tail = 3; left = 1; mem = λ i. i }

two_bytes-IsValid : IsValid two_bytes
two_bytes-IsValid = record { ordered = omega arith; inside = omega arith; rest = omega arith }

append_raw_data-Grown_example :
    Yields (Grown two_bytes (7 ∷ 8 ∷ 9 ∷ [])) (append_raw_data 3 zeros two_bytes (7 ∷ 8 ∷ 9 ∷ []))
append_raw_data-Grown_example =
    append_raw_data-Grown 2 zeros two_bytes (7 ∷ 8 ∷ 9 ∷ []) two_bytes-IsValid (omega arith)
      (omega arith) (omega arith)

append_pack-Appended_example : Yields (Appended two_bytes (7 ∷ [])) (append_pack two_bytes (7 ∷ []))
append_pack-Appended_example =
    append_pack-Appended two_bytes (7 ∷ []) two_bytes-IsValid (omega arith)

-- a packet of one byte, and a byte behind it
abbrev packet_at : ℕ → ℕ
packet_at i = if i == 0 then 1 else if i == 1 then 0 else 9

abbrev packet : DataBuf
packet = record { len = 8; head = 0; tail = 4; left = 4; mem = packet_at }

get_pack-first_example : (get_pack packet ≡ some (pos 1, 2)) × (bytes_at packet_at 2 1 ≡ 9 ∷ [])
unfolding bytes_of
get_pack-first_example = get_pack-first packet (9 ∷ []) (9 ∷ []) refl (omega arith)

-- a length of 200 bytes, and one of them
abbrev long_at : ℕ → ℕ
long_at i = if i == 0 then 200 else if i == 1 then 0 else 9

abbrev long_packet : DataBuf
long_packet = record { len = 8; head = 0; tail = 3; left = 5; mem = long_at }

get_pack-stuck_example : get_pack long_packet ≡ none
unfolding bytes_of
get_pack-stuck_example =
    get_pack-stuck long_packet 200 (9 ∷ []) refl (omega arith) (omega arith) (omega arith)

-- `k` rounds of the loop and `n` more
abbrev sucs : ℕ → ℕ → ℕ
sucs zero n = n
sucs (suc k) n = suc (sucs k n)

-- what `expandBuf` needs for 2^30 - 1 bytes in a buffer of 2^29 + 1
abbrev needed : ℕ
needed = 2 ^ 29 + 1 + (2 ^ 30 - 1)

-- there the length is 0 after 31 rounds, and the loop does not end
doubled : (fuel : ℕ) → double_loop (sucs 31 fuel) (shift_int (2 ^ 29 + 1)) needed ≡ out_of_fuel
unfolding double_loop
doubled fuel = double_loop-zero fuel needed (omega arith) (omega arith)
