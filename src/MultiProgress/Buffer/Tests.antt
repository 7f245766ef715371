-- ===== src/MultiProgress/Buffer/Tests.antt =====
-- Runs of multi_progress/buffer.c at fixed inputs, and its theorems at inputs that meet their
-- hypotheses.
use donkeyji.Prelude.{ℕ, ◌+◌, ◌≡◌, refl, true, false, none, some, [], ◌∷◌, arith}
use donkeyji.Prelude.Exec.{Yields}
use donkeyji.MultiProgress.Buffer.{Buffer, buffer_append, room, grown_size, to_int, grow, add_int}
use donkeyji.MultiProgress.Buffer.Append.{IsValid, Appended, buffer_append-Appended}

abbrev zeros : ℕ → ℕ
zeros i = 0

abbrev unset : Buffer
unset = record { ptr = none; size = 0; used = 0 }

abbrev holding : Buffer
holding = record { ptr = some zeros; size = 4; used = 3 }

holding-IsValid : IsValid holding
holding-IsValid = record { within = omega arith; small = omega arith; backed = λ p e. cc }

-- the first allocation is a multiple of 128 above the size
sizes : (grown_size unset true 128 ≡ 256) × (grown_size holding false 2 ≡ 4 + 128)
unfolding grown_size to_int grow add_int room
sizes = (refl, refl)

buffer_append-Appended_example :
    Yields
      (λ (done, r). (done ≡ true) × ((c : Buffer) × (r ≡ some c) × Appended holding (7 ∷ 8 ∷ []) c))
      (buffer_append true zeros (some holding) (7 ∷ 8 ∷ []))
buffer_append-Appended_example =
    buffer_append-Appended holding (7 ∷ 8 ∷ []) holding-IsValid (omega arith) zeros
