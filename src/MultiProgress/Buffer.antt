-- ===== src/MultiProgress/Buffer.antt =====
-- multi_progress/buffer.c: a growing byte buffer.
-- The memory at `ptr` is a function on offsets, of which those below `size` may be used; a buffer
-- without memory (`ptr == NULL`) has none. `size_t` is 64 bits wide and `int` 32.
pub mod Append
mod Tests
use donkeyji.Prelude.{
  ℕ, zero, suc, ◌+◌, ◌-◌, ◌*◌, ◌%◌, ◌^◌, Bool, true, false, Option, none, some, List, [], ◌∷◌, ltb,
  ◌==◌, if◌then◌else◌, update, length,
}
use donkeyji.Prelude.Int.{ℤ, pos, negsuc}
use donkeyji.Prelude.Memory.{memcpy}
use donkeyji.Prelude.Exec.{Exec, ok, fault, ◌>>=◌}

abbrev pub size_mod : ℕ
size_mod = 2 ^ 64

pub record Buffer : Type 0 where
  pub ptr : Option (ℕ → ℕ)
  pub size : ℕ
  pub used : ℕ

-- `none` is NULL; `granted` is whether `malloc` has the memory
unfoldable pub buffer_new : (granted : Bool) → Option Buffer
buffer_new granted = if granted then some (record { ptr = none; size = 0; used = 0 }) else none

-- `b->ptr[0] = '\0'` through a NULL pointer is a fault
unfoldable pub clear_first : Buffer → Exec Buffer
clear_first b = elim b.ptr [ none ↦ fault | some m ↦ ok (record b { ptr = some (update m 0 0) }) ]

unfoldable pub buffer_reset : Option Buffer → Exec (Option Buffer)
unfolding clear_first
buffer_reset none = ok none
buffer_reset (some b) = do
  c ← if ltb 0 b.size then clear_first b else ok b
  ok (some (record c { used = 0 }))

-- the conversion of a `size_t` to `int`
unfoldable pub to_int : ℕ → ℤ
to_int n = let low = n % 2 ^ 32 in if ltb low (2 ^ 31) then pos low else negsuc (2 ^ 32 - 1 - low)

-- `less + (128 - less % 128)` on `int`, whose `%` takes the sign of its left side
unfoldable pub grow : ℤ → ℤ
grow (pos n) = pos (n + (128 - n % 128))
grow (negsuc n) =
    let up = 128 + suc n % 128 in if ltb n up then pos (up - suc n) else negsuc (n - up)

-- `size += k` for a `size_t` and an `int`
unfoldable pub add_int : ℕ → ℤ → ℕ
add_int size (pos n) = (size + n) % size_mod
add_int size (negsuc n) = (size + size_mod - suc n % size_mod) % size_mod

-- the copy and the count; a write past the memory is a fault
unfoldable pub put : Buffer → List ℕ → Exec (Bool × Buffer)
put b bytes = elim b.ptr [
  | none ↦ fault
  | some m ↦
      if ltb b.size (b.used + length bytes)
      then fault
      else ok (
        true,
        record b { ptr = some (memcpy m b.used bytes); used = (b.used + length bytes) % size_mod },
      )
]

-- `b->size - b->used`
unfoldable pub room : Buffer → ℕ
room b = (b.size + size_mod - b.used) % size_mod

-- the new size; `first` is the branch for a buffer without memory
unfoldable pub grown_size : Buffer → (first : Bool) → ℕ → ℕ
unfolding add_int grow to_int room
grown_size b first size =
    if first
    then (size + (128 - size % 128)) % size_mod
    else add_int b.size (grow (to_int ((size + size_mod - room b) % size_mod)))

-- `fresh` is what `malloc` finds in new memory; `realloc` keeps what was there
unfoldable pub with_memory :
    (granted : Bool) → (fresh : ℕ → ℕ) → Buffer → (first : Bool) → ℕ → Buffer
with_memory granted fresh b first n =
    let kept : ℕ → ℕ = elim b.ptr [ none ↦ fresh | some m ↦ m ] in
    record b { ptr = if granted then some (if first then fresh else kept) else none; size = n }

-- `false` is the status -1. When the memory runs out the size has grown and `ptr` is NULL.
unfoldable pub buffer_append :
    (granted : Bool) → (fresh : ℕ → ℕ) → Option Buffer → List ℕ → Exec (Bool × Option Buffer)
buffer_append granted fresh none bytes = ok (false, none)
buffer_append granted fresh (some b) bytes =
    let size = length bytes in
    let first = b.size == 0 in
    let enlarge : Exec (Bool × Buffer) =
      let c = with_memory granted fresh b first (grown_size b first size) in
      if granted then put c bytes else ok (false, c) in
    let run = if first then enlarge else if ltb (room b) size then enlarge else put b bytes in
    run >>= λ (done, c). ok (done, some c)
