-- ===== src/MultiProgress/Buffer/Append.antt =====
-- `buffer_append` and `buffer_reset`
use native.Mathlib.Nat.{zero-add}
use donkeyji.Prelude.{
  ℕ, ◌+◌, ◌-◌, ◌%◌, ◌^◌, ◌<◌, ◌≤◌, ◌≡◌, ◌≢◌, refl, ap, sym, ◌∙◌, ◌⊎◌, inl, inr, Bool, true, false,
  none, some, List, [], ◌++◌, arith, ltb, ◌==◌, length, Bool-cases, Option-cases,
}
use donkeyji.Prelude.Memory.{
  memcpy, bytes_at, bytes_at-memcpy_before, bytes_at-memcpy, bytes_at-append,
}
use donkeyji.Prelude.Exec.{Exec, ok, fault, Yields, yields, Yields-if, Yields-bind}
use donkeyji.MultiProgress.Buffer.{
  Buffer, size_mod, put, room, grown_size, with_memory, buffer_append, to_int, grow, add_int,
}

abbrev pub contents : Buffer → List ℕ
contents b = elim b.ptr [ none ↦ [] | some m ↦ bytes_at m 0 b.used ]

pub record IsValid (b : Buffer) : Type 0 where
  pub within : b.used ≤ b.size
  pub small : b.size < 2 ^ 62
  pub backed : 0 < b.size → b.ptr ≢ none

-- what the code makes of the size is enough, and no more than 128 bytes too much
module _ (b : Buffer) (n : ℕ) (v : IsValid b) (short : n < 2 ^ 30) where
  room-valid : room b ≡ b.size - b.used
  unfolding room
  room-valid = omega (arith, v.within, v.small)

  grown_size-first : b.size ≡ 0 → (n ≤ grown_size b true n) × (grown_size b true n ≤ n + 128)
  unfolding grown_size
  grown_size-first e = omega arith

  grown_size-more :
      b.size - b.used < n
      → (b.used + n ≤ grown_size b false n) × (grown_size b false n ≤ b.used + n + 128)
  unfolding grown_size room to_int grow add_int
  grown_size-more h =
      let room_now : (b.size + size_mod - b.used) % size_mod ≡ b.size - b.used =
        omega (arith, v.within, v.small) in
      let less : (n + size_mod - (b.size - b.used)) % size_mod ≡ n - (b.size - b.used) =
        omega (arith, v.small) in
      let low : (n - (b.size - b.used)) % 2 ^ 32 ≡ n - (b.size - b.used) = omega arith in
      let signed : ltb (n - (b.size - b.used)) (2 ^ 31) ≡ true = ground arith in
      rw (room_now, less, low, signed) (omega (arith, v.within, v.small))

-- the bytes follow those that were there, and the buffer is as large as before or has grown by at
-- most 128 bytes more than it needs
pub record Appended (b : Buffer) (bytes : List ℕ) (c : Buffer) : Type 0 where
  pub content : contents c ≡ contents b ++ bytes
  pub count : c.used ≡ b.used + length bytes
  pub within : c.used ≤ c.size
  pub backed : c.ptr ≢ none
  pub size : (c.size ≡ b.size) ⊎ (c.size ≤ b.used + length bytes + 128)

module _ (b : Buffer) (bytes : List ℕ) (v : IsValid b) (short : length bytes < 2 ^ 30) where
  -- the copy into a buffer with memory and room
  put-Appended :
      (m : ℕ → ℕ) (c : Buffer)
      → c.ptr ≡ some m
      → c.used ≡ b.used
      → bytes_at m 0 b.used ≡ contents b
      → b.used + length bytes ≤ c.size
      → (c.size ≡ b.size) ⊎ (c.size ≤ b.used + length bytes + 128)
      → Yields (λ (done, d). (done ≡ true) × Appended b bytes d) (put c bytes)
  unfolding put
  put-Appended m c e same held fits size =
      let enough : ltb c.size (b.used + length bytes) ≡ false = ground arith in
      let exact : (b.used + length bytes) % size_mod ≡ b.used + length bytes =
        omega (arith, v.within, v.small) in
      rw (e, put, same, enough, exact)
        (yields (
          refl,
          record {
            content = rw (
              bytes_at-append (memcpy m b.used bytes) 0 b.used (length bytes),
              bytes_at-memcpy_before m bytes 0 b.used b.used (omega arith),
              zero-add b.used,
              bytes_at-memcpy m b.used bytes,
              held,
            );
            count = refl;
            within = fits;
            backed = λ p. cc;
            size = size;
          },
        ))

  empty_contents : b.used ≡ 0 → contents b ≡ []
  empty_contents e = elim (Option-cases b.ptr) [ inl unset ↦ rw unset | inr (m, set) ↦ rw (set, e) ]

  abbrev Success : Exec (Bool × Buffer) → Type 0
  Success = Yields (λ (done, d). (done ≡ true) × Appended b bytes d)

  put_first :
      (fresh : ℕ → ℕ)
      → b.size ≡ 0
      → Success (put (with_memory true fresh b true (grown_size b true (length bytes))) bytes)
  unfolding with_memory
  put_first fresh e =
      let bounds = grown_size-first b (length bytes) v short e in
      let none_used : b.used ≡ 0 = omega (arith, v.within) in
      put-Appended fresh (with_memory true fresh b true (grown_size b true (length bytes))) refl
        refl (sym (empty_contents none_used ∙ ap (bytes_at fresh 0) (sym none_used)))
        (omega (arith, bounds)) (inr (omega (arith, bounds)))

  put_more :
      (fresh : ℕ → ℕ)
      → 0 < b.size
      → b.size - b.used < length bytes
      → Success (put (with_memory true fresh b false (grown_size b false (length bytes))) bytes)
  unfolding with_memory
  put_more fresh full less = elim (Option-cases b.ptr) [
    | inl unset ↦ absurd (v.backed full unset)
    | inr (m, set) ↦
        let bounds = grown_size-more b (length bytes) v short less in
        put-Appended m (with_memory true fresh b false (grown_size b false (length bytes))) (rw set)
          refl (rw set) (omega (arith, bounds)) (inr (omega (arith, bounds)))
  ]

  put_plain : 0 < b.size → length bytes ≤ b.size - b.used → Success (put b bytes)
  put_plain full fits = elim (Option-cases b.ptr) [
    | inl unset ↦ absurd (v.backed full unset)
    | inr (m, set) ↦ put-Appended m b set refl (rw set) (omega (arith, v.within)) (inl refl)
  ]

  -- With memory to be had, `buffer_append` of fewer than 2^30 bytes to a well-formed buffer smaller
  -- than 2^62 succeeds: it appends the bytes to those in the buffer, and writes inside the memory,
  -- which is as large as before or has at most 128 bytes more than it needs.
  pub buffer_append-Appended :
      (fresh : ℕ → ℕ)
      → Yields
          (λ (done, r). (done ≡ true) × ((c : Buffer) × (r ≡ some c) × Appended b bytes c))
          (buffer_append true fresh (some b) bytes)
  unfolding buffer_append
  buffer_append-Appended fresh =
      Yields-bind {P = λ (done, d). (done ≡ true) × Appended b bytes d}
        (Yields-if (b.size == 0) (λ first. rw first (put_first fresh (ground arith)))
          (λ more.
            let full : 0 < b.size = ground arith in
            Yields-if (ltb (room b) (length bytes))
              (λ less.
                rw more (put_more fresh full (ground (arith, room-valid b (length bytes) v short))))
              (λ fits. put_plain full (ground (arith, room-valid b (length bytes) v short)))))
        λ (done, c) (good, x). yields (good, (c, refl, x))

  grown_size-first_or_more :
      (first : Bool)
      → first ≡ (b.size == 0)
      → b.size - b.used < length bytes
      → (b.used + length bytes ≤ grown_size b first (length bytes))
        × (grown_size b first (length bytes) ≤ b.used + length bytes + 128)
  grown_size-first_or_more true e less =
      let zero_size : b.size ≡ 0 = ground arith in
      omega (arith, grown_size-first b (length bytes) v short zero_size, v.within)
  grown_size-first_or_more false e less = grown_size-more b (length bytes) v short less

  -- `malloc` or `realloc` fails: the size has grown, the memory is gone
  abbrev lost : Buffer
  lost = record { ptr = none; size = grown_size b (b.size == 0) (length bytes); used = b.used }

  buffer_append-lost :
      (fresh : ℕ → ℕ)
      → b.size - b.used < length bytes
      → buffer_append false fresh (some b) bytes ≡ ok (false, some lost)
  unfolding buffer_append with_memory
  buffer_append-lost fresh less =
      let lack : ltb (room b) (length bytes) ≡ true =
        ground (arith, room-valid b (length bytes) v short) in
      elim (Bool-cases (b.size == 0)) [ inl e ↦ rw e | inr e ↦ rw (e, lack) ]

  -- When a well-formed buffer has no room for the bytes and `malloc` or `realloc` fails,
  -- `buffer_append` reports it, but a second try no longer asks for memory, whether or not there is
  -- some by now, and writes through NULL.
  pub buffer_append-retry :
      (granted : Bool) (fresh fresh' : ℕ → ℕ)
      → b.size - b.used < length bytes
      → Yields
          (λ (done, r). (done ≡ false) × (buffer_append granted fresh' r bytes ≡ fault))
          (buffer_append false fresh (some b) bytes)
  unfolding buffer_append put room
  buffer_append-retry granted fresh fresh' less =
      let bounds = grown_size-first_or_more (b.size == 0) refl less in
      let some_size : (lost.size == 0) ≡ false = ground (arith, bounds) in
      let enough : ltb (room lost) (length bytes) ≡ false =
        ground (arith, bounds, v.small, v.within) in
      rw (buffer_append-lost fresh less) (yields (refl, rw (buffer_append, some_size, enough)))
