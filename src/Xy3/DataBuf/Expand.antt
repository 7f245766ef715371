-- ===== src/Xy3/DataBuf/Expand.antt =====
-- cs/my_xy3/databuf.cpp: `moveHead` and `expandBuf` keep the bytes of a `DataBuf` and make room.
use donkeyji.Prelude.{
  ℕ, zero, suc, ◌+◌, ◌-◌, ◌*◌, ◌%◌, ◌^◌, ◌&&◌, ◌≤◌, ◌<◌, ◌≡◌, refl, sym, ◌∙◌, ap, subst, true,
  false, List, ◌++◌, arith, ltb, leb, take, drop, take-append,
}
use donkeyji.Prelude.Exec.{out_of_fuel, Yields, yields, Yields-bind, Yields-if, Yields-map}
use donkeyji.Prelude.Memory.{
  memcpy, memmove, bytes_at, length-bytes_at, bytes_at-memcpy, bytes_at-append, bytes_at-memmove,
  drop-bytes_at,
}
use donkeyji.Xy3.DataBuf.{
  DataBuf, move_head, ltb_int, shift_int, double_loop, enlarged, allocated, expand_buf,
}

abbrev pub contents : DataBuf → List ℕ
contents d = bytes_at d.mem d.head (d.tail - d.head)

pub record IsValid (d : DataBuf) : Type 0 where
  pub ordered : d.head ≤ d.tail
  pub inside : d.tail ≤ d.len
  pub rest : d.left ≡ d.len - d.tail

-- the same queue, and room for `need` bytes
pub record Roomy (need : ℕ) (d e : DataBuf) : Type 0 where
  pub valid : IsValid e
  pub kept : contents e ≡ contents d
  pub room : need ≤ e.left

pub move_head-Roomy : (d : DataBuf) → IsValid d → Roomy (d.left + d.head) d (move_head d)
unfolding move_head
move_head-Roomy d v = record {
  valid = record {
    ordered = omega arith;
    inside = omega (arith, v.ordered, v.inside);
    rest = omega (arith, v.ordered, v.inside, v.rest);
  };
  kept =
      ap (bytes_at (memmove d.mem 0 d.head (d.tail - d.head)) 0) (omega arith)
      ∙ bytes_at-memmove d.mem 0 d.head (d.tail - d.head);
  room = omega arith;
}

-- without a sign bit, the patterns compare as numbers
ltb_int-ltb : (a b : ℕ) → a < 2 ^ 31 → b < 2 ^ 31 → ltb_int a b ≡ ltb a b
ltb_int-ltb a b la lb =
    let low : (a + 2 ^ 31) % 2 ^ 32 ≡ a + 2 ^ 31 = omega arith in
    let low' : (b + 2 ^ 31) % 2 ^ 32 ≡ b + 2 ^ 31 = omega arith in rw (low, low') (ground arith)

-- the doubled length, in which no `int` overflowed, and the room that was needed
abbrev Doubled : (new_len real_need n : ℕ) → Type 0
Doubled new_len real_need n = (real_need ≤ n) × (new_len ≤ n) × (n < 2 ^ 31)

double_loop-Doubled :
    (k new_len real_need : ℕ)
    → 0 < new_len
    → real_need ≤ new_len + k
    → new_len < 2 ^ 31
    → real_need ≤ 2 ^ 30
    → Yields (Doubled new_len real_need) (double_loop (suc k) new_len real_need)
unfolding double_loop
double_loop-Doubled zero new_len real_need some_len less fits bounded =
    let enough : ltb new_len real_need ≡ false = ground arith in
    rw (ltb_int-ltb new_len real_need fits (omega (arith, bounded)), enough)
      (yields (omega arith, omega arith, fits))
double_loop-Doubled (suc k) new_len real_need some_len less fits bounded =
    rw (ltb_int-ltb new_len real_need fits (omega (arith, bounded))) (
      Yields-if (ltb new_len real_need)
        (λ h.
          let below : new_len < real_need = ground arith in
          let shifted : shift_int new_len ≡ new_len * 2 = omega (arith, below, bounded) in
          rw shifted (
            Yields-map
              (double_loop-Doubled k (new_len * 2) real_need (omega arith) (omega arith)
                (omega (arith, below, bounded)) bounded)
              λ n w. (w.0, omega (arith, w.1), w.2)))
        (λ h. yields (ground arith, omega arith, fits)))

-- once the `int` has overflowed to 0, no fuel is enough for the loop
pub double_loop-zero :
    (fuel real_need : ℕ)
    → 0 < real_need
    → real_need < 2 ^ 31
    → double_loop fuel 0 real_need ≡ out_of_fuel
unfolding double_loop
double_loop-zero zero real_need some_need fits = refl
double_loop-zero (suc k) real_need some_need fits =
    let short : ltb 0 real_need ≡ true = ground (arith, some_need) in
    rw (ltb_int-ltb 0 real_need (omega arith) fits, short)
      (double_loop-zero k real_need some_need fits)

part_of :
    (m : ℕ → ℕ) (i n total : ℕ)
    → i + n ≤ total
    → bytes_at m i n ≡ take n (drop i (bytes_at m 0 total))
part_of m i n total fits =
    let from : 0 + i ≡ i = omega arith in
    let two : total - i ≡ n + (total - i - n) = omega arith in
    let behind = bytes_at m (i + n) (total - i - n) in
    let front : take n (bytes_at m i n ++ behind) ≡ bytes_at m i n =
      subst (λ k. take k (bytes_at m i n ++ behind) ≡ bytes_at m i n) (length-bytes_at m i n)
        (take-append (bytes_at m i n) behind) in
    rw (drop-bytes_at m 0 total i (omega arith), from, two, bytes_at-append m i n (total - i - n))
      (sym front)

-- a part of memory that is the same
part-eq :
    (m m' : ℕ → ℕ) (i n total : ℕ)
    → i + n ≤ total
    → bytes_at m 0 total ≡ bytes_at m' 0 total
    → bytes_at m i n ≡ bytes_at m' i n
part-eq m m' i n total fits whole =
    part_of m i n total fits
    ∙ (ap (λ xs. take n (drop i xs)) whole ∙ sym (part_of m' i n total fits))

enlarged-Roomy :
    (fresh : ℕ → ℕ) (d : DataBuf) (need n : ℕ)
    → IsValid d
    → d.len + need ≤ n
    → Roomy need d (enlarged fresh d n)
enlarged-Roomy fresh d need n v enough =
    let whole : bytes_at (memcpy fresh 0 (bytes_at d.mem 0 d.len)) 0 d.len
        ≡ bytes_at d.mem 0 d.len =
      subst (λ k. bytes_at (memcpy fresh 0 (bytes_at d.mem 0 d.len)) 0 k ≡ bytes_at d.mem 0 d.len)
        (length-bytes_at d.mem 0 d.len) (bytes_at-memcpy fresh 0 (bytes_at d.mem 0 d.len)) in
    record {
      valid = record { ordered = v.ordered; inside = omega (arith, v.inside); rest = refl };
      kept =
          part-eq _ d.mem d.head (d.tail - d.head) d.len (omega (arith, v.ordered, v.inside)) whole;
      room = omega (arith, v.inside);
    }

-- the array that `new` gives has the room
allocated-Roomy :
    (fresh : ℕ → ℕ) (d : DataBuf) (need n : ℕ)
    → IsValid d
    → Roomy (d.left + d.head) d (move_head d)
    → d.len + need ≤ n
    → n < 2 ^ 31
    → Yields (Roomy need d) (allocated fresh (move_head d) n)
unfolding move_head
allocated-Roomy fresh d need n v m enough fits =
    let given : (ltb n (2 ^ 31) && leb d.len n) ≡ true = ground arith in
    let e = enlarged-Roomy fresh (move_head d) need n m.valid enough in
    rw given (yields (record { valid = e.valid; kept = e.kept ∙ m.kept; room = e.room }))

-- `expand_buf` ends with room for the bytes, in the same queue
pub expand_buf-Roomy :
    (k : ℕ) (fresh : ℕ → ℕ) (d : DataBuf) (need : ℕ)
    → IsValid d
    → 0 < d.len
    → need ≤ d.len + k
    → d.len + need ≤ 2 ^ 30
    → Yields (Roomy need d) (expand_buf (suc k) fresh d need)
unfolding expand_buf move_head
expand_buf-Roomy k fresh d need v some_len enough bounded =
    let m = move_head-Roomy d v in
    Yields-if (leb need (d.left + d.head))
      (λ fits. yields (record { valid = m.valid; kept = m.kept; room = ground arith }))
      (λ full.
        let some_need : 0 < need = ground arith in
        let shifted : shift_int d.len ≡ d.len * 2 = omega (arith, bounded, some_need) in
        let added : (d.len + need) % 2 ^ 32 ≡ d.len + need = omega (arith, bounded) in
        rw (shifted, added)
          (Yields-bind
            (double_loop-Doubled k (d.len * 2) (d.len + need) (omega arith) (omega arith)
              (omega (arith, bounded, some_need)) bounded)
            λ n w. allocated-Roomy fresh d need n v m (omega (arith, w.0)) w.2))
