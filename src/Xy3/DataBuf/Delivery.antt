-- ===== src/Xy3/DataBuf/Delivery.antt =====
-- What `getPack` gives of the first packet of the queue.
use donkeyji.Prelude.{
  ℕ, ◌+◌, ◌-◌, ◌%◌, ◌^◌, ◌≤◌, ◌<◌, ◌≡◌, refl, sym, ◌∙◌, ap, subst, true, false, ◌&&◌, none, some,
  List, ◌++◌, arith, ltb, leb, length, take, drop, take-append, drop-append, length-append,
}
use donkeyji.Prelude.Int.{pos}
use donkeyji.Prelude.Memory.{bytes_at, length-bytes_at, bytes_at-append}
use donkeyji.Mydb.DataFormat.{bytes_of, value_of, as_short}
use donkeyji.Mydb.DataFormat.Bytes.{length-bytes_of, value_of-bytes_of2}
use donkeyji.Xy3.DataBuf.{DataBuf, packet_need, get_pack}
use donkeyji.Xy3.DataBuf.Expand.{contents}

-- the two parts of a piece of memory
bytes_at-front :
    (m : ℕ → ℕ) (i n k : ℕ) (xs ys : List ℕ)
    → bytes_at m i (n + k) ≡ xs ++ ys
    → length xs ≡ n
    → bytes_at m i n ≡ xs
bytes_at-front m i n k xs ys whole size =
    let both : bytes_at m i n ++ bytes_at m (i + n) k ≡ xs ++ ys =
      sym (bytes_at-append m i n k) ∙ whole in
    let left : take n (bytes_at m i n ++ bytes_at m (i + n) k) ≡ bytes_at m i n =
      subst (λ j. take j (bytes_at m i n ++ bytes_at m (i + n) k) ≡ bytes_at m i n)
        (length-bytes_at m i n) (take-append (bytes_at m i n) (bytes_at m (i + n) k)) in
    let right : take n (xs ++ ys) ≡ xs =
      subst (λ j. take j (xs ++ ys) ≡ xs) size (take-append xs ys) in
    sym left ∙ (ap (take n) both ∙ right)

bytes_at-back :
    (m : ℕ → ℕ) (i n k : ℕ) (xs ys : List ℕ)
    → bytes_at m i (n + k) ≡ xs ++ ys
    → length xs ≡ n
    → bytes_at m (i + n) k ≡ ys
bytes_at-back m i n k xs ys whole size =
    let both : bytes_at m i n ++ bytes_at m (i + n) k ≡ xs ++ ys =
      sym (bytes_at-append m i n k) ∙ whole in
    let left : drop n (bytes_at m i n ++ bytes_at m (i + n) k) ≡ bytes_at m (i + n) k =
      subst (λ j. drop j (bytes_at m i n ++ bytes_at m (i + n) k) ≡ bytes_at m (i + n) k)
        (length-bytes_at m i n) (drop-append (bytes_at m i n) (bytes_at m (i + n) k)) in
    let right : drop n (xs ++ ys) ≡ ys =
      subst (λ j. drop j (xs ++ ys) ≡ ys) size (drop-append xs ys) in
    sym left ∙ (ap (drop n) both ∙ right)

module _ (d : DataBuf) (n : ℕ) (ys : List ℕ) (queue : contents d ≡ bytes_of 2 n ++ ys) where
  queue-size : d.tail - d.head ≡ 2 + length ys
  queue-size =
      sym (length-bytes_at d.mem d.head (d.tail - d.head))
      ∙ (ap length queue ∙ omega (arith, length-append (bytes_of 2 n) ys, length-bytes_of 2 n))

  whole : bytes_at d.mem d.head (2 + length ys) ≡ bytes_of 2 n ++ ys
  whole = subst (λ k. bytes_at d.mem d.head k ≡ bytes_of 2 n ++ ys) queue-size queue

  queue-header : bytes_at d.mem d.head 2 ≡ bytes_of 2 n
  queue-header =
      bytes_at-front d.mem d.head 2 (length ys) (bytes_of 2 n) ys whole (length-bytes_of 2 n)

  queue-value : value_of (bytes_at d.mem d.head 2) ≡ n % 2 ^ 16
  queue-value = rw queue-header (value_of-bytes_of2 n)

  queue-low : d.mem d.head ≡ n % 256
  unfolding bytes_of
  queue-low = ground (arith, queue-header)

  queue-rest : bytes_at d.mem (d.head + 2) (length ys) ≡ ys
  queue-rest =
      bytes_at-back d.mem d.head 2 (length ys) (bytes_of 2 n) ys whole (length-bytes_of 2 n)

-- The first packet of a valid buffer, if it has fewer than 128 bytes, all of which are there, is what
-- `getPack` gives: its length, and the place of its bytes
pub get_pack-first :
    (d : DataBuf) (xs rest : List ℕ)
    → contents d ≡ bytes_of 2 (length xs) ++ (xs ++ rest)
    → length xs < 128
    → (get_pack d ≡ some (pos (length xs), d.head + 2))
      × (bytes_at d.mem (d.head + 2) (length xs) ≡ xs)
unfolding get_pack as_short
get_pack-first d xs rest queue small =
    let all = queue-size d (length xs) (xs ++ rest) queue in
    let low : d.mem d.head ≡ length xs = queue-low d (length xs) (xs ++ rest) queue ∙ omega arith in
    let value : value_of (bytes_at d.mem d.head 2) ≡ length xs =
      queue-value d (length xs) (xs ++ rest) queue ∙ omega arith in
    let there : (leb 2 (d.tail - d.head) && leb (packet_need (d.mem d.head)) (d.tail - d.head))
        ≡ true =
      ground (arith, low, all, length-append xs rest) in
    let plain : ltb (length xs) (2 ^ 15) ≡ true = ground arith in
    let data_of = queue-rest d (length xs) (xs ++ rest) queue in
    (
      rw (there, value, plain) refl,
      bytes_at-front d.mem (d.head + 2) (length xs) (length rest) xs rest
          (subst (λ k. bytes_at d.mem (d.head + 2) k ≡ xs ++ rest) (length-append xs rest) data_of)
          refl,
    )

-- `getPack` gives nothing, whatever follows, if the first packet has a length whose low byte is from
-- 128 to 253, since that byte is read as a negative number
pub get_pack-stuck :
    (d : DataBuf) (n : ℕ) (ys : List ℕ)
    → contents d ≡ bytes_of 2 n ++ ys
    → 128 ≤ n % 256
    → n % 256 < 254
    → length ys < 2 ^ 31
    → get_pack d ≡ none
unfolding get_pack
get_pack-stuck d n ys queue least most small =
    let not_there : (leb 2 (d.tail - d.head) && leb (packet_need (d.mem d.head)) (d.tail - d.head))
        ≡ false =
      ground (arith, queue-low d n ys queue, queue-size d n ys queue) in
    rw not_there refl
