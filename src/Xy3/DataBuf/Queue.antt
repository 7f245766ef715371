-- ===== src/Xy3/DataBuf/Queue.antt =====
-- A `DataBuf` is a queue of bytes, which grows.
use donkeyji.Prelude.{
  ℕ, suc, ◌+◌, ◌-◌, ◌^◌, ◌≤◌, ◌<◌, ◌≡◌, refl, sym, ◌∙◌, ap, true, false, List, ◌++◌, arith, ltb,
  leb, if◌then◌else◌, length, drop, Bool-cases, inl, inr,
}
use donkeyji.Prelude.Exec.{Yields, yields, Yields-bind, Yields-map}
use donkeyji.Prelude.Memory.{
  memcpy, bytes_at, length-bytes_at, bytes_at-memcpy, bytes_at-memcpy_before, bytes_at-append,
  drop-bytes_at,
}
use donkeyji.Xy3.DataBuf.{DataBuf, add_bytes, append_raw_data, cut_data}
use donkeyji.Xy3.DataBuf.Expand.{contents, IsValid, expand_buf-Roomy}

-- the bytes are behind the others
pub record Grown (d : DataBuf) (xs : List ℕ) (e : DataBuf) : Type 0 where
  pub valid : IsValid e
  pub queue : contents e ≡ contents d ++ xs

pub add_bytes-Grown :
    (d : DataBuf) (xs : List ℕ)
    → IsValid d
    → length xs ≤ d.left
    → Yields (λ e. Grown d xs e × (e.left ≡ d.left - length xs)) (add_bytes d xs)
unfolding add_bytes
add_bytes-Grown d xs v fits =
    let inside : ltb d.len (d.tail + length xs) ≡ false = ground (arith, v.inside, v.rest) in
    let m = memcpy d.mem d.tail xs in
    let longer : d.tail + length xs - d.head ≡ (d.tail - d.head) + length xs =
      omega (arith, v.ordered) in
    let end : d.head + (d.tail - d.head) ≡ d.tail = omega (arith, v.ordered) in
    rw inside (
      yields (
        record {
          valid = record {
            ordered = omega (arith, v.ordered);
            inside = omega (arith, v.inside, v.rest);
            rest = omega (arith, v.inside, v.rest);
          };
          queue = rw (
            longer,
            bytes_at-append m d.head (d.tail - d.head) (length xs),
            end,
            bytes_at-memcpy d.mem d.tail xs,
            bytes_at-memcpy_before d.mem xs d.head d.tail (d.tail - d.head) (omega (arith, end)),
          );
        },
        refl,
      ))

-- `appendRawData` of bytes to a valid buffer with some length, where this length and the number of the
-- bytes have a sum of at most 2^30, ends, and puts them at the end of its queue, in a larger array if
-- need be. `new` finds the memory. The fuel is above what the number of bytes exceeds the length by.
pub append_raw_data-Grown :
    (k : ℕ) (fresh : ℕ → ℕ) (d : DataBuf) (xs : List ℕ)
    → IsValid d
    → 0 < d.len
    → length xs ≤ d.len + k
    → d.len + length xs ≤ 2 ^ 30
    → Yields (Grown d xs) (append_raw_data (suc k) fresh d xs)
unfolding append_raw_data
append_raw_data-Grown k fresh d xs v some_len enough bounded =
    Yields-bind (expand_buf-Roomy k fresh d (length xs) v some_len enough bounded) λ e r.
      Yields-map (add_bytes-Grown e xs r.valid r.room)
        λ f g. record { valid = g.0.valid; queue = g.0.queue ∙ ap (λ q. q ++ xs) r.kept }

-- `cutData` of a valid buffer takes bytes off the queue, if it has as many, and leaves it if not
pub cut_data-Cut :
    (d : DataBuf) (len : ℕ)
    → IsValid d
    → let (done, e) = cut_data d len in
      IsValid e
      × (contents e ≡ (if leb len (length (contents d)) then drop len (contents d) else contents d))
      × (done ≡ leb len (length (contents d)))
unfolding cut_data
cut_data-Cut d len v = elim (Bool-cases (ltb (d.tail - d.head) len)) [
  | inl e ↦
      let few : leb len (length (contents d)) ≡ false =
        ground (arith, length-bytes_at d.mem d.head (d.tail - d.head)) in
      rw (cut_data, e, few) (v, refl, refl)
  | inr e ↦
      let enough : leb len (length (contents d)) ≡ true =
        ground (arith, length-bytes_at d.mem d.head (d.tail - d.head)) in
      let cut : bytes_at d.mem (d.head + len) (d.tail - (d.head + len)) ≡ drop len (contents d) =
        ap (bytes_at d.mem (d.head + len)) (omega arith)
        ∙ sym (drop-bytes_at d.mem d.head (d.tail - d.head) len (ground arith)) in
      rw (cut_data, e, enough)
        (
          record { ordered = ground (arith, v.ordered); inside = v.inside; rest = v.rest },
          cut,
          refl,
        )
]
