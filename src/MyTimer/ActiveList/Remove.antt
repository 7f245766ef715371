-- ===== src/MyTimer/ActiveList/Remove.antt =====
-- `list_remove`
use donkeyji.Prelude.{
  ℕ, suc, ◌≡◌, ◌≢◌, refl, ap, true, false, List, [], ◌∷◌, ◌++◌, arith, ◌==◌, update, length,
}
use donkeyji.Prelude.Int.{pos, ◌-ℤ◌, eqb_ℤ}
use donkeyji.Prelude.Exec.{fault, Yields, yields}
use donkeyji.MyTimer.ActiveList.{ListState, list_remove}
use donkeyji.MyTimer.ActiveList.Chain.{Holds}
use donkeyji.Prelude.Chain.{has, Chain, Chain-update, null}
use donkeyji.MyTimer.ActiveList.Insert.{pred-eq--ℤ}

not_empty : (n : ℕ) → eqb_ℤ (pos (suc n)) (pos 0) ≡ false
not_empty n = ground arith

-- `list_remove` of the first node leaves the others, in order, and writes no link `next`
pub list_remove-head :
    (s : ListState) (t : ℕ) (xs : List ℕ)
    → Holds s (t ∷ xs)
    → Yields (λ s'. Holds s' xs × (s'.next ≡ s.next)) (list_remove s t)
unfolding list_remove
list_remove-head s t xs h =
    let some_node : (t == null) ≡ false = ground (arith, h.chain.1) in
    let first : (h.first == t) ≡ true = ground (arith, h.chain.0) in
    rw (h.list, list_remove, h.size, not_empty (length xs), some_node, first)
      (yields (
        record {
          first = s.next t;
          count = pos (suc (length xs)) -ℤ pos 1;
          list = refl;
          chain = h.chain.3;
          size = pred-eq--ℤ (length xs);
        },
        refl,
      ))

-- `list_remove` of a node that is not the first, and whose `prev` is NULL, writes through NULL
pub list_remove-fault :
    (s : ListState) (t x : ℕ) (xs : List ℕ)
    → Holds s (x ∷ xs)
    → t ≢ x
    → t ≢ null
    → s.prev t ≡ null
    → list_remove s t ≡ fault
unfolding list_remove
list_remove-fault s t x xs h ne node unset =
    let some_node : (t == null) ≡ false = ground arith in
    let inner : (h.first == t) ≡ false = ground (arith, h.chain.0) in
    rw (h.list, list_remove, h.size, not_empty (length xs), some_node, inner, unset)

module _ (y t : ℕ) (zs : List ℕ) where
  has-cut :
      (x : ℕ) (ys : List ℕ) → has x (ys ++ (y ∷ t ∷ zs)) ≡ false → has x (ys ++ (y ∷ zs)) ≡ false
  has-cut x [] out = ground arith
  has-cut x (u ∷ ys) out = ground (arith, has-cut x ys)

  has-before : (x : ℕ) (ys : List ℕ) → has x (ys ++ (y ∷ t ∷ zs)) ≡ false → x ≢ y
  has-before x [] out = ground arith
  has-before x (u ∷ ys) out = has-before x ys (ground arith)

  has-inner : (x : ℕ) (ys : List ℕ) → has x (ys ++ (y ∷ t ∷ zs)) ≡ false → x ≢ t
  has-inner x [] out = ground arith
  has-inner x (u ∷ ys) out = has-inner x ys (ground arith)

  -- the node before `t` is linked past it
  Chain-cut :
      (next : ℕ → ℕ) (p : ℕ) (ys : List ℕ)
      → Chain next p (ys ++ (y ∷ t ∷ zs))
      → Chain (update next y (next t)) p (ys ++ (y ∷ zs))
  Chain-cut next p [] c =
      let there : update next y (next t) y ≡ next t = ground arith in
      let out : has y zs ≡ false = ground (arith, c.2) in
      (c.0, c.1, out, rw there (Chain-update next (next t) zs y (next t) c.3.3 out))
  Chain-cut next p (u ∷ ys) c =
      let same : update next y (next t) u ≡ next u = ground (arith, has-before u ys c.2) in
      (c.0, c.1, has-cut u ys c.2, rw same (Chain-cut next (next u) ys c.3))

  length-cut : (ys : List ℕ) → length (ys ++ (y ∷ t ∷ zs)) ≡ suc (length (ys ++ (y ∷ zs)))
  length-cut [] = refl
  length-cut (u ∷ ys) = ap suc (length-cut ys)

  Chain-first-ne :
      (next : ℕ → ℕ) (p : ℕ) (ys : List ℕ)
      → Chain next p (ys ++ (y ∷ t ∷ zs))
      → (p ≢ t) × (y ≢ null) × (t ≢ null)
  Chain-first-ne next p [] c = (ground (arith, c.0, c.2), c.1, c.3.1)
  Chain-first-ne next p (u ∷ ys) c =
      let rest = Chain-first-ne next (next u) ys c.3 in
      (ground (arith, c.0, has-inner u ys c.2), rest.1, rest.2)

  -- `list_remove` of a node behind the first, whose `prev` leads to the node before it, leaves the
  -- others, in order
  pub list_remove-inner :
      (s : ListState) (ys : List ℕ)
      → Holds s (ys ++ (y ∷ t ∷ zs))
      → s.prev t ≡ y
      → Yields (λ s'. Holds s' (ys ++ (y ∷ zs))) (list_remove s t)
  unfolding list_remove
  list_remove-inner s ys h before =
      let ends = Chain-first-ne s.next h.first ys h.chain in
      let some_node : (t == null) ≡ false = ground (arith, ends.2) in
      let some_prev : (y == null) ≡ false = ground (arith, ends.1) in
      let inner : (h.first == t) ≡ false = ground (arith, ends.0) in
      rw
        (
          h.list,
          list_remove,
          h.size,
          length-cut ys,
          not_empty (length (ys ++ (y ∷ zs))),
          some_node,
          inner,
          before,
          some_prev,
        )
        (yields (record {
          first = h.first;
          count = pos (suc (length (ys ++ (y ∷ zs)))) -ℤ pos 1;
          list = refl;
          chain = Chain-cut s.next h.first ys h.chain;
          size = pred-eq--ℤ (length (ys ++ (y ∷ zs)));
        }))
