-- ===== src/Rank/Core/Unlink.antt =====
-- A node taken out of a doubly linked list, the way `unbind_score_uid` of rank/core.c does it.
use donkeyji.Prelude.{
  ℕ, ◌≡◌, ◌≢◌, refl, subst, true, false, not, List, [], ◌∷◌, ◌++◌, arith, ◌==◌, if◌then◌else◌,
  update,
}
use donkeyji.Prelude.Chain.{null, has, has-append}
use donkeyji.Rank.Core.Linked.{Linked, Linked-retarget}

module _ (next pre : ℕ → ℕ) where
  Linked-first :
      (before p : ℕ) (xs : List ℕ) → Linked next pre before p xs → has p xs ≡ not (p == null)
  Linked-first before p [] l = ground (arith, l)
  Linked-first before p (x ∷ xs) l = ground (arith, l.0, l.1)

  -- the part of a list behind a node
  pub Linked-behind :
      (before p t : ℕ) (ys zs : List ℕ)
      → Linked next pre before p (ys ++ t ∷ zs)
      → (t ≢ null) × (has t zs ≡ false) × (has t ys ≡ false) × Linked next pre t (next t) zs
  Linked-behind before p t [] zs l = (l.1, l.2, refl, l.4)
  Linked-behind before p t (y ∷ ys) zs l =
      let rest = Linked-behind y (next y) t ys zs l.4 in
      (rest.0, rest.1, ground (arith, rest.2, l.2, has-append y ys (t ∷ zs)), rest.3)

  -- the node before a node that is not the first one
  pub Linked-back :
      (before p y t : ℕ) (ys zs : List ℕ)
      → Linked next pre before p (y ∷ (ys ++ t ∷ zs))
      → has (pre t) (y ∷ ys) ≡ true
  Linked-back before p y t [] zs l = ground (arith, l.4.3)
  Linked-back before p y t (x ∷ ys) zs l = ground (arith, Linked-back y (next y) x t ys zs l.4)

  -- the links with a node that is not the first one taken out
  abbrev pub cut_next : ℕ → ℕ → ℕ
  cut_next t = update (update next (pre t) (next t)) t null

  abbrev pub cut_pre : ℕ → ℕ → ℕ
  cut_pre t = update (if next t == null then pre else update pre (next t) (pre t)) t null

  pub Linked-cut :
      (before p y t : ℕ) (ys zs : List ℕ)
      → Linked next pre before p (y ∷ (ys ++ t ∷ zs))
      → Linked (cut_next t) (cut_pre t) before p (y ∷ (ys ++ zs))
  Linked-cut before p y t [] zs l =
      let behind = Linked-first t (next t) zs l.4.4 in
      let rest =
        Linked-retarget next pre (cut_next t) (cut_pre t) t y (next t) zs
          (λ z m. ground (arith, l.2, l.4.2, l.4.3)) (λ z m other. ground (arith, l.4.2))
          (λ some. ground (arith, l.4.2, l.4.3)) l.4.4 in
      let skip : next t ≡ cut_next t y = ground (arith, l.2, l.4.3) in
      (
        l.0,
        l.1,
        ground (arith, l.2),
        ground (arith, l.1, l.2, l.3, behind),
        subst (λ q. Linked (cut_next t) (cut_pre t) y q zs) skip rest,
      )
  Linked-cut before p y t (x ∷ ys) zs l =
      let back = Linked-back y (next y) x t ys zs l.4 in
      let part = Linked-behind y (next y) t (x ∷ ys) zs l.4 in
      let behind = Linked-first t (next t) zs part.3 in
      let apart = has-append y ys (t ∷ zs) in
      let kept : next y ≡ cut_next t y = ground (arith, l.2, back, apart) in
      (
        l.0,
        l.1,
        ground (arith, l.2, apart, has-append y ys zs),
        ground (arith, l.1, l.2, l.3, apart, behind),
        subst (λ q. Linked (cut_next t) (cut_pre t) y q (x ∷ (ys ++ zs))) kept
            (Linked-cut y (next y) x t ys zs l.4),
      )
