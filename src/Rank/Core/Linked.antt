-- ===== src/Rank/Core/Linked.antt =====
-- Doubly linked lists of nodes that are addresses.
use donkeyji.Prelude.{subst, subst₂, ℕ, ◌≡◌, ◌≢◌, refl, ◌∙◌, true, false, List, [], ◌∷◌, arith}
use donkeyji.Prelude.Chain.{null, has}

-- from `p` the links `next` lead through the distinct nodes `xs` to NULL, and the links `pre` back,
-- from the first node to `before`
abbrev pub Linked : (next pre : ℕ → ℕ) → (before p : ℕ) → List ℕ → Type 0
Linked next pre before p [] = p ≡ null
Linked next pre before p (x ∷ xs) =
    (p ≡ x) × (x ≢ null) × (has x xs ≡ false) × (pre x ≡ before) × Linked next pre x (next x) xs

module _ (next pre next' pre' : ℕ → ℕ) where
  -- links that are the same at the nodes
  pub Linked-same :
      (before p : ℕ) (xs : List ℕ)
      → ((y : ℕ) → has y xs ≡ true → (next' y ≡ next y) × (pre' y ≡ pre y))
      → Linked next pre before p xs
      → Linked next' pre' before p xs
  Linked-same before p [] same l = l
  Linked-same before p (x ∷ xs) same l =
      let here = same x (ground arith) in
      (
        l.0,
        l.1,
        l.2,
        here.1 ∙ l.3,
        rw here.0 (Linked-same x (next x) xs (λ y m. same y (ground arith)) l.4),
      )

  -- the same but for the link back from the first node
  pub Linked-retarget :
      (before before' p : ℕ) (xs : List ℕ)
      → ((y : ℕ) → has y xs ≡ true → next' y ≡ next y)
      → ((y : ℕ) → has y xs ≡ true → y ≢ p → pre' y ≡ pre y)
      → (p ≢ null → pre' p ≡ before')
      → Linked next pre before p xs
      → Linked next' pre' before' p xs
  Linked-retarget before before' p [] same back first l = l
  Linked-retarget before before' p (x ∷ xs) same back first l =
      let at : pre' x ≡ before' = rw (← l.0) (first (ground (arith, l.0, l.1))) in
      (
        l.0,
        l.1,
        l.2,
        at,
        rw (same x (ground arith)) (
            Linked-same x (next x) xs
              (λ y m. (same y (ground arith), back y (ground arith) (ground (arith, l.0, l.2))))
              l.4),
      )

-- the same links from the same node
pub Linked-eq :
    {next next' pre pre' : ℕ → ℕ} {p p' : ℕ} (before : ℕ) (xs : List ℕ)
    → next ≡ next'
    → pre ≡ pre'
    → p ≡ p'
    → Linked next pre before p xs
    → Linked next' pre' before p' xs
Linked-eq {next' = n'} {pre' = b'} {p = p} before xs e f g l =
    subst (λ q. Linked n' b' before q xs) g (subst₂ (λ n b. Linked n b before p xs) e f l)

-- NULL is no node
pub Linked-null :
    (next pre : ℕ → ℕ) (before p : ℕ) (xs : List ℕ)
    → Linked next pre before p xs
    → has null xs ≡ false
Linked-null next pre before p [] l = refl
Linked-null next pre before p (x ∷ xs) l =
    ground (arith, l.1, Linked-null next pre x (next x) xs l.4)
