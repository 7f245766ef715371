-- ===== src/Mydb/Protocol/Registry.antt =====
-- The protocols of the manager, under the numbers that they have.
use donkeyji.Prelude.{
  ℕ, zero, suc, ◌≤◌, ◌<◌, ◌≡◌, ◌≢◌, refl, sym, ◌∙◌, subst, false, ◌⊎◌, inl, inr, Option, none, some,
  List, [], ◌∷◌, ◌++◌, arith, ◌==◌, update, length, get_elem?, Bool-cases,
}
use donkeyji.Mydb.Protocol.{NetProtocol}
use donkeyji.Mydb.Protocol.Manager.{Manager, replace}

-- the object at `a` is not deleted and has the number `i`
pub record IsEntry (objects : ℕ → Option NetProtocol) (fresh i a : ℕ) : Type 0 where
  pub not_null : 0 < a
  pub allocated : a < fresh
  pub object : NetProtocol
  pub live : objects a ≡ some object
  pub numbered : object.id ≡ i

pub record IsRegistered (m : Manager) : Type 0 where
  pub some_protos : 0 < length m.protos
  pub some_fresh : 0 < m.fresh
  pub entries : (i a : ℕ) → get_elem? m.protos i ≡ some a → IsEntry m.objects m.fresh i a

-- a write to another address, or of an object with the same number
pub IsEntry-update :
    {objects : ℕ → Option NetProtocol} {fresh fresh' i a : ℕ} (b : ℕ) (p : NetProtocol)
    → IsEntry objects fresh i a
    → fresh ≤ fresh'
    → (a ≡ b → p.id ≡ i)
    → IsEntry (update objects b (some p)) fresh' i a
IsEntry-update {i} {a} b p e le same = elim (Bool-cases (a == b)) [
  | inl is ↦ record {
    not_null = e.not_null;
    allocated = omega (arith, e.allocated);
    object = p;
    live = rw is refl;
    numbered = same (ground arith);
  }
  | inr other ↦ record {
    not_null = e.not_null;
    allocated = omega (arith, e.allocated);
    object = e.object;
    live = rw other e.live;
    numbered = e.numbered;
  }
]

-- entries of different numbers have different addresses
pub IsEntry-apart :
    {objects : ℕ → Option NetProtocol} {fresh i k a b : ℕ}
    → IsEntry objects fresh i a
    → IsEntry objects fresh k b
    → i ≢ k
    → a ≢ b
IsEntry-apart {objects} {i} {k} {a} e d other is =
    let same : some e.object ≡ some d.object =
      sym e.live ∙ (subst (λ c. objects c ≡ some d.object) (sym is) d.live) in
    other (cc (e.numbered, d.numbered, same))

-- another object is deleted
pub IsEntry-delete :
    {objects : ℕ → Option NetProtocol} {fresh i a : ℕ} (b : ℕ)
    → IsEntry objects fresh i a
    → a ≢ b
    → IsEntry (update objects b none) fresh i a
IsEntry-delete {a} b e other =
    let apart : (a == b) ≡ false = ground (arith, other) in
    record {
      not_null = e.not_null;
      allocated = e.allocated;
      object = e.object;
      live = rw apart e.live;
      numbered = e.numbered;
    }

abbrev pub IsLast : List ℕ → ℕ → ℕ → ℕ → Type 0
IsLast xs x i a = (get_elem? xs i ≡ some a) ⊎ ((i ≡ length xs) × (a ≡ x))

pub get_elem?-snoc :
    (xs : List ℕ) (x i a : ℕ) → get_elem? (xs ++ (x ∷ [])) i ≡ some a → IsLast xs x i a
get_elem?-snoc [] x zero a h = inr (refl, ground (arith, h))
get_elem?-snoc [] x (suc i) a h = cc
get_elem?-snoc (y ∷ xs) x zero a h = inl h
get_elem?-snoc (y ∷ xs) x (suc i) a h = elim (get_elem?-snoc xs x i a h) [
  | inl e ↦ inl e
  | inr e ↦ inr (omega (arith, e.0), e.1)
]

pub length-replace : (xs : List ℕ) (i x : ℕ) → length (replace xs i x) ≡ length xs
length-replace [] i x = refl
length-replace (y ∷ xs) zero x = refl
length-replace (y ∷ xs) (suc i) x = omega (arith, length-replace xs i x)

pub get_elem?-replace :
    (xs : List ℕ) (k x i a : ℕ)
    → get_elem? (replace xs k x) i ≡ some a
    → ((i ≡ k) × (a ≡ x)) ⊎ ((i ≢ k) × (get_elem? xs i ≡ some a))
get_elem?-replace [] k x i a h = cc
get_elem?-replace (y ∷ xs) zero x zero a h = inl (refl, ground (arith, h))
get_elem?-replace (y ∷ xs) zero x (suc i) a h = inr (λ e. ground (arith, e), h)
get_elem?-replace (y ∷ xs) (suc k) x zero a h = inr (λ e. ground (arith, e), h)
get_elem?-replace (y ∷ xs) (suc k) x (suc i) a h = elim (get_elem?-replace xs k x i a h) [
  | inl e ↦ inl (omega (arith, e.0), e.1)
  | inr e ↦ inr (λ q. e.0 (omega (arith, q)), e.1)
]
