-- ===== src/Prelude/Exec.antt =====
-- How a call of C code ends: with a value, with an access outside the memory that it owns, or, in
-- the model only, with the fuel of a loop used up; and the rules for calls that end well.
use donkeyji.Prelude.{◌≡◌, refl, Bool, true, false, if◌then◌else◌}

pub data Exec {ℓ} (A : Type ℓ) : Type ℓ where
  ok : A → Exec A
  fault : Exec A
  out_of_fuel : Exec A

infixl 5 ◌>>=◌ ◌>>◌
abbrev pub ◌>>=◌ {ℓ κ} : {A : Type ℓ} {B : Type κ} → Exec A → (A → Exec B) → Exec B
ok a >>= f = f a
fault >>= f = fault
out_of_fuel >>= f = out_of_fuel

abbrev pub ◌>>◌ {ℓ} : {B : Type ℓ} → Exec (Unit {0}) → Exec B → Exec B
m >> k = m >>= λ _. k

-- The call ends, and its value satisfies `P`.
pub data Yields {ℓ κ} {V : Type ℓ} (P : V → Type κ) : Exec V → Type (ℓ ⊔ κ) where
  yields : {v : V} → P v → Yields P (ok v)

module _ {ℓ κ} {V : Type ℓ} {P : V → Type κ} where
  -- a weaker postcondition
  pub Yields-map {μ} :
      {c : Exec V} {W : V → Type μ} → Yields P c → ((v : V) → P v → W v) → Yields W c
  Yields-map (yields h) weaken = yields (weaken _ h)

  -- either branch of a test
  pub Yields-if :
      (test : Bool) {c d : Exec V}
      → (test ≡ true → Yields P c)
      → (test ≡ false → Yields P d)
      → Yields P (if test then c else d)
  Yields-if false on off = off refl
  Yields-if true on off = on refl

  pub Yields-value : {c : Exec V} → Yields P c → (v : V) × (c ≡ ok v) × P v
  Yields-value (yields {v = result} h) = (result, refl, h)

-- one call after the other
pub Yields-bind {ℓ κ μ ν} :
    {V : Type ℓ} {P : V → Type κ} {U : Type μ} {Q : U → Type ν} {c : Exec V} {next : V → Exec U}
    → Yields P c
    → ((v : V) → P v → Yields Q (next v))
    → Yields Q (c >>= next)
Yields-bind (yields h) rest = rest _ h

-- a sequence that ends well has a first part that does
pub bind-ok {ℓ κ} :
    {V : Type ℓ} {U : Type κ} (c : Exec V) (next : V → Exec U) {u : U}
    → (c >>= next) ≡ ok u
    → (v : V) × (c ≡ ok v) × (next v ≡ ok u)
bind-ok (ok v) next e = (v, refl, e)
bind-ok fault next e = cc
bind-ok out_of_fuel next e = cc
