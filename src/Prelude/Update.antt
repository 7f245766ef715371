-- ===== src/Prelude/Update.antt =====
-- Arrays and fields of shared objects as functions, with the update at one index or address.
use Prim.Native.Nat.{ℕ}
use donkeyji.Prelude.Tests.{◌==◌, if◌then◌else◌}

abbrev pub update {ℓ} : {A : Type ℓ} → (ℕ → A) → ℕ → A → ℕ → A
update f i v j = if j == i then v else f j
