-- ===== src/MyTimer/ActiveList/Chain.antt =====
-- The nodes that a list holds, in order.
use donkeyji.Prelude.{ℕ, ◌≡◌, some, List, length}
use donkeyji.Prelude.Int.{ℤ, pos}
use donkeyji.Prelude.Chain.{Chain}
use donkeyji.MyTimer.ActiveList.{ListState}

-- the list exists and holds the nodes `xs`
pub record Holds (s : ListState) (xs : List ℕ) : Type 0 where
  pub first : ℕ
  pub count : ℤ
  pub list : s.list ≡ some (record { head = first; len = count })
  pub chain : Chain s.next first xs
  pub size : count ≡ pos (length xs)
