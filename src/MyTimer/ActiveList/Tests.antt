-- ===== src/MyTimer/ActiveList/Tests.antt =====
-- The theorems on mytimer/list.c at lists that meet their hypotheses.
use donkeyji.Prelude.{◌≡◌, refl, some, [], ◌∷◌, arith, ◌==◌, if◌then◌else◌}
use donkeyji.Prelude.Int.{pos}
use donkeyji.Prelude.Exec.{Yields}
use donkeyji.MyTimer.ActiveList.{ListState, list_remove}
use donkeyji.MyTimer.ActiveList.Chain.{Holds}
use donkeyji.MyTimer.ActiveList.Remove.{list_remove-head}

-- the nodes 1, 2 and 3; node 3 has no `prev`, as `list_insert` leaves it
abbrev pub list123 : ListState
list123 = record {
  list = some (record { head = 1; len = pos 3 });
  next = λ x. if x == 1 then 2 else if x == 2 then 3 else 0;
  prev = λ x. if x == 2 then 1 else 0;
}

pub list123-Holds : Holds list123 (1 ∷ 2 ∷ 3 ∷ [])
list123-Holds = record { first = 1; count = pos 3; list = refl; chain = ground arith; size = refl }

list_remove-head_example :
    Yields (λ s. Holds s (2 ∷ 3 ∷ []) × (s.next ≡ list123.next)) (list_remove list123 1)
list_remove-head_example = list_remove-head list123 1 (2 ∷ 3 ∷ []) list123-Holds
