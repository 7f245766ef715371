-- ===== src/MyTimer/ActiveList.antt =====
-- mytimer/list.c: `struct list`, the expired timers, and `struct m_list`, the timer wrappers.
-- A node is its address and 0 is NULL; `next` and `prev` give the links of every node. The two
-- halves of the file have the same text for `struct timer` and for `struct timer_wrapper`.
-- `len` is an `int`, which counts allocated nodes and does not overflow.
pub mod Chain
pub mod Insert
pub mod Remove
mod Tests
use donkeyji.Prelude.{
  ℕ, zero, suc, Bool, true, false, ◌||◌, Option, none, some, List, [], ◌∷◌, ◌==◌, if◌then◌else◌,
  update,
}
use donkeyji.Prelude.Int.{ℤ, pos, ◌+ℤ◌, ◌-ℤ◌, eqb_ℤ}
use donkeyji.Prelude.Chain.{null}
use donkeyji.Prelude.Exec.{Exec, ok, fault, out_of_fuel, ◌>>=◌}

pub record ListHead : Type 0 where
  pub head : ℕ
  pub len : ℤ

-- `list` is the pointer to the list, `none` if it is NULL
pub record ListState : Type 0 where
  pub list : Option ListHead
  pub next : ℕ → ℕ
  pub prev : ℕ → ℕ

-- `granted` is whether `malloc` has the memory
unfoldable pub list_new : (granted : Bool) → ListState → ListState
list_new granted s = record s {
  list = if granted then some (record { head = null; len = pos 0 }) else none;
}

-- the loop of `list_free`: the nodes given to `timer_free`, in order, and what is left of `len`
unfoldable pub free_loop : (next : ℕ → ℕ) → ℕ → ℕ → ℤ → Exec (List ℕ × ℤ)
free_loop next zero p len = out_of_fuel
free_loop next (suc k) p len =
    let rest : Exec (List ℕ × ℤ) = do
      (freed, left) ← free_loop next k (next p) (len -ℤ pos 1)
      ok (p ∷ freed, left)
    in if p == null then ok ([], len) else rest

-- the list itself is not freed, and keeps its head
unfoldable pub list_free : (fuel : ℕ) → ListState → Exec (List ℕ × ListState)
list_free fuel s = elim s.list [
  | none ↦ ok ([], s)
  | some l ↦ do
    (freed, left) ← free_loop s.next fuel l.head l.len
    ok (freed, record s { list = some (record { head = l.head; len = left }) })
]

-- `false` is the status -1. `prev` is not written, neither of `t` nor of the old head.
unfoldable pub list_insert : ListState → ℕ → Exec (Bool × ListState)
list_insert s t = elim s.list [
  | none ↦ ok (false, s)
  | some l ↦
      if t == null
      then fault
      else ok (
        true,
        record s {
          list = some (record { head = t; len = l.len +ℤ pos 1 });
          next = update s.next t l.head;
        },
      )
]

-- the nodes on both sides of `t` are linked past it
unfoldable pub unlink_head : ListState → ListHead → ℕ → ListState
unlink_head s l t = record s {
  list = some (record { head = s.next t; len = l.len -ℤ pos 1 });
  prev = if s.next t == null then s.prev else update s.prev (s.next t) null;
}

unfoldable pub unlink_inner : ListState → ListHead → ℕ → Exec ListState
unlink_inner s l t =
    let next = update s.next (s.prev t) (s.next t) in
    if s.prev t == null
    then fault
    else ok (record s {
      list = some (record { head = l.head; len = l.len -ℤ pos 1 });
      next = next;
      prev = if next t == null then s.prev else update s.prev (next t) (s.prev t);
    })

-- the status is always 0
unfoldable pub list_remove : ListState → ℕ → Exec ListState
unfolding unlink_head unlink_inner
list_remove s t = elim s.list [
  | none ↦ ok s
  | some l ↦
      if eqb_ℤ l.len (pos 0) || t == null
      then ok s
      else (if l.head == t then ok (unlink_head s l t) else unlink_inner s l t)
]

unfoldable pub m_list_new : (granted : Bool) → ListState → ListState
unfolding list_new
m_list_new = list_new

unfoldable pub m_list_free : (fuel : ℕ) → ListState → Exec (List ℕ × ListState)
unfolding list_free
m_list_free = list_free

unfoldable pub m_list_insert : ListState → ℕ → Exec (Bool × ListState)
unfolding list_insert
m_list_insert = list_insert

unfoldable pub m_list_remove : ListState → ℕ → Exec ListState
unfolding list_remove
m_list_remove = list_remove
