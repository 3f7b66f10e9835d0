-- ===== src/Links.antt =====
-- The links of src/lib/kernel/list.c: a `struct list_elem` is at an address, and 0 is NULL. The head of
-- the `struct list` at `list` is there, and its tail is 8 bytes on. A list pointer is not NULL.
pub mod Chain
pub mod Change
pub mod Remove
pub mod Queue
mod Tests
use csed.Common.{
  ℕ, zero, suc, ◌+◌, Bool, true, false, not, ◌&&◌, ◌||◌, ◌==◌, Option, none, some, ◌>>=◌, ◌>>◌,
  check, update, if◌then◌else◌,
}

-- The members `prev` and `next` of the elements in memory.
pub record Heap : Type 0 where
  pub prev : ℕ → ℕ
  pub next : ℕ → ℕ

abbrev pub set_prev : ℕ → ℕ → Heap → Heap
set_prev e p m = record m { prev = update m.prev e p }

abbrev pub set_next : ℕ → ℕ → Heap → Heap
set_next e p m = record m { next = update m.next e p }

abbrev pub is_null : ℕ → Bool
is_null e = e == 0

abbrev pub is_head : Heap → ℕ → Bool
is_head m e = not (is_null e) && (is_null (m.prev e) && not (is_null (m.next e)))

abbrev pub is_interior : Heap → ℕ → Bool
is_interior m e = not (is_null e) && (not (is_null (m.prev e)) && not (is_null (m.next e)))

abbrev pub is_tail : Heap → ℕ → Bool
is_tail m e = not (is_null e) && (not (is_null (m.prev e)) && is_null (m.next e))

abbrev pub list_head : ℕ → ℕ
list_head list = list

abbrev pub list_tail : ℕ → ℕ
list_tail list = list + 8

unfoldable pub list_init : ℕ → Heap → Heap
list_init list m = set_next (list_tail list) 0 (
    set_prev (list_tail list) (list_head list)
      (set_next (list_head list) (list_tail list) (set_prev (list_head list) 0 m)))

abbrev pub list_begin : ℕ → Heap → ℕ
list_begin list m = m.next (list_head list)

abbrev pub list_end : ℕ → ℕ
list_end list = list_tail list

unfoldable pub list_next : ℕ → Heap → Option ℕ
list_next e m = check (is_head m e || is_interior m e) >> some (m.next e)

abbrev pub list_rbegin : ℕ → Heap → ℕ
list_rbegin list m = m.prev (list_tail list)

abbrev pub list_rend : ℕ → ℕ
list_rend list = list_head list

unfoldable pub list_prev : ℕ → Heap → Option ℕ
list_prev e m = check (is_interior m e || is_tail m e) >> some (m.prev e)

unfoldable pub list_insert : ℕ → ℕ → Heap → Option Heap
list_insert before elem m = do
  check (is_interior m before || is_tail m before)
  check (not (is_null elem))
  let m₁ = set_prev elem (m.prev before) m
  let m₂ = set_next elem before m₁
  let m₃ = set_next (m₂.prev before) elem m₂
  some (set_prev before elem m₃)

unfoldable pub list_splice : ℕ → ℕ → ℕ → Heap → Option Heap
list_splice before first last m = do
  check (is_interior m before || is_tail m before)
  elim (first == last) [
    | true ↦ some m
    | false ↦ (do
      last' ← list_prev last m
      check (is_interior m first)
      check (is_interior m last')
      let m₁ = set_next (m.prev first) (m.next last') m
      let m₂ = set_prev (m₁.next last') (m₁.prev first) m₁
      let m₃ = set_prev first (m₂.prev before) m₂
      let m₄ = set_next last' before m₃
      let m₅ = set_next (m₄.prev before) first m₄
      some (set_prev before last' m₅))
  ]

unfoldable pub list_push_front : ℕ → ℕ → Heap → Option Heap
list_push_front list elem m = list_insert (list_begin list m) elem m

unfoldable pub list_push_back : ℕ → ℕ → Heap → Option Heap
list_push_back list elem m = list_insert (list_end list) elem m

-- The element that followed, and the heap.
unfoldable pub list_remove : ℕ → Heap → Option (ℕ × Heap)
list_remove elem m = do
  check (is_interior m elem)
  let m₁ = set_next (m.prev elem) (m.next elem) m
  let m₂ = set_prev (m₁.next elem) (m₁.prev elem) m₁
  some (m₂.next elem, m₂)

abbrev pub list_empty : ℕ → Heap → Bool
list_empty list m = list_begin list m == list_end list

unfoldable pub list_front : ℕ → Heap → Option ℕ
list_front list m = check (not (list_empty list m)) >> some (m.next (list_head list))

unfoldable pub list_back : ℕ → Heap → Option ℕ
list_back list m = check (not (list_empty list m)) >> some (m.prev (list_tail list))

unfoldable pub list_pop_front : ℕ → Heap → Option (ℕ × Heap)
list_pop_front list m = do
  front ← list_front list m
  (after, m') ← list_remove front m
  some (front, m')

unfoldable pub list_pop_back : ℕ → Heap → Option (ℕ × Heap)
list_pop_back list m = do back ← list_back list m; (after, m') ← list_remove back m; some (back, m')

-- The loop of list_size from element `e` on; `none` if the fuel runs out.
unfoldable pub size_from : ℕ → ℕ → ℕ → Heap → Option ℕ
size_from zero list e m = none
size_from (suc fuel) list e m = elim (e == list_end list) [
  | true ↦ some 0
  | false ↦ (do e' ← list_next e m; cnt ← size_from fuel list e' m; some (suc cnt))
]

unfoldable pub list_size : ℕ → ℕ → Heap → Option ℕ
list_size fuel list m = size_from fuel list (list_begin list m) m
