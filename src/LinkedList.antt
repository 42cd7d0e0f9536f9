-- ===== src/LinkedList.antt =====
-- src/llist.h and src/llist.c: the list whose cells are reused. A list is its cells from the head to
-- the tail, each with its data pointer (none for NULL), and the pointer `free`, the number of a cell
-- or none for NULL.
pub mod Order
pub mod Slots
use gibson_mastter.Base.{
  ℕ, zero, suc, ◌+◌, Option, none, some, List, [], ◌∷◌, ◌++◌, length, take, drop, ltb,
  if◌then◌else◌,
}

pub record LinkedList (A : Type 0) : Type 0 where
  pub cells : List (Option A)
  pub free : Option ℕ

abbrev pub next_null : Option ℕ → Option ℕ
next_null none = none
next_null (some i) = some (suc i)

module _ {A : Type 0} where
  -- ll_create, ll_init
  abbrev pub ll_create : LinkedList A
  ll_create = record { cells = []; free = none }

  -- The first cell whose data is NULL.
  unfoldable pub first_null : List (Option A) → Option ℕ
  first_null [] = none
  first_null (none ∷ cs) = some 0
  first_null (some x ∷ cs) = next_null (first_null cs)

  -- `item->data = data`
  unfoldable pub set_cell : List (Option A) → ℕ → Option A → List (Option A)
  set_cell [] i d = []
  set_cell (c ∷ cs) zero d = d ∷ cs
  set_cell (c ∷ cs) (suc i) d = c ∷ set_cell cs i d

  -- `item->next`
  abbrev pub next_cell : List (Option A) → ℕ → Option ℕ
  next_cell cs i = if ltb (i + 1) (length cs) then some (i + 1) else none

  -- The first loop starts at `free`, the second at the head and ends at `free`.
  abbrev pub from_free : LinkedList A → Option ℕ
  from_free l = elim l.free [
    | none ↦ none
    | some f ↦ elim (first_null (drop f l.cells)) [ none ↦ none | some i ↦ some (f + i) ]
  ]

  abbrev pub from_head : LinkedList A → Option ℕ
  from_head l = elim l.free [ none ↦ first_null l.cells | some f ↦ first_null (take f l.cells) ]

  abbrev pub fill : LinkedList A → ℕ → Option A → LinkedList A
  fill l i d = record { cells = set_cell l.cells i d; free = next_cell l.cells i }

  -- ll_append_new
  abbrev pub ll_append_new : LinkedList A → Option A → LinkedList A
  ll_append_new l d = record { cells = l.cells ++ d ∷ []; free = l.free }

  unfoldable pub ll_append : LinkedList A → Option A → LinkedList A
  ll_append l d = elim (from_free l) [
    | some i ↦ fill l i d
    | none ↦ elim (from_head l) [ some i ↦ fill l i d | none ↦ ll_append_new l d ]
  ]

  abbrev pub head_cell : List (Option A) → Option ℕ
  head_cell [] = none
  head_cell (c ∷ cs) = some 0

  -- The loop of ll_prealloc.
  unfoldable pub append_nulls : ℕ → LinkedList A → LinkedList A
  append_nulls zero l = l
  append_nulls (suc n) l = append_nulls n (ll_append l none)

  unfoldable pub ll_prealloc : ℕ → LinkedList A
  ll_prealloc elements =
      let l = append_nulls elements ll_create in record l { free = head_cell l.cells }

  abbrev pub all_null : List (Option A) → List (Option A)
  all_null [] = []
  all_null (c ∷ cs) = none ∷ all_null cs

  unfoldable pub ll_reset : LinkedList A → LinkedList A
  ll_reset l = record { cells = all_null l.cells; free = head_cell l.cells }

  -- ll_clear
  abbrev pub ll_clear : LinkedList A → LinkedList A
  ll_clear l = ll_create

module _ {A B : Type 0} where
  -- ll_foreach_2: the data that the loop's body is given.
  unfoldable pub ll_foreach_2 : List (Option A) → List (Option B) → List (A × B)
  ll_foreach_2 [] bs = []
  ll_foreach_2 (none ∷ cs) bs = []
  ll_foreach_2 (some x ∷ cs) [] = []
  ll_foreach_2 (some x ∷ cs) (none ∷ bs) = []
  ll_foreach_2 (some x ∷ cs) (some y ∷ bs) = (x, y) ∷ ll_foreach_2 cs bs
