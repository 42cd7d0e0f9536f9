-- ===== src/LinkedList/Order.antt =====
-- src/llist.c: a list that is reset and filled again holds the data in the order they came in.
use gibson_mastter.Base.{
  ℕ, zero, suc, ◌+◌, ◌-◌, ◌≡◌, refl, sym, ap, ◌∙◌, Option, none, some, List, [], ◌∷◌, ◌++◌, map,
  length, drop, ltb, if◌then◌else◌, ltb-yes, ltb-no, arith, length-append,
}
use mathlib.Core.List.{append-nil, append_assoc}
use gibson_mastter.LinkedList.{
  LinkedList, first_null, set_cell, next_cell, ll_append, from_free, from_head, fill, ll_append_new,
  ll_reset, ll_prealloc, append_nulls, all_null, head_cell, ll_foreach_2,
}

abbrev marker : ℕ → ℕ → Option ℕ
marker n zero = none
marker n (suc m) = some n

next-filled :
    (n m : ℕ) → (if ltb (n + 0 + 1) (n + suc m) then some (n + 0 + 1) else none) ≡ marker (n + 1) m
next-filled n zero = rw (ltb-no (n + 0 + 1) (n + 1) (omega arith)) refl
next-filled n (suc m) =
    rw (ltb-yes (n + 0 + 1) (n + suc (suc m)) (omega arith))
      (ap some {x = n + 0 + 1} {y = n + 1} (omega arith))

module _ {A : Type 0} where
  abbrev pub nulls : ℕ → List (Option A)
  nulls zero = []
  nulls (suc n) = none ∷ nulls n

  -- One append after the other.
  abbrev pub append_all : LinkedList A → List A → LinkedList A
  append_all l [] = l
  append_all l (x ∷ xs) = append_all (ll_append l (some x)) xs

  -- The data in order, the rest of the cells NULL, and `free` the first of the rest.
  abbrev filled : List A → ℕ → LinkedList A
  filled xs m = record { cells = map some xs ++ nulls m; free = marker (length xs) m }

  abbrev filled_at : List (Option A) → Option ℕ → LinkedList A
  filled_at cs f = record { cells = cs; free = f }

  first_null-somes : (xs : List A) → first_null (map some xs ++ []) ≡ none
  unfolding first_null
  first_null-somes [] = refl
  first_null-somes (x ∷ xs) = rw (first_null-somes xs) refl

  drop-somes : (xs : List A) (m : ℕ) → drop (length xs) (map some xs ++ nulls m) ≡ nulls m
  drop-somes [] m = refl
  drop-somes (x ∷ xs) m = drop-somes xs m

  set_cell-somes :
      (xs : List A) (x : A) (m : ℕ)
      → set_cell (map some xs ++ nulls (suc m)) (length xs) (some x)
        ≡ map some (xs ++ x ∷ []) ++ nulls m
  unfolding set_cell
  set_cell-somes [] x m = refl
  set_cell-somes (y ∷ xs) x m = ap (λ cs. some y ∷ cs) (set_cell-somes xs x m)

  length-filled : (xs : List A) (m : ℕ) → length (map some xs ++ nulls m) ≡ length xs + m
  length-filled [] zero = refl
  length-filled [] (suc m) = omega (arith, length-filled [] m)
  length-filled (x ∷ xs) m = omega (arith, length-filled xs m)

  append-at :
      (l : LinkedList A) (d : Option A) (i : ℕ) → from_free l ≡ some i → ll_append l d ≡ fill l i d
  unfolding ll_append
  append-at l d i e = rw (e, ll_append) refl

  append-end :
      (l : LinkedList A) (d : Option A)
      → from_free l ≡ none
      → from_head l ≡ none
      → ll_append l d ≡ ll_append_new l d
  unfolding ll_append
  append-end l d e f = rw (e, ll_append) (rw f refl)

  -- The next element takes the first of the rest, or a new cell.
  append-filled :
      (xs : List A) (x : A) (m : ℕ)
      → ll_append (filled xs m) (some x) ≡ filled (xs ++ x ∷ []) (m - 1)
  append-filled xs x zero =
      append-end (filled xs 0) (some x) refl (first_null-somes xs)
      ∙ ap (λ cs. record { cells = cs; free = none }) (new_cell xs)
    where
      new_cell : (ys : List A) → (map some ys ++ []) ++ some x ∷ [] ≡ map some (ys ++ x ∷ []) ++ []
      new_cell [] = refl
      new_cell (y ∷ ys) = ap (λ cs. some y ∷ cs) (new_cell ys)
  append-filled xs x (suc m) =
      append-at (filled xs (suc m)) (some x) (length xs + 0)
        (unfold first_null in rw (drop-somes xs (suc m), from_free) refl)
      ∙ ap
          (λ cs. record {
            cells = cs;
            free = next_cell (map some xs ++ nulls (suc m)) (length xs + 0);
          })
          (ap (λ i. set_cell (map some xs ++ nulls (suc m)) i (some x)) {y = length xs}
              (omega arith)
            ∙ set_cell-somes xs x m)
      ∙ ap (λ f. record { cells = map some (xs ++ x ∷ []) ++ nulls m; free = f })
          (ap (λ n. if ltb (length xs + 0 + 1) n then some (length xs + 0 + 1) else none)
              (length-filled xs (suc m))
            ∙ next-filled (length xs) m
            ∙ ap (λ n. marker n m) (sym (length-append xs (x ∷ []))))
      ∙ ap (filled (xs ++ x ∷ [])) {x = m} {y = suc m - 1} (omega arith)

  append_all-filled :
      (xs ys : List A) (m : ℕ) → append_all (filled xs m) ys ≡ filled (xs ++ ys) (m - length ys)
  append_all-filled xs [] m =
      ap (λ zs. filled zs m) (sym (append-nil xs))
      ∙ ap (filled (xs ++ [])) {x = m} {y = m - 0} (omega arith)
  append_all-filled xs (y ∷ ys) m =
      ap (λ l. append_all l ys) (append-filled xs y m)
      ∙ append_all-filled (xs ++ y ∷ []) ys (m - 1)
      ∙ ap (λ zs. filled zs (m - 1 - length ys)) (append_assoc xs (y ∷ []) ys)
      ∙ ap (filled (xs ++ y ∷ ys)) (omega arith)

  all_null-nulls : (cs : List (Option A)) → all_null cs ≡ nulls (length cs)
  all_null-nulls [] = refl
  all_null-nulls (c ∷ cs) = ap (λ ds. none ∷ ds) (all_null-nulls cs)

  reset-filled : (l : LinkedList A) → ll_reset l ≡ filled [] (length l.cells)
  unfolding ll_reset
  reset-filled l = rw (all_null-nulls l.cells) (head-filled l.cells)
    where
      head-filled :
          (cs : List (Option A))
          → filled_at (nulls (length cs)) (head_cell cs) ≡ filled [] (length cs)
      head-filled [] = refl
      head-filled (c ∷ cs) = refl

  -- Appending data to a list that has just been reset, whatever was in it, puts them into its cells
  -- in their order, and leaves the cells behind them NULL.
  pub append_all-reset :
      (l : LinkedList A) (xs : List A)
      → (append_all (ll_reset l) xs).cells ≡ map some xs ++ nulls (length l.cells - length xs)
  append_all-reset l xs =
      ap (λ k. (append_all k xs).cells) (reset-filled l)
      ∙ ap (λ k. k.cells) (append_all-filled [] xs (length l.cells))

module _ {A B : Type 0} where
  abbrev pub pairs : List A → List B → List (A × B)
  pairs [] ys = []
  pairs (x ∷ xs) [] = []
  pairs (x ∷ xs) (y ∷ ys) = (x, y) ∷ pairs xs ys

  foreach_2-filled :
      (xs : List A) (ys : List B) (m n : ℕ)
      → ll_foreach_2 (map some xs ++ nulls m) (map some ys ++ nulls n) ≡ pairs xs ys
  unfolding ll_foreach_2
  foreach_2-filled [] ys zero n = refl
  foreach_2-filled [] ys (suc m) n = refl
  foreach_2-filled (x ∷ xs) [] m zero = refl
  foreach_2-filled (x ∷ xs) [] m (suc n) = refl
  foreach_2-filled (x ∷ xs) (y ∷ ys) m n = ap (λ ps. (x, y) ∷ ps) (foreach_2-filled xs ys m n)

  -- The keys and the values that a query appends to its two lists after it reset them are what
  -- ll_foreach_2 visits, pair by pair, up to the end of the shorter.
  pub foreach_2-reset :
      (ks : LinkedList A) (vs : LinkedList B) (xs : List A) (ys : List B)
      → ll_foreach_2 (append_all (ll_reset ks) xs).cells (append_all (ll_reset vs) ys).cells
        ≡ pairs xs ys
  foreach_2-reset ks vs xs ys =
      rw (append_all-reset ks xs, append_all-reset vs ys)
        (foreach_2-filled xs ys (length ks.cells - length xs) (length vs.cells - length ys))

-- ll_prealloc makes one cell only, whatever the number of elements it is asked for: each ll_append of
-- NULL but the first finds the cell that the first made, whose data is still NULL.
abbrev one_cell : {A : Type 0} → LinkedList A
one_cell = record { cells = none ∷ []; free = none }

append_nulls-one : {A : Type 0} (n : ℕ) → (append_nulls n (one_cell {A = A})).cells ≡ none ∷ []
unfolding append_nulls ll_append first_null set_cell
append_nulls-one zero = refl
append_nulls-one (suc n) = append_nulls-one n

pub prealloc-one :
    {A : Type 0} (n : ℕ) → ll_prealloc {A = A} (suc n) ≡ record { cells = none ∷ []; free = some 0 }
unfolding ll_prealloc append_nulls ll_append first_null
prealloc-one n = ap (λ cs. record { cells = cs; free = head_cell cs }) (append_nulls-one n)
