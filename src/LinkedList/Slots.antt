-- ===== src/LinkedList/Slots.antt =====
-- src/llist.c: ll_append keeps the data that are in the list.
use gibson_mastter.Base.{
  ℕ, zero, suc, ◌+◌, ◌≡◌, refl, subst, ap, ◌∙◌, inl, inr, Option, none, some, List, [], ◌∷◌, ◌++◌,
  take, drop, arith, Option-cases, option_rule,
}
use mathlib.Core.Option.{some-injective}
use gibson_mastter.LinkedList.{
  LinkedList, first_null, next_null, set_cell, ll_append, from_free, from_head, fill, ll_append_new,
}

next_null-suc : (o : Option ℕ) (i : ℕ) → next_null o ≡ some (suc i) → o ≡ some i
next_null-suc none i e = ground arith
next_null-suc (some j) i e = ap some (omega (arith, some-injective (suc j) (suc i) e))

module _ {A : Type 0} (weight : A → ℕ) where
  -- The sum of a weight over the data of the cells. By its choice it counts the cells in use, or
  -- those that hold one datum.
  abbrev pub total : List (Option A) → ℕ
  total [] = 0
  total (none ∷ cs) = total cs
  total (some x ∷ cs) = weight x + total cs

  -- Writing to a cell that is NULL adds the datum.
  set_cell-first :
      (cs : List (Option A)) (i : ℕ) (d : A)
      → first_null cs ≡ some i
      → total (set_cell cs i (some d)) ≡ weight d + total cs
  unfolding first_null set_cell
  set_cell-first [] i d e = ground arith
  set_cell-first (none ∷ cs) zero d e = refl
  set_cell-first (none ∷ cs) (suc i) d e = ground arith
  set_cell-first (some x ∷ cs) zero d e = elim (Option-cases (first_null cs)) [
    | inl n ↦ ground arith
    | inr (j, f) ↦ ground arith
  ]
  set_cell-first (some x ∷ cs) (suc i) d e =
      omega (arith, set_cell-first cs i d (next_null-suc (first_null cs) i e))

  set_cell-drop :
      (f : ℕ) (cs : List (Option A)) (i : ℕ) (d : A)
      → first_null (drop f cs) ≡ some i
      → total (set_cell cs (f + i) (some d)) ≡ weight d + total cs
  unfolding first_null set_cell
  set_cell-drop zero cs i d e =
      ap (λ j. total (set_cell cs j (some d))) {x = 0 + i} {y = i} (omega arith)
      ∙ set_cell-first cs i d e
  set_cell-drop (suc f) [] i d e = ground arith
  set_cell-drop (suc f) (c ∷ cs) i d e =
      ap (λ j. total (set_cell (c ∷ cs) j (some d))) {x = suc f + i} {y = suc (f + i)} (omega arith)
      ∙ behind c (set_cell-drop f cs i d e)
    where
      behind :
          (c : Option A)
          → total (set_cell cs (f + i) (some d)) ≡ weight d + total cs
          → total (set_cell (c ∷ cs) (suc (f + i)) (some d)) ≡ weight d + total (c ∷ cs)
      behind none r = r
      behind (some x) r = omega (arith, r)

  set_cell-take :
      (f : ℕ) (cs : List (Option A)) (i : ℕ) (d : A)
      → first_null (take f cs) ≡ some i
      → total (set_cell cs i (some d)) ≡ weight d + total cs
  unfolding first_null set_cell
  set_cell-take zero cs i d e = ground arith
  set_cell-take (suc f) [] i d e = ground arith
  set_cell-take (suc f) (none ∷ cs) zero d e = refl
  set_cell-take (suc f) (none ∷ cs) (suc i) d e = ground arith
  set_cell-take (suc f) (some x ∷ cs) zero d e = elim (Option-cases (first_null (take f cs))) [
    | inl n ↦ ground arith
    | inr (j, g) ↦ ground arith
  ]
  set_cell-take (suc f) (some x ∷ cs) (suc i) d e =
      omega (arith, set_cell-take f cs i d (next_null-suc (first_null (take f cs)) i e))

  total-new : (cs : List (Option A)) (d : A) → total (cs ++ some d ∷ []) ≡ weight d + total cs
  total-new [] d = refl
  total-new (none ∷ cs) d = total-new cs d
  total-new (some x ∷ cs) d = omega (arith, total-new cs d)

  abbrev More : LinkedList A → A → LinkedList A → Type 0
  More l d m = total m.cells ≡ weight d + total l.cells

  from_head-More :
      (l : LinkedList A) (d : A) (i : ℕ) → from_head l ≡ some i → More l d (fill l i (some d))
  from_head-More l d i e = go l.free e
    where
      go :
          (m : Option ℕ)
          → from_head (record l { free = m }) ≡ some i
          → total (set_cell l.cells i (some d)) ≡ weight d + total l.cells
      go none e = set_cell-first l.cells i d e
      go (some f) e = set_cell-take f l.cells i d e

  from_free-More :
      (l : LinkedList A) (d : A) (i : ℕ) → from_free l ≡ some i → More l d (fill l i (some d))
  from_free-More l d i e = go l.free e
    where
      behind :
          (f : ℕ) (o : Option ℕ)
          → first_null (drop f l.cells) ≡ o
          → elim o as (λ _. Option ℕ) [ none ↦ none | some j ↦ some (f + j) ] ≡ some i
          → total (set_cell l.cells i (some d)) ≡ weight d + total l.cells
      behind f none g e = ground arith
      behind f (some j) g e =
          subst (λ k. total (set_cell l.cells k (some d)) ≡ weight d + total l.cells)
            (some-injective (f + j) i e) (set_cell-drop f l.cells j d g)

      go :
          (m : Option ℕ)
          → from_free (record l { free = m }) ≡ some i
          → total (set_cell l.cells i (some d)) ≡ weight d + total l.cells
      go none e = ground arith
      go (some f) e = behind f (first_null (drop f l.cells)) refl e

  -- ll_append adds its datum and loses none, wherever the pointer `free` stands.
  pub ll_append-total :
      (l : LinkedList A) (d : A) → total (ll_append l (some d)).cells ≡ weight d + total l.cells
  unfolding ll_append
  ll_append-total l d =
      option_rule (More l d) (from_free l)
        (elim (from_head l) [ some i ↦ fill l i (some d) | none ↦ ll_append_new l (some d) ])
        (λ i. fill l i (some d))
        (option_rule (More l d) (from_head l) (ll_append_new l (some d)) (λ i. fill l i (some d))
          (total-new l.cells d) (from_head-More l d))
        (from_free-More l d)
