-- ===== src/Connections/Sized.antt =====
-- src/server.c, src/net.c: how many clients there are.
use gibson_mastter.Base.{
  ℕ, zero, suc, ◌+◌, ◌<◌, ◌≡◌, refl, inl, inr, Option, none, some, List, [], ◌∷◌, ◌++◌, length,
  take, drop, length-take, length-drop, arith, Option-cases,
}
use mathlib.Core.Option.{some-injective}
use gibson_mastter.LinkedList.{LinkedList, first_null, set_cell, from_free, from_head, ll_append}
use gibson_mastter.LinkedList.Slots.{total}
use gibson_mastter.Client.{Client}
use gibson_mastter.Connections.{cell_at, append_cell}

-- Each client weighs one.
abbrev pub one : Client → ℕ
one c = 1

pub set_cell-none :
    (cs : List (Option Client)) (i : ℕ) (c : Client)
    → cell_at cs i ≡ some c
    → total one (set_cell cs i none) + 1 ≡ total one cs
unfolding set_cell
set_cell-none [] i c e = ground (arith, e)
set_cell-none (none ∷ cs) zero c e = ground (arith, e)
set_cell-none (some d ∷ cs) zero c e = omega arith
set_cell-none (none ∷ cs) (suc i) c e = set_cell-none cs i c e
set_cell-none (some d ∷ cs) (suc i) c e = omega (arith, set_cell-none cs i c e)

pub set_cell-some :
    (cs : List (Option Client)) (i : ℕ) (c d : Client)
    → cell_at cs i ≡ some c
    → total one (set_cell cs i (some d)) ≡ total one cs
unfolding set_cell
set_cell-some [] i c d e = refl
set_cell-some (none ∷ cs) zero c d e = ground (arith, e)
set_cell-some (some b ∷ cs) zero c d e = refl
set_cell-some (none ∷ cs) (suc i) c d e = set_cell-some cs i c d e
set_cell-some (some b ∷ cs) (suc i) c d e = omega (arith, set_cell-some cs i c d e)

module _ {A : Type 0} where
  cell-set :
      (cs : List (Option A)) (i : ℕ) (d : A)
      → i < length cs
      → cell_at (set_cell cs i (some d)) i ≡ some d
  unfolding set_cell
  cell-set [] i d h = ground (arith, h)
  cell-set (c ∷ cs) zero d h = refl
  cell-set (c ∷ cs) (suc i) d h = cell-set cs i d (omega (arith, h))

  cell-new : (cs : List (Option A)) (d : A) → cell_at (cs ++ some d ∷ []) (length cs) ≡ some d
  cell-new [] d = refl
  cell-new (c ∷ cs) d = cell-new cs d

  first_null-less : (cs : List (Option A)) (i : ℕ) → first_null cs ≡ some i → i < length cs
  unfolding first_null
  first_null-less [] i e = ground (arith, e)
  first_null-less (none ∷ cs) i e = ground (arith, e)
  first_null-less (some x ∷ cs) i e = elim (Option-cases (first_null cs)) [
    | inl n ↦ ground (arith, n, e)
    | inr (j, f) ↦ ground (arith, f, e, first_null-less cs j f)
  ]

  from_free-less : (l : LinkedList A) (i : ℕ) → from_free l ≡ some i → i < length l.cells
  from_free-less l i e = go l.free e
    where
      behind :
          (f : ℕ) (o : Option ℕ)
          → first_null (drop f l.cells) ≡ o
          → elim o as (λ _. Option ℕ) [ none ↦ none | some j ↦ some (f + j) ] ≡ some i
          → i < length l.cells
      behind f none g e = ground (arith, e)
      behind f (some j) g e = omega (
        arith,
        some-injective (f + j) i e,
        first_null-less (drop f l.cells) j g,
        length-drop f l.cells,
      )

      go : (m : Option ℕ) → from_free (record l { free = m }) ≡ some i → i < length l.cells
      go none e = ground (arith, e)
      go (some f) e = behind f (first_null (drop f l.cells)) refl e

  from_head-less : (l : LinkedList A) (i : ℕ) → from_head l ≡ some i → i < length l.cells
  from_head-less l i e = go l.free e
    where
      go : (m : Option ℕ) → from_head (record l { free = m }) ≡ some i → i < length l.cells
      go none e = first_null-less l.cells i e
      go (some f) e = omega (arith, first_null-less (take f l.cells) i e, length-take f l.cells)

  -- The cell that ll_append uses holds the datum.
  pub append-cell :
      (l : LinkedList A) (d : A) → cell_at (ll_append l (some d)).cells (append_cell l) ≡ some d
  unfolding ll_append append_cell
  append-cell l d = elim (Option-cases (from_free l)) [
    | inr (i, e) ↦
        rw (e, append_cell) (rw (e, ll_append) (cell-set l.cells i d (from_free-less l i e)))
    | inl e ↦
        rw (e, append_cell)
          (rw (e, ll_append)
            (elim (Option-cases (from_head l)) [
              | inr (i, f) ↦ rw f (cell-set l.cells i d (from_head-less l i f))
              | inl f ↦ rw f (cell-new l.cells d)
            ]))
  ]
