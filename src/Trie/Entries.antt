-- ===== src/Trie/Entries.antt =====
-- src/trie.c: the keys below a node, listed in the order of the traversal. The list is the tree's
-- content: to look a key up in it is to find it in the tree, and no key stands in it twice.
use gibson_mastter.Base.{
  ℕ, zero, suc, ◌≡◌, ◌≢◌, refl, sym, subst, ◌∙◌, inl, inr, Option, none, some, List, [], ◌∷◌, ◌++◌,
  ◌==◌, if◌then◌else◌, arith, All, key_eq, ==-refl,
}
use gibson_mastter.Base.Distinct.{Absent, Distinct}
use gibson_mastter.Trie.{Trie, Nodes, node, nil, cons, value, nodes, at, next, tr_find}
use gibson_mastter.Trie.Next.{find_cases}
use gibson_mastter.Trie.Shape.{IsSound, AreSound, values, values-Distinct, miss-Absent}
use gibson_mastter.Trie.Find.{find-nil, find-cons, find_below}

module _ {A : Type 0} where
  abbrev pub under : ℕ → List (List ℕ × A) → List (List ℕ × A)
  under v [] = []
  under v ((k, x) ∷ es) = (v ∷ k, x) ∷ under v es

  abbrev pub here : Option A → List (List ℕ × A)
  here none = []
  here (some x) = ([], x) ∷ []

  -- The data of the first entry with the key.
  abbrev pub lookup : List ℕ → List (List ℕ × A) → Option A
  lookup k [] = none
  lookup k ((j, x) ∷ es) = if key_eq j k then some x else lookup k es

unfoldable mutual
  pub entries : {A : Type 0} → Trie A → List (List ℕ × A)
  entries (node v d n ks) = here d ++ entries_below ks

  pub entries_below : {A : Type 0} → Nodes A → List (List ℕ × A)
  entries_below nil = []
  entries_below (cons t ks) = under (value t) (entries t) ++ entries_below ks

module _ {A : Type 0} where
  lookup-append :
      (k : List ℕ) (es fs : List (List ℕ × A))
      → lookup k (es ++ fs) ≡ (elim (lookup k es) [ none ↦ lookup k fs | some x ↦ some x ])
  lookup-append k [] fs = refl
  lookup-append k ((j, x) ∷ es) fs = ground (arith, lookup-append k es fs)

  lookup-under :
      (v w : ℕ) (k : List ℕ) (es : List (List ℕ × A))
      → lookup (w ∷ k) (under v es) ≡ (if v == w then lookup k es else none)
  lookup-under v w k [] = ground arith
  lookup-under v w k ((j, x) ∷ es) = ground (arith, lookup-under v w k es)

  lookup-under_nil : (v : ℕ) (es : List (List ℕ × A)) → lookup [] (under v es) ≡ none
  lookup-under_nil v [] = refl
  lookup-under_nil v ((j, x) ∷ es) = lookup-under_nil v es

  -- The child of a value, in the order of the array.
  pick : Nodes A → ℕ → Option (Trie A)
  pick nil w = none
  pick (cons t ks) w = if value t == w then some t else pick ks w

  pick-Absent : (ks : Nodes A) (w : ℕ) → Absent w (values ks) → pick ks w ≡ none
  unfolding pick
  pick-Absent nil w h = refl
  pick-Absent (cons t ks) w h = ground (arith, h.0, pick-Absent ks w h.1)

  at-Absent :
      (ks : Nodes A) (i w : ℕ) (u : Trie A) → Absent w (values ks) → at ks i ≡ some u → value u ≢ w
  at-Absent nil i w u h a = cc
  at-Absent (cons t ks) zero w u h a = λ e. h.0 (cc)
  at-Absent (cons t ks) (suc i) w u h a = at-Absent ks i w u h.1 a

  pick-at :
      (ks : Nodes A) (i : ℕ) (u : Trie A)
      → Distinct (values ks)
      → at ks i ≡ some u
      → pick ks (value u) ≡ some u
  unfolding pick
  pick-at nil i u d a = cc
  pick-at (cons t ks) zero u d a = ground (arith, ==-refl (value u))
  pick-at (cons t ks) (suc i) u d a =
      ground (arith, pick-at ks i u d.1 a, at-Absent ks i (value t) u d.0 a)

  next-pick : (t : Trie A) (w : ℕ) → IsSound t → next t w ≡ pick (nodes t) w
  next-pick t w h = elim (find_cases t w) [
    | inl miss ↦ rw (miss, next) (sym (pick-Absent (nodes t) w (miss-Absent t w h miss)))
    | inr (i, u, hit, a, v) ↦
        rw (hit, next)
          (a
            ∙ sym (
                subst (λ c. pick (nodes t) c ≡ some u) v
                  (pick-at (nodes t) i u (values-Distinct t h) a)))
  ]

  lookup-below_nil : (ks : Nodes A) → lookup [] (entries_below ks) ≡ none
  unfolding entries
  lookup-below_nil nil = refl
  lookup-below_nil (cons t ks) = ground (
    arith,
    lookup-append [] (under (value t) (entries t)) (entries_below ks),
    lookup-under_nil (value t) (entries t),
    lookup-below_nil ks,
  )

mutual
  unfolding entries pick

  -- The listing of a sound tree is its content: to look a key up in it is `tr_find`.
  pub lookup-entries :
      {A : Type 0} (t : Trie A) (k : List ℕ) → IsSound t → lookup k (entries t) ≡ tr_find t k
  lookup-entries (node v none n ks) [] h = lookup-below_nil ks ∙ sym (find-nil (node v none n ks))
  lookup-entries (node v (some x) n ks) [] h = sym (find-nil (node v (some x) n ks))
  lookup-entries (node v none n ks) (w ∷ ws) h = ground (
    arith,
    find-cons (node v none n ks) w ws,
    next-pick (node v none n ks) w h,
    lookup_below ks w ws h.3 h.1,
  )
  lookup-entries (node v (some x) n ks) (w ∷ ws) h = ground (
    arith,
    find-cons (node v (some x) n ks) w ws,
    next-pick (node v (some x) n ks) w h,
    lookup_below ks w ws h.3 h.1,
  )

  lookup_below :
      {A : Type 0} (ks : Nodes A) (w : ℕ) (k : List ℕ)
      → AreSound ks
      → Distinct (values ks)
      → lookup (w ∷ k) (entries_below ks) ≡ find_below (pick ks w) k
  lookup_below nil w k h d = refl
  lookup_below (cons t ks) w k h d = ground (
    arith,
    lookup-append (w ∷ k) (under (value t) (entries t)) (entries_below ks),
    lookup-under (value t) w k (entries t),
    lookup-entries t k h.0,
    lookup_below ks w k h.1 d.1,
    pick-Absent ks (value t) d.0,
  )

-- No key twice.
module _ {A : Type 0} where
  abbrev pub Missing : List ℕ → List (List ℕ × A) → Type 0
  Missing k = All (λ e. e.0 ≢ k)

  abbrev pub Unique : List (List ℕ × A) → Type 0
  Unique [] = Unit
  Unique (e ∷ es) = Missing e.0 es × Unique es

  append-Missing :
      (k : List ℕ) (es fs : List (List ℕ × A)) → Missing k es → Missing k fs → Missing k (es ++ fs)
  append-Missing k [] fs h g = g
  append-Missing k (e ∷ es) fs h g = (h.0, append-Missing k es fs h.1 g)

  under-Missing :
      (v : ℕ) (k : List ℕ) (es : List (List ℕ × A)) → Missing k es → Missing (v ∷ k) (under v es)
  under-Missing v k [] h = tt
  under-Missing v k ((j, x) ∷ es) h = (λ e. h.0 (cc), under-Missing v k es h.1)

  under-Missing_ne :
      (v w : ℕ) (k : List ℕ) (es : List (List ℕ × A)) → v ≢ w → Missing (w ∷ k) (under v es)
  under-Missing_ne v w k [] h = tt
  under-Missing_ne v w k ((j, x) ∷ es) h = (λ e. h (cc), under-Missing_ne v w k es h)

  under-Missing_nil : (v : ℕ) (es : List (List ℕ × A)) → Missing [] (under v es)
  under-Missing_nil v [] = tt
  under-Missing_nil v ((j, x) ∷ es) = (λ e. cc, under-Missing_nil v es)

  under-Unique : (v : ℕ) (es : List (List ℕ × A)) → Unique es → Unique (under v es)
  under-Unique v [] h = tt
  under-Unique v ((j, x) ∷ es) h = (under-Missing v j es h.0, under-Unique v es h.1)

  -- Two listings with keys below different bytes.
  append-Unique-under :
      (v : ℕ) (es fs : List (List ℕ × A))
      → Unique es
      → Unique fs
      → ((k : List ℕ) → Missing (v ∷ k) fs)
      → Unique (under v es ++ fs)
  append-Unique-under v [] fs h g m = g
  append-Unique-under v ((j, x) ∷ es) fs h g m = (
    append-Missing (v ∷ j) (under v es) fs (under-Missing v j es h.0) (m j),
    append-Unique-under v es fs h.1 g m,
  )

  below-Missing :
      (ks : Nodes A) (v : ℕ) (k : List ℕ)
      → Absent v (values ks)
      → Missing (v ∷ k) (entries_below ks)
  unfolding entries
  below-Missing nil v k h = tt
  below-Missing (cons t ks) v k h =
      append-Missing (v ∷ k) (under (value t) (entries t)) (entries_below ks)
        (under-Missing_ne (value t) v k (entries t) h.0) (below-Missing ks v k h.1)

  below-Missing_nil : (ks : Nodes A) → Missing [] (entries_below ks)
  unfolding entries
  below-Missing_nil nil = tt
  below-Missing_nil (cons t ks) =
      append-Missing [] (under (value t) (entries t)) (entries_below ks)
        (under-Missing_nil (value t) (entries t)) (below-Missing_nil ks)

mutual
  unfolding entries

  pub entries-Unique : {A : Type 0} (t : Trie A) → IsSound t → Unique (entries t)
  entries-Unique (node v none n ks) h = below-Unique ks h.3 h.1
  entries-Unique (node v (some x) n ks) h = (below-Missing_nil ks, below-Unique ks h.3 h.1)

  below-Unique :
      {A : Type 0} (ks : Nodes A) → AreSound ks → Distinct (values ks) → Unique (entries_below ks)
  below-Unique nil h d = tt
  below-Unique (cons t ks) h d =
      append-Unique-under (value t) (entries t) (entries_below ks) (entries-Unique t h.0)
        (below-Unique ks h.1 d.1) (λ k. below-Missing ks (value t) k d.0)
