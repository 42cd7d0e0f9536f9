-- ===== src/Trie/Visit.antt =====
-- src/trie.c: the traversal as a loop over the paths of the nodes, for a handler that looks at the
-- path only and a test that never stops it.
use gibson_mastter.Base.{
  ℕ, zero, suc, ◌≡◌, refl, sym, ap, ◌∙◌, inl, inr, Bool, true, false, ◌||◌, some, List, [], ◌∷◌,
  ◌++◌, arith, key_eq, key_eq_refl,
}
use mathlib.Core.List.{append_assoc, append-nil}
use gibson_mastter.Trie.{Trie, Nodes, node, nil, cons, value, nodes, count, at, tr_find_node}
use gibson_mastter.Trie.Next.{find_cases}
use gibson_mastter.Trie.Shape.{IsSound, AreSound}
use gibson_mastter.Trie.Find.{find_node-cons, next-hit, next-miss, node_below}
use gibson_mastter.Trie.Recurse.{tr_recurse, recurse_nodes, recurse-go, recurse-cons, recurse-nil}

-- The paths of the nodes, in the order of the traversal.
unfoldable mutual
  pub visits : {A : Type 0} → Trie A → List ℕ → List (List ℕ)
  visits (node v d n ks) path = path ∷ visits_below ks path

  pub visits_below : {A : Type 0} → Nodes A → List ℕ → List (List ℕ)
  visits_below nil path = []
  visits_below (cons t ks) path = visits t (path ++ value t ∷ []) ++ visits_below ks path

module _ {S : Type 0} (f : List ℕ → S → S) where
  abbrev pub each : List (List ℕ) → S → S
  each [] s = s
  each (p ∷ ps) s = each ps (f p s)

  each-append : (ps qs : List (List ℕ)) (s : S) → each (ps ++ qs) s ≡ each qs (each ps s)
  each-append [] qs s = refl
  each-append (p ∷ ps) qs s = each-append ps qs (f p s)

abbrev pub never : {S : Type 0} → S → Bool
never s = false

module _ {A S : Type 0} (f : List ℕ → S → S) where
  abbrev pub on_path : List ℕ → Trie A → S → S
  on_path path t s = f path s

  mutual
    unfolding visits

    -- The traversal of a sound tree handles every path once, in order.
    pub recurse-visits :
        (t : Trie A) (path : List ℕ) (s : S)
        → IsSound t
        → tr_recurse never on_path t path s ≡ each f (visits t path) s
    recurse-visits (node v d n ks) path s h =
        recurse-go never on_path v d n ks path s refl
        ∙ rw (h.0) (recurse-visits_below ks path (f path s) h.3)

    recurse-visits_below :
        (ks : Nodes A) (path : List ℕ) (s : S)
        → AreSound ks
        → recurse_nodes never on_path (count ks) ks path s ≡ each f (visits_below ks path) s
    recurse-visits_below nil path s h = recurse-nil never on_path 0 path s
    recurse-visits_below (cons t ks) path s h =
        recurse-cons never on_path (count ks) t ks path s
        ∙ recurse-visits_below ks path _ h.1
        ∙ ap (each f (visits_below ks path)) (recurse-visits t (path ++ value t ∷ []) s h.0)
        ∙ sym (each-append f (visits t (path ++ value t ∷ [])) (visits_below ks path) s)

abbrev pub among : List ℕ → List (List ℕ) → Bool
among k [] = false
among k (p ∷ ps) = key_eq p k || among k ps

among-left : (k : List ℕ) (ps qs : List (List ℕ)) → among k ps ≡ true → among k (ps ++ qs) ≡ true
among-left k [] qs h = cc h
among-left k (p ∷ ps) qs h = ground (arith, among-left k ps qs)

among-right : (k : List ℕ) (ps qs : List (List ℕ)) → among k qs ≡ true → among k (ps ++ qs) ≡ true
among-right k [] qs h = h
among-right k (p ∷ ps) qs h = ground (arith, among-right k ps qs h)

module _ {A : Type 0} where
  visits-child :
      (ks : Nodes A) (i : ℕ) (u : Trie A) (path k : List ℕ)
      → at ks i ≡ some u
      → among k (visits u (path ++ value u ∷ [])) ≡ true
      → among k (visits_below ks path) ≡ true
  unfolding visits
  visits-child nil i u path k a h = cc
  visits-child (cons t ks) zero u path k a h =
      let same : u ≡ t = cc a in
      among-left k (visits t (path ++ value t ∷ [])) (visits_below ks path) (rw (sym same) h)
  visits-child (cons t ks) (suc i) u path k a h =
      among-right k (visits t (path ++ value t ∷ [])) (visits_below ks path)
        (visits-child ks i u path k a h)

  visits-here : (t : Trie A) (path : List ℕ) → among path (visits t path) ≡ true
  unfolding visits
  visits-here (node v d n ks) path = ground (arith, key_eq_refl path)

  visits-nodes :
      (t : Trie A) (path k : List ℕ)
      → among k (visits_below (nodes t) path) ≡ true
      → among k (visits t path) ≡ true
  unfolding visits
  visits-nodes (node v d n ks) path k h = ground (arith, h)

  -- Every node is visited.
  pub node-visits :
      (t : Trie A) (k path : List ℕ) (u : Trie A)
      → tr_find_node t k ≡ some u
      → among (path ++ k) (visits t path) ≡ true
  node-visits t [] path u h = rw (append-nil path) (visits-here t path)
  node-visits t (c ∷ cs) path u h = elim (find_cases t c) [
    | inl miss ↦ cc (find_node-cons t c cs, next-miss t c miss, h)
    | inr (i, w, hit, a, v) ↦
        let below : tr_find_node w cs ≡ some u =
          sym (find_node-cons t c cs ∙ ap (λ o. node_below o cs) (next-hit t c i w hit a)) ∙ h in
        let there = node-visits w cs (path ++ c ∷ []) u below in
        visits-nodes t path (path ++ c ∷ cs) (
          visits-child (nodes t) i w path (path ++ c ∷ cs) a
            (rw (v, sym (append_assoc path (c ∷ []) cs)) there))
  ]
