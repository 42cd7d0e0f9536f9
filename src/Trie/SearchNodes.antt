-- ===== src/Trie/SearchNodes.antt =====
-- src/trie.c: tr_search_nodes, which gives the nodes that a search comes to. A node goes with its path.
use gibson_mastter.Base.{
  ℕ, zero, suc, ◌+◌, ◌≡◌, refl, sym, ap, ◌∙◌, inl, inr, Bool, Option, none, some, List, [], ◌∷◌,
  ◌++◌, Bool-cases,
}
use gibson_mastter.Base.Int.{pos}
use gibson_mastter.Trie.{
  Trie, Nodes, node, nil, cons, value, node_data, tr_node_children, tr_find_node,
}
use gibson_mastter.Trie.Recurse.{
  c_str, tr_recurse, recurse_nodes, at_limit, Found, collect, nothing, tr_search,
}

-- What two traversals with the same stops share, if each call of their handlers keeps it.
module _ {A S T : Type 0} (stop : S → Bool) (stop' : T → Bool) (h : List ℕ → Trie A → S → S)
    (h' : List ℕ → Trie A → T → T) (R : S → T → Type 0)
    (stops : (s : S) (s' : T) → R s s' → stop s ≡ stop' s')
    (steps : (path : List ℕ) (t : Trie A) (s : S) (s' : T)
      → R s s'
      → R (h path t s) (h' path t s')) where
  mutual
    unfolding tr_recurse

    pub recurse_both :
        (t : Trie A) (path : List ℕ) (s : S) (s' : T)
        → R s s'
        → R (tr_recurse stop h t path s) (tr_recurse stop' h' t path s')
    recurse_both (node v d n ks) path s s' r =
        let rest =
          nodes_both (tr_node_children (node v d n ks)) ks path _ _
            (steps path (node v d n ks) s s' r) in
        elim (Bool-cases (stop s)) [
          | inl e ↦ rw (e, sym (stops s s' r) ∙ e) r
          | inr e ↦ rw (e, sym (stops s s' r) ∙ e) rest
        ]

    nodes_both :
        (m : ℕ) (ks : Nodes A) (path : List ℕ) (s : S) (s' : T)
        → R s s'
        → R (recurse_nodes stop h m ks path s) (recurse_nodes stop' h' m ks path s')
    nodes_both m nil path s s' r = r
    nodes_both zero (cons t ks) path s s' r = r
    nodes_both (suc m) (cons t ks) path s s' r =
        nodes_both m ks path _ _ (recurse_both t (path ++ value t ∷ []) s s' r)

module _ {A : Type 0} where
  -- tr_search_nodes_recursive_handler without a callback
  unfoldable pub collect_node : List ℕ → Trie A → Found (Trie A) → Found (Trie A)
  collect_node path t s = elim (node_data t) [
    | none ↦ s
    | some x ↦ record {
      total = s.total + 1;
      keys = s.keys ++ c_str path ∷ [];
      found = s.found ++ (path, t) ∷ [];
    }
  ]

  -- tr_search_nodes, which sets no limit.
  unfoldable pub tr_search_nodes : Trie A → List ℕ → Found (Trie A)
  tr_search_nodes t prefix = elim (tr_find_node t prefix) [
    | none ↦ nothing
    | some start ↦ tr_recurse (λ s. at_limit (pos 0) s.total) collect_node start prefix nothing
  ]

  -- Nodes with their paths, each with the data that a search gives for it.
  abbrev pub Hold : List (List ℕ × Trie A) → List (List ℕ × A) → Type 0
  Hold [] [] = Unit
  Hold [] (x ∷ xs) = ⊥
  Hold (n ∷ ns) [] = ⊥
  Hold (n ∷ ns) (x ∷ xs) = (n.0 ≡ x.0) × (node_data n.1 ≡ some x.1) × Hold ns xs

  Hold-snoc :
      (ns : List (List ℕ × Trie A)) (xs : List (List ℕ × A)) (path : List ℕ) (t : Trie A) (x : A)
      → node_data t ≡ some x
      → Hold ns xs
      → Hold (ns ++ (path, t) ∷ []) (xs ++ (path, x) ∷ [])
  Hold-snoc [] [] path t x e h = (refl, e, tt)
  Hold-snoc [] (y ∷ ys) path t x e h = absurd h
  Hold-snoc (n ∷ ns) [] path t x e h = absurd h
  Hold-snoc (n ∷ ns) (y ∷ ys) path t x e h = (h.0, h.1, Hold-snoc ns ys path t x e h.2)

  abbrev pub SameFound : Found (Trie A) → Found A → Type 0
  SameFound s s' = (s.total ≡ s'.total) × (s.keys ≡ s'.keys) × Hold s.found s'.found

  collect-SameFound :
      (path : List ℕ) (t : Trie A) (s : Found (Trie A)) (s' : Found A)
      → SameFound s s'
      → SameFound (collect_node path t s) (collect path t s')
  unfolding collect collect_node
  collect-SameFound path (node v none n ks) s s' h = h
  collect-SameFound path (node v (some x) n ks) s s' h = (
    ap (λ n. n + 1) h.0,
    ap (λ l. l ++ c_str path ∷ []) h.1,
    Hold-snoc s.found s'.found path (node v (some x) n ks) x refl h.2,
  )

  -- In every tree, tr_search_nodes reports the keys that tr_search without a limit does, in that order,
  -- and for each the node that holds the data that tr_search reports.
  pub search_nodes-search :
      (t : Trie A) (prefix : List ℕ)
      → SameFound (tr_search_nodes t prefix) (tr_search t prefix (pos 0))
  unfolding tr_search_nodes tr_search
  search_nodes-search t prefix = by_node (tr_find_node t prefix)
    where
      by_node :
          (o : Option (Trie A))
          → SameFound
              (elim o [
                | none ↦ nothing
                | some start ↦
                    tr_recurse (λ s. at_limit (pos 0) s.total) collect_node start prefix nothing
              ])
              (elim o [
                | none ↦ nothing
                | some start ↦
                    tr_recurse (λ s. at_limit (pos 0) s.total) collect start prefix nothing
              ])
      by_node none = (refl, refl, tt)
      by_node (some start) =
          recurse_both (λ s. at_limit (pos 0) s.total) (λ s. at_limit (pos 0) s.total) collect_node
            collect SameFound (λ s s' r. ap (λ n. at_limit (pos 0) n) r.0) collect-SameFound start
            prefix nothing nothing (refl, refl, tt)
