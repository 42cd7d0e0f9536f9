-- ===== src/Trie/Free.antt =====
-- src/trie.c: tr_free. An array of children is named by the path of its node.
use gibson_mastter.Base.{
  ℕ, zero, suc, ◌+◌, ◌≡◌, refl, ap, ◌∙◌, none, List, [], ◌∷◌, ◌++◌, length, length-append, arith,
}
use gibson_mastter.Trie.{
  Trie, Nodes, node, nil, cons, value, count, tr_node_children, tr_find, tr_find_node,
  tr_find_next_node, scan,
}
use gibson_mastter.Trie.Shape.{IsSound, AreSound}

-- The array of the children, where there is one.
abbrev pub own : {A : Type 0} → Nodes A → List ℕ → List (List ℕ)
own nil path = []
own (cons t ks) path = path ∷ []

module _ {A : Type 0} where
  unfoldable mutual
    -- The arrays that tr_free of the node at the path frees, in their order.
    pub freed : Trie A → List ℕ → List (List ℕ)
    freed (node v d n ks) path =
        freed_nodes (tr_node_children (node v d n ks)) ks path ++ own ks path

    pub freed_nodes : ℕ → Nodes A → List ℕ → List (List ℕ)
    freed_nodes m nil path = []
    freed_nodes zero (cons t ks) path = []
    freed_nodes (suc m) (cons t ks) path = freed t (path ++ value t ∷ []) ++ freed_nodes m ks path

  -- tr_free of the root: the node that is left, and the arrays that were freed.
  unfoldable pub tr_free : Trie A → Trie A × List (List ℕ)
  tr_free (node v d n ks) = (node v d n nil, freed (node v d n ks) [])

  -- The number of arrays in a tree, however many children a node claims to have.
  mutual
    pub arrays : Trie A → ℕ
    arrays (node v d n ks) = arrays_below ks + length (own ks [])

    pub arrays_below : Nodes A → ℕ
    arrays_below nil = 0
    arrays_below (cons t ks) = arrays t + arrays_below ks

  own-length : (ks : Nodes A) (path : List ℕ) → length (own ks path) ≡ length (own ks [])
  own-length nil path = refl
  own-length (cons t ks) path = refl

  mutual
    unfolding freed arrays

    freed-arrays : (t : Trie A) (path : List ℕ) → IsSound t → length (freed t path) ≡ arrays t
    freed-arrays (node v d n ks) path h =
        length-append (freed_nodes (tr_node_children (node v d n ks)) ks path) (own ks path)
        ∙ omega (
          arith,
          own-length ks path,
          ap (λ m. length (freed_nodes m ks path)) (h.0),
          freed_nodes-arrays ks path h.3,
        )

    freed_nodes-arrays :
        (ks : Nodes A) (path : List ℕ)
        → AreSound ks
        → length (freed_nodes (count ks) ks path) ≡ arrays_below ks
    freed_nodes-arrays nil path h = refl
    freed_nodes-arrays (cons t ks) path h =
        length-append (freed t (path ++ value t ∷ [])) (freed_nodes (count ks) ks path)
        ∙ omega (arith, freed-arrays t (path ++ value t ∷ []) h.0, freed_nodes-arrays ks path h.1)

  -- In a sound tree, tr_free frees as many arrays as the tree has, and leaves a node in which no key
  -- that is not empty finds anything.
  pub free-arrays :
      (t : Trie A)
      → IsSound t
      → (length (tr_free t).1 ≡ arrays t)
        × ((c : ℕ) (cs : List ℕ) → tr_find (tr_free t).0 (c ∷ cs) ≡ none)
  unfolding tr_free tr_find tr_find_node tr_find_next_node scan
  free-arrays (node v d n ks) h = (freed-arrays (node v d n ks) [] h, λ c cs. refl)
