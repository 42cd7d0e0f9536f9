-- ===== src/Trie/Recurse.antt =====
-- src/trie.c: the traversal `tr_recurse`, and the searches that are built on it.
-- A handler is given the path of the node (the bytes `current[0..level]`), the node as it was when
-- the traversal came to it, and the state behind its `data` pointer. The children that a node had
-- then are visited; a handler that changes the tree reads the node again, through its path.
use gibson_mastter.Base.{
  arith, Bool-cases, inl, inr, ◌≡◌, refl, ℕ, zero, suc, ◌+◌, Bool, true, false, Option, none, some,
  List, [], ◌∷◌, ◌++◌, ◌==◌, if◌then◌else◌,
}
use gibson_mastter.Base.Int.{ℤ, pos, negsuc}
use gibson_mastter.Trie.{
  Trie, Nodes, node, nil, cons, value, node_data, tr_node_children, tr_find_node, tr_find,
}

-- The C string that a buffer holds: what stands before the first NUL.
unfoldable pub c_str : List ℕ → List ℕ
c_str [] = []
c_str (b ∷ bs) = let rest = c_str bs in if b == 0 then [] else b ∷ rest

module _ {A S : Type 0} (stop : S → Bool) (handler : List ℕ → Trie A → S → S) where
  unfoldable mutual
    pub tr_recurse : Trie A → List ℕ → S → S
    tr_recurse (node v d n ks) path s =
        let rest =
          recurse_nodes (tr_node_children (node v d n ks)) ks path
            (handler path (node v d n ks) s) in
        if stop s then s else rest

    pub recurse_nodes : ℕ → Nodes A → List ℕ → S → S
    recurse_nodes m nil path s = s
    recurse_nodes zero (cons t ks) path s = s
    recurse_nodes (suc m) (cons t ks) path s =
        recurse_nodes m ks path (tr_recurse t (path ++ value t ∷ []) s)

  pub recurse-stop : (t : Trie A) (path : List ℕ) (s : S) → stop s ≡ true → tr_recurse t path s ≡ s
  unfolding tr_recurse
  recurse-stop (node v d n ks) path s h = ground arith

  pub recurse-go :
      (v : ℕ) (d : Option A) (n : ℕ) (ks : Nodes A) (path : List ℕ) (s : S)
      → stop s ≡ false
      → tr_recurse (node v d n ks) path s
        ≡ recurse_nodes (tr_node_children (node v d n ks)) ks path (handler path (node v d n ks) s)
  unfolding tr_recurse
  recurse-go v d n ks path s h = ground arith

  pub recurse-nil : (m : ℕ) (path : List ℕ) (s : S) → recurse_nodes m nil path s ≡ s
  unfolding tr_recurse
  recurse-nil m path s = refl

  pub recurse-cons :
      (m : ℕ) (t : Trie A) (ks : Nodes A) (path : List ℕ) (s : S)
      → recurse_nodes (suc m) (cons t ks) path s
        ≡ recurse_nodes m ks path (tr_recurse t (path ++ value t ∷ []) s)
  unfolding tr_recurse
  recurse-cons m t ks path s = refl

-- What every call of the handler keeps, the traversal keeps.
module _ {A S : Type 0} (stop : S → Bool) (handler : List ℕ → Trie A → S → S) (P : S → Type 0) where
  mutual
    unfolding tr_recurse

    pub recurse_rule :
        ((path : List ℕ) (t : Trie A) (s : S) → P s → P (handler path t s))
        → (t : Trie A) (path : List ℕ) (s : S) → P s
        → P (tr_recurse stop handler t path s)
    recurse_rule keeps (node v d n ks) path s p =
        let rest =
          recurse_nodes_rule keeps (tr_node_children (node v d n ks)) ks path _
            (keeps path (node v d n ks) s p) in
        elim (Bool-cases (stop s)) [ inl e ↦ rw e p | inr e ↦ rw e rest ]

    recurse_nodes_rule :
        ((path : List ℕ) (t : Trie A) (s : S) → P s → P (handler path t s))
        → (m : ℕ) (ks : Nodes A) (path : List ℕ) (s : S) → P s
        → P (recurse_nodes stop handler m ks path s)
    recurse_nodes_rule keeps m nil path s p = p
    recurse_nodes_rule keeps zero (cons t ks) path s p = p
    recurse_nodes_rule keeps (suc m) (cons t ks) path s p =
        recurse_nodes_rule keeps m ks path _ (recurse_rule keeps t (path ++ value t ∷ []) s p)

-- `search->limit > 0 && search->total == search->limit`
unfoldable pub at_limit : ℤ → ℕ → Bool
at_limit (pos zero) total = false
at_limit (pos (suc n)) total = total == suc n
at_limit (negsuc n) total = false

-- struct tr_search_data, where the lists are given: what was found so far. A pointer to the data of
-- a node goes with the path of the node.
pub record Found (A : Type 0) : Type 0 where
  pub total : ℕ
  pub keys : List (List ℕ)
  pub found : List (List ℕ × A)

module _ {A : Type 0} where
  -- tr_search_recursive_handler without callbacks: both lists are appended to.
  unfoldable pub collect : List ℕ → Trie A → Found A → Found A
  collect path t s = elim (node_data t) [
    | none ↦ s
    | some x ↦ record {
      total = s.total + 1;
      keys = s.keys ++ c_str path ∷ [];
      found = s.found ++ (path, x) ∷ [];
    }
  ]

  abbrev pub nothing : Found A
  nothing = record { total = 0; keys = []; found = [] }

  unfoldable pub tr_search : Trie A → List ℕ → ℤ → Found A
  tr_search t prefix limit = elim (tr_find_node t prefix) [
    | none ↦ nothing
    | some start ↦ tr_recurse (λ s. at_limit limit s.total) collect start prefix nothing
  ]

-- The searches with a callback. `S` is what the callback reaches through `ctx`, the tree included;
-- the callback is given the C string of the path, the pointer to the node, and its data.
module _ {A S : Type 0} (tree : S → Trie A) (callback : S → List ℕ → List ℕ → A → ℕ × S) where
  -- tr_search_recursive_handler and tr_search_nodes_recursive_handler with a callback.
  unfoldable pub call : List ℕ → Trie A → ℕ × S → ℕ × S
  call path t (total, s) = elim (tr_find (tree s) path) [
    | none ↦ (total, s)
    | some x ↦ let (n, s') = callback s (c_str path) path x in (total + n, s')
  ]

  -- tr_search_callback, tr_search_nodes_callback (whose limit is 0) and tr_count.
  unfoldable pub tr_search_callback : S → List ℕ → ℤ → ℕ × S
  tr_search_callback s prefix limit = elim (tr_find_node (tree s) prefix) [
    | none ↦ (0, s)
    | some start ↦ tr_recurse (λ r. at_limit limit r.0) call start prefix (0, s)
  ]
