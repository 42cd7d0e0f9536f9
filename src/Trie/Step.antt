-- ===== src/Trie/Step.antt =====
-- src/trie.c: `tr_find_node` and `tr_find`, one byte of the key at a time.
use gibson_mastter.Base.{ℕ, ◌≡◌, refl, sym, ap, Option, none, some, arith, List, [], ◌∷◌, ◌∙◌}
use gibson_mastter.Trie.{Trie, nodes, at, next, node_data, tr_find_next_node, tr_find_node, tr_find}

module _ {A : Type 0} where
  -- The search below a pointer that may be NULL.
  abbrev pub find_below : Option (Trie A) → List ℕ → Option A
  find_below none cs = none
  find_below (some u) cs = tr_find u cs

  abbrev pub node_below : Option (Trie A) → List ℕ → Option (Trie A)
  node_below none cs = none
  node_below (some u) cs = tr_find_node u cs

  pub find_node-cons :
      (t : Trie A) (c : ℕ) (cs : List ℕ) → tr_find_node t (c ∷ cs) ≡ node_below (next t c) cs
  unfolding tr_find_node
  find_node-cons t c cs = ground arith

  pub find-cons : (t : Trie A) (c : ℕ) (cs : List ℕ) → tr_find t (c ∷ cs) ≡ find_below (next t c) cs
  unfolding tr_find
  find-cons t c cs = ground (arith, find_node-cons t c cs)

  pub find-nil : (t : Trie A) → tr_find t [] ≡ node_data t
  unfolding tr_find tr_find_node
  find-nil t = refl

  pub next-miss : (t : Trie A) (c : ℕ) → tr_find_next_node t c ≡ none → next t c ≡ none
  next-miss t c h = rw (h, next)

  pub next-hit :
      (t : Trie A) (c i : ℕ) (u : Trie A)
      → tr_find_next_node t c ≡ some i
      → at (nodes t) i ≡ some u
      → next t c ≡ some u
  next-hit t c i u h a = rw (h, next) a

  pub find_of_node :
      (t : Trie A) (k : List ℕ) (w : Trie A)
      → tr_find_node t k ≡ some w
      → tr_find t k ≡ tr_find w []
  unfolding tr_find
  find_of_node t k w h = rw (h, tr_find) (sym (find-nil w))

  pub find_of_none : (t : Trie A) (k : List ℕ) → tr_find_node t k ≡ none → tr_find t k ≡ none
  unfolding tr_find
  find_of_none t k h = rw (h, tr_find) refl

  -- One step of the search, where the child is known.
  pub find_node-step :
      (t : Trie A) (c i : ℕ) (cs : List ℕ) (u : Trie A)
      → tr_find_next_node t c ≡ some i
      → at (nodes t) i ≡ some u
      → tr_find_node t (c ∷ cs) ≡ tr_find_node u cs
  find_node-step t c i cs u h a =
      find_node-cons t c cs ∙ ap (λ o. node_below o cs) (next-hit t c i u h a)

  pub find-step :
      (t : Trie A) (c i : ℕ) (cs : List ℕ) (u : Trie A)
      → tr_find_next_node t c ≡ some i
      → at (nodes t) i ≡ some u
      → tr_find t (c ∷ cs) ≡ tr_find u cs
  find-step t c i cs u h a = find-cons t c cs ∙ ap (λ o. find_below o cs) (next-hit t c i u h a)
