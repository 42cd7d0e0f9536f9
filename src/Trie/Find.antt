-- ===== src/Trie/Find.antt =====
-- src/trie.c: what `tr_find` answers after `tr_insert`, `tr_remove` and a write through a node.
use gibson_mastter.Base.{
  Option-cases, ◌++◌, subst, ℕ, ◌≡◌, refl, sym, ap, inl, inr, true, Option, none, some,
  if◌then◌else◌, arith, is_some, List, [], ◌∷◌, ◌∙◌, key_eq, eq_of_key_eq,
}
use gibson_mastter.Base.Distinct.{Below}
use gibson_mastter.Trie.{
  Trie, node, nil, cons, nodes, scan, next, deref, grown, fresh, put_node, node_data,
  tr_find_next_node, tr_find_node, tr_find, tr_insert, tr_remove, descend, store, with_data,
}
use gibson_mastter.Trie.Next.{find_cases, next-put, next-grown}
use gibson_mastter.Trie.Shape.{
  IsSound, children-eq, room, value-store, value-descend, nodes-AreSound, at-AreSound,
  fresh-IsSound,
}
pub use gibson_mastter.Trie.Step.{
  find_below, node_below, find_node-cons, find-cons, find-nil, next-miss, next-hit, find_of_node,
  find_of_none, find_node-step, find-step,
}

module _ {A : Type 0} where
  deref-with_data : (t : Trie A) (e : Option A) (o : Option ℕ) → deref (with_data t e) o ≡ deref t o
  deref-with_data (node v d n ks) e none = refl
  deref-with_data (node v d n ks) e (some i) = refl

  find-with_data :
      (t : Trie A) (e : Option A) (c : ℕ)
      → tr_find_next_node (with_data t e) c ≡ tr_find_next_node t c
  unfolding tr_find_next_node
  find-with_data (node v d n nil) e c = refl
  find-with_data (node v d n (cons k ks)) e c = refl

  next-with_data : (t : Trie A) (e : Option A) (c : ℕ) → next (with_data t e) c ≡ next t c
  next-with_data t e c = rw (find-with_data t e c) (deref-with_data t e _)

  data-put_node : (t : Trie A) (i : ℕ) (u : Trie A) → node_data (put_node t i u) ≡ node_data t
  data-put_node (node v d n ks) i u = refl

  data-grown : (t : Trie A) (c : ℕ) (u : Trie A) → node_data (grown t c u) ≡ node_data t
  data-grown (node v d n ks) c u = refl

  -- The answer for the key that was written: the new data, if the node is there.
  abbrev pub written : Option (Trie A) → Option A → Option A
  written none e = none
  written (some u) e = e

  pub find-store :
      (t : Trie A) (k j : List ℕ) (e : Option A)
      → tr_find (store t k e) j ≡ (if key_eq k j then written (tr_find_node t k) e else tr_find t j)
  unfolding store
  find-store (node v d n ks) [] [] e = unfold tr_find tr_find_node in refl
  find-store t [] (w ∷ ws) e =
      find-cons (with_data t e) w ws
      ∙ ap (λ o. find_below o ws) (next-with_data t e w)
      ∙ sym (find-cons t w ws)
  find-store t (c ∷ cs) [] e = elim (find_cases t c) [
    | inl miss ↦ rw (miss, store) refl
    | inr (i, u, hit, a, v) ↦
        rw (hit, store) (rw a (find-nil _ ∙ data-put_node t i (store u cs e) ∙ sym (find-nil t)))
  ]
  find-store t (c ∷ cs) (w ∷ ws) e = elim (find_cases t c) [
    | inl miss ↦
        rw (miss, store)
          (ground (arith, find_node-cons t c cs, find-cons t w ws, next-miss t c miss))
    | inr (i, u, hit, a, v) ↦
        rw (hit, store)
          (rw a (
            ground (
              arith,
              find-cons (put_node t i (store u cs e)) w ws,
              next-put t c i w u (store u cs e) hit a (value-store u cs e ∙ v),
              find-cons t w ws,
              find_node-cons t c cs,
              next-hit t c i u hit a,
              find-store u cs ws e,
            )))
  ]

  fresh_find : (c : ℕ) (j : List ℕ) → tr_find (fresh {A = A} c) j ≡ none
  unfolding tr_find tr_find_node tr_find_next_node scan
  fresh_find c [] = refl
  fresh_find c (w ∷ ws) = refl

  -- Nodes that `tr_insert` appends hold no data.
  pub find-descend :
      (t : Trie A) (k j : List ℕ) → IsSound t → Below 256 k → tr_find (descend t k) j ≡ tr_find t j
  unfolding descend
  find-descend t [] j h b = refl
  find-descend t (c ∷ cs) [] h b = elim (find_cases t c) [
    | inl miss ↦
        rw (miss, descend) (find-nil _ ∙ data-grown t c (descend (fresh c) cs) ∙ sym (find-nil t))
    | inr (i, u, hit, a, v) ↦
        rw (hit, descend) (rw a (find-nil _ ∙ data-put_node t i (descend u cs) ∙ sym (find-nil t)))
  ]
  find-descend t (c ∷ cs) (w ∷ ws) h b = elim (find_cases t c) [
    | inl miss ↦
        rw (miss, descend)
          (ground (
            arith,
            find-cons (grown t c (descend (fresh c) cs)) w ws,
            next-grown t c w (descend (fresh c) cs) (children-eq t h) (room t c h b.0 miss)
                (value-descend (fresh c) cs),
            find-cons t w ws,
            next-miss t c miss,
            find-descend (fresh c) cs ws (fresh-IsSound A c) b.1,
            fresh_find c ws,
          ))
    | inr (i, u, hit, a, v) ↦
        rw (hit, descend)
          (rw a (
            ground (
              arith,
              find-cons (put_node t i (descend u cs)) w ws,
              next-put t c i w u (descend u cs) hit a (value-descend u cs ∙ v),
              find-cons t w ws,
              next-hit t c i u hit a,
              find-descend u cs ws (at-AreSound (nodes t) i u (nodes-AreSound t h) a) b.1,
            )))
  ]

  -- After the loop of `tr_insert` the node of the key is there.
  pub node-descend :
      (t : Trie A) (k : List ℕ)
      → IsSound t
      → Below 256 k
      → is_some (tr_find_node (descend t k) k) ≡ true
  unfolding descend
  node-descend t [] h b = unfold tr_find_node in refl
  node-descend t (c ∷ cs) h b = elim (find_cases t c) [
    | inl miss ↦
        rw (miss, descend)
          (ground (
            arith,
            find_node-cons (grown t c (descend (fresh c) cs)) c cs,
            next-grown t c c (descend (fresh c) cs) (children-eq t h) (room t c h b.0 miss)
                (value-descend (fresh c) cs),
            node-descend (fresh c) cs (fresh-IsSound A c) b.1,
          ))
    | inr (i, u, hit, a, v) ↦
        rw (hit, descend)
          (rw a (
            ground (
              arith,
              find_node-cons (put_node t i (descend u cs)) c cs,
              next-put t c i c u (descend u cs) hit a (value-descend u cs ∙ v),
              node-descend u cs (at-AreSound (nodes t) i u (nodes-AreSound t h) a) b.1,
            )))
  ]

  -- Inserting a key makes `tr_find` answer the new value for it, and for every other key what it
  -- answered before; the old value of the key comes back. The tree is sound, the key of bytes.
  pub find-insert :
      (t : Trie A) (k j : List ℕ) (x : A)
      → IsSound t
      → Below 256 k
      → (tr_find (tr_insert t k x).0 j ≡ (if key_eq k j then some x else tr_find t j))
        × ((tr_insert t k x).1 ≡ tr_find t k)
  unfolding tr_insert
  find-insert t k j x h b = ground (
    arith,
    find-store (descend t k) k j (some x),
    find-descend t k j h b,
    find-descend t k k h b,
    node-descend t k h b,
  )

  pub find-node :
      (t : Trie A) (k : List ℕ) (x : A) → tr_find t k ≡ some x → is_some (tr_find_node t k) ≡ true
  unfolding tr_find
  find-node t k x h = ground arith

  -- Removing a key makes `tr_find` answer NULL for it, and for every other key what it answered
  -- before; the value that the key had, or NULL, comes back.
  pub find-remove :
      (t : Trie A) (k j : List ℕ)
      → (tr_find (tr_remove t k).0 j ≡ (if key_eq k j then none else tr_find t j))
        × ((tr_remove t k).1 ≡ tr_find t k)
  unfolding tr_remove
  find-remove t k j = ground (arith, find-store t k j none, eq_of_key_eq k j)

  next-IsSound : (t : Trie A) (c : ℕ) (u : Trie A) → IsSound t → next t c ≡ some u → IsSound u
  next-IsSound t c u h e = elim (find_cases t c) [
    | inl miss ↦ cc (next-miss t c miss)
    | inr (i, u', hit, a, v) ↦
        at-AreSound (nodes t) i u (nodes-AreSound t h) (a ∙ sym (next-hit t c i u' hit a) ∙ e)
  ]

  -- The node of a prefix is sound, and finds the rest of each key.
  pub find_node-IsSound :
      (t : Trie A) (k : List ℕ) (u : Trie A) → IsSound t → tr_find_node t k ≡ some u → IsSound u
  find_node-IsSound t [] u h e = let e' : t ≡ u = unfold tr_find_node in cc e in subst IsSound e' h
  find_node-IsSound t (c ∷ cs) u h e = elim (Option-cases (next t c)) [
    | inl miss ↦ cc (find_node-cons t c cs, ap (λ o. node_below o cs) miss)
    | inr (w, hit) ↦
        find_node-IsSound w cs u (next-IsSound t c w h hit)
          (sym (find_node-cons t c cs ∙ ap (λ o. node_below o cs) hit) ∙ e)
  ]

  pub find-append :
      (t : Trie A) (k j : List ℕ) (u : Trie A)
      → tr_find_node t k ≡ some u
      → tr_find t (k ++ j) ≡ tr_find u j
  find-append t [] j u e = let e' : t ≡ u = unfold tr_find_node in cc e in ap (λ w. tr_find w j) e'
  find-append t (c ∷ cs) j u e = elim (Option-cases (next t c)) [
    | inl miss ↦ cc (find_node-cons t c cs, ap (λ o. node_below o cs) miss)
    | inr (w, hit) ↦
        find-cons t c (cs ++ j)
        ∙ ap (λ o. find_below o (cs ++ j)) hit
        ∙ find-append w cs j u (sym (find_node-cons t c cs ∙ ap (λ o. node_below o cs) hit) ∙ e)
  ]

  pub find-append_none :
      (t : Trie A) (k j : List ℕ) → tr_find_node t k ≡ none → tr_find t (k ++ j) ≡ none
  find-append_none t [] j e = let e' : some t ≡ none = unfold tr_find_node in e in cc
  find-append_none t (c ∷ cs) j e = elim (Option-cases (next t c)) [
    | inl miss ↦ find-cons t c (cs ++ j) ∙ ap (λ o. find_below o (cs ++ j)) miss
    | inr (w, hit) ↦
        find-cons t c (cs ++ j)
        ∙ ap (λ o. find_below o (cs ++ j)) hit
        ∙ find-append_none w cs j (sym (find_node-cons t c cs ∙ ap (λ o. node_below o cs) hit) ∙ e)
  ]
