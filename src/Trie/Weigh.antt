-- ===== src/Trie/Weigh.antt =====
-- src/trie.c: sums over the data of a tree, as the number of items in it, and what a write through a
-- node and the appending of nodes do to them.
use gibson_mastter.Base.{
  ℕ, zero, suc, ◌+◌, ◌≡◌, refl, sym, ap, ◌∙◌, inl, inr, Option, none, some, List, [], ◌∷◌, arith,
  is_some, true,
}
use gibson_mastter.Trie.{
  Trie, Nodes, node, nil, cons, nodes, count, at, put, extend, grown, fresh, put_node,
  tr_node_children, tr_find_node, tr_find, descend, store, tr_insert,
}
use gibson_mastter.Trie.Next.{find_cases, nodes-grown}
use gibson_mastter.Trie.Shape.{IsSound, children-eq, nodes-AreSound, at-AreSound, fresh-IsSound}
use gibson_mastter.Trie.Find.{find_node-cons, find-step, find_node-step, next-miss, node-descend}
use gibson_mastter.Base.Distinct.{Below}

abbrev pub weight {ℓ} : {A : Type ℓ} → (A → ℕ) → Option A → ℕ
weight f none = 0
weight f (some x) = f x

unfoldable mutual
  pub weigh : {A : Type 0} → (A → ℕ) → Trie A → ℕ
  weigh f (node v d n ks) = weight f d + weigh_nodes f ks

  pub weigh_nodes : {A : Type 0} → (A → ℕ) → Nodes A → ℕ
  weigh_nodes f nil = 0
  weigh_nodes f (cons t ks) = weigh f t + weigh_nodes f ks

weigh-fresh : {A : Type 0} (f : A → ℕ) (c : ℕ) → weigh f (fresh c) ≡ 0
unfolding weigh
weigh-fresh f c = omega arith

module _ {A : Type 0} (f : A → ℕ) where
  weigh-put_nodes :
      (ks : Nodes A) (i : ℕ) (u w : Trie A)
      → at ks i ≡ some u
      → weigh_nodes f (put ks i w) + weigh f u ≡ weigh_nodes f ks + weigh f w
  unfolding weigh
  weigh-put_nodes nil i u w h = cc
  weigh-put_nodes (cons t ks) zero u w h = let e : t ≡ u = cc in omega (arith, ap (weigh f) e)
  weigh-put_nodes (cons t ks) (suc i) u w h = omega (arith, weigh-put_nodes ks i u w h)

  weigh-extend :
      (ks : Nodes A) (u : Trie A)
      → weigh_nodes f (extend (count ks) ks u) ≡ weigh_nodes f ks + weigh f u
  unfolding weigh
  weigh-extend nil u = omega arith
  weigh-extend (cons t ks) u = omega (arith, weigh-extend ks u)

  weigh-put :
      (t : Trie A) (i : ℕ) (u w : Trie A)
      → at (nodes t) i ≡ some u
      → weigh f (put_node t i w) + weigh f u ≡ weigh f t + weigh f w
  unfolding weigh
  weigh-put (node v d n ks) i u w h = omega (arith, weigh-put_nodes ks i u w h)

  weigh_eq : (t : Trie A) → weigh f t ≡ weight f (tr_find t []) + weigh_nodes f (nodes t)
  unfolding weigh tr_find tr_find_node
  weigh_eq (node v d n ks) = refl

  weigh-grown :
      (t : Trie A) (c : ℕ) (u : Trie A)
      → tr_node_children t ≡ count (nodes t)
      → weigh f (grown t c u) ≡ weigh f t + weigh f u
  unfolding weigh
  weigh-grown (node v d n ks) c u h =
      omega (arith, ap (weigh_nodes f) (nodes-grown (node v d n ks) c u h), weigh-extend ks u)

  -- Appended nodes weigh nothing.
  pub weigh-descend :
      (t : Trie A) (k : List ℕ) → Below 256 k → IsSound t → weigh f (descend t k) ≡ weigh f t
  unfolding descend
  weigh-descend t [] b h = refl
  weigh-descend t (c ∷ cs) b h = elim (find_cases t c) [
    | inl miss ↦
        rw (miss, descend)
          (omega (
            arith,
            weigh-grown t c (descend (fresh c) cs) (children-eq t h),
            weigh-descend (fresh c) cs b.1 (fresh-IsSound A c),
            weigh-fresh f c,
          ))
    | inr (i, u, hit, a, v) ↦
        rw (hit, descend)
          (rw a (
            omega (
              arith,
              weigh-put t i u (descend u cs) a,
              weigh-descend u cs b.1 (at-AreSound (nodes t) i u (nodes-AreSound t h) a),
            )))
  ]

  -- A write through a node that is there exchanges the weight of the old data for the new one.
  pub weigh-store :
      (t : Trie A) (k : List ℕ) (e : Option A)
      → is_some (tr_find_node t k) ≡ true
      → weigh f (store t k e) + weight f (tr_find t k) ≡ weigh f t + weight f e
  unfolding store
  weigh-store (node v d n ks) [] e h = unfold weigh tr_find tr_find_node in omega arith
  weigh-store t (c ∷ cs) e h = elim (find_cases t c) [
    | inl miss ↦ cc (find_node-cons t c cs, next-miss t c miss)
    | inr (i, u, hit, a, v) ↦
        rw (hit, store)
          (rw a (
            rw (find-step t c i cs u hit a) (
              omega (
                arith,
                weigh-put t i u (store u cs e) a,
                weigh-store u cs e (sym (ap is_some (find_node-step t c i cs u hit a)) ∙ h),
              ))))
  ]

  -- Inserting a key of bytes into a sound tree adds the weight of the new data to the sum of the
  -- weights of all data, and takes off the weight of the data that comes back, none for NULL.
  pub weigh-insert :
      (t : Trie A) (k : List ℕ) (x : A)
      → Below 256 k
      → IsSound t
      → weigh f (tr_insert t k x).0 + weight f (tr_insert t k x).1 ≡ weigh f t + f x
  unfolding tr_insert
  weigh-insert t k x b h =
      omega
        (arith, weigh-store (descend t k) k (some x) (node-descend t k h b), weigh-descend t k b h)
