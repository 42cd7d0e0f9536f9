-- ===== src/Trie/Shape.antt =====
-- src/trie.c: the shape that `tr_insert` keeps, and that the other functions rely on. In each node
-- `n_nodes` counts the children (it does not wrap), and the children have distinct byte values.
use gibson_mastter.Base.{
  Option-cases, ℕ, zero, suc, ◌<◌, ◌≡◌, ◌≢◌, refl, subst, ap, inl, inr, Option, none, some, arith,
  List, [], ◌∷◌, ◌++◌, length, length-append, ◌∙◌,
}
use gibson_mastter.Base.Distinct.{
  Absent, Distinct, Below, pigeonhole, append-Distinct, append-Below,
}
use gibson_mastter.Trie.{
  Trie, Nodes, node, nil, cons, value, nodes, count, at, put, extend, grown, fresh, put_node,
  tr_node_children, tr_find_next_node, tr_find, tr_insert, tr_remove, descend, store, with_data,
}
use gibson_mastter.Trie.Next.{
  value_at, find_miss, find_cases, nodes-put, children-put, nodes-grown, children-grown, find-value,
  count-extend, count-put,
}

module _ {ℓ} {A : Type ℓ} where
  abbrev pub values : Nodes A → List ℕ
  values nil = []
  values (cons t ks) = value t ∷ values ks

abbrev mutual
  pub IsSound : {A : Type 0} → Trie A → Type 0
  IsSound (node v d n ks) =
      (tr_node_children (node v d n ks) ≡ count ks)
      × Distinct (values ks)
      × Below 256 (values ks)
      × AreSound ks

  pub AreSound : {A : Type 0} → Nodes A → Type 0
  AreSound nil = Unit
  AreSound (cons t ks) = IsSound t × AreSound ks

pub fresh-IsSound : (A : Type 0) (v : ℕ) → IsSound (fresh {A = A} v)
fresh-IsSound A v = (refl, tt, tt, tt)

module _ {A : Type 0} where
  length-values : (ks : Nodes A) → length (values ks) ≡ count ks
  length-values nil = refl
  length-values (cons t ks) = ap suc (length-values ks)

  values-extend :
      (ks : Nodes A) (u : Trie A) → values (extend (count ks) ks u) ≡ values ks ++ value u ∷ []
  values-extend nil u = refl
  values-extend (cons t ks) u = ap (◌∷◌ (value t)) (values-extend ks u)

  values-put :
      (ks : Nodes A) (i c : ℕ) (u : Trie A)
      → value_at ks i ≡ some c
      → value u ≡ c
      → values (put ks i u) ≡ values ks
  values-put nil i c u h e = refl
  values-put (cons t ks) zero c u h e = ground arith
  values-put (cons t ks) (suc i) c u h e = ap (◌∷◌ (value t)) (values-put ks i c u h e)

  Absent-values :
      (ks : Nodes A) (c : ℕ)
      → ((i : ℕ) → i < count ks → value_at ks i ≢ some c)
      → Absent c (values ks)
  Absent-values nil c h = tt
  Absent-values (cons t ks) c h =
      (λ e. h 0 (omega arith) (ap some e), Absent-values ks c (λ i l. h (suc i) (omega arith)))

  put-AreSound :
      (ks : Nodes A) (i : ℕ) (u : Trie A) → AreSound ks → IsSound u → AreSound (put ks i u)
  put-AreSound nil i u h s = tt
  put-AreSound (cons t ks) zero u h s = (s, h.1)
  put-AreSound (cons t ks) (suc i) u h s = (h.0, put-AreSound ks i u h.1 s)

  extend-AreSound :
      (ks : Nodes A) (u : Trie A) → AreSound ks → IsSound u → AreSound (extend (count ks) ks u)
  extend-AreSound nil u h s = (s, tt)
  extend-AreSound (cons t ks) u h s = (h.0, extend-AreSound ks u h.1 s)

  pub at-AreSound : (ks : Nodes A) (i : ℕ) (u : Trie A) → AreSound ks → at ks i ≡ some u → IsSound u
  at-AreSound nil i u h e = cc
  at-AreSound (cons t ks) zero u h e = let e' : t ≡ u = cc in subst IsSound e' h.0
  at-AreSound (cons t ks) (suc i) u h e = at-AreSound ks i u h.1 e

  pub children-eq : (t : Trie A) → IsSound t → tr_node_children t ≡ count (nodes t)
  children-eq (node v d n ks) h = h.0

  pub nodes-AreSound : (t : Trie A) → IsSound t → AreSound (nodes t)
  nodes-AreSound (node v d n ks) h = h.3

  pub IsSound-intro :
      (t : Trie A)
      → tr_node_children t ≡ count (nodes t)
      → Distinct (values (nodes t))
      → Below 256 (values (nodes t))
      → AreSound (nodes t)
      → IsSound t
  IsSound-intro (node v d n ks) e di b a = (e, di, b, a)

  pub values-Distinct : (t : Trie A) → IsSound t → Distinct (values (nodes t))
  values-Distinct (node v d n ks) h = h.1

  pub values-Below : (t : Trie A) → IsSound t → Below 256 (values (nodes t))
  values-Below (node v d n ks) h = h.2

  pub miss-Absent :
      (t : Trie A) (c : ℕ) → IsSound t → tr_find_next_node t c ≡ none → Absent c (values (nodes t))
  miss-Absent t c h miss =
      Absent-values (nodes t) c (λ i l. find_miss t c i miss (omega (arith, children-eq t h)))

  pub with_data-IsSound : (t : Trie A) (e : Option A) → IsSound t → IsSound (with_data t e)
  with_data-IsSound (node v d n nil) e h = h
  with_data-IsSound (node v d n (cons k ks)) e h = h

  -- A byte that no child has leaves room for one more child.
  pub room :
      (t : Trie A) (c : ℕ)
      → IsSound t
      → c < 256
      → tr_find_next_node t c ≡ none
      → count (nodes t) < 256
  room t c h lt miss =
      let xs = values (nodes t) in
      omega (
        arith,
        length-values (nodes t),
        length-append xs (c ∷ []),
        pigeonhole 256 (xs ++ c ∷ [])
            (append-Distinct c xs (values-Distinct t h) (miss-Absent t c h miss))
            (append-Below 256 c xs (values-Below t h) lt),
      )

  pub put_node-IsSound :
      (t : Trie A) (c i : ℕ) (u : Trie A)
      → IsSound t
      → tr_find_next_node t c ≡ some i
      → value u ≡ c
      → IsSound u
      → IsSound (put_node t i u)
  put_node-IsSound t c i u h hit e s =
      let same = values-put (nodes t) i c u (find-value t c i hit) e in
      IsSound-intro (put_node t i u)
        (rw (children-put t i u, nodes-put t i u, count-put (nodes t) i u) (children-eq t h))
        (rw (nodes-put t i u, same) (values-Distinct t h))
        (rw (nodes-put t i u, same) (values-Below t h))
        (rw (nodes-put t i u) (put-AreSound (nodes t) i u (nodes-AreSound t h) s))

  pub grown-IsSound :
      (t : Trie A) (c : ℕ) (u : Trie A)
      → IsSound t
      → c < 256
      → tr_find_next_node t c ≡ none
      → value u ≡ c
      → IsSound u
      → IsSound (grown t c u)
  grown-IsSound t c u h lt miss e s =
      let eq = children-eq t h in
      let more = nodes-grown t c u eq in
      let vals = values-extend (nodes t) u in
      IsSound-intro (grown t c u)
        (rw (children-grown t c u eq (room t c h lt miss), more)
          (omega (arith, count-extend (nodes t) u)))
        (rw (more, vals, e) (append-Distinct c _ (values-Distinct t h) (miss-Absent t c h miss)))
        (rw (more, vals, e) (append-Below 256 c _ (values-Below t h) lt))
        (rw more (extend-AreSound (nodes t) u (nodes-AreSound t h) s))

  pub value-store : (t : Trie A) (k : List ℕ) (e : Option A) → value (store t k e) ≡ value t
  unfolding store
  value-store (node v d n ks) [] e = refl
  value-store (node v d n ks) (c ∷ cs) e = ground arith

  pub value-descend : (t : Trie A) (k : List ℕ) → value (descend t k) ≡ value t
  unfolding descend
  value-descend (node v d n ks) [] = refl
  value-descend (node v d n ks) (c ∷ cs) = ground arith

  pub store-IsSound : (t : Trie A) (k : List ℕ) (e : Option A) → IsSound t → IsSound (store t k e)
  unfolding store
  store-IsSound t [] e h = with_data-IsSound t e h
  store-IsSound t (c ∷ cs) e h = elim (find_cases t c) [
    | inl miss ↦ rw (miss, store) h
    | inr (i, u, hit, a, v) ↦
        rw (hit, store)
          (rw a (
            put_node-IsSound t c i (store u cs e) h hit (value-store u cs e ∙ v)
              (store-IsSound u cs e (at-AreSound (nodes t) i u (nodes-AreSound t h) a))))
  ]

  -- `tr_insert` keeps the shape for keys of bytes.
  pub descend-IsSound : (t : Trie A) (k : List ℕ) → Below 256 k → IsSound t → IsSound (descend t k)
  unfolding descend
  descend-IsSound t [] b h = h
  descend-IsSound t (c ∷ cs) b h = elim (find_cases t c) [
    | inl miss ↦
        rw (miss, descend)
          (grown-IsSound t c (descend (fresh c) cs) h b.0 miss (value-descend (fresh c) cs)
            (descend-IsSound (fresh c) cs b.1 (fresh-IsSound A c)))
    | inr (i, u, hit, a, v) ↦
        rw (hit, descend)
          (rw a (
            put_node-IsSound t c i (descend u cs) h hit (value-descend u cs ∙ v)
              (descend-IsSound u cs b.1 (at-AreSound (nodes t) i u (nodes-AreSound t h) a))))
  ]

  -- Inserting a key of bytes keeps the tree sound: in each node `n_nodes` is the number of the
  -- children less one (an unsigned char is enough, since the children are at most 256), the children
  -- have distinct byte values, and they are sound. So does removing any key.
  pub insert-IsSound :
      (t : Trie A) (k : List ℕ) (x : A)
      → Below 256 k
      → IsSound t
      → IsSound (tr_insert t k x).0 × IsSound (tr_remove t k).0
  unfolding tr_insert tr_remove
  insert-IsSound t k x b h = (
    store-IsSound (descend t k) k (some x) (descend-IsSound t k b h),
    elim (Option-cases (tr_find t k)) [
      | inl e ↦ rw (e, tr_remove) h
      | inr (y, e) ↦ rw (e, tr_remove) (store-IsSound t k none h)
    ],
  )
