-- ===== src/Trie/Every.antt =====
-- src/trie.c: properties of all data, and of the byte values of all nodes below the root, that writes
-- and appended nodes keep.
use gibson_mastter.Base.{
  ℕ, zero, suc, ◌≡◌, sym, subst, ◌∙◌, inl, inr, Option, none, some, List, [], ◌∷◌, All,
  Option-cases,
}
use gibson_mastter.Trie.{
  Trie, Nodes, node, nil, cons, value, nodes, at, put, extend, fresh, append_node, put_node,
  tr_node_children, tr_find_node, tr_find, descend, store,
}
use gibson_mastter.Trie.Next.{find_cases}
use gibson_mastter.Trie.Shape.{value-store, value-descend}
use gibson_mastter.Trie.Find.{find_node-cons, find_node-step, next-miss, find_of_none, find_of_node}

abbrev pub Holds {ℓ} : {A : Type ℓ} → (A → Type 0) → Option A → Type 0
Holds P none = Unit
Holds P (some x) = P x

abbrev mutual
  pub Every : {A : Type 0} → (ℕ → Type 0) → (A → Type 0) → Trie A → Type 0
  Every V P (node v d n ks) = Holds P d × EveryNode V P ks

  pub EveryNode : {A : Type 0} → (ℕ → Type 0) → (A → Type 0) → Nodes A → Type 0
  EveryNode V P nil = Unit
  EveryNode V P (cons t ks) = V (value t) × Every V P t × EveryNode V P ks

module _ {A : Type 0} (V : ℕ → Type 0) (P : A → Type 0) where
  nodes-Every : (t : Trie A) → Every V P t → EveryNode V P (nodes t)
  nodes-Every (node v d n ks) h = h.1

  at-Every :
      (ks : Nodes A) (i : ℕ) (u : Trie A)
      → EveryNode V P ks
      → at ks i ≡ some u
      → V (value u) × Every V P u
  at-Every nil i u h a = cc
  at-Every (cons t ks) zero u h a =
      let e : t ≡ u = cc in subst (λ w. V (value w) × Every V P w) e (h.0, h.1)
  at-Every (cons t ks) (suc i) u h a = at-Every ks i u h.2 a

  put-EveryNode :
      (ks : Nodes A) (i : ℕ) (u : Trie A)
      → EveryNode V P ks
      → V (value u)
      → Every V P u
      → EveryNode V P (put ks i u)
  put-EveryNode nil i u h v e = tt
  put-EveryNode (cons t ks) zero u h v e = (v, e, h.2)
  put-EveryNode (cons t ks) (suc i) u h v e = (h.0, h.1, put-EveryNode ks i u h.2 v e)

  put-Every :
      (t : Trie A) (i : ℕ) (u : Trie A)
      → Every V P t
      → V (value u)
      → Every V P u
      → Every V P (put_node t i u)
  put-Every (node w d n ks) i u h v e = (h.0, put-EveryNode ks i u h.1 v e)

  extend-EveryNode :
      (m : ℕ) (ks : Nodes A) (u : Trie A)
      → EveryNode V P ks
      → V (value u)
      → Every V P u
      → EveryNode V P (extend m ks u)
  extend-EveryNode zero ks u h v e = (v, e, tt)
  extend-EveryNode (suc m) nil u h v e = (v, e, tt)
  extend-EveryNode (suc m) (cons t ks) u h v e = (h.0, h.1, extend-EveryNode m ks u h.2 v e)

  append-Every : (t : Trie A) (c : ℕ) → Every V P t → V c → Every V P (append_node t c)
  append-Every (node w d n ks) c h v =
      (h.0, extend-EveryNode (tr_node_children (node w d n ks)) ks (fresh c) h.1 v (tt, tt))

  pub store-Every :
      (t : Trie A) (k : List ℕ) (e : Option A) → Holds P e → Every V P t → Every V P (store t k e)
  unfolding store
  store-Every (node v d n ks) [] e p h = (p, h.1)
  store-Every t (c ∷ cs) e p h = elim (find_cases t c) [
    | inl miss ↦ rw (miss, store) h
    | inr (i, u, hit, a, v) ↦
        let (vu, hu) = at-Every (nodes t) i u (nodes-Every t h) a in
        rw (hit, store)
          (rw a (
            put-Every t i (store u cs e) h (subst V (sym (value-store u cs e)) vu)
              (store-Every u cs e p hu)))
  ]

  pub descend-Every : (t : Trie A) (k : List ℕ) → All V k → Every V P t → Every V P (descend t k)
  unfolding descend
  descend-Every t [] b h = h
  descend-Every t (c ∷ cs) b h = elim (find_cases t c) [
    | inl miss ↦
        rw (miss, descend)
          (put-Every (append_node t c) (tr_node_children t) (descend (fresh c) cs)
            (append-Every t c h b.0) (subst V (sym (value-descend (fresh c) cs)) b.0)
            (descend-Every (fresh c) cs b.1 (tt, tt)))
    | inr (i, u, hit, a, v) ↦
        let (vu, hu) = at-Every (nodes t) i u (nodes-Every t h) a in
        rw (hit, descend)
          (rw a (
            put-Every t i (descend u cs) h (subst V (sym (value-descend u cs)) vu)
              (descend-Every u cs b.1 hu)))
  ]

  -- The node of a key: its bytes and what stands below it have the properties.
  pub find_node-Every :
      (t : Trie A) (k : List ℕ) (w : Trie A)
      → Every V P t
      → tr_find_node t k ≡ some w
      → All V k × Every V P w
  find_node-Every t [] w h e =
      let e' : t ≡ w = unfold tr_find_node in cc e in (tt, subst (Every V P) e' h)
  find_node-Every t (c ∷ cs) w h e = elim (find_cases t c) [
    | inl miss ↦ cc (find_node-cons t c cs, next-miss t c miss)
    | inr (i, u, hit, a, v) ↦
        let (vu, hu) = at-Every (nodes t) i u (nodes-Every t h) a in
        let (ks, hw) = find_node-Every u cs w hu (sym (find_node-step t c i cs u hit a) ∙ e) in
        ((subst V v vu, ks), hw)
  ]

  data-Every : (w : Trie A) (x : A) → Every V P w → tr_find w [] ≡ some x → P x
  unfolding tr_find tr_find_node
  data-Every (node v (some y) n ks) x h e = let e' : y ≡ x = cc in subst P e' h.0
  data-Every (node v none n ks) x h e = cc

  -- So have the bytes of a key that is found, and its data.
  pub find-Every :
      (t : Trie A) (k : List ℕ) (x : A) → Every V P t → tr_find t k ≡ some x → All V k × P x
  find-Every t k x h e = elim (Option-cases (tr_find_node t k)) [
    | inl miss ↦ cc (find_of_none t k miss)
    | inr (w, hit) ↦
        let (bytes, hw) = find_node-Every t k w h hit in
        (bytes, data-Every w x hw (sym (find_of_node t k w hit) ∙ e))
  ]
