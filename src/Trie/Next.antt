-- ===== src/Trie/Next.antt =====
-- src/trie.c: how `tr_find_next_node` sees the array of children after a write or an append.
use gibson_mastter.Base.{
  ℕ, zero, suc, ◌+◌, ◌%◌, ◌<◌, ◌≡◌, ◌≢◌, refl, ap, ◌⊎◌, inl, inr, Option, none, some, ◌==◌,
  if◌then◌else◌, arith, Option-cases, Bool-cases,
}
use gibson_mastter.Trie.{
  Trie, Nodes, node, nil, cons, value, nodes, count, at, put, extend, scan, next, grown, fresh,
  append_node, put_node, tr_node_children, tr_find_next_node,
}

module _ {A : Type 0} where
  pub at-lt : (ks : Nodes A) (i : ℕ) {u : Trie A} → at ks i ≡ some u → i < count ks
  at-lt nil i h = cc
  at-lt (cons t ks) zero h = omega arith
  at-lt (cons t ks) (suc i) h = omega (arith, at-lt ks i h)

  pub at-put_self :
      (ks : Nodes A) (i : ℕ) {t : Trie A} (u : Trie A)
      → at ks i ≡ some t
      → at (put ks i u) i ≡ some u
  at-put_self nil i u h = cc
  at-put_self (cons t ks) zero u h = refl
  at-put_self (cons t ks) (suc i) u h = at-put_self ks i u h

  pub at-put_ne : (ks : Nodes A) (i j : ℕ) (u : Trie A) → i ≢ j → at (put ks i u) j ≡ at ks j
  at-put_ne nil i j u h = refl
  at-put_ne (cons t ks) zero zero u h = absurd (h refl)
  at-put_ne (cons t ks) zero (suc j) u h = refl
  at-put_ne (cons t ks) (suc i) zero u h = refl
  at-put_ne (cons t ks) (suc i) (suc j) u h = at-put_ne ks i j u (λ e. h (ap suc e))

  pub count-put : (ks : Nodes A) (i : ℕ) (u : Trie A) → count (put ks i u) ≡ count ks
  count-put nil i u = refl
  count-put (cons t ks) zero u = refl
  count-put (cons t ks) (suc i) u = ap suc (count-put ks i u)

  pub count-extend : (ks : Nodes A) (u : Trie A) → count (extend (count ks) ks u) ≡ count ks + 1
  count-extend nil u = omega arith
  count-extend (cons t ks) u = omega (arith, count-extend ks u)

  pub at-extend_lt :
      (ks : Nodes A) (i : ℕ) (u : Trie A) → i < count ks → at (extend (count ks) ks u) i ≡ at ks i
  at-extend_lt nil i u h = elim h [ ]
  at-extend_lt (cons t ks) zero u h = refl
  at-extend_lt (cons t ks) (suc i) u h = at-extend_lt ks i u (omega arith)

  pub at-extend_end : (ks : Nodes A) (u : Trie A) → at (extend (count ks) ks u) (count ks) ≡ some u
  at-extend_end nil u = refl
  at-extend_end (cons t ks) u = at-extend_end ks u

  pub put-extend :
      (ks : Nodes A) (u w : Trie A)
      → put (extend (count ks) ks u) (count ks) w ≡ extend (count ks) ks w
  put-extend nil u w = refl
  put-extend (cons t ks) u w = ap (cons t) (put-extend ks u w)

  abbrev pub value_at : Nodes A → ℕ → Option ℕ
  value_at ks i = elim (at ks i) [ none ↦ none | some u ↦ some (value u) ]

  -- What the loop finds is a child of that value.
  pub scan-lt : (n : ℕ) (ks : Nodes A) (v i : ℕ) → scan n ks v ≡ some i → i < n
  unfolding scan
  scan-lt zero ks v i h = cc
  scan-lt (suc n) ks v i h = ground (arith, scan-lt n ks v i)

  pub scan-value : (n : ℕ) (ks : Nodes A) (v i : ℕ) → scan n ks v ≡ some i → value_at ks i ≡ some v
  unfolding scan
  scan-value zero ks v i h = cc
  scan-value (suc n) ks v i h = ground (arith, scan-value n ks v i)

  -- What the loop misses is not there.
  pub scan_miss :
      (n : ℕ) (ks : Nodes A) (v i : ℕ) → scan n ks v ≡ none → i < n → value_at ks i ≢ some v
  unfolding scan
  scan_miss zero ks v i h lt = elim lt [ ]
  scan_miss (suc n) ks v i h lt = ground (arith, scan_miss n ks v i)

  -- The loop reads the values only.
  pub scan_values :
      (n : ℕ) (ks ls : Nodes A) (v : ℕ)
      → ((i : ℕ) → i < n → value_at ks i ≡ value_at ls i)
      → scan n ks v ≡ scan n ls v
  unfolding scan
  scan_values zero ks ls v h = refl
  scan_values (suc n) ks ls v h =
      ground (arith, h n (omega arith), scan_values n ks ls v (λ i lt. h i (omega arith)))

  value_at-put :
      (ks : Nodes A) (i j c : ℕ) (u' : Trie A)
      → value_at ks i ≡ some c
      → value u' ≡ c
      → value_at (put ks i u') j ≡ value_at ks j
  value_at-put nil i j c u' h e = refl
  value_at-put (cons t ks) zero zero c u' h e = ground arith
  value_at-put (cons t ks) zero (suc j) c u' h e = refl
  value_at-put (cons t ks) (suc i) zero c u' h e = refl
  value_at-put (cons t ks) (suc i) (suc j) c u' h e = value_at-put ks i j c u' h e

  pub children-put :
      (t : Trie A) (i : ℕ) (u : Trie A) → tr_node_children (put_node t i u) ≡ tr_node_children t
  children-put (node v d n nil) i u = refl
  children-put (node v d n (cons k ks)) zero u = refl
  children-put (node v d n (cons k ks)) (suc i) u = refl

  pub nodes-put : (t : Trie A) (i : ℕ) (u : Trie A) → nodes (put_node t i u) ≡ put (nodes t) i u
  nodes-put (node v d n ks) i u = refl

  -- The child that is found has the byte that was looked for.
  pub find-value :
      (t : Trie A) (c i : ℕ) → tr_find_next_node t c ≡ some i → value_at (nodes t) i ≡ some c
  unfolding tr_find_next_node
  find-value t c i h = scan-value (tr_node_children t) (nodes t) c i h

  find-lt : (t : Trie A) (c i : ℕ) → tr_find_next_node t c ≡ some i → i < tr_node_children t
  unfolding tr_find_next_node
  find-lt t c i h = scan-lt (tr_node_children t) (nodes t) c i h

  -- A write that keeps the value changes no search.
  pub find-put :
      (t : Trie A) (c i w : ℕ) (u' : Trie A)
      → tr_find_next_node t c ≡ some i
      → value u' ≡ c
      → tr_find_next_node (put_node t i u') w ≡ tr_find_next_node t w
  unfolding tr_find_next_node
  find-put t c i w u' h e =
      rw (children-put t i u', nodes-put t i u')
        (scan_values (tr_node_children t) (put (nodes t) i u') (nodes t) w (λ j lt.
          value_at-put (nodes t) i j c u' (unfold tr_find_next_node in find-value t c i h) e))

  -- After the write the pointer for the byte is the new child, and the others are as before.
  pub next-put :
      (t : Trie A) (c i w : ℕ) (u u' : Trie A)
      → tr_find_next_node t c ≡ some i
      → at (nodes t) i ≡ some u
      → value u' ≡ c
      → next (put_node t i u') w ≡ (if c == w then some u' else next t w)
  next-put t c i w u u' h a e =
      rw (find-put t c i w u' h e) (elim (Option-cases (tr_find_next_node t w)) [
        | inl miss ↦ ground (arith, miss, h)
        | inr (j, hit) ↦ rw (hit) (
            rw (nodes-put t i u') (
              ground (
                arith,
                hit,
                h,
                find-value t c i h,
                find-value t w j hit,
                at-put_self (nodes t) i u' a,
                at-put_ne (nodes t) i j u',
              )))
      ])

  pub nodes-grown :
      (t : Trie A) (c : ℕ) (u : Trie A)
      → tr_node_children t ≡ count (nodes t)
      → nodes (grown t c u) ≡ extend (count (nodes t)) (nodes t) u
  nodes-grown (node v d n nil) c u h = refl
  nodes-grown (node v d n (cons k ks)) c u h = rw h (put-extend (cons k ks) (fresh c) u)

  pub children-extend :
      (v n : ℕ) (d : Option A) (m : ℕ) (ks : Nodes A) (u : Trie A)
      → tr_node_children (node v d n (extend m ks u)) ≡ n + 1
  children-extend v n d zero ks u = refl
  children-extend v n d (suc m) nil u = refl
  children-extend v n d (suc m) (cons k ks) u = refl

  pub children-grown :
      (t : Trie A) (c : ℕ) (u : Trie A)
      → tr_node_children t ≡ count (nodes t)
      → count (nodes t) < 256
      → tr_node_children (grown t c u) ≡ suc (count (nodes t))
  children-grown (node v d n ks) c u h lt =
      rw (children-put (append_node (node v d n ks) c) (tr_node_children (node v d n ks)) u) (
        rw
          (children-extend v (tr_node_children (node v d n ks) % 256) d
            (tr_node_children (node v d n ks)) ks (fresh c))
          (omega arith))

  value_at-extend :
      (ks : Nodes A) (i : ℕ) (u : Trie A)
      → i < count ks
      → value_at (extend (count ks) ks u) i ≡ value_at ks i
  value_at-extend ks i u h = rw (at-extend_lt ks i u h, value_at)

  pub find-grown :
      (t : Trie A) (c w : ℕ) (u : Trie A)
      → tr_node_children t ≡ count (nodes t)
      → count (nodes t) < 256
      → value u ≡ c
      → tr_find_next_node (grown t c u) w
        ≡ (if c == w then some (count (nodes t)) else tr_find_next_node t w)
  unfolding tr_find_next_node scan
  find-grown t c w u h lt e =
      rw (children-grown t c u h lt, nodes-grown t c u h)
        (ground (
          arith,
          h,
          at-extend_end (nodes t) u,
          scan_values (count (nodes t)) (extend (count (nodes t)) (nodes t) u) (nodes t) w
              (λ i l. value_at-extend (nodes t) i u l),
        ))

  pub next-grown :
      (t : Trie A) (c w : ℕ) (u : Trie A)
      → tr_node_children t ≡ count (nodes t)
      → count (nodes t) < 256
      → value u ≡ c
      → next (grown t c u) w ≡ (if c == w then some u else next t w)
  next-grown t c w u h lt e = rw (find-grown t c w u h lt e) (elim (Bool-cases (c == w)) [
    | inl same ↦ rw same (rw (nodes-grown t c u h) (at-extend_end (nodes t) u))
    | inr other ↦ rw other (elim (Option-cases (tr_find_next_node t w)) [
      | inl miss ↦ ground (arith, miss)
      | inr (j, hit) ↦
          rw hit (
            rw (nodes-grown t c u h)
              (at-extend_lt (nodes t) j u (omega (arith, find-lt t w j hit))))
    ])
  ])

  value_at-some :
      (ks : Nodes A) (i c : ℕ)
      → value_at ks i ≡ some c
      → (u : Trie A) × (at ks i ≡ some u) × (value u ≡ c)
  value_at-some nil i c h = cc
  value_at-some (cons t ks) zero c h = (t, refl, cc)
  value_at-some (cons t ks) (suc i) c h = value_at-some ks i c h

  -- A search finds nothing, or a child of that value.
  pub find_cases :
      (t : Trie A) (c : ℕ)
      → (tr_find_next_node t c ≡ none)
        ⊎ ((i : ℕ) × (u : Trie A) × (tr_find_next_node t c ≡ some i)
            × (at (nodes t) i ≡ some u)
            × (value u ≡ c))
  find_cases t c = elim (Option-cases (tr_find_next_node t c)) [
    | inl miss ↦ inl miss
    | inr (i, hit) ↦
        let (u, a, e) = value_at-some (nodes t) i c (find-value t c i hit) in inr (i, u, hit, a, e)
  ]

  pub find_miss :
      (t : Trie A) (c i : ℕ)
      → tr_find_next_node t c ≡ none
      → i < tr_node_children t
      → value_at (nodes t) i ≢ some c
  unfolding tr_find_next_node
  find_miss t c i h lt = scan_miss (tr_node_children t) (nodes t) c i h lt
