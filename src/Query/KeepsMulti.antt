-- ===== src/Query/KeepsMulti.antt =====
-- src/query.c: the callbacks of the queries on a prefix, and their handlers, keep the invariant.
use gibson_mastter.Base.{
  option_rule, if_rule, ℕ, ◌≡◌, refl, sym, subst, inl, inr, some, List, [], ◌∷◌, arith,
  Option-cases, leb,
}
use gibson_mastter.Base.Int.{ℤ, pos}
use gibson_mastter.Trie.{Trie, tr_find, tr_find_node}
use gibson_mastter.Trie.Recurse.{c_str, recurse_rule, call, at_limit, tr_search_callback}
use gibson_mastter.Number.{parse_long}
use gibson_mastter.Item.{
  Item, Encoding, plain, lzf, number, item_is_locked, bytes_of, value, number_of,
}
use gibson_mastter.Server.{External, Server, destroy_item}
use gibson_mastter.Request.{parse_key, parse_key_value}
use gibson_mastter.Query.{minus_one, accessed, add_long}
use gibson_mastter.Query.Single.{renewed, locked, with_number, measured}
use gibson_mastter.Query.Multi.{
  query_multi_set, query_multi_ttl, query_multi_lock, query_multi_del, query_multi_inc_dec,
  query_multi_unlock, query_count, Callback, tree_of, multi_set_callback, multi_ttl_callback,
  multi_del_callback, multi_inc_dec_callback, multi_lock_callback, multi_unlock_callback,
  count_callback, multi_step_number,
}
use gibson_mastter.Query.Invariant.{
  Inv, IsKey, Tagged, with_item-Inv, old-IsTagged, old-NotNul, single_set-Inv, destroy-Inv,
}
use gibson_mastter.Query.Cases.{node_valid, item_valid}
use gibson_mastter.Query.Keeps.{measured-Inv, size_of_number, Leaves}

-- A key without NUL is its own C string.
pub c_str-IsKey : (k : List ℕ) → IsKey k → c_str k ≡ k
unfolding c_str
c_str-IsKey [] h = refl
c_str-IsKey (b ∷ bs) h = ground (arith, c_str-IsKey bs h.1, h.0.0)

abbrev pub Ends : ℕ × Server → Type 0
Ends r = Inv r.1

-- A callback keeps the invariant, on an item that the tree holds under the node's path.
abbrev pub Keeps : Callback → Type 0
Keeps callback =
    (s : Server) (k : List ℕ) (item : Item)
    → tr_find s.tree k ≡ some item
    → Inv s
    → Inv (callback s k k item).1

module _ (callback : Callback) (keeps : Keeps callback) where
  call-Inv :
      (path : List ℕ) (t : Trie Item) (r : ℕ × Server)
      → Ends r
      → Ends (call tree_of callback path t r)
  unfolding call
  call-Inv path t (total, s) h =
      option_rule Ends (tr_find s.tree path) _ _ h
        λ item found. rw (c_str-IsKey path (old-NotNul s path found h)) (keeps s path item found h)

  -- A search with such a callback keeps it.
  pub search-Inv :
      (s : Server) (prefix : List ℕ) (limit : ℤ)
      → Inv s
      → Inv (tr_search_callback tree_of callback s prefix limit).1
  unfolding tr_search_callback
  search-Inv s prefix limit h = option_rule Ends (tr_find_node s.tree prefix) _ _ h λ start _.
      recurse_rule (λ r. at_limit limit r.0) (call tree_of callback) Ends call-Inv start prefix
        (0, s) h

module _ (ext : External) where
  multi_ttl-Keeps : (ttl : ℤ) → Keeps (multi_ttl_callback ext ttl)
  unfolding multi_ttl_callback
  multi_ttl-Keeps ttl s k item found h = elim (item_valid ext s k item found h) [
    | inl (_, e) ↦
        rw e (with_item-Inv s k found h (renewed s item ttl) (old-IsTagged s k found h) refl)
    | inr (s', _, e, h') ↦ rw e h'
  ]

  count-Keeps : Keeps (count_callback ext)
  unfolding count_callback
  count-Keeps s k item found h = elim (item_valid ext s k item found h) [
    | inl (_, e) ↦
        rw e (with_item-Inv s k found h (accessed s item) (old-IsTagged s k found h) refl)
    | inr (s', _, e, h') ↦ rw e h'
  ]

  multi_unlock-Keeps : Keeps (multi_unlock_callback ext)
  unfolding multi_unlock_callback
  multi_unlock-Keeps s k item found h = elim (item_valid ext s k item found h) [
    | inl (_, e) ↦ rw e (
        with_item-Inv s k found h (record (accessed s item) { lock = pos 0 })
          (old-IsTagged s k found h) refl)
    | inr (s', _, e, h') ↦ rw e h'
  ]

  multi_lock-Keeps : (locktime : ℤ) → Keeps (multi_lock_callback ext locktime)
  unfolding multi_lock_callback
  multi_lock-Keeps locktime s k item found h = elim (item_valid ext s k item found h) [
    | inl (_, e) ↦ rw e (
        if_rule Ends (item_is_locked item s.stats.now) _ _ (λ _. h)
          (λ _.
            with_item-Inv s k found h (locked s (accessed s item) locktime)
              (old-IsTagged s k found h) refl))
    | inr (s', _, e, h') ↦ rw e h'
  ]

  multi_del-Keeps : Keeps (multi_del_callback ext)
  unfolding multi_del_callback destroy_item
  multi_del-Keeps s k item found h =
      if_rule Ends (item_is_locked item s.stats.now) _ _ (λ _. h)
        λ _. elim (node_valid ext s k item found h) [
          | inl (_, e) ↦ rw e (destroy-Inv ext s k item found h)
          | inr (s', _, e, h') ↦ rw e h'
        ]

  multi_set-Keeps : (v : List ℕ) → Keeps (multi_set_callback ext v)
  unfolding multi_set_callback
  multi_set-Keeps v s k item found h =
      if_rule Ends (item_is_locked item s.stats.now) _ _ (λ _. h)
        λ _. elim (item_valid ext s k item found h) [
          | inl (_, e) ↦ rw e (single_set-Inv ext s v k (old-NotNul s k found h) h)
          | inr (s', _, e, h') ↦ rw e h'
        ]

  multi_step_number-Inv :
      (s : Server) (k : List ℕ) (old : Item) (delta : ℤ) (e : Encoding)
      → e ≡ old.encoding
      → tr_find s.tree k ≡ some old
      → Inv s
      → Inv (multi_step_number ext e old.content s k (accessed s old) delta).1
  multi_step_number-Inv s k old delta plain same found h =
      elim (Option-cases (parse_long (bytes_of old.content))) [
        | inl e ↦ rw e (with_item-Inv s k found h (accessed s old) (old-IsTagged s k found h) refl)
        | inr (n, e) ↦ rw e (
            with_item-Inv (measured ext s) k found (measured-Inv ext s h)
              (with_number (accessed s old) (add_long n delta)) refl (rw (sym same) refl))
      ]
  multi_step_number-Inv s k old delta lzf same found h =
      with_item-Inv s k found h (accessed s old) (old-IsTagged s k found h) refl
  multi_step_number-Inv s k old delta number same found h =
      let tagged =
        subst (λ e. Tagged e old.content old.size) (sym same) (old-IsTagged s k found h) in
      with_item-Inv s k found h
        (record (accessed s old) { content = value (add_long (number_of old.content) delta) })
        (subst (λ e. Tagged e (value (add_long (number_of old.content) delta)) old.size) same
          (size_of_number ext old.content old.size tagged))
        refl

  multi_inc_dec-Keeps : (delta : ℤ) → Keeps (multi_inc_dec_callback ext delta)
  unfolding multi_inc_dec_callback
  multi_inc_dec-Keeps delta s k item found h =
      if_rule Ends (item_is_locked item s.stats.now) _ _ (λ _. h)
        λ _. elim (item_valid ext s k item found h) [
          | inl (_, e) ↦ rw e (multi_step_number-Inv s k item delta item.encoding refl found h)
          | inr (s', _, e, h') ↦ rw e h'
        ]

module _ (ext : External) (s : Server) (mem : List ℕ) (size : ℕ) (h : Inv s) where
  pub query_multi_set-Inv : Inv (query_multi_set ext s mem size).0
  unfolding query_multi_set
  query_multi_set-Inv =
      if_rule Leaves (leb s.stats.memused s.limits.maxmem) _ _
        (λ _. option_rule Leaves (parse_key_value s.limits mem size) _ _ h λ kv _.
          search-Inv (multi_set_callback ext kv.1) (multi_set-Keeps ext kv.1) s kv.0 minus_one h)
        (λ _. h)

  pub query_multi_ttl-Inv : Inv (query_multi_ttl ext s mem size).0
  unfolding query_multi_ttl
  query_multi_ttl-Inv = option_rule Leaves (parse_key_value s.limits mem size) _ _ h λ kv _.
      option_rule Leaves (parse_long kv.1) _ _ h λ ttl _.
        search-Inv (multi_ttl_callback ext ttl) (multi_ttl-Keeps ext ttl) s kv.0 minus_one h

  pub query_multi_lock-Inv : Inv (query_multi_lock ext s mem size).0
  unfolding query_multi_lock
  query_multi_lock-Inv = option_rule Leaves (parse_key_value s.limits mem size) _ _ h λ kv _.
      option_rule Leaves (parse_long kv.1) _ _ h λ locktime _.
        search-Inv (multi_lock_callback ext locktime) (multi_lock-Keeps ext locktime) s kv.0
          minus_one h

  pub query_multi_del-Inv : Inv (query_multi_del ext s mem size).0
  unfolding query_multi_del
  query_multi_del-Inv =
      option_rule Leaves (parse_key s.limits mem size) _ _ h
        λ k _. search-Inv (multi_del_callback ext) (multi_del-Keeps ext) s k (pos 0) h

  pub query_multi_inc_dec-Inv : (delta : ℤ) → Inv (query_multi_inc_dec ext delta s mem size).0
  unfolding query_multi_inc_dec
  query_multi_inc_dec-Inv delta = option_rule Leaves (parse_key s.limits mem size) _ _ h λ k _.
      search-Inv (multi_inc_dec_callback ext delta) (multi_inc_dec-Keeps ext delta) s k minus_one h

  pub query_multi_unlock-Inv : Inv (query_multi_unlock ext s mem size).0
  unfolding query_multi_unlock
  query_multi_unlock-Inv =
      option_rule Leaves (parse_key s.limits mem size) _ _ h
        λ k _. search-Inv (multi_unlock_callback ext) (multi_unlock-Keeps ext) s k minus_one h

  pub query_count-Inv : Inv (query_count ext s mem size).0
  unfolding query_count
  query_count-Inv =
      option_rule Leaves (parse_key s.limits mem size) _ _ h
        λ k _. search-Inv (count_callback ext) (count-Keeps ext) s k minus_one h
