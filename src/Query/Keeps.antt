-- ===== src/Query/Keeps.antt =====
-- src/query.c: the handlers of single keys keep the invariant.
use gibson_mastter.Base.{
  option_rule, if_rule, ℕ, ◌≡◌, refl, sym, subst, ◌∙◌, inl, inr, Option, none, some, List,
  Option-cases, leb, key_eq_refl,
}
use gibson_mastter.Base.Int.{ℤ, pos, lt_ℤ}
use gibson_mastter.Trie.{tr_find}
use gibson_mastter.Number.{parse_long}
use gibson_mastter.Item.{
  stored_ttl, number_of, buffer, value, Item, Payload, Encoding, plain, lzf, number, item_is_locked,
  bytes_of,
}
use gibson_mastter.Server.{External, Server, Limits, destroy_item}
use gibson_mastter.Request.{parse_key, parse_key_value, parse_ttl_key_value}
use gibson_mastter.Query.{Answer, add_long, accessed, single_set}
use gibson_mastter.Query.Single.{
  query_get, query_set, query_ttl, query_del, query_inc_dec, query_lock, query_unlock, query_meta,
  set_ttl, step_number, measured, renewed, locked, held, renew, take_lock, with_number,
}
use gibson_mastter.Query.Invariant.{
  Inv, IsKey, Tagged, with_item-Inv, old-IsTagged, single_set-Inv, find-single_set, destroy-Inv,
  create_number-Inv,
}
use gibson_mastter.Query.Cases.{node_valid, item_valid}

abbrev pub Leaves : Answer → Type 0
Leaves a = Inv a.0

-- The keys that a request may store are bytes, none of them NUL.
pub record IsClean (l : Limits) (mem : List ℕ) (size : ℕ) : Type 0 where
  pub key : (k : List ℕ) → parse_key l mem size ≡ some k → IsKey k
  pub set_key : (t k v : List ℕ) → parse_ttl_key_value l mem size ≡ some (t, k, v) → IsKey k

module _ (ext : External) where
  pub measured-Inv : (s : Server) → Inv s → Inv (measured ext s)
  measured-Inv s h = record {
    sound = h.sound;
    items = h.items;
    counted = h.counted;
    compressed = h.compressed;
  }

  pub size_of_number : (c : Payload) (size : ℕ) → Tagged number c size → size ≡ 8
  size_of_number (buffer bs) size t = absurd t
  size_of_number (value n) size t = t

  -- A number that takes the place of the data.
  step_number-Inv :
      (s : Server) (k : List ℕ) (old : Item) (delta : ℤ) (e : Encoding)
      → e ≡ old.encoding
      → tr_find s.tree k ≡ some old
      → Inv s
      → Inv (step_number ext e old.content s k (accessed s old) delta).0
  step_number-Inv s k old delta plain same found h =
      elim (Option-cases (parse_long (bytes_of old.content))) [
        | inl e ↦ rw e (with_item-Inv s k found h (accessed s old) (old-IsTagged s k found h) refl)
        | inr (n, e) ↦ rw e (
            with_item-Inv (measured ext s) k found (measured-Inv s h)
              (with_number (accessed s old) (add_long n delta)) refl (rw (sym same) refl))
      ]
  step_number-Inv s k old delta lzf same found h =
      with_item-Inv s k found h (accessed s old) (old-IsTagged s k found h) refl
  step_number-Inv s k old delta number same found h =
      let tagged =
        subst (λ e. Tagged e old.content old.size) (sym same) (old-IsTagged s k found h) in
      with_item-Inv s k found h
        (record (accessed s old) { content = value (add_long (number_of old.content) delta) })
        (subst (λ e. Tagged e (value (add_long (number_of old.content) delta)) old.size) same
          (size_of_number old.content old.size tagged))
        refl

  renew-Inv :
      (o : Option ℤ) (s : Server) (k : List ℕ) (item : Item)
      → tr_find s.tree k ≡ some item
      → Inv s
      → Inv (renew ext o s k item).0
  renew-Inv none s k item found h = h
  renew-Inv (some ttl) s k item found h =
      with_item-Inv s k found h (renewed s item ttl) (old-IsTagged s k found h) refl

  take_lock-Inv :
      (o : Option ℤ) (s : Server) (k : List ℕ) (item : Item)
      → tr_find s.tree k ≡ some item
      → Inv s
      → Inv (take_lock ext o s k item).0
  take_lock-Inv none s k item found h = h
  take_lock-Inv (some locktime) s k item found h =
      let tagged = old-IsTagged s k found h in
      if_rule Leaves (item_is_locked item s.stats.now) _ _
        (λ _. with_item-Inv s k found h (accessed s item) tagged refl)
        (λ _. with_item-Inv s k found h (locked s (accessed s item) locktime) tagged refl)

module _ (ext : External) (s : Server) (mem : List ℕ) (size : ℕ) (h : Inv s) where
  pub query_get-Inv : Inv (query_get ext s mem size).0
  unfolding query_get
  query_get-Inv = option_rule Leaves (parse_key s.limits mem size) _ _ h λ k _.
      option_rule Leaves (tr_find s.tree k) _ _ h λ item found.
        elim (node_valid ext s k item found h) [
          | inl (_, e) ↦
              rw e (with_item-Inv s k found h (accessed s item) (old-IsTagged s k found h) refl)
          | inr (s', _, e, h') ↦ rw e h'
        ]

  pub query_unlock-Inv : Inv (query_unlock ext s mem size).0
  unfolding query_unlock
  query_unlock-Inv = option_rule Leaves (parse_key s.limits mem size) _ _ h λ k _.
      option_rule Leaves (tr_find s.tree k) _ _ h λ item found.
        elim (node_valid ext s k item found h) [
          | inl (_, e) ↦ rw e (
              with_item-Inv s k found h (record (accessed s item) { lock = pos 0 })
                (old-IsTagged s k found h) refl)
          | inr (s', _, e, h') ↦ rw e h'
        ]

  pub query_meta-Inv : Inv (query_meta ext s mem size).0
  unfolding query_meta
  query_meta-Inv = option_rule Leaves (parse_key_value s.limits mem size) _ _ h λ kv _.
      option_rule Leaves (tr_find s.tree kv.0) _ _ h λ item found.
        elim (node_valid ext s kv.0 item found h) [
          | inl (_, e) ↦
              rw e
                (with_item-Inv s kv.0 found h (accessed s item) (old-IsTagged s kv.0 found h) refl)
          | inr (s', _, e, h') ↦ rw e h'
        ]

  pub query_ttl-Inv : Inv (query_ttl ext s mem size).0
  unfolding query_ttl
  query_ttl-Inv = option_rule Leaves (parse_key_value s.limits mem size) _ _ h λ kv _.
      option_rule Leaves (tr_find s.tree kv.0) _ _ h λ item found.
        elim (item_valid ext s kv.0 item found h) [
          | inl (_, e) ↦ rw e (renew-Inv ext (parse_long kv.1) s kv.0 item found h)
          | inr (s', _, e, h') ↦ rw e h'
        ]

  pub query_lock-Inv : Inv (query_lock ext s mem size).0
  unfolding query_lock
  query_lock-Inv = option_rule Leaves (parse_key_value s.limits mem size) _ _ h λ kv _.
      option_rule Leaves (tr_find s.tree kv.0) _ _ h λ item found.
        elim (node_valid ext s kv.0 item found h) [
          | inl (_, e) ↦ rw e (take_lock-Inv ext (parse_long kv.1) s kv.0 item found h)
          | inr (s', _, e, h') ↦ rw e h'
        ]

  pub query_del-Inv : Inv (query_del ext s mem size).0
  unfolding query_del destroy_item
  query_del-Inv = option_rule Leaves (parse_key s.limits mem size) _ _ h λ k _.
      option_rule Leaves (tr_find s.tree k) _ _ h λ item found.
        if_rule Leaves (item_is_locked item s.stats.now) _ _ (λ _. h)
          λ _. elim (node_valid ext s k item found h) [
            | inl (_, e) ↦ rw e (destroy-Inv ext s k item found h)
            | inr (s', _, e, h') ↦ rw e h'
          ]

  pub query_inc_dec-Inv :
      (delta : ℤ) → IsClean s.limits mem size → Inv (query_inc_dec ext delta s mem size).0
  unfolding query_inc_dec
  query_inc_dec-Inv delta clean = option_rule Leaves (parse_key s.limits mem size) _ _ h λ k parsed.
      elim (Option-cases (tr_find s.tree k)) [
        | inl free ↦ rw free (create_number-Inv ext s k (clean.key k parsed) free h)
        | inr (item, found) ↦ rw found (elim (node_valid ext s k item found h) [
          | inl (_, e) ↦ rw e (
              if_rule Leaves (item_is_locked item s.stats.now) _ _ (λ _. h)
                (λ _. step_number-Inv ext s k item delta item.encoding refl found h))
          | inr (s', _, e, h') ↦ rw e h'
        ])
      ]

  set_ttl-Inv :
      (k v : List ℕ) (ttl : ℤ) → IsKey k → Inv (set_ttl ext (single_set ext s v k) k ttl).0
  set_ttl-Inv k v ttl key =
      let kept = single_set-Inv ext s v k key h in
      let (s', item) = single_set ext s v k in
      let found : tr_find s'.tree k ≡ some item =
        find-single_set ext s v k k key h.sound ∙ rw (key_eq_refl k) refl in
      let timed = record item { time = s'.stats.now; ttl = stored_ttl s'.limits.maxitemttl ttl } in
      if_rule Leaves (lt_ℤ (pos 0) ttl) _ _
        (λ _. with_item-Inv s' k found kept timed (old-IsTagged s' k found kept) refl) (λ _. kept)

  pub query_set-Inv : IsClean s.limits mem size → Inv (query_set ext s mem size).0
  unfolding query_set
  query_set-Inv clean =
      if_rule Leaves (leb s.stats.memused s.limits.maxmem) _ _
        (λ _. option_rule Leaves (parse_ttl_key_value s.limits mem size) _ _ h λ tkv parsed.
          option_rule Leaves (parse_long tkv.0) _ _ h λ ttl _.
            if_rule Leaves (held (tr_find s.tree tkv.1) s.stats.now) _ _ (λ _. h)
              λ _. set_ttl-Inv tkv.1 tkv.2 ttl (clean.set_key tkv.0 tkv.1 tkv.2 parsed))
        (λ _. h)
