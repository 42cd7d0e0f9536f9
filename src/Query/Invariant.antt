-- ===== src/Query/Invariant.antt =====
-- src/query.c: the steps of the handlers that create an item and put it into the tree.
use gibson_mastter.Base.{
  ℕ, ◌+◌, ◌%◌, ◌≡◌, refl, sym, subst, ap, ◌∙◌, inl, inr, Option, none, some, List, [], ◌∷◌, arith,
  Bool, true, false, is_some, if◌then◌else◌, length, key_eq, ltb, Option-cases,
}
use gibson_mastter.Base.Int.{ℤ, pos}
use gibson_mastter.Trie.{tr_insert, tr_find, tr_find_node, descend}
use gibson_mastter.Trie.Shape.{IsSound, store-IsSound, insert-IsSound}
use gibson_mastter.Trie.Find.{find-insert}
use gibson_mastter.Trie.Weigh.{weight, weigh-store, weigh-insert}
use gibson_mastter.Trie.Every.{Every, store-Every, descend-Every}
use gibson_mastter.Item.{Item, Payload, value, Encoding, number}
use gibson_mastter.Server.{External, Server, uint_mod, create_item, destroy_item}
use gibson_mastter.Query.Single.{create_number}
use gibson_mastter.Query.{single_set, choose, encoded, noted, destroy_old, buffer_len, minus_one}
pub use gibson_mastter.Query.Tallied.{
  Tagged, IsTagged, NotNul, one, lzf_one, items_in, compressed_in, Inv, IsKey, IsKey-Below,
  with_item-Inv, old-IsTagged, old-NotNul, destroy-Inv,
}

-- The state between `create_item` and the insertion: the counters count the new item already.
record Pending (s : Server) (item : Item) : Type 0 where
  sound : IsSound s.tree
  items : Every NotNul IsTagged s.tree
  tagged : IsTagged item
  counted : s.stats.nitems ≡ (items_in s.tree + 1) % uint_mod
  compressed : s.stats.ncompressed ≡ (compressed_in s.tree + lzf_one item) % uint_mod

module _ (ext : External) where
  create-Pending :
      (s : Server) (content : Payload) (size : ℕ) (encoding : Encoding) (ttl : ℤ)
      → Tagged encoding content (size % uint_mod)
      → Inv s
      → let (s1, item) = create_item ext s content size encoding ttl in Pending s1 item
  unfolding create_item
  create-Pending s content size encoding ttl tagged h = record {
    sound = h.sound;
    items = h.items;
    tagged = tagged;
    counted = omega (arith, h.counted);
    compressed = ground (arith, h.compressed);
  }

  insert-Inv :
      (s : Server) (k : List ℕ) (item : Item)
      → IsKey k
      → Pending s item
      → let (tree, old) = tr_insert s.tree k item in
        Inv (destroy_old ext (record s { tree = tree }) old)
  unfolding destroy_item
  insert-Inv s k item no_nul p = elim (Option-cases (tr_insert s.tree k item).1) [
    | inl none_there ↦ rw (none_there) (record {
      sound = (insert-IsSound s.tree k item (IsKey-Below k no_nul) p.sound).0;
      items = insert-Every;
      counted = omega (
        arith,
        p.counted,
        weigh-insert one s.tree k item (IsKey-Below k no_nul) p.sound,
        ap (weight one) none_there,
      );
      compressed = omega (
        arith,
        p.compressed,
        weigh-insert lzf_one s.tree k item (IsKey-Below k no_nul) p.sound,
        ap (weight lzf_one) none_there,
      );
    })
    | inr (old, there) ↦ rw (there) (record {
      sound = (insert-IsSound s.tree k item (IsKey-Below k no_nul) p.sound).0;
      items = insert-Every;
      counted = omega (
        arith,
        p.counted,
        weigh-insert one s.tree k item (IsKey-Below k no_nul) p.sound,
        ap (weight one) there,
      );
      compressed = ground (
        arith,
        p.compressed,
        weigh-insert lzf_one s.tree k item (IsKey-Below k no_nul) p.sound,
        ap (weight lzf_one) there,
      );
    })
  ]
    where
      insert-Every : Every NotNul IsTagged (tr_insert s.tree k item).0
      insert-Every =
          unfold tr_insert in
          store-Every NotNul IsTagged (descend s.tree k) k (some item) p.tagged
            (descend-Every NotNul IsTagged s.tree k no_nul p.items)

  tree-destroy_old : (s : Server) (o : Option Item) → (destroy_old ext s o).tree ≡ s.tree
  unfolding destroy_item
  tree-destroy_old s none = refl
  tree-destroy_old s (some item) = refl

  tree-noted : (s : Server) (c v : ℕ) (b : Bool) → (noted s c v b).tree ≡ s.tree
  tree-noted s c v false = refl
  tree-noted s c v true = refl

  find-create :
      (s : Server) (content : Payload) (size : ℕ) (encoding : Encoding) (ttl : ℤ) (k j : List ℕ)
      → IsKey k
      → IsSound s.tree
      → let (s1, item) = create_item ext s content size encoding ttl in
        let (tree, old) = tr_insert s1.tree k item in
        tr_find (destroy_old ext (record s1 { tree = tree }) old).tree j
        ≡ (if key_eq k j then some item else tr_find s.tree j)
  unfolding create_item
  find-create s content size encoding ttl k j key h =
      rw (tree-destroy_old _ _) (find-insert s.tree k j _ h (IsKey-Below k key)).0

  -- After gbSingleSet, for a key of bytes that are not NUL and a sound tree, the key finds the item
  -- that gbSingleSet returns, and the other keys find what they found before.
  pub find-single_set :
      (s : Server) (v k j : List ℕ)
      → IsKey k
      → IsSound s.tree
      → let (s', item) = single_set ext s v k in
        tr_find s'.tree j ≡ (if key_eq k j then some item else tr_find s.tree j)
  unfolding single_set
  find-single_set s v k j key h =
      let (content, encoding, c) = encoded ext s v in
      let vlen = buffer_len content in
      let s0 = noted s vlen (length v) c in
      let same : s0.tree ≡ s.tree = tree-noted s vlen (length v) c in
      find-create s0 content vlen encoding minus_one k j key (subst IsSound (sym same) h)
      ∙ ap
          (λ t.
            if key_eq k j
            then some (create_item ext s0 content vlen encoding minus_one).1
            else tr_find t j)
          same

  -- What `choose` makes of a value is tagged.
  choose-Tagged :
      (b : Bool) (c v : List ℕ)
      → let (content, encoding, d) = choose b c v in
        Tagged encoding content (buffer_len content % uint_mod)
  choose-Tagged false c v = refl
  choose-Tagged true [] v = refl
  choose-Tagged true (b ∷ bs) v = refl

  noted-Inv : (s : Server) (c v : ℕ) (b : Bool) → Inv s → Inv (noted s c v b)
  noted-Inv s c v false h = h
  noted-Inv s c v true h = record {
    sound = h.sound;
    items = h.items;
    counted = h.counted;
    compressed = h.compressed;
  }

  -- gbSingleSet keeps the invariant, for a key of bytes that are not NUL.
  pub single_set-Inv : (s : Server) (v k : List ℕ) → IsKey k → Inv s → Inv (single_set ext s v k).0
  unfolding single_set
  single_set-Inv s v k key h =
      let (content, encoding, c) = encoded ext s v in
      let vlen = buffer_len content in
      let s0 = noted s vlen (length v) c in
      let (s1, item) = create_item ext s0 content vlen encoding minus_one in
      insert-Inv s1 k item key (
        create-Pending s0 content vlen encoding minus_one
          (choose-Tagged (ltb s.compression (length v)) _ v) (noted-Inv s vlen (length v) c h))

  -- The item of INC and DEC on a key without one: its node is reused, or the key is inserted.
  pub create_number-Inv :
      (s : Server) (k : List ℕ)
      → IsKey k
      → tr_find s.tree k ≡ none
      → Inv s
      → Inv (create_number ext s k).0
  unfolding create_item
  create_number-Inv s k key free h =
      let (s1, item) = create_item ext s (value (pos 1)) 8 number minus_one in
      let p = create-Pending s (value (pos 1)) 8 number minus_one refl h in
      elim (Option-cases (tr_find_node s.tree k)) [
        | inl absent ↦ rw absent (
            subst (λ o. Inv (destroy_old ext (record s1 { tree = (tr_insert s.tree k item).0 }) o))
              ((find-insert s.tree k k item h.sound (IsKey-Below k key)).1 ∙ free)
              (insert-Inv s1 k item key p))
        | inr (path, there) ↦
            let node_there : is_some (tr_find_node s.tree k) ≡ true = rw there refl in
            rw there (record {
              sound = store-IsSound s.tree k (some item) h.sound;
              items = store-Every NotNul IsTagged s.tree k (some item) p.tagged h.items;
              counted = omega (
                arith,
                p.counted,
                weigh-store one s.tree k (some item) node_there,
                ap (weight one) free,
              );
              compressed = omega (
                arith,
                p.compressed,
                weigh-store lzf_one s.tree k (some item) node_there,
                ap (weight lzf_one) free,
              );
            })
      ]
