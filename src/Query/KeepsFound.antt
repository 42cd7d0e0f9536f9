-- ===== src/Query/KeepsFound.antt =====
-- src/query.c: MGET, KEYS and STATS keep the invariant.
use gibson_mastter.Base.{
  option_rule, if_rule, ℕ, ◌+◌, ◌≡◌, refl, sym, subst, ap, ◌∙◌, inl, inr, Option, none, some, List,
  [], ◌∷◌, map, true, ◌==◌, length,
}
use gibson_mastter.Base.Int.{ℤ}
use gibson_mastter.Trie.{tr_find, store}
use gibson_mastter.Trie.Recurse.{c_str, tr_search}
use gibson_mastter.Trie.Ready.{Ready, stored-All, search-Ready, search-names}
use gibson_mastter.Number.{parse_long}
use gibson_mastter.Item.{Item, is_expired}
use gibson_mastter.Server.{External, Server, destroy_item, is_item_still_valid}
use gibson_mastter.Pool.{Pool}
use gibson_mastter.Request.{parse_key, parse_key_and_optional_value}
use gibson_mastter.Query.{
  minus_one, accessed, with_item, create_volatile_item, destroy_volatile_item,
}
use gibson_mastter.Query.Multi.{check_found, query_multi_get, multi_get_found}
use gibson_mastter.Query.Listing.{
  number_keys, destroy_all, append_stats, Stat, long, text, query_keys, query_stats, stats_of,
  pool_after,
}
use gibson_mastter.Query.Invariant.{Inv, with_item-Inv, old-IsTagged, old-NotNul}
use gibson_mastter.Query.Cases.{item_valid, remove_found}
use gibson_mastter.Query.Keeps.{Leaves}
use gibson_mastter.Query.KeepsMulti.{c_str-IsKey}

pool-Inv : (s : Server) (p : Pool) → Inv s → Inv (record s { item_pool = p })
pool-Inv s p h = record {
  sound = h.sound;
  items = h.items;
  counted = h.counted;
  compressed = h.compressed;
}

module _ (ext : External) where
  -- An expired item leaves the tree without it.
  expired_tree :
      (s : Server) (k : List ℕ) (item : Item)
      → tr_find s.tree k ≡ some item
      → is_expired item s.stats.now ≡ true
      → (is_item_still_valid ext s item k).1.tree ≡ store s.tree k none
  unfolding is_item_still_valid destroy_item
  expired_tree s k item found e = rw e (remove_found s k item found)

  check_found-Inv :
      (es : List (List ℕ × Item)) (ks : List (List ℕ)) (s : Server)
      → ks ≡ map (λ e. c_str e.0) es
      → Ready s.tree es
      → Inv s
      → Inv (check_found ext s ks es).0
  unfolding check_found
  check_found-Inv [] [] s same ready h = h
  check_found-Inv [] (k ∷ ks) s same ready h = cc
  check_found-Inv (e ∷ es) [] s same ready h = cc
  check_found-Inv ((node, item) ∷ es) (k ∷ ks) s same ((found, others), (fresh, unique)) h =
      let key : k ≡ node = cc (same, c_str-IsKey node (old-NotNul s node found h)) in
      let same' : ks ≡ map (λ e. c_str e.0) es = cc same in
      rw key (elim (item_valid ext s node item found h) [
        | inl (_, e) ↦ rw e (
            check_found-Inv es ks (with_item s node (accessed s item)) same'
              (stored-All s.tree node (some (accessed s item)) es fresh others, unique)
              (with_item-Inv s node found h (accessed s item) (old-IsTagged s node found h) refl))
        | inr (s', expired, e, h') ↦
            let gone : s'.tree ≡ store s.tree node none =
              ap (λ r. r.1.tree) (sym e) ∙ expired_tree s node item found expired in
            rw e (
              check_found-Inv es ks s' same'
                (subst (λ t. Ready t es) (sym gone)
                  (stored-All s.tree node none es fresh others, unique))
                h')
      ])

  multi_get_found-Inv :
      (s : Server) (expr : List ℕ) (limit : ℤ) → Inv s → Inv (multi_get_found ext s expr limit).0
  unfolding multi_get_found
  multi_get_found-Inv s expr limit h =
      let f = tr_search s.tree expr limit in
      let kept =
        check_found-Inv f.found f.keys s (search-names s.tree expr limit h.sound)
          (search-Ready s.tree expr limit h.sound) h in
      if_rule Leaves (f.total == 0) _ _ (λ _. h)
        λ _. if_rule Leaves ((check_found ext s f.keys f.found).1 == 0) _ _ (λ _. kept) (λ _. kept)

  pub query_multi_get-Inv :
      (s : Server) (mem : List ℕ) (size : ℕ) → Inv s → Inv (query_multi_get ext s mem size).0
  unfolding query_multi_get
  query_multi_get-Inv s mem size h =
      option_rule Leaves (parse_key_and_optional_value s.limits mem size) _ _ h λ kv _.
        let all = multi_get_found-Inv s kv.0 minus_one h in
        option_rule Leaves kv.1 _ _ all λ v _.
          if_rule Leaves (length v == 0) _ _ (λ _. all)
            λ _.
              option_rule Leaves (parse_long v) _ _ h λ limit _. multi_get_found-Inv s kv.0 limit h

-- The volatile items are in the pool only.
number_keys-Inv : (ks : List (List ℕ)) (s : Server) (i : ℕ) → Inv s → Inv (number_keys s i ks).0
unfolding number_keys create_volatile_item
number_keys-Inv [] s i h = h
number_keys-Inv (k ∷ ks) s i h = number_keys-Inv ks _ (i + 1) (pool-Inv s _ h)

append_stats-Inv : (es : List (List ℕ × Stat)) (s : Server) → Inv s → Inv (append_stats s es).0
unfolding append_stats create_volatile_item
append_stats-Inv [] s h = h
append_stats-Inv ((key, long n) ∷ es) s h = append_stats-Inv es _ (pool-Inv s _ h)
append_stats-Inv ((key, text t) ∷ es) s h = append_stats-Inv es _ (pool-Inv s _ h)

destroy_all-Inv : (vs : List (Option Item)) (s : Server) → Inv s → Inv (destroy_all s vs)
unfolding destroy_all destroy_volatile_item
destroy_all-Inv [] s h = h
destroy_all-Inv (none ∷ vs) s h = h
destroy_all-Inv (some item ∷ vs) s h = destroy_all-Inv vs _ (pool-Inv s _ h)

module _ (ext : External) where
  pub query_keys-Inv :
      (s : Server) (mem : List ℕ) (size : ℕ) → Inv s → Inv (query_keys ext s mem size).0
  unfolding query_keys
  query_keys-Inv s mem size h = option_rule Leaves (parse_key s.limits mem size) _ _ h λ expr _.
      let f = tr_search s.tree expr minus_one in
      let (s', indices, items) = number_keys s 0 f.keys in
      if_rule Leaves (f.total == 0) _ _ (λ _. h)
        (λ _. destroy_all-Inv items s' (number_keys-Inv f.keys s 0 h))

  pub query_stats-Inv : (s : Server) → Inv s → Inv (query_stats ext s).0
  unfolding query_stats
  query_stats-Inv s h = destroy_all-Inv _ _ (append_stats-Inv (stats_of ext s (pool_after s)) s h)
