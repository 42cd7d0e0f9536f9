-- ===== src/Query/UntouchedMulti.antt =====
-- src/query.c: the queries on a prefix, KEYS and STATS leave the surroundings alone.
use gibson_mastter.Base.{
  ℕ, ◌+◌, refl, ◌∙◌, Option, none, some, List, [], ◌∷◌, not, leb, ◌==◌, if◌then◌else◌, length,
  option_rule, if_rule,
}
use gibson_mastter.Base.Int.{ℤ, pos}
use gibson_mastter.Trie.{Trie, tr_find, tr_find_node}
use gibson_mastter.Trie.Recurse.{c_str, recurse_rule, call, at_limit, tr_search, tr_search_callback}
use gibson_mastter.Number.{parse_long}
use gibson_mastter.Item.{Item, item_is_locked}
use gibson_mastter.Server.{External, Server, destroy_item, is_node_still_valid, is_item_still_valid}
use gibson_mastter.Request.{parse_key, parse_key_value, parse_key_and_optional_value}
use gibson_mastter.Query.{
  minus_one, accessed, with_item, create_volatile_item, destroy_volatile_item,
}
use gibson_mastter.Query.Multi.{
  query_multi_set, query_multi_ttl, query_multi_get, query_multi_lock, query_multi_del,
  query_multi_inc_dec, query_multi_unlock, query_count, Callback, tree_of, check_found,
  multi_get_found, multi_set_callback, multi_ttl_callback, multi_del_callback,
  multi_inc_dec_callback, multi_lock_callback, multi_unlock_callback, count_callback,
}
use gibson_mastter.Query.Listing.{
  number_keys, destroy_all, append_stats, Stat, long, text, query_keys, query_stats, stats_of,
  pool_after,
}
use gibson_mastter.Query.Untouched.{
  surroundings, Same, Leaves, node_valid-Same, item_valid-Same, single_set-Same,
  multi_step_number-Same,
}

-- A callback that leaves them alone, and a search with it.
abbrev pub Keeps : Callback → Type 0
Keeps callback = (s : Server) (k node : List ℕ) (item : Item) → Same s (callback s k node item).1

abbrev pub Ends : Server → ℕ × Server → Type 0
Ends s r = Same s r.1

pub search-Same :
    (callback : Callback) (s : Server) (prefix : List ℕ) (limit : ℤ)
    → Keeps callback
    → Same s (tr_search_callback tree_of callback s prefix limit).1
unfolding tr_search_callback call
search-Same callback s prefix limit keeps =
    option_rule (Ends s) (tr_find_node s.tree prefix) _ _ refl λ start _.
      recurse_rule (λ r. at_limit limit r.0) (call tree_of callback) (Ends s) each start prefix
        (0, s) refl
  where
    each :
        (path : List ℕ) (t : Trie Item) (r : ℕ × Server)
        → Ends s r
        → Ends s (call tree_of callback path t r)
    each path t (total, s') e =
        option_rule (Ends s) (tr_find s'.tree path) _ _ e
          λ item _. keeps s' (c_str path) path item ∙ e

module _ (ext : External) where
  pub multi_ttl-Keeps : (ttl : ℤ) → Keeps (multi_ttl_callback ext ttl)
  unfolding multi_ttl_callback surroundings
  multi_ttl-Keeps ttl s k node item =
      let e = item_valid-Same ext s item k in
      if_rule (Ends s) (not (is_item_still_valid ext s item k).0) _ _ (λ _. e) (λ _. e)

  pub count-Keeps : Keeps (count_callback ext)
  unfolding count_callback surroundings
  count-Keeps s k node item =
      let e = item_valid-Same ext s item k in
      if_rule (Ends s) (is_item_still_valid ext s item k).0 _ _ (λ _. e) (λ _. e)

  pub multi_unlock-Keeps : Keeps (multi_unlock_callback ext)
  unfolding multi_unlock_callback surroundings
  multi_unlock-Keeps s k node item =
      let e = item_valid-Same ext s item k in
      if_rule (Ends s) (is_item_still_valid ext s item k).0 _ _ (λ _. e) (λ _. e)

  pub multi_lock-Keeps : (locktime : ℤ) → Keeps (multi_lock_callback ext locktime)
  unfolding multi_lock_callback surroundings
  multi_lock-Keeps locktime s k node item =
      let e = item_valid-Same ext s item k in
      let (valid, s') = is_item_still_valid ext s item k in
      if_rule (Ends s) (not valid) _ _ (λ _. e)
        λ _. if_rule (Ends s) (item_is_locked item s'.stats.now) _ _ (λ _. e) (λ _. e)

  pub multi_del-Keeps : Keeps (multi_del_callback ext)
  unfolding multi_del_callback destroy_item surroundings
  multi_del-Keeps s k node item =
      let e = node_valid-Same ext s node item in
      if_rule (Ends s) (item_is_locked item s.stats.now) _ _ (λ _. refl)
        λ _. if_rule (Ends s) (is_node_still_valid ext s node item).0 _ _ (λ _. e) (λ _. e)

  pub multi_set-Keeps : (v : List ℕ) → Keeps (multi_set_callback ext v)
  unfolding multi_set_callback
  multi_set-Keeps v s k node item =
      let e = item_valid-Same ext s item k in
      let (valid, s') = is_item_still_valid ext s item k in
      if_rule (Ends s) (item_is_locked item s.stats.now) _ _ (λ _. refl)
        λ _. if_rule (Ends s) (not valid) _ _ (λ _. e) (λ _. single_set-Same ext s' v k ∙ e)

  pub multi_inc_dec-Keeps : (delta : ℤ) → Keeps (multi_inc_dec_callback ext delta)
  unfolding multi_inc_dec_callback
  multi_inc_dec-Keeps delta s k node item =
      let e = item_valid-Same ext s item k in
      let (valid, s') = is_item_still_valid ext s item k in
      if_rule (Ends s) (item_is_locked item s.stats.now) _ _ (λ _. refl)
        λ _.
          if_rule (Ends s) (not valid) _ _ (λ _. e)
            (λ _.
              multi_step_number-Same ext item.encoding item.content s' node (accessed s' item) delta
              ∙ e)

  pub check_found-Same :
      (es : List (List ℕ × Item)) (ks : List (List ℕ)) (s : Server)
      → Same s (check_found ext s ks es).0
  unfolding check_found
  check_found-Same es [] s = refl
  check_found-Same [] (k ∷ ks) s = refl
  check_found-Same ((node, item) ∷ es) (k ∷ ks) s =
      let (valid, s1) = is_item_still_valid ext s item k in
      let e = item_valid-Same ext s item k in
      let s2 = if valid then with_item s1 node (accessed s1 item) else s1 in
      let e2 : Same s s2 = unfold surroundings in if_rule (Same s) valid _ _ (λ _. e) (λ _. e) in
      let rest = check_found-Same es ks s2 ∙ e2 in
      if_rule (λ (r : Server × ℕ × List (Option Item)). Same s r.0) valid _ _ (λ _. rest)
        (λ _. rest)

  pub multi_get_found-Same :
      (s : Server) (expr : List ℕ) (limit : ℤ) → Leaves s (multi_get_found ext s expr limit)
  unfolding multi_get_found
  multi_get_found-Same s expr limit =
      let f = tr_search s.tree expr limit in
      let kept = check_found-Same f.found f.keys s in
      if_rule (Leaves s) (f.total == 0) _ _ (λ _. refl)
        λ _.
          if_rule (Leaves s) ((check_found ext s f.keys f.found).1 == 0) _ _ (λ _. kept) (λ _. kept)

pub number_keys-Same : (ks : List (List ℕ)) (s : Server) (i : ℕ) → Same s (number_keys s i ks).0
unfolding number_keys create_volatile_item
number_keys-Same [] s i = refl
number_keys-Same (k ∷ ks) s i = number_keys-Same ks _ (i + 1) ∙ (unfold surroundings in refl)

pub append_stats-Same : (es : List (List ℕ × Stat)) (s : Server) → Same s (append_stats s es).0
unfolding append_stats create_volatile_item
append_stats-Same [] s = refl
append_stats-Same ((key, long n) ∷ es) s = append_stats-Same es _ ∙ (unfold surroundings in refl)
append_stats-Same ((key, text t) ∷ es) s = append_stats-Same es _ ∙ (unfold surroundings in refl)

pub destroy_all-Same : (vs : List (Option Item)) (s : Server) → Same s (destroy_all s vs)
unfolding destroy_all destroy_volatile_item
destroy_all-Same [] s = refl
destroy_all-Same (none ∷ vs) s = refl
destroy_all-Same (some item ∷ vs) s = destroy_all-Same vs _ ∙ (unfold surroundings in refl)

module _ (ext : External) (s : Server) (mem : List ℕ) (size : ℕ) where
  pub query_multi_set-Same : Leaves s (query_multi_set ext s mem size)
  unfolding query_multi_set
  query_multi_set-Same =
      if_rule (Leaves s) (leb s.stats.memused s.limits.maxmem) _ _
        (λ _. option_rule (Leaves s) (parse_key_value s.limits mem size) _ _ refl λ kv _.
          search-Same (multi_set_callback ext kv.1) s kv.0 minus_one (multi_set-Keeps ext kv.1))
        (λ _. refl)

  pub query_multi_ttl-Same : Leaves s (query_multi_ttl ext s mem size)
  unfolding query_multi_ttl
  query_multi_ttl-Same = option_rule (Leaves s) (parse_key_value s.limits mem size) _ _ refl λ kv _.
      option_rule (Leaves s) (parse_long kv.1) _ _ refl
        λ ttl _. search-Same (multi_ttl_callback ext ttl) s kv.0 minus_one (multi_ttl-Keeps ext ttl)

  pub query_multi_lock-Same : Leaves s (query_multi_lock ext s mem size)
  unfolding query_multi_lock
  query_multi_lock-Same =
      option_rule (Leaves s) (parse_key_value s.limits mem size) _ _ refl λ kv _.
        option_rule (Leaves s) (parse_long kv.1) _ _ refl λ locktime _.
          search-Same (multi_lock_callback ext locktime) s kv.0 minus_one
            (multi_lock-Keeps ext locktime)

  pub query_multi_del-Same : Leaves s (query_multi_del ext s mem size)
  unfolding query_multi_del
  query_multi_del-Same =
      option_rule (Leaves s) (parse_key s.limits mem size) _ _ refl
        λ k _. search-Same (multi_del_callback ext) s k (pos 0) (multi_del-Keeps ext)

  pub query_multi_inc_dec-Same : (delta : ℤ) → Leaves s (query_multi_inc_dec ext delta s mem size)
  unfolding query_multi_inc_dec
  query_multi_inc_dec-Same delta =
      option_rule (Leaves s) (parse_key s.limits mem size) _ _ refl λ k _.
        search-Same (multi_inc_dec_callback ext delta) s k minus_one (multi_inc_dec-Keeps ext delta)

  pub query_multi_unlock-Same : Leaves s (query_multi_unlock ext s mem size)
  unfolding query_multi_unlock
  query_multi_unlock-Same =
      option_rule (Leaves s) (parse_key s.limits mem size) _ _ refl
        λ k _. search-Same (multi_unlock_callback ext) s k minus_one (multi_unlock-Keeps ext)

  pub query_count-Same : Leaves s (query_count ext s mem size)
  unfolding query_count
  query_count-Same =
      option_rule (Leaves s) (parse_key s.limits mem size) _ _ refl
        λ k _. search-Same (count_callback ext) s k minus_one (count-Keeps ext)

  pub query_multi_get-Same : Leaves s (query_multi_get ext s mem size)
  unfolding query_multi_get
  query_multi_get-Same =
      option_rule (Leaves s) (parse_key_and_optional_value s.limits mem size) _ _ refl λ kv _.
        let all = multi_get_found-Same ext s kv.0 minus_one in
        option_rule (Leaves s) kv.1 _ _ all λ v _.
          if_rule (Leaves s) (length v == 0) _ _ (λ _. all)
            λ _.
              option_rule (Leaves s) (parse_long v) _ _ refl
                λ limit _. multi_get_found-Same ext s kv.0 limit

  pub query_keys-Same : Leaves s (query_keys ext s mem size)
  unfolding query_keys
  query_keys-Same = option_rule (Leaves s) (parse_key s.limits mem size) _ _ refl λ expr _.
      let f = tr_search s.tree expr minus_one in
      let (s', indices, items) = number_keys s 0 f.keys in
      if_rule (Leaves s) (f.total == 0) _ _ (λ _. refl)
        (λ _. destroy_all-Same items s' ∙ number_keys-Same f.keys s 0)

  pub query_stats-Same : Leaves s (query_stats ext s)
  unfolding query_stats
  query_stats-Same = destroy_all-Same _ _ ∙ append_stats-Same (stats_of ext s (pool_after s)) s
