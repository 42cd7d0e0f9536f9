-- ===== src/Query/Multi.antt =====
-- src/query.c: the handlers of the queries on all keys with a prefix, MSET, MTTL, MGET, MDEL, MINC,
-- MDEC, MLOCK, MUNLOCK, COUNT and KEYS, and the callbacks that they give to the tree search.
-- A callback is given the key as a C string, the node of the item, and the item. A key of no bytes
-- is not searched for: the code asserts that, and the model takes it for the root.
use gibson_mastter.Base.{
  ℕ, ◌+◌, Option, none, some, List, [], ◌∷◌, not, ◌==◌, if◌then◌else◌, length, leb,
}
use gibson_mastter.Base.Int.{ℤ, pos}
use gibson_mastter.Trie.{Trie}
use gibson_mastter.Trie.Recurse.{tr_search, tr_search_callback}
use gibson_mastter.Number.{parse_long}
use gibson_mastter.Item.{
  Item, Payload, value, Encoding, plain, lzf, number, item_is_locked, number_of, bytes_of,
}
use gibson_mastter.Server.{External, Server, destroy_item, is_node_still_valid, is_item_still_valid}
use gibson_mastter.Request.{parse_key, parse_key_value, parse_key_and_optional_value}
use gibson_mastter.Reply.{
  err, err_not_found, err_nan, err_mem, enqueue_code, enqueue_number, enqueue_key_value_set,
}
use gibson_mastter.Query.{Answer, with_item, accessed, add_long, single_set, minus_one}
use gibson_mastter.Query.Single.{renewed, locked, without_node, with_number, measured}

abbrev pub Callback : Type 0
Callback = Server → List ℕ → List ℕ → Item → ℕ × Server

abbrev pub tree_of : Server → Trie Item
tree_of s = s.tree

abbrev pub search_with : Callback → Server → List ℕ → ℕ × Server
search_with callback s expr = tr_search_callback tree_of callback s expr minus_one

-- The reply for the number of items that were found, or that none was.
abbrev pub found_reply : ℕ × Server → Answer
found_reply (found, s) =
    (s, if found == 0 then enqueue_code err_not_found else enqueue_number (pos found))

module _ (ext : External) where
  -- gbMultiSetCallback
  unfoldable pub multi_set_callback : List ℕ → Callback
  multi_set_callback v s key node item =
      let (valid, s') = is_item_still_valid ext s item key in
      if item_is_locked item s.stats.now
      then (0, s)
      else if not valid
      then (0, s')
      else (1, (single_set ext s' v key).0)

  -- gbQueryMultiSetHandler
  unfoldable pub query_multi_set : Server → List ℕ → ℕ → Answer
  query_multi_set s mem size =
      if leb s.stats.memused s.limits.maxmem
      then elim (parse_key_value s.limits mem size) [
        | none ↦ (s, enqueue_code err)
        | some (expr, v) ↦ found_reply (search_with (multi_set_callback v) s expr)
      ]
      else (s, enqueue_code err_mem)

  -- gbMultiTtlCallback
  unfoldable pub multi_ttl_callback : ℤ → Callback
  multi_ttl_callback ttl s key node item =
      let (valid, s') = is_item_still_valid ext s item key in
      if not valid then (0, s') else (1, with_item s' node (renewed s' item ttl))

  -- gbQueryMultiTtlHandler
  unfoldable pub query_multi_ttl : Server → List ℕ → ℕ → Answer
  query_multi_ttl s mem size = elim (parse_key_value s.limits mem size) [
    | none ↦ (s, enqueue_code err)
    | some (expr, v) ↦ elim (parse_long v) [
      | none ↦ (s, enqueue_code err_nan)
      | some ttl ↦ found_reply (search_with (multi_ttl_callback ttl) s expr)
    ]
  ]

  -- The first loop of gbQueryMultiGetHandler: an expired item is dropped, its value made NULL and
  -- `found` lowered; what is left of `found`, and the values, come back.
  unfoldable pub check_found :
      Server → List (List ℕ) → List (List ℕ × Item) → Server × ℕ × List (Option Item)
  check_found s [] vs = (s, 0, [])
  check_found s (k ∷ ks) [] = (s, 0, [])
  check_found s (k ∷ ks) ((node, item) ∷ vs) =
      let (valid, s1) = is_item_still_valid ext s item k in
      let s2 = if valid then with_item s1 node (accessed s1 item) else s1 in
      let (s', found, values) = check_found s2 ks vs in
      if valid
      then (s', found + 1, some (accessed s1 item) ∷ values)
      else (s', found, none ∷ values)

  -- The part of gbQueryMultiGetHandler behind the limit.
  unfoldable pub multi_get_found : Server → List ℕ → ℤ → Answer
  multi_get_found s expr limit =
      let f = tr_search s.tree expr limit in
      let (s', found, values) = check_found s f.keys f.found in
      if f.total == 0
      then (s, enqueue_code err_not_found)
      else if found == 0
      then (s', enqueue_code err_not_found)
      else (s', enqueue_key_value_set ext s'.limits found f.keys values)

  -- gbQueryMultiGetHandler
  unfoldable pub query_multi_get : Server → List ℕ → ℕ → Answer
  query_multi_get s mem size = elim (parse_key_and_optional_value s.limits mem size) [
    | none ↦ (s, enqueue_code err)
    | some (expr, none) ↦ multi_get_found s expr minus_one
    | some (expr, some v) ↦
        if length v == 0 then multi_get_found s expr minus_one else elim (parse_long v) [
          | none ↦ (s, enqueue_code err_nan)
          | some limit ↦ multi_get_found s expr limit
        ]
  ]

  -- gbMultiDelCallback
  unfoldable pub multi_del_callback : Callback
  multi_del_callback s key node item =
      let (valid, s') = is_node_still_valid ext s node item in
      if item_is_locked item s.stats.now
      then (0, s)
      else if valid
      then (1, destroy_item ext (without_node s' node) item)
      else (0, s')

  -- gbQueryMultiDelHandler
  unfoldable pub query_multi_del : Server → List ℕ → ℕ → Answer
  query_multi_del s mem size = elim (parse_key s.limits mem size) [
    | none ↦ (s, enqueue_code err)
    | some expr ↦ found_reply (tr_search_callback tree_of multi_del_callback s expr (pos 0))
  ]

  -- The end of gbMultiIncDecCallback, on an item that has been accessed, with its encoding and its
  -- data, or the number in them.
  abbrev pub multi_step_parsed : Option ℤ → Server → List ℕ → Item → ℤ → ℕ × Server
  multi_step_parsed none s node item delta = (0, with_item s node item)
  multi_step_parsed (some n) s node item delta =
      (1, with_item (measured ext s) node (with_number item (add_long n delta)))

  abbrev pub multi_step_number : Encoding → Payload → Server → List ℕ → Item → ℤ → ℕ × Server
  multi_step_number number content s node item delta =
      (1, with_item s node (record item { content = value (add_long (number_of content) delta) }))
  multi_step_number plain content s node item delta =
      multi_step_parsed (parse_long (bytes_of content)) s node item delta
  multi_step_number lzf content s node item delta = (1, with_item s node item)

  -- gbMultiIncDecCallback
  unfoldable pub multi_inc_dec_callback : ℤ → Callback
  multi_inc_dec_callback delta s key node item =
      let (valid, s') = is_item_still_valid ext s item key in
      if item_is_locked item s.stats.now
      then (0, s)
      else if not valid
      then (0, s')
      else multi_step_number item.encoding item.content s' node (accessed s' item) delta

  -- gbQueryMultiIncDecHandler
  unfoldable pub query_multi_inc_dec : ℤ → Server → List ℕ → ℕ → Answer
  query_multi_inc_dec delta s mem size = elim (parse_key s.limits mem size) [
    | none ↦ (s, enqueue_code err)
    | some expr ↦ found_reply (search_with (multi_inc_dec_callback delta) s expr)
  ]

  -- gbMultiLockCallback
  unfoldable pub multi_lock_callback : ℤ → Callback
  multi_lock_callback locktime s key node item =
      let (valid, s') = is_item_still_valid ext s item key in
      if not valid
      then (0, s')
      else if item_is_locked item s'.stats.now
      then (0, s')
      else (1, with_item s' node (locked s' (accessed s' item) locktime))

  -- gbQueryMultiLockHandler
  unfoldable pub query_multi_lock : Server → List ℕ → ℕ → Answer
  query_multi_lock s mem size = elim (parse_key_value s.limits mem size) [
    | none ↦ (s, enqueue_code err)
    | some (expr, v) ↦ elim (parse_long v) [
      | none ↦ (s, enqueue_code err_nan)
      | some locktime ↦ found_reply (search_with (multi_lock_callback locktime) s expr)
    ]
  ]

  -- gbMultiUnlockCallback
  unfoldable pub multi_unlock_callback : Callback
  multi_unlock_callback s key node item =
      let (valid, s') = is_item_still_valid ext s item key in
      if valid then (1, with_item s' node (record (accessed s' item) { lock = pos 0 })) else (0, s')

  -- gbQueryMultiUnlockHandler
  unfoldable pub query_multi_unlock : Server → List ℕ → ℕ → Answer
  query_multi_unlock s mem size = elim (parse_key s.limits mem size) [
    | none ↦ (s, enqueue_code err)
    | some expr ↦ found_reply (search_with multi_unlock_callback s expr)
  ]

  -- gbCountCallback
  unfoldable pub count_callback : Callback
  count_callback s key node item =
      let (valid, s') = is_item_still_valid ext s item key in
      if valid then (1, with_item s' node (accessed s' item)) else (0, s')

  -- gbQueryCountHandler
  unfoldable pub query_count : Server → List ℕ → ℕ → Answer
  query_count s mem size = elim (parse_key s.limits mem size) [
    | none ↦ (s, enqueue_code err)
    | some expr ↦
        let (found, s') = search_with count_callback s expr in (s', enqueue_number (pos found))
  ]
