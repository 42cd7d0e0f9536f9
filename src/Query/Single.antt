-- ===== src/Query/Single.antt =====
-- src/query.c: the handlers of the queries on a single key, SET, TTL, GET, DEL, INC, DEC, LOCK,
-- UNLOCK and META.
use gibson_mastter.Base.{
  ℕ, ◌+◌, Option, none, some, List, Bool, false, if◌then◌else◌, length, is_some, leb, not, codes,
  take, key_eq,
}
use gibson_mastter.Base.Int.{ℤ, pos, ◌-ℤ◌, lt_ℤ, le_ℤ, sub_ℕ}
use gibson_mastter.Trie.{store, tr_insert, tr_find, tr_find_node}
use gibson_mastter.Number.{parse_long}
use gibson_mastter.Item.{
  Item, Payload, value, Encoding, plain, lzf, number, item_is_locked, stored_ttl, number_of,
  bytes_of,
}
use gibson_mastter.Server.{
  External, Server, create_item, destroy_item, is_node_still_valid, is_item_still_valid,
}
use gibson_mastter.Request.{least, parse_key, parse_key_value, parse_ttl_key_value}
use gibson_mastter.Reply.{
  Reply, err, err_not_found, err_nan, err_mem, err_locked, ok, val, enqueue_code, enqueue_item,
  enqueue_number, encoding_number,
}
use gibson_mastter.Query.{Answer, with_item, accessed, add_long, single_set, minus_one}

-- A pointer to an item, locked.
abbrev pub held : Option Item → ℕ → Bool
held none now = false
held (some item) now = item_is_locked item now

-- `item->last_access_time = item->time = server->stats.time`, and the ttl
abbrev pub renewed : Server → Item → ℤ → Item
renewed s item ttl = record item {
  last_access_time = s.stats.now;
  time = s.stats.now;
  ttl = stored_ttl s.limits.maxitemttl ttl;
}

-- `item->time = server->stats.time`, and the lock
abbrev pub locked : Server → Item → ℤ → Item
locked s item locktime = record item { time = s.stats.now; lock = locktime }

-- `node->data = NULL`
abbrev pub without_node : Server → List ℕ → Server
without_node s k = record s { tree = store s.tree k none }

-- The item with the number `n`.
abbrev pub with_number : Item → ℤ → Item
with_number item n = record item { content = value n; encoding = number; size = 8 }

-- `server->stats.memused = zmem_used()`
abbrev pub measured : External → Server → Server
measured ext s = record s {
  readings = s.readings + 1;
  stats = record s.stats { memused = ext.zmem_used s.readings };
}

-- strncmp( m, name, min( mlen, strlen( name ) ) ) == 0
abbrev pub names : List ℕ → List ℕ → Bool
names m name = let n = least (length m) (length name) in key_eq (take n m) (take n name)

-- gbGetItemMeta; the text `"size"` and so on are the names
unfoldable pub get_item_meta : Item → ℕ → List ℕ → Option ℤ
get_item_meta item now m =
    if names m (codes "size")
    then some (pos item.size)
    else if names m (codes "encoding")
    then some (pos (encoding_number item.encoding))
    else if names m (codes "access")
    then some (pos item.last_access_time)
    else if names m (codes "created")
    then some (pos item.time)
    else if names m (codes "ttl")
    then some item.ttl
    else if names m (codes "left")
    then some (if le_ℤ item.ttl (pos 0) then minus_one else item.ttl -ℤ sub_ℕ now item.time)
    else if names m (codes "lock")
    then some item.lock
    else none

abbrev pub meta_reply : Option ℤ → Reply
meta_reply none = enqueue_code err
meta_reply (some v) = enqueue_number v

abbrev pub show : External → Server → Item → Reply
show ext s item = enqueue_item ext s.limits.maxrequestsize val item

module _ (ext : External) where
  -- The branch of gbQueryIncDecHandler where the item is there and free: `item` has been accessed,
  -- and its data are the first argument, or the number in them.
  abbrev pub step_parsed : Option ℤ → Server → List ℕ → Item → ℤ → Answer
  step_parsed none s k item delta = (with_item s k item, enqueue_code err_nan)
  step_parsed (some n) s k item delta =
      let item' = with_number item (add_long n delta) in
      (with_item (measured ext s) k item', show ext s item')

  abbrev pub step_number : Encoding → Payload → Server → List ℕ → Item → ℤ → Answer
  step_number number content s k item delta =
      let item' = record item { content = value (add_long (number_of content) delta) } in
      (with_item s k item', show ext s item')
  step_number plain content s k item delta =
      step_parsed (parse_long (bytes_of content)) s k item delta
  step_number lzf content s k item delta = (with_item s k item, enqueue_code err_nan)

  -- The new item of SET, with its ttl.
  abbrev pub set_ttl : Server × Item → List ℕ → ℤ → Answer
  set_ttl (s, item) k ttl =
      let item' = record item { time = s.stats.now; ttl = stored_ttl s.limits.maxitemttl ttl } in
      if lt_ℤ (pos 0) ttl then (with_item s k item', show ext s item') else (s, show ext s item)

  -- gbQuerySetHandler
  unfoldable pub query_set : Server → List ℕ → ℕ → Answer
  query_set s mem size =
      if leb s.stats.memused s.limits.maxmem
      then elim (parse_ttl_key_value s.limits mem size) [
        | none ↦ (s, enqueue_code err)
        | some (t, k, v) ↦ elim (parse_long t) [
          | none ↦ (s, enqueue_code err_nan)
          | some ttl ↦
              if held (tr_find s.tree k) s.stats.now
              then (s, enqueue_code err_locked)
              else set_ttl (single_set ext s v k) k ttl
        ]
      ]
      else (s, enqueue_code err_mem)

  -- The branches of gbQueryTtlHandler and of gbQueryLockHandler where the item is there, with the
  -- number in the request.
  abbrev pub renew : Option ℤ → Server → List ℕ → Item → Answer
  renew none s k item = (s, enqueue_code err_nan)
  renew (some ttl) s k item = (with_item s k (renewed s item ttl), enqueue_code ok)

  abbrev pub take_lock : Option ℤ → Server → List ℕ → Item → Answer
  take_lock none s k item = (s, enqueue_code err_nan)
  take_lock (some locktime) s k item =
      if item_is_locked item s.stats.now
      then (with_item s k (accessed s item), enqueue_code err_locked)
      else (with_item s k (locked s (accessed s item) locktime), enqueue_code ok)

  -- gbQueryTtlHandler
  unfoldable pub query_ttl : Server → List ℕ → ℕ → Answer
  query_ttl s mem size = elim (parse_key_value s.limits mem size) [
    | none ↦ (s, enqueue_code err)
    | some (k, v) ↦ elim (tr_find s.tree k) [
      | none ↦ (s, enqueue_code err_not_found)
      | some item ↦
          let (valid, s') = is_item_still_valid ext s item k in
          let expired : Answer = (s', enqueue_code err_not_found) in
          if valid then renew (parse_long v) s' k item else expired
    ]
  ]

  -- gbQueryGetHandler
  unfoldable pub query_get : Server → List ℕ → ℕ → Answer
  query_get s mem size = elim (parse_key s.limits mem size) [
    | none ↦ (s, enqueue_code err)
    | some k ↦ elim (tr_find s.tree k) [
      | none ↦ (s, enqueue_code err_not_found)
      | some item ↦
          let (valid, s') = is_node_still_valid ext s k item in
          if valid
          then (with_item s' k (accessed s' item), show ext s' (accessed s' item))
          else (s', enqueue_code err_not_found)
    ]
  ]

  -- gbQueryDelHandler
  unfoldable pub query_del : Server → List ℕ → ℕ → Answer
  query_del s mem size = elim (parse_key s.limits mem size) [
    | none ↦ (s, enqueue_code err)
    | some k ↦ elim (tr_find s.tree k) [
      | none ↦ (s, enqueue_code err_not_found)
      | some item ↦
          let (valid, s') = is_node_still_valid ext s k item in
          if item_is_locked item s.stats.now
          then (s, enqueue_code err_locked)
          else if valid
          then (without_node (destroy_item ext s' item) k, enqueue_code ok)
          else (s', enqueue_code err_not_found)
    ]
  ]

  -- The new item of INC and DEC, put in the node of the key or inserted under it.
  abbrev pub create_number : Server → List ℕ → Answer
  create_number s k =
      let (s1, item) = create_item ext s (value (pos 1)) 8 number minus_one in
      let tree =
        if is_some (tr_find_node s1.tree k)
        then store s1.tree k (some item)
        else (tr_insert s1.tree k item).0 in
      (record s1 { tree = tree }, show ext s1 item)

  -- gbQueryIncDecHandler, with the delta 1 or -1
  unfoldable pub query_inc_dec : ℤ → Server → List ℕ → ℕ → Answer
  query_inc_dec delta s mem size = elim (parse_key s.limits mem size) [
    | none ↦ (s, enqueue_code err)
    | some k ↦ elim (tr_find s.tree k) [
      | none ↦ create_number s k
      | some item ↦
          let (valid, s') = is_node_still_valid ext s k item in
          if not valid
          then (s', enqueue_code err_not_found)
          else if item_is_locked item s'.stats.now
          then (s', enqueue_code err_locked)
          else step_number item.encoding item.content s' k (accessed s' item) delta
    ]
  ]

  -- gbQueryLockHandler
  unfoldable pub query_lock : Server → List ℕ → ℕ → Answer
  query_lock s mem size = elim (parse_key_value s.limits mem size) [
    | none ↦ (s, enqueue_code err)
    | some (k, v) ↦ elim (tr_find s.tree k) [
      | none ↦ (s, enqueue_code err_not_found)
      | some item ↦
          let (valid, s') = is_node_still_valid ext s k item in
          let expired : Answer = (s', enqueue_code err_not_found) in
          if valid then take_lock (parse_long v) s' k item else expired
    ]
  ]

  -- gbQueryUnlockHandler
  unfoldable pub query_unlock : Server → List ℕ → ℕ → Answer
  query_unlock s mem size = elim (parse_key s.limits mem size) [
    | none ↦ (s, enqueue_code err)
    | some k ↦ elim (tr_find s.tree k) [
      | none ↦ (s, enqueue_code err_not_found)
      | some item ↦
          let (valid, s') = is_node_still_valid ext s k item in
          if valid
          then (with_item s' k (record (accessed s' item) { lock = pos 0 }), enqueue_code ok)
          else (s', enqueue_code err_not_found)
    ]
  ]

  -- gbQueryMetaHandler
  unfoldable pub query_meta : Server → List ℕ → ℕ → Answer
  query_meta s mem size = elim (parse_key_value s.limits mem size) [
    | none ↦ (s, enqueue_code err)
    | some (k, m) ↦ elim (tr_find s.tree k) [
      | none ↦ (s, enqueue_code err_not_found)
      | some item ↦
          let (valid, s') = is_node_still_valid ext s k item in
          if valid
          then (with_item s' k (accessed s' item), meta_reply (get_item_meta item s'.stats.now m))
          else (s', enqueue_code err_not_found)
    ]
  ]
