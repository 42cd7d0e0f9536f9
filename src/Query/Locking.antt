-- ===== src/Query/Locking.antt =====
-- src/query.c: what GET and DEL answer after LOCK, as time goes by.
use gibson_mastter.Base.{
  ℕ, ◌+◌, ◌≡◌, refl, ◌∙◌, none, some, List, Bool, true, false, ltb, if◌then◌else◌, arith,
  key_eq_refl,
}
use gibson_mastter.Base.Int.{pos, le_ℤ}
use gibson_mastter.Trie.{tr_find}
use gibson_mastter.Trie.Find.{find-store, find-node}
use gibson_mastter.Number.{parse_long}
use gibson_mastter.Item.{Item, item_is_locked, is_expired}
use gibson_mastter.Server.{External, Server, is_node_still_valid}
use gibson_mastter.Request.{parse_key, parse_key_value}
use gibson_mastter.Reply.{ok, err_locked, enqueue_code, enqueue_item, shown}
use gibson_mastter.Query.{with_item, accessed}
use gibson_mastter.Query.Single.{query_get, query_del, query_lock, locked, show}
use gibson_mastter.Query.Lifetime.{later, get-found}
use gibson_mastter.Query.Effects.{find-del}

-- An item without a positive ttl does not expire.
persists : (item : Item) (now : ℕ) → le_ℤ item.ttl (pos 0) ≡ true → is_expired item now ≡ false
unfolding is_expired
persists item now h = ground (arith, h)

-- A lock of `n` seconds holds for `n` seconds.
lock-holds :
    (item : Item) (now n e : ℕ)
    → item.time ≡ now
    → item.lock ≡ pos n
    → item_is_locked item (now + e) ≡ ltb e n
unfolding item_is_locked
lock-holds item now n e time lock = rw (time, lock) (ground arith)

module _ (ext : External) where
  lock-step :
      (s : Server) (mem : List ℕ) (size n : ℕ) (k v : List ℕ) (item : Item)
      → parse_key_value s.limits mem size ≡ some (k, v)
      → parse_long v ≡ some (pos n)
      → tr_find s.tree k ≡ some item
      → is_expired item s.stats.now ≡ false
      → item_is_locked item s.stats.now ≡ false
      → query_lock ext s mem size
        ≡ (with_item s k (locked s (accessed s item) (pos n)), enqueue_code ok)
  unfolding query_lock is_node_still_valid item_is_locked
  lock-step s mem size n k v item parsed number found alive free =
      rw (parsed, query_lock) (rw found (rw alive (rw number (rw free refl))))

  del-locked :
      (s : Server) (mem : List ℕ) (size : ℕ) (k : List ℕ) (item : Item)
      → parse_key s.limits mem size ≡ some k
      → tr_find s.tree k ≡ some item
      → is_expired item s.stats.now ≡ false
      → item_is_locked item s.stats.now ≡ true
      → query_del ext s mem size ≡ (s, enqueue_code err_locked)
  unfolding query_del is_node_still_valid
  del-locked s mem size k item parsed found alive closed =
      rw (parsed, query_del) (rw found (rw closed refl))

  -- DEL of an item that does not expire, by what its lock is.
  del-either :
      (b : Bool) (s : Server) (mem : List ℕ) (size : ℕ) (k : List ℕ) (item : Item)
      → parse_key s.limits mem size ≡ some k
      → tr_find s.tree k ≡ some item
      → is_expired item s.stats.now ≡ false
      → item_is_locked item s.stats.now ≡ b
      → let (s', r) = query_del ext s mem size in
        (r ≡ enqueue_code (if b then err_locked else ok))
        × (tr_find s'.tree k ≡ (if b then some item else none))
  del-either true s mem size k item parsed found alive closed =
      rw (del-locked s mem size k item parsed found alive closed) (refl, found)
  del-either false s mem size k item parsed found alive free =
      let deleted = find-del ext s mem size k k item parsed found free in
      (deleted.1 ∙ rw alive refl, deleted.0 ∙ rw (key_eq_refl k) refl)

  -- A lock does not change what is shown of an item.
  same-show :
      (s : Server) (item : Item) (n e : ℕ) (k : List ℕ)
      → let item' = locked s (accessed s item) (pos n) in
        show ext (later e (with_item s k item')) item' ≡ show ext s item
  unfolding enqueue_item shown
  same-show s item n e k = refl

  -- A LOCK of n seconds that is let through, of an item without a positive ttl that is not locked, and
  -- then, e seconds later with no request between them, a GET or a DEL of the key. GET answers the item
  -- all the same. DEL answers "locked" and leaves the item, with its lock, while e is less than n; from
  -- then on it answers "ok" and the key finds nothing.
  pub lock-del :
      (s : Server) (mem mem' : List ℕ) (size size' n e : ℕ) (k v : List ℕ) (item : Item)
      → parse_key_value s.limits mem size ≡ some (k, v)
      → parse_long v ≡ some (pos n)
      → tr_find s.tree k ≡ some item
      → le_ℤ item.ttl (pos 0) ≡ true
      → item_is_locked item s.stats.now ≡ false
      → parse_key s.limits mem' size' ≡ some k
      → let s1 = later e (query_lock ext s mem size).0 in
        ((query_get ext s1 mem' size').1 ≡ show ext s item)
        × ((query_del ext s1 mem' size').1 ≡ enqueue_code (if ltb e n then err_locked else ok))
        × (tr_find (query_del ext s1 mem' size').0.tree k
            ≡ (if ltb e n then some (locked s (accessed s item) (pos n)) else none))
  lock-del s mem mem' size size' n e k v item parsed number found lasting free parsed' =
      let item' = locked s (accessed s item) (pos n) in
      let s1 = later e (with_item s k item') in
      let found' : tr_find s1.tree k ≡ some item' =
        ground (
          arith,
          find-store s.tree k k (some item'),
          key_eq_refl k,
          find-node s.tree k item found,
        ) in
      let alive = persists item' (s.stats.now + e) lasting in
      let holds = lock-holds item' s.stats.now n e refl refl in
      let deleted = del-either (ltb e n) s1 mem' size' k item' parsed' found' alive holds in
      rw
        (lock-step s mem size n k v item parsed number found (persists item s.stats.now lasting)
          free)
        (
          get-found ext s1 mem' size' k item' parsed' found' ∙ rw alive (same-show s item n e k),
          deleted.0,
          deleted.1,
        )
