-- ===== src/Query/Listing.antt =====
-- src/query.c: the handlers that answer with volatile items, KEYS and STATS.
use gibson_mastter.Base.{
  ℕ, zero, suc, ◌+◌, ◌/◌, ◌%◌, ◌^◌, Option, none, some, List, [], ◌∷◌, ◌==◌, if◌then◌else◌, length,
  codes,
}
use gibson_mastter.Base.Int.{ℤ, pos, wrap}
use gibson_mastter.Trie.Recurse.{tr_search}
use gibson_mastter.Item.{Item, buffer, value, plain, number}
use gibson_mastter.Pool.{Pool}
use gibson_mastter.Server.{External, Server}
use gibson_mastter.Request.{parse_key}
use gibson_mastter.Reply.{err, err_not_found, enqueue_code, enqueue_key_value_set}
use gibson_mastter.Query.{Answer, minus_one, create_volatile_item, destroy_volatile_item}

-- sprintf "%lu": the decimal digits of a 64-bit number, of which there are 20 at most.
unfoldable pub digits_of : ℕ → ℕ → List ℕ → List ℕ
digits_of zero n out = out
digits_of (suc fuel) n out =
    let out' = (n % 10 + b'0') ∷ out in
    let more = digits_of fuel (n / 10) out' in if n / 10 == 0 then out' else more

abbrev pub decimal : ℕ → List ℕ
decimal n = digits_of 20 n []

-- The loop of gbQueryKeysHandler: each key becomes a volatile item, under its position.
unfoldable pub number_keys :
    Server → ℕ → List (List ℕ) → Server × List (List ℕ) × List (Option Item)
number_keys s i [] = (s, [], [])
number_keys s i (k ∷ ks) =
    let (s1, item) = create_volatile_item s (buffer k) (length k) plain in
    let (s2, indices, items) = number_keys s1 (i + 1) ks in
    (s2, decimal i ∷ indices, some item ∷ items)

-- The loop that destroys the volatile items.
unfoldable pub destroy_all : Server → List (Option Item) → Server
destroy_all s [] = s
destroy_all s (none ∷ vs) = s
destroy_all s (some item ∷ vs) = destroy_all (destroy_volatile_item s item) vs

-- A value of APPEND_LONG_STAT or of APPEND_STRING_STAT.
pub data Stat : Type 0 where
  long : ℤ → Stat
  text : List ℕ → Stat

unfoldable pub append_stats :
    Server → List (List ℕ × Stat) → Server × List (List ℕ) × List (Option Item)
append_stats s [] = (s, [], [])
append_stats s ((key, long n) ∷ rest) =
    let (s1, item) = create_volatile_item s (value n) 8 number in
    let (s2, keys, items) = append_stats s1 rest in (s2, key ∷ keys, some item ∷ items)
append_stats s ((key, text t) ∷ rest) =
    let (s1, item) = create_volatile_item s (buffer t) (length t) plain in
    let (s2, keys, items) = append_stats s1 rest in (s2, key ∷ keys, some item ∷ items)

-- (long)value of an unsigned value
abbrev pub as_long : ℕ → Stat
as_long n = long (wrap (2 ^ 64) (pos n))

abbrev pub memory_stats : External → Server → List (List ℕ × Stat)
memory_stats ext s =
    (codes "memory_available", as_long s.stats.memavail)
    ∷ (codes "memory_usable", as_long s.limits.maxmem)
    ∷ (codes "memory_used", as_long s.stats.memused)
    ∷ (codes "memory_peak", as_long s.stats.mempeak)
    ∷ (codes "memory_fragmentation", text ext.fragmentation)
    ∷ (codes "item_size_avg", as_long s.stats.sizeavg)
    ∷ (codes "compr_rate_avg", long (ext.compression_rate s.stats.compravg))
    ∷ (
      codes "reqs_per_client_avg",
      text (ext.requests_per_connection s.stats.requests s.stats.connections),
    )
    ∷ []

-- The statistics, in the order of gbQueryStatsHandler. The counts of the pool are read as each is
-- appended, and the volatile items that went before are then in the pool: `pool_at` answers the
-- pool behind the first `n` statistics.
abbrev pub stats_of : External → Server → (ℕ → Pool) → List (List ℕ × Stat)
stats_of ext s pool_at =
    (codes "server_version", text ext.version)
    ∷ (codes "server_build_datetime", text ext.build_datetime)
    ∷ (codes "server_allocator", text ext.allocator)
    ∷ (codes "server_arch", text ext.arch)
    ∷ (codes "server_started", as_long s.stats.started)
    ∷ (codes "server_time", as_long s.stats.now)
    ∷ (codes "first_item_seen", as_long s.stats.firstin)
    ∷ (codes "last_item_seen", as_long s.stats.lastin)
    ∷ (codes "total_items", as_long s.stats.nitems)
    ∷ (codes "total_compressed_items", as_long s.stats.ncompressed)
    ∷ (codes "total_clients", as_long s.stats.nclients)
    ∷ (codes "total_cron_done", as_long s.stats.crondone)
    ∷ (codes "total_connections", as_long s.stats.connections)
    ∷ (codes "total_requests", as_long s.stats.requests)
    ∷ (codes "item_pool_current_used", as_long (pool_at 14).used)
    ∷ (codes "item_pool_current_capacity", as_long (pool_at 15).capacity)
    ∷ (codes "item_pool_total_capacity", as_long (pool_at 16).total_capacity)
    ∷ (codes "item_pool_object_size", as_long (pool_at 17).object_size)
    ∷ (codes "item_pool_max_block_size", as_long (pool_at 18).max_block_size)
    ∷ memory_stats ext s

-- The pool after `n` allocations more. `ll_append( …, gbCreateVolatileItem( … ) )` evaluates the
-- value before the item is made.
unfoldable pub pool_after : Server → ℕ → Pool
pool_after s zero = s.item_pool
pool_after s (suc n) = pool_after (create_volatile_item s (value (pos 0)) 8 number).0 n

module _ (ext : External) where
  -- gbQueryKeysHandler
  unfoldable pub query_keys : Server → List ℕ → ℕ → Answer
  query_keys s mem size = elim (parse_key s.limits mem size) [
    | none ↦ (s, enqueue_code err)
    | some expr ↦
        let f = tr_search s.tree expr minus_one in
        let (s', indices, items) = number_keys s 0 f.keys in
        if f.total == 0
        then (s, enqueue_code err_not_found)
        else (destroy_all s' items, enqueue_key_value_set ext s'.limits f.total indices items)
  ]

  -- gbQueryStatsHandler
  unfoldable pub query_stats : Server → Answer
  query_stats s =
      let stats = stats_of ext s (pool_after s) in
      let (s', keys, items) = append_stats s stats in
      (destroy_all s' items, enqueue_key_value_set ext s'.limits (length stats) keys items)
