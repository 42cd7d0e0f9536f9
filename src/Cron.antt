-- ===== src/Cron.antt =====
-- src/server.c: the cron, gbServerCronHandler, and its sweeps gbHandleDeadTTLHandler and
-- gbMemoryFreeHandler. The lines that format and log texts change nothing and are left out.
-- `tr_recurse` is given the server where it expects the data of a search: its test of the limit reads
-- two words of the server's error buffer (on a machine of 64 bits), bytes 16 to 23 for the total and
-- bytes 24 to 31 for the limit.
pub mod Sweep
pub mod Tick
pub mod Due
use gibson_mastter.Base.{
  ℕ, zero, suc, ◌+◌, ◌*◌, ◌/◌, ◌%◌, ◌^◌, Option, none, some, List, [], ◌∷◌, Bool, true, false, not,
  ◌&&◌, ◌||◌, ltb, leb, ◌==◌, if◌then◌else◌, take, drop,
}
use gibson_mastter.Base.Int.{ℤ, pos, negsuc, sub_ℕ, le_ℤ, of_word}
use gibson_mastter.Trie.{Trie, store, tr_find}
use gibson_mastter.Trie.Recurse.{tr_recurse, at_limit}
use gibson_mastter.Item.{Item, is_expired}
use gibson_mastter.Reply.{le_word}
use gibson_mastter.Server.{External, Server, uint_mod, destroy_item}

-- The fields of gbServer that only the cron reads.
pub record Settings : Type 0 where
  pub error : List ℕ
  pub cronperiod : ℕ
  pub gc_ratio : ℤ
  pub expired_cron : ℕ
  pub max_mem_cron : ℕ
  pub shutdown : Bool

-- The test of `tr_recurse`, on the error buffer.
unfoldable pub misread_limit : Settings → Bool
misread_limit c =
    at_limit (of_word (2 ^ 64) (le_word (take 8 (drop 24 c.error))))
      (le_word (take 8 (drop 16 c.error)))

abbrev pub is_zero : ℤ → Bool
is_zero (pos n) = n == 0
is_zero (negsuc n) = false

-- `eta && eta >= server->gc_ratio`
unfoldable pub is_idle : ℤ → Item → ℕ → Bool
is_idle gc_ratio item now =
    let eta = sub_ℕ now item.last_access_time in not (is_zero eta) && le_ℤ gc_ratio eta

-- CRON_EVERY
unfoldable pub cron_every : Settings → ℕ → ℕ → Bool
cron_every c ms crondone = leb ms c.cronperiod || (crondone % (ms / c.cronperiod) == 0)

module _ (ext : External) where
  -- GB_DEL_ITEM
  abbrev pub delete_item : Server → List ℕ → Item → Server
  delete_item s node item = destroy_item ext (record s { tree = store s.tree node none }) item

  -- A handler that deletes the item of the node if the test says so.
  unfoldable pub drop_if : (Item → ℕ → Bool) → List ℕ → Server → Server
  drop_if test node s = elim (tr_find s.tree node) [
    | none ↦ s
    | some item ↦ if test item s.stats.now then delete_item s node item else s
  ]

  -- gbHandleDeadTTLHandler and gbMemoryFreeHandler
  abbrev pub handle_dead_ttl : List ℕ → Trie Item → Server → Server
  handle_dead_ttl node t s = drop_if is_expired node s

  abbrev pub memory_free : Settings → List ℕ → Trie Item → Server → Server
  memory_free c node t s = drop_if (is_idle c.gc_ratio) node s

  -- `tr_recurse( &server->tree, …, server, 0 )`
  abbrev pub sweep : Settings → (List ℕ → Trie Item → Server → Server) → Server → Server
  sweep c handler s = tr_recurse (λ r. misread_limit c) handler s.tree [] s

  -- The two blocks that sweep.
  unfoldable pub sweep_expired : Settings → Server → Server
  sweep_expired c s =
      if cron_every c c.expired_cron s.stats.crondone then sweep c handle_dead_ttl s else s

  unfoldable pub sweep_memory : Settings → Server → Server
  sweep_memory c s =
      if cron_every c c.max_mem_cron s.stats.crondone && ltb s.limits.maxmem s.stats.memused
      then sweep c (memory_free c) s
      else s

  abbrev pub tick : Settings → ℕ → Server → Server
  tick c now s =
      let s1 = record s { stats = record s.stats { now = now } } in
      let s2 = sweep_memory c (sweep_expired c s1) in
      record s2 { stats = record s2.stats { crondone = (s2.stats.crondone + 1) % uint_mod } }

  -- gbServerCronHandler, at the time `now`: the period until the next time and the server, or none
  -- where gbServerDestroy ends the process.
  unfoldable pub cron_handler : Settings → ℕ → Server → Option (ℕ × Server)
  cron_handler c now s = if c.shutdown then none else some (c.cronperiod, tick c now s)
