-- ===== src/Query/UntouchedAll.antt =====
-- src/query.c, gbProcessQuery: every request leaves the surroundings alone.
use gibson_mastter.Base.{ℕ, ◌+◌, ◌%◌, ◌^◌, ◌≡◌, refl, List}
use gibson_mastter.Base.Int.{pos}
use gibson_mastter.Server.{External, Server}
use gibson_mastter.Query.{minus_one}
use gibson_mastter.Query.Process.{
  Op, set, ttl, get, del, inc, dec, lock, unlock, mset, mttl, mget, mdel, minc, mdec, mlock,
  munlock, count, stats, ping, meta, keys, finish, unknown, op_of, dispatch, count_request,
  process_query,
}
use gibson_mastter.Query.Untouched.{
  surroundings, Leaves, query_get-Same, query_unlock-Same, query_meta-Same, query_ttl-Same,
  query_lock-Same, query_del-Same, query_inc_dec-Same, query_set-Same,
}
use gibson_mastter.Query.UntouchedMulti.{
  query_multi_set-Same, query_multi_ttl-Same, query_multi_lock-Same, query_multi_del-Same,
  query_multi_inc_dec-Same, query_multi_unlock-Same, query_count-Same, query_multi_get-Same,
  query_keys-Same, query_stats-Same,
}

module _ (ext : External) (s : Server) (mem : List ℕ) (size : ℕ) where
  dispatch-Same : (op : Op) → Leaves s (dispatch ext op s mem size)
  unfolding dispatch
  dispatch-Same get = query_get-Same ext s mem size
  dispatch-Same set = query_set-Same ext s mem size
  dispatch-Same ttl = query_ttl-Same ext s mem size
  dispatch-Same mset = query_multi_set-Same ext s mem size
  dispatch-Same mttl = query_multi_ttl-Same ext s mem size
  dispatch-Same mget = query_multi_get-Same ext s mem size
  dispatch-Same del = query_del-Same ext s mem size
  dispatch-Same mdel = query_multi_del-Same ext s mem size
  dispatch-Same inc = query_inc_dec-Same ext s mem size (pos 1)
  dispatch-Same dec = query_inc_dec-Same ext s mem size minus_one
  dispatch-Same minc = query_multi_inc_dec-Same ext s mem size (pos 1)
  dispatch-Same mdec = query_multi_inc_dec-Same ext s mem size minus_one
  dispatch-Same lock = query_lock-Same ext s mem size
  dispatch-Same mlock = query_multi_lock-Same ext s mem size
  dispatch-Same unlock = query_unlock-Same ext s mem size
  dispatch-Same munlock = query_multi_unlock-Same ext s mem size
  dispatch-Same count = query_count-Same ext s mem size
  dispatch-Same stats = query_stats-Same ext s mem size
  dispatch-Same ping = refl
  dispatch-Same meta = query_meta-Same ext s mem size
  dispatch-Same keys = query_keys-Same ext s mem size
  dispatch-Same finish = refl
  dispatch-Same unknown = refl

-- Whatever the operation code and the bytes, a request is counted once, modulo 2^64, and leaves the
-- limits, the clock and the counts of clients, connections and cron runs as they are.
pub process_query-surroundings :
    (ext : External) (s : Server) (mem : List ℕ) (size op : ℕ)
    → surroundings (process_query ext s op mem size).0
      ≡ record (surroundings s) { requests = (s.stats.requests + 1) % 2 ^ 64 }
unfolding process_query surroundings
process_query-surroundings ext s mem size op =
    dispatch-Same ext (count_request ext s) mem size (op_of op)
