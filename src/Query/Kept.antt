-- ===== src/Query/Kept.antt =====
-- src/query.c: every request keeps the invariant.
use gibson_mastter.Base.{ℕ, List}
use gibson_mastter.Base.Int.{pos}
use gibson_mastter.Server.{External, Server}
use gibson_mastter.Query.{minus_one}
use gibson_mastter.Query.Process.{
  Op, set, ttl, get, del, inc, dec, lock, unlock, mset, mttl, mget, mdel, minc, mdec, mlock,
  munlock, count, stats, ping, meta, keys, finish, unknown, op_of, dispatch, count_request,
  process_query,
}
use gibson_mastter.Query.Invariant.{Inv}
use gibson_mastter.Query.Keeps.{
  IsClean, query_get-Inv, query_set-Inv, query_ttl-Inv, query_del-Inv, query_inc_dec-Inv,
  query_lock-Inv, query_unlock-Inv, query_meta-Inv,
}
use gibson_mastter.Query.KeepsMulti.{
  query_multi_set-Inv, query_multi_ttl-Inv, query_multi_del-Inv, query_multi_inc_dec-Inv,
  query_multi_lock-Inv, query_multi_unlock-Inv, query_count-Inv,
}
use gibson_mastter.Query.KeepsFound.{query_multi_get-Inv, query_keys-Inv, query_stats-Inv}

module _ (ext : External) where
  dispatch-Inv :
      (op : Op) (s : Server) (p : List ℕ) (size : ℕ)
      → IsClean s.limits p size
      → Inv s
      → Inv (dispatch ext op s p size).0
  unfolding dispatch
  dispatch-Inv get s p size clean h = query_get-Inv ext s p size h
  dispatch-Inv set s p size clean h = query_set-Inv ext s p size h clean
  dispatch-Inv ttl s p size clean h = query_ttl-Inv ext s p size h
  dispatch-Inv mset s p size clean h = query_multi_set-Inv ext s p size h
  dispatch-Inv mttl s p size clean h = query_multi_ttl-Inv ext s p size h
  dispatch-Inv mget s p size clean h = query_multi_get-Inv ext s p size h
  dispatch-Inv del s p size clean h = query_del-Inv ext s p size h
  dispatch-Inv mdel s p size clean h = query_multi_del-Inv ext s p size h
  dispatch-Inv inc s p size clean h = query_inc_dec-Inv ext s p size h (pos 1) clean
  dispatch-Inv dec s p size clean h = query_inc_dec-Inv ext s p size h minus_one clean
  dispatch-Inv minc s p size clean h = query_multi_inc_dec-Inv ext s p size h (pos 1)
  dispatch-Inv mdec s p size clean h = query_multi_inc_dec-Inv ext s p size h minus_one
  dispatch-Inv lock s p size clean h = query_lock-Inv ext s p size h
  dispatch-Inv mlock s p size clean h = query_multi_lock-Inv ext s p size h
  dispatch-Inv unlock s p size clean h = query_unlock-Inv ext s p size h
  dispatch-Inv munlock s p size clean h = query_multi_unlock-Inv ext s p size h
  dispatch-Inv count s p size clean h = query_count-Inv ext s p size h
  dispatch-Inv stats s p size clean h = query_stats-Inv ext s h
  dispatch-Inv ping s p size clean h = h
  dispatch-Inv meta s p size clean h = query_meta-Inv ext s p size h
  dispatch-Inv keys s p size clean h = query_keys-Inv ext s p size h
  dispatch-Inv finish s p size clean h = h
  dispatch-Inv unknown s p size clean h = h

  -- Whatever the operation code, a request leaves a server that satisfies the invariant if it got
  -- one that does: the tree is sound, no key in it has a NUL byte, every item's encoding and size
  -- say what its data are, and the counters `nitems` and `ncompressed` are the numbers of items and
  -- of compressed items in the tree, modulo 2^32. The keys that the request's bytes name have no
  -- NUL byte, as the callbacks' use of C strings requires.
  pub process_query-Inv :
      (s : Server) (op : ℕ) (p : List ℕ) (size : ℕ)
      → IsClean s.limits p size
      → Inv s
      → Inv (process_query ext s op p size).0
  unfolding process_query
  process_query-Inv s op p size clean h =
      dispatch-Inv (op_of op) (count_request ext s) p size clean (record {
        sound = h.sound;
        items = h.items;
        counted = h.counted;
        compressed = h.compressed;
      })
