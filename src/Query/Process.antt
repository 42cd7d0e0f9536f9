-- ===== src/Query/Process.antt =====
-- src/query.h and src/query.c, gbProcessQuery: the operation code of a request chooses its handler.
-- `op` is the unsigned reading of the two bytes of the code.
use gibson_mastter.Base.{ℕ, ◌+◌, ◌%◌, ◌^◌, List, [], ◌∷◌, true, ◌==◌, if◌then◌else◌}
use gibson_mastter.Base.Int.{pos}
use gibson_mastter.Item.{plain}
use gibson_mastter.Server.{External, Server}
use gibson_mastter.Reply.{reply, failed, ok, enqueue_code}
use gibson_mastter.Query.{Answer, minus_one}
use gibson_mastter.Query.Single.{
  query_set, query_ttl, query_get, query_del, query_inc_dec, query_lock, query_unlock, query_meta,
}
use gibson_mastter.Query.Multi.{
  query_multi_set, query_multi_ttl, query_multi_get, query_multi_del, query_multi_inc_dec,
  query_multi_lock, query_multi_unlock, query_count,
}
use gibson_mastter.Query.Listing.{query_keys, query_stats}

pub data Op : Type 0 where
  set ttl get del inc dec lock unlock : Op
  mset mttl mget mdel minc mdec mlock munlock : Op
  count stats ping meta keys finish unknown : Op

-- OP_SET to OP_END
unfoldable pub op_of : ℕ → Op
op_of n =
    if n == 1
    then set
    else if n == 2
    then ttl
    else if n == 3
    then get
    else if n == 4
    then del
    else if n == 5
    then inc
    else if n == 6
    then dec
    else if n == 7
    then lock
    else if n == 8
    then unlock
    else if n == 9
    then mset
    else if n == 10
    then mttl
    else if n == 11
    then mget
    else if n == 12
    then mdel
    else if n == 13
    then minc
    else if n == 14
    then mdec
    else if n == 15
    then mlock
    else if n == 16
    then munlock
    else if n == 17
    then count
    else if n == 18
    then stats
    else if n == 19
    then ping
    else if n == 20
    then meta
    else if n == 21
    then keys
    else if n == 255
    then finish
    else unknown

module _ (ext : External) where
  -- The chain of tests on `op`.
  unfoldable pub dispatch : Op → Server → List ℕ → ℕ → Answer
  dispatch get s p size = query_get ext s p size
  dispatch set s p size = query_set ext s p size
  dispatch ttl s p size = query_ttl ext s p size
  dispatch mset s p size = query_multi_set ext s p size
  dispatch mttl s p size = query_multi_ttl ext s p size
  dispatch mget s p size = query_multi_get ext s p size
  dispatch del s p size = query_del ext s p size
  dispatch mdel s p size = query_multi_del ext s p size
  dispatch inc s p size = query_inc_dec ext (pos 1) s p size
  dispatch dec s p size = query_inc_dec ext minus_one s p size
  dispatch minc s p size = query_multi_inc_dec ext (pos 1) s p size
  dispatch mdec s p size = query_multi_inc_dec ext minus_one s p size
  dispatch lock s p size = query_lock ext s p size
  dispatch mlock s p size = query_multi_lock ext s p size
  dispatch unlock s p size = query_unlock ext s p size
  dispatch munlock s p size = query_multi_unlock ext s p size
  dispatch count s p size = query_count ext s p size
  dispatch stats s p size = query_stats ext s
  dispatch ping s p size = (s, enqueue_code ok)
  dispatch meta s p size = query_meta ext s p size
  dispatch keys s p size = query_keys ext s p size
  dispatch finish s p size = (s, reply ok plain (0 ∷ []) true)
  dispatch unknown s p size = (s, failed)

  abbrev pub count_request : Server → Server
  count_request s = record s {
    stats = record s.stats { requests = (s.stats.requests + 1) % 2 ^ 64 };
  }

  -- gbProcessQuery: `p` is the memory behind the operation code, `size` what is left of the request.
  unfoldable pub process_query : Server → ℕ → List ℕ → ℕ → Answer
  process_query s op p size = dispatch (op_of op) (count_request s) p size
