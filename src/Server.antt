-- ===== src/Server.antt =====
-- src/net.h, gbServer, and the life of its items: gbCreateItem, gbDestroyItem, gbIsNodeStillValid
-- and gbIsItemStillValid of src/query.c. The counters wrap as the words that hold them.
-- What the code calls and does not implement is `External`: the allocator's count of used bytes
-- (the k-th reading of it, for each k) and the lzf library. `lzf_compress` answers the compressed
-- bytes, or none where the C function returns 0.
use gibson_mastter.Base.{
  ℕ, ◌+◌, ◌-◌, ◌/◌, ◌%◌, ◌^◌, none, List, Bool, true, false, ltb, ◌==◌, if◌then◌else◌,
}
use gibson_mastter.Base.Int.{ℤ, pos}
use gibson_mastter.Trie.{Trie, store, tr_remove}
use gibson_mastter.Item.{Item, Payload, Encoding, lzf, is_expired}
use gibson_mastter.Pool.{Pool, opool_alloc_object, opool_free_object}

pub record External : Type 0 where
  pub zmem_used : ℕ → ℕ
  pub lzf_compress : List ℕ → ℕ → List ℕ
  pub lzf_decompress : List ℕ → ℕ → List ℕ
  -- texts and floating-point values that only the statistics show
  pub version : List ℕ
  pub build_datetime : List ℕ
  pub allocator : List ℕ
  pub arch : List ℕ
  pub fragmentation : List ℕ
  pub requests_per_connection : ℕ → ℕ → List ℕ
  pub compression_rate : List (ℕ × ℕ) → ℤ

-- gbServerLimits
pub record Limits : Type 0 where
  pub maxitemttl : ℕ
  pub maxkeysize : ℕ
  pub maxvaluesize : ℕ
  pub maxrequestsize : ℕ
  pub maxresponsesize : ℕ
  pub maxmem : ℕ

-- gbServerStats. `compravg` is a floating-point average that only the statistics show: what it is
-- computed from stands here, the compressed and the plain size of each compression, latest first.
pub record Stats : Type 0 where
  pub started : ℕ
  -- the field `time`
  pub now : ℕ
  pub firstin : ℕ
  pub lastin : ℕ
  pub requests : ℕ
  pub connections : ℕ
  pub nclients : ℕ
  pub crondone : ℕ
  pub memavail : ℕ
  pub nitems : ℕ
  pub ncompressed : ℕ
  pub memused : ℕ
  pub mempeak : ℕ
  pub sizeavg : ℕ
  pub compravg : List (ℕ × ℕ)

pub record Server : Type 0 where
  pub tree : Trie Item
  pub item_pool : Pool
  pub compression : ℕ
  pub limits : Limits
  pub stats : Stats
  -- the readings of the allocator's count so far
  pub readings : ℕ

abbrev pub uint_mod : ℕ
uint_mod = 2 ^ 32

-- ++n and --n of an unsigned int
abbrev pub incr : ℕ → ℕ
incr n = (n + 1) % uint_mod

abbrev pub decr : ℕ → ℕ
decr n = (n + uint_mod - 1) % uint_mod

abbrev pub is_lzf : Encoding → Bool
is_lzf lzf = true
is_lzf _ = false

module _ (ext : External) where
  -- gbCreateItem
  unfoldable pub create_item : Server → Payload → ℕ → Encoding → ℤ → Server × Item
  create_item s content size encoding ttl =
      let (pool, address) = opool_alloc_object s.item_pool in
      let st = s.stats in
      let mem = ext.zmem_used s.readings in
      let n = incr st.nitems in
      (
        record s {
          item_pool = pool;
          readings = s.readings + 1;
          stats = record st {
            ncompressed = if is_lzf encoding then incr st.ncompressed else st.ncompressed;
            firstin = if st.firstin == 0 then st.now else st.firstin;
            lastin = st.now;
            memused = mem;
            nitems = n;
            sizeavg = mem / n;
            mempeak = if ltb st.mempeak mem then mem else st.mempeak;
          };
        },
        record {
          address = address;
          content = content;
          size = size % uint_mod;
          encoding = encoding;
          last_access_time = st.now;
          time = st.now;
          ttl = ttl;
          lock = pos 0;
        },
      )

  -- gbDestroyItem
  unfoldable pub destroy_item : Server → Item → Server
  destroy_item s item =
      let st = s.stats in
      let mem = ext.zmem_used s.readings in
      let n = decr st.nitems in
      record s {
        item_pool = opool_free_object s.item_pool item.address;
        readings = s.readings + 1;
        stats = record st {
          ncompressed = if is_lzf item.encoding then decr st.ncompressed else st.ncompressed;
          memused = mem;
          nitems = n;
          sizeavg = if n == 0 then 0 else mem / n;
        };
      }

  -- gbIsNodeStillValid with `remove`: an expired item is taken off its node and destroyed.
  unfoldable pub is_node_still_valid : Server → List ℕ → Item → Bool × Server
  is_node_still_valid s node item =
      if is_expired item s.stats.now
      then (false, destroy_item (record s { tree = store s.tree node none }) item)
      else (true, s)

  -- gbIsItemStillValid with `remove`: the same, but the node is looked for by the key.
  unfoldable pub is_item_still_valid : Server → Item → List ℕ → Bool × Server
  is_item_still_valid s item key =
      if is_expired item s.stats.now
      then (false, destroy_item (record s { tree = (tr_remove s.tree key).0 }) item)
      else (true, s)
