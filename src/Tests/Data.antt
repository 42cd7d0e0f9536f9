-- ===== src/Tests/Data.antt =====
-- A small server, and the requests that the tests send to it.
use gibson_mastter.Base.{Bool, true, ltb, ◌&&◌, arith, ℕ, List, [], ◌∷◌, length, codes, ◌≡◌}
use gibson_mastter.Base.Int.{pos}
use gibson_mastter.Trie.{tr_init_tree}
use gibson_mastter.Pool.{opool_create}
use gibson_mastter.Server.{External, Limits, Stats, Server}
use gibson_mastter.Query.{Answer}
use gibson_mastter.Query.Invariant.{IsKey}
use gibson_mastter.Query.Process.{process_query}

-- An allocator that always counts 1000 bytes, and a compression that never succeeds.
abbrev pub plain_external : External
plain_external = record {
  zmem_used = λ k. 1000;
  lzf_compress = λ v n. [];
  lzf_decompress = λ v n. v;
  version = codes "1.1.4";
  build_datetime = codes "now";
  allocator = codes "malloc";
  arch = codes "64";
  fragmentation = codes "1.0";
  requests_per_connection = λ r c. codes "1.0";
  compression_rate = λ l. pos 0;
}

-- The defaults of src/default.h.
abbrev pub default_limits : Limits
default_limits = record {
  maxitemttl = 2592000;
  maxkeysize = 512;
  maxvaluesize = 4096;
  maxrequestsize = 4194304;
  maxresponsesize = 40960000;
  maxmem = 2147483648;
}

abbrev pub start_stats : Stats
start_stats = record {
  started = 5000;
  now = 5000;
  firstin = 0;
  lastin = 0;
  requests = 0;
  connections = 1;
  nclients = 1;
  crondone = 0;
  memavail = 4294967296;
  nitems = 0;
  ncompressed = 0;
  memused = 0;
  mempeak = 0;
  sizeavg = 0;
  compravg = [];
}

abbrev pub start : Server
start = record {
  tree = tr_init_tree;
  item_pool = opool_create 48 512 131072;
  compression = 40960;
  limits = default_limits;
  stats = start_stats;
  readings = 0;
}

-- The answer to a request, with nothing behind it in memory.
abbrev pub ask : Server → ℕ → List ℕ → Answer
ask s op p = process_query plain_external s op p (length p)

abbrev pub filled : Server
filled = (ask (ask start 1 (codes "0 foo one")).0 1 (codes "60 fob two")).0

-- The test that a text may be a key.
abbrev pub is_key : List ℕ → Bool
is_key [] = true
is_key (b ∷ bs) = ltb 0 b && ltb b 256 && is_key bs

pub is_key-IsKey : (k : List ℕ) → is_key k ≡ true → IsKey k
is_key-IsKey [] h = tt
is_key-IsKey (b ∷ bs) h =
    ((ground (arith, h), ground (arith, h)), is_key-IsKey bs (ground (arith, h)))
