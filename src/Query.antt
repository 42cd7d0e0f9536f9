-- ===== src/Query.antt =====
-- src/query.c: what the query handlers share, gbSingleSet, the volatile items, and the tests on a
-- stored item. The handlers are in the modules below. A handler is given the memory `mem` from `p`
-- on and the size of the request without its operation code, and comes to the server that it
-- leaves and the reply that it enqueues.
pub mod Single
pub mod Multi
pub mod Listing
pub mod Process
pub mod Invariant
pub mod Tallied
mod Cases
pub mod Keeps
pub mod KeepsMulti
pub mod KeepsFound
pub mod Kept
pub mod Untouched
pub mod UntouchedMulti
pub mod UntouchedAll
pub mod Decimal
pub mod Lifetime
pub mod Effects
pub mod Locking
pub mod Gathered
use gibson_mastter.Base.{
  ℕ, suc, ◌+◌, ◌-◌, ◌%◌, ◌^◌, Option, none, some, List, [], ◌∷◌, Bool, true, false, ltb, ◌==◌,
  if◌then◌else◌, length, is_some,
}
use gibson_mastter.Base.Int.{ℤ, pos, negsuc, ◌+ℤ◌, wrap}
use gibson_mastter.Trie.{store, tr_insert}
use gibson_mastter.Item.{Item, Payload, buffer, value, Encoding, plain, lzf, number}
use gibson_mastter.Pool.{opool_alloc_object, opool_free_object}
use gibson_mastter.Server.{External, Server, uint_mod, create_item, destroy_item}
use gibson_mastter.Request.{size_sub}
use gibson_mastter.Reply.{Reply}

abbrev pub Answer : Type 0
Answer = Server × Reply

-- -1
abbrev pub minus_one : ℤ
minus_one = negsuc 0

-- A change of the item that a node holds, through the pointer to it.
abbrev pub with_item : Server → List ℕ → Item → Server
with_item s node item = record s { tree = store s.tree node (some item) }

-- `item->last_access_time = server->stats.time`
abbrev pub accessed : Server → Item → Item
accessed s item = record item { last_access_time = s.stats.now }

-- data + delta of a long
abbrev pub add_long : ℤ → ℤ → ℤ
add_long n delta = wrap (2 ^ 64) (n +ℤ delta)

-- The data and the encoding that gbSingleSet stores for a value, and whether it was compressed: by
-- the test on the length, and by what the compression answered.
abbrev pub choose : Bool → List ℕ → List ℕ → Payload × Encoding × Bool
choose false c v = (buffer v, plain, false)
choose true [] v = (buffer v, plain, false)
choose true (b ∷ bs) v = (buffer (b ∷ bs), lzf, true)

abbrev pub encoded : External → Server → List ℕ → Payload × Encoding × Bool
encoded ext s v =
    choose (ltb s.compression (length v)) (ext.lzf_compress v (size_sub (length v) 4 % 2 ^ 32)) v

abbrev pub buffer_len : Payload → ℕ
buffer_len (buffer bs) = length bs
buffer_len (value n) = 8

abbrev pub noted : Server → ℕ → ℕ → Bool → Server
noted s comprlen vlen false = s
noted s comprlen vlen true = record s {
  stats = record s.stats { compravg = (comprlen, vlen) ∷ s.stats.compravg };
}

abbrev pub destroy_old : External → Server → Option Item → Server
destroy_old ext s none = s
destroy_old ext s (some old) = destroy_item ext s old

-- gbSingleSet
unfoldable pub single_set : External → Server → List ℕ → List ℕ → Server × Item
single_set ext s v k =
    let (content, encoding, compressed) = encoded ext s v in
    let vlen = buffer_len content in
    let (s1, item) =
      create_item ext (noted s vlen (length v) compressed) content vlen encoding minus_one in
    let (tree, old) = tr_insert s1.tree k item in
    (destroy_old ext (record s1 { tree = tree }) old, item)

-- gbCreateVolatileItem and gbDestroyVolatileItem
unfoldable pub create_volatile_item : Server → Payload → ℕ → Encoding → Server × Item
create_volatile_item s content size encoding =
    let (pool, address) = opool_alloc_object s.item_pool in
    (
      record s { item_pool = pool },
      record {
        address = address;
        content = content;
        size = size % uint_mod;
        encoding = encoding;
        last_access_time = 0;
        time = 0;
        ttl = minus_one;
        lock = pos 0;
      },
    )

unfoldable pub destroy_volatile_item : Server → Item → Server
destroy_volatile_item s item = record s { item_pool = opool_free_object s.item_pool item.address }
