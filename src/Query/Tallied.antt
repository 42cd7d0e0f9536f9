-- ===== src/Query/Tallied.antt =====
-- src/query.c: the invariant of the server's items, and its change where one item is changed or
-- destroyed. Everything in the tree is what it says, and the counters count the tree.
use gibson_mastter.Base.{
  ℕ, ◌<◌, ◌%◌, ◌≡◌, ap, none, some, List, [], ◌∷◌, arith, All, if◌then◌else◌, length,
}
use gibson_mastter.Base.Distinct.{Below}
use gibson_mastter.Trie.{Trie, store, tr_find}
use gibson_mastter.Trie.Shape.{IsSound, store-IsSound}
use gibson_mastter.Trie.Find.{find-node}
use gibson_mastter.Trie.Weigh.{weigh, weight, weigh-store}
use gibson_mastter.Trie.Every.{Every, store-Every, find-Every}
use gibson_mastter.Item.{Item, Payload, buffer, value, Encoding, plain, lzf, number}
use gibson_mastter.Server.{External, Server, uint_mod, is_lzf, destroy_item}
use gibson_mastter.Query.{with_item}

-- The encoding says what the data is, and the size how long.
abbrev pub Tagged : Encoding → Payload → ℕ → Type 0
Tagged plain (buffer bs) size = size ≡ length bs % uint_mod
Tagged plain (value n) size = ⊥
Tagged lzf (buffer bs) size = size ≡ length bs % uint_mod
Tagged lzf (value n) size = ⊥
Tagged number (buffer bs) size = ⊥
Tagged number (value n) size = size ≡ 8

abbrev pub IsTagged : Item → Type 0
IsTagged item = Tagged item.encoding item.content item.size

-- A byte of a key, no NUL.
abbrev pub NotNul : ℕ → Type 0
NotNul b = (0 < b) × (b < 256)

abbrev pub one : Item → ℕ
one item = 1

abbrev pub lzf_one : Item → ℕ
lzf_one item = if is_lzf item.encoding then 1 else 0

-- The items in a tree, and those among them that are compressed.
abbrev pub items_in : Trie Item → ℕ
items_in t = weigh one t

abbrev pub compressed_in : Trie Item → ℕ
compressed_in t = weigh lzf_one t

-- The tree is sound and holds no NUL byte in a key; its items are tagged as they are; `nitems` and
-- `ncompressed` count them, as far as an unsigned int does.
pub record Inv (s : Server) : Type 0 where
  pub sound : IsSound s.tree
  pub items : Every NotNul IsTagged s.tree
  pub counted : s.stats.nitems ≡ items_in s.tree % uint_mod
  pub compressed : s.stats.ncompressed ≡ compressed_in s.tree % uint_mod

-- A key that may be stored: bytes, none of them NUL.
abbrev pub IsKey : List ℕ → Type 0
IsKey k = All NotNul k

pub IsKey-Below : (k : List ℕ) → IsKey k → Below 256 k
IsKey-Below [] h = tt
IsKey-Below (b ∷ bs) h = (h.0.1, IsKey-Below bs h.1)

module _ (s : Server) (k : List ℕ) {old : Item} (found : tr_find s.tree k ≡ some old)
    (h : Inv s) where
  -- A change of an item that keeps it tagged, and compressed or not.
  pub with_item-Inv :
      (item : Item) → IsTagged item → lzf_one item ≡ lzf_one old → Inv (with_item s k item)
  with_item-Inv item tagged same =
      let there = find-node s.tree k old found in
      record {
        sound = store-IsSound s.tree k (some item) h.sound;
        items = store-Every NotNul IsTagged s.tree k (some item) tagged h.items;
        counted =
            (omega (
              arith,
              h.counted,
              weigh-store one s.tree k (some item) there,
              ap (weight one) found,
            ));
        compressed =
            (omega (
              arith,
              h.compressed,
              same,
              weigh-store lzf_one s.tree k (some item) there,
              ap (weight lzf_one) found,
            ));
      }

  pub old-IsTagged : IsTagged old
  old-IsTagged = (find-Every NotNul IsTagged s.tree k old h.items found).1

  pub old-NotNul : All NotNul k
  old-NotNul = (find-Every NotNul IsTagged s.tree k old h.items found).0

module _ (ext : External) where
  -- An item that is taken off its node and destroyed.
  pub destroy-Inv :
      (s : Server) (k : List ℕ) (item : Item)
      → tr_find s.tree k ≡ some item
      → Inv s
      → Inv (destroy_item ext (record s { tree = store s.tree k none }) item)
  unfolding destroy_item
  destroy-Inv s k item found h =
      let there = find-node s.tree k item found in
      record {
        sound = store-IsSound s.tree k none h.sound;
        items = store-Every NotNul IsTagged s.tree k none tt h.items;
        counted =
            (omega (arith, h.counted, weigh-store one s.tree k none there, ap (weight one) found));
        compressed =
            (ground (
              arith,
              h.compressed,
              weigh-store lzf_one s.tree k none there,
              ap (weight lzf_one) found,
            ));
      }
