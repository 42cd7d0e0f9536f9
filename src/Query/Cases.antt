-- ===== src/Query/Cases.antt =====
-- src/query.c: case rules for the shape that the handlers share, and the expiry of an item in them.
use gibson_mastter.Base.{
  ◌≡◌, refl, none, some, Bool, true, false, List, ℕ, Bool-cases, inl, inr, ◌⊎◌,
}
use gibson_mastter.Trie.{store, tr_find, tr_remove}
use gibson_mastter.Item.{Item, is_expired}
use gibson_mastter.Server.{External, Server, is_node_still_valid, is_item_still_valid}
use gibson_mastter.Query.Invariant.{Inv, destroy-Inv}

-- What the test of an item's validity leaves: the same server, or one without the item.
abbrev pub Checked : Server → Item → Bool × Server → Type 0
Checked s item r =
    ((is_expired item s.stats.now ≡ false) × (r ≡ (true, s)))
    ⊎ ((s' : Server) × (is_expired item s.stats.now ≡ true) × (r ≡ (false, s')) × Inv s')

pub remove_found :
    (s : Server) (k : List ℕ) (item : Item)
    → tr_find s.tree k ≡ some item
    → (tr_remove s.tree k).0 ≡ store s.tree k none
unfolding tr_remove
remove_found s k item found = rw (found, tr_remove)

module _ (ext : External) where
  pub node_valid :
      (s : Server) (k : List ℕ) (item : Item)
      → tr_find s.tree k ≡ some item
      → Inv s
      → Checked s item (is_node_still_valid ext s k item)
  unfolding is_node_still_valid
  node_valid s k item found h = elim (Bool-cases (is_expired item s.stats.now)) [
    | inl e ↦ inr (_, e, rw e refl, destroy-Inv ext s k item found h)
    | inr e ↦ inl (e, rw e refl)
  ]

  pub item_valid :
      (s : Server) (k : List ℕ) (item : Item)
      → tr_find s.tree k ≡ some item
      → Inv s
      → Checked s item (is_item_still_valid ext s item k)
  unfolding is_item_still_valid
  item_valid s k item found h = elim (Bool-cases (is_expired item s.stats.now)) [
    | inl e ↦
        inr (_, e, rw e (rw (remove_found s k item found) refl), destroy-Inv ext s k item found h)
    | inr e ↦ inl (e, rw e refl)
  ]
