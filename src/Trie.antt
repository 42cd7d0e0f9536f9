-- ===== src/Trie.antt =====
-- src/trie.h and src/trie.c: the prefix tree that maps keys to items.
-- A node has its byte value, its data pointer (`none` for NULL), the byte `n_nodes` (the number of
-- children, less one) and the array of children (`nil` for NULL). Keys are lists of bytes; the
-- code asserts that they are not empty. A pointer to a node is the key that leads to it.
mod Next
pub mod Shape
mod Step
pub mod Find
pub mod Recurse
pub mod SearchNodes
pub mod Free
pub mod Entries
pub mod Ready
pub mod Search
pub mod Visit
pub mod Weigh
pub mod Every
use gibson_mastter.Base.{
  ℕ, zero, suc, ◌+◌, ◌%◌, Option, none, some, List, [], ◌∷◌, ◌==◌, if◌then◌else◌,
}

mutual
  pub data Trie {ℓ} (A : Type ℓ) : Type ℓ where
    node : ℕ → Option A → ℕ → Nodes A → Trie A

  pub data Nodes {ℓ} (A : Type ℓ) : Type ℓ where
    nil : Nodes A
    cons : Trie A → Nodes A → Nodes A

module _ {ℓ} {A : Type ℓ} where
  abbrev pub value : Trie A → ℕ
  value (node v d n ks) = v

  abbrev pub node_data : Trie A → Option A
  node_data (node v d n ks) = d

  abbrev pub nodes : Trie A → Nodes A
  nodes (node v d n ks) = ks

  -- The allocated children, the pointer `nodes + i`, a write through it, and `zrealloc` to the
  -- first `n` children with one more behind them.
  abbrev pub count : Nodes A → ℕ
  count nil = 0
  count (cons t ks) = suc (count ks)

  abbrev pub at : Nodes A → ℕ → Option (Trie A)
  at nil i = none
  at (cons t ks) zero = some t
  at (cons t ks) (suc i) = at ks i

  abbrev pub put : Nodes A → ℕ → Trie A → Nodes A
  put nil i u = nil
  put (cons t ks) zero u = cons u ks
  put (cons t ks) (suc i) u = cons t (put ks i u)

  abbrev pub extend : ℕ → Nodes A → Trie A → Nodes A
  extend zero ks u = cons u nil
  extend (suc n) nil u = cons u nil
  extend (suc n) (cons t ks) u = cons t (extend n ks u)

  -- tr_init_tree
  abbrev pub tr_init_tree : Trie A
  tr_init_tree = node 0 none 0 nil

  abbrev pub tr_node_children : Trie A → ℕ
  tr_node_children (node v d n nil) = 0
  tr_node_children (node v d n (cons t ks)) = n + 1

  -- The loop `while( --n >= 0 )`, from the last child to the first.
  unfoldable pub scan : ℕ → Nodes A → ℕ → Option ℕ
  scan zero ks v = none
  scan (suc n) ks v =
      let rest = scan n ks v in
      elim (at ks n) [ none ↦ rest | some k ↦ if value k == v then some n else rest ]

  -- The index of the child, for the pointer that the code returns.
  unfoldable pub tr_find_next_node : Trie A → ℕ → Option ℕ
  tr_find_next_node t v = scan (tr_node_children t) (nodes t) v

  abbrev pub deref : Trie A → Option ℕ → Option (Trie A)
  deref t none = none
  deref t (some i) = at (nodes t) i

  abbrev pub next : Trie A → ℕ → Option (Trie A)
  next t c = deref t (tr_find_next_node t c)

  -- The node at the end of a path, from the node on which the code stands.
  unfoldable pub tr_find_node : Trie A → List ℕ → Option (Trie A)
  tr_find_node t [] = some t
  tr_find_node t (c ∷ cs) = elim (next t c) [ none ↦ none | some u ↦ tr_find_node u cs ]

  unfoldable pub tr_find : Trie A → List ℕ → Option A
  tr_find t k = elim (tr_find_node t k) [ none ↦ none | some u ↦ node_data u ]

  -- A node that `tr_insert` appends.
  abbrev pub fresh : ℕ → Trie A
  fresh v = node v none 0 nil

  -- The part of the loop of `tr_insert` under `node == NULL`; `n_nodes` is an unsigned char.
  abbrev pub append_node : Trie A → ℕ → Trie A
  append_node (node w d n ks) v =
      let current_size = tr_node_children (node w d n ks) in
      node w d (current_size % 256) (extend current_size ks (fresh v))

  -- A write to `nodes[i]`.
  abbrev pub put_node : Trie A → ℕ → Trie A → Trie A
  put_node (node w d n ks) i u = node w d n (put ks i u)

  -- The appended node, with what becomes of it.
  abbrev pub grown : Trie A → ℕ → Trie A → Trie A
  grown t c u = put_node (append_node t c) (tr_node_children t) u

  -- The loop of `tr_insert`: find the next node or append it, and go on from there.
  unfoldable pub descend : Trie A → List ℕ → Trie A
  descend t [] = t
  descend t (c ∷ cs) = elim (tr_find_next_node t c) [
    | none ↦ grown t c (descend (fresh c) cs)
    | some i ↦ elim (at (nodes t) i) [ none ↦ t | some u ↦ put_node t i (descend u cs) ]
  ]

  abbrev pub with_data : Trie A → Option A → Trie A
  with_data (node w d n ks) e = node w e n ks

  -- `node->data = e` through the pointer that `tr_find_node` returned for the key.
  unfoldable pub store : Trie A → List ℕ → Option A → Trie A
  store t [] e = with_data t e
  store t (c ∷ cs) e = elim (tr_find_next_node t c) [
    | none ↦ t
    | some i ↦ elim (at (nodes t) i) [ none ↦ t | some u ↦ put_node t i (store u cs e) ]
  ]

  -- The new tree and the old data of the key.
  unfoldable pub tr_insert : Trie A → List ℕ → A → Trie A × Option A
  tr_insert t k x = let t' = descend t k in (store t' k (some x), tr_find t' k)

  unfoldable pub tr_remove : Trie A → List ℕ → Trie A × Option A
  tr_remove t k = elim (tr_find t k) [ none ↦ (t, none) | some x ↦ (store t k none, some x) ]
