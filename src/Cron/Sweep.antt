-- ===== src/Cron/Sweep.antt =====
-- src/server.c: what a sweep over the tree leaves in it.
use gibson_mastter.Base.{
  ℕ, ◌≡◌, refl, ap, ◌∙◌, inl, inr, Bool, false, Option, none, some, List, [], ◌∷◌, if◌then◌else◌,
  arith, key_eq, eq_of_key_eq, Option-cases, Bool-cases, option_rule, if_rule,
}
use gibson_mastter.Trie.{tr_find, tr_find_node}
use gibson_mastter.Trie.Shape.{IsSound}
use gibson_mastter.Trie.Find.{find-store, find-node}
use gibson_mastter.Trie.Recurse.{recurse_rule}
use gibson_mastter.Trie.Visit.{visits, each, among, node-visits, recurse-visits}
use gibson_mastter.Item.{Item}
use gibson_mastter.Server.{External, Server, destroy_item}
use gibson_mastter.Cron.{Settings, misread_limit, drop_if, sweep}
use gibson_mastter.Query.Invariant.{Inv, destroy-Inv}

-- The clock and the count of cron runs are the same.
abbrev pub Clock : Server → Server → Type 0
Clock s r = (r.stats.now ≡ s.stats.now) × (r.stats.crondone ≡ s.stats.crondone)

module _ (test : Item → ℕ → Bool) where
  -- What the test lets stand.
  abbrev pub kept : ℕ → Option Item → Option Item
  kept now none = none
  kept now (some item) = if test item now then none else some item

  kept_twice : (now : ℕ) (o : Option Item) → kept now (kept now o) ≡ kept now o
  kept_twice now none = refl
  kept_twice now (some item) = ground arith

  module _ (ext : External) where
    drop-now : (p : List ℕ) (s : Server) → Clock s (drop_if ext test p s)
    unfolding drop_if destroy_item
    drop-now p s =
        option_rule (Clock s) (tr_find s.tree p) _ _ (refl, refl)
          λ item found.
            if_rule (Clock s) (test item s.stats.now) _ _ (λ _. (refl, refl)) (λ _. (refl, refl))

    find-drop :
        (p k : List ℕ) (s : Server)
        → tr_find (drop_if ext test p s).tree k
          ≡ (if key_eq p k then kept s.stats.now (tr_find s.tree k) else tr_find s.tree k)
    unfolding drop_if destroy_item
    find-drop p k s = elim (Option-cases (tr_find s.tree p)) [
      | inl e ↦ rw (e, drop_if) (ground (arith, e, eq_of_key_eq p k))
      | inr (item, e) ↦ elim (Bool-cases (test item s.stats.now)) [
        | inl y ↦
            rw (e, drop_if)
              (rw y (
                ground (
                  arith,
                  e,
                  y,
                  eq_of_key_eq p k,
                  find-store s.tree p k none,
                  find-node s.tree p item e,
                )))
        | inr n ↦ rw (e, drop_if) (rw n (ground (arith, e, n, eq_of_key_eq p k)))
      ]
    ]

    each-now :
        (ps : List (List ℕ)) (s : Server) → (each (drop_if ext test) ps s).stats.now ≡ s.stats.now
    each-now [] s = refl
    each-now (p ∷ ps) s = each-now ps (drop_if ext test p s) ∙ (drop-now p s).0

    find-each :
        (ps : List (List ℕ)) (k : List ℕ) (s : Server)
        → tr_find (each (drop_if ext test) ps s).tree k
          ≡ (if among k ps then kept s.stats.now (tr_find s.tree k) else tr_find s.tree k)
    find-each [] k s = refl
    find-each (p ∷ ps) k s = ground (
      arith,
      find-each ps k (drop_if ext test p s),
      find-drop p k s,
      (drop-now p s).0,
      kept_twice s.stats.now (tr_find s.tree k),
    )

    everywhere :
        (s : Server) (k : List ℕ)
        → (if among k (visits s.tree [])
            then kept s.stats.now (tr_find s.tree k)
            else tr_find s.tree k)
          ≡ kept s.stats.now (tr_find s.tree k)
    unfolding tr_find
    everywhere s k = elim (Option-cases (tr_find_node s.tree k)) [
      | inl e ↦ ground (arith, e)
      | inr (u, e) ↦ rw (node-visits s.tree k [] u e) refl
    ]

    -- A sweep that the error buffer does not stop takes away the items that the test names, all of
    -- them, and no other.
    pub find-sweep :
        (c : Settings) (s : Server) (k : List ℕ)
        → misread_limit c ≡ false
        → IsSound s.tree
        → tr_find (sweep ext c (λ node t. drop_if ext test node) s).tree k
          ≡ kept s.stats.now (tr_find s.tree k)
    find-sweep c s k free h = rw free (
        ap (λ r. tr_find r.tree k) (recurse-visits (drop_if ext test) s.tree [] s h)
        ∙ find-each (visits s.tree []) k s
        ∙ everywhere s k)

    -- A sweep keeps the invariant, wherever it stops.
    drop-Inv : (p : List ℕ) (s : Server) → Inv s → Inv (drop_if ext test p s)
    unfolding drop_if
    drop-Inv p s h = option_rule Inv (tr_find s.tree p) _ _ h λ item found.
        if_rule Inv (test item s.stats.now) _ _ (λ _. destroy-Inv ext s p item found h) (λ _. h)

    pub sweep-Inv :
        (c : Settings) (s : Server) → Inv s → Inv (sweep ext c (λ node t. drop_if ext test node) s)
    sweep-Inv c s h =
        recurse_rule (λ r. misread_limit c) (λ node t. drop_if ext test node) Inv
          (λ p t r. drop-Inv p r) s.tree [] s h

    -- A sweep leaves the clock and the count of cron runs.
    pub sweep-Clock :
        (c : Settings) (s : Server) → Clock s (sweep ext c (λ node t. drop_if ext test node) s)
    sweep-Clock c s =
        recurse_rule (λ r. misread_limit c) (λ node t. drop_if ext test node) (Clock s)
          (λ p t r e. ((drop-now p r).0 ∙ e.0, (drop-now p r).1 ∙ e.1)) s.tree [] s (refl, refl)
