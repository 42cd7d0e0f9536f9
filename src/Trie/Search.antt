-- ===== src/Trie/Search.antt =====
-- src/trie.c: what `tr_search` finds.
use mathlib.Core.List.{append-nil, append_assoc}
use gibson_mastter.Base.{
  ℕ, zero, suc, ◌+◌, ◌≡◌, refl, sym, ap, ◌∙◌, inl, inr, Bool, true, false, Option, none, some, List,
  [], ◌∷◌, ◌++◌, map, ◌==◌, arith, Option-cases, Bool-cases, length, take,
}
use gibson_mastter.Base.Int.{ℤ, pos, negsuc}
use gibson_mastter.Trie.{Trie, Nodes, node, nil, cons, value, count, tr_find_node, tr_find}
use gibson_mastter.Trie.Shape.{IsSound, AreSound}
use gibson_mastter.Trie.Recurse.{
  c_str, tr_recurse, recurse_nodes, recurse-stop, recurse-go, recurse-cons, recurse-nil, at_limit,
  Found, collect, nothing, tr_search,
}
use gibson_mastter.Trie.Find.{find_node-IsSound, find-append, find-append_none}
use gibson_mastter.Trie.Entries.{
  lookup, Unique, lookup-entries, entries-Unique, entries, entries_below, under,
}

module _ {A : Type 0} where
  abbrev push : List ℕ → A → Found A → Found A
  push k x s = record {
    total = s.total + 1;
    keys = s.keys ++ c_str k ∷ [];
    found = s.found ++ (k, x) ∷ [];
  }

  -- The traversal as a loop over the listing.
  gather : ℤ → List ℕ → List (List ℕ × A) → Found A → Found A
  gather limit path [] s = s
  gather limit path ((k, x) ∷ es) s = elim (at_limit limit s.total) [
    | true ↦ s
    | false ↦ gather limit path es (push (path ++ k) x s)
  ]

  gather-stop :
      (limit : ℤ) (path : List ℕ) (es : List (List ℕ × A)) (s : Found A)
      → at_limit limit s.total ≡ true
      → gather limit path es s ≡ s
  unfolding gather
  gather-stop limit path [] s h = refl
  gather-stop limit path ((k, x) ∷ es) s h = rw (h, gather) refl

  gather-append :
      (limit : ℤ) (path : List ℕ) (es fs : List (List ℕ × A)) (s : Found A)
      → gather limit path (es ++ fs) s ≡ gather limit path fs (gather limit path es s)
  unfolding gather
  gather-append limit path [] fs s = refl
  gather-append limit path ((k, x) ∷ es) fs s = elim (Bool-cases (at_limit limit s.total)) [
    | inl stop ↦ rw (stop, gather) (sym (gather-stop limit path fs s stop))
    | inr go ↦ rw (go, gather) (gather-append limit path es fs (push (path ++ k) x s))
  ]

  gather-under :
      (limit : ℤ) (path : List ℕ) (v : ℕ) (es : List (List ℕ × A)) (s : Found A)
      → gather limit path (under v es) s ≡ gather limit (path ++ v ∷ []) es s
  unfolding gather
  gather-under limit path v [] s = refl
  gather-under limit path v ((k, x) ∷ es) s = elim (Bool-cases (at_limit limit s.total)) [
    | inl stop ↦ rw (stop, gather) refl
    | inr go ↦
        rw (go, gather)
          (rw (append_assoc path (v ∷ []) k)
            (gather-under limit path v es (push (path ++ (v ∷ k)) x s)))
  ]

  gather-first :
      (limit : ℤ) (path : List ℕ) (x : A) (es : List (List ℕ × A)) (s : Found A)
      → at_limit limit s.total ≡ false
      → gather limit path (([], x) ∷ es) s ≡ gather limit path es (push path x s)
  unfolding gather
  gather-first limit path x es s go = rw (go, gather) (rw (append-nil path) refl)

module _ {A : Type 0} (limit : ℤ) where
  abbrev reached : Found A → Bool
  reached s = at_limit limit s.total

  mutual
    unfolding gather entries collect

    recurse_gather :
        (t : Trie A) (path : List ℕ) (s : Found A)
        → IsSound t
        → tr_recurse reached collect t path s ≡ gather limit path (entries t) s
    recurse_gather (node v none n ks) path s h = elim (Bool-cases (reached s)) [
      | inl stop ↦
          recurse-stop reached collect (node v none n ks) path s stop
          ∙ sym (gather-stop limit path (entries_below ks) s stop)
      | inr go ↦
          recurse-go reached collect v none n ks path s go ∙ rw (h.0) (nodes_gather ks path s h.3)
    ]
    recurse_gather (node v (some x) n ks) path s h = elim (Bool-cases (reached s)) [
      | inl stop ↦
          recurse-stop reached collect (node v (some x) n ks) path s stop
          ∙ sym (gather-stop limit path (([], x) ∷ entries_below ks) s stop)
      | inr go ↦
          recurse-go reached collect v (some x) n ks path s go
          ∙ rw (h.0) (nodes_gather ks path (push path x s) h.3)
          ∙ sym (gather-first limit path x (entries_below ks) s go)
    ]

    nodes_gather :
        (ks : Nodes A) (path : List ℕ) (s : Found A)
        → AreSound ks
        → recurse_nodes reached collect (count ks) ks path s
          ≡ gather limit path (entries_below ks) s
    nodes_gather nil path s h = recurse-nil reached collect 0 path s
    nodes_gather (cons t ks) path s h =
        recurse-cons reached collect (count ks) t ks path s
        ∙ nodes_gather ks path _ h.1
        ∙ ap (gather limit path (entries_below ks)) (recurse_gather t (path ++ value t ∷ []) s h.0)
        ∙ ap (gather limit path (entries_below ks))
            (sym (gather-under limit path (value t) (entries t) s))
        ∙ sym (gather-append limit path (under (value t) (entries t)) (entries_below ks) s)

-- The entries that a search with this limit reports: the first `limit`, or all if it is not positive.
abbrev pub limited {ℓ} : {B : Type ℓ} → ℤ → List B → List B
limited (pos zero) es = es
limited (pos (suc n)) es = take (suc n) es
limited (negsuc n) es = es

module _ {A : Type 0} where
  abbrev extended : List ℕ → List (List ℕ × A) → Found A → Found A
  extended path es s = record {
    total = s.total + length es;
    keys = s.keys ++ map (λ e. c_str (path ++ e.0)) es;
    found = s.found ++ map (λ e. (path ++ e.0, e.1)) es;
  }

  extended-nil : (path : List ℕ) (s : Found A) → extended path [] s ≡ s
  extended-nil path s = ground (arith, append-nil s.keys, append-nil s.found)

  extended-cons :
      (path k : List ℕ) (x : A) (es : List (List ℕ × A)) (s : Found A)
      → extended path es (push (path ++ k) x s) ≡ extended path ((k, x) ∷ es) s
  extended-cons path k x es s = ground (
    arith,
    append_assoc s.keys (c_str (path ++ k) ∷ []) (map (λ e. c_str (path ++ e.0)) es),
    append_assoc s.found ((path ++ k, x) ∷ []) (map (λ e. (path ++ e.0, e.1)) es),
  )

  gather-free :
      (limit : ℤ) (path : List ℕ) (es : List (List ℕ × A)) (s : Found A)
      → ((n : ℕ) → at_limit limit n ≡ false)
      → gather limit path es s ≡ extended path es s
  unfolding gather
  gather-free limit path [] s free = sym (extended-nil path s)
  gather-free limit path ((k, x) ∷ es) s free =
      rw (free s.total, gather)
        (gather-free limit path es (push (path ++ k) x s) free ∙ extended-cons path k x es s)

  gather-take :
      (n m : ℕ) (path : List ℕ) (es : List (List ℕ × A)) (s : Found A)
      → s.total + m ≡ suc n
      → gather (pos (suc n)) path es s ≡ extended path (take m es) s
  unfolding gather at_limit
  gather-take n zero path [] s e = sym (extended-nil path s)
  gather-take n (suc m) path [] s e = sym (extended-nil path s)
  gather-take n zero path ((k, x) ∷ es) s e =
      let stop : (s.total == suc n) ≡ true = ground arith in
      rw (stop, gather) (sym (extended-nil path s))
  gather-take n (suc m) path ((k, x) ∷ es) s e =
      let go : (s.total == suc n) ≡ false = ground arith in
      rw (go, gather)
        (gather-take n m path es (push (path ++ k) x s) (omega arith)
          ∙ extended-cons path k x (take m es) s)

  gather-limited :
      (limit : ℤ) (path : List ℕ) (es : List (List ℕ × A))
      → gather limit path es nothing ≡ extended path (limited limit es) nothing
  unfolding at_limit
  gather-limited (pos zero) path es = gather-free (pos zero) path es nothing (λ n. refl)
  gather-limited (pos (suc n)) path es = gather-take n (suc n) path es nothing (omega arith)
  gather-limited (negsuc n) path es = gather-free (negsuc n) path es nothing (λ m. refl)

  -- What a search reports for the entries below a prefix.
  abbrev pub report : List ℕ → List (List ℕ × A) → Found A
  report prefix es = record {
    total = length es;
    keys = map (λ e. c_str (prefix ++ e.0)) es;
    found = map (λ e. (prefix ++ e.0, e.1)) es;
  }

  report-extended :
      (path : List ℕ) (es : List (List ℕ × A)) → extended path es nothing ≡ report path es
  report-extended path es = ground arith

  abbrev pub entries_at : Option (Trie A) → List (List ℕ × A)
  entries_at none = []
  entries_at (some start) = entries start

  limited-nil : (limit : ℤ) (prefix : List ℕ) → report prefix (limited limit []) ≡ nothing {A = A}
  limited-nil (pos zero) prefix = refl
  limited-nil (pos (suc n)) prefix = refl
  limited-nil (negsuc n) prefix = refl

  -- A search reports the entries below the node of the prefix, in the order of the listing, each
  -- under the prefix and the rest of its key (as C strings), and the first `limit` of them only
  -- where the limit is positive. The tree is sound.
  pub search-entries :
      (t : Trie A) (prefix : List ℕ) (limit : ℤ)
      → IsSound t
      → tr_search t prefix limit
        ≡ report prefix (limited limit (entries_at (tr_find_node t prefix)))
  unfolding tr_search
  search-entries t prefix limit h = elim (Option-cases (tr_find_node t prefix)) [
    | inl miss ↦ rw (miss, tr_search) (sym (limited-nil limit prefix))
    | inr (u, hit) ↦
        rw (hit, tr_search)
          (recurse_gather limit u prefix nothing (find_node-IsSound t prefix u h hit)
            ∙ gather-limited limit prefix (entries u)
            ∙ report-extended prefix (limited limit (entries u)))
  ]

  -- The entries below a prefix are the bindings of the keys that extend it: to look up the rest of
  -- a key among them is to find the whole key in the tree, and no rest is listed twice. The tree is
  -- sound.
  pub entries-find :
      (t : Trie A) (prefix rest : List ℕ)
      → IsSound t
      → (lookup rest (entries_at (tr_find_node t prefix)) ≡ tr_find t (prefix ++ rest))
        × Unique (entries_at (tr_find_node t prefix))
  entries-find t prefix rest h = elim (Option-cases (tr_find_node t prefix)) [
    | inl miss ↦ rw miss (sym (find-append_none t prefix rest miss), tt)
    | inr (u, hit) ↦
        let sound = find_node-IsSound t prefix u h hit in
        rw hit (
          lookup-entries u rest sound ∙ sym (find-append t prefix rest u hit),
          entries-Unique u sound,
        )
  ]
