-- ===== src/Trie/Ready.antt =====
-- src/trie.c: what a search finds is in the tree, each key once.
use mathlib.Core.List.{append_cancel_left}
use gibson_mastter.Base.{
  ℕ, zero, suc, ◌≡◌, ◌≢◌, refl, sym, ap, ◌∙◌, inl, inr, Option, some, List, [], ◌∷◌, ◌++◌, map, All,
  false, take, Bool-cases, key_eq, key_eq_refl, eq_of_key_eq,
}
use gibson_mastter.Base.Int.{ℤ, pos, negsuc}
use gibson_mastter.Trie.{Trie, tr_find, tr_find_node, store}
use gibson_mastter.Trie.Find.{find-store}
use gibson_mastter.Trie.Shape.{IsSound}
use gibson_mastter.Trie.Entries.{lookup, Missing, Unique}
use gibson_mastter.Trie.Recurse.{c_str, tr_search}
use gibson_mastter.Trie.Search.{entries_at, limited, report, search-entries, entries-find}

-- Entries that the tree holds, each under its key, and no key twice.
abbrev pub Ready : {A : Type 0} → Trie A → List (List ℕ × A) → Type 0
Ready t es = All (λ e. tr_find t e.0 ≡ some e.1) es × Unique es

module _ {B : Type 0} (P : B → Type 0) where
  All-map : (Q : B → Type 0) → ((x : B) → P x → Q x) → (xs : List B) → All P xs → All Q xs
  All-map Q f [] h = tt
  All-map Q f (x ∷ xs) h = (f x h.0, All-map Q f xs h.1)

  All-take : (n : ℕ) (xs : List B) → All P xs → All P (take n xs)
  All-take zero xs h = tt
  All-take (suc n) [] h = tt
  All-take (suc n) (x ∷ xs) h = (h.0, All-take n xs h.1)

module _ {A : Type 0} where
  missing_ne :
      (k : List ℕ) (es : List (List ℕ × A)) (e : List ℕ × A) → e.0 ≢ k → key_eq k e.0 ≡ false
  missing_ne k es e h = elim (Bool-cases (key_eq k e.0)) [
    | inl same ↦ absurd (h (sym (eq_of_key_eq k e.0 same)))
    | inr differs ↦ differs
  ]

  -- The entries under other keys are there after a change of one.
  pub stored-All :
      (t : Trie A) (k : List ℕ) (o : Option A) (es : List (List ℕ × A))
      → Missing k es
      → All (λ e. tr_find t e.0 ≡ some e.1) es
      → All (λ e. tr_find (store t k o) e.0 ≡ some e.1) es
  stored-All t k o [] m h = tt
  stored-All t k o (e ∷ es) m h =
      (find-store t k e.0 o ∙ rw (missing_ne k es e m.0) h.0, stored-All t k o es m.1 h.1)

  lookup_skip :
      (d : List ℕ × A) (es : List (List ℕ × A))
      → Missing d.0 es
      → (fs : List (List ℕ × A)) → All (λ e. lookup e.0 fs ≡ some e.1) es
      → All (λ e. lookup e.0 (d ∷ fs) ≡ some e.1) es
  lookup_skip d [] m fs h = tt
  lookup_skip d (e ∷ es) m fs h = (rw (missing_ne d.0 es e m.0) h.0, lookup_skip d es m.1 fs h.1)

  -- A listing with no key twice answers each of its entries.
  lookup-All : (es : List (List ℕ × A)) → Unique es → All (λ e. lookup e.0 es ≡ some e.1) es
  lookup-All [] h = tt
  lookup-All (e ∷ es) h = (rw (key_eq_refl e.0) refl, lookup_skip e es h.0 es (lookup-All es h.1))

  take-Unique : (n : ℕ) (es : List (List ℕ × A)) → Unique es → Unique (take n es)
  take-Unique zero es h = tt
  take-Unique (suc n) [] h = tt
  take-Unique (suc n) (e ∷ es) h = (All-take _ n es h.0, take-Unique n es h.1)

module _ {A : Type 0} (t : Trie A) (prefix : List ℕ) where
  abbrev whole : List (List ℕ × A) → List (List ℕ × A)
  whole es = map (λ e. (prefix ++ e.0, e.1)) es

  whole-Missing :
      (k : List ℕ) (es : List (List ℕ × A)) → Missing k es → Missing (prefix ++ k) (whole es)
  whole-Missing k [] h = tt
  whole-Missing k (e ∷ es) h =
      (λ same. h.0 (append_cancel_left prefix e.0 k same), whole-Missing k es h.1)

  whole-Ready :
      (es : List (List ℕ × A))
      → All (λ e. tr_find t (prefix ++ e.0) ≡ some e.1) es
      → Unique es
      → All (λ e. tr_find t e.0 ≡ some e.1) (whole es) × Unique (whole es)
  whole-Ready [] h u = (tt, tt)
  whole-Ready (e ∷ es) h u =
      let (rest, unique) = whole-Ready es h.1 u.1 in
      ((h.0, rest), (whole-Missing e.0 es u.0, unique))

  limited-Ready :
      (limit : ℤ) (es : List (List ℕ × A))
      → All (λ e. tr_find t (prefix ++ e.0) ≡ some e.1) es
      → Unique es
      → All (λ e. tr_find t (prefix ++ e.0) ≡ some e.1) (limited limit es)
        × Unique (limited limit es)
  limited-Ready (pos zero) es h u = (h, u)
  limited-Ready (pos (suc n)) es h u = (All-take _ (suc n) es h, take-Unique (suc n) es u)
  limited-Ready (negsuc n) es h u = (h, u)

-- What a search finds is in the tree, no key twice, and its keys are the C strings of the paths.
pub search-Ready :
    {A : Type 0} (t : Trie A) (prefix : List ℕ) (limit : ℤ)
    → IsSound t
    → Ready t (tr_search t prefix limit).found
search-Ready t prefix limit h =
    let es = entries_at (tr_find_node t prefix) in
    let bound = entries-find t prefix [] h in
    let answered =
      All-map _ _ (λ e found. sym (entries-find t prefix e.0 h).0 ∙ found) es
        (lookup-All es bound.1) in
    let (there, unique) = limited-Ready t prefix limit es answered bound.1 in
    rw (search-entries t prefix limit h) (whole-Ready t prefix (limited limit es) there unique)

keys_names :
    {A : Type 0} (prefix : List ℕ) (es : List (List ℕ × A))
    → (report prefix es).keys ≡ map (λ e. c_str e.0) (report prefix es).found
keys_names prefix [] = refl
keys_names prefix (e ∷ es) = ap (λ ks. c_str (prefix ++ e.0) ∷ ks) (keys_names prefix es)

pub search-names :
    {A : Type 0} (t : Trie A) (prefix : List ℕ) (limit : ℤ)
    → IsSound t
    → (tr_search t prefix limit).keys ≡ map (λ e. c_str e.0) (tr_search t prefix limit).found
search-names t prefix limit h =
    rw (search-entries t prefix limit h)
      (keys_names prefix (limited limit (entries_at (tr_find_node t prefix))))
