-- ===== src/Tests/Witnesses.antt =====
-- The theorems at concrete inputs.
use gibson_mastter.Base.{
  false, ℕ, ◌≡◌, refl, ◌∷◌, [], ◌++◌, codes, some, none, arith, subst, ◌+◌, ◌≢◌, All, List,
}
use gibson_mastter.Base.Int.{of_word, pos}
use gibson_mastter.Trie.{
  Trie, tr_init_tree, tr_find, tr_find_node, tr_find_next_node, tr_insert, tr_remove, scan,
}
use gibson_mastter.Trie.Shape.{IsSound, insert-IsSound}
use gibson_mastter.Trie.Find.{find-insert, find-remove}
use gibson_mastter.Trie.Entries.{lookup, Unique}
use gibson_mastter.Trie.Recurse.{tr_search}
use gibson_mastter.Trie.Search.{search-entries, entries-find, report, limited, entries_at}
use gibson_mastter.Trie.Weigh.{weigh, weight, weigh-insert}
use gibson_mastter.Number.{parse_long, parse_digits}
use gibson_mastter.Item.{plain}
use gibson_mastter.Pool.{Pool, opool_create, opool_alloc_object, opool_free_object}
use gibson_mastter.Pool.Fresh.{Owns, Apart, alloc-Owns, free-Owns}
use gibson_mastter.Pool.Bounds.{InBlock, Fits, create-Fits, alloc-Fits}
use gibson_mastter.Request.{parse_key, parse_key_value, parse_ttl_key_value, word}
use gibson_mastter.Request.Bounds.{parse_key_value-written}
use gibson_mastter.Reply.{reply, val}
use gibson_mastter.Query.{single_set}
use gibson_mastter.Query.Single.{query_get, query_set}
use gibson_mastter.Query.Listing.{decimal}
use gibson_mastter.Query.Decimal.{parse_long-decimal}
use gibson_mastter.Query.Lifetime.{set-get, later, RoundTrips}
use gibson_mastter.Query.Process.{process_query}
use gibson_mastter.Query.Invariant.{Inv, IsKey, IsKey-Below, find-single_set}
use gibson_mastter.Query.Keeps.{IsClean}
use gibson_mastter.Query.Kept.{process_query-Inv}
use gibson_mastter.Tests.Data.{is_key-IsKey, plain_external, default_limits, start}

empty-IsSound : IsSound (tr_init_tree {A = ℕ})
empty-IsSound = (refl, tt, tt, tt)

abbrev pub foo : List ℕ
foo = codes "foo"

abbrev fob : List ℕ
fob = codes "fob"

pub foo-IsKey : IsKey foo
foo-IsKey = is_key-IsKey foo refl

fob-IsKey : IsKey fob
fob-IsKey = is_key-IsKey fob refl

abbrev sample : Trie ℕ
sample = (tr_insert tr_init_tree foo 7).0

sample-IsSound : IsSound sample
sample-IsSound = (insert-IsSound tr_init_tree foo 7 (IsKey-Below foo foo-IsKey) empty-IsSound).0

insert-IsSound_example : IsSound (tr_insert sample fob 9).0 × IsSound (tr_remove sample fob).0
insert-IsSound_example = insert-IsSound sample fob 9 (IsKey-Below fob fob-IsKey) sample-IsSound

find-insert_example :
    (tr_find (tr_insert sample fob 9).0 foo ≡ tr_find sample foo)
    × ((tr_insert sample fob 9).1 ≡ tr_find sample fob)
find-insert_example = find-insert sample fob foo 9 sample-IsSound (IsKey-Below fob fob-IsKey)

find-remove_example :
    (tr_find (tr_remove sample foo).0 foo ≡ none) × ((tr_remove sample foo).1 ≡ tr_find sample foo)
find-remove_example = find-remove sample foo foo

search-entries_example :
    tr_search sample (codes "fo") (pos 2)
    ≡ report (codes "fo") (limited (pos 2) (entries_at (tr_find_node sample (codes "fo"))))
search-entries_example = search-entries sample (codes "fo") (pos 2) sample-IsSound

entries-find_example :
    (lookup (codes "o") (entries_at (tr_find_node sample (codes "fo")))
      ≡ tr_find sample (codes "fo" ++ codes "o"))
    × Unique (entries_at (tr_find_node sample (codes "fo")))
entries-find_example = entries-find sample (codes "fo") (codes "o") sample-IsSound

weigh-insert_example :
    weigh (λ n. n) (tr_insert sample foo 9).0 + weight (λ n. n) (tr_insert sample foo 9).1
    ≡ weigh (λ n. n) sample + 9
weigh-insert_example = weigh-insert (λ n. n) sample foo 9 (IsKey-Below foo foo-IsKey) sample-IsSound

abbrev one_pool : Pool
one_pool = opool_create 48 1 8

one_pool-Owns : Owns one_pool []
unfolding opool_create
one_pool-Owns = record {
  live_made = tt;
  free_made = tt;
  live_apart = tt;
  free_apart = tt;
  apart = tt;
}

one_pool-Fits : Fits one_pool []
one_pool-Fits = create-Fits 48 1 8 (omega arith) (omega arith) (omega arith) (omega arith)

alloc-Fits_example :
    let (p', a) = opool_alloc_object one_pool in
    Apart a [] × InBlock p' a × Owns p' (a ∷ []) × Fits p' (a ∷ [])
alloc-Fits_example = alloc-Fits one_pool [] one_pool-Owns one_pool-Fits

free-Owns_example :
    Owns (opool_free_object (opool_alloc_object one_pool).0 (opool_alloc_object one_pool).1) []
free-Owns_example =
    free-Owns (opool_alloc_object one_pool).0 (opool_alloc_object one_pool).1 []
      (alloc-Owns one_pool [] one_pool-Owns).1

no_space : All (λ b. b ≢ b' ') foo
no_space = ((λ e. omega (arith, e)), ((λ e. omega (arith, e)), ((λ e. omega (arith, e)), tt)))

parse_key_value-written_example :
    parse_key_value default_limits (foo ++ (b' ' ∷ (codes "bar" ++ codes "x"))) (3 + 1 + 3)
    ≡ some (foo, codes "bar")
parse_key_value-written_example =
    parse_key_value-written default_limits foo (codes "bar") (codes "x") no_space (omega arith)
      (omega arith) (omega arith) (omega arith) (omega arith)

parse_long-decimal_example : parse_long (decimal 2592000) ≡ some (pos 2592000)
parse_long-decimal_example = parse_long-decimal 2592000 (omega arith)

pub start-Inv : Inv start
unfolding weigh
start-Inv = record {
  sound = (refl, tt, tt, tt);
  items = (tt, tt);
  counted = refl;
  compressed = refl;
}

find-single_set_example :
    tr_find (single_set plain_external start (codes "bar") foo).0.tree fob ≡ tr_find start.tree fob
find-single_set_example =
    find-single_set plain_external start (codes "bar") foo fob foo-IsKey start-Inv.sound

abbrev pub set_foo : List ℕ
set_foo = codes "60 foo bar"

pub set_foo-IsClean : IsClean default_limits set_foo 10
unfolding parse_key parse_ttl_key_value word
set_foo-IsClean = record {
  key =
      λ k e. let same : codes "60" ≡ k = cc e in subst IsKey same (is_key-IsKey (codes "60") refl);
  set_key = λ t k v e. let same : foo ≡ k = cc e in subst IsKey same foo-IsKey;
}

process_query-Inv_example : Inv (process_query plain_external start 1 set_foo 10).0
process_query-Inv_example =
    process_query-Inv plain_external start 1 set_foo 10 set_foo-IsClean start-Inv

plain-RoundTrips : RoundTrips plain_external (codes "bar") 4194304
plain-RoundTrips n compressed = absurd (compressed refl)

set_foo-parsed : parse_ttl_key_value default_limits set_foo 10 ≡ some (codes "60", foo, codes "bar")
unfolding parse_ttl_key_value word
set_foo-parsed = refl

sixty : parse_long (codes "60") ≡ some (pos 60)
unfolding parse_long parse_digits of_word
sixty = refl

nothing_there : tr_find start.tree foo ≡ none
unfolding tr_find tr_find_node tr_find_next_node scan
nothing_there = refl

foo-parsed : parse_key default_limits foo 3 ≡ some foo
unfolding parse_key word
foo-parsed = refl

set-get_example :
    (query_get plain_external (later 59 (query_set plain_external start set_foo 10).0) foo 3).1
    ≡ reply val plain (codes "bar") false
set-get_example =
    set-get plain_external start set_foo foo 10 3 (codes "60") foo (codes "bar") 60 59 start-Inv
      foo-IsKey plain-RoundTrips set_foo-parsed sixty (omega arith) (omega arith) (omega arith) refl
      (rw nothing_there refl) foo-parsed
