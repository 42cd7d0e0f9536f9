-- ===== src/Tests/Stocked.antt =====
-- The theorems on single items at a server that holds one.
use gibson_mastter.Base.{arith, ℕ, ◌≡◌, refl, codes, some, none, List, if◌then◌else◌, true, false}
use gibson_mastter.Base.Int.{ℤ, pos, of_word}
use gibson_mastter.Trie.{tr_init_tree, tr_insert, tr_find}
use gibson_mastter.Trie.Find.{find-insert}
use gibson_mastter.Trie.Recurse.{tr_search}
use gibson_mastter.Number.{parse_long, parse_digits}
use gibson_mastter.Item.{Item, buffer, plain, is_expired, item_is_locked}
use gibson_mastter.Server.{Server}
use gibson_mastter.Request.{parse_key, parse_key_value, parse_ttl_key_value, word}
use gibson_mastter.Reply.{ok, enqueue_code, err_locked, err_not_found}
use gibson_mastter.Query.{minus_one, accessed}
use gibson_mastter.Query.Single.{query_get, query_del, query_inc_dec, query_lock, show, locked}
use gibson_mastter.Trie.SearchNodes.{SameFound, tr_search_nodes, search_nodes-search}
use gibson_mastter.Query.Listing.{decimal, digits_of}
use gibson_mastter.Query.Invariant.{IsKey-Below}
use gibson_mastter.Query.Lifetime.{later}
use gibson_mastter.Query.Locking.{lock-del}
use gibson_mastter.Query.Effects.{Stepped, inc_dec-Stepped, find-del}
use gibson_mastter.Tests.Data.{plain_external, default_limits, start, is_key-IsKey}

abbrev foo : List ℕ
foo = codes "foo"

-- The text "41", locked for `lock` seconds from 5000 on, or for ever if it is -1.
abbrev item_41 : ℤ → Item
item_41 lock = record {
  address = (0, 0);
  content = buffer (codes "41");
  size = 2;
  encoding = plain;
  last_access_time = 5000;
  time = 5000;
  ttl = minus_one;
  lock = lock;
}

abbrev stocked : ℤ → Server
stocked lock = record start { tree = (tr_insert tr_init_tree foo (item_41 lock)).0 }

stocked-foo : (lock : ℤ) → tr_find (stocked lock).tree foo ≡ some (item_41 lock)
stocked-foo lock =
    (find-insert tr_init_tree foo foo (item_41 lock) (refl, tt, tt, tt)
      (IsKey-Below foo (is_key-IsKey foo refl))).0

foo-parsed : parse_key default_limits foo 3 ≡ some foo
unfolding parse_key word
foo-parsed = refl

alive : (lock : ℤ) → is_expired (item_41 lock) 5000 ≡ false
unfolding is_expired
alive lock = refl

free : item_is_locked (item_41 (pos 0)) 5000 ≡ false
unfolding item_is_locked
free = refl

closed : item_is_locked (item_41 minus_one) 5000 ≡ true
unfolding item_is_locked
closed = refl

set_foo :
    parse_ttl_key_value default_limits (codes "0 foo bar") 9 ≡ some (codes "0", foo, codes "bar")
unfolding parse_ttl_key_value word
set_foo = refl

no_ttl : parse_long (codes "0") ≡ some (pos 0)
unfolding parse_long
no_ttl = refl

text_41 : codes "41" ≡ decimal 41
unfolding digits_of
text_41 = refl

inc_dec-Stepped_example :
    Stepped
      (stocked (pos 0))
      foo
      (item_41 (pos 0))
      (pos 1)
      (some (pos 41))
      (query_inc_dec plain_external (pos 1) (stocked (pos 0)) foo 3)
inc_dec-Stepped_example =
    inc_dec-Stepped plain_external (stocked (pos 0)) foo 3 foo (item_41 (pos 0)) (pos 1)
      (some (pos 41)) foo-parsed (stocked-foo (pos 0)) (alive (pos 0)) free (text_41, omega arith)

find-del_example :
    let (s', r) = query_del plain_external (stocked (pos 0)) foo 3 in
    (tr_find s'.tree foo ≡ none)
    × (r ≡ (
        if is_expired (item_41 (pos 0)) 5000 then enqueue_code err_not_found else enqueue_code ok))
find-del_example =
    find-del plain_external (stocked (pos 0)) foo 3 foo foo (item_41 (pos 0)) foo-parsed
      (stocked-foo (pos 0)) free

lock_foo : parse_key_value default_limits (codes "foo 60") 6 ≡ some (foo, codes "60")
unfolding parse_key_value word
lock_foo = refl

sixty : parse_long (codes "60") ≡ some (pos 60)
unfolding parse_long parse_digits of_word
sixty = refl

lock-del_example :
    let s1 = later 30 (query_lock plain_external (stocked (pos 0)) (codes "foo 60") 6).0 in
    ((query_get plain_external s1 foo 3).1
      ≡ show plain_external (stocked (pos 0)) (item_41 (pos 0)))
    × ((query_del plain_external s1 foo 3).1 ≡ enqueue_code err_locked)
    × (tr_find (query_del plain_external s1 foo 3).0.tree foo
        ≡ some (locked (stocked (pos 0)) (accessed (stocked (pos 0)) (item_41 (pos 0))) (pos 60)))
lock-del_example =
    lock-del plain_external (stocked (pos 0)) (codes "foo 60") foo 6 3 60 30 foo (codes "60")
      (item_41 (pos 0)) lock_foo sixty (stocked-foo (pos 0)) refl free foo-parsed

-- The nodes below "fo" in the same tree.
search_nodes-search_example :
    SameFound
      (tr_search_nodes (stocked (pos 0)).tree (codes "fo"))
      (tr_search (stocked (pos 0)).tree (codes "fo") (pos 0))
search_nodes-search_example = search_nodes-search (stocked (pos 0)).tree (codes "fo")
