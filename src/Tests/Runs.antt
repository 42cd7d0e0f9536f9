-- ===== src/Tests/Runs.antt =====
-- Requests answered by evaluation: the server holds "foo" with the value "one", and "fob" with "two".
use gibson_mastter.Base.{[], ◌∷◌, ◌++◌, codes, ◌≡◌, refl, false}
use gibson_mastter.Base.Int.{of_word, to_word, wrap}
use gibson_mastter.Trie.{tr_find, tr_find_node, tr_find_next_node, scan, tr_insert, descend, store}
use gibson_mastter.Trie.Recurse.{tr_search, tr_recurse, collect, at_limit, c_str}
use gibson_mastter.Number.{parse_long, parse_digits}
use gibson_mastter.Item.{plain, is_expired, item_is_locked, stored_ttl}
use gibson_mastter.Pool.{opool_create, opool_alloc_object}
use gibson_mastter.Server.{create_item, destroy_item, is_node_still_valid, is_item_still_valid}
use gibson_mastter.Request.{word, parse_key, parse_key_and_optional_value, parse_ttl_key_value}
use gibson_mastter.Reply.{
  reply, val, kval, enqueue_item, shown, le_bytes, write_pairs, enqueue_key_value_set,
}
use gibson_mastter.Query.{single_set}
use gibson_mastter.Query.Single.{query_set, query_get}
use gibson_mastter.Query.Multi.{query_multi_get, multi_get_found, check_found}
use gibson_mastter.Query.Process.{op_of, dispatch, process_query}
use gibson_mastter.Tests.Data.{ask, filled}

get_foo : (ask filled 3 (codes "foo")).1 ≡ reply val plain (codes "one") false
unfolding of_word to_word wrap tr_find tr_find_node tr_find_next_node scan tr_insert descend store
    parse_long parse_digits is_expired item_is_locked stored_ttl opool_create opool_alloc_object
    create_item destroy_item is_node_still_valid word parse_key parse_ttl_key_value enqueue_item
    shown le_bytes single_set query_set query_get op_of dispatch process_query
get_foo = refl

mget_fo :
    (ask filled 11 (codes "fo")).1
    ≡ reply kval plain
        (le_bytes 4 2
          ++ le_bytes 4 3
          ++ codes "foo"
          ++ (0 ∷ [])
          ++ le_bytes 4 3
          ++ codes "one"
          ++ le_bytes 4 3
          ++ codes "fob"
          ++ (0 ∷ [])
          ++ le_bytes 4 3
          ++ codes "two")
        false
unfolding of_word to_word wrap tr_find tr_find_node tr_find_next_node scan tr_insert descend store
    parse_long parse_digits is_expired item_is_locked stored_ttl opool_create opool_alloc_object
    create_item destroy_item is_node_still_valid word parse_key parse_ttl_key_value enqueue_item
    shown le_bytes single_set query_set query_get op_of dispatch process_query tr_search tr_recurse
    collect at_limit c_str is_item_still_valid parse_key_and_optional_value write_pairs
    enqueue_key_value_set query_multi_get multi_get_found check_found
mget_fo = refl
