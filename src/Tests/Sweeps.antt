-- ===== src/Tests/Sweeps.antt =====
-- The theorems on the cron at a server that holds an item with a ttl of 60 seconds.
use gibson_mastter.Base.{◌≡◌, refl, none, some, [], ◌∷◌, codes, true, false, arith}
use gibson_mastter.Base.Int.{pos, of_word, wrap, to_word}
use gibson_mastter.Trie.{tr_find, tr_find_node, tr_find_next_node, scan, tr_insert, descend, store}
use gibson_mastter.Trie.Recurse.{at_limit}
use gibson_mastter.Number.{parse_long, parse_digits}
use gibson_mastter.Item.{Item, buffer, plain, is_expired, item_is_locked, stored_ttl}
use gibson_mastter.Pool.{opool_create, opool_alloc_object}
use gibson_mastter.Server.{Server, create_item, destroy_item}
use gibson_mastter.Request.{word, parse_ttl_key_value}
use gibson_mastter.Query.{single_set}
use gibson_mastter.Query.Single.{query_set}
use gibson_mastter.Query.Invariant.{Inv}
use gibson_mastter.Query.Kept.{process_query-Inv}
use gibson_mastter.Query.Process.{process_query, op_of, dispatch}
use gibson_mastter.Cron.{Settings, misread_limit, is_idle, cron_every, sweep_expired, tick}
use gibson_mastter.Cron.Tick.{swept, at_time, memory_due, tick-Inv, find-tick}
use gibson_mastter.Cron.Due.{run, expired_gone}
use gibson_mastter.Tests.Data.{plain_external, start}
use gibson_mastter.Tests.Witnesses.{set_foo, set_foo-IsClean, start-Inv}

-- A cron of 100 milliseconds that looks for expired items every second one of its runs.
abbrev pub settings : Settings
settings = record {
  error = [];
  cronperiod = 100;
  gc_ratio = pos 3600;
  expired_cron = 200;
  max_mem_cron = 60000;
  shutdown = false;
}

abbrev sixty_seconds : Server
sixty_seconds = (process_query plain_external start 1 set_foo 10).0

sixty_seconds-Inv : Inv sixty_seconds
sixty_seconds-Inv = process_query-Inv plain_external start 1 set_foo 10 set_foo-IsClean start-Inv

pub no_limit : misread_limit settings ≡ false
unfolding misread_limit at_limit of_word
no_limit = refl

tick-Inv_example : Inv (tick plain_external settings 5061 sixty_seconds)
tick-Inv_example = tick-Inv plain_external settings 5061 sixty_seconds sixty_seconds-Inv

find-tick_example :
    tr_find (tick plain_external settings 5061 sixty_seconds).tree (codes "foo")
    ≡ swept
        (memory_due plain_external settings
          (sweep_expired plain_external settings (at_time 5061 sixty_seconds)))
        (is_idle (pos 3600))
        5061
        (swept
          (cron_every settings 200 sixty_seconds.stats.crondone)
          is_expired
          5061
          (tr_find sixty_seconds.tree (codes "foo")))
find-tick_example =
    find-tick plain_external settings 5061 sixty_seconds (codes "foo") no_limit sixty_seconds-Inv

abbrev foo_item : Item
foo_item = record {
  address = (0, 0);
  content = buffer (codes "bar");
  size = 3;
  encoding = plain;
  last_access_time = 5000;
  time = 5000;
  ttl = pos 60;
  lock = pos 0;
}

foo_there : tr_find sixty_seconds.tree (codes "foo") ≡ some foo_item
unfolding of_word to_word wrap tr_find tr_find_node tr_find_next_node scan tr_insert descend store
    parse_long parse_digits is_expired item_is_locked stored_ttl opool_create opool_alloc_object
    create_item destroy_item word parse_ttl_key_value single_set query_set op_of dispatch
    process_query
foo_there = refl

foo_expired : is_expired foo_item 5061 ≡ true
unfolding is_expired
foo_expired = refl

never_run : sixty_seconds.stats.crondone ≡ 0
unfolding of_word to_word wrap tr_find tr_find_node tr_find_next_node scan tr_insert descend store
    parse_long parse_digits is_expired item_is_locked stored_ttl opool_create opool_alloc_object
    create_item destroy_item word parse_ttl_key_value single_set query_set op_of dispatch
    process_query
never_run = refl

expired_gone_example :
    tr_find (run plain_external settings (5061 ∷ 5061 ∷ []) sixty_seconds).tree (codes "foo") ≡ none
expired_gone_example =
    expired_gone plain_external settings (5061 ∷ 5061 ∷ []) sixty_seconds (codes "foo") foo_item
      5061 no_limit sixty_seconds-Inv (omega (arith, never_run)) (omega arith) (omega arith)
      (omega arith) (omega arith, (omega arith, tt)) foo_there foo_expired
