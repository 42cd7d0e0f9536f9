-- ===== src/Tests/Clients.antt =====
-- The theorems on connections at concrete inputs, and a request whose size comes in two pieces.
use gibson_mastter.Base.{
  ◌+◌, ◌-◌, ◌%◌, ◌^◌, ◌≡◌, refl, none, some, [], ◌∷◌, ◌++◌, map, take, drop, codes, true, false,
  inr, arith,
}
use gibson_mastter.Base.Int.{pos, of_word}
use gibson_mastter.Server.{Server}
use gibson_mastter.Item.{plain}
use gibson_mastter.Reply.{reply, ok, le_bytes}
use gibson_mastter.Query.Process.{process_query, op_of, dispatch, count_request}
use gibson_mastter.Query.Untouched.{surroundings}
use gibson_mastter.Query.UntouchedAll.{process_query-surroundings}
use gibson_mastter.LinkedList.{ll_prealloc}
use gibson_mastter.Client.{
  Client, alive, gone, crash, broken, frame, plan, plan_buffer, overwrite, read_size, answer,
  after_read, do_read, read_query,
}
use gibson_mastter.Client.Frame.{unframe, unframe-frame}
use gibson_mastter.Client.Reading.{idle, holding, piece, read_all, read_all-answer}
use gibson_mastter.Client.Writing.{sending, write_all, over, write_all-done}
use gibson_mastter.Client.Exchange.{processed, Leaves, read_all-Inv, exchange}
use gibson_mastter.Client.Dropped.{Unfinished, in_request, read_all-lost}
use gibson_mastter.Connections.{accept}
use gibson_mastter.Connections.Counted.{Counted}
use gibson_mastter.Connections.Reached.{started, accepted, Reached-Counted}
use gibson_mastter.Tests.Data.{plain_external, start}
use gibson_mastter.Tests.Witnesses.{set_foo, set_foo-IsClean, start-Inv}

unframe-frame_example : unframe (frame 6 0 (codes "one") ++ codes "more") ≡ (6, 0, codes "one")
unframe-frame_example = unframe-frame 6 0 (codes "one") (codes "more") (omega arith) (omega arith)

process_query-surroundings_example :
    surroundings (process_query plain_external start 1 set_foo 10).0
    ≡ record (surroundings start) { requests = (0 + 1) % 2 ^ 64 }
process_query-surroundings_example = process_query-surroundings plain_external start set_foo 10 1

-- PING in two pieces, with a pause.
read_all-answer_example :
    read_all plain_external true [] start
      (alive start (idle (pos 5) none))
      (map piece (le_bytes 4 2 ∷ (19 ∷ []) ∷ [] ∷ (0 ∷ []) ∷ []))
    ≡ answer plain_external true [] start (holding (pos 5) 5000 2 (19 ∷ 0 ∷ []))
read_all-answer_example =
    read_all-answer plain_external true [] start (pos 5) none ((19 ∷ []) ∷ [] ∷ []) (0 ∷ []) 2
      (omega arith) refl (omega arith) (omega arith) (omega arith)

ping-processed :
    processed plain_external [] start (19 ∷ 0 ∷ [])
    ≡ (count_request plain_external start, reply ok plain (0 ∷ []) false)
unfolding process_query op_of dispatch
ping-processed = refl

exchange_example :
    (client : Client) × (read_all plain_external true [] start
        (alive start (idle (pos 5) none))
        (map piece (le_bytes 4 2 ∷ (19 ∷ []) ∷ (0 ∷ []) ∷ []))
      ≡ alive (count_request plain_external start) client)
    × (write_all (count_request plain_external start) client (3 ∷ 0 ∷ 5 ∷ [])
        ≡ (some (idle (pos 5) (some 5000)), frame 5 0 (0 ∷ [])))
exchange_example =
    exchange plain_external [] start (pos 5) none ((19 ∷ []) ∷ []) (0 ∷ []) (3 ∷ 0 ∷ 5 ∷ [])
      (count_request plain_external start) ok plain (0 ∷ []) false refl (omega arith) (omega arith)
      (omega arith) (omega arith) ping-processed (omega arith) (omega arith)

-- SET of "foo" for 60 seconds.
read_all-Inv_example : Leaves (
    read_all plain_external true [] start
      (alive start (idle (pos 5) none))
      (map piece (le_bytes 4 12 ∷ (1 ∷ 0 ∷ []) ∷ set_foo ∷ [])))
read_all-Inv_example =
    read_all-Inv plain_external [] start (pos 5) true none ((1 ∷ 0 ∷ []) ∷ []) set_foo (omega arith)
      (omega arith) (omega arith) (omega arith) set_foo-IsClean start-Inv

write_all-done_example :
    write_all start (sending (pos 5) none (codes "reply and more") 5 0 false) (2 ∷ 0 ∷ 7 ∷ []) ≡ (
      over start (pos 5) (codes "reply and more") false,
      take (5 - 0) (drop 0 (codes "reply and more")),
    )
write_all-done_example =
    write_all-done start (pos 5) (codes "reply and more") false none 5 0 (2 ∷ 0 ∷ 7 ∷ [])
      (omega arith) (omega arith) (omega arith) (omega arith)

-- The size 2, one byte of the request, and an error.
part_of_two : Unfinished start (piece (le_bytes 4 2) ∷ map piece ((19 ∷ []) ∷ []))
part_of_two =
    in_request 0 2 ((19 ∷ []) ∷ []) (omega arith) (inr (omega arith, omega arith, omega arith))

read_all-lost_example :
    read_all plain_external true [] start
      (alive start (idle (pos 5) none))
      ((piece (le_bytes 4 2) ∷ map piece ((19 ∷ []) ∷ [])) ++ broken ∷ [])
    ≡ gone start
read_all-lost_example =
    read_all-lost plain_external true [] start (pos 5) none
      (piece (le_bytes 4 2) ∷ map piece ((19 ∷ []) ∷ [])) broken part_of_two tt

-- A server without clients, and one connection.
abbrev no_clients : Server
no_clients = record start { stats = record start.stats { nclients = 0 } }

Reached-Counted_example :
    Counted 255
      (accept 255 (record { server = no_clients; clients = ll_prealloc 255 }) (some (pos 5)) true)
Reached-Counted_example =
    Reached-Counted plain_external 255 (omega arith)
      {w = accept 255 (record { server = no_clients; clients = ll_prealloc 255 }) (some (pos 5))
        true}
      (accepted _ (some (pos 5)) true (started no_clients 255 refl))

-- A size that comes in as three bytes and then one: the last byte is written over the status.
split_size :
    read_all plain_external true [] start
      (alive start (idle (pos 5) none))
      (map piece ((4 ∷ 0 ∷ 0 ∷ []) ∷ (1 ∷ []) ∷ []))
    ≡ crash
unfolding read_query plan plan_buffer do_read after_read read_size overwrite le_bytes of_word answer
split_size = refl
