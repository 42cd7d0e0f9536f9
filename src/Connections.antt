-- ===== src/Connections.antt =====
-- src/server.c and src/net.c: the server with its clients. A pointer to a client is the number of the
-- cell of `server->clients` that holds it. gbAcceptHandler, gbClientDestroy, and the handlers of Client
-- and Cron on the whole. A process that reads through NULL has no state.
pub mod Sized
pub mod Counted
pub mod Reached
use gibson_mastter.Base.{
  ℕ, zero, suc, ◌+◌, ◌%◌, ◌^◌, Option, none, some, List, [], ◌∷◌, Bool, true, false, leb,
  if◌then◌else◌, length,
}
use gibson_mastter.Base.Int.{ℤ}
use gibson_mastter.Server.{External, Server, incr, decr}
use gibson_mastter.LinkedList.{LinkedList, set_cell, from_free, from_head, ll_append}
use gibson_mastter.Client.{
  Client, client_create, Outcome, alive, gone, crash, Event, Sent, read_query, write_reply,
}
use gibson_mastter.Cron.{Settings, cron_handler}

pub record World : Type 0 where
  pub server : Server
  pub clients : LinkedList Client

abbrev pub cell_at : {A : Type 0} → List (Option A) → ℕ → Option A
cell_at [] i = none
cell_at (c ∷ cs) zero = c
cell_at (c ∷ cs) (suc i) = cell_at cs i

abbrev pub with_nclients : Server → ℕ → Server
with_nclients s n = record s { stats = record s.stats { nclients = n } }

-- gbClientDestroy
unfoldable pub client_destroy : World → ℕ → World
client_destroy w i = record {
  server = with_nclients w.server (decr w.server.stats.nclients);
  clients = record { cells = set_cell w.clients.cells i none; free = some i };
}

-- The cell that ll_append uses.
unfoldable pub append_cell : {A : Type 0} → LinkedList A → ℕ
append_cell l = elim (from_free l) [
  | some i ↦ i
  | none ↦ elim (from_head l) [ some i ↦ i | none ↦ length l.cells ]
]

-- `++server->stats.connections` and gbClientCreate
unfoldable pub connect : World → ℤ → World
connect w fd =
    let st = w.server.stats in
    record {
      server = record w.server {
        stats = record st {
          connections = (st.connections + 1) % 2 ^ 64;
          nclients = incr st.nclients;
        };
      };
      clients = ll_append w.clients (some (client_create fd));
    }

-- gbAcceptHandler: `accepted` is the answer of accept, `registered` that of gbCreateFileEvent.
unfoldable pub accept : ℕ → World → Option ℤ → Bool → World
accept maxclients w none registered = w
accept maxclients w (some fd) registered =
    if leb maxclients w.server.stats.nclients
    then w
    else if registered
    then connect w fd
    else client_destroy (connect w fd) (append_cell w.clients)

abbrev pub put_client : World → ℕ → Client → World
put_client w i c = record w {
  clients = record w.clients { cells = set_cell w.clients.cells i (some c) };
}

abbrev pub after_event : World → ℕ → Outcome → Option World
after_event w i (alive s c) = some (put_client (record w { server = s }) i c)
after_event w i (gone s) = some (client_destroy (record w { server = s }) i)
after_event w i crash = none

abbrev pub after_write : World → ℕ → Option Client → World
after_write w i none = client_destroy w i
after_write w i (some c) = put_client w i c

module _ (ext : External) where
  -- The handlers, for the client in a cell.
  unfoldable pub read_event : World → ℕ → Client → Bool → List ℕ → Event → Option World
  read_event w i c watched behind e = after_event w i (read_query ext watched behind w.server c e)

  unfoldable pub write_event : World → ℕ → Client → Sent → World
  write_event w i c answer = after_write w i (write_reply w.server c answer).0

  -- The cron, none where it ends the process.
  unfoldable pub timer : Settings → ℕ → World → Option World
  timer c now w = elim (cron_handler ext c now w.server) [
    | none ↦ none
    | some (period, s) ↦ some (record w { server = s })
  ]
