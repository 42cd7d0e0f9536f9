-- ===== src/Tests/Process.antt =====
-- The theorems on the start and the end of the process at concrete inputs.
use gibson_mastter.Base.{ℕ, ◌≡◌, refl, none, some, List, [], ◌∷◌, true, false, codes, arith}
use gibson_mastter.Base.Int.{ℤ, pos}
use gibson_mastter.Trie.{tr_init_tree, tr_insert}
use gibson_mastter.Server.{Server}
use gibson_mastter.Query.{single_set}
use gibson_mastter.Query.Invariant.{Inv, single_set-Inv}
use gibson_mastter.Client.{client_create}
use gibson_mastter.LinkedList.Slots.{total}
use gibson_mastter.Connections.{World}
use gibson_mastter.Connections.Sized.{one}
use gibson_mastter.Connections.Counted.{Counted}
use gibson_mastter.Config.{Config, Given}
use gibson_mastter.Config.Lines.{settings}
use gibson_mastter.Sockets.{Answers, Sockets, connected, listen}
use gibson_mastter.Sockets.Opened.{Opens, tcp_server, opening, made_by, opening-Opens}
use gibson_mastter.Startup.{Machine}
use gibson_mastter.Shutdown.{server_destroy}
use gibson_mastter.Shutdown.Released.{server_destroy-released}
use gibson_mastter.EventLoop.{create_event_loop}
use gibson_mastter.Log.{log_init}
use gibson_mastter.Tests.Data.{plain_external, start}
use gibson_mastter.Tests.Witnesses.{foo, foo-IsKey, start-Inv}
use gibson_mastter.Tests.Loop.{blank}
use gibson_mastter.Tests.Sweeps.{settings as cron_settings, no_limit}

-- A system that gives the descriptor 5 and refuses to listen.
abbrev refusing : Answers
refusing = record {
  socket = some 5;
  inet_aton = λ host. some 2130706433;
  gethostbyname = λ host. none;
  getfl = true;
  connecting = connected;
  accepts = λ c. elim c [ listen n ↦ false | _ ↦ true ];
}

abbrev plain_sockets : Sockets
plain_sockets = record { opened = 0 ∷ 1 ∷ 2 ∷ []; calls = []; error = none }

opening-Opens_example :
    Opens true
      (made_by refusing (tcp_server 10128 (codes "127.0.0.1")))
      plain_sockets
      (opening refusing true (tcp_server 10128 (codes "127.0.0.1")) plain_sockets)
opening-Opens_example =
    opening-Opens refusing true (tcp_server 10128 (codes "127.0.0.1")) plain_sockets

abbrev machine : Machine
machine = record {
  time = 5000;
  now_sec = 5000;
  now_ms = 10;
  zmem_available = 1000000;
  os = record refusing { accepts = λ c. true };
  sockets = plain_sockets;
  log_file = some [];
  texts = λ i. codes "server";
  allocates = true;
  is_child = true;
  pid_written = true;
  memory = blank;
  added = true;
}

-- A strtol that reads 64 and nothing else.
abbrev strtol_64 : List ℕ → ℤ × List ℕ
strtol_64 text = (pos 64, [])

abbrev memory_config : Config
memory_config = (tr_insert tr_init_tree (codes "max_memory") (codes "64M")).0

-- A server with one item and one client.
abbrev stored : Server
stored = (single_set plain_external start (codes "bar") foo).0

abbrev with_client : World
with_client = record {
  server = record stored { stats = record stored.stats { nclients = 1 } };
  clients = record { cells = some (client_create (pos 5)) ∷ []; free = none };
}

with_client-Inv : Inv with_client.server
with_client-Inv =
    let h = single_set-Inv plain_external start (codes "bar") foo foo-IsKey start-Inv in
    record { sound = h.sound; items = h.items; counted = h.counted; compressed = h.compressed }

with_client-Counted : Counted 255 with_client
with_client-Counted = record { count = refl; bound = omega arith }

server_destroy-released_example :
    let w =
      (server_destroy plain_external cron_settings memory_config
        (create_event_loop 16 blank)
        0
        (log_init [] 0 1)
        with_client).world in
    (w.server.stats.nitems ≡ 0)
    × (w.server.stats.ncompressed ≡ 0)
    × (w.server.stats.nclients ≡ 0)
    × (total one w.clients.cells ≡ 0)
server_destroy-released_example =
    server_destroy-released plain_external cron_settings memory_config (create_event_loop 16 blank)
      0 (log_init [] 0 1) 255 with_client with_client-Inv with_client-Counted (omega arith) no_limit

-- A port in the file and another on the command line.
abbrev port_line : List (List ℕ)
port_line = codes "port 10128 " ∷ []

abbrev port_option : List Given
port_option = record { c = 0; name = codes "port"; optarg = some (codes "10129") } ∷ []

abbrev port_config : Config
port_config = (tr_insert tr_init_tree (codes "port") (codes "10128")).0
