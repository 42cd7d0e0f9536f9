-- ===== src/Shutdown.antt =====
-- src/server.c: the end of the process, gbSignalHandler and gbServerDestroy. What they log is left out,
-- and memory that is released is named where it holds something.
pub mod Released
use gibson_mastter.Base.{
  ℕ, zero, suc, ◌+◌, Option, none, some, List, [], ◌∷◌, ◌++◌, Bool, true, false,
}
use gibson_mastter.Trie.{Trie, node_data}
use gibson_mastter.Trie.Recurse.{tr_recurse}
use gibson_mastter.Trie.Free.{tr_free}
use gibson_mastter.Pool.{opool_destroy}
use gibson_mastter.Item.{Item}
use gibson_mastter.Server.{External, Server, destroy_item}
use gibson_mastter.Cron.{Settings, misread_limit}
use gibson_mastter.Client.{Client}
use gibson_mastter.Connections.{World, client_destroy}
use gibson_mastter.EventLoop.{EventLoop, delete_time_event}
use gibson_mastter.Config.{Config}
use gibson_mastter.Log.{Log, log_finalize}

pub data Signal : Type 0 where
  sigterm : Signal
  sigsegv : Signal
  sigill : Signal
  sigfpe : Signal

-- gbSignalHandler, none where it ends the process.
abbrev pub signal_handler : Signal → Settings → Option Settings
signal_handler sigterm c = some (record c { shutdown = true })
signal_handler _ c = none

module _ (ext : External) where
  -- gbObjectDestroyHandler
  abbrev pub object_destroy_handler : List ℕ → Trie Item → Server → Server
  object_destroy_handler path elem s = elim (node_data elem) [
    | none ↦ s
    | some item ↦ destroy_item ext s item
  ]

  -- `tr_recurse( &server->tree, gbObjectDestroyHandler, server, 0 )`
  unfoldable pub destroy_objects : Settings → Server → Server
  destroy_objects c s = tr_recurse (λ r. misread_limit c) object_destroy_handler s.tree [] s

-- gbConfigDestroyHandler: the strings that are freed.
abbrev pub config_destroy_handler : List ℕ → Config → List (List ℕ) → List (List ℕ)
config_destroy_handler path elem freed = elim (node_data elem) [
  | none ↦ freed
  | some text ↦ text ∷ freed
]

-- `tr_recurse( &server->config, gbConfigDestroyHandler, server, 0 )`
unfoldable pub destroy_config : Settings → Config → List (List ℕ)
destroy_config c config = tr_recurse (λ r. misread_limit c) config_destroy_handler config [] []

-- The loop over the clients, from the cell `i` on.
unfoldable pub destroy_clients : List (Option Client) → ℕ → World → World
destroy_clients [] i w = w
destroy_clients (none ∷ cs) i w = destroy_clients cs (suc i) w
destroy_clients (some client ∷ cs) i w = destroy_clients cs (suc i) (client_destroy w i)

-- What is left when the process exits.
pub record Ended : Type 0 where
  pub world : World
  pub freed : List (List ℕ)
  pub events : EventLoop
  pub log : Log

-- opool_destroy and tr_free
abbrev pub release_memory : World → World
release_memory w = record w {
  server = record w.server {
    tree = (tr_free w.server.tree).0;
    item_pool = (opool_destroy w.server.item_pool).0;
  };
}

-- gbServerDestroy, up to its exit.
unfoldable pub server_destroy : External → Settings → Config → EventLoop → ℕ → Log → World → Ended
server_destroy ext c config events cron_id log w =
    let s = destroy_objects ext c w.server in
    record {
      world = release_memory (destroy_clients w.clients.cells 0 (record w { server = s }));
      freed = destroy_config c config;
      events = (delete_time_event events cron_id).1;
      log = log_finalize log;
    }
