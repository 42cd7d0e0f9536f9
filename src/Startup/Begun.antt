-- ===== src/Startup/Begun.antt =====
-- src/gibson.c: what main has made when it enters the event loop.
use gibson_mastter.Base.{ℕ, ◌^◌, ◌<◌, ◌≤◌, ◌≡◌, ◌⊎◌, Option, none, some, List, [], ◌∷◌, false, ◌≢◌}
use gibson_mastter.Base.Int.{ℤ}
use gibson_mastter.Pool.Fresh.{Owns}
use gibson_mastter.Pool.Bounds.{Fits}
use gibson_mastter.Server.{External}
use gibson_mastter.Query.Tallied.{Inv}
use gibson_mastter.Cron.{misread_limit}
use gibson_mastter.Connections.Reached.{Reached}
use gibson_mastter.Config.{Config}
use gibson_mastter.Sockets.{Sockets}
use gibson_mastter.Log.{Log, absolute}
use gibson_mastter.Startup.{
  Machine, Process, open_socket, flush_rate, daemonize, config_left, setsize,
}

module _ (strtol : List ℕ → ℤ × List ℕ) (m : Machine) (ext : External) where
  -- The server satisfies its invariant and has no client; it is a start of the states that events lead
  -- to, its limits fit in the memory there is, no item is live and the pool has room, nothing stops the sweeps, and one
  -- descriptor is open that was not, the server's.
  pub record Begins (p : Process) : Type 0 where
    pub sound : Inv p.world.server
    pub starts : Reached ext p.maxclients p.world
    pub small : p.maxclients < 2 ^ 32
    pub memory : p.world.server.limits.maxmem ≤ m.zmem_available
    pub pool : Owns p.world.server.item_pool []
    pub fits : Fits p.world.server.item_pool []
    pub sweeps : misread_limit p.settings ≡ false
    pub socket : p.sockets.opened ≡ p.fd ∷ m.sockets.opened

  -- Where there is no process: the log file cannot be opened, the flush rate is 0, there is no socket,
  -- memory or the back end could not be had, the size of the event loop is a negative int, or this is
  -- the parent of a daemon.
  abbrev pub Stopped : Config → Type 0
  Stopped config =
      (m.log_file ≡ none)
      ⊎ (flush_rate strtol m config ≡ 0)
      ⊎ ((open_socket strtol m config).3 ≡ none)
      ⊎ (m.allocates ≡ false)
      ⊎ (2 ^ 31 ≤ setsize strtol m config)
      ⊎ ((daemonize strtol m (config_left strtol m config) ≢ 0) × (m.is_child ≡ false))

  abbrev pub Started : Config → Option Process → Type 0
  Started config none = Stopped config
  Started config (some p) = Begins p

  -- The log that gbLogInit opens has the rate of the configuration.
  Opened : Config → Option Log → Type 0
  Opened config none = m.log_file ≡ none
  Opened config (some l) = absolute l.flushrate ≡ 0 → flush_rate strtol m config ≡ 0
