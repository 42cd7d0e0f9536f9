-- ===== src/Startup.antt =====
-- src/gibson.c: main, from the configuration to the event loop. `-c` and `-h` are left out, and so is
-- what gbProcessInit does besides the fork and the pid file. What is asked of the system and the texts
-- that are logged are parameters.
pub mod Begun
use gibson_mastter.Base.{
  ℕ, zero, suc, ◌==◌, ◌&&◌, ◌||◌, not, ◌+◌, ◌*◌, ◌/◌, ◌%◌, ◌^◌, Option, none, some, List, [], ◌∷◌,
  Bool, true, false, ltb, leb, if◌then◌else◌, take, codes,
}
use gibson_mastter.Base.Int.{ℤ, pos, to_word, wrap, of_word}
use gibson_mastter.Trie.{tr_init_tree, tr_find}
use gibson_mastter.Pool.{opool_create}
use gibson_mastter.Server.{External, Limits, Stats, Server}
use gibson_mastter.Cron.{Settings}
use gibson_mastter.Client.{Client}
use gibson_mastter.LinkedList.{LinkedList, ll_prealloc}
use gibson_mastter.Connections.{World}
use gibson_mastter.EventLoop.{
  FileEvent, EventLoop, create_event_loop, create_time_event, create_file_event,
}
use gibson_mastter.Config.{
  Config, Given, config_load, config_merge, config_read_int, config_read_size, config_read_time,
  config_read_string,
}
use gibson_mastter.Sockets.{Answers, Sockets, net_unix_server, net_tcp_server}
use gibson_mastter.Log.{Log, log_init, log, log_all, info, warning}

-- What the process finds: the clock in seconds and with the milliseconds of gbCreateTimeEvent, the
-- memory that is available, what the socket calls answer, the descriptors and the lines of the log file
-- (none if it cannot be opened), the texts of the calls of gbLog by their number, if all that main
-- allocates can be had and aeApiCreate succeeds, if fork answers 0, if the pid file can be written, the
-- memory of the event array and if aeApiAddEvent succeeds.
pub record Machine : Type 0 where
  pub time : ℕ
  pub now_sec : ℕ
  pub now_ms : ℕ
  pub zmem_available : ℕ
  pub os : Answers
  pub sockets : Sockets
  pub log_file : Option (List (List ℕ))
  pub texts : ℕ → List ℕ
  pub allocates : Bool
  pub is_child : Bool
  pub pid_written : Bool
  pub memory : ℕ → FileEvent
  pub added : Bool

-- UNIX and TCP
pub data ServerType : Type 0 where
  unix : ServerType
  tcp : ServerType

-- The fields of gbServer besides those of World and Settings, and what is around it.
pub record Process : Type 0 where
  pub world : World
  pub settings : Settings
  pub config : Config
  pub type : ServerType
  pub address : List ℕ
  pub port : ℤ
  pub fd : ℕ
  pub daemon : ℕ
  pub pidfile : List ℕ
  pub maxclients : ℕ
  pub maxidletime : ℤ
  pub idlecron : ℤ
  pub m_keys : LinkedList (List ℕ)
  pub m_values : LinkedList ℕ
  pub events : EventLoop
  pub cron_id : ℕ
  pub log : Log
  pub sockets : Sockets

-- The numbers that stand for gbServerCronHandler and gbAcceptHandler in the event loop.
abbrev pub cron_proc : ℕ
cron_proc = 0

abbrev pub accept_proc : ℕ
accept_proc = 1

module _ (strtol : List ℕ → ℤ × List ℕ) (m : Machine) where
  -- The flush rate of the log, an unsigned int.
  abbrev pub flush_rate : Config → ℕ
  flush_rate config =
      to_word (2 ^ 32) (config_read_int strtol config (codes "logflushrate") (pos 1))

  -- gbLogInit, none where the log file cannot be opened and the process exits. The level and the rate
  -- become unsigned.
  unfoldable pub open_log : Config → Option Log
  open_log config = elim m.log_file [
    | none ↦ none
    | some there ↦ some (
        log_init there (to_word (2 ^ 32) (config_read_int strtol config (codes "loglevel") (pos 1)))
          (flush_rate config))
  ]

  -- The server's socket: its type, address and port, and the answer.
  unfoldable pub open_socket : Config → ServerType × List ℕ × ℤ × Option ℕ × Sockets
  open_socket config = elim (tr_find config (codes "unix_socket")) [
    | some sock ↦
        let address = take 254 sock in
        let (fd, k) = net_unix_server m.os true address 511 m.sockets in
        (unix, address, pos 0, fd, k)
    | none ↦
        let address = take 254 (config_read_string config (codes "address") (codes "127.0.0.1")) in
        let port = config_read_int strtol config (codes "port") (pos 10128) in
        let (fd, k) = net_tcp_server m.os true (to_word (2 ^ 16) port) address m.sockets in
        (tcp, address, port, fd, k)
  ]

  -- The limits, with maxmem as it is configured, and the configuration that reading them leaves.
  unfoldable pub read_limits : Config → Limits × Config
  read_limits config =
      let (maxrequestsize, c1) =
        config_read_size strtol config (codes "max_request_size") (4096 * 1024) in
      let maxitemttl = config_read_int strtol c1 (codes "max_item_ttl") (pos 2592000) in
      let (maxmem, c2) = config_read_size strtol c1 (codes "max_memory") 2147483648 in
      let (maxkeysize, c3) = config_read_size strtol c2 (codes "max_key_size") 512 in
      let (maxvaluesize, c4) = config_read_size strtol c3 (codes "max_value_size") 4096 in
      let (maxresponsesize, c5) = config_read_size strtol c4 (codes "max_response_size") 40960000 in
      (
        record {
          maxitemttl = to_word (2 ^ 64) maxitemttl;
          maxkeysize = maxkeysize;
          maxvaluesize = maxvaluesize;
          maxrequestsize = maxrequestsize;
          maxresponsesize = maxresponsesize;
          maxmem = maxmem;
        },
        c5,
      )

  -- `max_memory setting is higher than total available memory`
  abbrev pub within_memory : Limits → Limits
  within_memory l =
      if ltb m.zmem_available l.maxmem then record l { maxmem = m.zmem_available / 2 } else l

  -- A call of gbLog under a condition.
  abbrev pub log_if : Bool → ℕ → ℕ → List (ℕ × List ℕ) → List (ℕ × List ℕ)
  log_if b level i es = if b then (level, m.texts i) ∷ es else es

  -- The calls of gbLog by their number, with the last of them.
  abbrev pub log_more : ℕ → ℕ → List (ℕ × List ℕ) → List (ℕ × List ℕ)
  log_more zero i es = es
  log_more (suc n) i es = (info, m.texts i) ∷ log_more n (suc i) es

  -- What main logs once it has the socket: that the memory is less than max_memory, the 15 lines on the
  -- server, and, in gbProcessInit, that the pid file cannot be written.
  unfoldable pub startup_lines : Config → List (ℕ × List ℕ)
  startup_lines config =
      log_if (ltb m.zmem_available (read_limits config).0.maxmem) warning 1
        (log_more 15 2 (log_if (not m.pid_written) warning 17 []))

  -- gbConfigReadTime( … ) * 1000
  abbrev pub times_1000 : ℤ → ℕ
  times_1000 t = to_word (2 ^ 64) t * 1000 % 2 ^ 64

  -- The fields that only the cron reads, and the configuration.
  unfoldable pub read_settings : Config → Settings × Config
  read_settings config =
      let period = config_read_int strtol config (codes "cron_period") (pos 100) in
      let (gc_ratio, c1) = config_read_time strtol config (codes "gc_ratio") (pos 900) in
      let (max_mem_cron, c2) = config_read_time strtol c1 (codes "max_mem_cron") (pos 15) in
      let (expired_cron, c3) = config_read_time strtol c2 (codes "expired_cron") (pos 5) in
      (
        record {
          error = [];
          cronperiod = to_word (2 ^ 32) period;
          gc_ratio = gc_ratio;
          expired_cron = times_1000 expired_cron;
          max_mem_cron = times_1000 max_mem_cron;
          shutdown = false;
        },
        c3,
      )

  unfoldable pub initial_stats : External → Stats
  initial_stats ext = record {
    started = m.time;
    now = m.time;
    firstin = 0;
    lastin = 0;
    requests = 0;
    connections = 0;
    nclients = 0;
    crondone = 0;
    memavail = m.zmem_available;
    nitems = 0;
    ncompressed = 0;
    memused = ext.zmem_used 0;
    mempeak = ext.zmem_used 0;
    sizeavg = 0;
    compravg = [];
  }

  abbrev pub max_clients : Config → ℕ
  max_clients config =
      to_word (2 ^ 32) (config_read_int strtol config (codes "max_clients") (pos 1024))

  -- The size of the event loop, as an unsigned int.
  abbrev pub setsize : Config → ℕ
  setsize config = (max_clients config + 1024) % 2 ^ 32

  -- The event loop with the cron's timer and the server's socket, and the timer's number.
  unfoldable pub open_loop : ℕ → ℕ → ℕ × EventLoop
  open_loop setsize fd =
      let el = create_event_loop setsize m.memory in
      let (cron_id, el1) = create_time_event el m.now_sec m.now_ms 1 cron_proc in
      let (_, el2) =
        create_file_event el1 m.added fd (record { readable = true; writable = false }) accept_proc
          0 in
      (cron_id, el2)

  abbrev pub daemonize : Config → ℕ
  daemonize config = to_word 256 (config_read_int strtol config (codes "daemonize") (pos 0))

  -- The process that has the socket `fd` and the log `l`.
  unfoldable pub begun : External → Config → ℕ → Log → Process
  begun ext config fd l =
      let (type, address, port, answer, k) = open_socket config in
      let maxidletime = config_read_int strtol config (codes "max_idletime") (pos 1) in
      let maxclients = max_clients config in
      let (limits, c1) = read_limits config in
      let (compression, c2) = config_read_size strtol c1 (codes "compression") 40960 in
      let (settings, c3) = read_settings c2 in
      let (cron_id, events) = open_loop (setsize config) fd in
      record {
        world = record {
          server = record {
            tree = tr_init_tree;
            item_pool = opool_create 39 512 (1024 * 128);
            compression = compression;
            limits = within_memory limits;
            stats = initial_stats ext;
            readings = 1;
          };
          clients = ll_prealloc maxclients;
        };
        settings = settings;
        config = c3;
        type = type;
        address = address;
        port = port;
        fd = fd;
        daemon = daemonize c2;
        pidfile = config_read_string c2 (codes "pidfile") (codes "/var/run/gibson.pid");
        maxclients = maxclients;
        maxidletime = maxidletime;
        idlecron = of_word (2 ^ 64) (to_word (2 ^ 64) maxidletime * 1000 % 2 ^ 64);
        m_keys = ll_prealloc 255;
        m_values = ll_prealloc 255;
        events = events;
        cron_id = cron_id;
        log = l;
        sockets = k;
      }

  -- The configuration that is left where `daemonize` is read.
  abbrev pub config_left : Config → Config
  config_left config =
      (config_read_size strtol (read_limits config).1 (codes "compression") 40960).1

  -- From the socket on: the process ends where there is none, where gbLog divides by zero, where memory or
  -- the back end cannot be had, where the event loop would have a negative size, and in the parent of a
  -- daemon.
  unfoldable pub start_with : External → Config → Log → Option Process
  start_with ext config l = elim (open_socket config).3 [
    | none ↦ none
    | some fd ↦ elim (log_all (startup_lines config) l) [
      | none ↦ none
      | some l' ↦
          if not m.allocates || leb (2 ^ 31) (setsize config)
          then none
          else if not (daemonize (config_left config) == 0) && not m.is_child
          then none
          else some (begun ext config fd l')
    ]
  ]

  -- main from the configuration on, none where the process ends before its event loop.
  unfoldable pub start_server : External → Config → Option Process
  start_server ext config = elim (open_log config) [
    | none ↦ none
    | some l ↦ elim (log l info (m.texts 0)) [ none ↦ none | some l' ↦ start_with ext config l' ]
  ]

  abbrev pub start_if : External → List Given → Option Config → Option Process
  start_if ext options none = none
  start_if ext options (some config) = start_server ext (config_merge (codes "hc:") config options)

  -- main: the lines of the configuration file, and what getopt_long finds in the arguments.
  abbrev pub main : External → List (List ℕ) → List Given → Option Process
  main ext file options = start_if ext options (config_load file)
