-- ===== src/Tests/Loop.antt =====
-- The theorems on the event loop, the polling back ends and the log at concrete inputs.
use gibson_mastter.Base.{ℕ, ◌≡◌, refl, some, [], ◌∷◌, ◌++◌, true, false, codes, arith}
use gibson_mastter.EventLoop.{search_nearest_timer, Mask, no_mask, FileEvent, create_event_loop}
use gibson_mastter.EventLoop.Process.{Running, System, fire_all, process_time_events}
use gibson_mastter.EventLoop.Called.{Calm}
use gibson_mastter.EventLoop.Timers.{Earliest, search_nearest_timer-Earliest}
use gibson_mastter.EventLoop.Ends.{Ends, process_time_events-Ends}
use gibson_mastter.EventLoop.Rescheduled.{Fine}
use gibson_mastter.Mux.{Polled, create_polled, delete_polled}
use gibson_mastter.Mux.Select
use gibson_mastter.Mux.Select.{select}
use gibson_mastter.Mux.Epoll
use gibson_mastter.Mux.Epoll.{EpollEvent}
use gibson_mastter.Mux.Watched.{Agrees, created, watched, dropped, Reached-Agrees}
use gibson_mastter.Mux.Hangup.{hangup-calls_writer}
use gibson_mastter.Log.{log_init, log_all}
use gibson_mastter.Log.Flushed.{lines, Kept, log_all-Kept}

abbrev pub blank : ℕ → FileEvent
blank i = record { mask = no_mask; rfile_proc = 0; wfile_proc = 0; client_data = 0 }

abbrev to_read : Mask
to_read = record { readable = true; writable = false }

-- A clock that stands at 5 seconds, a back end that reports nothing, and callbacks that do nothing and
-- ask for 100 milliseconds.
abbrev still : System ℕ
still = record {
  get_time = λ w. ((5, 0), w);
  poll = λ tvp s. ([], s);
  file_proc = λ proc fd client_data mask s. record s { around = proc };
  time_proc = λ proc id s. (some 100, s);
}

still-Calm : Calm still 5000 5000 (λ s. Unit {0})
still-Calm = record {
  clock = λ s p. (omega arith, omega arith, omega arith, tt);
  callback = λ proc id s p. (refl, omega arith, tt);
  looked = λ s now p. tt;
  timers = λ s tes p. tt;
}

-- A loop with the cron's timer, due since the second 4, and one that is not due.
abbrev two_timers : Running ℕ
two_timers = record {
  el = record (create_event_loop 16 blank) {
    time_event_next_id = 2;
    time_events =
        record { id = 1; when_sec = 9; when_ms = 0; time_proc = 0 }
        ∷ record { id = 0; when_sec = 4; when_ms = 900; time_proc = 0 }
        ∷ [];
  };
  last_time = 4;
  around = 0;
}

two_timers-Fine : Fine two_timers.el.time_events
two_timers-Fine = record {
  distinct = (((λ e. omega (arith, e)), tt), (tt, tt));
  times = (omega arith, (omega arith, tt));
}

process_time_events-Ends_example :
    Ends (λ s. Unit {0}) 5000 2 2 (process_time_events still 3 two_timers)
process_time_events-Ends_example =
    process_time_events-Ends still 5000 5000 (λ s. Unit {0}) still-Calm 3 two_timers two_timers-Fine
      tt (omega arith)

search_nearest_timer-Earliest_example :
    Earliest two_timers.el.time_events (search_nearest_timer two_timers.el)
search_nearest_timer-Earliest_example =
    search_nearest_timer-Earliest two_timers.el (omega arith, (omega arith, tt))

abbrev empty_loop : Polled select
empty_loop = record { el = create_event_loop 16 blank; api = Select.create }

Reached-Agrees_example :
    Agrees select (delete_polled select (create_polled select empty_loop 3 to_read 1 0).1 3 to_read)
Reached-Agrees_example =
    Reached-Agrees select {memory = blank}
      {p = delete_polled select (create_polled select empty_loop 3 to_read 1 0).1 3 to_read}
      (dropped _ 3 to_read
        (watched empty_loop 3 to_read 1 0 (created 16 Select.create (λ i. ground arith))))

-- A client that has sent a part of its request, and hangs up.
abbrev half_read : Running ℕ
half_read = record two_timers {
  el = record two_timers.el {
    events = λ i. record { mask = to_read; rfile_proc = 2; wfile_proc = 77; client_data = 0 };
  };
}

abbrev hung_up : EpollEvent
hung_up = record { fd = 3; epollin = false; epollout = false; epollerr = false; epollhup = true }

hung_up_calls_77 :
    fire_all still (Epoll.poll (hung_up ∷ [])) half_read ≡ record half_read { around = 77 }
hung_up_calls_77 = hangup-calls_writer still half_read hung_up refl refl refl

-- Three entries, of which two are high enough, in a log that is flushed every second line.
log_all-Kept_example :
    Kept 1
      ((codes "old" ∷ [])
        ++ lines 1 ((1, codes "one") ∷ (0, codes "two") ∷ (2, codes "three") ∷ []))
      (log_all
        ((1, codes "one") ∷ (0, codes "two") ∷ (2, codes "three") ∷ [])
        (log_init (codes "old" ∷ []) 1 2))
log_all-Kept_example =
    log_all-Kept ((1, codes "one") ∷ (0, codes "two") ∷ (2, codes "three") ∷ []) (codes "old" ∷ [])
      1 1 (omega arith) (omega arith)
