-- ===== src/EventLoop/Process.antt =====
-- src/net.c: processTimeEvents, gbProcessEvents and gbEventLoopMain. The callbacks, the clock and the
-- polling back end are parameters; they work on the loop and on what is around it. A callback that
-- replaces the array of file events (gbResizeSetSize, which no callback calls) is left out.
use gibson_mastter.Base.{
  ℕ, zero, suc, ◌+◌, Option, none, some, List, [], ◌∷◌, Bool, true, false, ◌&&◌, ◌||◌, not, ltb,
  leb, ◌==◌, if◌then◌else◌, length,
}
use gibson_mastter.EventLoop.{
  Mask, is_set, TimeEvent, EventLoop, add_milliseconds, delete_time_event, search_nearest_timer,
  time_until,
}

-- The loop with `lastTime`, and what is around it.
pub record Running (W : Type 0) : Type 0 where
  pub el : EventLoop
  pub last_time : ℕ
  pub around : W

-- gbFiredEvent
pub record Fired : Type 0 where
  pub fd : ℕ
  pub mask : Mask

-- The clock in seconds and milliseconds, the back end with its timeout (none to wait for ever), and
-- the callbacks: of files, by their number, the descriptor, the client data and the mask, and of timers,
-- by their number and the timer's id, with the milliseconds to the next time (none for GB_NOMORE).
pub record System (W : Type 0) : Type 0 where
  pub get_time : W → (ℕ × ℕ) × W
  pub poll : Option (ℕ × ℕ) → Running W → List Fired × Running W
  pub file_proc : ℕ → ℕ → ℕ → Mask → Running W → Running W
  pub time_proc : ℕ → ℕ → Running W → Option ℕ × Running W

-- What a list of timers comes to: an end with the number of callbacks, a callback that removes its own
-- timer and asks for another time, so that freed memory is written, or no end within the fuel.
pub data Timed (W : Type 0) : Type 0 where
  ended : ℕ → Running W → Timed W
  freed : Timed W
  unfinished : Timed W

abbrev pub with_timers : {W : Type 0} → Running W → List TimeEvent → Running W
with_timers s tes = record s { el = record s.el { time_events = tes } }

-- `te->when_sec = 0` for all timers
abbrev pub at_once : List TimeEvent → List TimeEvent
at_once [] = []
at_once (te ∷ tes) = record te { when_sec = 0 } ∷ at_once tes

-- A new time for the timer with an id, none where there is no such timer.
unfoldable pub reschedule : ℕ → ℕ × ℕ → List TimeEvent → Option (List TimeEvent)
reschedule id when [] = none
reschedule id when (te ∷ tes) =
    let rest = reschedule id when tes in
    if te.id == id
    then some (record te { when_sec = when.0; when_ms = when.1 } ∷ tes)
    else elim rest [ none ↦ none | some tes' ↦ some (te ∷ tes') ]

abbrev pub is_due : ℕ × ℕ → TimeEvent → Bool
is_due now te = ltb te.when_sec now.0 || ((now.0 == te.when_sec) && leb te.when_ms now.1)

abbrev pub continued : {W : Type 0} → Option (Running W) → (Running W → Timed W) → Timed W
continued none f = freed
continued (some s) f = f s

module _ {W : Type 0} (sys : System W) where
  -- The mask that registers the event is read again before each callback.
  abbrev pub call_reader : Fired → Running W → Running W
  call_reader f s =
      let fe = s.el.events f.fd in
      if is_set fe.mask && f.mask.readable
      then sys.file_proc fe.rfile_proc f.fd fe.client_data f.mask s
      else s

  abbrev pub call_writer : Bool → Fired → Running W → Running W
  call_writer rfired f s =
      let fe = s.el.events f.fd in
      if is_set fe.mask && f.mask.writable && (not rfired || not (fe.wfile_proc == fe.rfile_proc))
      then sys.file_proc fe.wfile_proc f.fd fe.client_data f.mask s
      else s

  -- The body of the loop over the events that fired.
  unfoldable pub fire : Fired → Running W → Running W
  fire f s = call_writer (is_set (s.el.events f.fd).mask && f.mask.readable) f (call_reader f s)

  unfoldable pub fire_all : List Fired → Running W → Running W
  fire_all [] s = s
  fire_all (f ∷ fs) s = fire_all fs (fire f s)

  -- The milliseconds that a callback asks for, from the time on that it is then.
  unfoldable pub after_callback : TimeEvent → Option ℕ × Running W → Option (Running W)
  after_callback te (none, s) = some (record s { el = (delete_time_event s.el te.id).1 })
  after_callback te (some ms, s) =
      let (now, w) = sys.get_time s.around in
      elim (reschedule te.id (add_milliseconds now.0 now.1 ms) s.el.time_events) [
        | none ↦ none
        | some tes ↦ some (with_timers (record s { around = w }) tes)
      ]

  -- The loop over the timers whose id is below `next_id`; after a callback it starts from the head
  -- again, on fuel.
  unfoldable pub run_timers : ℕ → ℕ → ℕ → List TimeEvent → Running W → Timed W
  run_timers fuel next_id processed [] s = ended processed s
  run_timers zero next_id processed (te ∷ tes) s = unfinished
  run_timers (suc fuel) next_id processed (te ∷ tes) s =
      let (now, w) = sys.get_time s.around in
      let s' = record s { around = w } in
      let again = λ (r : Running W). run_timers fuel next_id (suc processed) r.el.time_events r in
      let skipped = run_timers (suc fuel) next_id processed tes s in
      let waiting = run_timers (suc fuel) next_id processed tes s' in
      if leb next_id te.id
      then skipped
      else if is_due now te
      then continued (after_callback te (sys.time_proc te.time_proc te.id s')) again
      else waiting

  -- processTimeEvents
  unfoldable pub process_time_events : ℕ → Running W → Timed W
  process_time_events fuel s =
      let (now, w) = sys.get_time s.around in
      let tes = if ltb now.0 s.last_time then at_once s.el.time_events else s.el.time_events in
      let s' = with_timers (record s { last_time = now.0; around = w }) tes in
      run_timers fuel s.el.time_event_next_id 0 tes s'

  -- The timeout for the back end: what is left to the nearest timer, nothing, or none to wait for ever.
  unfoldable pub timeout : Bool → Bool → Running W → Option (ℕ × ℕ) × Running W
  timeout time_events dont_wait s =
      let shortest = if time_events && not dont_wait then search_nearest_timer s.el else none in
      elim shortest [
        | none ↦ (if dont_wait then some (0, 0) else none, s)
        | some te ↦
            let (now, w) = sys.get_time s.around in
            (some (time_until te now.0 now.1), record s { around = w })
      ]

  -- The polling of gbProcessEvents: the number of events and the state.
  unfoldable pub process_files : Bool → Bool → Running W → ℕ × Running W
  process_files time_events dont_wait s =
      let (tvp, s1) = timeout time_events dont_wait s in
      let (fired, s2) = sys.poll tvp s1 in (length fired, fire_all fired s2)

  abbrev pub no_fd : Option ℕ → Bool
  no_fd none = true
  no_fd (some m) = false

  abbrev pub add_processed : ℕ → Timed W → Timed W
  add_processed n (ended k s) = ended (n + k) s
  add_processed n freed = freed
  add_processed n unfinished = unfinished

  -- gbProcessEvents, with its three flags.
  unfoldable pub process_events : ℕ → Bool → Bool → Bool → Running W → Timed W
  process_events fuel time_events file_events dont_wait s =
      let polls = not (no_fd s.el.maxfd) || (time_events && not dont_wait) in
      let (n, s') = if polls then process_files time_events dont_wait s else (0, s) in
      if not time_events && not file_events
      then ended 0 s
      else if time_events
      then add_processed n (process_time_events fuel s')
      else ended n s'

  -- gbEventLoopMain, for a number of rounds, none where a round does not end.
  unfoldable pub event_loop_rounds : ℕ → ℕ → Running W → Option (Running W)
  event_loop_rounds zero fuel s = some s
  event_loop_rounds (suc n) fuel s = elim s.el.stop [
    | true ↦ some s
    | false ↦ elim (process_events fuel true true false s) [
      | ended k s' ↦ event_loop_rounds n fuel s'
      | freed ↦ none
      | unfinished ↦ none
    ]
  ]
