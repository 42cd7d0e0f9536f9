-- ===== src/EventLoop.antt =====
-- src/net.h and src/net.c: the event loop. `events` is its array, indexed by file descriptors; a mask
-- is its two bits, and a callback is a number. What the polling back end answers (aeApiAddEvent,
-- aeApiResize) is a parameter, as is the time of day.
pub mod Files
mod Maximum
pub mod Timers
pub mod Process
pub mod Rescheduled
pub mod Called
pub mod Ends
use gibson_mastter.Base.{
  ℕ, zero, suc, ◌+◌, ◌*◌, ◌-◌, ◌/◌, ◌%◌, Option, none, some, List, [], ◌∷◌, Bool, true, false, ◌&&◌,
  ◌||◌, not, ltb, leb, ◌==◌, if◌then◌else◌,
}

-- GB_READABLE and GB_WRITABLE of a mask
pub record Mask : Type 0 where
  pub readable : Bool
  pub writable : Bool

-- GB_NONE
abbrev pub no_mask : Mask
no_mask = record { readable = false; writable = false }

abbrev pub is_set : Mask → Bool
is_set m = m.readable || m.writable

-- gbFileEvent
pub record FileEvent : Type 0 where
  pub mask : Mask
  pub rfile_proc : ℕ
  pub wfile_proc : ℕ
  pub client_data : ℕ

-- gbTimeEvent
pub record TimeEvent : Type 0 where
  pub id : ℕ
  pub when_sec : ℕ
  pub when_ms : ℕ
  pub time_proc : ℕ

-- gbEventLoop. `maxfd` is none for -1.
pub record EventLoop : Type 0 where
  pub maxfd : Option ℕ
  pub setsize : ℕ
  pub time_event_next_id : ℕ
  pub events : ℕ → FileEvent
  pub time_events : List TimeEvent
  pub stop : Bool

-- gbCreateEventLoop; `events` is the memory of the array.
abbrev pub create_event_loop : ℕ → (ℕ → FileEvent) → EventLoop
create_event_loop setsize events = record {
  maxfd = none;
  setsize = setsize;
  time_event_next_id = 0;
  events = λ i. if ltb i setsize then record (events i) { mask = no_mask } else events i;
  time_events = [];
  stop = false;
}

abbrev pub update : (ℕ → FileEvent) → ℕ → FileEvent → ℕ → FileEvent
update events fd fe i = if i == fd then fe else events i

-- `mask |= …` and `mask & ~…`
abbrev pub joined : Mask → Mask → Mask
joined m n = record { readable = m.readable || n.readable; writable = m.writable || n.writable }

abbrev pub cleared : Mask → Mask → Mask
cleared m n = record {
  readable = m.readable && not n.readable;
  writable = m.writable && not n.writable;
}

-- A new maximum.
abbrev pub raised : Option ℕ → ℕ → Option ℕ
raised none fd = some fd
raised (some m) fd = if ltb m fd then some fd else some m

-- gbCreateFileEvent: GB_OK or not, and the loop. `added` is the answer of aeApiAddEvent.
unfoldable pub create_file_event : EventLoop → Bool → ℕ → Mask → ℕ → ℕ → Bool × EventLoop
create_file_event el added fd mask proc client_data =
    let fe = el.events fd in
    if leb el.setsize fd || not added then (false, el) else (
      true,
      record el {
        maxfd = raised el.maxfd fd;
        events = update el.events fd (record {
          mask = joined fe.mask mask;
          rfile_proc = if mask.readable then proc else fe.rfile_proc;
          wfile_proc = if mask.writable then proc else fe.wfile_proc;
          client_data = client_data;
        });
      },
    )

-- The loop that looks for the next maximum, below `n`.
unfoldable pub highest : (ℕ → FileEvent) → ℕ → Option ℕ
highest events zero = none
highest events (suc j) =
    let rest = highest events j in if is_set (events j).mask then some j else rest

abbrev pub is_maxfd : Option ℕ → ℕ → Bool
is_maxfd none fd = false
is_maxfd (some m) fd = fd == m

-- gbDeleteFileEvent
unfoldable pub delete_file_event : EventLoop → ℕ → Mask → EventLoop
delete_file_event el fd mask =
    let fe = el.events fd in
    let left = cleared fe.mask mask in
    let events = update el.events fd (record fe { mask = left }) in
    if leb el.setsize fd || not (is_set fe.mask) then el else record el {
      maxfd = if is_maxfd el.maxfd fd && not (is_set left) then highest events fd else el.maxfd;
      events = events;
    }

-- gbGetFileEvents
unfoldable pub get_file_events : EventLoop → ℕ → Mask
get_file_events el fd = if leb el.setsize fd then no_mask else (el.events fd).mask

abbrev pub is_above : ℕ → Option ℕ → Bool
is_above i none = true
is_above i (some m) = ltb m i

abbrev pub too_small : Option ℕ → ℕ → Bool
too_small none setsize = false
too_small (some m) setsize = leb setsize m

-- gbResizeSetSize. `resized` is the answer of aeApiResize, and `memory` the array that zrealloc gives,
-- whose first entries are those of the old one.
unfoldable pub resize_set_size : EventLoop → Bool → (ℕ → FileEvent) → ℕ → Bool × EventLoop
resize_set_size el resized memory setsize =
    let moved : ℕ → FileEvent = λ i. if ltb i el.setsize then el.events i else memory i in
    if setsize == el.setsize
    then (true, el)
    else if too_small el.maxfd setsize || not resized
    then (false, el)
    else (
      true,
      record el {
        setsize = setsize;
        events = λ i.
            if is_above i el.maxfd && ltb i setsize
            then record (moved i) { mask = no_mask }
            else moved i;
      },
    )

-- gbAddMillisecondsToNow, at the time `sec`, `ms`.
unfoldable pub add_milliseconds : ℕ → ℕ → ℕ → ℕ × ℕ
add_milliseconds sec ms milliseconds =
    let when_sec = sec + milliseconds / 1000 in
    let when_ms = ms + milliseconds % 1000 in
    if leb 1000 when_ms then (when_sec + 1, when_ms - 1000) else (when_sec, when_ms)

-- gbCreateTimeEvent: the id and the loop.
unfoldable pub create_time_event : EventLoop → ℕ → ℕ → ℕ → ℕ → ℕ × EventLoop
create_time_event el sec ms milliseconds proc =
    let (when_sec, when_ms) = add_milliseconds sec ms milliseconds in
    let id = el.time_event_next_id in
    (
      id,
      record el {
        time_event_next_id = id + 1;
        time_events =
            record { id = id; when_sec = when_sec; when_ms = when_ms; time_proc = proc }
            ∷ el.time_events;
      },
    )

-- The loop of gbDeleteTimeEvent, none where there is no event with the id.
unfoldable pub without : ℕ → List TimeEvent → Option (List TimeEvent)
without id [] = none
without id (te ∷ tes) =
    let rest = without id tes in
    if te.id == id then some tes else elim rest [ none ↦ none | some tes' ↦ some (te ∷ tes') ]

-- gbDeleteTimeEvent
unfoldable pub delete_time_event : EventLoop → ℕ → Bool × EventLoop
delete_time_event el id = elim (without id el.time_events) [
  | none ↦ (false, el)
  | some tes ↦ (true, record el { time_events = tes })
]

abbrev pub is_sooner : TimeEvent → TimeEvent → Bool
is_sooner a b = ltb a.when_sec b.when_sec || ((a.when_sec == b.when_sec) && ltb a.when_ms b.when_ms)

-- The loop of aeSearchNearestTimer.
unfoldable pub nearest_of : TimeEvent → List TimeEvent → TimeEvent
nearest_of nearest [] = nearest
nearest_of nearest (te ∷ tes) = nearest_of (if is_sooner te nearest then te else nearest) tes

-- aeSearchNearestTimer
unfoldable pub search_nearest_timer : EventLoop → Option TimeEvent
search_nearest_timer el = elim el.time_events [
  | [] ↦ none
  | te ∷ tes ↦ some (nearest_of te (te ∷ tes))
]

-- The timeout that gbProcessEvents computes for the nearest timer, in seconds and microseconds: a
-- difference below 0 becomes 0.
unfoldable pub time_until : TimeEvent → ℕ → ℕ → ℕ × ℕ
time_until te now_sec now_ms =
    if ltb te.when_ms now_ms
    then (te.when_sec - now_sec - 1, (te.when_ms + 1000 - now_ms) * 1000)
    else (te.when_sec - now_sec, (te.when_ms - now_ms) * 1000)
