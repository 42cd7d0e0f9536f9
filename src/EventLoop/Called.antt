-- ===== src/EventLoop/Called.antt =====
-- src/net.c: what the body of the loop in processTimeEvents does to the timers, where a timer is due.
use gibson_mastter.Base.{
  ℕ, ◌+◌, ◌<◌, ◌≤◌, ◌≡◌, sym, subst, Option, none, some, List, Bool, true, false, arith,
}
use gibson_mastter.Base.Distinct.{Distinct}
use gibson_mastter.EventLoop.{TimeEvent, EventLoop, without, add_milliseconds, delete_time_event}
use gibson_mastter.EventLoop.Timers.{millis, add_milliseconds-millis, time_of, IsTime}
use gibson_mastter.EventLoop.Process.{
  Running, System, with_timers, reschedule, is_due, after_callback,
}
use gibson_mastter.EventLoop.Rescheduled.{
  Among, ids, Fine, soon, due_by, Moved, reschedule-Moved, Gone, without-Gone,
}

-- A time that is so far off that it is after `hi`, from `lo` on, or no time.
abbrev pub Late : ℕ → ℕ → Option ℕ → Type 0
Late lo hi none = Unit
Late lo hi (some ms) = hi < lo + ms

-- In the states `P` the clock stays between `lo` and `hi`, with less than 1000 milliseconds, and a
-- callback leaves the list of timers alone and asks for a time after `hi`, or for none.
pub record Calm {W : Type 0} (sys : System W) (lo hi : ℕ) (P : Running W → Type 0) : Type 0 where
  pub clock :
      (s : Running W)
      → P s
      → let (now, w) = sys.get_time s.around in
        (lo ≤ millis now) × (millis now ≤ hi) × (now.1 < 1000) × P (record s { around = w })
  pub callback :
      (proc id : ℕ) (s : Running W)
      → P s
      → let (o, s') = sys.time_proc proc id s in
        (s'.el.time_events ≡ s.el.time_events) × Late lo hi o × P s'
  pub looked : (s : Running W) (now : ℕ) → P s → P (record s { last_time = now })
  pub timers : (s : Running W) (tes : List TimeEvent) → P s → P (with_timers s tes)

soon-yes : (hi t : ℕ) → t ≤ hi → soon hi t ≡ 1
soon-yes hi t h = ground (arith, h)

soon-no : (hi t : ℕ) → hi < t → soon hi t ≡ 0
soon-no hi t h = ground (arith, h)

module _ {W : Type 0} (sys : System W) (lo hi : ℕ) (P : Running W → Type 0)
    (calm : Calm sys lo hi P) where
  -- The state after the callback of a timer that was due: one less is.
  abbrev pub Called : ℕ → Option (Running W) → Type 0
  Called n none = ⊥
  Called n (some s) = Fine s.el.time_events × (due_by hi s.el.time_events + 1 ≡ n) × P s

  Gone-Called :
      (te : TimeEvent) (s : Running W) (o : Option (List TimeEvent))
      → time_of te ≤ hi
      → P s
      → Gone hi te s.el.time_events o
      → Called (due_by hi s.el.time_events) (
          some (record s {
            el =
                (elim o as (λ x. Bool × EventLoop) [
                  | none ↦ (false, s.el)
                  | some tes ↦ (true, record s.el { time_events = tes })
                ]).1;
          }))
  Gone-Called te s none due p g = absurd g
  Gone-Called te s (some tes) due p g =
      (g.0, omega (arith, g.2, soon-yes hi (time_of te) due), calm.timers s tes p)

  Moved-Called :
      (te : TimeEvent) (when : ℕ × ℕ) (old : List TimeEvent) (s : Running W)
      (o : Option (List TimeEvent))
      → Distinct (ids old)
      → time_of te ≤ hi
      → hi < millis when
      → P s
      → Moved hi te when old o
      → Called (due_by hi old) (elim o [ none ↦ none | some tes ↦ some (with_timers s tes) ])
  Moved-Called te when old s none distinct due late p m = absurd m
  Moved-Called te when old s (some tes) distinct due late p m = (
    record { distinct = subst Distinct (sym m.0) distinct; times = m.1 },
    omega (arith, m.2, soon-yes hi (time_of te) due, soon-no hi (millis when) late),
    calm.timers s tes p,
  )

  after_callback-Called :
      (te : TimeEvent) (o : Option ℕ) (s : Running W)
      → Fine s.el.time_events
      → Among te s.el.time_events
      → time_of te ≤ hi
      → Late lo hi o
      → P s
      → Called (due_by hi s.el.time_events) (after_callback sys te (o, s))
  unfolding after_callback delete_time_event
  after_callback-Called te none s f a due late p =
      Gone-Called te s (without te.id s.el.time_events) due p
        (without-Gone hi te s.el.time_events f a)
  after_callback-Called te (some ms) s f a due late p =
      let now = (sys.get_time s.around).0 in
      let c = calm.clock s p in
      let when = add_milliseconds now.0 now.1 ms in
      let sum = add_milliseconds-millis now.0 now.1 ms c.2 in
      Moved-Called te when s.el.time_events (record s { around = (sys.get_time s.around).1 })
        (reschedule te.id when s.el.time_events) f.distinct due (omega (arith, sum.0, c.0, late))
        c.3 (reschedule-Moved hi te when s.el.time_events f a sum.1)

  pub due-le :
      (now : ℕ × ℕ) (te : TimeEvent)
      → now.1 < 1000
      → IsTime te
      → is_due now te ≡ true
      → time_of te ≤ millis now
  due-le now te h k e = ground (arith, h, k, e)

  -- The callback left the timers alone.
  pub Called-back :
      (te : TimeEvent) (tes : List TimeEvent) (o : Option ℕ) (s : Running W)
      → Fine tes
      → Among te tes
      → time_of te ≤ hi
      → s.el.time_events ≡ tes
      → Late lo hi o
      → P s
      → Called (due_by hi tes) (after_callback sys te (o, s))
  Called-back te tes o s f a due same late p =
      subst (λ l. Called (due_by hi l) (after_callback sys te (o, s))) same
        (after_callback-Called te o s (subst Fine (sym same) f) (subst (Among te) (sym same) a) due
          late p)
