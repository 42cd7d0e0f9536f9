-- ===== src/EventLoop/Ends.antt =====
-- src/net.c: processTimeEvents ends.
use gibson_mastter.Base.{
  ℕ, zero, suc, ◌+◌, ◌<◌, ◌≤◌, ◌≡◌, refl, sym, subst, ap, ◌⊎◌, inl, inr, Option, none, some, List,
  [], ◌∷◌, false, leb, ltb, arith, All, length, le_of_leb, if_rule,
}
use gibson_mastter.Base.Distinct.{Distinct}
use gibson_mastter.EventLoop.{TimeEvent}
use gibson_mastter.EventLoop.Timers.{millis, time_of, IsTime}
use gibson_mastter.EventLoop.Called.{Calm, Called, due-le, Called-back}
use gibson_mastter.EventLoop.Process.{
  Running, System, Timed, ended, freed, unfinished, continued, with_timers, at_once, is_due,
  after_callback, run_timers, process_time_events,
}
use gibson_mastter.EventLoop.Rescheduled.{Among, Among-IsTime, ids, Fine, due_by}

-- A timer that has been run: it is not one of those from before, or not due.
abbrev pub Ran : ℕ → ℕ → TimeEvent → Type 0
Ran lo next_id te = (next_id ≤ te.id) ⊎ (lo < time_of te)

-- An end, after at most `n` callbacks, in a state with the timers as they should be, all of them run.
abbrev pub Ends : {W : Type 0} → (Running W → Type 0) → ℕ → ℕ → ℕ → Timed W → Type 0
Ends P lo next_id n (ended k s) =
    (k ≤ n)
    × Fine s.el.time_events
    × P s
    × ((te : TimeEvent) → Among te s.el.time_events → Ran lo next_id te)
Ends P lo next_id n freed = ⊥
Ends P lo next_id n unfinished = ⊥

at_once-same :
    (tes : List TimeEvent)
    → All IsTime tes
    → (ids (at_once tes) ≡ ids tes) × All IsTime (at_once tes) × (length (at_once tes) ≡ length tes)
at_once-same [] h = (refl, tt, refl)
at_once-same (te ∷ tes) h =
    let rest = at_once-same tes h.1 in (ap (λ l. te.id ∷ l) rest.0, (h.0, rest.1), ap suc rest.2)

module _ {W : Type 0} (sys : System W) (lo hi : ℕ) (P : Running W → Type 0)
    (calm : Calm sys lo hi P) where
  again-Ends :
      (next_id : ℕ) (tes : List TimeEvent) (processed : ℕ) (o : Option (Running W))
      (k : Running W → Timed W)
      → Called sys lo hi P calm (due_by hi tes) o
      → ((r : Running W)
          → Fine r.el.time_events
          → P r
          → due_by hi r.el.time_events + 1 ≡ due_by hi tes
          → Ends P lo next_id (suc processed + due_by hi r.el.time_events) (k r))
      → Ends P lo next_id (processed + due_by hi tes) (continued o k)
  again-Ends next_id tes processed none k called rest = absurd called
  again-Ends next_id tes processed (some r) k called rest =
      subst (λ n. Ends P lo next_id n (k r)) (omega (arith, called.1))
        (rest r called.0 called.2 called.1)

  wait-Ran :
      (next_id : ℕ) (now : ℕ × ℕ) (te : TimeEvent)
      → lo ≤ millis now
      → now.1 < 1000
      → is_due now te ≡ false
      → Ran lo next_id te
  wait-Ran next_id now te l h e = inr (ground (arith, l, h, e))

  -- One timer more has been run.
  passed-cons :
      (next_id : ℕ) (te x : TimeEvent) (tes : List TimeEvent)
      → Ran lo next_id x
      → Among te (x ∷ tes) ⊎ Ran lo next_id te
      → Among te tes ⊎ Ran lo next_id te
  passed-cons next_id te x tes ran (inl (inl e)) = inr (rw e ran)
  passed-cons next_id te x tes ran (inl (inr a)) = inl a
  passed-cons next_id te x tes ran (inr r) = inr r

  passed-nil : (next_id : ℕ) (te : TimeEvent) → Among te [] ⊎ Ran lo next_id te → Ran lo next_id te
  passed-nil next_id te (inl a) = absurd a
  passed-nil next_id te (inr r) = r

  -- From a suffix of the timers on, with the others run, and with fuel for all that are due.
  run_timers-Ends :
      (fuel next_id processed : ℕ) (tes : List TimeEvent) (s : Running W)
      → ((te : TimeEvent) → Among te tes → Among te s.el.time_events)
      → ((te : TimeEvent) → Among te s.el.time_events → Among te tes ⊎ Ran lo next_id te)
      → Fine s.el.time_events
      → P s
      → due_by hi s.el.time_events < fuel
      → Ends P lo next_id
          (processed + due_by hi s.el.time_events)
          (run_timers sys fuel next_id processed tes s)
  unfolding run_timers
  run_timers-Ends fuel next_id processed [] s sub passed f p enough =
      (omega arith, f, p, λ te a. passed-nil next_id te (passed te a))
  run_timers-Ends zero next_id processed (te ∷ tes) s sub passed f p enough =
      absurd (omega (arith, enough))
  run_timers-Ends (suc fuel) next_id processed (te ∷ tes) s sub passed f p enough =
      let now = (sys.get_time s.around).0 in
      let s' = record s { around = (sys.get_time s.around).1 } in
      let c = calm.clock s p in
      let Goal = Ends P lo next_id (processed + due_by hi s.el.time_events) in
      if_rule Goal (leb next_id te.id) _ _
        (λ new.
          run_timers-Ends (suc fuel) next_id processed tes s (λ t a. sub t (inr a))
            (λ t a. passed-cons next_id t te tes (inl (le_of_leb _ _ new)) (passed t a)) f p enough)
        λ _.
          if_rule Goal (is_due now te) _ _
            (λ due.
              let at = sub te (inl refl) in
              let early =
                due-le sys lo hi P calm now te c.2 (Among-IsTime te s.el.time_events f.times at)
                  due in
              let answer = sys.time_proc te.time_proc te.id s' in
              let back = calm.callback te.time_proc te.id s' c.3 in
              again-Ends next_id s.el.time_events processed (after_callback sys te answer)
                (λ r. run_timers sys fuel next_id (suc processed) r.el.time_events r)
                (Called-back sys lo hi P calm te s.el.time_events answer.0 answer.1 f at
                  (omega (arith, early, c.1)) back.0 back.1 back.2)
                (λ r g q fewer.
                  run_timers-Ends fuel next_id (suc processed) r.el.time_events r (λ t a. a)
                    (λ t a. inl a) g q (omega (arith, fewer, enough))))
            (λ waits.
              run_timers-Ends (suc fuel) next_id processed tes s' (λ t a. sub t (inr a))
                (λ t a.
                  passed-cons next_id t te tes (wait-Ran next_id now te c.0 c.2 waits) (passed t a))
                f c.3 enough)

  due_by-le : (tes : List TimeEvent) → due_by hi tes ≤ length tes
  due_by-le [] = omega arith
  due_by-le (te ∷ tes) = ground (arith, due_by-le tes)

  more-Ends :
      (next_id m n : ℕ) (r : Timed W) → m ≤ n → Ends P lo next_id m r → Ends P lo next_id n r
  more-Ends next_id m n (ended k s) h e = (omega (arith, h, e.0), e.1, e.2, e.3)
  more-Ends next_id m n freed h e = e
  more-Ends next_id m n unfinished h e = e

  -- From the head of the timers on.
  all_timers-Ends :
      (fuel next_id n : ℕ) (tes : List TimeEvent) (s : Running W)
      → Fine tes
      → length tes ≡ n
      → P s
      → n < fuel
      → Ends P lo next_id n (run_timers sys fuel next_id 0 tes (with_timers s tes))
  all_timers-Ends fuel next_id n tes s f len p enough =
      more-Ends next_id (0 + due_by hi tes) n
        (run_timers sys fuel next_id 0 tes (with_timers s tes)) (omega (arith, due_by-le tes, len))
        (run_timers-Ends fuel next_id 0 tes (with_timers s tes) (λ t a. a) (λ t a. inl a) f
          (calm.timers s tes p) (omega (arith, due_by-le tes, len, enough)))

  -- While the clock stays between two times and the callbacks are calm, processTimeEvents ends: it makes
  -- at most one callback for each timer, and leaves no timer from before it that is due at the first of
  -- the two times.
  pub process_time_events-Ends :
      (fuel : ℕ) (s : Running W)
      → Fine s.el.time_events
      → P s
      → length s.el.time_events < fuel
      → Ends P lo s.el.time_event_next_id (length s.el.time_events) (process_time_events sys fuel s)
  unfolding process_time_events
  process_time_events-Ends fuel s f p enough =
      let now = (sys.get_time s.around).0 in
      let s' = record s { last_time = now.0; around = (sys.get_time s.around).1 } in
      let tes = s.el.time_events in
      let p' =
        calm.looked (record s { around = (sys.get_time s.around).1 }) now.0 (calm.clock s p).3 in
      let ends = λ (l : List TimeEvent) (g : Fine l) (e : length l ≡ length tes).
        all_timers-Ends fuel s.el.time_event_next_id (length tes) l s' g e p' enough in
      let zeroed = at_once-same tes f.times in
      if_rule
        (λ l.
          Ends P lo s.el.time_event_next_id (length tes)
            (run_timers sys fuel s.el.time_event_next_id 0 l (with_timers s' l)))
        (ltb now.0 s.last_time) _ _
        (λ _.
          ends (at_once tes)
            (record { distinct = subst Distinct (sym zeroed.0) f.distinct; times = zeroed.1 })
            zeroed.2)
        (λ _. ends tes f refl)
