-- ===== src/EventLoop/Timers.antt =====
-- src/net.c: the time events, and how long the event loop sleeps.
use gibson_mastter.Base.{
  ℕ, ◌+◌, ◌*◌, ◌-◌, ◌<◌, ◌≤◌, ◌≡◌, refl, sym, ◌∙◌, ◌⊎◌, inl, inr, Option, none, some, List, [], ◌∷◌,
  if◌then◌else◌, arith, All, Bool-cases, if_rule,
}
use gibson_mastter.EventLoop.{
  TimeEvent, EventLoop, add_milliseconds, is_sooner, nearest_of, search_nearest_timer, time_until,
}

-- Points in time, in milliseconds.
abbrev pub millis : ℕ × ℕ → ℕ
millis (sec, ms) = sec * 1000 + ms

-- gbAddMillisecondsToNow comes to the time that is so many milliseconds away, with less than 1000 in
-- its second part if the clock's has.
pub add_milliseconds-millis :
    (sec ms n : ℕ)
    → ms < 1000
    → (millis (add_milliseconds sec ms n) ≡ millis (sec, ms) + n)
      × ((add_milliseconds sec ms n).1 < 1000)
unfolding add_milliseconds
add_milliseconds-millis sec ms n h = ground (arith, h)

-- How long the loop sleeps for a timer, in microseconds, is what is left until the timer, or less than
-- a second if its time is past. Milliseconds are less than 1000.
pub time_until-left :
    (te : TimeEvent) (now_sec now_ms : ℕ)
    → te.when_ms < 1000
    → now_ms < 1000
    → let (sec, usec) = time_until te now_sec now_ms in
      (usec < 1000000)
      × (millis (now_sec, now_ms) ≤ millis (te.when_sec, te.when_ms)
          → sec * 1000000 + usec
            ≡ (millis (te.when_sec, te.when_ms) - millis (now_sec, now_ms)) * 1000)
      × (millis (te.when_sec, te.when_ms) < millis (now_sec, now_ms) → sec ≡ 0)
unfolding time_until
time_until-left te now_sec now_ms h k = ground (arith, h, k)

abbrev pub time_of : TimeEvent → ℕ
time_of te = millis (te.when_sec, te.when_ms)

abbrev pub IsTime : TimeEvent → Type 0
IsTime te = te.when_ms < 1000

abbrev pub sooner : TimeEvent → TimeEvent → TimeEvent
sooner te best = if is_sooner te best then te else best

sooner-IsTime :
    (te best : TimeEvent)
    → IsTime te
    → IsTime best
    → (time_of (sooner te best) ≤ time_of te)
      × (time_of (sooner te best) ≤ time_of best)
      × IsTime (sooner te best)
sooner-IsTime te best h k = elim (Bool-cases (is_sooner te best)) [
  | inl first ↦ rw first (omega arith, ground (arith, first, h, k), h)
  | inr later ↦ rw later (ground (arith, later, h, k), omega arith, k)
]

nearest_of-time :
    (tes : List TimeEvent) (best : TimeEvent)
    → All IsTime tes
    → IsTime best
    → (time_of (nearest_of best tes) ≤ time_of best)
      × All (λ t. time_of (nearest_of best tes) ≤ time_of t) tes
unfolding nearest_of
nearest_of-time [] best h k = (omega arith, tt)
nearest_of-time (te ∷ tes) best (h, hs) k =
    let (first, second, ok) = sooner-IsTime te best h k in
    let (below, all) = nearest_of-time tes (sooner te best) hs ok in
    (omega (arith, below, second), (omega (arith, below, first), all))

abbrev pub Listed : TimeEvent → List TimeEvent → Type 0
Listed te [] = ⊥
Listed te (t ∷ ts) = (te ≡ t) ⊎ Listed te ts

nearest_of-Listed :
    (tes : List TimeEvent) (best : TimeEvent) → Listed (nearest_of best tes) (best ∷ tes)
unfolding nearest_of
nearest_of-Listed [] best = inl refl
nearest_of-Listed (te ∷ tes) best = behind (nearest_of-Listed tes (sooner te best))
  where
    behind :
        Listed (nearest_of (sooner te best) tes) (sooner te best ∷ tes)
        → Listed (nearest_of (sooner te best) tes) (best ∷ te ∷ tes)
    behind (inr l) = inr (inr l)
    behind (inl e) =
        if_rule
          (λ t. t ≡ sooner te best → Listed (nearest_of (sooner te best) tes) (best ∷ te ∷ tes))
          (is_sooner te best) te best (λ _ same. inr (inl (e ∙ sym same)))
          (λ _ same. inl (e ∙ sym same)) refl

-- The earliest of some timers, none if there are none.
abbrev pub Earliest : List TimeEvent → Option TimeEvent → Type 0
Earliest tes none = tes ≡ []
Earliest tes (some nearest) = Listed nearest tes × All (λ t. time_of nearest ≤ time_of t) tes

-- aeSearchNearestTimer finds the earliest of the timers, where each has less than 1000 milliseconds; it
-- finds none only if there is none.
pub search_nearest_timer-Earliest :
    (el : EventLoop) → All IsTime el.time_events → Earliest el.time_events (search_nearest_timer el)
unfolding search_nearest_timer
search_nearest_timer-Earliest el h = go el.time_events h
  where
    go :
        (tes : List TimeEvent)
        → All IsTime tes
        → Earliest tes (search_nearest_timer (record el { time_events = tes }))
    go [] h = refl
    go (te ∷ tes) (h, hs) =
        (again (nearest_of-Listed (te ∷ tes) te), (nearest_of-time (te ∷ tes) te (h, hs) h).1)
      where
        again :
            Listed (nearest_of te (te ∷ tes)) (te ∷ te ∷ tes)
            → Listed (nearest_of te (te ∷ tes)) (te ∷ tes)
        again (inl e) = inl e
        again (inr l) = l
