-- ===== src/EventLoop/Rescheduled.antt =====
-- src/net.c: a timer among others that gets another time, or goes. The timers have different ids and
-- less than 1000 milliseconds; `hi` is a point in time, and the timers up to it are counted.
use gibson_mastter.Base.{
  ℕ, ◌+◌, ◌<◌, ◌≡◌, ◌≢◌, ◌⊎◌, refl, sym, ap, ◌∙◌, inl, inr, Option, none, some, List, [], ◌∷◌, leb,
  if◌then◌else◌, arith, All, ==-no, ==-refl,
}
use gibson_mastter.Base.Distinct.{Absent, Distinct}
use gibson_mastter.EventLoop.{TimeEvent, without}
use gibson_mastter.EventLoop.Timers.{millis, time_of, IsTime}
use gibson_mastter.EventLoop.Process.{reschedule}

abbrev pub Among : TimeEvent → List TimeEvent → Type 0
Among te [] = ⊥
Among te (x ∷ xs) = (te ≡ x) ⊎ Among te xs

abbrev pub ids : List TimeEvent → List ℕ
ids [] = []
ids (te ∷ tes) = te.id ∷ ids tes

pub record Fine (tes : List TimeEvent) : Type 0 where
  pub distinct : Distinct (ids tes)
  pub times : All IsTime tes

Among-ne :
    (c : ℕ) (te : TimeEvent) (xs : List TimeEvent) → Absent c (ids xs) → Among te xs → te.id ≢ c
Among-ne c te [] h a = absurd a
Among-ne c te (x ∷ xs) h a = elim a [
  | inl e ↦ λ same. h.0 (sym (ap (λ (t : TimeEvent). t.id) e) ∙ same)
  | inr b ↦ Among-ne c te xs h.1 b
]

pub Among-IsTime : (te : TimeEvent) (xs : List TimeEvent) → All IsTime xs → Among te xs → IsTime te
Among-IsTime te [] h a = absurd a
Among-IsTime te (x ∷ xs) h a = elim a [ inl e ↦ rw e h.0 | inr b ↦ Among-IsTime te xs h.1 b ]

module _ (hi : ℕ) where
  abbrev pub soon : ℕ → ℕ
  soon t = if leb t hi then 1 else 0

  abbrev pub due_by : List TimeEvent → ℕ
  due_by [] = 0
  due_by (te ∷ tes) = soon (time_of te) + due_by tes

  -- The timers after one of them got another time.
  abbrev pub Moved : TimeEvent → ℕ × ℕ → List TimeEvent → Option (List TimeEvent) → Type 0
  Moved te when tes none = ⊥
  Moved te when tes (some tes') =
      (ids tes' ≡ ids tes)
      × All IsTime tes'
      × (due_by tes' + soon (time_of te) ≡ due_by tes + soon (millis when))

  Moved-cons :
      (te x : TimeEvent) (when : ℕ × ℕ) (xs : List TimeEvent) (o : Option (List TimeEvent))
      → IsTime x
      → Moved te when xs o
      → Moved te when (x ∷ xs) (elim o [ none ↦ none | some tes ↦ some (x ∷ tes) ])
  Moved-cons te x when xs none t h = h
  Moved-cons te x when xs (some tes) t h = (ap (λ l. x.id ∷ l) h.0, (t, h.1), omega (arith, h.2))

  pub reschedule-Moved :
      (te : TimeEvent) (when : ℕ × ℕ) (tes : List TimeEvent)
      → Fine tes
      → Among te tes
      → when.1 < 1000
      → Moved te when tes (reschedule te.id when tes)
  unfolding reschedule
  reschedule-Moved te when [] f a small = absurd a
  reschedule-Moved te when (x ∷ xs) f a small = elim a [
    | inl e ↦ rw (e, ==-refl x.id) (refl, (small, f.times.1), omega arith)
    | inr b ↦ rw (==-no x.id te.id (λ e. Among-ne x.id te xs f.distinct.0 b (sym e))) (
        Moved-cons te x when xs (reschedule te.id when xs) f.times.0 (
          reschedule-Moved te when xs (record { distinct = f.distinct.1; times = f.times.1 }) b
            small))
  ]

  -- The timers without one of them.
  abbrev pub Gone : TimeEvent → List TimeEvent → Option (List TimeEvent) → Type 0
  Gone te tes none = ⊥
  Gone te tes (some tes') =
      Fine tes'
      × ((c : ℕ) → Absent c (ids tes) → Absent c (ids tes'))
      × (due_by tes' + soon (time_of te) ≡ due_by tes)

  Gone-cons :
      (te x : TimeEvent) (xs : List TimeEvent) (o : Option (List TimeEvent))
      → IsTime x
      → Absent x.id (ids xs)
      → Gone te xs o
      → Gone te (x ∷ xs) (elim o [ none ↦ none | some tes ↦ some (x ∷ tes) ])
  Gone-cons te x xs none t other h = h
  Gone-cons te x xs (some tes) t other h = (
    record { distinct = (h.1 x.id other, h.0.distinct); times = (t, h.0.times) },
    λ c absent. (absent.0, h.1 c absent.1),
    omega (arith, h.2),
  )

  pub without-Gone :
      (te : TimeEvent) (tes : List TimeEvent)
      → Fine tes
      → Among te tes
      → Gone te tes (without te.id tes)
  unfolding without
  without-Gone te [] f a = absurd a
  without-Gone te (x ∷ xs) f a = elim a [
    | inl e ↦
        rw (e, ==-refl x.id)
          (record { distinct = f.distinct.1; times = f.times.1 }, λ c absent. absent.1, omega arith)
    | inr b ↦ rw (==-no x.id te.id (λ e. Among-ne x.id te xs f.distinct.0 b (sym e))) (
        Gone-cons te x xs (without te.id xs) f.times.0 f.distinct.0
          (without-Gone te xs (record { distinct = f.distinct.1; times = f.times.1 }) b))
  ]
