-- ===== src/Cron/Due.antt =====
-- src/server.c: how often a sweep comes, and that what has expired is gone in the end.
use native.Mathlib.Nat.{mod-add-mod, mod_self, mod-lt, mod-eq_of_lt, zero-mod, le-div_iff_mul-le}
use gibson_mastter.Base.{
  ltb, ℕ, zero, suc, ◌+◌, ◌-◌, ◌/◌, ◌%◌, ◌<◌, ◌≤◌, ◌≡◌, refl, sym, ap, ◌∙◌, inl, inr, ◌⊎◌, Bool,
  true, false, ◌==◌, leb, Option, none, some, List, [], ◌∷◌, length, arith, Bool-cases, All,
}
use gibson_mastter.Trie.{tr_find}
use gibson_mastter.Item.{Item, is_expired}
use gibson_mastter.Server.{External, Server, uint_mod}
use gibson_mastter.Cron.{Settings, misread_limit, is_idle, cron_every, tick, sweep_expired}
use gibson_mastter.Cron.Tick.{swept, find-tick, tick-Inv, crondone-tick, at_time, memory_due}
use gibson_mastter.Query.Invariant.{Inv}

-- From every number a multiple of `q` is less than `q` steps away.
reach_multiple : (q n : ℕ) → 0 < q → (j : ℕ) × (j < q) × ((n + j) % q ≡ 0)
reach_multiple q n h = elim (Bool-cases (n % q == 0)) [
  | inl e ↦ (0, h, ground (arith, e))
  | inr e ↦ (
    q - n % q,
    ground (arith, e),
    sym (mod-add-mod n q (q - n % q))
        ∙ ap (λ k. k % q) (fill_up q (n % q) (mod-lt n h))
        ∙ mod_self q,
  )
]
  where
    fill_up : (q r : ℕ) → r < q → r + (q - r) ≡ q
    fill_up q r lt = omega arith

-- A counter that comes to a multiple of `q`, or wraps to 0, within `q` steps.
due_within : (q n m : ℕ) → 0 < q → n < m → (j : ℕ) × (j < q) × (((n + j) % m) % q ≡ 0)
due_within q n m h lt =
    let (j, below, multiple) = reach_multiple q n h in
    elim (Bool-cases (ltb (n + j) m)) [
      | inl stays ↦ (j, below, ap (λ k. k % q) (mod-eq_of_lt (of_ltb (n + j) m stays)) ∙ multiple)
      | inr wraps ↦ (
        m - n,
        ground (arith, wraps),
        ap (λ k. k % m % q) (fill_up n m lt) ∙ ap (λ k. k % q) (mod_self m) ∙ zero-mod q,
      )
    ]
  where
    fill_up : (n m : ℕ) → n < m → n + (m - n) ≡ m
    fill_up n m lt = omega arith

    of_ltb : (a b : ℕ) → ltb a b ≡ true → a < b
    of_ltb a b e = ground (arith, e)

-- A block of the cron handler is due within the number of runs that its interval has.
pub cron_every-due :
    (c : Settings) (ms n : ℕ)
    → 0 < c.cronperiod
    → n < uint_mod
    → (j : ℕ) × ((j ≡ 0) ⊎ (j < ms / c.cronperiod)) × (cron_every c ms ((n + j) % uint_mod) ≡ true)
unfolding cron_every
cron_every-due c ms n positive small = elim (Bool-cases (leb ms c.cronperiod)) [
  | inl short ↦ (0, inl refl, rw short refl)
  | inr long ↦
      let (j, below, multiple) =
        due_within (ms / c.cronperiod) n uint_mod (div-pos ms c.cronperiod positive long) small in
      (j, inr below, rw long (ground (arith, multiple)))
]
  where
    div-pos : (a b : ℕ) → 0 < b → leb a b ≡ false → 0 < a / b
    div-pos a b h e = (le-div_iff_mul-le h).1 (ground (arith, e))

module _ (f g : Item → ℕ → Bool) (now : ℕ) where
  swept-none : (a b : Bool) (o : Option Item) → o ≡ none → swept a f now (swept b g now o) ≡ none
  swept-none a b o e = ground (arith, e)

  swept-some :
      (a b : Bool) (o : Option Item) (item : Item)
      → o ≡ some item
      → (swept a f now (swept b g now o) ≡ none) ⊎ (swept a f now (swept b g now o) ≡ some item)
  swept-some a b o item e = ground (arith, e)

  swept_away :
      (a : Bool) (o : Option Item) (item : Item)
      → o ≡ some item
      → g item now ≡ true
      → swept a f now (swept true g now o) ≡ none
  swept_away a o item e y = ground (arith, e, y)

-- What has expired stays expired.
expired_later :
    (item : Item) (t now : ℕ) → t ≤ now → is_expired item t ≡ true → is_expired item now ≡ true
unfolding is_expired
expired_later item t now le e = ground (arith, le, e)

module _ (ext : External) (c : Settings) where
  -- One run of the cron handler after the other, at the times in the list.
  unfoldable pub run : List ℕ → Server → Server
  run [] s = s
  run (now ∷ nows) s = run nows (tick ext c now s)

  run-none :
      (nows : List ℕ) (s : Server) (k : List ℕ)
      → misread_limit c ≡ false
      → Inv s
      → tr_find s.tree k ≡ none
      → tr_find (run nows s).tree k ≡ none
  unfolding run
  run-none [] s k free h gone = gone
  run-none (now ∷ nows) s k free h gone =
      run-none nows (tick ext c now s) k free (tick-Inv ext c now s h) (
        find-tick ext c now s k free h
        ∙ swept-none (is_idle c.gc_ratio) is_expired now _ _ (tr_find s.tree k) gone)

  -- A run of `j` ticks and then one with a sweep takes an expired item away.
  gone_at :
      (j : ℕ) (nows : List ℕ) (s : Server) (k : List ℕ) (item : Item) (t : ℕ)
      → misread_limit c ≡ false
      → Inv s
      → s.stats.crondone < uint_mod
      → j < length nows
      → cron_every c c.expired_cron ((s.stats.crondone + j) % uint_mod) ≡ true
      → All (λ now. t ≤ now) nows
      → tr_find s.tree k ≡ some item
      → is_expired item t ≡ true
      → tr_find (run nows s).tree k ≡ none
  unfolding run
  gone_at j [] s k item t free h small lt due late found expired = absurd (omega (arith, lt))
  gone_at zero (now ∷ nows) s k item t free h small lt due late found expired =
      let here : s.stats.crondone ≡ (s.stats.crondone + 0) % uint_mod = omega (arith, small) in
      let due_now : cron_every c c.expired_cron s.stats.crondone ≡ true =
        ap (cron_every c c.expired_cron) here ∙ due in
      run-none nows (tick ext c now s) k free (tick-Inv ext c now s h) (
        find-tick ext c now s k free h
        ∙ rw due_now (
            swept_away (is_idle c.gc_ratio) is_expired now _ (tr_find s.tree k) item found
              (expired_later item t now late.0 expired)))
  gone_at (suc j) (now ∷ nows) s k item t free h small lt due late found expired =
      let s' = tick ext c now s in
      let h' = tick-Inv ext c now s h in
      let next : s'.stats.crondone ≡ (s.stats.crondone + 1) % uint_mod =
        crondone-tick ext c now s h in
      let same : (s'.stats.crondone + j) % uint_mod ≡ (s.stats.crondone + suc j) % uint_mod =
        omega (arith, next) in
      elim (swept-some (is_idle c.gc_ratio) is_expired now
        (memory_due ext c (sweep_expired ext c (at_time now s)))
        (cron_every c c.expired_cron s.stats.crondone) (tr_find s.tree k) item found) [
          | inl gone ↦ run-none nows s' k free h' (find-tick ext c now s k free h ∙ gone)
          | inr there ↦
              gone_at j nows s' k item t free h' (omega (arith, next)) (omega (arith, lt))
                (ap (cron_every c c.expired_cron) same ∙ due) late.1
                (find-tick ext c now s k free h ∙ there) expired
        ]

  -- An item that has expired is gone after as many runs of the cron handler as the interval
  -- `expired_cron` has periods, and one run at least, if nothing else happens, whatever the count of
  -- runs so far (which may wrap meanwhile): the period is positive, the times of the runs are not
  -- before the expiry, the server satisfies its invariant, and the error buffer does not read as a
  -- limit that is reached.
  pub expired_gone :
      (nows : List ℕ) (s : Server) (k : List ℕ) (item : Item) (t : ℕ)
      → misread_limit c ≡ false
      → Inv s
      → s.stats.crondone < uint_mod
      → 0 < c.cronperiod
      → 0 < length nows
      → c.expired_cron / c.cronperiod ≤ length nows
      → All (λ now. t ≤ now) nows
      → tr_find s.tree k ≡ some item
      → is_expired item t ≡ true
      → tr_find (run nows s).tree k ≡ none
  expired_gone nows s k item t free h small positive some_run enough late found expired =
      let (j, early, due) = cron_every-due c c.expired_cron s.stats.crondone positive small in
      gone_at j nows s k item t free h small
        (soon j (length nows) (c.expired_cron / c.cronperiod) early some_run enough) due late found
        expired
    where
      soon : (j n q : ℕ) → (j ≡ 0) ⊎ (j < q) → 0 < n → q ≤ n → j < n
      soon j n q (inl e) h le = omega (arith, e, h)
      soon j n q (inr lt) h le = omega (arith, lt, le)
