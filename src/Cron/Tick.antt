-- ===== src/Cron/Tick.antt =====
-- src/server.c: what one run of gbServerCronHandler does.
use gibson_mastter.Base.{
  ℕ, ◌+◌, ◌%◌, ◌≡◌, refl, ap, ◌∙◌, inl, inr, Bool, true, false, ◌&&◌, Option, List, ltb, Bool-cases,
  if_rule,
}
use gibson_mastter.Trie.{tr_find}
use gibson_mastter.Item.{Item, is_expired}
use gibson_mastter.Server.{External, Server, uint_mod}
use gibson_mastter.Cron.{
  Settings, misread_limit, is_idle, cron_every, sweep_expired, sweep_memory, tick,
}
use gibson_mastter.Cron.Sweep.{kept, find-sweep, sweep-Inv, Clock, sweep-Clock}
use gibson_mastter.Query.Invariant.{Inv}

-- What a sweep leaves that is run or not.
abbrev pub swept : Bool → (Item → ℕ → Bool) → ℕ → Option Item → Option Item
swept false test now o = o
swept true test now o = kept test now o

abbrev pub at_time : ℕ → Server → Server
at_time now s = record s { stats = record s.stats { now = now } }

at_time-Inv : (now : ℕ) (s : Server) → Inv s → Inv (at_time now s)
at_time-Inv now s h = record {
  sound = h.sound;
  items = h.items;
  counted = h.counted;
  compressed = h.compressed;
}

module _ (ext : External) (c : Settings) where
  -- Whether the second block sweeps, after the first.
  abbrev pub memory_due : Server → Bool
  memory_due s = cron_every c c.max_mem_cron s.stats.crondone && ltb s.limits.maxmem s.stats.memused

  sweep_expired-Inv : (s : Server) → Inv s → Inv (sweep_expired ext c s)
  unfolding sweep_expired
  sweep_expired-Inv s h =
      if_rule Inv (cron_every c c.expired_cron s.stats.crondone) _ _
        (λ _. sweep-Inv is_expired ext c s h) (λ _. h)

  sweep_memory-Inv : (s : Server) → Inv s → Inv (sweep_memory ext c s)
  unfolding sweep_memory
  sweep_memory-Inv s h =
      if_rule Inv (memory_due s) _ _ (λ _. sweep-Inv (is_idle c.gc_ratio) ext c s h) (λ _. h)

  -- The cron handler keeps the server's invariant, whatever stops its sweeps.
  pub tick-Inv : (now : ℕ) (s : Server) → Inv s → Inv (tick ext c now s)
  tick-Inv now s h =
      let kept_so_far =
        sweep_memory-Inv _ (sweep_expired-Inv (at_time now s) (at_time-Inv now s h)) in
      record {
        sound = kept_so_far.sound;
        items = kept_so_far.items;
        counted = kept_so_far.counted;
        compressed = kept_so_far.compressed;
      }

  find-sweep_expired :
      (s : Server) (k : List ℕ)
      → misread_limit c ≡ false
      → Inv s
      → (tr_find (sweep_expired ext c s).tree k
          ≡ swept
              (cron_every c c.expired_cron s.stats.crondone)
              is_expired
              s.stats.now
              (tr_find s.tree k))
        × Clock s (sweep_expired ext c s)
  unfolding sweep_expired
  find-sweep_expired s k free h = elim (Bool-cases (cron_every c c.expired_cron s.stats.crondone)) [
    | inl due ↦
        rw due (find-sweep is_expired ext c s k free h.sound, sweep-Clock is_expired ext c s)
    | inr idle ↦ rw idle (refl, (refl, refl))
  ]

  find-sweep_memory :
      (s : Server) (k : List ℕ)
      → misread_limit c ≡ false
      → Inv s
      → tr_find (sweep_memory ext c s).tree k
        ≡ swept (memory_due s) (is_idle c.gc_ratio) s.stats.now (tr_find s.tree k)
  unfolding sweep_memory
  find-sweep_memory s k free h = elim (Bool-cases (memory_due s)) [
    | inl due ↦ rw due (find-sweep (is_idle c.gc_ratio) ext c s k free h.sound)
    | inr idle ↦ rw idle refl
  ]

  -- What a key finds after one run of the cron handler at the time `now`, from what it found before:
  -- the item is gone if the expiry sweep is due and it has expired, or if the memory sweep is due
  -- (which is known after the first) and it has not been accessed for `gc_ratio` seconds; any other
  -- item is still there, unchanged. The server satisfies its invariant, and the error buffer does
  -- not read as a limit that is reached.
  pub find-tick :
      (now : ℕ) (s : Server) (k : List ℕ)
      → misread_limit c ≡ false
      → Inv s
      → tr_find (tick ext c now s).tree k
        ≡ swept
            (memory_due (sweep_expired ext c (at_time now s)))
            (is_idle c.gc_ratio)
            now
            (swept (cron_every c c.expired_cron s.stats.crondone) is_expired now (tr_find s.tree k))
  find-tick now s k free h =
      let s1 = at_time now s in
      let h1 = at_time-Inv now s h in
      let s2 = sweep_expired ext c s1 in
      let first = find-sweep_expired s1 k free h1 in
      find-sweep_memory s2 k free (sweep_expired-Inv s1 h1)
      ∙ ap (λ t. swept (memory_due s2) (is_idle c.gc_ratio) t (tr_find s2.tree k)) first.1.0
      ∙ ap (swept (memory_due s2) (is_idle c.gc_ratio) now) first.0

  -- The count of cron runs goes up by one.
  pub crondone-tick :
      (now : ℕ) (s : Server)
      → Inv s
      → (tick ext c now s).stats.crondone ≡ (s.stats.crondone + 1) % uint_mod
  unfolding sweep_memory sweep_expired
  crondone-tick now s h =
      ap (λ n. (n + 1) % uint_mod)
        (memory_clock (sweep_expired ext c (at_time now s)) ∙ expired_clock)
    where
      memory_clock : (r : Server) → (sweep_memory ext c r).stats.crondone ≡ r.stats.crondone
      memory_clock r =
          if_rule (λ (q : Server). q.stats.crondone ≡ r.stats.crondone) (memory_due r) _ _
            (λ _. (sweep-Clock (is_idle c.gc_ratio) ext c r).1) (λ _. refl)

      expired_clock : (sweep_expired ext c (at_time now s)).stats.crondone ≡ s.stats.crondone
      expired_clock =
          if_rule (λ (q : Server). q.stats.crondone ≡ s.stats.crondone)
            (cron_every c c.expired_cron s.stats.crondone) _ _
            (λ _. (sweep-Clock is_expired ext c (at_time now s)).1) (λ _. refl)
