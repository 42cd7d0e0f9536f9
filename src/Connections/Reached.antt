-- ===== src/Connections/Reached.antt =====
-- src/server.c: the states that the server comes to, from its start on, by the events of its loop.
use gibson_mastter.Base.{
  ℕ, zero, suc, ap, ◌^◌, ◌<◌, ◌≡◌, refl, sym, subst, ◌∙◌, Option, none, some, List, [], Bool, true,
  false, ◌&&◌, ltb, arith, option_rule, if_rule,
}
use mathlib.Core.Option.{some-injective}
use gibson_mastter.Base.Int.{ℤ}
use gibson_mastter.Trie.{tr_find}
use gibson_mastter.Trie.Recurse.{recurse_rule}
use gibson_mastter.Item.{Item, is_expired}
use gibson_mastter.Server.{External, Server, destroy_item}
use gibson_mastter.Cron.{
  Settings, misread_limit, is_idle, cron_every, drop_if, sweep, sweep_expired, sweep_memory, tick,
  cron_handler,
}
use gibson_mastter.LinkedList.{LinkedList, ll_prealloc, append_nulls}
use gibson_mastter.LinkedList.Order.{prealloc-one}
use gibson_mastter.LinkedList.Slots.{total}
use gibson_mastter.Client.{
  Client, Outcome, alive, gone, crash, Event, Sent, read_query, write_reply,
}
use gibson_mastter.Connections.{
  World, cell_at, accept, after_event, after_write, read_event, write_event, timer,
}
use gibson_mastter.Connections.Sized.{one}
use gibson_mastter.Connections.Counted.{
  Stays, read_query-Stays, Counted, destroy-Counted, accept-Counted, put-Counted, server-Counted,
}

-- A state that the events lead to: connections that come in, clients that can be read from or written
-- to, whatever the system calls answer, and the cron.
pub data Reached (ext : External) (maxclients : ℕ) : World → Type 0 where
  started :
      (s : Server) (elements : ℕ)
      → s.stats.nclients ≡ 0
      → Reached ext maxclients (record { server = s; clients = ll_prealloc elements })
  accepted :
      (w : World) (fd : Option ℤ) (registered : Bool)
      → Reached ext maxclients w
      → Reached ext maxclients (accept maxclients w fd registered)
  received :
      (w w' : World) (i : ℕ) (c : Client) (watched : Bool) (behind : List ℕ) (e : Event)
      → Reached ext maxclients w
      → cell_at w.clients.cells i ≡ some c
      → read_event ext w i c watched behind e ≡ some w'
      → Reached ext maxclients w'
  answered :
      (w : World) (i : ℕ) (c : Client) (answer : Sent)
      → Reached ext maxclients w
      → cell_at w.clients.cells i ≡ some c
      → Reached ext maxclients (write_event ext w i c answer)
  ticked :
      (w w' : World) (settings : Settings) (now : ℕ)
      → Reached ext maxclients w
      → timer ext settings now w ≡ some w'
      → Reached ext maxclients w'

-- The cells that ll_prealloc makes are not in use.
total-prealloc : (n : ℕ) → total one (ll_prealloc {A = Client} n).cells ≡ 0
unfolding ll_prealloc append_nulls
total-prealloc zero = refl
total-prealloc (suc n) = ap (λ (l : LinkedList Client). total one l.cells) (prealloc-one n)

abbrev Same : Server → Server → Type 0
Same s r = r.stats.nclients ≡ s.stats.nclients

module _ (ext : External) (c : Settings) where
  drop-Same : (test : Item → ℕ → Bool) (p : List ℕ) (s : Server) → Same s (drop_if ext test p s)
  unfolding drop_if destroy_item
  drop-Same test p s =
      option_rule (Same s) (tr_find s.tree p) _ _ refl
        λ item _. if_rule (Same s) (test item s.stats.now) _ _ (λ _. refl) (λ _. refl)

  sweep-Same :
      (test : Item → ℕ → Bool) (s : Server)
      → Same s (sweep ext c (λ node t. drop_if ext test node) s)
  sweep-Same test s =
      recurse_rule (λ r. misread_limit c) (λ node t. drop_if ext test node) (Same s)
        (λ p t r e. drop-Same test p r ∙ e) s.tree [] s refl

  sweep_expired-Same : (s : Server) → Same s (sweep_expired ext c s)
  unfolding sweep_expired
  sweep_expired-Same s =
      if_rule (Same s) (cron_every c c.expired_cron s.stats.crondone) _ _
        (λ _. sweep-Same is_expired s) (λ _. refl)

  sweep_memory-Same : (s : Server) → Same s (sweep_memory ext c s)
  unfolding sweep_memory
  sweep_memory-Same s =
      if_rule (Same s)
        (cron_every c c.max_mem_cron s.stats.crondone && ltb s.limits.maxmem s.stats.memused) _ _
        (λ _. sweep-Same (is_idle c.gc_ratio) s) (λ _. refl)

  tick-Same : (now : ℕ) (s : Server) → Same s (tick ext c now s)
  tick-Same now s = sweep_memory-Same _ ∙ sweep_expired-Same _

module _ (ext : External) (maxclients : ℕ) (small : maxclients < 2 ^ 32) where
  after_event-Counted :
      (w w' : World) (i : ℕ) (c : Client) (o : Outcome)
      → cell_at w.clients.cells i ≡ some c
      → Stays w.server.stats.nclients o
      → Counted maxclients w
      → after_event w i o ≡ some w'
      → Counted maxclients w'
  after_event-Counted w w' i c (alive s d) there same h e =
      subst (Counted maxclients) (some-injective _ _ e) (
        put-Counted maxclients small (record w { server = s }) i c d there
          (server-Counted maxclients small w s same h))
  after_event-Counted w w' i c (gone s) there same h e =
      subst (Counted maxclients) (some-injective _ _ e) (
        destroy-Counted maxclients small (record w { server = s }) i c there
          (server-Counted maxclients small w s same h))
  after_event-Counted w w' i c crash there same h e = ground (arith, e)

  after_write-Counted :
      (w : World) (i : ℕ) (c : Client) (o : Option Client)
      → cell_at w.clients.cells i ≡ some c
      → Counted maxclients w
      → Counted maxclients (after_write w i o)
  after_write-Counted w i c none there h = destroy-Counted maxclients small w i c there h
  after_write-Counted w i c (some d) there h = put-Counted maxclients small w i c d there h

  timer-Counted :
      (w w' : World) (settings : Settings) (now : ℕ)
      → timer ext settings now w ≡ some w'
      → Counted maxclients w
      → Counted maxclients w'
  unfolding timer cron_handler
  timer-Counted w w' settings now e h = go settings.shutdown e
    where
      go :
          (b : Bool)
          → timer ext (record settings { shutdown = b }) now w ≡ some w'
          → Counted maxclients w'
      go true e = ground (arith, e)
      go false e =
          let open_settings = record settings { shutdown = false } in
          let s = tick ext open_settings now w.server in
          subst (Counted maxclients) (some-injective (record w { server = s }) w' e)
            (server-Counted maxclients small w s (tick-Same ext open_settings now w.server) h)

  -- In every state that the server comes to from its start, `nclients` is the number of the clients in
  -- the list and at most `maxclients`, which is less than 2^32.
  pub Reached-Counted : {w : World} → Reached ext maxclients w → Counted maxclients w
  unfolding read_event write_event
  Reached-Counted (started s elements none_yet) = record {
    count = total-prealloc elements ∙ sym none_yet;
    bound = omega (arith, none_yet);
  }
  Reached-Counted (accepted w fd registered r) =
      accept-Counted maxclients small w fd registered (Reached-Counted r)
  Reached-Counted (received w w' i c watched behind e r there step) =
      after_event-Counted w w' i c (read_query ext watched behind w.server c e) there
        (read_query-Stays ext watched behind w.server c e) (Reached-Counted r) step
  Reached-Counted (answered w i c answer r there) =
      after_write-Counted w i c (write_reply w.server c answer).0 there (Reached-Counted r)
  Reached-Counted (ticked w w' settings now r step) =
      timer-Counted w w' settings now step (Reached-Counted r)
