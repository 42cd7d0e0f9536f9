-- ===== src/Connections/Counted.antt =====
-- src/server.c, src/net.c: the count of clients is right and stays within maxclients.
use gibson_mastter.Base.{
  ℕ, ◌+◌, ◌%◌, ◌^◌, ◌<◌, ◌≤◌, ◌≡◌, refl, sym, ap, ◌∙◌, Option, none, some, List, Bool, ◌&&◌, leb,
  ◌==◌, length, take, arith, option_rule, if_rule, lt_of_leb,
}
use gibson_mastter.Base.Int.{ℤ}
use gibson_mastter.Server.{External, Server, uint_mod}
use gibson_mastter.Reply.{reply, failed}
use gibson_mastter.Query.{Answer}
use gibson_mastter.Query.Process.{process_query}
use gibson_mastter.Query.Untouched.{surroundings}
use gibson_mastter.Query.UntouchedAll.{process_query-surroundings}
use gibson_mastter.LinkedList.Slots.{ll_append-total, total}
use gibson_mastter.Client.{
  Client, client_create, waiting_buffer, Plan, to_size, to_buffer, to_null, no_read, refused,
  Outcome, alive, gone, crash, Event, arrived, again, broken, plan, enqueue_data, reply_to, answer,
  after_read, do_read, read_buffer, carry_out, read_query,
}
use gibson_mastter.Connections.{
  World, cell_at, client_destroy, append_cell, connect, accept, put_client,
}
use gibson_mastter.Connections.Sized.{one, set_cell-none, set_cell-some, append-cell}

-- The count that an outcome leaves.
abbrev pub Stays : ℕ → Outcome → Type 0
Stays n (alive s c) = s.stats.nclients ≡ n
Stays n (gone s) = s.stats.nclients ≡ n
Stays n crash = Unit

module _ (ext : External) (watched : Bool) (behind : List ℕ) (s : Server) where
  reply_to-Stays :
      (c : Client) (a : Answer) (n : ℕ)
      → a.0.stats.nclients ≡ n
      → Stays n (reply_to ext watched c a)
  reply_to-Stays c (s', failed) n h = h
  reply_to-Stays c (s', reply code encoding content shutdown) n h =
      if_rule (Stays n) (enqueue_data watched c _ _ content shutdown).0 _ _ (λ _. h) (λ _. h)

  nclients-query :
      (op : ℕ) (p : List ℕ) (size : ℕ)
      → (process_query ext s op p size).0.stats.nclients ≡ s.stats.nclients
  unfolding surroundings
  nclients-query op p size = ap (λ r. r.nclients) (process_query-surroundings ext s p size op)

  answer-Stays : (c : Client) → Stays s.stats.nclients (answer ext watched behind s c)
  unfolding answer
  answer-Stays c =
      option_rule (Stays s.stats.nclients) c.buffer _ _ tt
        λ bs _. reply_to-Stays _ _ s.stats.nclients (nclients-query _ _ _)

  after_read-Stays :
      (c : Client) (nread : ℕ) → Stays s.stats.nclients (after_read ext watched behind s c nread)
  unfolding after_read
  after_read-Stays c nread =
      let c' : Client = record c { read = (c.read + nread) % uint_mod; seen = some s.stats.now } in
      if_rule (Stays s.stats.nclients)
        ((c'.status == waiting_buffer) && (c'.read == c'.buffer_size)) _ _ (λ _. answer-Stays c')
        (λ _. refl)

  do_read-Stays :
      (e : Event) (c : Client) (toread : ℕ) (put : List ℕ → Client)
      → Stays s.stats.nclients (do_read ext watched behind s c toread put e)
  unfolding do_read
  do_read-Stays broken c toread put = refl
  do_read-Stays again c toread put = after_read-Stays c 0
  do_read-Stays (arrived bs) c toread put =
      if_rule (Stays s.stats.nclients) (length (take toread bs) == 0) _ _ (λ _. refl)
        (λ _. after_read-Stays _ _)

  carry_out-Stays :
      (p : Plan) (c : Client) (e : Event)
      → Stays s.stats.nclients (carry_out ext watched behind s (c, p) e)
  unfolding read_buffer
  carry_out-Stays (to_size n) c e = do_read-Stays e c n _
  carry_out-Stays (to_buffer n) c e =
      option_rule (Stays s.stats.nclients) c.buffer _ _ (to_nowhere e)
        λ old _. do_read-Stays e c n _
    where
      to_nowhere :
          (e : Event)
          → Stays s.stats.nclients (elim e [
            | again ↦ after_read ext watched behind s c 0
            | arrived bs ↦ gone s
            | broken ↦ gone s
          ])
      to_nowhere again = after_read-Stays c 0
      to_nowhere (arrived bs) = refl
      to_nowhere broken = refl
  carry_out-Stays to_null c e = do_read-Stays e c 0 _
  carry_out-Stays no_read c e = after_read-Stays c 0
  carry_out-Stays refused c e = refl

  pub read_query-Stays :
      (c : Client) (e : Event) → Stays s.stats.nclients (read_query ext watched behind s c e)
  unfolding read_query
  read_query-Stays c e = carry_out-Stays (plan s.limits c).1 (plan s.limits c).0 e

-- `nclients` is the number of clients in the list, and at most `maxclients`.
pub record Counted (maxclients : ℕ) (w : World) : Type 0 where
  pub count : total one w.clients.cells ≡ w.server.stats.nclients
  pub bound : w.server.stats.nclients ≤ maxclients

module _ (maxclients : ℕ) (small : maxclients < 2 ^ 32) where
  pub destroy-Counted :
      (w : World) (i : ℕ) (c : Client)
      → cell_at w.clients.cells i ≡ some c
      → Counted maxclients w
      → Counted maxclients (client_destroy w i)
  unfolding client_destroy
  destroy-Counted w i c there h =
      let less = set_cell-none w.clients.cells i c there in
      record {
        count = omega (arith, less, h.count, h.bound, small);
        bound = omega (arith, less, h.count, h.bound, small);
      }

  connect-Counted :
      (w : World) (fd : ℤ)
      → w.server.stats.nclients < maxclients
      → Counted maxclients w
      → Counted maxclients (connect w fd)
  unfolding connect
  connect-Counted w fd less h =
      let more = ll_append-total one w.clients (client_create fd) in
      record {
        count = omega (arith, more, h.count, less, small);
        bound = omega (arith, less, small);
      }

  pub accept-Counted :
      (w : World) (accepted : Option ℤ) (registered : Bool)
      → Counted maxclients w
      → Counted maxclients (accept maxclients w accepted registered)
  unfolding accept
  accept-Counted w none registered h = h
  accept-Counted w (some fd) registered h =
      if_rule (Counted maxclients) (leb maxclients w.server.stats.nclients) _ _ (λ _. h)
        λ room.
          let connected =
            connect-Counted w fd (lt_of_leb maxclients w.server.stats.nclients room) h in
          if_rule (Counted maxclients) registered _ _ (λ _. connected)
            (λ _.
              destroy-Counted (connect w fd) (append_cell w.clients) (client_create fd) (here w fd)
                connected)
    where
      here :
          (w : World) (fd : ℤ)
          → cell_at (connect w fd).clients.cells (append_cell w.clients) ≡ some (client_create fd)
      here w fd = unfold connect in append-cell w.clients (client_create fd)

  pub put-Counted :
      (w : World) (i : ℕ) (c d : Client)
      → cell_at w.clients.cells i ≡ some c
      → Counted maxclients w
      → Counted maxclients (put_client w i d)
  put-Counted w i c d there h = record {
    count = set_cell-some w.clients.cells i c d there ∙ h.count;
    bound = h.bound;
  }

  -- With another server that counts the same clients.
  pub server-Counted :
      (w : World) (s : Server)
      → s.stats.nclients ≡ w.server.stats.nclients
      → Counted maxclients w
      → Counted maxclients (record w { server = s })
  server-Counted w s same h = record {
    count = h.count ∙ sym same;
    bound = omega (arith, same, h.bound);
  }
