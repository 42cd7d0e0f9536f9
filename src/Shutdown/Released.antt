-- ===== src/Shutdown/Released.antt =====
-- src/server.c: gbServerDestroy gives back all items and destroys all clients.
use gibson_mastter.Base.{
  ℕ, zero, suc, ◌+◌, ◌%◌, ◌^◌, ◌<◌, ◌≡◌, refl, sym, ap, ◌∙◌, subst, Option, none, some, List, [],
  ◌∷◌, ◌++◌, Bool, false, arith, length, length-append,
}
use mathlib.Core.List.{append-nil, append_assoc}
use gibson_mastter.Trie.{Trie, Nodes, node, nil, cons, count, value, tr_node_children}
use gibson_mastter.Trie.Shape.{IsSound, AreSound}
use gibson_mastter.Trie.Weigh.{weigh, weigh_nodes, weight}
use gibson_mastter.Trie.Recurse.{tr_recurse, recurse_nodes, recurse-go, recurse-nil, recurse-cons}
use gibson_mastter.Item.{Item}
use gibson_mastter.Server.{External, Server, uint_mod, destroy_item}
use gibson_mastter.Query.Tallied.{Inv, lzf_one}
use gibson_mastter.Query.Tallied
use gibson_mastter.Cron.{Settings, misread_limit}
use gibson_mastter.Client.{Client}
use gibson_mastter.LinkedList.{set_cell}
use gibson_mastter.LinkedList.Slots.{total}
use gibson_mastter.Connections.{World, client_destroy}
use gibson_mastter.Connections.Sized.{one}
use gibson_mastter.Connections.Counted.{Counted}
use gibson_mastter.Config.{Config}
use gibson_mastter.EventLoop.{EventLoop}
use gibson_mastter.Log.{Log}
use gibson_mastter.Shutdown.{
  object_destroy_handler, destroy_objects, destroy_clients, server_destroy,
}

-- `a` items and `b` compressed ones are counted besides those of a part of the tree; the clients are
-- those of before.
record Counts (nclients a b : ℕ) (s : Server) : Type 0 where
  items : s.stats.nitems ≡ a % uint_mod
  compressed : s.stats.ncompressed ≡ b % uint_mod
  clients : s.stats.nclients ≡ nclients

same-Counts :
    (n : ℕ) {a b a' b' : ℕ} (s : Server) → a ≡ a' → b ≡ b' → Counts n a b s → Counts n a' b' s
same-Counts n s ea eb h = record {
  items = h.items ∙ ap (λ k. k % uint_mod) ea;
  compressed = h.compressed ∙ ap (λ k. k % uint_mod) eb;
  clients = h.clients;
}

module _ (ext : External) (stop : Server → Bool) (go : (s : Server) → stop s ≡ false) (n : ℕ) where
  abbrev destroying : Trie Item → List ℕ → Server → Server
  destroying = tr_recurse stop (object_destroy_handler ext)

  abbrev destroying_nodes : ℕ → Nodes Item → List ℕ → Server → Server
  destroying_nodes = recurse_nodes stop (object_destroy_handler ext)

  -- The handler at a node.
  handler-Counts :
      (d : Option Item) (a b : ℕ) (s : Server)
      → Counts n (a + weight Tallied.one d) (b + weight lzf_one d) s
      → Counts n a b (elim d [ none ↦ s | some item ↦ destroy_item ext s item ])
  unfolding destroy_item
  handler-Counts none a b s h = same-Counts n s (omega arith) (omega arith) h
  handler-Counts (some item) a b s h = record {
    items = omega (arith, h.items);
    compressed = ground (arith, h.compressed);
    clients = h.clients;
  }

  mutual
    unfolding weigh

    destroying-Counts :
        (t : Trie Item) (path : List ℕ) (a b : ℕ) (s : Server)
        → IsSound t
        → Counts n (a + weigh Tallied.one t) (b + weigh lzf_one t) s
        → Counts n a b (destroying t path s)
    destroying-Counts (node v d m ks) path a b s sound h =
        let s' = object_destroy_handler ext path (node v d m ks) s in
        subst (Counts n a b)
          (sym (recurse-go stop (object_destroy_handler ext) v d m ks path s (go s)))
          (destroying_nodes-Counts ks (tr_node_children (node v d m ks)) path a b s' sound.0 sound.3
            (handler-Counts d (a + weigh_nodes Tallied.one ks) (b + weigh_nodes lzf_one ks) s
              (same-Counts n s (omega arith) (omega arith) h)))

    destroying_nodes-Counts :
        (ks : Nodes Item) (m : ℕ) (path : List ℕ) (a b : ℕ) (s : Server)
        → m ≡ count ks
        → AreSound ks
        → Counts n (a + weigh_nodes Tallied.one ks) (b + weigh_nodes lzf_one ks) s
        → Counts n a b (destroying_nodes m ks path s)
    destroying_nodes-Counts nil m path a b s e sound h =
        subst (Counts n a b) (sym (recurse-nil stop (object_destroy_handler ext) m path s))
          (same-Counts n s (omega arith) (omega arith) h)
    destroying_nodes-Counts (cons t ks) zero path a b s e sound h = absurd (omega (arith, e))
    destroying_nodes-Counts (cons t ks) (suc m) path a b s e sound h =
        subst (Counts n a b) (sym (recurse-cons stop (object_destroy_handler ext) m t ks path s)) (
          destroying_nodes-Counts ks m path a b (destroying t (path ++ value t ∷ []) s)
            (omega (arith, e)) sound.1
            (destroying-Counts t (path ++ value t ∷ []) (a + weigh_nodes Tallied.one ks)
              (b + weigh_nodes lzf_one ks) s sound.0
              (same-Counts n s (omega arith) (omega arith) h)))

set_cell-append :
    (done cs : List (Option Client)) (d e : Option Client)
    → set_cell (done ++ d ∷ cs) (length done) e ≡ (done ++ e ∷ []) ++ cs
unfolding set_cell
set_cell-append [] cs d e = refl
set_cell-append (c ∷ done) cs d e = ap (λ l. c ∷ l) (set_cell-append done cs d e)

total-append : (xs ys : List (Option Client)) → total one (xs ++ ys) ≡ total one xs + total one ys
total-append [] ys = omega arith
total-append (none ∷ xs) ys = total-append xs ys
total-append (some x ∷ xs) ys = omega (arith, total-append xs ys)

-- No client is in the list or counted, and the counts of items are those of `s`.
abbrev pub NoClients : Server → World → Type 0
NoClients s w =
    (total one w.clients.cells ≡ 0)
    × (w.server.stats.nclients ≡ 0)
    × (w.server.stats.nitems ≡ s.stats.nitems)
    × (w.server.stats.ncompressed ≡ s.stats.ncompressed)

destroy_clients-none :
    (cs done : List (Option Client)) (i : ℕ) (w : World)
    → i ≡ length done
    → w.clients.cells ≡ done ++ cs
    → total one done ≡ 0
    → w.server.stats.nclients ≡ total one cs
    → total one cs < 2 ^ 32
    → NoClients w.server (destroy_clients cs i w)
unfolding destroy_clients client_destroy
destroy_clients-none [] done i w at e gone count small =
    (ap (total one) (e ∙ append-nil done) ∙ gone, count, refl, refl)
destroy_clients-none (none ∷ cs) done i w at e gone count small =
    destroy_clients-none cs (done ++ none ∷ []) (suc i) w
      (omega (arith, at, length-append done (none ∷ [])))
      (e ∙ sym (append_assoc done (none ∷ []) cs))
      (total-append done (none ∷ []) ∙ omega (arith, gone)) count small
destroy_clients-none (some c ∷ cs) done i w at e gone count small =
    destroy_clients-none cs (done ++ none ∷ []) (suc i) (client_destroy w i)
      (omega (arith, at, length-append done (none ∷ [])))
      (ap (λ l. set_cell l i none) e
        ∙ ap (λ k. set_cell (done ++ some c ∷ cs) k none) at
        ∙ set_cell-append done cs (some c) none)
      (total-append done (none ∷ []) ∙ omega (arith, gone)) (omega (arith, count, small))
      (omega (arith, small))

-- A server that satisfies its invariant and counts its clients, with an error buffer that does not read
-- as a limit that is reached: when gbServerDestroy is about to exit, every item has been destroyed, the
-- compressed ones among them, and every client, so that each counter is 0.
pub server_destroy-released :
    (ext : External) (c : Settings) (config : Config) (el : EventLoop) (cron_id : ℕ) (log : Log)
    (maxclients : ℕ) (w : World)
    → Inv w.server
    → Counted maxclients w
    → maxclients < 2 ^ 32
    → misread_limit c ≡ false
    → let w' = (server_destroy ext c config el cron_id log w).world in
      (w'.server.stats.nitems ≡ 0)
      × (w'.server.stats.ncompressed ≡ 0)
      × (w'.server.stats.nclients ≡ 0)
      × (total one w'.clients.cells ≡ 0)
unfolding server_destroy destroy_objects
server_destroy-released ext c config el cron_id log maxclients w inv counted small limit =
    let n = w.server.stats.nclients in
    let s = destroy_objects ext c w.server in
    let h : Counts n 0 0 s =
      destroying-Counts ext (λ r. misread_limit c) (λ r. limit) n w.server.tree [] 0 0 w.server
        inv.sound
        (record {
          items = omega (arith, inv.counted);
          compressed = omega (arith, inv.compressed);
          clients = refl;
        }) in
    let emptied =
      destroy_clients-none w.clients.cells [] 0 (record w { server = s }) refl refl refl
        (h.clients ∙ sym counted.count) (omega (arith, counted.count, counted.bound, small)) in
    (
      emptied.2 ∙ omega (arith, h.items),
      emptied.3 ∙ omega (arith, h.compressed),
      emptied.1,
      emptied.0,
    )
