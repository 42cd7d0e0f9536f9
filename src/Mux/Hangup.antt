-- ===== src/Mux/Hangup.antt =====
-- src/net.c with src/mux: which callbacks an event reaches.
use gibson_mastter.Base.{ℕ, zero, suc, ◌≡◌, [], ◌∷◌, true, false, ◌||◌, arith, All, if_rule}
use gibson_mastter.EventLoop.{Mask, is_set}
use gibson_mastter.EventLoop.Process.{Running, System, Fired, fire, fire_all}
use gibson_mastter.Mux.Select.{FdSets, fired_from}
use gibson_mastter.Mux.Epoll
use gibson_mastter.Mux.Epoll.{EpollEvent}

-- What fired is among what is registered.
abbrev pub Registered : (ℕ → Mask) → Fired → Type 0
Registered masks f =
    (is_set (masks f.fd) ≡ true)
    × (f.mask.readable ≡ true → (masks f.fd).readable ≡ true)
    × (f.mask.writable ≡ true → (masks f.fd).writable ≡ true)

-- The select back end reports nothing that is not registered, whatever select answers.
pub select-Registered :
    (masks : ℕ → Mask) (ready : FdSets) (n j : ℕ)
    → All (Registered masks) (fired_from masks ready n j)
unfolding fired_from
select-Registered masks ready zero j = tt
select-Registered masks ready (suc n) j =
    if_rule (All (Registered masks)) (is_set (masks j)) _ _
      (λ set. (
        (set, λ e. ground (arith, e), λ e. ground (arith, e)),
        select-Registered masks ready n (suc j),
      ))
      (λ _. select-Registered masks ready n (suc j))

-- A descriptor that is registered for reading only, and of which epoll reports an error or that the peer
-- has closed, and nothing to read: gbProcessEvents calls its write callback, although nobody has
-- registered one, whatever the field holds.
pub hangup-calls_writer :
    {W : Type 0} (sys : System W) (s : Running W) (e : EpollEvent)
    → (s.el.events e.fd).mask ≡ record { readable = true; writable = false }
    → e.epollin ≡ false
    → e.epollerr || e.epollhup ≡ true
    → let fe = s.el.events e.fd in
      fire_all sys (Epoll.poll (e ∷ [])) s
      ≡ sys.file_proc fe.wfile_proc e.fd fe.client_data
          (record { readable = false; writable = true })
          s
unfolding fire_all fire Epoll.poll
hangup-calls_writer sys s e reading no_in up = ground (arith, reading, no_in, up)
