-- ===== src/Mux/Watched.antt =====
-- src/net.c with src/mux: the back end waits for what the loop registers.
use gibson_mastter.Base.{
  ℕ, ◌≡◌, refl, sym, ◌∙◌, subst, Option, none, some, Bool, true, false, ◌||◌, not, leb, arith,
  fun_ext, if_rule,
}
use gibson_mastter.EventLoop.{
  Mask, is_set, joined, cleared, FileEvent, EventLoop, create_event_loop, create_file_event,
  delete_file_event,
}
use gibson_mastter.Mux.{
  changed, Backend, Polled, masks_of, created_by, create_polled, delete_polled,
}

module _ (b : Backend) where
  -- The back end waits for the masks of the loop, on each descriptor.
  abbrev pub Agrees : Polled b → Type 0
  Agrees p = (i : ℕ) → b.watches p.api i ≡ masks_of b p.el i

  created-masks :
      (el : EventLoop) (fd : ℕ) (mask : Mask) (proc client_data i : ℕ)
      → leb el.setsize fd ≡ false
      → masks_of b (create_file_event el true fd mask proc client_data).1 i
        ≡ changed (masks_of b el) fd (joined (masks_of b el fd) mask) i
  unfolding create_file_event
  created-masks el fd mask proc client_data i within = ground (arith, within)

  deleted-masks :
      (el : EventLoop) (fd : ℕ) (mask : Mask) (i : ℕ)
      → leb el.setsize fd || not (is_set (masks_of b el fd)) ≡ false
      → masks_of b (delete_file_event el fd mask) i
        ≡ changed (masks_of b el) fd (cleared (masks_of b el fd) mask) i
  unfolding delete_file_event
  deleted-masks el fd mask i guard = ground (arith, guard)

  created-Agrees :
      (p : Polled b) (fd : ℕ) (mask : Mask) (proc client_data : ℕ) (o : Option b.State)
      → leb p.el.setsize fd ≡ false
      → b.add_event p.api (masks_of b p.el) fd mask ≡ o
      → Agrees p
      → Agrees (created_by b p.el p.api fd mask proc client_data o).1
  unfolding create_file_event
  created-Agrees p fd mask proc client_data none within e h i = ground (arith, within, h i)
  created-Agrees p fd mask proc client_data (some api) within e h i =
      b.adds p.api api (masks_of b p.el) fd mask h e i
      ∙ sym (created-masks p.el fd mask proc client_data i within)

  create-Agrees :
      (p : Polled b) (fd : ℕ) (mask : Mask) (proc client_data : ℕ)
      → Agrees p
      → Agrees (create_polled b p fd mask proc client_data).1
  unfolding create_polled
  create-Agrees p fd mask proc client_data h =
      if_rule (λ (r : Bool × Polled b). Agrees r.1) (leb p.el.setsize fd) _ _ (λ _. h)
        λ within.
          created-Agrees p fd mask proc client_data (b.add_event p.api (masks_of b p.el) fd mask)
            within refl h

  delete-Agrees :
      (p : Polled b) (fd : ℕ) (mask : Mask) → Agrees p → Agrees (delete_polled b p fd mask)
  unfolding delete_polled
  delete-Agrees p fd mask h =
      if_rule Agrees (leb p.el.setsize fd || not (is_set (masks_of b p.el fd))) _ _ (λ _. h)
        λ guard.
          subst (λ masks. (i : ℕ) → b.watches (b.del_event p.api masks fd mask) i ≡ masks i)
            (sym (fun_ext (λ i. deleted-masks p.el fd mask i guard)))
            (b.deletes p.api (masks_of b p.el) fd mask h (ground (arith, guard)))

  -- The states that gbCreateEventLoop, with a back end that waits for nothing, and the calls of
  -- gbCreateFileEvent and gbDeleteFileEvent lead to.
  pub data Reached (memory : ℕ → FileEvent) : Polled b → Type 0 where
    created :
        (setsize : ℕ) (api : b.State)
        → ((i : ℕ) → b.watches api i ≡ masks_of b (create_event_loop setsize memory) i)
        → Reached memory (record { el = create_event_loop setsize memory; api = api })
    watched :
        (p : Polled b) (fd : ℕ) (mask : Mask) (proc client_data : ℕ)
        → Reached memory p
        → Reached memory (create_polled b p fd mask proc client_data).1
    dropped :
        (p : Polled b) (fd : ℕ) (mask : Mask)
        → Reached memory p
        → Reached memory (delete_polled b p fd mask)

  -- With every back end that keeps the laws of the interface, whatever calls of gbCreateFileEvent and
  -- gbDeleteFileEvent there have been, those included that the back end refused, it waits on each
  -- descriptor for the events that the loop has registered there, and for nothing else, if it did so
  -- for the new event loop.
  pub Reached-Agrees : {memory : ℕ → FileEvent} {p : Polled b} → Reached memory p → Agrees p
  Reached-Agrees (created setsize api h) = h
  Reached-Agrees (watched p fd mask proc client_data r) =
      create-Agrees p fd mask proc client_data (Reached-Agrees r)
  Reached-Agrees (dropped p fd mask r) = delete-Agrees p fd mask (Reached-Agrees r)
