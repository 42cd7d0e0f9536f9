-- ===== src/Mux.antt =====
-- src/mux: the interface that src/net.c calls, and gbCreateFileEvent and gbDeleteFileEvent with the back
-- end behind them. Mux/Select and Mux/Epoll are two of the four back ends.
pub mod Select
pub mod Epoll
pub mod Watched
pub mod Hangup
use gibson_mastter.Base.{
  ℕ, ◌≡◌, Option, none, some, Bool, true, false, ◌||◌, not, leb, ◌==◌, if◌then◌else◌,
}
use gibson_mastter.EventLoop.{
  Mask, is_set, joined, cleared, EventLoop, create_file_event, delete_file_event,
}

abbrev pub changed : (ℕ → Mask) → ℕ → Mask → ℕ → Mask
changed masks fd mask i = if i == fd then mask else masks i

-- A back end: its state, what it waits for on each descriptor, aeApiAddEvent (none for -1) and
-- aeApiDelEvent, which are given the masks of the loop, before the one changes them and after the other
-- did. The laws say that it waits for what it is asked to.
pub record Backend : Type 1 where
  pub State : Type 0
  pub watches : State → ℕ → Mask
  pub add_event : State → (ℕ → Mask) → ℕ → Mask → Option State
  pub del_event : State → (ℕ → Mask) → ℕ → Mask → State
  pub adds :
      (st st' : State) (masks : ℕ → Mask) (fd : ℕ) (mask : Mask)
      → ((i : ℕ) → watches st i ≡ masks i)
      → add_event st masks fd mask ≡ some st'
      → (i : ℕ) → watches st' i ≡ changed masks fd (joined (masks fd) mask) i
  pub deletes :
      (st : State) (masks : ℕ → Mask) (fd : ℕ) (mask : Mask)
      → ((i : ℕ) → watches st i ≡ masks i)
      → is_set (masks fd) ≡ true
      → let after = changed masks fd (cleared (masks fd) mask) in
        (i : ℕ) → watches (del_event st after fd mask) i ≡ after i

-- The loop with its back end.
module _ (b : Backend) where
  pub record Polled : Type 0 where
    pub el : EventLoop
    pub api : b.State

  abbrev pub masks_of : EventLoop → ℕ → Mask
  masks_of el i = (el.events i).mask

  abbrev pub created_by : EventLoop → b.State → ℕ → Mask → ℕ → ℕ → Option b.State → Bool × Polled
  created_by el api fd mask proc client_data none =
      let (ok, el') = create_file_event el false fd mask proc client_data in
      (ok, record { el = el'; api = api })
  created_by el api fd mask proc client_data (some api') =
      let (ok, el') = create_file_event el true fd mask proc client_data in
      (ok, record { el = el'; api = api' })

  -- gbCreateFileEvent
  unfoldable pub create_polled : Polled → ℕ → Mask → ℕ → ℕ → Bool × Polled
  create_polled p fd mask proc client_data =
      if leb p.el.setsize fd
      then (false, p)
      else created_by p.el p.api fd mask proc client_data
          (b.add_event p.api (masks_of p.el) fd mask)

  -- gbDeleteFileEvent
  unfoldable pub delete_polled : Polled → ℕ → Mask → Polled
  delete_polled p fd mask =
      if leb p.el.setsize fd || not (is_set (masks_of p.el fd))
      then p
      else let el' = delete_file_event p.el fd mask in
        record { el = el'; api = b.del_event p.api (masks_of el') fd mask }
