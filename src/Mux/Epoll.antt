-- ===== src/Mux/Epoll.antt =====
-- src/mux/epoll.c. The kernel's table of an epoll descriptor is a parameter, with what epoll_ctl(2) says.
use gibson_mastter.Base.{
  ℕ, ◌+◌, ◌*◌, ◌/◌, ◌≡◌, refl, sym, subst, ap, ◌∙◌, inl, inr, Option, none, some, List, [], ◌∷◌,
  Bool, true, false, ◌||◌, ◌==◌, if◌then◌else◌, arith, Bool-cases, Option-cases,
}
use gibson_mastter.EventLoop.{Mask, no_mask, is_set, joined, cleared}
use gibson_mastter.EventLoop.Process.{Fired}
use gibson_mastter.Mux.{changed, Backend}

-- EPOLL_CTL_ADD, EPOLL_CTL_MOD and EPOLL_CTL_DEL
pub data Ctl : Type 0 where
  ctl_add : Ctl
  ctl_mod : Ctl
  ctl_del : Ctl

-- The kernel's table for an epoll descriptor: what it waits for on each descriptor, none where that is
-- not in the table; and epoll_ctl, none for -1. Adding and modifying set an entry where they succeed,
-- and an entry that is there can be modified and deleted.
pub record Kernel : Type 1 where
  pub Table : Type 0
  pub entry : Table → ℕ → Option Mask
  pub epoll_ctl : Table → Ctl → ℕ → Mask → Option Table
  pub add_sets :
      (t t' : Table) (fd : ℕ) (mask : Mask)
      → epoll_ctl t ctl_add fd mask ≡ some t'
      → (i : ℕ) → entry t' i ≡ (if i == fd then some mask else entry t i)
  pub mod_sets :
      (t t' : Table) (fd : ℕ) (mask : Mask)
      → epoll_ctl t ctl_mod fd mask ≡ some t'
      → (i : ℕ) → entry t' i ≡ (if i == fd then some mask else entry t i)
  pub mod_present :
      (t : Table) (fd : ℕ) (old mask : Mask)
      → entry t fd ≡ some old
      → (t' : Table) × (epoll_ctl t ctl_mod fd mask ≡ some t')
  pub del_present :
      (t : Table) (fd : ℕ) (old mask : Mask)
      → entry t fd ≡ some old
      → (t' : Table) × (epoll_ctl t ctl_del fd mask ≡ some t')
        × ((i : ℕ) → entry t' i ≡ (if i == fd then none else entry t i))

-- One entry of epoll_wait: EPOLLIN, EPOLLOUT, EPOLLERR and EPOLLHUP of its events, and its data.
pub record EpollEvent : Type 0 where
  pub fd : ℕ
  pub epollin : Bool
  pub epollout : Bool
  pub epollerr : Bool
  pub epollhup : Bool

abbrev pub entry_mask : Option Mask → Mask
entry_mask none = no_mask
entry_mask (some m) = m

abbrev pub or_same : {A : Type 0} → A → Option A → A
or_same a none = a
or_same a (some b) = b

module _ (kernel : Kernel) where
  -- aeApiAddEvent
  abbrev pub add_event : kernel.Table → (ℕ → Mask) → ℕ → Mask → Option kernel.Table
  add_event t masks fd mask =
      kernel.epoll_ctl t (if is_set (masks fd) then ctl_mod else ctl_add) fd
        (joined (masks fd) mask)

  -- aeApiDelEvent, after the loop has changed its mask. It does not look at the answer.
  abbrev pub del_event : kernel.Table → (ℕ → Mask) → ℕ → Mask → kernel.Table
  del_event t masks fd delmask =
      let mask = cleared (masks fd) delmask in
      or_same t (kernel.epoll_ctl t (if is_set mask then ctl_mod else ctl_del) fd mask)

  abbrev pub watches : kernel.Table → ℕ → Mask
  watches t fd = entry_mask (kernel.entry t fd)

  -- A table with one entry set, or without it, waits for what the masks say with that one changed.
  set-watches :
      (t t' : kernel.Table) (masks : ℕ → Mask) (fd : ℕ) (o : Option Mask) (i : ℕ)
      → watches t i ≡ masks i
      → kernel.entry t' i ≡ (if i == fd then o else kernel.entry t i)
      → watches t' i ≡ changed masks fd (entry_mask o) i
  set-watches t t' masks fd o i h e = elim (Bool-cases (i == fd)) [
    | inl here ↦ ap entry_mask e ∙ rw here refl
    | inr other ↦ ap entry_mask e ∙ rw other h
  ]

  pub add-watches :
      (t t' : kernel.Table) (masks : ℕ → Mask) (fd : ℕ) (mask : Mask)
      → ((i : ℕ) → watches t i ≡ masks i)
      → add_event t masks fd mask ≡ some t'
      → (i : ℕ) → watches t' i ≡ changed masks fd (joined (masks fd) mask) i
  add-watches t t' masks fd mask h e i =
      let m = joined (masks fd) mask in
      set-watches t t' masks fd (some m) i (h i) (elim (Bool-cases (is_set (masks fd))) [
        | inl set ↦
            kernel.mod_sets t t' fd m
              (sym (ap (λ b. kernel.epoll_ctl t (if b then ctl_mod else ctl_add) fd m) set) ∙ e) i
        | inr unset ↦
            kernel.add_sets t t' fd m
              (sym (ap (λ b. kernel.epoll_ctl t (if b then ctl_mod else ctl_add) fd m) unset) ∙ e) i
      ])

  -- What a mask that is set is waited for in.
  present :
      (t : kernel.Table) (fd : ℕ) (mask : Mask)
      → watches t fd ≡ mask
      → is_set mask ≡ true
      → (old : Mask) × (kernel.entry t fd ≡ some old)
  present t fd mask h set = elim (Option-cases (kernel.entry t fd)) [
    | inl absent ↦ ground (arith, set, sym h ∙ ap entry_mask absent)
    | inr (old, there) ↦ (old, there)
  ]

  unset-none : (m : Mask) → is_set m ≡ false → m ≡ no_mask
  unset-none m h = ground (arith, h)

  -- aeApiDelEvent with the mask that is left.
  left-watches :
      (t : kernel.Table) (masks : ℕ → Mask) (fd : ℕ) (m : Mask) (i : ℕ)
      → ((i : ℕ) → watches t i ≡ masks i)
      → is_set (masks fd) ≡ true
      → watches (or_same t (kernel.epoll_ctl t (if is_set m then ctl_mod else ctl_del) fd m)) i
        ≡ changed masks fd m i
  left-watches t masks fd m i h e =
      let (old, there) = present t fd (masks fd) (h fd) e in
      elim (Bool-cases (is_set m)) [
        | inl set ↦
            let (t', done) = kernel.mod_present t fd old m there in
            rw (set, done)
              (set-watches t t' masks fd (some m) i (h i) (kernel.mod_sets t t' fd m done i))
        | inr unset ↦
            let (t', done, law) = kernel.del_present t fd old m there in
            rw (unset, done)
              (set-watches t t' masks fd none i (h i) (law i)
                ∙ ap (λ k. changed masks fd k i) (sym (unset-none m unset)))
      ]

  cleared-twice :
      (masks : ℕ → Mask) (fd : ℕ) (mask : Mask)
      → cleared (changed masks fd (cleared (masks fd) mask) fd) mask ≡ cleared (masks fd) mask
  cleared-twice masks fd mask = ground arith

  pub del-watches :
      (t : kernel.Table) (masks : ℕ → Mask) (fd : ℕ) (mask : Mask)
      → ((i : ℕ) → watches t i ≡ masks i)
      → is_set (masks fd) ≡ true
      → let after = changed masks fd (cleared (masks fd) mask) in
        (i : ℕ) → watches (del_event t after fd mask) i ≡ after i
  del-watches t masks fd mask h e i =
      let m = cleared (masks fd) mask in
      subst
        (λ x.
          watches (or_same t (kernel.epoll_ctl t (if is_set x then ctl_mod else ctl_del) fd x)) i
          ≡ changed masks fd m i)
        (sym (cleared-twice masks fd mask)) (left-watches t masks fd m i h e)

  abbrev pub epoll : Backend
  epoll = record {
    State = kernel.Table;
    watches = watches;
    add_event = add_event;
    del_event = del_event;
    adds = add-watches;
    deletes = del-watches;
  }

-- The timeout of epoll_wait in milliseconds, none for -1.
abbrev pub wait_time : Option (ℕ × ℕ) → Option ℕ
wait_time none = none
wait_time (some (sec, usec)) = some (sec * 1000 + usec / 1000)

-- The loop of aeApiPoll over what epoll_wait answers.
unfoldable pub poll : List EpollEvent → List Fired
poll [] = []
poll (e ∷ es) =
    record {
      fd = e.fd;
      mask = record { readable = e.epollin; writable = e.epollout || e.epollerr || e.epollhup };
    }
    ∷ poll es
