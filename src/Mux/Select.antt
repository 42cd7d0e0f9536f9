-- ===== src/Mux/Select.antt =====
-- src/mux/select.c. A bit set is a function; FD_SET is meant for descriptors below FD_SETSIZE, 1024, only.
use gibson_mastter.Base.{
  ℕ, zero, suc, ◌≡◌, Option, none, some, List, [], ◌∷◌, Bool, true, false, ◌&&◌, not, leb, ◌==◌,
  if◌then◌else◌, arith,
}
use gibson_mastter.EventLoop.{Mask, is_set, joined, cleared}
use gibson_mastter.EventLoop.Process.{Fired}
use gibson_mastter.Mux.{changed, Backend}

-- select: the sets of descriptors to read from and to write to.
pub record FdSets : Type 0 where
  pub rfds : ℕ → Bool
  pub wfds : ℕ → Bool

-- FD_SET and FD_CLR
abbrev pub with_bit : (ℕ → Bool) → ℕ → Bool → ℕ → Bool
with_bit bits fd b i = if i == fd then b else bits i

-- aeApiCreate
abbrev pub create : FdSets
create = record { rfds = λ i. false; wfds = λ i. false }

-- aeApiResize, false for -1
abbrev pub resize : ℕ → Bool
resize setsize = not (leb 1024 setsize)

-- aeApiAddEvent
abbrev pub add_event : FdSets → (ℕ → Mask) → ℕ → Mask → Option FdSets
add_event st masks fd mask = some (record {
  rfds = if mask.readable then with_bit st.rfds fd true else st.rfds;
  wfds = if mask.writable then with_bit st.wfds fd true else st.wfds;
})

-- aeApiDelEvent
abbrev pub del_event : FdSets → (ℕ → Mask) → ℕ → Mask → FdSets
del_event st masks fd mask = record {
  rfds = if mask.readable then with_bit st.rfds fd false else st.rfds;
  wfds = if mask.writable then with_bit st.wfds fd false else st.wfds;
}

-- The loop of aeApiPoll over the descriptors up to `j`, where select left the sets `ready`.
unfoldable pub fired_from : (ℕ → Mask) → FdSets → ℕ → ℕ → List Fired
fired_from masks ready zero j = []
fired_from masks ready (suc left) j =
    let rest = fired_from masks ready left (suc j) in
    if is_set (masks j)
    then record {
      fd = j;
      mask = record {
        readable = (masks j).readable && ready.rfds j;
        writable = (masks j).writable && ready.wfds j;
      };
    }
      ∷ rest
    else rest

abbrev pub descriptors : Option ℕ → ℕ
descriptors none = 0
descriptors (some m) = suc m

-- aeApiPoll, where select answers sets, or none for 0 and -1.
abbrev pub poll : (ℕ → Mask) → Option ℕ → Option FdSets → List Fired
poll masks maxfd none = []
poll masks maxfd (some ready) = fired_from masks ready (descriptors maxfd) 0

abbrev pub watches : FdSets → ℕ → Mask
watches st fd = record { readable = st.rfds fd; writable = st.wfds fd }

pub add-watches :
    (st st' : FdSets) (masks : ℕ → Mask) (fd : ℕ) (mask : Mask)
    → ((i : ℕ) → watches st i ≡ masks i)
    → add_event st masks fd mask ≡ some st'
    → (i : ℕ) → watches st' i ≡ changed masks fd (joined (masks fd) mask) i
add-watches st st' masks fd mask h e i = ground (arith, h fd, h i, e)

pub del-watches :
    (st : FdSets) (masks : ℕ → Mask) (fd : ℕ) (mask : Mask)
    → ((i : ℕ) → watches st i ≡ masks i)
    → is_set (masks fd) ≡ true
    → let after = changed masks fd (cleared (masks fd) mask) in
      (i : ℕ) → watches (del_event st after fd mask) i ≡ after i
del-watches st masks fd mask h e i = ground (arith, h fd, h i)

abbrev pub select : Backend
select = record {
  State = FdSets;
  watches = watches;
  add_event = add_event;
  del_event = del_event;
  adds = add-watches;
  deletes = del-watches;
}
