-- ===== src/EventLoop/Maximum.antt =====
-- src/net.c: the highest descriptor of the event loop, where one event is set or cleared.
use gibson_mastter.Base.{
  ℕ, zero, suc, ◌<◌, ◌≤◌, ◌≡◌, ◌≢◌, ◌⊎◌, refl, sym, subst, ap, ◌∙◌, inl, inr, Option, none, some,
  Bool, true, false, ◌&&◌, not, ltb, ◌==◌, if◌then◌else◌, arith, ==-no, ==-refl, lt_of_ltb,
  le_of_ltb, eq_of_==, Bool-cases, if_rule,
}
use gibson_mastter.EventLoop.{is_set, FileEvent, update, raised, highest, is_maxfd}

-- `o` is the highest index below `n` that has an event set, or none if there is none.
abbrev pub Highest : (ℕ → FileEvent) → ℕ → Option ℕ → Type 0
Highest events n none = (i : ℕ) → i < n → is_set (events i).mask ≡ false
Highest events n (some m) =
    (m < n)
    × (is_set (events m).mask ≡ true)
    × ((i : ℕ) → i < n → m < i → is_set (events i).mask ≡ false)

last_or_below : (i n : ℕ) → i < suc n → (i < n) ⊎ (i ≡ n)
last_or_below i n h = ground (arith, h)

-- One index more, with no event set.
Highest-unset :
    (events : ℕ → FileEvent) (n : ℕ) (o : Option ℕ)
    → is_set (events n).mask ≡ false
    → Highest events n o
    → Highest events (suc n) o
Highest-unset events n none e h =
    λ i less. elim (last_or_below i n less) [ inl l ↦ h i l | inr same ↦ rw same e ]
Highest-unset events n (some m) e (l, set, above) = (
  omega (arith, l),
  set,
  λ i less high. elim (last_or_below i n less) [ inl l' ↦ above i l' high | inr same ↦ rw same e ],
)

highest-Highest : (events : ℕ → FileEvent) (n : ℕ) → Highest events n (highest events n)
unfolding highest
highest-Highest events zero = λ i h. ground (arith, h)
highest-Highest events (suc n) = elim (Bool-cases (is_set (events n).mask)) [
  | inl e ↦ rw e (omega arith, e, λ i less high. ground (arith, less, high))
  | inr e ↦ rw e (Highest-unset events n (highest events n) e (highest-Highest events n))
]

update-same : (events : ℕ → FileEvent) (fd : ℕ) (fe : FileEvent) → update events fd fe fd ≡ fe
update-same events fd fe = rw (==-refl fd) refl

update-other :
    (events : ℕ → FileEvent) (fd i : ℕ) (fe : FileEvent) → i ≢ fd → update events fd fe i ≡ events i
update-other events fd i fe h = rw (==-no i fd h) refl

update-set :
    (events : ℕ → FileEvent) (fd i : ℕ) (fe : FileEvent)
    → is_set fe.mask ≡ true
    → is_set (events i).mask ≡ true
    → is_set (update events fd fe i).mask ≡ true
update-set events fd i fe set old =
    if_rule (λ (e : FileEvent). is_set e.mask ≡ true) (i == fd) fe (events i) (λ _. set) (λ _. old)

-- An event is set at an index.
pub Highest-set :
    (events : ℕ → FileEvent) (n fd : ℕ) (fe : FileEvent) (o : Option ℕ)
    → fd < n
    → is_set fe.mask ≡ true
    → Highest events n o
    → Highest (update events fd fe) n (raised o fd)
Highest-set events n fd fe none less set h = (
  less,
  rw (update-same events fd fe) set,
  λ i l high. rw (update-other events fd i fe (λ e. omega (arith, e, high))) (h i l),
)
Highest-set events n fd fe (some m) less set (l, old, above) = elim (Bool-cases (ltb m fd)) [
  | inl higher ↦ rw higher (
    less,
    rw (update-same events fd fe) set,
    λ i l' high.
        rw (update-other events fd i fe (λ e. omega (arith, e, high)))
          (above i l' (omega (arith, high, lt_of_ltb m fd higher))),
  )
  | inr lower ↦ rw lower (
    l,
    update-set events fd m fe set old,
    λ i l' high.
        rw (update-other events fd i fe (λ e. omega (arith, e, high, le_of_ltb m fd lower)))
          (above i l' high),
  )
]

last_or_above : (k i : ℕ) → k ≤ i → (k ≡ i) ⊎ (k < i)
last_or_above k i h = ground (arith, h)

split_at : (i k : ℕ) → (i < k) ⊎ (k ≤ i)
split_at i k = ground arith

-- Nothing is set from `k` on.
Highest-extend :
    (events : ℕ → FileEvent) (k n : ℕ) (o : Option ℕ)
    → k ≤ n
    → ((i : ℕ) → k ≤ i → i < n → is_set (events i).mask ≡ false)
    → Highest events k o
    → Highest events n o
Highest-extend events k n none fits above h =
    λ i less. elim (split_at i k) [ inl l ↦ h i l | inr g ↦ above i g less ]
Highest-extend events k n (some m) fits above (l, set, higher) = (
  omega (arith, l, fits),
  set,
  λ i less high. elim (split_at i k) [ inl l' ↦ higher i l' high | inr g ↦ above i g less ],
)

Highest-cong :
    (old new : ℕ → FileEvent) (n : ℕ) (o : Option ℕ)
    → ((i : ℕ) → is_set (new i).mask ≡ is_set (old i).mask)
    → Highest old n o
    → Highest new n o
Highest-cong old new n none same h = λ i less. same i ∙ h i less
Highest-cong old new n (some m) same (l, set, above) =
    (l, same m ∙ set, λ i less high. same i ∙ above i less high)

-- The event of an index goes.
Highest-clear :
    (events : ℕ → FileEvent) (n fd : ℕ) (fe : FileEvent) (o : Option ℕ)
    → fd < n
    → is_set fe.mask ≡ false
    → is_set (events fd).mask ≡ true
    → Highest events n o
    → Highest
        (update events fd fe)
        n
        (if is_maxfd o fd then highest (update events fd fe) fd else o)
Highest-clear events n fd fe none less gone set h = cc (h fd less, set)
Highest-clear events n fd fe (some m) less gone set (l, old, above) = elim (Bool-cases (fd == m)) [
  | inl top ↦ rw top (
      let here : fd ≡ m = eq_of_== fd m top in
      Highest-extend (update events fd fe) fd n (highest (update events fd fe) fd)
        (omega (arith, less))
        (λ i from l'. elim (last_or_above fd i from) [
          | inl same ↦ rw (sym same) (rw (update-same events fd fe) gone)
          | inr high ↦
              rw (update-other events fd i fe (λ e. omega (arith, e, high)))
                (above i l' (omega (arith, high, here)))
        ])
        (highest-Highest (update events fd fe) fd))
  | inr below ↦ rw below (
    l,
    rw (update-other events fd m fe (λ e. cc (ap (λ k. fd == k) e, ==-refl fd, below))) old,
    λ i l' high. elim (Bool-cases (i == fd)) [
      | inl same ↦ rw (eq_of_== i fd same) (rw (update-same events fd fe) gone)
      | inr other ↦ rw other (above i l' high)
    ],
  )
]

-- Some events of an index go.
pub Highest-drop :
    (events : ℕ → FileEvent) (n fd : ℕ) (fe : FileEvent) (o : Option ℕ)
    → fd < n
    → is_set (events fd).mask ≡ true
    → Highest events n o
    → Highest
        (update events fd fe)
        n
        (if is_maxfd o fd && not (is_set fe.mask) then highest (update events fd fe) fd else o)
Highest-drop events n fd fe o less set h = elim (Bool-cases (is_set fe.mask)) [
  | inl kept ↦
      subst (λ b. Highest new n (if b then highest new fd else o))
        (sym (still (is_maxfd o fd) (is_set fe.mask) kept))
        (Highest-cong events new n o (same kept) h)
  | inr gone ↦
      subst (λ b. Highest new n (if b then highest new fd else o))
        (sym (empty (is_maxfd o fd) (is_set fe.mask) gone))
        (Highest-clear events n fd fe o less gone set h)
]
  where
    new : ℕ → FileEvent
    new = update events fd fe

    still : (a b : Bool) → b ≡ true → a && not b ≡ false
    still a b e = ground (arith, e)

    empty : (a b : Bool) → b ≡ false → a && not b ≡ a
    empty a b e = ground (arith, e)

    same :
        is_set fe.mask ≡ true
        → (i : ℕ) → is_set (update events fd fe i).mask ≡ is_set (events i).mask
    same kept i =
        if_rule (λ (e : FileEvent). is_set e.mask ≡ is_set (events i).mask) (i == fd) fe (events i)
          (λ here. rw (eq_of_== i fd here) (kept ∙ sym set)) (λ _. refl)
