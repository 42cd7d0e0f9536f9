-- ===== src/EventLoop/Files.antt =====
-- src/net.c: the highest descriptor of the event loop, after each call that changes descriptors.
use gibson_mastter.Base.{
  ℕ, ◌≡◌, refl, Option, none, some, Bool, true, false, ◌&&◌, ◌||◌, not, ltb, leb, ◌==◌,
  if◌then◌else◌, arith, ltb-yes, ltb-no, lt_of_leb, if_rule,
}
use gibson_mastter.EventLoop.{
  Mask, no_mask, is_set, joined, cleared, FileEvent, EventLoop, create_event_loop,
  create_file_event, delete_file_event, is_above, too_small, resize_set_size,
}
use gibson_mastter.EventLoop.Maximum.{Highest, Highest-set, Highest-drop}

-- `maxfd` is the highest descriptor with an event set.
abbrev pub Tracks : EventLoop → Type 0
Tracks el = Highest el.events el.setsize el.maxfd

create-Tracks :
    (el : EventLoop) (added : Bool) (fd : ℕ) (mask : Mask) (proc client_data : ℕ)
    → is_set mask ≡ true
    → Tracks el
    → Tracks (create_file_event el added fd mask proc client_data).1
unfolding create_file_event
create-Tracks el added fd mask proc client_data asked h =
    if_rule (λ (r : Bool × EventLoop). Tracks r.1) (leb el.setsize fd || not added) _ _ (λ _. h)
      λ guard.
        Highest-set el.events el.setsize fd _ el.maxfd
          (lt_of_leb el.setsize fd (ground (arith, guard)))
          (joined_set mask (el.events fd).mask asked) h
  where
    joined_set : (m old : Mask) → is_set m ≡ true → is_set (joined old m) ≡ true
    joined_set m old asked = ground (arith, asked)

delete-Tracks :
    (el : EventLoop) (fd : ℕ) (mask : Mask) → Tracks el → Tracks (delete_file_event el fd mask)
unfolding delete_file_event
delete-Tracks el fd mask h =
    if_rule Tracks (leb el.setsize fd || not (is_set (el.events fd).mask)) _ _ (λ _. h)
      λ guard.
        Highest-drop el.events el.setsize fd
          (record (el.events fd) { mask = cleared (el.events fd).mask mask }) el.maxfd
          (lt_of_leb el.setsize fd (ground (arith, guard))) (ground (arith, guard)) h

-- The array of gbResizeSetSize, where the maximum is `o`.
abbrev moved : EventLoop → Option ℕ → (ℕ → FileEvent) → ℕ → ℕ → FileEvent
moved el o memory setsize i =
    let old = if ltb i el.setsize then el.events i else memory i in
    if is_above i o && ltb i setsize then record old { mask = no_mask } else old

resize-Tracks :
    (el : EventLoop) (resized : Bool) (memory : ℕ → FileEvent) (setsize : ℕ)
    → Tracks el
    → Tracks (resize_set_size el resized memory setsize).1
unfolding resize_set_size
resize-Tracks el resized memory setsize h =
    if_rule (λ (r : Bool × EventLoop). Tracks r.1) (setsize == el.setsize) _ _ (λ _. h)
      λ _.
        if_rule (λ (r : Bool × EventLoop). Tracks r.1) (too_small el.maxfd setsize || not resized) _
          _ (λ _. h) λ guard. go el.maxfd h (ground (arith, guard))
  where
    go :
        (o : Option ℕ)
        → Highest el.events el.setsize o
        → too_small o setsize ≡ false
        → Highest (moved el o memory setsize) setsize o
    go none h fits = λ i less. rw (ltb-yes i setsize less) refl
    go (some m) (l, set, above) fits = (
      lt_of_leb setsize m fits,
      rw (ltb-no m m (omega arith)) (rw (ltb-yes m el.setsize l) set),
      λ i less high. rw (ltb-yes m i high, ltb-yes i setsize less) refl,
    )

-- The calls that change the descriptors of an event loop, in any order.
pub data Reached (memory : ℕ → FileEvent) : EventLoop → Type 0 where
  created : (setsize : ℕ) → Reached memory (create_event_loop setsize memory)
  watched :
      (el : EventLoop) (added : Bool) (fd : ℕ) (mask : Mask) (proc client_data : ℕ)
      → Reached memory el
      → is_set mask ≡ true
      → Reached memory (create_file_event el added fd mask proc client_data).1
  dropped :
      (el : EventLoop) (fd : ℕ) (mask : Mask)
      → Reached memory el
      → Reached memory (delete_file_event el fd mask)
  resized :
      (el : EventLoop) (answer : Bool) (more : ℕ → FileEvent) (setsize : ℕ)
      → Reached memory el
      → Reached memory (resize_set_size el answer more setsize).1

-- In every event loop that gbCreateEventLoop and then calls of gbCreateFileEvent with a mask,
-- gbDeleteFileEvent and gbResizeSetSize lead to, whatever the back end answers, `maxfd` is below
-- `setsize` and the highest descriptor with an event set, or -1 if none has one.
pub Reached-Tracks : {memory : ℕ → FileEvent} {el : EventLoop} → Reached memory el → Tracks el
Reached-Tracks {memory = memory} (created setsize) = λ i less. rw (ltb-yes i setsize less) refl
Reached-Tracks (watched el added fd mask proc client_data r asked) =
    create-Tracks el added fd mask proc client_data asked (Reached-Tracks r)
Reached-Tracks (dropped el fd mask r) = delete-Tracks el fd mask (Reached-Tracks r)
Reached-Tracks (resized el answer more setsize r) =
    resize-Tracks el answer more setsize (Reached-Tracks r)
