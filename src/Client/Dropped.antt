-- ===== src/Client/Dropped.antt =====
-- src/server.c, gbReadQueryHandler: when a client is dropped.
use gibson_mastter.Base.{
  ℕ, zero, suc, ◌+◌, ◌-◌, ◌^◌, ◌<◌, ◌≤◌, ◌≡◌, refl, ap, ◌∙◌, ◌⊎◌, inl, inr, Option, some, List, [],
  ◌∷◌, ◌++◌, map, Bool, true, ◌||◌, ltb, length, length-append, ltb-yes, take-over, arith,
}
use gibson_mastter.Base.Int.{ℤ, of_word}
use gibson_mastter.Server.{External, Server}
use gibson_mastter.Reply.{le_bytes}
use gibson_mastter.Client.{
  Client, Outcome, alive, gone, Event, arrived, again, broken, waiting_size, plan, to_size,
  overwrite, read_size, after_read, do_read, read_buffer, carry_out, read_query,
}
use gibson_mastter.Client.Reading.{
  idle, sized, holding, piece, join, read_all, read-size, plan-holding, plan-sized, more,
}

-- The end of a stream, or an error of read.
abbrev pub IsLost : Event → Type 0
IsLost (arrived bs) = bs ≡ []
IsLost again = ⊥
IsLost broken = Unit

-- A size that gbReadQueryHandler does not take.
abbrev pub Refused : Server → ℕ → Type 0
Refused s n = (n < 2) ⊎ (s.limits.maxrequestsize < n)

abbrev pub waits : ℕ → List Event → List Event
waits zero es = es
waits (suc k) es = again ∷ waits k es

waits-append : (k : ℕ) (es fs : List Event) → waits k es ++ fs ≡ waits k (es ++ fs)
waits-append zero es fs = refl
waits-append (suc k) es fs = ap (λ l. again ∷ l) (waits-append k es fs)

module _ (ext : External) (watched : Bool) (behind : List ℕ) (s : Server) where
  -- A client of which less than the four bytes of a size have been read.
  abbrev pub InSize : Client → Type 0
  InSize c = (c.status ≡ waiting_size) × (c.read < 4)

  do_read-lost :
      (c : Client) (toread : ℕ) (put : List ℕ → Client) (e : Event)
      → IsLost e
      → do_read ext watched behind s c toread put e ≡ gone s
  unfolding do_read
  do_read-lost c toread put broken lost = refl
  do_read-lost c toread put again lost = absurd lost
  do_read-lost c toread put (arrived bs) lost =
      rw lost (rw (take-over {A = ℕ} toread [] (omega arith)) refl)

  plan-InSize : (c : Client) → InSize c → plan s.limits c ≡ (c, to_size (4 - c.read))
  unfolding plan of_word
  plan-InSize c h = ground (arith, h.0, h.1)

  InSize-lost :
      (c : Client) (e : Event) → InSize c → IsLost e → read_query ext watched behind s c e ≡ gone s
  unfolding read_query
  InSize-lost c e h lost = rw (plan-InSize c h) (do_read-lost c (4 - c.read) (read_size c) e lost)

  InSize-again :
      (c : Client)
      → InSize c
      → read_query ext watched behind s c again ≡ alive s (record c { seen = some s.stats.now })
  unfolding read_query do_read after_read
  InSize-again c h = rw (plan-InSize c h) (ground (arith, h.0, h.1))

  -- However long it waits.
  waits-lost :
      (k : ℕ) (c : Client) (e : Event)
      → InSize c
      → IsLost e
      → read_all ext watched behind s (alive s c) (waits k (e ∷ [])) ≡ gone s
  waits-lost zero c e h lost = InSize-lost c e h lost
  waits-lost (suc k) c e h lost =
      ap (λ o. read_all ext watched behind s o (waits k (e ∷ []))) (InSize-again c h)
      ∙ waits-lost k (record c { seen = some s.stats.now }) e h lost

  module _ (fd : ℤ) where
    -- The first bytes of a size leave the client within its size.
    size-InSize :
        (seen : Option ℕ) (p : List ℕ)
        → length p < 4
        → (c : Client) × (read_query ext watched behind s (idle fd seen) (piece p) ≡ alive s c)
          × InSize c
    unfolding read_query plan do_read after_read read_size overwrite le_bytes of_word
    size-InSize seen [] h = (idle fd (some s.stats.now), refl, (refl, omega arith))
    size-InSize seen (a ∷ []) h = (_, refl, (refl, omega arith))
    size-InSize seen (a ∷ b ∷ []) h = (_, refl, (refl, omega arith))
    size-InSize seen (a ∷ b ∷ d ∷ []) h = (_, refl, (refl, omega arith))
    size-InSize seen (a ∷ b ∷ d ∷ f ∷ bs) h = absurd (omega (arith, h))

    -- While no byte has come, the client stays as it is.
    waits-idle :
        (k : ℕ) (seen : Option ℕ) (es : List Event) (o : Outcome)
        → ((seen' : Option ℕ) → read_all ext watched behind s (alive s (idle fd seen')) es ≡ o)
        → read_all ext watched behind s (alive s (idle fd seen)) (waits k es) ≡ o
    waits-idle zero seen es o h = h seen
    waits-idle (suc k) seen es o h =
        ap (λ r. read_all ext watched behind s r (waits k es))
          (InSize-again (idle fd seen) (refl, omega arith))
        ∙ waits-idle k (some s.stats.now) es o h

    -- A client whose request has a size below 2 or above maxrequestsize is dropped at its next event,
    -- whatever that is, with nothing read into a buffer and the server as it was.
    pub read_query-Refused :
        (n : ℕ) (e : Event)
        → Refused s n
        → read_query ext watched behind s (sized fd s.stats.now n) e ≡ gone s
    unfolding read_query plan of_word
    read_query-Refused n e bad = rw (out_of_range bad) refl
      where
        out_of_range :
            (n < 2) ⊎ (s.limits.maxrequestsize < n)
            → (ltb s.limits.maxrequestsize n || ltb n 2) ≡ true
        out_of_range (inl low) = ground (arith, low)
        out_of_range (inr high) = rw (ltb-yes s.limits.maxrequestsize n high) refl

    read_all-gone : (es : List Event) → read_all ext watched behind s (gone s) es ≡ gone s
    read_all-gone [] = refl
    read_all-gone (e ∷ es) = refl

    holding-lost :
        (n : ℕ) (got : List ℕ) (e : Event)
        → length got < n
        → n < 2 ^ 31
        → IsLost e
        → read_query ext watched behind s (holding fd s.stats.now n got) e ≡ gone s
    unfolding read_query plan read_buffer
    holding-lost n got e h k lost =
        ap (λ cp. carry_out ext watched behind s cp e)
          (plan-holding ext watched behind s fd n got h k)
        ∙ do_read-lost (holding fd s.stats.now n got) (n - length got) _ e lost

    pieces-lost :
        (ps : List (List ℕ)) (n : ℕ) (got : List ℕ) (e : Event)
        → length got + length (join ps) < n
        → n < 2 ^ 31
        → IsLost e
        → read_all ext watched behind s
            (alive s (holding fd s.stats.now n got))
            (map piece ps ++ e ∷ [])
          ≡ gone s
    pieces-lost [] n got e h k lost = holding-lost n got e (omega (arith, h)) k lost
    pieces-lost (p ∷ ps) n got e h k lost =
        let total = length-append got p in
        let rest = length-append p (join ps) in
        ap (λ o. read_all ext watched behind s o (map piece ps ++ e ∷ []))
          (more ext watched behind s fd n got p (omega (arith, h)) (omega (arith, h, total, rest))
            k)
        ∙ pieces-lost ps n (got ++ p) e (omega (arith, h, total, rest)) k lost

    -- With the size in, the first event begins the buffer.
    sized-holding :
        (n : ℕ) (es : List Event)
        → 2 ≤ n
        → n ≤ s.limits.maxrequestsize
        → (0 < length es)
        → read_all ext watched behind s (alive s (sized fd s.stats.now n)) es
          ≡ read_all ext watched behind s (alive s (holding fd s.stats.now n [])) es
    unfolding read_query
    sized-holding n [] low high some_left = absurd (omega (arith, some_left))
    sized-holding n (e ∷ es) low high some_left =
        ap (λ cp. read_all ext watched behind s (carry_out ext watched behind s cp e) es)
          (plan-sized ext watched behind s fd n low high)

    sized-lost :
        (n : ℕ) (ps : List (List ℕ)) (e : Event)
        → n < 2 ^ 31
        → Refused s n ⊎ ((2 ≤ n) × (n ≤ s.limits.maxrequestsize) × (length (join ps) < n))
        → IsLost e
        → read_all ext watched behind s (alive s (sized fd s.stats.now n)) (map piece ps ++ e ∷ [])
          ≡ gone s
    sized-lost n [] e k (inl bad) lost = read_query-Refused n e bad
    sized-lost n (p ∷ ps) e k (inl bad) lost =
        ap (λ o. read_all ext watched behind s o (map piece ps ++ e ∷ []))
          (read_query-Refused n (piece p) bad)
        ∙ read_all-gone (map piece ps ++ e ∷ [])
    sized-lost n [] e k (inr (low, high, h)) lost =
        sized-holding n (e ∷ []) low high (omega arith)
        ∙ pieces-lost [] n [] e (omega (arith, h)) k lost
    sized-lost n (p ∷ ps) e k (inr (low, high, h)) lost =
        sized-holding n (map piece (p ∷ ps) ++ e ∷ []) low high (omega arith)
        ∙ pieces-lost (p ∷ ps) n [] e (omega (arith, h)) k lost

-- What comes in of a request that stays unfinished: nothing or a part of its size, with any waits before
-- and after; or the whole size and then pieces of the request that are less than it, or any pieces if
-- the size is refused.
pub data Unfinished (s : Server) : List Event → Type 0 where
  in_size : (k j : ℕ) (p : List ℕ) → length p < 4 → Unfinished s (waits k (piece p ∷ waits j []))
  in_request :
      (k n : ℕ) (ps : List (List ℕ))
      → n < 2 ^ 31
      → Refused s n ⊎ ((2 ≤ n) × (n ≤ s.limits.maxrequestsize) × (length (join ps) < n))
      → Unfinished s (waits k (piece (le_bytes 4 n) ∷ map piece ps))

module _ (ext : External) (watched : Bool) (behind : List ℕ) (s : Server) (fd : ℤ) where
  -- A client whose stream ends or fails before its request is there, or after a size that is refused,
  -- is dropped, and the server is as it was: whatever part of the size, or whatever pieces of the
  -- request behind it, have come, with whatever waits before and after the first part of the size.
  -- Behind a part of the size only waits come; a size that is whole came in one piece and is less
  -- than 2^31.
  pub read_all-lost :
      (seen : Option ℕ) (es : List Event) (e : Event)
      → Unfinished s es
      → IsLost e
      → read_all ext watched behind s (alive s (idle fd seen)) (es ++ e ∷ []) ≡ gone s
  unfolding le_bytes
  read_all-lost seen es e (in_size k j p h) lost =
      rw (waits-append k (piece p ∷ waits j []) (e ∷ []), waits-append j [] (e ∷ []))
        (waits-idle ext watched behind s fd k seen (piece p ∷ waits j (e ∷ [])) (gone s) (λ seen'.
          let (c, first, within) = size-InSize ext watched behind s fd seen' p h in
          ap (λ o. read_all ext watched behind s o (waits j (e ∷ []))) first
          ∙ waits-lost ext watched behind s j c e within lost))
  read_all-lost seen es e (in_request k n ps small left) lost =
      rw (waits-append k (piece (le_bytes 4 n) ∷ map piece ps) (e ∷ [])) (
        waits-idle ext watched behind s fd k seen (piece (le_bytes 4 n) ∷ map piece ps ++ e ∷ [])
          (gone s)
          (λ seen'.
            ap (λ o. read_all ext watched behind s o (map piece ps ++ e ∷ []))
              (read-size ext watched behind s fd seen' n small)
            ∙ sized-lost ext watched behind s fd n ps e small left lost))
