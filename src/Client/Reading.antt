-- ===== src/Client/Reading.antt =====
-- src/server.c, gbReadQueryHandler: how a request comes in.
use gibson_mastter.Base.{
  ℕ, suc, ◌+◌, ◌-◌, ◌%◌, ◌^◌, ◌<◌, ◌≤◌, ◌≡◌, refl, sym, ap, ◌∙◌, Option, none, some, List, [], ◌∷◌,
  ◌++◌, map, Bool, false, ◌==◌, length, length-append, take-over, drop-over, ltb-yes, ltb-no, arith,
}
use mathlib.Core.List.{append-nil, append_assoc}
use gibson_mastter.Base.Int.{ℤ, pos, of_word}
use gibson_mastter.Server.{External, Server}
use gibson_mastter.Reply.{le_bytes, le_word}
use gibson_mastter.Client.{
  Client, Outcome, alive, gone, crash, Event, arrived, again, waiting_size, waiting_buffer, int_sub,
  plan, plan_buffer, to_buffer, overwrite, read_size, answer, after_read, do_read, read_buffer,
  carry_out, read_query,
}
use gibson_mastter.Client.Frame.{le_word-le_bytes, take_full}

-- A client between two requests, as gbClientCreate and gbClientReset leave it.
abbrev pub idle : ℤ → Option ℕ → Client
idle fd seen = record {
  fd = fd;
  buffer = none;
  buffer_size = 0;
  read = 0;
  wrote = 0;
  status = waiting_size;
  seen = seen;
  shutdown = false;
}

-- The size of the request is in.
abbrev pub sized : ℤ → ℕ → ℕ → Client
sized fd now n = record {
  fd = fd;
  buffer = none;
  buffer_size = n;
  read = 4;
  wrote = 0;
  status = waiting_size;
  seen = some now;
  shutdown = false;
}

-- A part of the request is in.
abbrev pub holding : ℤ → ℕ → ℕ → List ℕ → Client
holding fd now n got = record {
  fd = fd;
  buffer = some got;
  buffer_size = n;
  read = length got;
  wrote = 0;
  status = waiting_buffer;
  seen = some now;
  shutdown = false;
}

int_sub-less : (a b : ℕ) → b ≤ a → a < 2 ^ 31 → int_sub a b ≡ pos (a - b)
unfolding of_word
int_sub-less a b h k = ground (arith, h, k)

-- A piece of a request: a read that finds nothing yet, or some bytes.
abbrev pub piece : List ℕ → Event
piece [] = again
piece (b ∷ bs) = arrived (b ∷ bs)

overwrite-end : (old bs : List ℕ) → overwrite old (length old) bs ≡ old ++ bs
unfolding overwrite
overwrite-end old bs = rw (take_full old) (
    ap (λ zs. old ++ bs ++ zs) (drop-over (length old + length bs) old (omega arith))
    ∙ append-nil (old ++ bs))

abbrev pub join : List (List ℕ) → List ℕ
join [] = []
join (p ∷ ps) = p ++ join ps

some_bytes : (n : ℕ) → (suc n == 0) ≡ false
some_bytes n = ground arith

module _ (ext : External) (watched : Bool) (behind : List ℕ) (s : Server) where
  -- The handler, event by event, while the client lives.
  abbrev pub read_all : Outcome → List Event → Outcome
  read_all o [] = o
  read_all (alive s' c) (e ∷ es) = read_all (read_query ext watched behind s' c e) es
  read_all (gone s') (e ∷ es) = gone s'
  read_all crash (e ∷ es) = crash

  module _ (fd : ℤ) where
    pub read-size :
        (seen : Option ℕ) (n : ℕ)
        → n < 2 ^ 31
        → read_query ext watched behind s (idle fd seen) (arrived (le_bytes 4 n))
          ≡ alive s (sized fd s.stats.now n)
    unfolding read_query plan do_read after_read read_size overwrite le_bytes of_word
    read-size seen n h =
        ap (λ k. alive s (sized fd s.stats.now k)) {x = le_word (le_bytes 4 n)} {y = n}
          (le_word-le_bytes n (omega (arith, h)))

    pub plan-holding :
        (n : ℕ) (got : List ℕ)
        → length got < n
        → n < 2 ^ 31
        → plan_buffer (holding fd s.stats.now n got)
          ≡ (holding fd s.stats.now n got, to_buffer (n - length got))
    unfolding plan_buffer
    plan-holding n got h k =
        rw (int_sub-less n (length got) (omega (arith, h)) k)
          (rw (ltb-yes 0 (n - length got + 0) (omega (arith, h))) refl)

    -- The client when `k` bytes more have been written behind the `r` that were there.
    abbrev with_more : ℕ → List ℕ → ℕ → Client
    with_more n bs r = record (holding fd s.stats.now n bs) { read = r }

    after-some :
        (n : ℕ) (got p : List ℕ)
        → length (got ++ p) < n
        → n < 2 ^ 31
        → after_read ext watched behind s (with_more n (got ++ p) (length got)) (length p)
          ≡ alive s (holding fd s.stats.now n (got ++ p))
    unfolding after_read
    after-some n got p h k =
        let total : (length got + length p) % 2 ^ 32 ≡ length (got ++ p) =
          omega (arith, h, k, length-append got p) in
        rw total (ground (arith, h))

    after-all :
        (n : ℕ) (got p : List ℕ)
        → length (got ++ p) ≡ n
        → n < 2 ^ 31
        → after_read ext watched behind s (with_more n (got ++ p) (length got)) (length p)
          ≡ answer ext watched behind s (holding fd s.stats.now n (got ++ p))
    unfolding after_read
    after-all n got p h k =
        let total : (length got + length p) % 2 ^ 32 ≡ length (got ++ p) =
          omega (arith, h, k, length-append got p) in
        rw total (ground (arith, h))

    -- A piece brings the handler to what follows the call of read.
    read-piece :
        (n : ℕ) (got p : List ℕ)
        → length got < n
        → length (got ++ p) ≤ n
        → n < 2 ^ 31
        → read_query ext watched behind s (holding fd s.stats.now n got) (piece p)
          ≡ after_read ext watched behind s (with_more n (got ++ p) (length got)) (length p)
    unfolding read_query plan read_buffer do_read
    read-piece n got [] h m k =
        ap (λ cp. carry_out ext watched behind s cp again) (plan-holding n got h k)
        ∙ ap (λ bs. after_read ext watched behind s (with_more n bs (length got)) 0)
            (sym (append-nil got))
    read-piece n got (b ∷ bs) h m k =
        let p = b ∷ bs in
        ap (λ cp. carry_out ext watched behind s cp (arrived p)) (plan-holding n got h k)
        ∙ rw (take-over (n - length got) p (omega (arith, m, length-append got p)), do_read)
            (rw (some_bytes (length bs)) (
              ap (λ zs. after_read ext watched behind s (with_more n zs (length got)) (length p))
                (overwrite-end got p)))

    pub more :
        (n : ℕ) (got p : List ℕ)
        → length got < n
        → length (got ++ p) < n
        → n < 2 ^ 31
        → read_query ext watched behind s (holding fd s.stats.now n got) (piece p)
          ≡ alive s (holding fd s.stats.now n (got ++ p))
    more n got p h m k = read-piece n got p h (omega (arith, m)) k ∙ after-some n got p m k

    -- The pieces of a request, one after the other, up to the last.
    read_all-pieces :
        (ps : List (List ℕ)) (last : List ℕ) (n : ℕ) (got : List ℕ)
        → 0 < length last
        → length (got ++ (join ps ++ last)) ≡ n
        → n < 2 ^ 31
        → read_all (alive s (holding fd s.stats.now n got)) (map piece (ps ++ last ∷ []))
          ≡ answer ext watched behind s (holding fd s.stats.now n (got ++ (join ps ++ last)))
    read_all-pieces [] last n got some_left h k =
        read-piece n got last (omega (arith, h, some_left, length-append got last))
          (omega (arith, h)) k
        ∙ after-all n got last h k
    read_all-pieces (p ∷ ps) last n got some_left h k =
        let same : got ++ (p ++ join ps ++ last) ≡ got ++ p ++ (join ps ++ last) =
          ap (λ zs. got ++ zs) (append_assoc p (join ps) last)
          ∙ sym (append_assoc got p (join ps ++ last)) in
        let h' = ap length (sym same) ∙ h in
        ap (λ o. read_all o (map piece (ps ++ last ∷ []))) (more n got p (begun h') (within h') k)
        ∙ read_all-pieces ps last n (got ++ p) some_left h' k
        ∙ ap (λ zs. answer ext watched behind s (holding fd s.stats.now n zs)) (sym same)
      where
        within : length (got ++ p ++ (join ps ++ last)) ≡ n → length (got ++ p) < n
        within e = omega (
          arith,
          e,
          some_left,
          length-append (got ++ p) (join ps ++ last),
          length-append (join ps) last,
        )

        begun : length (got ++ p ++ (join ps ++ last)) ≡ n → length got < n
        begun e = omega (arith, within e, length-append got p)

    -- With the size in, the next event begins the buffer.
    pub plan-sized :
        (n : ℕ)
        → 2 ≤ n
        → n ≤ s.limits.maxrequestsize
        → plan s.limits (sized fd s.stats.now n) ≡ plan s.limits (holding fd s.stats.now n [])
    unfolding plan of_word
    plan-sized n low high = rw (ltb-no s.limits.maxrequestsize n high, ltb-no n 2 low) refl

    read_all-sized :
        (ps : List (List ℕ)) (last : List ℕ) (n : ℕ)
        → 2 ≤ n
        → n ≤ s.limits.maxrequestsize
        → read_all (alive s (sized fd s.stats.now n)) (map piece (ps ++ last ∷ []))
          ≡ read_all (alive s (holding fd s.stats.now n [])) (map piece (ps ++ last ∷ []))
    unfolding read_query
    read_all-sized [] last n low high =
        ap (λ cp. carry_out ext watched behind s cp (piece last)) (plan-sized n low high)
    read_all-sized (p ∷ ps) last n low high =
        ap
          (λ cp.
            read_all (carry_out ext watched behind s cp (piece p)) (map piece (ps ++ last ∷ [])))
          (plan-sized n low high)

    -- A request that comes in after its size, in whatever pieces and with whatever pauses, is answered
    -- once, when its last byte is there, as the request that the pieces make up. The size came in one
    -- piece; it is 2 at least, within maxrequestsize and less than 2^31; the last piece is not empty.
    pub read_all-answer :
        (seen : Option ℕ) (ps : List (List ℕ)) (last : List ℕ) (n : ℕ)
        → 0 < length last
        → length (join ps ++ last) ≡ n
        → 2 ≤ n
        → n ≤ s.limits.maxrequestsize
        → n < 2 ^ 31
        → read_all (alive s (idle fd seen)) (map piece (le_bytes 4 n ∷ ps ++ last ∷ []))
          ≡ answer ext watched behind s (holding fd s.stats.now n (join ps ++ last))
    unfolding le_bytes
    read_all-answer seen ps last n some_left h low high k =
        ap (λ o. read_all o (map piece (ps ++ last ∷ []))) (read-size seen n k)
        ∙ read_all-sized ps last n low high
        ∙ read_all-pieces ps last n [] some_left h k
