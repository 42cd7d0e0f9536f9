-- ===== src/Client/Writing.antt =====
-- src/server.c, gbWriteReplyHandler: how a reply goes out.
use gibson_mastter.Base.{
  ℕ, zero, suc, ◌+◌, ◌-◌, ◌%◌, ◌^◌, ◌<◌, ◌≤◌, ◌≡◌, refl, sym, ap, ◌∙◌, inl, inr, ◌⊎◌, Option, none,
  some, List, [], ◌∷◌, ◌++◌, Bool, true, false, ◌==◌, if◌then◌else◌, length, take, drop,
  length-take, length-drop, take-over, take-within, take-split, drop-drop, ==-no, ==-refl, arith,
}
use gibson_mastter.Base.Int.{ℤ}
use gibson_mastter.Server.{Server}
use gibson_mastter.Client.{Client, Sent, sent, full, write_reply, client_reset, sending_reply}

-- A client whose reply is going out, the first `size` bytes of its buffer, of which `wrote` have been
-- written.
abbrev pub sending : ℤ → Option ℕ → List ℕ → ℕ → ℕ → Bool → Client
sending fd seen buffer size wrote shutdown = record {
  fd = fd;
  buffer = some buffer;
  buffer_size = size;
  read = 0;
  wrote = wrote;
  status = sending_reply;
  seen = seen;
  shutdown = shutdown;
}

-- A call of write: the socket is full, or there is room for some bytes.
abbrev pub room : ℕ → Sent
room zero = full
room (suc n) = sent (suc n)

-- The event loop calls the handler as long as the client has something to send.
abbrev pub go_on :
    (Client → Option Client × List ℕ) → Option Client × List ℕ → Option Client × List ℕ
go_on f (none, out) = (none, out)
go_on f (some c, out) =
    if c.status == sending_reply then (let (o, rest) = f c in (o, out ++ rest)) else (some c, out)

abbrev pub write_all : Server → Client → List ℕ → Option Client × List ℕ
write_all s c [] = (some c, [])
write_all s c (n ∷ ns) = go_on (λ c'. write_all s c' ns) (write_reply s c (room n))

abbrev pub sum : List ℕ → ℕ
sum [] = 0
sum (n ∷ ns) = n + sum ns

split : (a b : ℕ) → (a ≤ b) ⊎ (b < a)
split a b = ground arith

module _ (s : Server) (fd : ℤ) (buffer : List ℕ) (shutdown : Bool) where
  -- What is left of the client when the whole reply is out.
  abbrev pub over : Option Client
  over =
      if shutdown
      then none
      else some (client_reset (sending fd (some s.stats.now) buffer 0 0 shutdown))

  to_write :
      (size wrote : ℕ)
      → wrote ≤ size
      → size < 2 ^ 32
      → (size + 2 ^ 32 - wrote) % 2 ^ 32 ≡ size - wrote
  to_write size wrote h k = omega (arith, h, k)

  whole : (size wrote : ℕ) → wrote ≤ size → size < 2 ^ 32 → (wrote + (size - wrote)) % 2 ^ 32 ≡ size
  whole size wrote h k = omega (arith, h, k)

  small : (size n : ℕ) → n ≤ size → size < 2 ^ 32 → n % 2 ^ 32 ≡ n
  small size n h k = omega (arith, h, k)

  write-last :
      (seen : Option ℕ) (size wrote n : ℕ)
      → size ≤ length buffer
      → wrote < size
      → size < 2 ^ 32
      → size - wrote ≤ suc n
      → write_reply s (sending fd seen buffer size wrote shutdown) (sent (suc n))
        ≡ (over, take (size - wrote) (drop wrote buffer))
  unfolding write_reply
  write-last seen size wrote n fits h k enough =
      let xs = drop wrote buffer in
      let left : length (take (size - wrote) xs) ≡ size - wrote =
        omega (arith, length-take (size - wrote) xs, length-drop wrote buffer, h, fits) in
      rw (to_write size wrote (omega (arith, h)) k) (
        rw (take-over (suc n) (take (size - wrote) xs) (omega (arith, left, enough))) (
          rw left (
            rw (==-no (size - wrote) 0 (λ e. omega (arith, e, h)))
              (rw (whole size wrote (omega (arith, h)) k) (rw (==-refl size) refl)))))

  write-some :
      (seen : Option ℕ) (size wrote n : ℕ)
      → size ≤ length buffer
      → wrote < size
      → size < 2 ^ 32
      → suc n < size - wrote
      → write_reply s (sending fd seen buffer size wrote shutdown) (sent (suc n)) ≡ (
        some (sending fd (some s.stats.now) buffer size (wrote + suc n) shutdown),
        take (suc n) (drop wrote buffer),
      )
  unfolding write_reply
  write-some seen size wrote n fits h k less =
      let xs = drop wrote buffer in
      let left : length (take (suc n) xs) ≡ suc n =
        omega (arith, length-take (suc n) xs, length-drop wrote buffer, h, fits) in
      rw (to_write size wrote (omega (arith, h)) k) (
        rw (take-within (suc n) (size - wrote) xs (omega (arith, less))) (
          rw left (
            rw
              (
                ==-no (suc n) 0 (λ e. omega (arith, e)),
                small size (wrote + suc n) (omega (arith, less)) k,
              )
              (rw (==-no (wrote + suc n) size (λ e. omega (arith, e, less))) refl))))

  write-full :
      (seen : Option ℕ) (size wrote : ℕ)
      → write_reply s (sending fd seen buffer size wrote shutdown) full
        ≡ (some (sending fd seen buffer size wrote shutdown), [])
  unfolding write_reply
  write-full seen size wrote = refl

  go_on-over :
      (f : Client → Option Client × List ℕ) (out : List ℕ) → go_on f (over, out) ≡ (over, out)
  go_on-over f out = go shutdown
    where
      go :
          (b : Bool)
          → let o =
              if b
              then none
              else some (client_reset (sending fd (some s.stats.now) buffer 0 0 b)) in
            go_on f (o, out) ≡ (o, out)
      go true = refl
      go false = refl

  rest-split :
      (size wrote n : ℕ)
      → n ≤ size - wrote
      → take n (drop wrote buffer) ++ take (size - (wrote + n)) (drop (wrote + n) buffer)
        ≡ take (size - wrote) (drop wrote buffer)
  rest-split size wrote n h =
      ap (λ j. take n (drop wrote buffer) ++ take j (drop (wrote + n) buffer))
        {x = size - (wrote + n)} {y = size - wrote - n} (omega arith)
      ∙ ap (λ xs. take n (drop wrote buffer) ++ take (size - wrote - n) xs)
          (sym (drop-drop wrote n buffer))
      ∙ take-split n (size - wrote) (drop wrote buffer) h

  -- Whatever the socket takes at each call of write, a reply goes out byte by byte in its order, once
  -- there has been room for as many bytes as are left; nothing is sent twice or left out. Then the
  -- client is as new, its buffer freed, or is destroyed if it was to be shut down. The reply is in
  -- the buffer and has less than 2^32 bytes.
  pub write_all-done :
      (seen : Option ℕ) (size wrote : ℕ) (ns : List ℕ)
      → size ≤ length buffer
      → wrote < size
      → size < 2 ^ 32
      → size - wrote ≤ sum ns
      → write_all s (sending fd seen buffer size wrote shutdown) ns
        ≡ (over, take (size - wrote) (drop wrote buffer))
  write_all-done seen size wrote [] fits h k enough = ground (arith, h, enough)
  write_all-done seen size wrote (zero ∷ ns) fits h k enough =
      rw (write-full seen size wrote, write_all)
        (write_all-done seen size wrote ns fits h k (omega (arith, enough)))
  write_all-done seen size wrote (suc n ∷ ns) fits h k enough =
      elim (split (size - wrote) (suc n)) [
        | inl last ↦
            rw (write-last seen size wrote n fits h k last, write_all)
              (go_on-over (λ c. write_all s c ns) (take (size - wrote) (drop wrote buffer)))
        | inr less ↦
            rw (write-some seen size wrote n fits h k less, write_all)
              (rw
                (write_all-done (some s.stats.now) size (wrote + suc n) ns fits
                  (omega (arith, less)) k (omega (arith, enough)))
                (ap (λ zs. (over, zs)) (rest-split size wrote (suc n) (omega (arith, less)))))
      ]
