-- ===== src/Client/Exchange.antt =====
-- A request and its reply: gbReadQueryHandler, gbProcessQuery, gbClientEnqueueData and
-- gbWriteReplyHandler one after the other.
use gibson_mastter.Base.{
  ℕ, ◌+◌, ◌-◌, ◌%◌, ◌^◌, ◌<◌, ◌≤◌, ◌≡◌, refl, sym, subst, ap, ◌∙◌, Option, none, some, List, [],
  ◌∷◌, ◌++◌, map, Bool, true, false, if◌then◌else◌, length, take, drop, length-append, arith,
}
use gibson_mastter.Base.Int.{ℤ, pos, le_ℤ}
use gibson_mastter.Server.{External, Server}
use gibson_mastter.Item.{Encoding}
use gibson_mastter.Request.{size_sub}
use gibson_mastter.Reply.{reply, failed, Code, code_number, encoding_number, le_bytes, le_word}
use gibson_mastter.Query.{Answer}
use gibson_mastter.Query.Process.{process_query}
use gibson_mastter.Query.Invariant.{Inv}
use gibson_mastter.Query.Keeps.{IsClean}
use gibson_mastter.Query.Kept.{process_query-Inv}
use gibson_mastter.Client.{
  Client, Outcome, alive, gone, crash, frame, overwrite, enqueue_data, reply_to, answer,
}
use gibson_mastter.Client.Frame.{take_all, take_full}
use gibson_mastter.Client.Reading.{idle, holding, piece, join, read_all, read_all-answer}
use gibson_mastter.Client.Writing.{sending, write_all, over, sum, write_all-done}

-- What gbProcessQuery answers to a request.
abbrev pub processed : External → List ℕ → Server → List ℕ → Answer
processed ext behind s body =
    process_query ext s (le_word (take 2 body)) (drop 2 body ++ behind) (size_sub (length body) 2)

length-frame :
    (code encoding : ℕ) (content : List ℕ)
    → length content < 2 ^ 32
    → length (frame code encoding content) ≡ 7 + length content
unfolding frame le_bytes
length-frame code encoding content h =
    let small : length content % 2 ^ 32 ≡ length content = omega (arith, h) in
    rw small (rw (take_full content) (omega arith))

-- The server that an outcome leaves satisfies the invariant; a crash leaves none.
abbrev pub Leaves : Outcome → Type 0
Leaves (alive s c) = Inv s
Leaves (gone s) = Inv s
Leaves crash = Unit

reply_to-Leaves :
    (ext : External) (watched : Bool) (c : Client) (a : Answer)
    → Inv a.0
    → Leaves (reply_to ext watched c a)
reply_to-Leaves ext watched c (s, failed) h = h
reply_to-Leaves ext watched c (s, reply code encoding content shutdown) h =
    go (enqueue_data watched c (code_number code) (encoding_number encoding) content shutdown)
  where
    go : (r : Bool × Client) → Leaves (if r.0 then alive s r.1 else gone s)
    go (true, c') = h
    go (false, c') = h

module _ (ext : External) (behind : List ℕ) (s : Server) (fd : ℤ) where
  -- The client whose request is being processed.
  abbrev pub asking : List ℕ → Client
  asking body = record (sending fd (some s.stats.now) body (length body) 0 false) {
    read = length body;
  }

  answer-processed :
      (watched : Bool) (body : List ℕ)
      → answer ext watched behind s (holding fd s.stats.now (length body) body)
        ≡ reply_to ext watched (asking body) (processed ext behind s body)
  unfolding answer
  answer-processed watched body = refl

  -- A request whose pieces come in behind its size leaves a server that satisfies the invariant if
  -- it got one that does, whether the client lives on or is destroyed. The size came in one piece; it
  -- is 2 at least, within maxrequestsize and less than 2^31; the last piece is not empty, and the keys
  -- in the request have no NUL byte.
  pub read_all-Inv :
      (watched : Bool) (seen : Option ℕ) (ps : List (List ℕ)) (last : List ℕ)
      → 0 < length last
      → 2 ≤ length (join ps ++ last)
      → length (join ps ++ last) ≤ s.limits.maxrequestsize
      → length (join ps ++ last) < 2 ^ 31
      → IsClean s.limits
          (drop 2 (join ps ++ last) ++ behind)
          (size_sub (length (join ps ++ last)) 2)
      → Inv s
      → Leaves (
          read_all ext watched behind s
            (alive s (idle fd seen))
            (map piece (le_bytes 4 (length (join ps ++ last)) ∷ ps ++ last ∷ [])))
  read_all-Inv watched seen ps last some_left low high k clean h =
      let body = join ps ++ last in
      let all =
        read_all-answer ext watched behind s fd seen ps last (length body) some_left refl low high
          k in
      subst Leaves (sym (all ∙ answer-processed watched body)) (
        reply_to-Leaves ext watched (asking body) (processed ext behind s body) (
          process_query-Inv ext s (le_word (take 2 body)) (drop 2 body ++ behind)
            (size_sub (length body) 2) clean h))

  -- The buffer that a reply leaves.
  abbrev pub reply_buffer : List ℕ → ℕ → ℕ → List ℕ → List ℕ
  reply_buffer body code encoding content = overwrite body 0 (frame code encoding content)

  -- The reply is the first bytes of that buffer.
  buffer-fits :
      (body : List ℕ) (code encoding : ℕ) (content : List ℕ)
      → 7 + length content < 2 ^ 32
      → 7 + length content ≤ length (reply_buffer body code encoding content)
  unfolding overwrite
  buffer-fits body code encoding content small =
      let f = frame code encoding content in
      omega (
        arith,
        length-frame code encoding content (omega (arith, small)),
        length-append f (drop (0 + length f) body),
      )

  buffer-frame :
      (body : List ℕ) (code encoding : ℕ) (content : List ℕ)
      → 7 + length content < 2 ^ 32
      → take (7 + length content - 0) (drop 0 (reply_buffer body code encoding content))
        ≡ frame code encoding content
  unfolding overwrite
  buffer-frame body code encoding content small =
      let f = frame code encoding content in
      let size = length-frame code encoding content (omega (arith, small)) in
      ap (λ n. take n (f ++ drop (0 + length f) body)) {x = 7 + length content - 0} {y = length f}
        (omega (arith, size))
      ∙ take_all f (drop (0 + length f) body)

  enqueue-sending :
      (body : List ℕ) (code encoding : ℕ) (content : List ℕ) (shutdown : Bool)
      → le_ℤ fd (pos 0) ≡ false
      → 7 + length content < 2 ^ 32
      → enqueue_data true (asking body) code encoding content shutdown ≡ (
        true,
        sending fd
            (some s.stats.now)
            (reply_buffer body code encoding content)
            (7 + length content)
            0
            shutdown,
      )
  unfolding enqueue_data
  enqueue-sending body code encoding content shutdown open_fd small =
      let size : (2 + 1 + 4 + length content % 2 ^ 32) % 2 ^ 32 ≡ 7 + length content =
        omega (arith, small) in
      rw open_fd (rw size refl)

  -- What a client gets that sends a request behind its size, in any pieces, and takes the reply in any
  -- pieces: the frame of what gbProcessQuery answers, whole and nothing more; and the connection is
  -- ready for the next request, or closed if the reply says so. The size comes in one piece; it is 2 at
  -- least, within maxrequestsize and less than 2^31; the reply is not an error, has a frame of less
  -- than 2^32 bytes, and its event can be registered.
  pub exchange :
      (seen : Option ℕ) (ps : List (List ℕ)) (last : List ℕ) (ns : List ℕ) (s' : Server) (c : Code)
      → (encoding : Encoding) (content : List ℕ) (shutdown : Bool) → le_ℤ fd (pos 0) ≡ false
      → 0 < length last
      → 2 ≤ length (join ps ++ last)
      → length (join ps ++ last) ≤ s.limits.maxrequestsize
      → length (join ps ++ last) < 2 ^ 31
      → processed ext behind s (join ps ++ last) ≡ (s', reply c encoding content shutdown)
      → 7 + length content < 2 ^ 32
      → 7 + length content ≤ sum ns
      → (client : Client) × (read_all ext true behind s
            (alive s (idle fd seen))
            (map piece (le_bytes 4 (length (join ps ++ last)) ∷ ps ++ last ∷ []))
          ≡ alive s' client)
        × (write_all s' client ns ≡ (
          if shutdown then none else some (idle fd (some s'.stats.now)),
          frame (code_number c) (encoding_number encoding) content,
        ))
  exchange seen ps last ns s' c encoding content shutdown open_fd some_left low high k answered
        small enough =
      let body = join ps ++ last in
      let code = code_number c in
      let enc = encoding_number encoding in
      let f = frame code enc content in
      let buffer = reply_buffer body code enc content in
      let size = 7 + length content in
      (
        sending fd (some s.stats.now) buffer size 0 shutdown,
        read_all-answer ext true behind s fd seen ps last (length body) some_left refl low high k
            ∙ answer-processed true body
            ∙ ap (reply_to ext true (asking body)) answered
            ∙ ap (λ (r : Bool × Client). if r.0 then alive s' r.1 else gone s')
                (enqueue-sending body code enc content shutdown open_fd small),
        write_all-done s' fd buffer shutdown (some s.stats.now) size 0 ns
              (buffer-fits body code enc content small) (omega arith) small (omega (arith, enough))
            ∙ ap (λ out. (over s' fd buffer shutdown, out))
                (buffer-frame body code enc content small),
      )
