-- ===== src/Client.antt =====
-- src/net.h, gbClient, and the protocol of a connection: gbReadQueryHandler and gbWriteReplyHandler of
-- src/server.c, gbClientCreate, gbClientReset and gbClientEnqueueData of src/net.c.
-- The system calls are events: what read or write answered. `buffer` is what has been written to the
-- client's buffer so far, none for NULL; the memory behind a request is a parameter, as in Request.
-- A pointer of a client is aligned as on a machine of 64 bits.
pub mod Frame
pub mod Reading
pub mod Writing
pub mod Exchange
pub mod Dropped
use gibson_mastter.Base.{
  ℕ, zero, suc, ◌+◌, ◌*◌, ◌-◌, ◌%◌, ◌^◌, Option, none, some, List, [], ◌∷◌, ◌++◌, Bool, true, false,
  ◌&&◌, ◌||◌, ltb, ◌==◌, if◌then◌else◌, take, drop, length,
}
use gibson_mastter.Base.Int.{ℤ, pos, pos_part, lt_ℤ, le_ℤ, of_word}
use gibson_mastter.Server.{External, Limits, Server, uint_mod}
use gibson_mastter.Request.{size_sub}
use gibson_mastter.Reply.{Reply, reply, failed, code_number, encoding_number, le_bytes, le_word}
use gibson_mastter.Query.Process.{process_query}

pub record Client : Type 0 where
  pub fd : ℤ
  pub buffer : Option (List ℕ)
  pub buffer_size : ℕ
  pub read : ℕ
  pub wrote : ℕ
  pub status : ℕ
  -- none before the first event: gbClientCreate does not set it
  pub seen : Option ℕ
  pub shutdown : Bool

-- STATUS_WAITING_SIZE, STATUS_WAITING_BUFFER, STATUS_SENDING_REPLY
abbrev pub waiting_size : ℕ
waiting_size = 0

abbrev pub waiting_buffer : ℕ
waiting_buffer = 1

abbrev pub sending_reply : ℕ
sending_reply = 2

-- gbClientCreate
abbrev pub client_create : ℤ → Client
client_create fd = record {
  fd = fd;
  buffer = none;
  buffer_size = 0;
  read = 0;
  wrote = 0;
  status = waiting_size;
  seen = none;
  shutdown = false;
}

-- gbClientReset
abbrev pub client_reset : Client → Client
client_reset c = record c {
  buffer = none;
  buffer_size = 0;
  status = waiting_size;
  read = 0;
  wrote = 0;
  shutdown = false;
}

-- Bytes written into memory from an offset on.
unfoldable pub overwrite : List ℕ → ℕ → List ℕ → List ℕ
overwrite mem at bs = take at mem ++ bs ++ drop (at + length bs) mem

abbrev pub written : Option (List ℕ) → List ℕ
written none = []
written (some bs) = bs

-- The bytes that gbClientEnqueueData copies into the buffer.
unfoldable pub frame : ℕ → ℕ → List ℕ → List ℕ
frame code encoding content =
    let size = length content % uint_mod in
    le_bytes 2 code ++ (encoding ∷ []) ++ le_bytes 4 size ++ take size content

-- gbClientEnqueueData: its result, GB_OK or not, and the client. `watched` is whether
-- gbCreateFileEvent could register the event.
unfoldable pub enqueue_data : Bool → Client → ℕ → ℕ → List ℕ → Bool → Bool × Client
enqueue_data watched c code encoding content shutdown = if le_ℤ c.fd (pos 0) then (false, c) else (
  watched,
  record c {
    buffer = some (overwrite (written c.buffer) 0 (frame code encoding content));
    buffer_size = (2 + 1 + 4 + length content % uint_mod) % uint_mod;
    read = 0;
    wrote = 0;
    shutdown = shutdown;
  },
)

-- What the reading handler comes to: a client that lives on, a client that was destroyed, or a
-- request that was read through NULL.
pub data Outcome : Type 0 where
  alive : Server → Client → Outcome
  gone : Server → Outcome
  crash : Outcome

-- What read answers: bytes (none of them: the end of the stream), EAGAIN, or another error.
pub data Event : Type 0 where
  arrived : List ℕ → Event
  again : Event
  broken : Event

-- Where the handler will read to, and how much.
pub data Plan : Type 0 where
  to_size : ℕ → Plan
  to_buffer : ℕ → Plan
  to_null no_read refused : Plan

-- (int)(a - b) of 32 bits
abbrev pub int_sub : ℕ → ℕ → ℤ
int_sub a b = of_word uint_mod ((a + uint_mod - b) % uint_mod)

-- The block of STATUS_WAITING_BUFFER.
unfoldable pub plan_buffer : Client → Client × Plan
plan_buffer c =
    let toread = int_sub c.buffer_size c.read in
    if lt_ℤ (pos 0) toread
    then (c, to_buffer (pos_part toread))
    else (record c { read = 0; status = sending_reply }, no_read)

-- What comes before the call of read. The new buffer of zmalloc has no bytes written yet.
unfoldable pub plan : Limits → Client → Client × Plan
plan l c =
    let toread = int_sub 4 c.read in
    if c.status == waiting_size
    then if lt_ℤ (pos 0) toread
      then (c, to_size (pos_part toread))
      else if ltb l.maxrequestsize c.buffer_size || ltb c.buffer_size 2
      then (record c { read = 0; status = waiting_buffer }, refused)
      else plan_buffer (record c { read = 0; status = waiting_buffer; buffer = some [] })
    else if c.status == waiting_buffer
    then plan_buffer c
    else if c.status == sending_reply
    then (c, no_read)
    else (c, to_null)

-- The fields of a client from `buffer_size` on, as bytes: `buffer_size`, `read`, `wrote`, `status`
-- and its padding.
abbrev pub fields : Client → List ℕ
fields c =
    le_bytes 4 c.buffer_size ++ le_bytes 4 c.read ++ le_bytes 4 c.wrote ++ c.status ∷ 0 ∷ 0 ∷ 0 ∷ []

abbrev pub with_fields : Client → List ℕ → Client
with_fields c fs = record c {
  buffer_size = le_word (take 4 fs);
  read = le_word (take 4 (drop 4 fs));
  wrote = le_word (take 4 (drop 8 fs));
  status = le_word (take 1 (drop 12 fs));
}

-- A read to `(byte_t *)( &client->buffer_size + client->read )`: the offset counts words.
unfoldable pub read_size : Client → List ℕ → Client
read_size c bs = with_fields c (overwrite (fields c) (4 * c.read) bs)

module _ (ext : External) where
  -- gbProcessQuery and what follows it. `behind` is the memory behind the request.
  abbrev pub reply_to : Bool → Client → Server × Reply → Outcome
  reply_to watched c (s, failed) = gone s
  reply_to watched c (s, reply code encoding content shutdown) =
      let (ok, c') =
        enqueue_data watched c (code_number code) (encoding_number encoding) content shutdown in
      if ok then alive s c' else gone s

  unfoldable pub answer : Bool → List ℕ → Server → Client → Outcome
  answer watched behind s c = elim c.buffer [
    | none ↦ crash
    | some bs ↦
        reply_to watched (record c { status = sending_reply })
          (process_query ext s (le_word (take 2 bs)) (drop 2 bs ++ behind)
            (size_sub c.buffer_size 2))
  ]

  -- What comes after the call of read, which gave `nread` bytes.
  unfoldable pub after_read : Bool → List ℕ → Server → Client → ℕ → Outcome
  after_read watched behind s c nread =
      let c' = record c { read = (c.read + nread) % uint_mod; seen = some s.stats.now } in
      if c'.status == waiting_buffer && c'.read == c'.buffer_size
      then answer watched behind s c'
      else alive s c'

  -- The call of read to a place, at most `toread` bytes.
  unfoldable pub do_read : Bool → List ℕ → Server → Client → ℕ → (List ℕ → Client) → Event → Outcome
  do_read watched behind s c toread put broken = gone s
  do_read watched behind s c toread put again = after_read watched behind s c 0
  do_read watched behind s c toread put (arrived bs) =
      let got = take toread bs in
      if length got == 0 then gone s else after_read watched behind s (put got) (length got)

  -- The kernel refuses to write through NULL, which is an error of read.
  unfoldable pub read_buffer : Bool → List ℕ → Server → Client → ℕ → Event → Outcome
  read_buffer watched behind s c toread e = elim c.buffer [
    | none ↦ elim e [
      | again ↦ after_read watched behind s c 0
      | arrived bs ↦ gone s
      | broken ↦ gone s
    ]
    | some old ↦
        do_read watched behind s c toread
          (λ bs. record c { buffer = some (overwrite old c.read bs) }) e
  ]

  abbrev pub carry_out : Bool → List ℕ → Server → Client × Plan → Event → Outcome
  carry_out watched behind s (c, to_size n) e = do_read watched behind s c n (read_size c) e
  carry_out watched behind s (c, to_buffer n) e = read_buffer watched behind s c n e
  carry_out watched behind s (c, to_null) e = do_read watched behind s c 0 (λ bs. c) e
  carry_out watched behind s (c, no_read) e = after_read watched behind s c 0
  carry_out watched behind s (c, refused) e = gone s

  -- gbReadQueryHandler
  unfoldable pub read_query : Bool → List ℕ → Server → Client → Event → Outcome
  read_query watched behind s c e = carry_out watched behind s (plan s.limits c) e

-- What write answers: how many bytes it took, EAGAIN, or another error.
pub data Sent : Type 0 where
  sent : ℕ → Sent
  full : Sent
  lost : Sent

-- What is left of the client when write has taken some bytes.
abbrev pub sent_so_far : Client → Option Client
sent_so_far c =
    if c.wrote == c.buffer_size
    then (if c.shutdown then none else some (client_reset c))
    else some c

-- gbWriteReplyHandler: the client, none if it is destroyed, and the bytes that write took. A client
-- that is not sending a reply is destroyed.
unfoldable pub write_reply : Server → Client → Sent → Option Client × List ℕ
write_reply s c full = (if c.status == sending_reply then some c else none, [])
write_reply s c lost = (none, [])
write_reply s c (sent n) =
    let towrite = (c.buffer_size + uint_mod - c.wrote) % uint_mod in
    let out = take n (take towrite (drop c.wrote (written c.buffer))) in
    let c' = record c { wrote = (c.wrote + length out) % uint_mod; seen = some s.stats.now } in
    if c.status == sending_reply
    then if length out == 0 then (none, []) else (sent_so_far c', out)
    else (none, [])
