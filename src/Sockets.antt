-- ===== src/Sockets.antt =====
-- src/net.c: the functions that open, set up and use sockets. What each system call answers is a
-- parameter; the state is what the process has: its open descriptors, the calls that succeeded on
-- them, the last one first, and the text in the error buffer. The model follows Linux.
pub mod Opened
pub mod Streams
use gibson_mastter.Base.{
  ℕ, zero, suc, ◌+◌, ◌-◌, ◌/◌, ◌%◌, ◌^◌, Option, none, some, List, [], ◌∷◌, ◌++◌, Bool, true, false,
  ◌==◌, if◌then◌else◌, length, take, drop,
}

-- AF_INET and AF_LOCAL
pub data Domain : Type 0 where
  inet : Domain
  local : Domain

-- struct sockaddr_in, the port and the IPv4 address; struct sockaddr_un, the path.
pub data Address : Type 0 where
  ip : ℕ → ℕ → Address
  path : List ℕ → Address

pub data Call : Type 0 where
  create : Domain → Call
  reuse_addr : Call
  non_block : Call
  keep_alive : Call
  keep_idle : ℕ → Call
  keep_intvl : ℕ → Call
  keep_cnt : ℕ → Call
  no_delay : ℕ → Call
  send_buffer : ℕ → Call
  connect : Address → Call
  bind : Address → Call
  listen : ℕ → Call
  chmod : List ℕ → ℕ → Call

-- The texts of gbNetSetError, without that of errno.
pub data NetError : Type 0 where
  creating_socket : NetError
  cant_resolve : List ℕ → NetError
  invalid_bind_address : NetError
  fcntl_getfl : NetError
  accept_failed : NetError
  refused : Call → NetError

pub data Connecting : Type 0 where
  connected : Connecting
  in_progress : Connecting
  failed : Connecting

-- What the system answers: a descriptor or none for -1, an address or none, and for all else if the
-- call succeeded.
pub record Answers : Type 0 where
  pub socket : Option ℕ
  pub inet_aton : List ℕ → Option ℕ
  pub gethostbyname : List ℕ → Option ℕ
  pub getfl : Bool
  pub connecting : Connecting
  pub accepts : Call → Bool

pub record Sockets : Type 0 where
  pub opened : List ℕ
  pub calls : List (ℕ × Call)
  pub error : Option NetError

-- A function that answers GBNET_ERR is none.
abbrev pub Net : Type 0 → Type 0
Net A = Sockets → Option A × Sockets

abbrev pub bound : {A B : Type 0} → (A → Net B) → Option A × Sockets → Option B × Sockets
bound f (none, k) = (none, k)
bound f (some a, k) = f a k

infixl 5 ◌>>=◌ ◌>>◌
abbrev pub ◌>>=◌ : {A B : Type 0} → Net A → (A → Net B) → Net B
◌>>=◌ m f k = bound f (m k)

abbrev pub ◌>>◌ : {B : Type 0} → Net (Unit {0}) → Net B → Net B
m >> n = m >>= λ _. n

abbrev pub return : {A : Type 0} → A → Net A
return a k = (some a, k)

abbrev pub remove : ℕ → List ℕ → List ℕ
remove s [] = []
remove s (t ∷ ts) = let rest = remove s ts in if t == s then ts else t ∷ rest

abbrev pub close : ℕ → Sockets → Sockets
close s k = record k { opened = remove s k.opened }

-- A descriptor that is closed where a step fails.
abbrev pub closed_if_none : {A : Type 0} → ℕ → Option A × Sockets → Option A × Sockets
closed_if_none s (none, k) = (none, close s k)
closed_if_none s (some a, k) = (some a, k)

abbrev pub or_close : {A : Type 0} → ℕ → Net A → Net A
or_close s m k = closed_if_none s (m k)

-- `strncpy( sa.sun_path, path, sizeof( sa.sun_path ) - 1 )`
abbrev pub sun_path : List ℕ → List ℕ
sun_path p = take 107 p

-- `err` says if the caller gives an error buffer.
module _ (os : Answers) (err : Bool) where
  -- gbNetSetError, and `return GBNET_ERR`
  abbrev pub fail : {A : Type 0} → NetError → Net A
  fail e k = (none, if err then record k { error = some e } else k)

  -- A call on a descriptor.
  abbrev pub call : ℕ → Call → Net (Unit {0})
  call s c k =
      if os.accepts c then (some tt, record k { calls = (s, c) ∷ k.calls }) else fail (refused c) k

  -- gbNetNonBlock
  unfoldable pub net_non_block : ℕ → Net (Unit {0})
  net_non_block fd = if os.getfl then call fd non_block else fail fcntl_getfl

  -- gbNetKeepAlive
  unfoldable pub net_keep_alive : ℕ → ℕ → Net (Unit {0})
  net_keep_alive fd interval = do
    call fd keep_alive
    call fd (keep_idle interval)
    call fd (keep_intvl (if interval / 3 == 0 then 1 else interval / 3))
    call fd (keep_cnt 3)

  -- gbNetSetTcpNoDelay, gbNetEnableTcpNoDelay, gbNetDisableTcpNoDelay
  abbrev pub net_set_tcp_no_delay : ℕ → ℕ → Net (Unit {0})
  net_set_tcp_no_delay fd val = call fd (no_delay val)

  -- gbNetSetSendBuffer
  abbrev pub net_set_send_buffer : ℕ → ℕ → Net (Unit {0})
  net_set_send_buffer fd buffsize = call fd (send_buffer buffsize)

  -- gbNetTcpKeepAlive
  abbrev pub net_tcp_keep_alive : ℕ → Net (Unit {0})
  net_tcp_keep_alive fd = call fd keep_alive

  -- gbNetResolve, without writing the address as text.
  unfoldable pub net_resolve : List ℕ → Net ℕ
  net_resolve host = elim (os.inet_aton host) [
    | some a ↦ return a
    | none ↦ elim (os.gethostbyname host) [ some a ↦ return a | none ↦ fail (cant_resolve host) ]
  ]

  -- `socket`
  abbrev pub new_socket : Domain → Net ℕ
  new_socket domain k = elim os.socket [
    | none ↦ fail creating_socket k
    | some s ↦ (some s, record k { opened = s ∷ k.opened; calls = (s, create domain) ∷ k.calls })
  ]

  -- gbNetCreateSocket
  unfoldable pub net_create_socket : Domain → Net ℕ
  net_create_socket domain = do s ← new_socket domain; or_close s (call s reuse_addr); return s

  -- `connect`: an error is none where the socket does not block and the connection is on its way.
  abbrev pub start_connection : ℕ → Address → Bool → Net (Unit {0})
  start_connection s sa nonblock = elim os.connecting [
    | connected ↦ λ k. (some tt, record k { calls = (s, connect sa) ∷ k.calls })
    | in_progress ↦
        if nonblock
        then (λ k. (some tt, record k { calls = (s, connect sa) ∷ k.calls }))
        else fail (refused (connect sa))
    | failed ↦ fail (refused (connect sa))
  ]

  abbrev pub non_block_if : Bool → ℕ → Net (Unit {0})
  non_block_if b s = if b then net_non_block s else return tt

  -- gbNetTcpGenericConnect
  unfoldable pub net_tcp_generic_connect : List ℕ → ℕ → Bool → Net ℕ
  unfolding net_create_socket net_resolve net_non_block
  net_tcp_generic_connect addr port nonblock = do
    s ← net_create_socket inet
    a ← or_close s (net_resolve addr)
    or_close s (non_block_if nonblock s)
    or_close s (start_connection s (ip (port % 2 ^ 16) a) nonblock)
    return s

  -- gbNetUnixGenericConnect
  unfoldable pub net_unix_generic_connect : List ℕ → Bool → Net ℕ
  unfolding net_create_socket net_non_block
  net_unix_generic_connect p nonblock = do
    s ← net_create_socket local
    or_close s (non_block_if nonblock s)
    or_close s (start_connection s (path (sun_path p)) nonblock)
    return s

  -- gbNetListen
  unfoldable pub net_listen : ℕ → Address → Net (Unit {0})
  net_listen s sa = do or_close s (call s (bind sa)); or_close s (call s (listen 511))

  -- The address that gbNetTcpServer binds to.
  abbrev pub bind_address : List ℕ → Net ℕ
  bind_address bindaddr = elim (os.inet_aton bindaddr) [
    | none ↦ fail invalid_bind_address
    | some a ↦ return a
  ]

  -- gbNetTcpServer
  unfoldable pub net_tcp_server : ℕ → List ℕ → Net ℕ
  unfolding net_create_socket net_listen
  net_tcp_server port bindaddr = do
    s ← net_create_socket inet
    a ← or_close s (bind_address bindaddr)
    net_listen s (ip (port % 2 ^ 16) a)
    return s

  abbrev pub chmod_if : List ℕ → ℕ → ℕ → Net (Unit {0})
  chmod_if p perm s = if perm == 0 then return tt else call s (chmod p perm)

  -- gbNetUnixServer
  unfoldable pub net_unix_server : List ℕ → ℕ → Net ℕ
  unfolding net_create_socket net_listen
  net_unix_server p perm = do
    s ← net_create_socket local
    net_listen s (path (sun_path p))
    or_close s (chmod_if (sun_path p) perm s)
    return s

-- What accept answers: a descriptor, EINTR, or another error.
pub data Accepted : Type 0 where
  descriptor : ℕ → Accepted
  interrupted : Accepted
  broken : Accepted

-- gbNetGenericAccept, where accept answers one after the other of a list; none where it still waits.
unfoldable pub net_generic_accept : Bool → List Accepted → Sockets → Option (Option ℕ × Sockets)
net_generic_accept err [] k = none
net_generic_accept err (descriptor fd ∷ rest) k =
    some (some fd, record k { opened = fd ∷ k.opened })
net_generic_accept err (interrupted ∷ rest) k = net_generic_accept err rest k
net_generic_accept err (broken ∷ rest) k =
    some (none, if err then record k { error = some accept_failed } else k)

-- What gbAcceptHandler does to a descriptor that it keeps, without an error buffer and whatever the
-- answers.
unfoldable pub prepare : Answers → ℕ → ℕ → Sockets → Sockets
unfolding net_non_block net_keep_alive
prepare os fd maxidletime k =
    let k1 = (net_non_block os false fd k).1 in
    let k2 = (net_set_tcp_no_delay os false fd 1 k1).1 in
    (net_keep_alive os false fd maxidletime k2).1

-- What one call of read or write answers: bytes, how many, or -1.
pub data Piece : Type 0 where
  bytes : List ℕ → Piece
  error : Piece

pub data Room : Type 0 where
  moved : ℕ → Room
  error : Room

-- gbNetRead: the answer, none for -1, and the bytes in the buffer; none where it still waits. The
-- call asks for the `left` bytes that are missing, and gets no more.
unfoldable pub net_read : List Piece → ℕ → List ℕ → Option (Option ℕ × List ℕ)
net_read answers zero got = some (some (length got), got)
net_read [] (suc left) got = none
net_read (error ∷ rest) (suc left) got = some (none, got)
net_read (bytes [] ∷ rest) (suc left) got = some (some (length got), got)
net_read (bytes (b ∷ bs) ∷ rest) (suc left) got =
    let piece = take (suc left) (b ∷ bs) in net_read rest (suc left - length piece) (got ++ piece)

-- gbNetWrite of a buffer: the answer and the bytes that were written.
unfoldable pub net_write : List Room → List ℕ → List ℕ → Option (Option ℕ × List ℕ)
net_write answers sent [] = some (some (length sent), sent)
net_write [] sent (b ∷ bs) = none
net_write (error ∷ rest) sent (b ∷ bs) = some (none, sent)
net_write (moved zero ∷ rest) sent (b ∷ bs) = some (some (length sent), sent)
net_write (moved (suc n) ∷ rest) sent (b ∷ bs) =
    net_write rest (sent ++ take (suc n) (b ∷ bs)) (drop (suc n) (b ∷ bs))
