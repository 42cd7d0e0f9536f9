-- ===== src/Sockets/Opened.antt =====
-- src/net.c: what the functions that open a socket leave behind.
use gibson_mastter.Base.{
  ℕ, ◌%◌, ◌^◌, ◌≡◌, Option, none, some, List, [], ◌∷◌, Bool, true, false, arith, ◌==◌,
  if◌then◌else◌, is_some,
}
use gibson_mastter.Sockets.{
  Domain, Call, Address, Answers, Sockets, inet, local, ip, path, create, reuse_addr, non_block,
  connect, bind, listen, chmod, sun_path, net_tcp_generic_connect, net_unix_generic_connect,
  net_tcp_server, net_unix_server,
}

abbrev pub each : ℕ → List Call → List (ℕ × Call) → List (ℕ × Call)
each s [] rest = rest
each s (c ∷ cs) rest = (s, c) ∷ each s cs rest

-- No descriptor is left open where there is none to answer, and then there is an error text, if
-- there is a buffer. A descriptor that is answered is the one that is new, and `made` are the calls on
-- it, the last first.
abbrev pub Opens : Bool → List Call → Sockets → Option ℕ × Sockets → Type 0
Opens err made k (none, k') = (k'.opened ≡ k.opened) × (err ≡ true → is_some k'.error ≡ true)
Opens err made k (some s, k') = (k'.opened ≡ s ∷ k.opened) × (k'.calls ≡ each s made k.calls)

-- The calls on a socket that is connected, and on a server's.
abbrev pub connected_calls : Domain → Bool → Address → List Call
connected_calls domain true sa = connect sa ∷ non_block ∷ reuse_addr ∷ create domain ∷ []
connected_calls domain false sa = connect sa ∷ reuse_addr ∷ create domain ∷ []

abbrev pub listening : Domain → Address → List Call
listening domain sa = listen 511 ∷ bind sa ∷ reuse_addr ∷ create domain ∷ []

-- The address that a host resolves to; 0 stands for none.
abbrev pub resolved : Answers → List ℕ → ℕ
resolved os host = elim (os.inet_aton host) [
  | some a ↦ a
  | none ↦ elim (os.gethostbyname host) [ some a ↦ a | none ↦ 0 ]
]

abbrev pub bound_address : Option ℕ → ℕ
bound_address none = 0
bound_address (some a) = a

module _ (os : Answers) (err : Bool) (k : Sockets) where
  tcp_server-Opens :
      (port : ℕ) (bindaddr : List ℕ)
      → Opens err
          (listening inet (ip (port % 2 ^ 16) (bound_address (os.inet_aton bindaddr))))
          k
          (net_tcp_server os err port bindaddr k)
  unfolding net_tcp_server
  tcp_server-Opens port bindaddr = ground arith

  unix_server-Opens :
      (p : List ℕ) (perm : ℕ)
      → Opens err
          (if perm == 0
            then listening local (path (sun_path p))
            else chmod (sun_path p) perm ∷ listening local (path (sun_path p)))
          k
          (net_unix_server os err p perm k)
  unfolding net_unix_server
  unix_server-Opens p perm = ground arith

  tcp_connect-Opens :
      (addr : List ℕ) (port : ℕ) (nonblock : Bool)
      → Opens err
          (connected_calls inet nonblock (ip (port % 2 ^ 16) (resolved os addr)))
          k
          (net_tcp_generic_connect os err addr port nonblock k)
  unfolding net_tcp_generic_connect
  tcp_connect-Opens addr port nonblock = ground arith

  unix_connect-Opens :
      (p : List ℕ) (nonblock : Bool)
      → Opens err
          (connected_calls local nonblock (path (sun_path p)))
          k
          (net_unix_generic_connect os err p nonblock k)
  unfolding net_unix_generic_connect
  unix_connect-Opens p nonblock = ground arith

-- A call of one of the functions that open a socket.
pub data Opening : Type 0 where
  tcp_server : ℕ → List ℕ → Opening
  unix_server : List ℕ → ℕ → Opening
  tcp_connect : List ℕ → ℕ → Bool → Opening
  unix_connect : List ℕ → Bool → Opening

abbrev pub opening : Answers → Bool → Opening → Sockets → Option ℕ × Sockets
opening os err (tcp_server port bindaddr) = net_tcp_server os err port bindaddr
opening os err (unix_server p perm) = net_unix_server os err p perm
opening os err (tcp_connect addr port nonblock) = net_tcp_generic_connect os err addr port nonblock
opening os err (unix_connect p nonblock) = net_unix_generic_connect os err p nonblock

-- What the socket is for: the calls on it, the last first.
abbrev pub made_by : Answers → Opening → List Call
made_by os (tcp_server port bindaddr) =
    listening inet (ip (port % 2 ^ 16) (bound_address (os.inet_aton bindaddr)))
made_by os (unix_server p perm) =
    if perm == 0
    then listening local (path (sun_path p))
    else chmod (sun_path p) perm ∷ listening local (path (sun_path p))
made_by os (tcp_connect addr port nonblock) =
    connected_calls inet nonblock (ip (port % 2 ^ 16) (resolved os addr))
made_by os (unix_connect p nonblock) = connected_calls local nonblock (path (sun_path p))

-- Whatever the system answers, the functions that open a server's or a client's socket leave no
-- descriptor open where they fail, and set an error if they are given a buffer; where they succeed,
-- the descriptors that are open are those from before and the one answered, and the calls on it are
-- those that its purpose wants, in their order: made, reused, not blocking if asked for, and connected,
-- or bound and listening, with its mode changed if asked for.
pub opening-Opens :
    (os : Answers) (err : Bool) (o : Opening) (k : Sockets)
    → Opens err (made_by os o) k (opening os err o k)
opening-Opens os err (tcp_server port bindaddr) k = tcp_server-Opens os err k port bindaddr
opening-Opens os err (unix_server p perm) k = unix_server-Opens os err k p perm
opening-Opens os err (tcp_connect addr port nonblock) k =
    tcp_connect-Opens os err k addr port nonblock
opening-Opens os err (unix_connect p nonblock) k = unix_connect-Opens os err k p nonblock
