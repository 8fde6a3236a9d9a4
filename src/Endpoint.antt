-- ===== src/Endpoint.antt =====
-- Opening sockets: tcp_easy_listen and tcp_easy_connect of the labs, and tcp_listen and tcp_connect of
-- Lab2017/lib. What the kernel answers to the calls is given; each function returns its result with
-- the calls that it made, so that what stays open can be read off.
pub mod Listen
pub mod Candidates
mod Tests
use cosc.Prelude.{
  ℕ, zero, suc, ◌+◌, ◌*◌, ◌/◌, ◌%◌, Bool, true, false, Option, none, some, List, [], ◌∷◌, ◌++◌,
  ◌==◌, if◌then◌else◌,
}
use cosc.Prelude.Int.{ℤ, pos, negsuc, neg, is_negative, is_zero}

-- `bound` and `connected` have the socket, the IP address and the port in network order, `bound_to` and
-- `connected_to` the socket and a whole address of getaddrinfo(3).
pub data Call : Type 0 where
  opened : ℕ → Call
  reuse : ℕ → Call
  bound : ℕ → ℕ → ℕ → Call
  listening : ℕ → ℕ → Call
  connected : ℕ → ℕ → ℕ → Call
  bound_to : ℕ → ℕ → Call
  connected_to : ℕ → ℕ → Call
  closed : ℕ → Call

-- `htons`: the two bytes of a number of 16 bits, swapped
abbrev pub htons : ℕ → ℕ
htons n = (n % 256) * 256 + n / 256 % 256

-- What the kernel answers for one address: socket(2), the address of inet_pton(3), setsockopt(2),
-- bind(2), listen(2), connect(2). `port` is what strtoul(3) gives for the service.
pub record Host : Type 0 where
  pub socket : Option ℕ
  pub address : Option ℕ
  pub port : ℕ
  pub reuses : Bool
  pub binds : Bool
  pub listens : Bool
  pub connects : Bool

-- `tcp_easy_listen` behind socket(2)
unfoldable pub listen_on : Host → ℕ → ℕ → Option ℕ × List Call
listen_on h queue fd = elim h.address [
  | none ↦ (none, opened fd ∷ [])
  | some a ↦
      let port = htons h.port in
      if port == 0
      then (none, opened fd ∷ [])
      else if h.reuses
      then (if h.binds
          then (if h.listens
              then (some fd, opened fd ∷ reuse fd ∷ bound fd a port ∷ listening fd queue ∷ [])
              else (none, opened fd ∷ reuse fd ∷ bound fd a port ∷ listening fd queue ∷ []))
          else (none, opened fd ∷ reuse fd ∷ bound fd a port ∷ []))
      else (none, opened fd ∷ reuse fd ∷ [])
]

unfoldable pub easy_listen : Host → ℕ → Option ℕ × List Call
easy_listen h queue = elim h.socket [ none ↦ (none, []) | some fd ↦ listen_on h queue fd ]

-- `tcp_easy_connect` of Lab4/tcp_sender.c
unfoldable pub connect_on : Host → ℕ → Option ℕ × List Call
connect_on h fd = elim h.address [
  | none ↦ (none, opened fd ∷ [])
  | some a ↦
      let port = htons h.port in
      if port == 0
      then (none, opened fd ∷ [])
      else if h.connects
      then (some fd, opened fd ∷ connected fd a port ∷ [])
      else (none, opened fd ∷ connected fd a port ∷ [])
]

unfoldable pub easy_connect : Host → Option ℕ × List Call
easy_connect h = elim h.socket [ none ↦ (none, []) | some fd ↦ connect_on h fd ]

-- How `tcp_easy_listen` of Lab2/tcp_fork_server.c ends: it returns a descriptor, or the process ends
-- by err_quit.
pub data Setup : Type 0 where
  ready : ℤ → Setup
  quits : Setup

-- a failed socket(2) is only reported, so the calls behind it are made with -1; the results of
-- bind(2) and listen(2) are dropped. `ntop` says whether inet_ntop(3) succeeds.
unfoldable pub fork_listen : (ℤ → Bool) → Bool → Host → Setup
fork_listen reuses ntop h =
    let fd : ℤ = elim h.socket [ none ↦ negsuc 0 | some n ↦ pos n ] in
    elim h.address [
      | none ↦ quits
      | some a ↦ if reuses fd then (if ntop then ready fd else quits) else quits
    ]

-- `tcp_easy_connect` of Lab2/tcp_client.c returns the descriptor of socket(2), whatever the other calls
-- return.
unfoldable pub client_connect : Host → ℤ
client_connect h = elim h.socket [ none ↦ negsuc 0 | some n ↦ pos n ]

-- One entry of the list of getaddrinfo(3), with what the kernel answers for it.
pub record Candidate : Type 0 where
  pub socket : Option ℕ
  pub address : ℕ
  pub binds : Bool
  pub listens : Bool
  pub connects : Bool

-- the loop of `tcp_easy_listen` in Lab4/tcp_easy_ipv46_server.c; the result of
-- `enable_reuse_address` is dropped
unfoldable pub listen46_from : ℕ → List Candidate → Option ℕ × List Call
listen46_from queue [] = (none, [])
listen46_from queue (c ∷ cs) =
    let (r, calls) = listen46_from queue cs in
    elim c.socket [
      | none ↦ (r, calls)
      | some fd ↦
          if c.binds
          then (if c.listens
              then (some fd, opened fd ∷ reuse fd ∷ bound_to fd c.address ∷ listening fd queue ∷ [])
              else (r, opened fd ∷ reuse fd ∷ bound_to fd c.address ∷ listening fd queue ∷ calls))
          else (r, opened fd ∷ reuse fd ∷ bound_to fd c.address ∷ calls)
    ]

-- the loop of `tcp_easy_connect` in Lab4/tcp_easy_ipv46_client.c
unfoldable pub connect46_from : List Candidate → Option ℕ × List Call
connect46_from [] = (none, [])
connect46_from (c ∷ cs) =
    let (r, calls) = connect46_from cs in
    elim c.socket [
      | none ↦ (r, calls)
      | some fd ↦
          if c.connects
          then (some fd, opened fd ∷ connected_to fd c.address ∷ [])
          else (r, opened fd ∷ connected_to fd c.address ∷ calls)
    ]

abbrev pub to_int : Option ℕ → ℤ
to_int none = negsuc 0
to_int (some fd) = pos fd

-- The two functions, where getaddrinfo(3) returns `code`, and `cs` if that is 0.
unfoldable pub listen46 : ℤ → ℕ → List Candidate → ℤ
listen46 code queue cs = if is_zero code then to_int (listen46_from queue cs).0 else neg code

unfoldable pub connect46 : ℤ → List Candidate → ℤ
connect46 code cs = if is_zero code then to_int (connect46_from cs).0 else neg code

-- `main` of both programs goes on with the descriptor unless it is negative.
unfoldable pub proceeds : ℤ → Option ℤ
proceeds fd = if is_negative fd then none else some fd

-- the loop of `tcp_connect` in Lab2017/lib/tcp_connect.c, which closes a socket that does not connect
unfoldable pub tcp_connect_from : List Candidate → Option ℕ × List Call
tcp_connect_from [] = (none, [])
tcp_connect_from (c ∷ cs) =
    let (r, calls) = tcp_connect_from cs in
    elim c.socket [
      | none ↦ (r, calls)
      | some fd ↦
          if c.connects
          then (some fd, opened fd ∷ connected_to fd c.address ∷ [])
          else (r, opened fd ∷ connected_to fd c.address ∷ closed fd ∷ calls)
    ]

-- `tcp_listen` in Lab2017/lib/tcp_listen.c: Listen ends the process on an error
unfoldable pub tcp_listen_from : ℕ → List Candidate → Option ℕ × List Call
tcp_listen_from queue [] = (none, [])
tcp_listen_from queue (c ∷ cs) =
    let (r, calls) = tcp_listen_from queue cs in
    elim c.socket [
      | none ↦ (r, calls)
      | some fd ↦
          if c.binds
          then (if c.listens
              then (some fd, opened fd ∷ reuse fd ∷ bound_to fd c.address ∷ listening fd queue ∷ [])
              else (none, opened fd ∷ reuse fd ∷ bound_to fd c.address ∷ listening fd queue ∷ []))
          else (r, opened fd ∷ reuse fd ∷ bound_to fd c.address ∷ closed fd ∷ calls)
    ]
