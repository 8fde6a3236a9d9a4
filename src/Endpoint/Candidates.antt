-- ===== src/Endpoint/Candidates.antt =====
-- The loops over the addresses of getaddrinfo(3) in Lab4/tcp_easy_ipv46_server.c,
-- Lab4/tcp_easy_ipv46_client.c and Lab2017/lib: which address they take and what they leave open.
use cosc.Prelude.{ℕ, ◌≡◌, refl, Bool, Option, none, some, List, [], ◌∷◌, ◌&&◌, if◌then◌else◌, arith}
use cosc.Endpoint.{Candidate, tcp_connect_from}
use cosc.Endpoint.Listen.{still_open}

-- The socket of the first candidate that passes a test, and the sockets up to it.
abbrev pub first_good : (Candidate → Bool) → List Candidate → Option ℕ
first_good good [] = none
first_good good (c ∷ cs) =
    let rest = first_good good cs in
    elim c.socket [ none ↦ rest | some fd ↦ if good c then some fd else rest ]

abbrev pub tried : (Candidate → Bool) → List Candidate → List ℕ
tried good [] = []
tried good (c ∷ cs) =
    let rest = tried good cs in
    elim c.socket [ none ↦ rest | some fd ↦ if good c then fd ∷ [] else fd ∷ rest ]

abbrev pub serves : Candidate → Bool
serves c = c.binds && c.listens

abbrev pub answers : Candidate → Bool
answers c = c.connects

abbrev pub to_list : Option ℕ → List ℕ
to_list none = []
to_list (some fd) = fd ∷ []

tcp_connect_from-step :
    (c : Candidate) (cs : List Candidate) (o : Option ℕ)
    → c.socket ≡ o
    → ((tcp_connect_from cs).0 ≡ first_good answers cs)
      × (still_open (tcp_connect_from cs).1 ≡ to_list (tcp_connect_from cs).0)
    → ((tcp_connect_from (c ∷ cs)).0 ≡ first_good answers (c ∷ cs))
      × (still_open (tcp_connect_from (c ∷ cs)).1 ≡ to_list (tcp_connect_from (c ∷ cs)).0)
unfolding tcp_connect_from
tcp_connect_from-step c cs none e h = (ground (arith, h.0), ground (arith, h.1))
tcp_connect_from-step c cs (some fd) e h = (ground (arith, h.0), ground (arith, h.1))

-- `tcp_connect` of Lab2017/lib takes the same candidate and leaves no other socket open.
pub tcp_connect_from_lem :
    (cs : List Candidate)
    → ((tcp_connect_from cs).0 ≡ first_good answers cs)
      × (still_open (tcp_connect_from cs).1 ≡ to_list (tcp_connect_from cs).0)
unfolding tcp_connect_from
tcp_connect_from_lem [] = (refl, refl)
tcp_connect_from_lem (c ∷ cs) = tcp_connect_from-step c cs c.socket refl (tcp_connect_from_lem cs)
