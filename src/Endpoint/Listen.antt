-- ===== src/Endpoint/Listen.antt =====
-- `tcp_easy_listen` of Lab3/chatserver.c and Lab4/tcp_receiver.c and `tcp_easy_connect` of
-- Lab4/tcp_sender.c: when they succeed and what they leave open; and those of Lab2, which go on.
use cosc.Prelude.{
  ℕ, ◌%◌, ◌≡◌, ◌≢◌, ◌↔◌, ap, Bool, true, false, none, some, List, [], ◌∷◌, ◌==◌, ◌||◌,
  if◌then◌else◌, arith,
}
use cosc.Prelude.Int.{ℤ, pos}
use cosc.Endpoint.{
  Call, opened, reuse, bound, listening, closed, htons, Host, listen_on, easy_listen, connect_on,
  easy_connect, ready, fork_listen,
}

-- A list of calls closes a descriptor.
abbrev pub has_close : ℕ → List Call → Bool
has_close fd [] = false
has_close fd (closed n ∷ cs) = fd == n || has_close fd cs
has_close fd (_ ∷ cs) = has_close fd cs

-- The descriptors that it opens and leaves open.
abbrev pub still_open : List Call → List ℕ
still_open [] = []
still_open (opened fd ∷ cs) =
    let rest = still_open cs in if has_close fd cs then rest else fd ∷ rest
still_open (_ ∷ cs) = still_open cs

htons_zero : (n : ℕ) → (htons n ≡ 0) ↔ (n % 65536 ≡ 0)
htons_zero n = (λ h. omega arith, λ h. omega arith)

-- Every step of opening a listening socket succeeds.
pub record Listens (h : Host) (fd a : ℕ) : Type 0 where
  pub socket : h.socket ≡ some fd
  pub address : h.address ≡ some a
  pub port : h.port % 65536 ≢ 0
  pub reuses : h.reuses ≡ true
  pub binds : h.binds ≡ true
  pub listens : h.listens ≡ true

easy_listen-some :
    (h : Host) (queue fd : ℕ) → (easy_listen h queue).0 ≡ some fd → (a : ℕ) × Listens h fd a
unfolding easy_listen listen_on
easy_listen-some h queue fd e = ground (arith, htons_zero h.port)

easy_listen_lem :
    (h : Host) (queue fd a : ℕ)
    → Listens h fd a
    → easy_listen h queue
      ≡ (some fd, opened fd ∷ reuse fd ∷ bound fd a (htons h.port) ∷ listening fd queue ∷ [])
unfolding easy_listen listen_on
easy_listen_lem h queue fd a l = ground (arith, htons_zero h.port)

abbrev pub calls_of : Host → ℕ → ℕ → ℕ → List Call
calls_of h queue fd a = opened fd ∷ reuse fd ∷ bound fd a (htons h.port) ∷ listening fd queue ∷ []

-- A listening socket comes back exactly when every step of opening it succeeds: then it is bound to the
-- address and the port, in network order, listens behind that, and nothing else is opened.
pub easy_listen_iff :
    (h : Host) (queue fd : ℕ)
    → ((easy_listen h queue).0 ≡ some fd)
      ↔ ((a : ℕ) × Listens h fd a × (easy_listen h queue ≡ (some fd, calls_of h queue fd a)))
easy_listen_iff h queue fd = (
  λ e. let (a, l) = easy_listen-some h queue fd e in (a, l, easy_listen_lem h queue fd a l),
  λ r. ap (λ x. x.0) r.2,
)

-- When a step behind socket(2) fails, -1 is returned and the socket stays open.
pub easy_listen_leaks :
    (h : Host) (queue fd : ℕ)
    → h.socket ≡ some fd
    → (easy_listen h queue).0 ≡ none
    → still_open (easy_listen h queue).1 ≡ fd ∷ []
unfolding easy_listen listen_on
easy_listen_leaks h queue fd s e = ground arith

pub easy_connect_leaks :
    (h : Host) (fd : ℕ)
    → h.socket ≡ some fd
    → (easy_connect h).0 ≡ none
    → still_open (easy_connect h).1 ≡ fd ∷ []
unfolding easy_connect connect_on
easy_connect_leaks h fd s e = ground arith

-- The fork server of Lab2 goes on with its socket, whether bind(2) and listen(2) succeed or not.
pub fork_listen_ignores :
    (reuses : ℤ → Bool) (binds listens : Bool) (h : Host) (fd a : ℕ)
    → h.socket ≡ some fd
    → h.address ≡ some a
    → reuses (pos fd) ≡ true
    → fork_listen reuses true (record h { binds = binds; listens = listens }) ≡ ready (pos fd)
unfolding fork_listen
fork_listen_ignores reuses binds listens h fd a s e r = ground arith
