-- ===== src/Delivery/Forking.antt =====
-- The fork server of Lab2: what its children send, and what it keeps open.
use cosc.Prelude.{
  ℕ, ◌≡◌, refl, sym, ap, ◌∙◌, true, false, none, some, List, [], ◌∷◌, ◌++◌, append_assoc,
  append-nil, if◌then◌else◌, Bytes, All, Bool-cases, inl, inr, ==_true, take, Option, ◌⊎◌,
}
use cosc.Delivery.{Connection, Child, child_main, Server, connected, fork_round, fork_server}

-- The connections for which fork(2) succeeds, and the sockets of the others.
abbrev pub forked : List Connection → List Connection
forked [] = []
forked (c ∷ cs) = let rest = forked cs in if c.forks then c ∷ rest else rest

abbrev pub unforked : List Connection → List ℕ
unforked [] = []
unforked (c ∷ cs) = let rest = unforked cs in if c.forks then rest else c.accepted ∷ rest

-- The file is there and sendfile(2) takes `n` bytes: the child sends these and exits with 0.
abbrev pub Delivers : Connection → Child → Type 0
Delivers c k =
    (bytes : Bytes) × (n : ℕ) × (c.file ≡ some bytes)
    × (c.sends ≡ some n)
    × (k.sent ≡ take n bytes)
    × (k.success ≡ true)

-- There is no file, or sendfile(2) fails: the child sends nothing and exits with 1.
abbrev pub GivesUp : Connection → Child → Type 0
GivesUp c k = ((c.file ≡ none) ⊎ (c.sends ≡ none)) × (k.sent ≡ []) × (k.success ≡ false)

pub record IsChildOf (c : Connection) (k : Child) : Type 0 where
  pub socket : k.socket ≡ c.accepted
  pub outcome : Delivers c k ⊎ GivesUp c k

-- One child for each connection, in order.
abbrev pub AreChildren : List Connection → List Child → Type 0
AreChildren [] [] = Unit
AreChildren [] (k ∷ ks) = ⊥
AreChildren (c ∷ cs) [] = ⊥
AreChildren (c ∷ cs) (k ∷ ks) = IsChildOf c k × AreChildren cs ks

child_main-served :
    (c : Connection) (file : Option Bytes) (sends : Option ℕ)
    → c.file ≡ file
    → c.sends ≡ sends
    → IsChildOf c (child_main c)
unfolding child_main
child_main-served c none sends e z =
    let k : child_main c ≡ record { socket = c.accepted; sent = []; success = false } = rw e in
    record {
      socket = ap (λ x. x.socket) k;
      outcome = inr (inl e, ap (λ x. x.sent) k, ap (λ x. x.success) k);
    }
child_main-served c (some bytes) none e z =
    let k : child_main c ≡ record { socket = c.accepted; sent = []; success = false } = rw (e, z) in
    record {
      socket = ap (λ x. x.socket) k;
      outcome = inr (inr z, ap (λ x. x.sent) k, ap (λ x. x.success) k);
    }
child_main-served c (some bytes) (some n) e z =
    let k : child_main c ≡ record { socket = c.accepted; sent = take n bytes; success = true } =
      rw (e, z) in
    record {
      socket = ap (λ x. x.socket) k;
      outcome = inl (bytes, n, e, z, ap (λ x. x.sent) k, ap (λ x. x.success) k);
    }

-- The second list behind the first in reverse.
abbrev pub onto {ℓ} : {A : Type ℓ} → List A → List A → List A
onto [] ys = ys
onto (x ∷ xs) ys = onto xs (x ∷ ys)

abbrev pub KnownPeer : Connection → Type 0
KnownPeer c = (ip : Bytes) × (c.peer_ip ≡ some ip)

pub record Forks (cs : List Connection) (s t : Server) : Type 0 where
  pub runs : fork_server cs s ≡ some t
  pub forked_children : List Child
  pub children : t.children ≡ s.children ++ forked_children
  pub each : AreChildren (forked cs) forked_children
  pub fds : t.fds ≡ onto (unforked cs) s.fds

abbrev grown : Connection → Bytes → Server → Server
grown c ip s = record {
  fds = s.fds;
  children = s.children ++ (child_main c ∷ []);
  out = s.out ++ (connected ip c.peer_port ∷ []);
}

fork_round_forks :
    (c : Connection) (s : Server) (ip : Bytes)
    → c.forks ≡ true
    → c.peer_ip ≡ some ip
    → fork_round c s ≡ some (grown c ip s)
unfolding fork_round
fork_round_forks c s ip f p = simp (f, p, ==_true c.accepted c.accepted refl)

fork_round_fails :
    (c : Connection) (s : Server)
    → c.forks ≡ false
    → fork_round c s ≡ some (record s { fds = c.accepted ∷ s.fds })
unfolding fork_round
fork_round_fails c s f = simp f

fork_server_step :
    (c : Connection) (cs : List Connection) (s t : Server)
    → fork_round c s ≡ some t
    → fork_server (c ∷ cs) s ≡ fork_server cs t
unfolding fork_server
fork_server_step c cs s t e = rw (e, fork_server)

-- However many connect, if the address of each is found: for each connection, in order, for which
-- fork(2) succeeds there is one new child, with the socket of that connection; if the file is there
-- and sendfile(2) does not fail, it sends the bytes that sendfile(2) takes and exits with 0, else it
-- sends nothing and exits with 1. The server keeps open what it had, and the sockets of the
-- connections for which fork(2) fails.
pub fork_server_lem :
    (cs : List Connection) (s : Server) → All KnownPeer cs → (t : Server) × Forks cs s t
unfolding fork_server
fork_server_lem [] s k = (
  s,
  record {
    runs = refl;
    forked_children = [];
    children = sym (append-nil _);
    each = tt;
    fds = refl;
  },
)
fork_server_lem (c ∷ cs) s (k, ks) = elim (Bool-cases c.forks) [
  | inl f ↦
      let round = fork_round_forks c s k.0 f k.1 in
      let (t, r) = fork_server_lem cs (grown c k.0 s) ks in
      (
        t,
        record {
          runs = fork_server_step c cs s _ round ∙ r.runs;
          forked_children = child_main c ∷ r.forked_children;
          children = r.children ∙ append_assoc s.children (child_main c ∷ []) r.forked_children;
          each = simp f (child_main-served c c.file c.sends refl refl, r.each);
          fds = simp f r.fds;
        },
      )
  | inr f ↦
      let round = fork_round_fails c s f in
      let (t, r) = fork_server_lem cs (record s { fds = c.accepted ∷ s.fds }) ks in
      (
        t,
        record {
          runs = fork_server_step c cs s _ round ∙ r.runs;
          forked_children = r.forked_children;
          children = r.children;
          each = simp f r.each;
          fds = simp f r.fds;
        },
      )
]
