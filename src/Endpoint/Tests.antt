-- ===== src/Endpoint/Tests.antt =====
-- Opening sockets on concrete answers of the kernel.
use cosc.Prelude.{ℕ, ◌≡◌, ◌↔◌, refl, true, false, none, some, List, [], ◌∷◌, arith}
use cosc.Endpoint.{Host, listen_on, easy_listen, Candidate, listen46_from}
use cosc.Endpoint.Listen.{Listens, still_open, easy_listen_iff, calls_of, easy_listen_leaks}

-- Port 7 on 127.0.0.1.
abbrev host : Host
host = record {
  socket = some 3;
  address = some 16777343;
  port = 7;
  reuses = true;
  binds = true;
  listens = true;
  connects = true;
}

host-Listens : Listens host 3 16777343
host-Listens = record {
  socket = refl;
  address = refl;
  port = λ h. absurd (omega arith);
  reuses = refl;
  binds = refl;
  listens = refl;
}

-- The port is taken.
abbrev taken : Host
taken = record host { binds = false }

-- An address that cannot be bound or reached, and one that can.
abbrev two : List Candidate
two =
    record { socket = some 3; address = 10; binds = false; listens = true; connects = false }
    ∷ record { socket = some 4; address = 20; binds = true; listens = true; connects = true }
    ∷ []

two_run : still_open (listen46_from 128 two).1 ≡ 3 ∷ 4 ∷ []
unfolding listen46_from
two_run = refl

easy_listen_iff_example :
    ((easy_listen host 128).0 ≡ some 3)
    ↔ ((a : ℕ) × Listens host 3 a × (easy_listen host 128 ≡ (some 3, calls_of host 128 3 a)))
easy_listen_iff_example = easy_listen_iff host 128 3

host_listens : (easy_listen host 128).0 ≡ some 3
unfolding easy_listen listen_on
host_listens = refl

taken_fails : (easy_listen taken 128).0 ≡ none
unfolding easy_listen listen_on
taken_fails = refl

easy_listen_leaks_example : still_open (easy_listen taken 128).1 ≡ 3 ∷ []
easy_listen_leaks_example = easy_listen_leaks taken 128 3 refl taken_fails
