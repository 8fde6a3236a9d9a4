-- ===== src/WebClient/Rounds.antt =====
-- Rounds of the web client, and how its loop ends.
use cosc.Prelude.{
  ℕ, suc, ◌+◌, ◌<◌, ◌≡◌, refl, ap, sym, ◌∙◌, some, List, [], ◌∷◌, ◌++◌, ◌&&◌, length, map, take,
  All, Bytes, arith, ==_true, ==_false,
}
use native.Mathlib.Decide.{ℕ_discrete}
use mathlib.Core.List.{Perm}
use mathlib.Core.List.Perm
use cosc.WebClient.{
  maxfiles, Flags, idle, connecting, reading, finished, File, Web, Kernel, get_cmd, round, Progress,
  exits, goes_on, fails, main_loop, start, file_of,
}
use cosc.WebClient.Counts.{idles, actives, asked_of, asked, NameFits, names_of, serve_files_lem}
use cosc.WebClient.Starts.{IsCounted, begin_lem}

-- A round neither fails nor loses count.
pub round_lem :
    (k : Kernel) (names : List Bytes) (maxnconn : ℕ) (w : Web)
    → IsCounted names maxnconn w
    → (v : Web) × (round k maxnconn w ≡ some v) × IsCounted names maxnconn v
unfolding round
round_lem k names maxnconn w c =
    let (u, b, d) = begin_lem k names maxnconn w.net.nlefttoconn w c (omega arith) in
    let rs = λ (fd : ℕ). u.net.rset fd && k.readable fd in
    let ws = λ (fd : ℕ). u.net.wset fd && k.writable fd in
    let (fs, n, e, t) =
      serve_files_lem k rs ws u.files u.net d.fit (omega (arith, d.conns))
        (omega (arith, d.to_read)) in
    (
      record { files = fs; net = n },
      rw b (rw e),
      record {
        to_conn = omega (arith, t.left, t.idle_same, d.to_conn);
        conns = omega (arith, t.conns, d.conns);
        to_read = omega (arith, t.reads, t.idle_same, d.to_read);
        limit = omega (arith, t.conns, t.bounds, d.limit);
        commands = t.commands [] d.commands;
        fit = t.fit;
        same_names = t.names ∙ d.same_names;
      },
    )

abbrev pub commands : List (ℕ × Bytes) → List Bytes
commands = map (λ c. c.1)

finished_first :
    (name : Bytes) (fd : ℕ) (flags : Flags) (fs : List File)
    → let f : File = record { f_name = name; f_fd = fd; f_flags = flags } in
      idles (f ∷ fs) + actives (f ∷ fs) ≡ 0
      → (asked_of f ≡ (fd, get_cmd name) ∷ []) × (idles fs + actives fs ≡ 0)
finished_first name fd idle fs h = absurd (omega arith)
finished_first name fd connecting fs h = absurd (omega arith)
finished_first name fd reading fs h = absurd (omega arith)
finished_first name fd finished fs h = (refl, h)

-- With no file left to connect to or to read, all have been asked for.
finished_asked :
    (fs : List File) → idles fs + actives fs ≡ 0 → commands (asked fs) ≡ map get_cmd (names_of fs)
finished_asked [] h = refl
finished_asked (f ∷ fs) h =
    let (e, rest) = finished_first f.f_name f.f_fd f.f_flags fs h in
    ap (λ x. commands (x ++ asked fs)) e ∙ ap (◌∷◌ (get_cmd f.f_name)) (finished_asked fs rest)

new_files :
    (names : List Bytes)
    → (idles (map file_of names) ≡ length (map file_of names))
      × (actives (map file_of names) ≡ 0)
      × (asked (map file_of names) ≡ [])
      × (names_of (map file_of names) ≡ names)
new_files [] = (refl, refl, refl, refl)
new_files (name ∷ names) = let (i, a, c, n) = new_files names in (ap suc i, a, c, ap (◌∷◌ name) n)

start-IsCounted :
    (names : List Bytes) (maxnconn : ℕ)
    → All NameFits (map file_of (take maxfiles names))
    → IsCounted (take maxfiles names) maxnconn (start names)
unfolding start
start-IsCounted names maxnconn h =
    let (i, a, c, n) = new_files (take maxfiles names) in
    record {
      to_conn = sym i;
      conns = sym a;
      to_read = omega (arith, i, a);
      limit = omega arith;
      commands = rw c (Perm.refl _);
      fit = h;
      same_names = n;
    }

-- What the loop comes to: it does not fail; it keeps count while it goes on, which it does only with
-- files left to read; and when it exits, the command for every file has been written once, and no
-- connection is open.
abbrev pub IsFine : List Bytes → ℕ → Progress → Type 0
IsFine names maxnconn (exits v) = Perm (commands v.net.sent) (map get_cmd names) × (v.net.nconn ≡ 0)
IsFine names maxnconn (goes_on v) = IsCounted names maxnconn v × (0 < v.net.nlefttoread)
IsFine names maxnconn fails = ⊥

exit-IsFine :
    (names : List Bytes) (maxnconn : ℕ) (w : Web)
    → IsCounted names maxnconn w
    → w.net.nlefttoread ≡ 0
    → IsFine names maxnconn (exits w)
exit-IsFine names maxnconn w c e =
    let all_done = finished_asked w.files (omega (arith, c.to_read)) in
    (
      rw (← c.same_names) (rw (← all_done) (Perm.map (λ c. c.1) c.commands)),
      omega (arith, c.conns, c.to_read),
    )

main_loop_from :
    (ks : List Kernel) (names : List Bytes) (maxnconn : ℕ) (w : Web)
    → IsCounted names maxnconn w
    → IsFine names maxnconn (main_loop ks maxnconn w)
unfolding main_loop
main_loop_from [] names maxnconn w c = elim (ℕ_discrete w.net.nlefttoread 0) [
  | yes e ↦ rw (==_true _ _ e) (exit-IsFine names maxnconn w c e)
  | no e ↦ rw (==_false _ _ e) (c, omega arith)
]
main_loop_from (k ∷ ks) names maxnconn w c = elim (ℕ_discrete w.net.nlefttoread 0) [
  | yes e ↦ rw (==_true _ _ e, main_loop) (exit-IsFine names maxnconn w c e)
  | no e ↦
      let (v, r, d) = round_lem k names maxnconn w c in
      rw (==_false _ _ e, main_loop) (rw (r, main_loop) (main_loop_from ks names maxnconn v d))
]

-- The web client fetches the files on its command line, the first 20 of them, if their commands fit the
-- array: if no wrapped call fails, however the kernel answers otherwise, it never comes to err_quit, its counters count the files, it has
-- at most `maxnconn` connections open, and when it exits it has written the command for each file once.
pub main_loop_lem :
    (ks : List Kernel) (names : List Bytes) (maxnconn : ℕ)
    → All NameFits (map file_of (take maxfiles names))
    → IsFine (take maxfiles names) maxnconn (main_loop ks maxnconn (start names))
main_loop_lem ks names maxnconn h =
    main_loop_from ks (take maxfiles names) maxnconn (start names)
      (start-IsCounted names maxnconn h)
