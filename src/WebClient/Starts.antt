-- ===== src/WebClient/Starts.antt =====
-- How the web client begins connections.
use cosc.Prelude.{
  ℕ, zero, suc, ◌+◌, ◌≤◌, ◌<◌, ◌≡◌, ◌≢◌, refl, ap, ◌∙◌, true, false, some, List, [], ◌∷◌, ◌++◌, ltb,
  ◌&&◌, All, Bytes, arith, Bool-cases, inl, inr, ◌⊎◌,
}
use native.Mathlib.Decide.{dec_lt}
use mathlib.Core.List.{Perm}
use mathlib.Core.List.Perm
use cosc.WebClient.{
  Flags, idle, connecting, reading, File, Net, Web, Kernel, get_cmd, with_bit, raise, start_connect,
  start_first, one_more, begin,
}
use cosc.WebClient.Counts.{
  idles, actives, asked_of, asked, NameFits, names_of, KeepsAsked, write_get_cmd_lem, both_asked,
  last_two,
}

-- One file more has a connection.
pub record Started (fs : List File) (n : Net) (fs' : List File) (n' : Net) : Type 0 where
  pub one_idle : idles fs ≡ suc (idles fs')
  pub one_active : actives fs' ≡ suc (actives fs)
  pub same_conn : n'.nconn ≡ n.nconn
  pub same_left : n'.nlefttoconn ≡ n.nlefttoconn
  pub same_read : n'.nlefttoread ≡ n.nlefttoread
  pub commands : KeepsAsked fs n fs' n'
  pub fit : All NameFits fs'
  pub names : names_of fs' ≡ names_of fs

abbrev Starts : Kernel → List File → Net → Type 0
Starts k fs n =
    (fs' : List File) × (n' : Net) × (start_first k fs n ≡ some (fs', n')) × Started fs n fs' n'

start_here :
    (k : Kernel) (name : Bytes) (fd : ℕ) (fs : List File) (n : Net)
    → let f : File = record { f_name = name; f_fd = fd; f_flags = idle } in
      All NameFits (f ∷ fs) → Starts k (f ∷ fs) n
unfolding start_first start_connect
start_here k name fd fs n h =
    let s = k.socket n.nlefttoconn in
    elim (Bool-cases (k.at_once n.nlefttoconn)) [
      | inl e ↦ (
        record { f_name = name; f_fd = s; f_flags = reading } ∷ fs,
        record n {
          sent = n.sent ++ ((s, get_cmd name) ∷ []);
          rset = with_bit s true n.rset;
          nfds = raise s n.nfds;
        },
        rw e (rw (write_get_cmd_lem (record { f_name = name; f_fd = s; f_flags = idle }) n h.0)),
        record {
          one_idle = refl;
          one_active = refl;
          same_conn = refl;
          same_left = refl;
          same_read = refl;
          commands = λ xs h.
              Perm.trans (Perm.append_right ((s, get_cmd name) ∷ []) h)
                (Perm.symm (last_two xs ((s, get_cmd name) ∷ []) (asked fs)));
          fit = h;
          names = refl;
        },
      )
      | inr e ↦ (
        record { f_name = name; f_fd = s; f_flags = connecting } ∷ fs,
        record n {
          rset = with_bit s true n.rset;
          wset = with_bit s true n.wset;
          nfds = raise s n.nfds;
        },
        rw e,
        record {
          one_idle = refl;
          one_active = refl;
          same_conn = refl;
          same_left = refl;
          same_read = refl;
          commands = λ xs h. h;
          fit = h;
          names = refl;
        },
      )
    ]

start_behind :
    (k : Kernel) (name : Bytes) (fd : ℕ) (flags : Flags) (fs fs' : List File) (n n' : Net)
    → flags ≢ idle
    → let f : File = record { f_name = name; f_fd = fd; f_flags = flags } in
      NameFits f
      → start_first k fs n ≡ some (fs', n')
      → Started fs n fs' n'
      → (start_first k (f ∷ fs) n ≡ some (f ∷ fs', n')) × Started (f ∷ fs) n (f ∷ fs') n'
unfolding start_first
start_behind k name fd idle fs fs' n n' ne h e s = absurd (ne refl)
start_behind k name fd flags fs fs' n n' ne h e s = (
  rw e,
  record {
    one_idle = s.one_idle;
    one_active = omega (arith, s.one_active);
    same_conn = s.same_conn;
    same_left = s.same_left;
    same_read = s.same_read;
    commands =
        let own = asked_of (record { f_name = name; f_fd = fd; f_flags = flags }) in
        both_asked n.sent n.sent n'.sent own own (asked fs) (asked fs') (λ xs h. h) s.commands;
    fit = (h, s.fit);
    names = ap (◌∷◌ name) s.names;
  },
)

start_flags :
    (k : Kernel) (name : Bytes) (fd : ℕ) (flags : Flags) (fs : List File) (n : Net)
    → let f : File = record { f_name = name; f_fd = fd; f_flags = flags } in
      All NameFits (f ∷ fs)
      → 0 < idles (f ∷ fs)
      → (0 < idles fs → Starts k fs n)
      → Starts k (f ∷ fs) n
start_flags k name fd idle fs n h p behind = start_here k name fd fs n h
start_flags k name fd flags fs n h p behind =
    let (fs', n', e, s) = behind p in
    let r = start_behind k name fd flags fs fs' n n' (λ e. cc) h.0 e s in
    (record { f_name = name; f_fd = fd; f_flags = flags } ∷ fs', n', r.0, r.1)

-- A file whose connection is not begun is found.
pub start_first_lem :
    (k : Kernel) (fs : List File) (n : Net) → All NameFits fs → 0 < idles fs → Starts k fs n
start_first_lem k [] n h p = absurd (omega arith)
start_first_lem k (f ∷ fs) n h p =
    start_flags k f.f_name f.f_fd f.f_flags fs n h p (start_first_lem k fs n h.1)

-- The counters count the files, the commands are those for the files that were asked for, and no more
-- than `maxnconn` connections are open; the files are those with these names.
pub record IsCounted (names : List Bytes) (maxnconn : ℕ) (w : Web) : Type 0 where
  pub to_conn : w.net.nlefttoconn ≡ idles w.files
  pub conns : w.net.nconn ≡ actives w.files
  pub to_read : w.net.nlefttoread ≡ idles w.files + actives w.files
  pub limit : w.net.nconn ≤ maxnconn
  pub commands : Perm w.net.sent (asked w.files)
  pub fit : All NameFits w.files
  pub same_names : names_of w.files ≡ names

begin_stops :
    (k : Kernel) (maxnconn fuel : ℕ) (w : Web)
    → (maxnconn ≤ w.net.nconn) ⊎ (w.net.nlefttoconn ≡ 0)
    → begin k maxnconn fuel w ≡ some w
unfolding begin
begin_stops k maxnconn zero w h = ground arith
begin_stops k maxnconn (suc fuel) w h =
    let stop : (ltb w.net.nconn maxnconn && ltb 0 w.net.nlefttoconn) ≡ false = ground arith in
    rw (stop, begin)

begin_starts :
    (k : Kernel) (maxnconn fuel : ℕ) (w : Web) (fs : List File) (n : Net)
    → w.net.nconn < maxnconn
    → 0 < w.net.nlefttoconn
    → start_first k w.files w.net ≡ some (fs, n)
    → begin k maxnconn (suc fuel) w
      ≡ begin k maxnconn fuel (record { files = fs; net = one_more n })
unfolding begin
begin_starts k maxnconn fuel w fs n h p e =
    let go : (ltb w.net.nconn maxnconn && ltb 0 w.net.nlefttoconn) ≡ true = ground arith in
    rw (go, begin) (rw e)

Started-IsCounted :
    (names : List Bytes) (maxnconn : ℕ) (w : Web) (fs : List File) (n : Net)
    → IsCounted names maxnconn w
    → w.net.nconn < maxnconn
    → Started w.files w.net fs n
    → IsCounted names maxnconn (record { files = fs; net = one_more n })
Started-IsCounted names maxnconn w fs n c h s = record {
  to_conn = omega (arith, c.to_conn, s.one_idle, s.same_left);
  conns = omega (arith, c.conns, s.one_active, s.same_conn);
  to_read = omega (arith, c.to_read, s.one_idle, s.one_active, s.same_read);
  limit = omega (arith, s.same_conn);
  commands = s.commands [] c.commands;
  fit = s.fit;
  same_names = s.names ∙ c.same_names;
}

-- The inner loop begins connections as long as it may.
pub begin_lem :
    (k : Kernel) (names : List Bytes) (maxnconn fuel : ℕ) (w : Web)
    → IsCounted names maxnconn w
    → w.net.nlefttoconn ≤ fuel
    → (v : Web) × (begin k maxnconn fuel w ≡ some v) × IsCounted names maxnconn v
begin_lem k names maxnconn zero w c h = (w, begin_stops k maxnconn zero w (inr (omega arith)), c)
begin_lem k names maxnconn (suc fuel) w c h = elim (dec_lt w.net.nconn maxnconn) [
  | no full ↦ (w, begin_stops k maxnconn (suc fuel) w (inl (omega arith)), c)
  | yes room ↦ elim (dec_lt 0 w.net.nlefttoconn) [
    | no none_left ↦ (w, begin_stops k maxnconn (suc fuel) w (inr (omega arith)), c)
    | yes left ↦
        let (fs, n, e, s) = start_first_lem k w.files w.net c.fit (omega (arith, c.to_conn)) in
        let next : Web = record { files = fs; net = one_more n } in
        let d = Started-IsCounted names maxnconn w fs n c room s in
        let (v, run, g) = begin_lem k names maxnconn fuel next d (omega (arith, s.same_left)) in
        (v, begin_starts k maxnconn fuel w fs n room left e ∙ run, g)
  ]
]
