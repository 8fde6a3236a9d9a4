-- ===== src/WebClient/Counts.antt =====
-- What the functions of the web client do to its counters and to the commands that it has written.
use cosc.Prelude.{
  ℕ, suc, ◌+◌, ◌-◌, ◌≤◌, ◌<◌, ◌≡◌, refl, ◌∙◌, Bool, true, false, some, List, [], ◌∷◌, ◌++◌, ◌||◌,
  length, All, Bytes, arith, append-nil, append_assoc, Bool-cases, inl, inr, lt→ltb,
}
use mathlib.Core.Path.{ap₂}
use mathlib.Core.List.{Perm, perm_middle}
use mathlib.Core.List.Perm
use cosc.WebClient.{
  maxline, Flags, idle, connecting, reading, finished, File, Net, Kernel, get_cmd, with_bit, raise,
  write_get_cmd, serve_file, serve_files,
}

-- The files whose connection is not begun, and those that have one.
abbrev pub idles : List File → ℕ
idles [] = 0
idles (f ∷ fs) =
    let rest = idles fs in
    elim f.f_flags [ idle ↦ suc rest | connecting ↦ rest | reading ↦ rest | finished ↦ rest ]

abbrev pub actives : List File → ℕ
actives [] = 0
actives (f ∷ fs) =
    let rest = actives fs in
    elim f.f_flags [ idle ↦ rest | connecting ↦ suc rest | reading ↦ suc rest | finished ↦ rest ]

-- The command for a file that has been asked for, with its socket.
abbrev pub asked_of : File → List (ℕ × Bytes)
asked_of f = elim f.f_flags [
  | idle ↦ []
  | connecting ↦ []
  | reading ↦ (f.f_fd, get_cmd f.f_name) ∷ []
  | finished ↦ (f.f_fd, get_cmd f.f_name) ∷ []
]

abbrev pub asked : List File → List (ℕ × Bytes)
asked [] = []
asked (f ∷ fs) = asked_of f ++ asked fs

-- The command for a file fits the array `line`.
abbrev pub NameFits : File → Type 0
NameFits f = length (get_cmd f.f_name) < maxline

-- The commands that are written stay those for the files that have been asked for, whatever `xs` has
-- been written for other files.
abbrev pub KeepsAsked : List File → Net → List File → Net → Type 0
KeepsAsked fs n fs' n' =
    (xs : List (ℕ × Bytes)) → Perm n.sent (xs ++ asked fs) → Perm n'.sent (xs ++ asked fs')

abbrev pub names_of : List File → List Bytes
names_of [] = []
names_of (f ∷ fs) = f.f_name ∷ names_of fs

-- What a loop over files leaves.
pub record Tally (fs : List File) (n : Net) (fs' : List File) (n' : Net) : Type 0 where
  pub left : n'.nlefttoconn ≡ n.nlefttoconn
  pub idle_same : idles fs' ≡ idles fs
  pub conns : n'.nconn + actives fs ≡ n.nconn + actives fs'
  pub reads : n'.nlefttoread + actives fs ≡ n.nlefttoread + actives fs'
  pub bounds : actives fs' ≤ actives fs
  pub commands : KeepsAsked fs n fs' n'
  pub fit : All NameFits fs'
  pub names : names_of fs' ≡ names_of fs

abbrev ask : File → File
ask f = record f { f_flags = reading }

abbrev ask_net : File → Net → Net
ask_net f n = record n {
  sent = n.sent ++ ((f.f_fd, get_cmd f.f_name) ∷ []);
  rset = with_bit f.f_fd true n.rset;
  nfds = raise f.f_fd n.nfds;
}

pub write_get_cmd_lem :
    (f : File) (n : Net) → NameFits f → write_get_cmd f n ≡ some (ask f, ask_net f n)
unfolding write_get_cmd
write_get_cmd_lem f n h = rw (lt→ltb _ _ h)

-- The body of the loop, for one file.
abbrev Served : Kernel → (ℕ → Bool) → (ℕ → Bool) → File → Net → Type 0
Served k rs ws f n =
    (f' : File) × (n' : Net) × (serve_file k rs ws f n ≡ some (f', n'))
    × Tally (f ∷ []) n (f' ∷ []) n'

unchanged : (f : File) (n : Net) → NameFits f → Tally (f ∷ []) n (f ∷ []) n
unchanged f n h = record {
  left = refl;
  idle_same = refl;
  conns = refl;
  reads = refl;
  bounds = omega arith;
  commands = λ xs h. h;
  fit = (h, tt);
  names = refl;
}

established :
    (name : Bytes) (fd : ℕ) (n : Net) (ws : ℕ → Bool)
    → let f : File = record { f_name = name; f_fd = fd; f_flags = connecting } in
      NameFits f → Tally (f ∷ []) n (ask f ∷ []) (ask_net f (record n { wset = ws }))
established name fd n ws h = record {
  left = refl;
  idle_same = refl;
  conns = refl;
  reads = refl;
  bounds = omega arith;
  commands = λ xs h. Perm.append_right ((fd, get_cmd name) ∷ []) (rw (append-nil xs) at h);
  fit = (h, tt);
  names = refl;
}

serve_connecting :
    (k : Kernel) (rs ws : ℕ → Bool) (name : Bytes) (fd : ℕ) (n : Net)
    → let f : File = record { f_name = name; f_fd = fd; f_flags = connecting } in
      NameFits f → Served k rs ws f n
unfolding serve_file
serve_connecting k rs ws name fd n h =
    let f : File = record { f_name = name; f_fd = fd; f_flags = connecting } in
    let n' = record n { wset = with_bit fd false n.wset } in
    elim (Bool-cases (rs fd || ws fd)) [
      | inl e ↦
          (ask f, ask_net f n', rw e (write_get_cmd_lem f n' h), established name fd n n'.wset h)
      | inr e ↦ (f, n, rw e, unchanged f n h)
    ]

serve_reading :
    (k : Kernel) (rs ws : ℕ → Bool) (name : Bytes) (fd : ℕ) (n : Net) (bytes : Bytes)
    → let f : File = record { f_name = name; f_fd = fd; f_flags = reading } in
      NameFits f
      → rs fd ≡ true
      → k.received fd ≡ bytes
      → 1 ≤ n.nconn
      → 1 ≤ n.nlefttoread
      → Served k rs ws f n
unfolding serve_file
serve_reading k rs ws name fd n [] h e b c r = (
  record { f_name = name; f_fd = fd; f_flags = finished },
  record n {
    rset = with_bit fd false n.rset;
    nconn = n.nconn - 1;
    nlefttoread = n.nlefttoread - 1;
  },
  rw e (rw b),
  record {
    left = refl;
    idle_same = refl;
    conns = omega arith;
    reads = omega arith;
    bounds = omega arith;
    commands = λ xs h. h;
    fit = (h, tt);
    names = refl;
  },
)
serve_reading k rs ws name fd n (x ∷ xs) h e b c r =
    let f : File = record { f_name = name; f_fd = fd; f_flags = reading } in
    (f, n, rw e (rw b), unchanged f n h)

serve_file_flags :
    (k : Kernel) (rs ws : ℕ → Bool) (name : Bytes) (fd : ℕ) (flags : Flags) (n : Net)
    → let f : File = record { f_name = name; f_fd = fd; f_flags = flags } in
      NameFits f
      → actives (f ∷ []) ≤ n.nconn
      → actives (f ∷ []) ≤ n.nlefttoread
      → Served k rs ws f n
unfolding serve_file
serve_file_flags k rs ws name fd idle n h c r = (_, _, refl, unchanged _ n h)
serve_file_flags k rs ws name fd finished n h c r = (_, _, refl, unchanged _ n h)
serve_file_flags k rs ws name fd connecting n h c r = serve_connecting k rs ws name fd n h
serve_file_flags k rs ws name fd reading n h c r = elim (Bool-cases (rs fd)) [
  | inl e ↦ serve_reading k rs ws name fd n (k.received fd) h e refl c r
  | inr e ↦ (_, _, rw e, unchanged _ n h)
]

-- A file that select(2) makes the loop look at.
serve_file_lem :
    (k : Kernel) (rs ws : ℕ → Bool) (f : File) (n : Net)
    → NameFits f
    → actives (f ∷ []) ≤ n.nconn
    → actives (f ∷ []) ≤ n.nlefttoread
    → Served k rs ws f n
serve_file_lem k rs ws f n h c r = serve_file_flags k rs ws f.f_name f.f_fd f.f_flags n h c r

append-Perm {ℓ} : {A : Type ℓ} (xs ys : List A) → Perm (xs ++ ys) (ys ++ xs)
append-Perm [] ys = rw (append-nil ys) (Perm.refl ys)
append-Perm (x ∷ xs) ys =
    Perm.trans (Perm.cons x (append-Perm xs ys)) (Perm.symm (perm_middle ys xs))

pub last_two {ℓ} : {A : Type ℓ} (xs ys zs : List A) → Perm (xs ++ (ys ++ zs)) ((xs ++ zs) ++ ys)
last_two xs ys zs = rw (append_assoc xs zs ys) (Perm.append_left xs (append-Perm ys zs))

-- What is done for the first file and what is done for the others.
pub both_asked {ℓ} :
    {A : Type ℓ} (n m n' xs xs' ys ys' : List A)
    → ((zs : List A) → Perm n (zs ++ (xs ++ [])) → Perm m (zs ++ (xs' ++ [])))
    → ((zs : List A) → Perm m (zs ++ ys) → Perm n' (zs ++ ys'))
    → (zs : List A) → Perm n (zs ++ (xs ++ ys))
    → Perm n' (zs ++ (xs' ++ ys'))
both_asked n m n' xs xs' ys ys' a b zs h =
    let one = rw (append-nil xs, append-nil xs') at (a (zs ++ ys)) in
    let first = one (Perm.trans h (last_two zs xs ys)) in
    let moved : Perm m ((zs ++ xs') ++ ys) =
      rw (append_assoc zs xs' ys) (Perm.trans first (Perm.symm (last_two zs xs' ys))) in
    rw (← append_assoc zs xs' ys') (b (zs ++ xs') moved)

idles-cons : (f : File) (fs : List File) → idles (f ∷ fs) ≡ idles (f ∷ []) + idles fs
idles-cons f fs = ground arith

pub actives-cons : (f : File) (fs : List File) → actives (f ∷ fs) ≡ actives (f ∷ []) + actives fs
actives-cons f fs = ground arith

-- A loop over one file and then the others.
Tally-cons :
    (f f' : File) (fs fs' : List File) (n m n' : Net)
    → Tally (f ∷ []) n (f' ∷ []) m
    → Tally fs m fs' n'
    → Tally (f ∷ fs) n (f' ∷ fs') n'
Tally-cons f f' fs fs' n m n' a b =
    let i = idles-cons f fs in
    let i' = idles-cons f' fs' in
    let c = actives-cons f fs in
    let c' = actives-cons f' fs' in
    record {
      left = b.left ∙ a.left;
      idle_same = omega (arith, i, i', a.idle_same, b.idle_same);
      conns = omega (arith, c, c', a.conns, b.conns, a.bounds, b.bounds);
      reads = omega (arith, c, c', a.reads, b.reads, a.bounds, b.bounds);
      bounds = omega (arith, c, c', a.bounds, b.bounds);
      commands =
          both_asked n.sent m.sent n'.sent (asked_of f) (asked_of f') (asked fs) (asked fs')
            a.commands b.commands;
      fit = (a.fit.0, b.fit);
      names = ap₂ ◌∷◌ (cc (a.names)) b.names;
    }

pub serve_files_lem :
    (k : Kernel) (rs ws : ℕ → Bool) (fs : List File) (n : Net)
    → All NameFits fs
    → actives fs ≤ n.nconn
    → actives fs ≤ n.nlefttoread
    → (fs' : List File) × (n' : Net) × (serve_files k rs ws fs n ≡ some (fs', n'))
      × Tally fs n fs' n'
unfolding serve_files
serve_files_lem k rs ws [] n h c r = (
  [],
  n,
  refl,
  record {
    left = refl;
    idle_same = refl;
    conns = refl;
    reads = refl;
    bounds = omega arith;
    commands = λ xs h. h;
    fit = tt;
    names = refl;
  },
)
serve_files_lem k rs ws (f ∷ fs) n h c r =
    let e = actives-cons f fs in
    let (f', m, one, a) = serve_file_lem k rs ws f n h.0 (omega (arith, e)) (omega (arith, e)) in
    let (fs', n', others, b) =
      serve_files_lem k rs ws fs m h.1 (omega (arith, e, a.conns, a.bounds))
        (omega (arith, e, a.reads)) in
    (f' ∷ fs', n', rw one (rw others), Tally-cons f f' fs fs' n m n' a b)
