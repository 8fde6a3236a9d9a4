-- ===== src/WebClient.antt =====
-- Lab2017/nonblock/web.h, web.c, start_connect.c and write_get_cmd.c: a client that fetches files over at
-- most `maxnconn` connections at a time, without blocking in connect(2). What the kernel answers is
-- given, one record to a round of the loop of `main`. `none` stands for err_quit and for a write behind
-- the array `line`. What getsockopt(2) finds changes only what is printed. A call behind a wrapper
-- (Socket, Fcntl, Writen, Select, Read) is taken to succeed: where it fails, it ends the process.
pub mod Counts
pub mod Starts
pub mod Rounds
mod Tests
use cosc.Prelude.{
  ℕ, zero, suc, ◌+◌, ◌-◌, Bool, true, false, Option, none, some, List, [], ◌∷◌, ◌++◌, ltb, ◌==◌,
  ◌&&◌, ◌||◌, if◌then◌else◌, ◌>>=◌, length, map, take, Bytes, codes,
}

abbrev pub maxline : ℕ
maxline = 4096

-- `f_flags`: 0, F_CONNECTING, F_READING, F_DONE
pub data Flags : Type 0 where
  idle : Flags
  connecting : Flags
  reading : Flags
  finished : Flags

pub record File : Type 0 where
  pub f_name : Bytes
  pub f_fd : ℕ
  pub f_flags : Flags

-- The globals but for the files, with `nfds` for `maxfd + 1`, and the commands that were written.
pub record Net : Type 0 where
  pub nconn : ℕ
  pub nlefttoconn : ℕ
  pub nlefttoread : ℕ
  pub nfds : ℕ
  pub rset : ℕ → Bool
  pub wset : ℕ → Bool
  pub sent : List (ℕ × Bytes)

pub record Web : Type 0 where
  pub files : List File
  pub net : Net

-- What the kernel answers in a round: the sockets of the connections that are begun, by how many are
-- left to begin, and whether connect(2) is done at once; what select(2) finds among the sockets that it
-- is asked for; and the bytes that read(2) gives, none at the end.
pub record Kernel : Type 0 where
  pub socket : ℕ → ℕ
  pub at_once : ℕ → Bool
  pub readable : ℕ → Bool
  pub writable : ℕ → Bool
  pub received : ℕ → Bytes

abbrev pub with_bit : ℕ → Bool → (ℕ → Bool) → ℕ → Bool
with_bit fd b set x = if x == fd then b else set x

-- `if (fd > maxfd) maxfd = fd`
abbrev pub raise : ℕ → ℕ → ℕ
raise fd nfds = if ltb nfds (fd + 1) then fd + 1 else nfds

abbrev pub get_cmd : Bytes → Bytes
get_cmd name = codes "GET " ++ (name ++ codes " HTTP/1.0\r\n\r\n")

-- snprintf cuts the command, and returns its whole length, which is then written
unfoldable pub write_get_cmd : File → Net → Option (File × Net)
write_get_cmd f n =
    if ltb (length (get_cmd f.f_name)) maxline
    then some (
      record f { f_flags = reading },
      record n {
        sent = n.sent ++ ((f.f_fd, get_cmd f.f_name) ∷ []);
        rset = with_bit f.f_fd true n.rset;
        nfds = raise f.f_fd n.nfds;
      },
    )
    else none

unfoldable pub start_connect : Kernel → File → Net → Option (File × Net)
start_connect k f n =
    let fd = k.socket n.nlefttoconn in
    if k.at_once n.nlefttoconn
    then write_get_cmd (record f { f_fd = fd }) n
    else some (
      record f { f_fd = fd; f_flags = connecting },
      record n {
        rset = with_bit fd true n.rset;
        wset = with_bit fd true n.wset;
        nfds = raise fd n.nfds;
      },
    )

-- A file that a loop has dealt with, in front of the files behind it.
abbrev pub before : File → Option (List File × Net) → Option (List File × Net)
before f none = none
before f (some (fs, n)) = some (f ∷ fs, n)

-- the search for a file to read, and the connection for it
unfoldable pub start_first : Kernel → List File → Net → Option (List File × Net)
start_first k [] n = none
start_first k (f ∷ fs) n =
    let rest = before f (start_first k fs n) in
    elim f.f_flags [
      | idle ↦ start_connect k f n >>= (λ r. some (r.0 ∷ fs, r.1))
      | connecting ↦ rest
      | reading ↦ rest
      | finished ↦ rest
    ]

abbrev pub one_more : Net → Net
one_more n = record n { nconn = n.nconn + 1; nlefttoconn = n.nlefttoconn - 1 }

-- the inner loop that begins connections; `fuel` is nlefttoconn at its start
unfoldable pub begin : Kernel → ℕ → ℕ → Web → Option Web
begin k maxnconn zero w =
    if ltb w.net.nconn maxnconn && ltb 0 w.net.nlefttoconn then none else some w
begin k maxnconn (suc fuel) w = elim (ltb w.net.nconn maxnconn && ltb 0 w.net.nlefttoconn) [
  | true ↦
      start_first k w.files w.net
      >>= (λ r. begin k maxnconn fuel (record { files = r.0; net = one_more r.1 }))
  | false ↦ some w
]

-- the body of the loop over the files behind select(2), whose answers are `rs` and `ws`
unfoldable pub serve_file : Kernel → (ℕ → Bool) → (ℕ → Bool) → File → Net → Option (File × Net)
serve_file k rs ws f n =
    let fd = f.f_fd in
    elim f.f_flags [
      | idle ↦ some (f, n)
      | connecting ↦
          if rs fd || ws fd
          then write_get_cmd f (record n { wset = with_bit fd false n.wset })
          else some (f, n)
      | reading ↦
          if rs fd
          then (elim (k.received fd) [
            | [] ↦ some (
              record f { f_flags = finished },
              record n {
                rset = with_bit fd false n.rset;
                nconn = n.nconn - 1;
                nlefttoread = n.nlefttoread - 1;
              },
            )
            | b ∷ bs ↦ some (f, n)
          ])
          else some (f, n)
      | finished ↦ some (f, n)
    ]

unfoldable pub serve_files :
    Kernel → (ℕ → Bool) → (ℕ → Bool) → List File → Net → Option (List File × Net)
serve_files k rs ws [] n = some ([], n)
serve_files k rs ws (f ∷ fs) n =
    serve_file k rs ws f n >>= (λ r. before r.0 (serve_files k rs ws fs r.1))

-- one round of the loop of `main`
unfoldable pub round : Kernel → ℕ → Web → Option Web
round k maxnconn w = do
  v ← begin k maxnconn w.net.nlefttoconn w
  let rs = λ (fd : ℕ). v.net.rset fd && k.readable fd
  let ws = λ (fd : ℕ). v.net.wset fd && k.writable fd
  r ← serve_files k rs ws v.files v.net
  some (record { files = r.0; net = r.1 })

-- What `main` comes to: it has fetched all files, it is still in its loop, or it fails.
pub data Progress : Type 0 where
  exits : Web → Progress
  goes_on : Web → Progress
  fails : Progress

-- the loop of `main` over the files
unfoldable pub main_loop : List Kernel → ℕ → Web → Progress
main_loop [] maxnconn w = if w.net.nlefttoread == 0 then exits w else goes_on w
main_loop (k ∷ ks) maxnconn w = elim (w.net.nlefttoread == 0) [
  | true ↦ exits w
  | false ↦ elim (round k maxnconn w) [ none ↦ fails | some v ↦ main_loop ks maxnconn v ]
]

abbrev pub maxfiles : ℕ
maxfiles = 20

abbrev pub file_of : Bytes → File
file_of name = record { f_name = name; f_fd = 0; f_flags = idle }

-- `main` before its loop, behind `home_page`, with the names on the command line
unfoldable pub start : List Bytes → Web
start names =
    let files = map file_of (take maxfiles names) in
    record {
      files = files;
      net = record {
        nconn = 0;
        nlefttoconn = length files;
        nlefttoread = length files;
        nfds = 0;
        rset = λ fd. false;
        wset = λ fd. false;
        sent = [];
      };
    }
