-- ===== src/Chat/Roster.antt =====
-- The tables of Lab3/chatserver.c as what they stand for, the chatters in order of their seats, and
-- what each function of the server does to that list.
use cosc.Prelude.{
  ℕ, zero, suc, ◌+◌, ◌≤◌, ◌<◌, ◌≡◌, refl, ap, ◌∙◌, List, [], ◌∷◌, ◌++◌, arith, length, set, take,
  append-nil, append_assoc, Bytes, codes, drop, length-take, ==_false, ==_true,
}
use cosc.Chat.{
  Chat, Action, max_chats, send_from, list_names, compress, name_at, fd_at, emit, write,
}
use native.Mathlib.Numerals.{add-one}
use cosc.Chat.Tables.{erase_at, shift, take-shift, take-drop-suc}
use cosc.Chat.Valid.{IsValid, emit-IsValid}

pub record Chatter : Type 0 where
  pub fd : ℕ
  pub name : Bytes

abbrev pub chatter : ℕ → Bytes → Chatter
chatter f n = record { fd = f; name = n }

abbrev pub pair_up : List ℕ → List Bytes → List Chatter
pair_up [] ns = []
pair_up (f ∷ fs) [] = []
pair_up (f ∷ fs) (n ∷ ns) = chatter f n ∷ pair_up fs ns

abbrev pub roster : Chat → List Chatter
roster s = pair_up (take s.num s.fds) (take s.num s.names)

-- The `n` chatters from seat `j` on.
abbrev pub seated : ℕ → ℕ → Chat → List Chatter
seated n j s = pair_up (take n (drop j s.fds)) (take n (drop j s.names))

pub seated-suc :
    (n j : ℕ) (s : Chat)
    → IsValid s
    → j + suc n ≤ max_chats
    → seated (suc n) j s ≡ chatter (fd_at s j) (name_at s j) ∷ seated n (suc j) s
seated-suc n j s v h = rw (
  take-drop-suc n j s.fds 0 (omega (arith, v.fds_room)),
  take-drop-suc n j s.names [] (omega (arith, v.names_room)),
)

pub pair_up-append :
    (fs : List ℕ) (ns : List Bytes) (f : ℕ) (n : Bytes)
    → length fs ≡ length ns
    → pair_up (fs ++ (f ∷ [])) (ns ++ (n ∷ [])) ≡ pair_up fs ns ++ (chatter f n ∷ [])
pair_up-append [] [] f n h = refl
pair_up-append [] (m ∷ ns) f n h = absurd (omega arith)
pair_up-append (g ∷ fs) [] f n h = absurd (omega arith)
pair_up-append (g ∷ fs) (m ∷ ns) f n h =
    ap (◌∷◌ (chatter g m)) (pair_up-append fs ns f n (omega arith))

pub pair_up-erase_at :
    (i : ℕ) (fs : List ℕ) (ns : List Bytes)
    → length fs ≡ length ns
    → pair_up (erase_at i fs) (erase_at i ns) ≡ erase_at i (pair_up fs ns)
pair_up-erase_at i [] [] h = refl
pair_up-erase_at i [] (m ∷ ns) h = absurd (omega arith)
pair_up-erase_at i (g ∷ fs) [] h = absurd (omega arith)
pair_up-erase_at zero (g ∷ fs) (m ∷ ns) h = refl
pair_up-erase_at (suc i) (g ∷ fs) (m ∷ ns) h =
    ap (◌∷◌ (chatter g m)) (pair_up-erase_at i fs ns (omega arith))

abbrev pub call : Bytes → Chatter → Chatter
call name c = record c { name = name }

-- The list with the name at an index changed.
abbrev pub rename_at : ℕ → Bytes → List Chatter → List Chatter
rename_at i name [] = []
rename_at zero name (c ∷ cs) = call name c ∷ cs
rename_at (suc i) name (c ∷ cs) = c ∷ rename_at i name cs

pub pair_up-set :
    (i : ℕ) (fs : List ℕ) (ns : List Bytes) (name : Bytes)
    → pair_up fs (set ns i name) ≡ rename_at i name (pair_up fs ns)
pair_up-set i [] ns name = refl
pair_up-set i (f ∷ fs) [] name = refl
pair_up-set zero (f ∷ fs) (n ∷ ns) name = refl
pair_up-set (suc i) (f ∷ fs) (n ∷ ns) name = ap (◌∷◌ (chatter f n)) (pair_up-set i fs ns name)

compress-shift :
    (n k : ℕ) (s : Chat)
    → compress n k s ≡ record s { fds = shift n k 0 s.fds; names = shift n k [] s.names }
unfolding compress
compress-shift zero k s = refl
compress-shift (suc n) k s = compress-shift n (k + 1) _

-- The loop of `remove_chatter` on a valid table.
pub roster-compress :
    (n i m : ℕ) (s : Chat)
    → IsValid s
    → m ≡ i + n
    → s.num ≡ suc m
    → pair_up (take m (compress n i s).fds) (take m (compress n i s).names) ≡ erase_at i (roster s)
roster-compress n i m s v k e =
    rw
      (
        compress-shift n i s,
        take-shift n i m 0 s.fds k (omega (arith, v.fds_room, v.seats)),
        take-shift n i m [] s.names k (omega (arith, v.names_room, v.seats)),
        e,
      )
      (pair_up-erase_at i (take (suc m) s.fds) (take (suc m) s.names) (
        omega (
          arith,
          length-take (suc m) s.fds,
          length-take (suc m) s.names,
          v.fds_room,
          v.names_room,
        )))

-- The text that `addChatter` sends names the chatters of a list.
abbrev pub names_of : List Chatter → Bytes
names_of [] = []
names_of (c ∷ cs) = c.name ++ (codes " " ++ names_of cs)

pub list_names-seated :
    (n j : ℕ) (s : Chat)
    → IsValid s
    → j + n ≤ max_chats
    → list_names n j s ≡ names_of (seated n j s)
unfolding list_names
list_names-seated zero j s v h = refl
list_names-seated (suc n) j s v h =
    let tail : list_names n (suc j) s ≡ names_of (seated n (suc j) s) =
      list_names-seated n (suc j) s v (omega arith) in
    rw (seated-suc n j s v (omega arith), add-one, tail)

-- What each chatter of a list but the one at an index is sent.
abbrev pub posts : Bytes → List Chatter → List Action
posts text [] = []
posts text (c ∷ cs) = write c.fd text ∷ posts text cs

abbrev pub add_out : List Action → Chat → Chat
add_out new s = record s { out = s.out ++ new }

send_from-above :
    (n j i : ℕ) (text : Bytes) (s : Chat)
    → IsValid s
    → i < j
    → j + n ≤ max_chats
    → send_from n j i text s ≡ add_out (posts text (seated n j s)) s
unfolding send_from
send_from-above zero j i text s v l h = rw append-nil
send_from-above (suc n) j i text s v l h =
    let t = emit (write (fd_at s j) text) s in
    let rest =
      send_from-above n (suc j) i text t (emit-IsValid _ s v) (omega arith) (omega arith) in
    rw (==_false j i (omega arith), add-one, seated-suc n j s v h)
      (rest ∙ ap (λ o. record s { out = o }) (append_assoc s.out _ _))

pub send_from-seated :
    (n j i k : ℕ) (text : Bytes) (s : Chat)
    → IsValid s
    → k ≡ j + i
    → j + n ≤ max_chats
    → send_from n j k text s ≡ add_out (posts text (erase_at i (seated n j s))) s
unfolding send_from
send_from-seated zero j i k text s v e h = rw append-nil
send_from-seated (suc n) j zero k text s v e h =
    rw (==_true j k (omega arith), add-one, seated-suc n j s v h)
      (send_from-above n (suc j) k text s v (omega arith) (omega arith))
send_from-seated (suc n) j (suc i) k text s v e h =
    let t = emit (write (fd_at s j) text) s in
    let rest =
      send_from-seated n (suc j) i k text t (emit-IsValid _ s v) (omega arith) (omega arith) in
    rw (==_false j k (omega arith), add-one, seated-suc n j s v h)
      (rest ∙ ap (λ o. record s { out = o }) (append_assoc s.out _ _))
