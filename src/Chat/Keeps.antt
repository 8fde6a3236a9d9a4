-- ===== src/Chat/Keeps.antt =====
-- The invariant of the tables of Lab3/chatserver.c outlives every step of chatLoop.
use cosc.Prelude.{
  ℕ, zero, suc, ◌+◌, ◌≤◌, ◌<◌, ◌≡◌, refl, sym, ap, ◌∙◌, Bool, true, false, some, List, [], ◌∷◌,
  arith, length, set, Bytes, ◌==◌, ltb, Bool-cases, >>=-eq-some, some_inj, none_some, inl, inr,
  starts_with, ltb-false,
}
use cosc.Chat.{
  Chat, Net, start, name_size, max_chats, copy_name, send_from, rename, broadcast, process, name_at,
  fd_at, emit, write, print, change_name, renamed, signed,
}
use mathlib.Core.Path.{subst}
use native.Mathlib.Decide.{dec_lt}
use cosc.Chat.{
  sprintf, closing, on_read, serve_one, serve_from, admit, admit_if, ready_in, round, chat_loop,
  joins,
}
use cosc.Chat.Valid.{
  IsValid, set_name-IsValid, emit-IsValid, remove_chatter-IsValid, num-remove_chatter,
  start-IsValid,
}
use cosc.Chat.Effects.{add_chatter_lem, add_chatter_full, num-add_chatter}

copy_name-eq_some :
    (i : ℕ) (name : Bytes) (s : Chat) {t : Chat}
    → copy_name i name s ≡ some t
    → (length name ≤ name_size) × (t ≡ record s { names = set s.names i name })
unfolding copy_name
copy_name-eq_some i name s h = ground arith

num-send_from : (n j i : ℕ) (text : Bytes) (s : Chat) → (send_from n j i text s).num ≡ s.num
unfolding send_from
num-send_from zero j i text s = refl
num-send_from (suc n) j i text s = elim (Bool-cases (j == i)) [
  | inl e ↦ rw (e, send_from) (num-send_from n (j + 1) i text s)
  | inr e ↦ rw (e, send_from) (num-send_from n (j + 1) i text (emit (write (fd_at s j) text) s))
]

send_from-IsValid :
    (n j i : ℕ) (text : Bytes) (s : Chat) → IsValid s → IsValid (send_from n j i text s)
unfolding send_from
send_from-IsValid zero j i text s v = v
send_from-IsValid (suc n) j i text s v = elim (Bool-cases (j == i)) [
  | inl e ↦ rw (e, send_from) (send_from-IsValid n (j + 1) i text s v)
  | inr e ↦ rw (e, send_from) (send_from-IsValid n (j + 1) i text _ (emit-IsValid _ s v))
]

-- A step leaves the tables valid and takes no seat.
abbrev pub Keeps : Chat → Chat → Type 0
Keeps s t = IsValid t × (t.num ≤ s.num)

rename-Keeps :
    (i : ℕ) (name : Bytes) (s : Chat) {t : Chat} → IsValid s → rename i name s ≡ some t → Keeps s t
unfolding rename
rename-Keeps i name s v h =
    let r = >>=-eq-some (copy_name i name s) _ h in
    let q = >>=-eq-some (sprintf (renamed (name_at r.0 i))) _ r.2 in
    let c = copy_name-eq_some i name s r.1 in
    let w : IsValid r.0 = subst IsValid (sym c.1) (set_name-IsValid i name s c.0 v) in
    let n : r.0.num ≡ s.num = ap (λ u. u.num) c.1 in
    subst (Keeps s) (some_inj q.2) (emit-IsValid _ r.0 w, omega arith)

broadcast-Keeps :
    (i : ℕ) (text : Bytes) (s : Chat) {t : Chat}
    → IsValid s
    → broadcast i text s ≡ some t
    → Keeps s t
unfolding broadcast
broadcast-Keeps i text s v h =
    let q = >>=-eq-some (sprintf (signed (name_at s i) text)) _ h in
    subst (Keeps s) (some_inj q.2)
      (send_from-IsValid s.num 0 i _ s v, omega (arith, num-send_from s.num 0 i q.0 s))

pub process-Keeps :
    (i : ℕ) (text : Bytes) (s : Chat) {t : Chat} → IsValid s → process i text s ≡ some t → Keeps s t
unfolding process
process-Keeps i text s v h = elim (Bool-cases (starts_with change_name text)) [
  | inl command ↦ rename-Keeps i _ s v (rw command at h)
  | inr plain ↦ broadcast-Keeps i text s v (rw plain at h)
]

pub on_read-Keeps :
    (net : Net) (i : ℕ) (bytes : Bytes) (s : Chat) {t : Chat}
    → IsValid s
    → on_read net i bytes s ≡ some t
    → Keeps s t
unfolding on_read
on_read-Keeps net i [] s v h =
    let u = emit (print (closing (fd_at s i))) s in
    subst (Keeps s) (some_inj h) (
      remove_chatter-IsValid net i u (emit-IsValid _ s v),
      omega (arith, num-remove_chatter net i u),
    )
on_read-Keeps net i (c ∷ cs) s v h = process-Keeps i _ s v h

pub serve_one-Keeps :
    (net : Net) (ready : ℕ → Bool) (i : ℕ) (s : Chat) {t : Chat}
    → IsValid s
    → serve_one net ready i s ≡ some t
    → Keeps s t
unfolding serve_one
serve_one-Keeps net ready i s v h = elim (Bool-cases (ready (fd_at s i))) [
  | inl e ↦ on_read-Keeps net i _ s v (rw e at h)
  | inr e ↦ subst (Keeps s) (some_inj (rw e at h)) (v, omega arith)
]

pub serve_from-Keeps :
    (net : Net) (ready : ℕ → Bool) (f i : ℕ) (s : Chat) {t : Chat}
    → IsValid s
    → serve_from net ready f i s ≡ some t
    → Keeps s t
unfolding serve_from
serve_from-Keeps net ready zero i s v h = elim (Bool-cases (ltb i s.num)) [
  | inl e ↦ none_some (rw e at h)
  | inr e ↦ subst (Keeps s) (some_inj (rw e at h)) (v, omega arith)
]
serve_from-Keeps net ready (suc f) i s v h = elim (Bool-cases (ltb i s.num)) [
  | inl e ↦
      let r = >>=-eq-some (serve_one net ready i s) _ (rw (e, serve_from) at h) in
      let k = serve_one-Keeps net ready i s v r.1 in
      let m = serve_from-Keeps net ready f (i + 1) r.0 k.0 r.2 in (m.0, omega arith)
  | inr e ↦ subst (Keeps s) (some_inj (rw (e, serve_from) at h)) (v, omega arith)
]

-- A connection that is let in finds a free seat: with none the server writes behind its tables.
pub admit-eq_some :
    (net : Net) (s : Chat) {t : Chat}
    → IsValid s
    → admit net s ≡ some t
    → (s.num < max_chats) × IsValid t × (t.num ≡ s.num + 1)
unfolding admit
admit-eq_some net s {t} v h = elim (dec_lt s.num max_chats) [
  | yes free ↦
      let u = emit (print (joins (net.peer_ip net.accepted) (net.peer_port net.accepted))) s in
      let r = add_chatter_lem net.accepted u (emit-IsValid _ s v) free in
      let same : r.0 ≡ t = some_inj (sym r.1 ∙ rw (ltb-false max_chats s.num v.seats) at h) in
      (
        free,
        subst IsValid same r.2,
        ap (λ x. x.num) (sym same) ∙ num-add_chatter net.accepted u r.1,
      )
  | no full ↦ none_some (
      sym (add_chatter_full net.accepted _ (omega arith))
      ∙ rw (ltb-false max_chats s.num v.seats) at h)
]

pub admit_if-IsValid :
    (b : Bool) (net : Net) (s : Chat) {t : Chat} → IsValid s → admit_if b net s ≡ some t → IsValid t
unfolding admit_if
admit_if-IsValid true net s v h = (admit-eq_some net s v h).1
admit_if-IsValid false net s v h = subst IsValid (some_inj h) v

pub round-IsValid :
    (listen : ℕ) (net : Net) (s : Chat) {t : Chat}
    → IsValid s
    → round listen net s ≡ some t
    → IsValid t
unfolding round
round-IsValid listen net s v h =
    let r = >>=-eq-some (admit_if (ready_in listen net s listen) net s) _ h in
    (serve_from-Keeps net _ r.0.num 0 r.0 (admit_if-IsValid _ net s v r.1) r.2).0

chat_loop-IsValid_from :
    (listen : ℕ) (nets : List Net) (s : Chat) {t : Chat}
    → IsValid s
    → chat_loop listen nets s ≡ some t
    → IsValid t
unfolding chat_loop
chat_loop-IsValid_from listen [] s v h = subst IsValid (some_inj h) v
chat_loop-IsValid_from listen (net ∷ nets) s v h =
    let r = >>=-eq-some (round listen net s) _ h in
    chat_loop-IsValid_from listen nets r.0 (round-IsValid listen net s v r.1) r.2

-- Whatever the kernel answers, the tables are valid after every number of rounds that wrote inside the
-- arrays: at most `max_chats` seats are taken, and every name fits its row.
pub chat_loop-IsValid :
    (listen : ℕ) (nets : List Net) {t : Chat} → chat_loop listen nets start ≡ some t → IsValid t
chat_loop-IsValid listen nets h = chat_loop-IsValid_from listen nets start start-IsValid h
