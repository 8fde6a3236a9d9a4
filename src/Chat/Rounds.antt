-- ===== src/Chat/Rounds.antt =====
-- Rounds of chatLoop in Lab3/chatserver.c that stay inside the arrays, and those that do not.
use cosc.Prelude.{
  ℕ, zero, suc, ◌+◌, ◌≤◌, ◌<◌, ◌≡◌, refl, sym, ap, ◌∙◌, Bool, true, false, Option, none, some, [],
  ◌∷◌, ◌++◌, arith, length, Bytes, lt→ltb, Bool-cases, none_some, ◌⊎◌, inl, inr, drop, starts_with,
  until_nul, drop_last-append, ◌↔◌, ltb-false,
}
use cosc.Chat.{
  Chat, Net, name_size, max_chats, buff_size, process, remove_chatter, name_at, fd_at, emit, print,
  change_name,
}
use native.Mathlib.Decide.{dec_lt}
use cosc.Chat.{
  message_of, closing, on_read, serve_one, serve_from, admit, admit_if, ready_in, round, joins,
}
use cosc.Chat.Tables.{erase_at}
use cosc.Chat.Valid.{IsValid, emit-IsValid, name_at-fits}
use cosc.Chat.Roster.{roster}
use cosc.Chat.Effects.{
  process-broadcast, process-rename, process-rename_overflow, process-broadcast_overflow,
  add_chatter_lem, add_chatter_full, remove_chatter_lem,
}
use cosc.Chat.Keeps.{serve_one-Keeps, serve_from-Keeps}

-- What a read must be for `processChat` to stay inside its arrays.
pub record MessageFits (bytes : Bytes) : Type 0 where
  pub short_name :
      starts_with change_name (message_of bytes) ≡ true
      → length (drop (length change_name) (message_of bytes)) ≤ name_size
  pub short_text :
      starts_with change_name (message_of bytes) ≡ false
      → length (message_of bytes) + (name_size + 3) < buff_size

-- The last byte of a read is overwritten by the NUL.
pub message_of-append :
    (text : Bytes) (c : ℕ) → until_nul text ≡ text → message_of (text ++ (c ∷ [])) ≡ text
message_of-append text c h = ap until_nul (drop_last-append text c) ∙ h

abbrev Returns : Option Chat → Type 0
Returns o = (t : Chat) × (o ≡ some t)

-- A string that processChat is given runs out of its arrays exactly when it asks for a name of more
-- than `name_size` bytes, or is another message that does not fit the buffer with the sender's name.
pub process-none_iff :
    (i : ℕ) (text : Bytes) (s : Chat)
    → IsValid s
    → i < s.num
    → (process i text s ≡ none) ↔ (
        ((starts_with change_name text ≡ true)
          × (name_size < length (drop (length change_name) text)))
        ⊎ ((starts_with change_name text ≡ false)
            × (buff_size ≤ length (name_at s i) + length text + 3)))
process-none_iff i text s v h = (
  forward (Bool-cases (starts_with change_name text)),
  λ e. elim e [
    | inl (command, long) ↦ process-rename_overflow i text s command long
    | inr (plain, long) ↦ process-broadcast_overflow i text s plain long
  ],
)
  where
    forward :
        (starts_with change_name text ≡ true) ⊎ (starts_with change_name text ≡ false)
        → process i text s ≡ none
        → ((starts_with change_name text ≡ true)
            × (name_size < length (drop (length change_name) text)))
          ⊎ ((starts_with change_name text ≡ false)
              × (buff_size ≤ length (name_at s i) + length text + 3))
    forward (inl command) e = elim (dec_lt name_size (length (drop (length change_name) text))) [
      | yes long ↦ inl (command, long)
      | no fits ↦
          let r = process-rename i _ text s v h command refl (omega arith) in
          none_some (sym e ∙ r.1)
    ]
    forward (inr plain) e = elim (dec_lt (length (name_at s i) + length text + 3) buff_size) [
      | yes fits ↦ none_some (sym e ∙ process-broadcast i text s v h plain fits)
      | no long ↦ inr (plain, omega arith)
    ]

process-total :
    (i : ℕ) (bytes : Bytes) (s : Chat)
    → IsValid s
    → i < s.num
    → MessageFits bytes
    → Returns (process i (message_of bytes) s)
process-total i bytes s v h m = elim (Bool-cases (starts_with change_name (message_of bytes))) [
  | inl command ↦
      let r = process-rename i _ (message_of bytes) s v h command refl (m.short_name command) in
      (r.0, r.1)
  | inr plain ↦ (
    _,
    process-broadcast i (message_of bytes) s v h plain
        (omega (arith, m.short_text plain, name_at-fits s i v)),
  )
]

on_read-total :
    (net : Net) (i : ℕ) (bytes : Bytes) (s : Chat)
    → IsValid s
    → i < s.num
    → MessageFits bytes
    → Returns (on_read net i bytes s)
unfolding on_read
on_read-total net i [] s v h m = (_, refl)
on_read-total net i (c ∷ cs) s v h m = process-total i (c ∷ cs) s v h m

serve_one-total :
    (net : Net) (ready : ℕ → Bool) (i : ℕ) (s : Chat)
    → IsValid s
    → i < s.num
    → MessageFits (net.received (fd_at s i))
    → Returns (serve_one net ready i s)
unfolding serve_one
serve_one-total net ready i s v h m = elim (Bool-cases (ready (fd_at s i))) [
  | inl e ↦ rw e (on_read-total net i _ s v h m)
  | inr e ↦ rw e (s, refl)
]

serve_one_leaves :
    (net : Net) (ready : ℕ → Bool) (i : ℕ) (s : Chat)
    → ready (fd_at s i) ≡ true
    → net.received (fd_at s i) ≡ []
    → serve_one net ready i s ≡ some (remove_chatter net i (emit (print (closing (fd_at s i))) s))
unfolding serve_one on_read
serve_one_leaves net ready i s r e = rw (r, e)

serve_from-total :
    (net : Net) (ready : ℕ → Bool) (f i : ℕ) (s : Chat)
    → ((fd : ℕ) → MessageFits (net.received fd))
    → IsValid s
    → s.num ≤ i + f
    → Returns (serve_from net ready f i s)
unfolding serve_from
serve_from-total net ready zero i s m v h = rw (ltb-false i s.num (omega arith)) (s, refl)
serve_from-total net ready (suc f) i s m v h = elim (dec_lt i s.num) [
  | yes p ↦
      let r = serve_one-total net ready i s v p (m (fd_at s i)) in
      let k = serve_one-Keeps net ready i s v r.1 in
      let q = serve_from-total net ready f (i + 1) r.0 m k.0 (omega arith) in
      (q.0, rw (lt→ltb i s.num p, serve_from) (rw r.1 q.1))
  | no p ↦ (s, rw (ltb-false i s.num (omega arith), serve_from))
]

admit_full : (net : Net) (s : Chat) → s.num ≡ max_chats → admit net s ≡ none
unfolding admit
admit_full net s e =
    let u = emit (print (joins (net.peer_ip net.accepted) (net.peer_port net.accepted))) s in
    rw (ltb-false max_chats s.num (omega arith)) (add_chatter_full net.accepted u (omega arith))

admit_if-total :
    (b : Bool) (net : Net) (s : Chat)
    → IsValid s
    → (b ≡ true → s.num < max_chats)
    → (t : Chat) × (admit_if b net s ≡ some t) × IsValid t
unfolding admit_if admit
admit_if-total false net s v free = (s, refl, v)
admit_if-total true net s v free =
    let u = emit (print (joins (net.peer_ip net.accepted) (net.peer_port net.accepted))) s in
    let r = add_chatter_lem net.accepted u (emit-IsValid _ s v) (free refl) in
    (r.0, rw (ltb-false max_chats s.num v.seats) r.1, r.2)

-- On valid tables a round serves whatever the kernel answers without a write outside an array, and
-- leaves valid tables, if what is read fits, and if a seat is free when a connection is ready.
pub round_total :
    (listen : ℕ) (net : Net) (s : Chat)
    → ((fd : ℕ) → MessageFits (net.received fd))
    → IsValid s
    → (ready_in listen net s listen ≡ true → s.num < max_chats)
    → (t : Chat) × (round listen net s ≡ some t) × IsValid t
unfolding round
round_total listen net s m v free =
    let ready = ready_in listen net s in
    let r = admit_if-total (ready listen) net s v free in
    let q = serve_from-total net ready r.0.num 0 r.0 m r.2 (omega arith) in
    let k = serve_from-Keeps net ready r.0.num 0 r.0 r.2 q.1 in (q.0, rw r.1 q.1, k.0)

-- With every seat taken, a round in which a connection is ready makes the server write behind its
-- tables: CHAT_FULL is not sent.
pub round_full :
    (listen : ℕ) (net : Net) (s : Chat)
    → s.num ≡ max_chats
    → ready_in listen net s listen ≡ true
    → round listen net s ≡ none
unfolding round admit_if
round_full listen net s e r = rw (r, admit_full net s e)

-- When a chatter leaves in the second loop of a round, the next chatter takes its seat and is passed
-- over: the loop goes on behind it, so what that chatter sent is not read in this round.
pub serve_from_skips :
    (net : Net) (ready : ℕ → Bool) (f i : ℕ) (s : Chat)
    → IsValid s
    → i < s.num
    → ready (fd_at s i) ≡ true
    → net.received (fd_at s i) ≡ []
    → (t : Chat) × (serve_from net ready (suc f) i s ≡ serve_from net ready f (i + 1) t)
      × (roster t ≡ erase_at i (roster s))
unfolding serve_from
serve_from_skips net ready f i s v h r e =
    let u = emit (print (closing (fd_at s i))) s in
    let left : serve_one net ready i s ≡ some (remove_chatter net i u) =
      serve_one_leaves net ready i s r e in
    (
      remove_chatter net i u,
      rw (lt→ltb i s.num h, serve_from) (rw left),
      (remove_chatter_lem net i u (emit-IsValid _ s v) h).0,
    )
