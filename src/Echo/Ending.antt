-- ===== src/Echo/Ending.antt =====
-- Every session of str_cli and str_echo ends, with all that was typed shown.
use cosc.Prelude.{
  ℕ, ◌+◌, ◌*◌, ◌≤◌, ◌<◌, ◌≡◌, ◌⊎◌, inl, inr, refl, ap, sym, ◌∙◌, Bool, true, false, not,
  if◌then◌else◌, some, [], ◌∷◌, ◌++◌, length, length-append, length-take, length-drop, take, drop,
  Bytes, arith, Bool-cases, append-nil,
}
use mathlib.Core.Path.{ap₂, subst}
use cosc.Echo.{
  Got, got, eof, Client, runs, returned, quits, Session, start, read_socket, read_stdin, str_cli,
  str_echo, Gives, Step, socket, stdin, both, server, Run, here, next,
}
use cosc.Echo.Order.{IsSession, IsOver, IsEnded, IsRead, Run-IsSession, str_cli-both, socket_eof}

-- How much there is still to do: each byte is to be read three times, and each program is to end.
abbrev flag : Bool → ℕ
flag true = 1
flag false = 0

abbrev in_loop : Client → ℕ
in_loop runs = 1
in_loop returned = 0
in_loop quits = 0

abbrev weight : Session → ℕ
weight s =
    3 * length s.input
    + 2 * length s.up
    + length s.down
    + flag (not s.stdineof)
    + flag s.echoing
    + in_loop s.client

read_socket-weight :
    {typed : Bytes} (g : Got) (s : Session)
    → IsSession typed s
    → s.client ≡ runs
    → Gives g s.down (not s.echoing)
    → weight (read_socket g s) < weight s
unfolding read_socket
read_socket-weight (got n) s v r g = omega (arith, length-drop n s.down, g)
read_socket-weight {typed} eof s v r g =
    let e = ap (λ b. in_loop (if b then returned else quits)) (socket_eof typed s v g) in
    omega (arith, e, ap in_loop r)

read_stdin-weight :
    (i : Got) (s : Session)
    → s.stdineof ≡ false
    → Gives i s.input true
    → weight (read_stdin i s) < weight s
unfolding read_stdin
read_stdin-weight (got n) s o h =
    omega
      (arith, length-drop n s.input, length-take n s.input, length-append s.up (take n s.input), h)
read_stdin-weight eof s o h = omega (arith, ap (λ b. flag (not b)) o)

str_echo-weight :
    (g : Got) (s : Session)
    → s.echoing ≡ true
    → Gives g s.up s.stdineof
    → weight (str_echo g s) < weight s
unfolding str_echo
str_echo-weight (got n) s e h =
    omega (arith, length-drop n s.up, length-take n s.up, length-append s.down (take n s.up), h)
str_echo-weight eof s e h = omega (arith, ap flag e)

both-weight :
    (n : ℕ) (i : Got) (s : Session)
    → s.client ≡ runs
    → s.stdineof ≡ false
    → (1 ≤ n) × (n ≤ length s.down)
    → Gives i s.input true
    → weight (str_cli (some (got n)) (some i) s) < weight s
unfolding read_socket
both-weight n i s r o h k =
    let t : Session = record s { down = drop n s.down; shown = s.shown ++ take n s.down } in
    let a : weight (read_stdin i t) < weight t = read_stdin-weight i t o k in
    let b : weight t < weight s = omega (arith, length-drop n s.down, h) in
    let e : weight (str_cli (some (got n)) (some i) s) ≡ weight (read_stdin i t) =
      ap weight (str_cli-both n i s r) in
    omega (arith, a, b, e)

Step-weight : {typed : Bytes} {s t : Session} → Step s t → IsSession typed s → weight t < weight s
unfolding str_cli
Step-weight {typed} {s} (socket g r h) v = read_socket-weight g s v r h
Step-weight {typed} {s} (stdin i r o h) v = read_stdin-weight i s o h
Step-weight {typed} {s} (both (got n) i r o h k) v = both-weight n i s r o (h.0, h.1) k
Step-weight {typed} {s} (both eof i r o h k) v = absurd (let e = socket_eof typed s v h in cc)
Step-weight {typed} {s} (server g e h) v = str_echo-weight g s e h

Run-weight :
    (typed : Bytes) {n : ℕ} {s : Session}
    → Run (start typed) n s
    → n + weight s ≤ 3 * length typed + 3
unfolding start
Run-weight typed here = omega arith
Run-weight typed (next r step) =
    let a = Run-weight typed r in let b = Step-weight step (Run-IsSession typed r) in omega arith

-- A read of a stream can give something.
first_byte : (bytes : Bytes) → (Gives (got 1) bytes true) ⊎ (bytes ≡ [])
first_byte [] = inr refl
first_byte (c ∷ bytes) = inl (omega arith)

progress :
    (typed : Bytes) (s : Session) → IsSession typed s → s.client ≡ runs → (t : Session) × Step s t
progress typed s v r = elim (Bool-cases s.echoing) [
  | inl e ↦ elim (first_byte s.up) [
    | inl g ↦ (_, server (got 1) e g)
    | inr z ↦ elim (Bool-cases s.stdineof) [
      | inl f ↦ (_, server eof e (z, f))
      | inr f ↦ elim (first_byte s.input) [
        | inl g ↦ (_, stdin (got 1) r f g)
        | inr y ↦ (_, stdin eof r f (y, refl))
      ]
    ]
  ]
  | inr e ↦ elim (first_byte s.down) [
    | inl g ↦ (_, socket (got 1) r g)
    | inr z ↦ (_, socket eof r (z, ap not e))
  ]
]

all_shown :
    (typed : Bytes) (s : Session)
    → IsSession typed s
    → (s.down ≡ []) × (s.echoing ≡ false)
    → s.shown ≡ typed
all_shown typed s v d =
    let (up, eof_in) = subst (λ b. IsEnded b s.up s.stdineof) d.1 v.is_ended in
    let input = subst (λ b. IsRead b s.input) eof_in v.is_read in
    sym (append-nil s.shown)
    ∙ ap (◌++◌ s.shown) (sym (ap₂ (◌++◌) d.0 (ap₂ (◌++◌) up input)))
    ∙ v.in_order

-- What a session comes to, by where its client is.
abbrev pub Goes : Client → Bytes → Session → Type 0
Goes runs typed s = (t : Session) × Step s t
Goes returned typed s = s.shown ≡ typed
Goes quits typed s = ⊥

goes_on :
    (typed : Bytes) (s : Session) → IsSession typed s → (c : Client) → s.client ≡ c → Goes c typed s
goes_on typed s v runs e = progress typed s v e
goes_on typed s v returned e =
    all_shown typed s v (subst (λ c. IsOver c s.down s.echoing) e v.is_over)
goes_on typed s v quits e = subst (λ c. IsOver c s.down s.echoing) e v.is_over

-- Every session of the client and the server ends: it has at most three steps for each byte that is typed
-- and three more, it can go on as long as the client is in its loop, and when the client has returned all
-- that was typed is shown; the client never comes to err_quit.
pub session_ends :
    (typed : Bytes) {n : ℕ} {s : Session}
    → Run (start typed) n s
    → (n ≤ 3 * length typed + 3) × Goes s.client typed s
session_ends typed {n} {s} r = (
  let w = Run-weight typed r in omega arith,
  goes_on typed s (Run-IsSession typed r) s.client refl,
)
