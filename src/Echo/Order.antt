-- ===== src/Echo/Order.antt =====
-- What is typed comes back whole and in order.
use cosc.Prelude.{
  ℕ, ◌≡◌, refl, ap, sym, ◌∙◌, Bool, true, false, not, some, [], ◌++◌, take, drop, take-append-drop,
  append_assoc, Bytes, if◌then◌else◌,
}
use mathlib.Core.Path.{subst}
use cosc.Echo.{
  Got, got, eof, Client, runs, returned, quits, Session, start, read_socket, read_stdin, str_cli,
  str_echo, Gives, Step, socket, stdin, both, server, Run, here, next,
}

abbrev pub IsOver : Client → Bytes → Bool → Type 0
IsOver runs down echoing = Unit
IsOver returned down echoing = (down ≡ []) × (echoing ≡ false)
IsOver quits down echoing = ⊥

abbrev pub IsEnded : Bool → Bytes → Bool → Type 0
IsEnded true up stdineof = Unit
IsEnded false up stdineof = (up ≡ []) × (stdineof ≡ true)

abbrev pub IsRead : Bool → Bytes → Type 0
IsRead false input = Unit
IsRead true input = input ≡ []

-- What was shown, is on its way and is still to come is what was typed. At the end of the input none of it
-- is left; the server ends when it has echoed all; the client returns when it has shown all.
pub record IsSession (typed : Bytes) (s : Session) : Type 0 where
  pub in_order : s.shown ++ (s.down ++ (s.up ++ s.input)) ≡ typed
  pub is_read : IsRead s.stdineof s.input
  pub is_ended : IsEnded s.echoing s.up s.stdineof
  pub is_over : IsOver s.client s.down s.echoing

pub start-IsSession : (typed : Bytes) → IsSession typed (start typed)
unfolding start
start-IsSession typed = record { in_order = refl; is_read = tt; is_ended = tt; is_over = tt }

-- Bytes that move on keep their place.
moved : (a b c : Bytes) (n : ℕ) → (a ++ take n b) ++ (drop n b ++ c) ≡ a ++ (b ++ c)
moved a b c n =
    append_assoc a (take n b) (drop n b ++ c)
    ∙ ap (◌++◌ a)
        (sym (append_assoc (take n b) (drop n b) c) ∙ ap (λ x. x ++ c) (take-append-drop n b))

moved_last : (a b : Bytes) (n : ℕ) → (a ++ take n b) ++ drop n b ≡ a ++ b
moved_last a b n = append_assoc a (take n b) (drop n b) ∙ ap (◌++◌ a) (take-append-drop n b)

not-true : (b : Bool) → not b ≡ true → b ≡ false
not-true true e = cc
not-true false e = refl

-- The end of the stream from the server comes behind that of the input.
pub socket_eof :
    (typed : Bytes) (s : Session)
    → IsSession typed s
    → Gives eof s.down (not s.echoing)
    → s.stdineof ≡ true
socket_eof typed s v g =
    (subst (λ b. IsEnded b s.up s.stdineof) (not-true s.echoing g.1) v.is_ended).1

read_socket-IsSession :
    (typed : Bytes) (g : Got) (s : Session)
    → s.client ≡ runs
    → IsSession typed s
    → Gives g s.down (not s.echoing)
    → IsSession typed (read_socket g s)
unfolding read_socket
read_socket-IsSession typed (got n) s r v g = record {
  in_order = moved s.shown s.down (s.up ++ s.input) n ∙ v.in_order;
  is_read = v.is_read;
  is_ended = v.is_ended;
  is_over = subst (λ c. IsOver c (drop n s.down) s.echoing) (sym r) tt;
}
read_socket-IsSession typed eof s r v g = record {
  in_order = v.in_order;
  is_read = v.is_read;
  is_ended = v.is_ended;
  is_over =
      subst (λ b. IsOver (if b then returned else quits) s.down s.echoing)
        (sym (socket_eof typed s v g)) (g.0, not-true s.echoing g.1);
}

-- The server does not end before the client has read all of its input.
still_echoing :
    (b : Bool) (up : Bytes) (stdineof : Bool) → IsEnded b up stdineof → stdineof ≡ false → b ≡ true
still_echoing true up stdineof e f = refl
still_echoing false up stdineof e f = cc

read_stdin-IsSession :
    (typed : Bytes) (i : Got) (s : Session)
    → s.client ≡ runs
    → s.stdineof ≡ false
    → IsSession typed s
    → Gives i s.input true
    → IsSession typed (read_stdin i s)
unfolding read_stdin
read_stdin-IsSession typed (got n) s r o v i = record {
  in_order = ap (λ l. s.shown ++ (s.down ++ l)) (moved_last s.up s.input n) ∙ v.in_order;
  is_read = subst (λ b. IsRead b (drop n s.input)) (sym o) tt;
  is_ended =
      subst (λ b. IsEnded b (s.up ++ take n s.input) s.stdineof)
        (sym (still_echoing s.echoing s.up s.stdineof v.is_ended o)) tt;
  is_over = v.is_over;
}
read_stdin-IsSession typed eof s r o v i = record {
  in_order = v.in_order;
  is_read = i.0;
  is_ended =
      subst (λ b. IsEnded b s.up true) (sym (still_echoing s.echoing s.up s.stdineof v.is_ended o))
        tt;
  is_over = v.is_over;
}

pub str_cli-both :
    (n : ℕ) (i : Got) (s : Session)
    → s.client ≡ runs
    → str_cli (some (got n)) (some i) s ≡ read_stdin i (read_socket (got n) s)
unfolding str_cli read_socket
str_cli-both n i s r =
    let t : Session = record s { down = drop n s.down; shown = s.shown ++ take n s.down } in
    ap (λ c. elim c [ runs ↦ read_stdin i t | returned ↦ t | quits ↦ t ]) r

both-IsSession :
    (typed : Bytes) (g i : Got) (s : Session)
    → s.client ≡ runs
    → s.stdineof ≡ false
    → IsSession typed s
    → Gives g s.down (not s.echoing)
    → Gives i s.input true
    → IsSession typed (str_cli (some g) (some i) s)
unfolding read_socket
both-IsSession typed (got n) i s r o v g h = subst (IsSession typed) (sym (str_cli-both n i s r)) (
    read_stdin-IsSession typed i (read_socket (got n) s) r o
      (read_socket-IsSession typed (got n) s r v g) h)
both-IsSession typed eof i s r o v g h = absurd (let e = socket_eof typed s v g in cc)

-- While the server echoes, the client is in its loop.
still_running :
    (c : Client) (e e' : Bool) (down down' : Bytes) → e ≡ true → IsOver c down e → IsOver c down' e'
still_running runs e e' down down' t o = tt
still_running returned e e' down down' t o = absurd (let q = o.1 in cc)
still_running quits e e' down down' t o = o

str_echo-IsSession :
    (typed : Bytes) (g : Got) (s : Session)
    → s.echoing ≡ true
    → IsSession typed s
    → Gives g s.up s.stdineof
    → IsSession typed (str_echo g s)
unfolding str_echo
str_echo-IsSession typed (got n) s e v g = record {
  in_order = ap (◌++◌ s.shown) (moved s.down s.up s.input n) ∙ v.in_order;
  is_read = v.is_read;
  is_ended = subst (λ b. IsEnded b (drop n s.up) s.stdineof) (sym e) tt;
  is_over = still_running s.client s.echoing s.echoing s.down _ e v.is_over;
}
str_echo-IsSession typed eof s e v g = record {
  in_order = v.in_order;
  is_read = v.is_read;
  is_ended = g;
  is_over = still_running s.client s.echoing false s.down s.down e v.is_over;
}

Step-IsSession : {typed : Bytes} {s t : Session} → Step s t → IsSession typed s → IsSession typed t
unfolding str_cli
Step-IsSession {typed} {s} (socket g r h) v = read_socket-IsSession typed g s r v h
Step-IsSession {typed} {s} (stdin i r o h) v = read_stdin-IsSession typed i s r o v h
Step-IsSession {typed} {s} (both g i r o h k) v = both-IsSession typed g i s r o v h k
Step-IsSession {typed} {s} (server g e h) v = str_echo-IsSession typed g s e v h

-- However the client and the server take turns and however the reads cut the streams: what is shown, what
-- is on its way to the client and to the server, and what is still to be read make up what was typed, in
-- order; the server ends only when it has echoed all, the client returns only when all is shown, and it
-- never comes to err_quit.
pub Run-IsSession :
    (typed : Bytes) {n : ℕ} {t : Session} → Run (start typed) n t → IsSession typed t
Run-IsSession typed here = start-IsSession typed
Run-IsSession typed (next r step) = Step-IsSession step (Run-IsSession typed r)
