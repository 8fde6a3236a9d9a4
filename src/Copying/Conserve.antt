-- ===== src/Copying/Conserve.antt =====
-- What `str_cli` of Lab2017/nonblock/strclinonb.c copies: every byte, once and in order.
use cosc.Prelude.{
  ℕ, zero, suc, ◌+◌, ◌-◌, ◌≤◌, ◌<◌, ◌≡◌, refl, sym, ap, ◌∙◌, Bool, true, false, ◌&&◌, List, [], ◌∷◌,
  ◌++◌, append-nil, append_assoc, ltb, ◌==◌, if◌then◌else◌, length, length-append, length-drop,
  take, drop, take-append-drop, take_all, ==_iff, Bytes, arith, Bool-cases, inl, inr,
}
use cosc.Copying.{
  maxline, Buffer, pending, Copy, start, In, Out, got, took, Kernel, Result, ok, returns, premature,
  sys_error, ◌>>=◌, take_stdin, take_sock, give_stdout, give_sock, advance, asks_stdin, asks_sock,
  read_if, write_if, room, stdin_part, sock_part, stdout_part, round, str_cli,
}

-- read(2) returns no more bytes than it is given room for, write(2) takes no more than it is given.
pub record Documented (k : Kernel) : Type 0 where
  pub stdin_fits : (n : ℕ) (bs : Bytes) → k.from_stdin n ≡ got bs → length bs ≤ n
  pub sock_fits : (n : ℕ) (bs : Bytes) → k.from_sock n ≡ got bs → length bs ≤ n
  pub stdout_takes : (n j : ℕ) → k.onto_stdout n ≡ took j → j ≤ n
  pub sock_takes : (n j : ℕ) → k.onto_sock n ≡ took j → j ≤ n

pub record BufferFits (b : Buffer) : Type 0 where
  pub ordered : b.out ≤ length b.cells
  pub inside : length b.cells ≤ maxline

-- What holds between two calls: the pointers stand in their buffers, what was read is what was written
-- and what is pending, and FIN was sent once if all of a closed input is sent, and else not at all.
pub record Conserved (s : Copy) : Type 0 where
  pub to_fits : BufferFits s.to
  pub fr_fits : BufferFits s.fr
  pub sent : s.sock_written ++ pending s.to ≡ s.stdin_read
  pub shown : s.stdout_written ++ pending s.fr ≡ s.sock_read
  pub fin : s.fins ≡ (if s.stdineof && s.to.out == length s.to.cells then 1 else 0)

-- A predicate of the state in which a computation stands or stops.
abbrev pub Holds {ℓ κ} : {A : Type ℓ} → (A → Type κ) → (Copy → Type κ) → Result A → Type κ
Holds P Q (ok a) = P a
Holds P Q (returns s) = Q s
Holds P Q (premature s) = Q s
Holds P Q (sys_error s) = Q s

Holds-bind {ℓ ℓ'} :
    {A : Type ℓ} {B : Type ℓ'} (P : A → Type 0) (R : B → Type 0) (Q : Copy → Type 0) (m : Result A)
    (f : A → Result B)
    → Holds P Q m
    → ((a : A) → P a → Holds R Q (f a))
    → Holds R Q (m >>= f)
Holds-bind P R Q (ok a) f h k = k a h
Holds-bind P R Q (returns s) f h k = h
Holds-bind P R Q (premature s) f h k = h
Holds-bind P R Q (sys_error s) f h k = h

drop-append : (n : ℕ) (a b : Bytes) → n ≤ length a → drop n (a ++ b) ≡ drop n a ++ b
drop-append zero a b h = refl
drop-append (suc n) [] b h = absurd (omega arith)
drop-append (suc n) (x ∷ a) b h = drop-append n a b (omega arith)

drop_all : (n : ℕ) (a : Bytes) → length a ≤ n → drop n a ≡ []
drop_all zero [] h = refl
drop_all zero (x ∷ a) h = absurd (omega arith)
drop_all (suc n) [] h = refl
drop_all (suc n) (x ∷ a) h = drop_all n a (omega arith)

drop-drop : (n k m : ℕ) (a : Bytes) → m ≡ n + k → drop k (drop n a) ≡ drop m a
drop-drop zero k m a e = ap (λ j. drop j a) (omega arith)
drop-drop (suc n) k zero a e = absurd (omega arith)
drop-drop (suc n) zero (suc m) [] e = refl
drop-drop (suc n) (suc k) (suc m) [] e = refl
drop-drop (suc n) k (suc m) (x ∷ a) e = drop-drop n k m a (omega arith)

-- What a write takes and what is then pending is what was pending.
pending-advance :
    (k : ℕ) (b : Buffer)
    → k ≤ length b.cells - b.out
    → BufferFits b
    → take k (pending b) ++ pending (advance k b) ≡ pending b
pending-advance k b h f = elim (Bool-cases (b.out + k == length b.cells)) [
  | inl e ↦ rw e (
      rw append-nil (
        take_all k (pending b)
          (omega (arith, length-drop b.out b.cells, (==_iff (b.out + k) (length b.cells)).0 e))))
  | inr e ↦
      rw e (rw (← drop-drop b.out k (b.out + k) b.cells refl) (take-append-drop k (pending b)))
]

advance-fits :
    (k : ℕ) (b : Buffer) → k ≤ length b.cells - b.out → BufferFits b → BufferFits (advance k b)
advance-fits k b h f = ground arith

take_stdin-Conserved :
    (a : In) (w : Bool) (s : Copy)
    → ((bs : Bytes) → a ≡ got bs → length bs ≤ room s.to)
    → s.stdineof ≡ false
    → Conserved s
    → Holds (λ r. Conserved r.0) Conserved (take_stdin a w s)
unfolding take_stdin
take_stdin-Conserved In.failed w s h e c = c
take_stdin-Conserved In.later w s h e c = c
take_stdin-Conserved (got []) w s h e c = record {
  to_fits = c.to_fits;
  fr_fits = c.fr_fits;
  sent = c.sent;
  shown = c.shown;
  fin = ground (arith, c.fin);
}
take_stdin-Conserved (got (b ∷ bs)) w s h e c = record {
  to_fits = record {
    ordered = omega (arith, c.to_fits.ordered, length-append s.to.cells (b ∷ bs));
    inside = omega (arith, c.to_fits.inside, h (b ∷ bs) refl, length-append s.to.cells (b ∷ bs));
  };
  fr_fits = c.fr_fits;
  sent =
      rw (drop-append s.to.out s.to.cells (b ∷ bs) c.to_fits.ordered) (
        sym (append_assoc s.sock_written (pending s.to) (b ∷ bs)) ∙ ap (λ l. l ++ (b ∷ bs)) c.sent);
  shown = c.shown;
  fin = ground (arith, c.fin);
}

take_sock-Conserved :
    (a : In) (w : Bool) (s : Copy)
    → ((bs : Bytes) → a ≡ got bs → length bs ≤ room s.fr)
    → Conserved s
    → Holds (λ r. Conserved r.0) Conserved (take_sock a w s)
unfolding take_sock
take_sock-Conserved In.failed w s h c = c
take_sock-Conserved In.later w s h c = c
take_sock-Conserved (got []) w s h c =
    elim s.stdineof
      as (λ b.
        Holds {A = Copy × Bool} (λ r. Conserved r.0) Conserved
          (if b then returns s else premature s)) [ true ↦ c | false ↦ c ]
take_sock-Conserved (got (b ∷ bs)) w s h c = record {
  to_fits = c.to_fits;
  fr_fits = record {
    ordered = omega (arith, c.fr_fits.ordered, length-append s.fr.cells (b ∷ bs));
    inside = omega (arith, c.fr_fits.inside, h (b ∷ bs) refl, length-append s.fr.cells (b ∷ bs));
  };
  sent = c.sent;
  shown = rw (drop-append s.fr.out s.fr.cells (b ∷ bs) c.fr_fits.ordered) (
      sym (append_assoc s.stdout_written (pending s.fr) (b ∷ bs))
      ∙ ap (λ l. l ++ (b ∷ bs)) c.shown);
  fin = c.fin;
}

give_stdout-Conserved :
    (a : Out) (s : Copy)
    → ((j : ℕ) → a ≡ took j → j ≤ length s.fr.cells - s.fr.out)
    → Conserved s
    → Holds Conserved Conserved (give_stdout a s)
unfolding give_stdout
give_stdout-Conserved Out.failed s h c = c
give_stdout-Conserved Out.later s h c = c
give_stdout-Conserved (took k) s h c = record {
  to_fits = c.to_fits;
  fr_fits = advance-fits k s.fr (h k refl) c.fr_fits;
  sent = c.sent;
  shown =
      append_assoc s.stdout_written (take k (pending s.fr)) (pending (advance k s.fr))
      ∙ ap (λ l. s.stdout_written ++ l) (pending-advance k s.fr (h k refl) c.fr_fits)
      ∙ c.shown;
  fin = c.fin;
}

give_sock-Conserved :
    (a : Out) (s : Copy)
    → ((j : ℕ) → a ≡ took j → j ≤ length s.to.cells - s.to.out)
    → s.to.out < length s.to.cells
    → Conserved s
    → Holds Conserved Conserved (give_sock a s)
unfolding give_sock
give_sock-Conserved Out.failed s h l c = c
give_sock-Conserved Out.later s h l c = c
give_sock-Conserved (took k) s h l c = record {
  to_fits = advance-fits k s.to (h k refl) c.to_fits;
  fr_fits = c.fr_fits;
  sent =
      append_assoc s.sock_written (take k (pending s.to)) (pending (advance k s.to))
      ∙ ap (λ l. s.sock_written ++ l) (pending-advance k s.to (h k refl) c.to_fits)
      ∙ c.sent;
  shown = c.shown;
  fin = ground (arith, c.fin);
}

read_if-Conserved :
    (b : Bool) (read : In → Bool → Copy → Result (Copy × Bool)) (a : In) (w : Bool) (s : Copy)
    → Conserved s
    → (b ≡ true → Holds (λ r. Conserved r.0) Conserved (read a w s))
    → Holds (λ r. Conserved r.0) Conserved (read_if b read a w s)
read_if-Conserved true read a w s c h = h refl
read_if-Conserved false read a w s c h = c

write_if-Conserved :
    (b : Bool) (write : Out → Copy → Result Copy) (a : Out) (s : Copy)
    → Conserved s
    → (b ≡ true → Holds Conserved Conserved (write a s))
    → Holds Conserved Conserved (write_if b write a s)
write_if-Conserved true write a s c h = h refl
write_if-Conserved false write a s c h = c

input_open : (s : Copy) (ready : Bool) → (asks_stdin s && ready) ≡ true → s.stdineof ≡ false
input_open s ready h = ground arith

has_more : (w : Bool) (a b : ℕ) → (w && ltb a b) ≡ true → a < b
has_more w a b h = ground arith

pub round-Conserved :
    (k : Kernel) (s : Copy) → Documented k → Conserved s → Holds Conserved Conserved (round k s)
unfolding round
round-Conserved k s d c =
    Holds-bind (λ r. Conserved r.0) Conserved Conserved (stdin_part k s) _
      (read_if-Conserved _ take_stdin _ _ s c (λ e.
        take_stdin-Conserved _ _ s (d.stdin_fits (room s.to)) (input_open s k.stdin_ready e) c))
      λ a ca.
        Holds-bind (λ r. Conserved r.0) Conserved Conserved (sock_part k s a.0) _
          (read_if-Conserved _ take_sock _ _ a.0 ca
            (λ e. take_sock-Conserved _ _ a.0 (d.sock_fits (room a.0.fr)) ca))
          λ b cb.
            Holds-bind Conserved Conserved Conserved (stdout_part k b.1 b.0) _
              (write_if-Conserved _ give_stdout _ b.0 cb
                (λ e. give_stdout-Conserved _ b.0 (d.stdout_takes _) cb))
              λ t ct.
                write_if-Conserved _ give_sock _ t ct
                  (λ e. give_sock-Conserved _ t (d.sock_takes _) (has_more a.1 _ _ e) ct)

abbrev pub AllDocumented : List Kernel → Type 0
AllDocumented [] = Unit
AllDocumented (k ∷ ks) = Documented k × AllDocumented ks

str_cli-Conserved_from :
    (ks : List Kernel) (s : Copy)
    → AllDocumented ks
    → Conserved s
    → Holds Conserved Conserved (str_cli ks s)
unfolding str_cli
str_cli-Conserved_from [] s d c = c
str_cli-Conserved_from (k ∷ ks) s d c =
    Holds-bind Conserved Conserved Conserved (round k s) _ (round-Conserved k s d.0 c)
      λ t ct. str_cli-Conserved_from ks t d.1 ct

start-Conserved : Conserved start
unfolding start
start-Conserved = record {
  to_fits = omega arith;
  fr_fits = omega arith;
  sent = refl;
  shown = refl;
  fin = refl;
}

-- After any number of rounds, and when the loop ends, both ways: the pointers are inside the buffers,
-- what was written is the beginning of what was read and the rest is in the buffer, and FIN was sent
-- exactly once if the input is closed and all of it is sent, and else not at all.
pub str_cli-Conserved :
    (ks : List Kernel) → AllDocumented ks → Holds Conserved Conserved (str_cli ks start)
str_cli-Conserved ks d = str_cli-Conserved_from ks start d start-Conserved

-- When the server closes after the input is closed, `str_cli` returns at once: what it has read from
-- the socket and not yet written to standard output is lost.
pub round_loses_output :
    (k : Kernel) (s : Copy)
    → Conserved s
    → s.stdineof ≡ true
    → asks_sock s ≡ true
    → k.sock_ready ≡ true
    → k.from_sock (room s.fr) ≡ got []
    → (round k s ≡ returns s) × (s.stdout_written ++ pending s.fr ≡ s.sock_read)
unfolding round take_sock
round_loses_output k s c e a r g = (rw (e, a, r, g), c.shown)
