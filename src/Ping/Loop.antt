-- ===== src/Ping/Loop.antt =====
-- readloop (Lab2017/ping/readloop.c, sig_alrm.c) against a description of its whole run.
use cosc.Prelude.{
  ℕ, ◌+◌, ◌≡◌, refl, ap, sym, ◌∙◌, Bool, true, false, Option, none, some, List, [], ◌∷◌, ◌++◌,
  if◌then◌else◌, length, arith, Bytes, append-nil, append_assoc,
}
use cosc.Ping.{
  Timeval, Line, Proto, Event, alarm, packet, fails, Ping, waits, ends, sig_alrm, show, loop_from,
  readloop,
}

-- The events before the one that ends the program, and whether there is one.
abbrev pub served : List Event → List Event
served [] = []
served (alarm now ∷ es) = alarm now ∷ served es
served (packet p control now ∷ es) = packet p control now ∷ served es
served (fails ∷ es) = []

abbrev pub is_ended : List Event → Bool
is_ended [] = false
is_ended (alarm now ∷ es) = is_ended es
is_ended (packet p control now ∷ es) = is_ended es
is_ended (fails ∷ es) = true

-- The times of the alarms, the requests that go out at some times, and the lines for the packets.
abbrev pub alarms : List Event → List Timeval
alarms [] = []
alarms (alarm now ∷ es) = now ∷ alarms es
alarms (packet p control now ∷ es) = alarms es
alarms (fails ∷ es) = alarms es

abbrev pub requests : Proto → ℕ → ℕ → List Timeval → List Bytes
requests pr pid n [] = []
requests pr pid n (now ∷ ts) = pr.fsend pid n now ∷ requests pr pid (n + 1) ts

abbrev pub line_if : Option Line → List Line
line_if none = []
line_if (some line) = line ∷ []

abbrev pub lines : Proto → ℕ → Bool → List Event → List Line
lines pr pid verbose [] = []
lines pr pid verbose (alarm now ∷ es) = lines pr pid verbose es
lines pr pid verbose (packet p control now ∷ es) =
    line_if (pr.fproc pid verbose p control now) ++ lines pr pid verbose es
lines pr pid verbose (fails ∷ es) = lines pr pid verbose es

-- Where the program stands after some events.
abbrev pub after : Proto → ℕ → Bool → List Event → Ping → Ping
after pr pid verbose es s = record {
  nsent = s.nsent + length (alarms es);
  sent = s.sent ++ requests pr pid s.nsent (alarms es);
  shown = s.shown ++ lines pr pid verbose es;
}

show-shown : (o : Option Line) (s : Ping) → show o s ≡ record s { shown = s.shown ++ line_if o }
show-shown none s = ap (λ l. record s { shown = l }) (sym (append-nil s.shown))
show-shown (some line) s = refl

Ping-cong :
    {a b : ℕ} {c d : List Bytes} {e f : List Line}
    → a ≡ b
    → c ≡ d
    → e ≡ f
    → Path Ping
        (record { nsent = a; sent = c; shown = e })
        (record { nsent = b; sent = d; shown = f })
Ping-cong p q r = cc

loop_from_lem :
    (pr : Proto) (pid : ℕ) (verbose : Bool) (events : List Event) (s : Ping)
    → loop_from pr pid verbose events s ≡ (
        if is_ended events
        then ends (after pr pid verbose (served events) s)
        else waits (after pr pid verbose (served events) s))
unfolding loop_from
loop_from_lem pr pid verbose [] s =
    ap waits (Ping-cong (omega arith) (sym (append-nil s.sent)) (sym (append-nil s.shown)))
loop_from_lem pr pid verbose (fails ∷ es) s =
    ap ends (Ping-cong (omega arith) (sym (append-nil s.sent)) (sym (append-nil s.shown)))
loop_from_lem pr pid verbose (alarm now ∷ es) s =
    loop_from_lem pr pid verbose es (sig_alrm pr pid now s)
    ∙ ap (λ t. if is_ended es then ends t else waits t)
        (Ping-cong (omega arith)
          (append_assoc s.sent (pr.fsend pid s.nsent now ∷ [])
            (requests pr pid (s.nsent + 1) (alarms (served es))))
          refl)
loop_from_lem pr pid verbose (packet p control now ∷ es) s =
    let o = pr.fproc pid verbose p control now in
    ap (loop_from pr pid verbose es) (show-shown o s)
    ∙ loop_from_lem pr pid verbose es (record s { shown = s.shown ++ line_if o })
    ∙ ap (λ t. if is_ended es then ends t else waits t)
        (Ping-cong refl refl (append_assoc s.shown (line_if o) (lines pr pid verbose (served es))))

-- ping sends a request when it starts and one at each alarm, numbered from 0, and shows what its protocol
-- makes of each packet, in order; it does so until recvmsg fails for good, where it ends.
pub readloop_lem :
    (pr : Proto) (pid : ℕ) (verbose : Bool) (now : Timeval) (events : List Event)
    → readloop pr pid verbose now events ≡ (
        let s : Ping = record {
          nsent = 1 + length (alarms (served events));
          sent = requests pr pid 0 (now ∷ alarms (served events));
          shown = lines pr pid verbose (served events);
        } in
        if is_ended events then ends s else waits s)
unfolding readloop
readloop_lem pr pid verbose now events =
    loop_from_lem pr pid verbose events
      (sig_alrm pr pid now (record { nsent = 0; sent = []; shown = [] }))
