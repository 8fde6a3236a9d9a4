-- ===== src/Ping/Exchange.antt =====
-- From a request of send_v4 through readloop to the line that proc_v4 prints (Lab2017/ping).
use cosc.Prelude.{
  ℕ, zero, suc, ◌+◌, ◌<◌, ◌≡◌, refl, ap, sym, ◌∙◌, Bool, true, false, Option, none, some, List, [],
  ◌∷◌, ◌++◌, if◌then◌else◌, ==_true, get_or, arith, Bytes, append-nil, append_assoc, All,
}
use mathlib.Core.Path.{ap₂}
use cosc.Ping.{
  Timeval, Cmsg, Line, Proto, proto_v4, send_v4, Event, alarm, packet, fails, Ping, Outcome, waits,
  ends, readloop,
}
use cosc.Ping.Fields.{answer_to, IsLong}
use cosc.Ping.Replies.{IsIcmp, line_of, proc_v4-send_v4}
use cosc.Ping.Times.{IsTime, micros, tv_sub-micros}
use cosc.Ping.{echo_reply, tv_sub}
use cosc.Prelude.{◌%◌, ◌≤◌}
use cosc.Ping.Loop.{served, is_ended, alarms, requests, line_if, lines, readloop_lem}

-- The element at a place of a list.
abbrev pub get_elem? {ℓ} : {A : Type ℓ} → List A → ℕ → Option A
get_elem? [] i = none
get_elem? (x ∷ xs) zero = some x
get_elem? (x ∷ xs) (suc i) = get_elem? xs i

-- What is printed in a run.
abbrev pub shown_of : Outcome → List Line
shown_of (waits s) = s.shown
shown_of (ends s) = s.shown

abbrev pub sent_of : Outcome → List Bytes
sent_of (waits s) = s.sent
sent_of (ends s) = s.sent

sent_of-if : (b : Bool) (s : Ping) → sent_of (if b then ends s else waits s) ≡ s.sent
sent_of-if true s = refl
sent_of-if false s = refl

shown_of-if : (b : Bool) (s : Ping) → shown_of (if b then ends s else waits s) ≡ s.shown
shown_of-if true s = refl
shown_of-if false s = refl

served-append : (es fs : List Event) → is_ended es ≡ false → served (es ++ fs) ≡ es ++ served fs
served-append [] fs h = refl
served-append (alarm now ∷ es) fs h = ap (◌∷◌ (alarm now)) (served-append es fs h)
served-append (packet p control now ∷ es) fs h =
    ap (◌∷◌ (packet p control now)) (served-append es fs h)
served-append (fails ∷ es) fs h = absurd cc

lines-append :
    (pr : Proto) (pid : ℕ) (verbose : Bool) (es fs : List Event)
    → lines pr pid verbose (es ++ fs) ≡ lines pr pid verbose es ++ lines pr pid verbose fs
lines-append pr pid verbose [] fs = refl
lines-append pr pid verbose (alarm now ∷ es) fs = lines-append pr pid verbose es fs
lines-append pr pid verbose (packet p control now ∷ es) fs =
    let line = line_if (pr.fproc pid verbose p control now) in
    ap (◌++◌ line) (lines-append pr pid verbose es fs)
    ∙ sym (append_assoc line (lines pr pid verbose es) (lines pr pid verbose fs))
lines-append pr pid verbose (fails ∷ es) fs = lines-append pr pid verbose es fs

-- A time that the clock has shown before `now`, or at `now`.
pub record IsPast (now t : Timeval) : Type 0 where
  pub time : IsTime t
  pub not_later : micros t ≤ micros now

-- A request that was sent is that of its number and of the time of an alarm.
request_at :
    (now : Timeval) (pid n k : ℕ) (ts : List Timeval) (request : Bytes)
    → All (IsPast now) ts
    → get_elem? (requests proto_v4 pid n ts) k ≡ some request
    → (sent : Timeval) × (get_elem? ts k ≡ some sent)
      × IsPast now sent
      × (request ≡ send_v4 pid (n + k) sent)
request_at now pid n k [] request a e = absurd cc
request_at now pid n zero (t ∷ ts) request a e = (
  t,
  refl,
  a.0,
  (let s : request ≡ send_v4 pid n t = cc in s ∙ ap (λ i. send_v4 pid i t) (omega arith)),
)
request_at now pid n (suc k) (t ∷ ts) request a e =
    let (sent, f, l, g) = request_at now pid (n + 1) k ts request a.1 e in
    (sent, f, l, g ∙ ap (λ i. send_v4 pid i sent) (omega arith))

served_all : (es : List Event) → is_ended es ≡ false → served es ≡ es
served_all es h = ap served (sym (append-nil es)) ∙ served-append es [] h ∙ append-nil es

sent_lem :
    (pid : ℕ) (verbose : Bool) (start : Timeval) (es : List Event)
    → is_ended es ≡ false
    → sent_of (readloop proto_v4 pid verbose start es) ≡ requests proto_v4 pid 0 (start ∷ alarms es)
sent_lem pid verbose start es h =
    ap sent_of (readloop_lem proto_v4 pid verbose start es)
    ∙ sent_of-if (is_ended es) _
    ∙ ap (λ l. requests proto_v4 pid 0 (start ∷ alarms l)) (served_all es h)

shown_lem :
    (pid : ℕ) (verbose : Bool) (start : Timeval) (es fs : List Event)
    → is_ended es ≡ false
    → shown_of (readloop proto_v4 pid verbose start (es ++ fs))
      ≡ lines proto_v4 pid verbose es ++ lines proto_v4 pid verbose (served fs)
shown_lem pid verbose start es fs h =
    ap shown_of (readloop_lem proto_v4 pid verbose start (es ++ fs))
    ∙ shown_of-if (is_ended (es ++ fs)) _
    ∙ ap (lines proto_v4 pid verbose) (served-append es fs h)
    ∙ lines-append proto_v4 pid verbose es (served fs)

-- The line for an answer, with the time between the request and the answer in microseconds.
pub record IsLineOf (nsent hops : ℕ) (sent now : Timeval) (line : Line) : Type 0 where
  pub rtt : Timeval
  pub shows : line ≡ echo_reply 64 (nsent % 65536) (some hops) rtt
  pub elapsed : micros rtt + micros sent ≡ micros now

line_of-IsLineOf :
    (nsent hops : ℕ) (sent now : Timeval)
    → IsTime now
    → IsPast now sent
    → IsLineOf nsent hops sent now (line_of nsent sent hops now)
line_of-IsLineOf nsent hops sent now t p = record {
  rtt = tv_sub now sent;
  shows = refl;
  elapsed = (tv_sub-micros now sent t p.time p.not_later).1;
}

pub IsPast-IsLong : (now sent : Timeval) → IsPast now sent → IsLong sent
IsPast-IsLong now sent p =
    let a = p.time.small in
    let b = p.time.positive in record { sec = omega arith; usec = omega arith }

-- The answer to a request that ping over IPv4 has sent, whenever it comes and whatever comes before and
-- behind it, is shown behind the lines for what came before: with the number of the request modulo 2 ^ 16,
-- its time to live, and the microseconds since that request; if recvmsg has not failed before, the clock
-- does not go back, and the identifier has 16 bits.
pub readloop-answer_to :
    (pid : ℕ) (verbose : Bool) (start : Timeval) (before later : List Event) (k lo hi : ℕ)
    (request header : Bytes) (old : ℕ → ℕ) (control : List Cmsg) (now : Timeval)
    → pid < 65536
    → All (IsPast now) (start ∷ alarms before)
    → IsTime now
    → is_ended before ≡ false
    → get_elem? (sent_of (readloop proto_v4 pid verbose start before)) k ≡ some request
    → IsIcmp header
    → (sent : Timeval) × (line : Line) × (rest : List Line) × (get_elem? (start ∷ alarms before) k
        ≡ some sent)
      × (shown_of (
            readloop proto_v4 pid verbose start (
              before
              ++ packet
                  (record { bytes = header ++ answer_to 0 lo hi request; old = old })
                  control
                  now
                ∷ later))
          ≡ shown_of (readloop proto_v4 pid verbose start before) ++ line ∷ rest)
      × IsLineOf k (get_or header 8 0) sent now line
readloop-answer_to pid verbose start before later k lo hi request header old control now small a w h
      e i =
    let (sent, f, l, g) =
      request_at now pid 0 k (start ∷ alarms before) request a
        (ap (λ r. get_elem? r k) (sym (sent_lem pid verbose start before h)) ∙ e) in
    let rest = lines proto_v4 pid verbose (served later) in
    let made : request ≡ send_v4 pid k sent = g ∙ ap (λ n. send_v4 pid n sent) (omega arith) in
    let line =
      proc_v4-send_v4 pid pid k lo hi verbose header old control sent now i small
        (IsPast-IsLong now sent l) in
    let one : line_if (
          proto_v4.fproc pid verbose
            (record { bytes = header ++ answer_to 0 lo hi request; old = old }) control now)
        ≡ line_of k sent (get_or header 8 0) now ∷ [] =
      ap
        (λ r. line_if (
          proto_v4.fproc pid verbose (record { bytes = header ++ answer_to 0 lo hi r; old = old })
            control now))
        made
      ∙ ap line_if (
          line
          ∙ ap (λ b. if b then some (line_of k sent (get_or header 8 0) now) else none)
              (==_true pid pid refl)) in
    let so_far : shown_of (readloop proto_v4 pid verbose start before)
        ≡ lines proto_v4 pid verbose before =
      ap (λ l. shown_of (readloop proto_v4 pid verbose start l)) (sym (append-nil before))
      ∙ shown_lem pid verbose start before [] h
      ∙ append-nil (lines proto_v4 pid verbose before) in
    (
      sent,
      line_of k sent (get_or header 8 0) now,
      rest,
      f,
      shown_lem pid verbose start before _ h ∙ ap₂ (◌++◌) (sym so_far) (ap (λ x. x ++ rest) one),
      line_of-IsLineOf k (get_or header 8 0) sent now w l,
    )
