-- ===== src/Ping/Replies.antt =====
-- What Lab2017/ping/proc_v4.c and proc_v6.c show of the replies to the requests of send_v4.c and send_v6.c.
use cosc.Prelude.{
  ℕ, ◌+◌, ◌-◌, ◌*◌, ◌%◌, ◌≤◌, ◌<◌, ◌≡◌, refl, ap, ◌∙◌, Bool, Option, none, some, List, [], ◌++◌,
  ◌==◌, if◌then◌else◌, length, length-append, arith, get_or, Bytes, ltb-false, ==_true, Bool-cases,
  inl, inr,
}
use mathlib.Core.Path.{ap₂}
use cosc.Packet.{Packet, byte_at, word_at, header_length}
use cosc.Packet.Parts.{byte_at-append_left}
use cosc.Ping.Fields.{answer_to, IsLong, answer_of, whole, identifier, number, time_in, type_in}
use cosc.Ping.{
  Timeval, tv_sub, send_v4, send_v6, Cmsg, Line, echo_reply, timeval_at, proc_icmp4, proc_v4,
  hop_limit, known, proc_v6,
}

-- An IP header without options or with them, of a packet of ICMP.
pub record IsIcmp (header : Bytes) : Type 0 where
  pub long_enough : 20 ≤ length header
  pub its_length : (get_or header 0 0 % 16) * 4 ≡ length header
  pub icmp : get_or header 9 0 ≡ 1

-- A reply over IPv4 is shown if it is for this process.
reply4 :
    (pid : ℕ) (verbose : Bool) (p : Packet) (control : List Cmsg) (now : Timeval) (h : ℕ)
    → header_length p 0 ≡ h
    → byte_at p 9 ≡ 1
    → h + 16 ≤ length p.bytes
    → byte_at p h ≡ 0
    → proc_v4 pid verbose p control now ≡ (
        if word_at p (h + 4) == pid
        then some (
            echo_reply
              (length p.bytes - h)
              (word_at p (h + 6))
              (some (byte_at p 8))
              (tv_sub now (timeval_at p (h + 8))))
        else none)
unfolding proc_v4 proc_icmp4
reply4 pid verbose p control now h e i n t =
    let a = ltb-false (length p.bytes) (h + 8) (omega arith) in
    let b = ltb-false (length p.bytes - h) 16 (omega arith) in
    rw (==_true _ _ i, proc_v4)
      (rw (e, proc_v4)
        (rw (a, proc_v4)
          (rw (==_true _ _ t, proc_icmp4)
            (elim (Bool-cases (word_at p (h + 4) == pid)) [
              | inl f ↦ rw (f, proc_icmp4) (rw (b, proc_icmp4) refl)
              | inr f ↦ rw (f, proc_icmp4) refl
            ]))))

-- The line for an answer to the request with this number and this time.
abbrev pub line_of : ℕ → Timeval → ℕ → Timeval → Line
line_of nsent sent hops now = echo_reply 64 (nsent % 65536) (some hops) (tv_sub now sent)

line_of-cong :
    {a b c d e f : ℕ} {u v : Timeval} (now : Timeval)
    → a ≡ b
    → c ≡ d
    → e ≡ f
    → u ≡ v
    → some (echo_reply a c (some e) (tv_sub now u)) ≡ some (echo_reply b d (some f) (tv_sub now v))
line_of-cong now p q r s = cc

-- An answer of a host to a request of send_v4, behind any IP header: the ping that has sent the request
-- shows its length, its number modulo 2 ^ 16, its time to live and the time since it was sent; a ping with
-- another identifier shows nothing.
pub proc_v4-send_v4 :
    (pid reader nsent lo hi : ℕ) (verbose : Bool) (header : Bytes) (old : ℕ → ℕ)
    (control : List Cmsg) (sent now : Timeval)
    → IsIcmp header
    → pid < 65536
    → IsLong sent
    → proc_v4 reader verbose
        (record { bytes = header ++ answer_to 0 lo hi (send_v4 pid nsent sent); old = old })
        control
        now
      ≡ (if pid == reader then some (line_of nsent sent (get_or header 8 0) now) else none)
unfolding send_v4
proc_v4-send_v4 pid reader nsent lo hi verbose header old control sent now k small s =
    let n = k.long_enough in
    let p = whole header 0 lo hi pid nsent sent old in
    let rest = answer_of 0 lo hi pid nsent sent in
    let len = length-append header rest in
    let h : header_length p 0 ≡ length header =
      ap (λ b. b % 16 * 4) (byte_at-append_left header rest old 0 (omega arith)) ∙ k.its_length in
    let i : byte_at p 9 ≡ 1 = byte_at-append_left header rest old 9 (omega arith) ∙ k.icmp in
    reply4 reader verbose p control now (length header) h i (omega arith)
      (type_in header 0 lo hi pid nsent sent old)
    ∙ ap₂ (λ (id : ℕ) (shown : Option Line). if id == reader then shown else none)
        (identifier header 0 lo hi pid nsent sent old small)
        (line_of-cong now (omega arith) (number header 0 lo hi pid nsent sent old)
          (byte_at-append_left header rest old 8 (omega arith))
          (time_in header 0 lo hi pid nsent sent old s))

-- A reply over IPv6 is shown if it is for this process.
reply6 :
    (pid : ℕ) (verbose : Bool) (p : Packet) (control : List Cmsg) (now : Timeval)
    → 16 ≤ length p.bytes
    → byte_at p 0 ≡ 129
    → proc_v6 pid verbose p control now ≡ (
        if word_at p 4 == pid
        then some (
            echo_reply
              (length p.bytes)
              (word_at p 6)
              (known (hop_limit control))
              (tv_sub now (timeval_at p 8)))
        else none)
unfolding proc_v6
reply6 pid verbose p control now n t =
    let a = ltb-false (length p.bytes) 8 (omega arith) in
    let b = ltb-false (length p.bytes) 16 n in
    rw (a, proc_v6)
      (rw (==_true _ _ t, proc_v6)
        (elim (Bool-cases (word_at p 4 == pid)) [
          | inl f ↦ rw (f, proc_v6) (rw (b, proc_v6) refl)
          | inr f ↦ rw (f, proc_v6) refl
        ]))

-- The same over IPv6, with the hop limit and the time as proc_v6 computes them.
pub proc_v6-request :
    (pid reader nsent lo hi : ℕ) (verbose : Bool) (old : ℕ → ℕ) (control : List Cmsg)
    (sent now : Timeval)
    → pid < 65536
    → IsLong sent
    → proc_v6 reader verbose
        (record { bytes = answer_to 129 lo hi (send_v6 pid nsent sent); old = old })
        control
        now
      ≡ (if pid == reader
          then some (echo_reply 64 (nsent % 65536) (known (hop_limit control)) (tv_sub now sent))
          else none)
unfolding send_v6
proc_v6-request pid reader nsent lo hi verbose old control sent now small s =
    reply6 reader verbose (whole [] 129 lo hi pid nsent sent old) control now (omega arith)
      (type_in [] 129 lo hi pid nsent sent old)
    ∙ ap₂ (λ (id : ℕ) (shown : Option Line). if id == reader then shown else none)
        (identifier [] 129 lo hi pid nsent sent old small)
        (ap₂
          (λ (n : ℕ) (t : Timeval).
            some (echo_reply 64 n (known (hop_limit control)) (tv_sub now t)))
          (number [] 129 lo hi pid nsent sent old) (time_in [] 129 lo hi pid nsent sent old s))
