-- ===== src/Ping/Hops.antt =====
-- From a request of send_v6 to the line that proc_v6 prints (Lab2017/ping/proc_v6.c).
use cosc.Prelude.{
  ℕ, ◌+◌, ◌%◌, ◌<◌, ◌≡◌, refl, ap, ◌∙◌, Bool, false, Option, none, some, List, [], ◌∷◌, ◌==◌, ◌&&◌,
  if◌then◌else◌, arith, ==_true, ==_false,
}
use native.Mathlib.Decide.{ℕ_discrete}
use cosc.Ping.{Timeval, tv_sub, Cmsg, echo_reply, hop_limit, known, proc_v6, send_v6}
use cosc.Ping.Fields.{answer_to}
use cosc.Ping.Replies.{proc_v6-request}
use cosc.Ping.Times.{IsTime, micros, tv_sub-micros}
use cosc.Ping.Exchange.{IsPast, IsPast-IsLong}

-- An item of ancillary data of level IPPROTO_IPV6 and type IPV6_HOPLIMIT.
abbrev pub IsHop : Cmsg → Type 0
IsHop c = (c.cmsg_level ≡ 41) × (c.cmsg_type ≡ 52)

-- The hop limit that some ancillary data tells: that of the first such item, or none. It has 8 bits.
pub data Tells : List Cmsg → Option ℕ → Type 0 where
  nothing : Tells [] none
  first : (c : Cmsg) (cs : List Cmsg) → IsHop c → c.value < 256 → Tells (c ∷ cs) (some c.value)
  later :
      (c : Cmsg) (cs : List Cmsg) (hops : Option ℕ)
      → ¬ (IsHop c)
      → Tells cs hops
      → Tells (c ∷ cs) hops

is_hop : (c : Cmsg) → ¬ (IsHop c) → ((c.cmsg_level == 41) && (c.cmsg_type == 52)) ≡ false
is_hop c n = elim (ℕ_discrete c.cmsg_level 41) [
  | no p ↦ rw (==_false _ _ p) refl
  | yes e ↦ elim (ℕ_discrete c.cmsg_type 52) [
    | no q ↦ rw (==_true _ _ e) (rw (==_false _ _ q) refl)
    | yes f ↦ absurd (n (e, f))
  ]
]

known-hop_limit :
    {control : List Cmsg} {hops : Option ℕ} → Tells control hops → known (hop_limit control) ≡ hops
known-hop_limit nothing = refl
known-hop_limit (first c cs h v) =
    rw (==_true c.cmsg_level 41 h.0) (rw (==_true c.cmsg_type 52 h.1) (ground (arith, v)))
known-hop_limit (later c cs hops n t) = rw (is_hop c n) (known-hop_limit t)

-- An answer of a host to a request of send_v6: the ping that has sent the request shows its length, its
-- number modulo 2 ^ 16, the hop limit that the ancillary data tells, if it tells one, and the
-- microseconds since it was sent; a ping with another identifier shows nothing. The conditions: the
-- identifier of the sender has 16 bits, and the clock has not gone back.
pub proc_v6-send_v6 :
    (pid reader nsent lo hi : ℕ) (verbose : Bool) (old : ℕ → ℕ) (control : List Cmsg)
    (hops : Option ℕ) (sent now : Timeval)
    → pid < 65536
    → IsTime now
    → IsPast now sent
    → Tells control hops
    → (rtt : Timeval) × (proc_v6 reader verbose
          (record { bytes = answer_to 129 lo hi (send_v6 pid nsent sent); old = old })
          control
          now
        ≡ (if pid == reader then some (echo_reply 64 (nsent % 65536) hops rtt) else none))
      × (micros rtt + micros sent ≡ micros now)
proc_v6-send_v6 pid reader nsent lo hi verbose old control hops sent now small t p h = (
  tv_sub now sent,
  proc_v6-request pid reader nsent lo hi verbose old control sent now small
        (IsPast-IsLong now sent p)
      ∙ ap
          (λ (x : Option ℕ).
            if pid == reader
            then some (echo_reply 64 (nsent % 65536) x (tv_sub now sent))
            else none)
          (known-hop_limit h),
  (tv_sub-micros now sent t p.time p.not_later).1,
)
