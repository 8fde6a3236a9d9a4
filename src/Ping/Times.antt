-- ===== src/Ping/Times.antt =====
-- What tv_sub comes to, and times in memory (Lab2017/lib/tv_sub.c).
use cosc.Prelude.{ℕ, ◌+◌, ◌*◌, ◌^◌, ◌≤◌, ◌<◌, ◌≡◌, arith, Bool-cases, inl, inr}
use cosc.Ping.{Timeval, minus, is_negative, tv_sub}

-- A time that gettimeofday(2) gives, in microseconds.
pub record IsTime (t : Timeval) : Type 0 where
  pub small : t.tv_usec < 1000000
  pub positive : t.tv_sec < 2 ^ 63

abbrev pub micros : Timeval → ℕ
micros t = t.tv_sec * 1000000 + t.tv_usec

-- Of two times, tv_sub leaves the one that lies between them.
pub tv_sub-micros :
    (now sent : Timeval)
    → IsTime now
    → IsTime sent
    → micros sent ≤ micros now
    → ((tv_sub now sent).tv_usec < 1000000) × (micros (tv_sub now sent) + micros sent ≡ micros now)
unfolding tv_sub
tv_sub-micros now sent n s h =
    let a = n.small in
    let b = n.positive in
    let c = s.small in
    let d = s.positive in
    elim (Bool-cases (is_negative (minus now.tv_usec sent.tv_usec))) [
      | inl e ↦ rw e (ground (arith, a, b, c, d, e, h))
      | inr e ↦ rw e (ground (arith, a, b, c, d, e, h))
    ]
