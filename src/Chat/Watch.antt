-- ===== src/Chat/Watch.antt =====
-- What chatLoop of Lab3/chatserver.c asks select(2) for.
use cosc.Prelude.{
  ℕ, zero, suc, ◌+◌, ◌≤◌, ◌<◌, ◌≡◌, Bool, true, List, [], ◌∷◌, arith, ◌==◌, ltb, if◌then◌else◌, ◌⊎◌,
  inl, inr, ◌↔◌, ==_iff, ◌||◌,
}
use cosc.Chat.{Chat, max_chats, name_at, fd_at}
use native.Mathlib.Numerals.{add-one}
use cosc.Chat.{watch, watch_from}
use cosc.Chat.Valid.{IsValid}
use cosc.Chat.Roster.{Chatter, chatter, roster, seated, seated-suc}

-- A socket is that of a chatter of the list.
abbrev pub HasFd : ℕ → List Chatter → Type 0
HasFd x [] = ⊥
HasFd x (c ∷ cs) = (x ≡ c.fd) ⊎ HasFd x cs

Adds : (ℕ → Bool) → (ℕ → Bool) → ℕ → List Chatter → Type 0
Adds new old x cs = (new x ≡ true) ↔ ((old x ≡ true) ⊎ HasFd x cs)

watched_iff :
    (fd x : ℕ) (old : ℕ → Bool) → ((x == fd || old x) ≡ true) ↔ ((x ≡ fd) ⊎ (old x ≡ true))
watched_iff fd x old = ground arith

watch_from_iff :
    (n j : ℕ) (s : Chat) (old : ℕ → Bool) (top x : ℕ)
    → IsValid s
    → j + n ≤ max_chats
    → ((watch_from n j s old top).0 x ≡ true) ↔ ((old x ≡ true) ⊎ HasFd x (seated n j s))
unfolding watch_from
watch_from_iff zero j s old top x v h = (λ p. inl p, λ p. elim p [ inl q ↦ q | inr q ↦ absurd q ])
watch_from_iff (suc n) j s old top x v h =
    let fd = fd_at s j in
    let new : ℕ → Bool = λ y. y == fd || old y in
    let rest = watch_from_iff n (j + 1) s new (if ltb top fd then fd else top) x v (omega arith) in
    let row : seated (suc n) j s ≡ chatter fd (name_at s j) ∷ seated n (j + 1) s =
      rw add-one (seated-suc n j s v h) in
    let here = watched_iff fd x old in
    rw row (
      λ p. elim (rest.0 p) [
        | inl q ↦ elim (here.0 q) [ inl e ↦ inr (inl e) | inr o ↦ inl o ]
        | inr q ↦ inr (inr q)
      ],
      λ p. elim p [
        | inl o ↦ rest.1 (inl (here.1 (inr o)))
        | inr (inl e) ↦ rest.1 (inl (here.1 (inl e)))
        | inr (inr q) ↦ rest.1 (inr q)
      ],
    )

watch_from_top :
    (n j : ℕ) (s : Chat) (old : ℕ → Bool) (top : ℕ)
    → ((x : ℕ) → old x ≡ true → x ≤ top)
    → (x : ℕ) → (watch_from n j s old top).0 x ≡ true
    → x ≤ (watch_from n j s old top).1
unfolding watch_from
watch_from_top zero j s old top below x h = below x h
watch_from_top (suc n) j s old top below x h =
    let fd = fd_at s j in
    let next : ℕ = if ltb top fd then fd else top in
    watch_from_top n (j + 1) s (λ y. y == fd || old y) next
      (λ y p. elim ((watched_iff fd y old).0 p) [
        | inl e ↦ rw e (ground arith)
        | inr o ↦ let q = below y o in ground arith
      ])
      x h

-- select(2) is asked for the listening socket and the sockets of the chatters, and for no other, and
-- its first argument is above each of them.
pub watch_lem :
    (listen : ℕ) (s : Chat) (x : ℕ)
    → IsValid s
    → (((watch listen s).0 x ≡ true) ↔ ((x ≡ listen) ⊎ HasFd x (roster s)))
      × ((watch listen s).0 x ≡ true → x < (watch listen s).1 + 1)
unfolding watch
watch_lem listen s x v =
    let asked = watch_from_iff s.num 0 s (λ y. y == listen) listen x v (omega (arith, v.seats)) in
    let same = ==_iff x listen in
    (
      (
        λ p. elim (asked.0 p) [ inl q ↦ inl (same.0 q) | inr q ↦ inr q ],
        λ p. elim p [ inl q ↦ asked.1 (inl (same.1 q)) | inr q ↦ asked.1 (inr q) ],
      ),
      λ p.
          let q = watch_from_top s.num 0 s (λ y. y == listen) listen (λ y e. ground arith) x p in
          omega arith,
    )
