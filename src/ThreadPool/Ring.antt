-- ===== src/ThreadPool/Ring.antt =====
-- The ring of the thread pool as a queue.
use cosc.Prelude.{
  ℕ, zero, suc, ◌+◌, ◌-◌, ◌%◌, ◌<◌, ◌≡◌, ◌≢◌, ◌↔◌, refl, ap, sym, ◌∙◌, none, some, List, [], ◌∷◌,
  ◌++◌, arith, length, get_or, set, length-set, get_or-set_self, get_or-set_ne, ==_true, ==_false,
  none_some, some_inj,
}
use mathlib.Core.Path.{ap₂, subst}
use native.Mathlib.Decide.{ℕ_discrete}
use cosc.ThreadPool.{Pool, max_ncli, advance, push, next_fd, take_fd, signalling}

-- `n` sockets of the ring from index `g` on.
abbrev pub contents : List ℕ → ℕ → ℕ → List ℕ
contents ring g zero = []
contents ring g (suc n) = get_or ring g 0 ∷ contents ring (advance g) n

-- How many sockets wait in the ring, and which.
abbrev pub queued : Pool → ℕ
queued s = (s.iput + max_ncli - s.iget) % max_ncli

abbrev pub queue : Pool → List ℕ
queue s = contents s.clifd s.iget (queued s)

pub record Fits (ring : List ℕ) (g p : ℕ) : Type 0 where
  pub size : length ring ≡ max_ncli
  pub get_in : g < max_ncli
  pub put_in : p < max_ncli

abbrev pub IsRing : Pool → Type 0
IsRing s = Fits s.clifd s.iget s.iput

pub length-contents : (ring : List ℕ) (g n : ℕ) → length (contents ring g n) ≡ n
length-contents ring g zero = refl
length-contents ring g (suc n) = ap suc (length-contents ring (advance g) n)

advance_mod : (g : ℕ) → g < max_ncli → advance g ≡ (g + 1) % max_ncli
advance_mod g h = ground arith

-- A write behind the first `n` sockets of the ring is not among them.
contents-set :
    (ring : List ℕ) (g n p v : ℕ)
    → g < max_ncli
    → n < max_ncli
    → p ≡ (g + n) % max_ncli
    → contents (set ring p v) g n ≡ contents ring g n
contents-set ring g zero p v h k e = refl
contents-set ring g (suc n) p v h k e =
    let a = advance_mod g h in
    let apart : p ≢ g = omega (arith, e) in
    let rest = contents-set ring (advance g) n p v (omega arith) (omega arith) (omega arith) in
    ap₂ ◌∷◌ (get_or-set_ne ring v 0 apart) rest

contents-snoc :
    (ring : List ℕ) (g n : ℕ)
    → g < max_ncli
    → contents ring g (suc n) ≡ contents ring g n ++ (get_or ring ((g + n) % max_ncli) 0 ∷ [])
contents-snoc ring g zero h = let same : (g + 0) % max_ncli ≡ g = omega arith in rw same
contents-snoc ring g (suc n) h =
    let a = advance_mod g h in
    let same : (advance g + n) % max_ncli ≡ (g + suc n) % max_ncli = omega arith in
    ap (◌∷◌ (get_or ring g 0)) (contents-snoc ring (advance g) n (omega arith) ∙ rw same)

abbrev pushed : ℕ → Pool → Pool
pushed fd s = record s {
  clifd = set s.clifd s.iput fd;
  iput = advance s.iput;
  main_pc = signalling;
}

push_full : (fd : ℕ) (s : Pool) → advance s.iput ≡ s.iget → push fd s ≡ none
unfolding push
push_full fd s e = rw (==_true _ _ e)

push_room : (fd : ℕ) (s : Pool) → advance s.iput ≢ s.iget → push fd s ≡ some (pushed fd s)
unfolding push
push_room fd s e = rw (==_false _ _ e)

-- The ring has room for one socket less than its size: a push behind that ends the process.
pub push-none_iff :
    (fd : ℕ) (s : Pool) → IsRing s → (push fd s ≡ none) ↔ (length (queue s) ≡ max_ncli - 1)
push-none_iff fd s v =
    let a = advance_mod s.iput v.put_in in
    let l = length-contents s.clifd s.iget (queued s) in
    (
      λ h. elim (ℕ_discrete (advance s.iput) s.iget) [
        | yes e ↦ omega (arith, l, a, e)
        | no e ↦ none_some (sym h ∙ push_room fd s e)
      ],
      λ h. push_full fd s (omega (arith, l, a, h)),
    )

-- What a push that does not end the process leaves.
pub push_inv :
    (fd : ℕ) (s t : Pool) → push fd s ≡ some t → (advance s.iput ≢ s.iget) × (t ≡ pushed fd s)
push_inv fd s t h = elim (ℕ_discrete (advance s.iput) s.iget) [
  | yes e ↦ none_some (sym (push_full fd s e) ∙ h)
  | no e ↦ (e, some_inj (sym h ∙ push_room fd s e))
]

queue-pushed :
    (fd : ℕ) (s : Pool)
    → IsRing s
    → advance s.iput ≢ s.iget
    → queue (pushed fd s) ≡ queue s ++ (fd ∷ [])
queue-pushed fd s v e =
    let a = advance_mod s.iput v.put_in in
    let n = queued s in
    let ring = set s.clifd s.iput fd in
    let more : queued (pushed fd s) ≡ suc n = omega (arith, a, e) in
    let last : (s.iget + n) % max_ncli ≡ s.iput = omega arith in
    ap (contents ring s.iget) more
    ∙ contents-snoc ring s.iget n v.get_in
    ∙ ap₂ (λ xs x. xs ++ (x ∷ []))
        (contents-set s.clifd s.iget n s.iput fd v.get_in (omega arith) (sym last))
        (ap (λ k. get_or ring k 0) last
          ∙ get_or-set_self s.clifd s.iput fd 0 (omega (arith, v.size)))

-- A push appends its socket to the queue.
pub queue-push :
    (fd : ℕ) (s t : Pool)
    → IsRing s
    → push fd s ≡ some t
    → (queue t ≡ queue s ++ (fd ∷ [])) × IsRing t
queue-push fd s t v h =
    let (room, e) = push_inv fd s t h in
    let a = advance_mod s.iput v.put_in in
    subst (λ u. (queue u ≡ queue s ++ (fd ∷ [])) × IsRing u) (sym e)
      (
        queue-pushed fd s v room,
        record {
          size = length-set s.clifd s.iput fd ∙ v.size;
          get_in = v.get_in;
          put_in = omega (arith, a);
        },
      )

-- A thread takes the first socket of the queue.
pub queue-take :
    (i : ℕ) (s : Pool)
    → IsRing s
    → s.iget ≢ s.iput
    → (queue s ≡ next_fd s ∷ queue (take_fd i s)) × IsRing (take_fd i s)
unfolding take_fd
queue-take i s v e =
    let a = advance_mod s.iget v.get_in in
    let more : queued s ≡ suc (queued (take_fd i s)) = omega (arith, a, e) in
    (
      ap (contents s.clifd s.iget) more,
      record { size = v.size; get_in = omega (arith, a); put_in = v.put_in },
    )

pub queue-nil_iff : (s : Pool) → IsRing s → (queue s ≡ []) ↔ (s.iget ≡ s.iput)
queue-nil_iff s v =
    let l = length-contents s.clifd s.iget (queued s) in
    (
      λ h. omega (arith, l, ap length h),
      λ h.
          let none_queued : queued s ≡ 0 = omega (arith, h) in
          ap (contents s.clifd s.iget) none_queued,
    )
