-- ===== src/ChildPool/Loads.antt =====
-- What each child has to do, counted, and what handing it a connection changes.
use cosc.Prelude.{
  ℕ, suc, ◌+◌, ◌≤◌, ◌<◌, ◌≡◌, refl, ap, Bool, true, false, Option, none, some, List, [], ◌∷◌, ◌++◌,
  ◌==◌, ◌&&◌, if◌then◌else◌, arith, length, ==_true, ==_false, inl, inr, ◌⊎◌,
}
use native.Mathlib.Decide.{ℕ_discrete}
use cosc.ChildPool.{
  Phase, reading, serving, reporting, ended, Process, Child, can_read, is_ended, hand, ok, give,
}

-- The connections that a child has, of any kind.
abbrev pub weight : Phase → ℕ
weight reading = 0
weight (serving fd) = 1
weight reporting = 1
weight ended = 1

abbrev pub load : Process → ℕ
load p = length p.inbox + weight p.phase + p.bytes

-- A child has something to do, or to be read, exactly when it is marked, and one thing at most.
abbrev pub Balanced : List Child → Type 0
Balanced [] = Unit
Balanced (c ∷ cs) = ((load c.process ≡ c.child_status) × (c.child_status ≤ 1)) × Balanced cs

abbrev pub busy : List Child → ℕ
busy [] = 0
busy (c ∷ cs) = c.child_status + busy cs

-- How often a socket is among those that a child has received or will receive.
abbrev pub one_if : Bool → ℕ
one_if b = if b then 1 else 0

abbrev pub occurrences : ℕ → List ℕ → ℕ
occurrences fd [] = 0
occurrences fd (x ∷ xs) = one_if (x == fd) + occurrences fd xs

abbrev pub in_service : ℕ → Phase → ℕ
in_service fd reading = 0
in_service fd (serving x) = one_if (x == fd)
in_service fd reporting = 0
in_service fd ended = 0

abbrev pub held : ℕ → List Child → ℕ
held fd [] = 0
held fd (c ∷ cs) = occurrences fd c.process.inbox + in_service fd c.process.phase + held fd cs

-- What select(2) reports can be read.
abbrev pub Reported : List Bool → List Child → Type 0
Reported [] [] = Unit
Reported [] (c ∷ cs) = false ≡ true
Reported (b ∷ bs) [] = false ≡ true
Reported (b ∷ bs) (c ∷ cs) = (b ≡ true → can_read c.process ≡ true) × Reported bs cs

-- The first child that select(2) reports and that has ended, counted from `i`.
abbrev pub first_ended : ℕ → List Bool → List Child → Option ℕ
first_ended i [] cs = none
first_ended i (b ∷ bs) [] = none
first_ended i (b ∷ bs) (c ∷ cs) =
    let rest = first_ended (suc i) bs cs in if b && is_ended c.process.phase then some i else rest

occurrences-append :
    (fd : ℕ) (xs ys : List ℕ) → occurrences fd (xs ++ ys) ≡ occurrences fd xs + occurrences fd ys
occurrences-append fd [] ys = omega arith
occurrences-append fd (x ∷ xs) ys = ground (arith, occurrences-append fd xs ys)

length-append-one : (fd : ℕ) (xs : List ℕ) → length (xs ++ (fd ∷ [])) ≡ suc (length xs)
length-append-one fd [] = refl
length-append-one fd (x ∷ xs) = ap suc (length-append-one fd xs)

-- A child that was available has the connection `fd` to come and is marked.
pub record Receives (fd : ℕ) (c d : Child) : Type 0 where
  pub phase : d.process.phase ≡ c.process.phase
  pub inbox : d.process.inbox ≡ c.process.inbox ++ (fd ∷ [])
  pub bytes : d.process.bytes ≡ c.process.bytes
  pub marked : d.child_status ≡ 1
  pub count : d.child_count ≡ suc c.child_count

-- The first child that is available receives the connection, and the others are as they were.
abbrev pub Handed : ℕ → List Child → List Child → Type 0
Handed fd [] ds = ⊥
Handed fd (c ∷ cs) [] = ⊥
Handed fd (c ∷ cs) (d ∷ ds) =
    ((c.child_status ≡ 0) × Receives fd c d × (ds ≡ cs))
    ⊎ ((c.child_status ≡ 1) × (d ≡ c) × Handed fd cs ds)

-- One child has the connection `fd` more.
pub record IsGiven (fd : ℕ) (cs ds : List Child) : Type 0 where
  pub size : length ds ≡ length cs
  pub balanced : Balanced ds
  pub more : busy ds ≡ suc (busy cs)
  pub holds : (x : ℕ) → held x ds ≡ held x cs + one_if (fd == x)
  pub same : (i : ℕ) (rset : List Bool) → first_ended i rset ds ≡ first_ended i rset cs
  pub reported : (rset : List Bool) → Reported rset cs → Reported rset ds
  pub handed : Handed fd cs ds

abbrev pub Gives : ℕ → List Child → Type 0
Gives fd cs = (ds : List Child) × (give fd cs ≡ ok ds) × IsGiven fd cs ds

same_here :
    (fd : ℕ) (c : Child) (cs : List Child) (n : ℕ) (i : ℕ) (rset : List Bool)
    → first_ended i rset
        (record { process = hand fd c.process; child_status = 1; child_count = n } ∷ cs)
      ≡ first_ended i rset (c ∷ cs)
same_here fd c cs n i [] = refl
same_here fd c cs n i (b ∷ bs) = refl

Reported-here :
    (fd : ℕ) (c : Child) (cs : List Child) (n : ℕ) (rset : List Bool)
    → Reported rset (c ∷ cs)
    → Reported rset (record { process = hand fd c.process; child_status = 1; child_count = n } ∷ cs)
Reported-here fd c cs n [] r = r
Reported-here fd c cs n (b ∷ bs) r = r

give_here :
    (fd : ℕ) (c : Child) (cs : List Child)
    → Balanced (c ∷ cs)
    → c.child_status ≡ 0
    → IsGiven fd (c ∷ cs) (
        record { process = hand fd c.process; child_status = 1; child_count = suc c.child_count }
        ∷ cs)
give_here fd c cs b e = record {
  size = refl;
  balanced = ((rw (length-append-one fd c.process.inbox) (omega (arith, b.0.0)), omega arith), b.1);
  more = omega arith;
  holds = λ x. rw (occurrences-append x c.process.inbox (fd ∷ [])) (omega arith);
  same = same_here fd c cs _;
  reported = Reported-here fd c cs _;
  handed =
      inl
        (e, record { phase = refl; inbox = refl; bytes = refl; marked = refl; count = refl }, refl);
}

same_there :
    (c : Child) (cs ds : List Child)
    → ((i : ℕ) (rset : List Bool) → first_ended i rset ds ≡ first_ended i rset cs)
    → (i : ℕ) (rset : List Bool) → first_ended i rset (c ∷ ds) ≡ first_ended i rset (c ∷ cs)
same_there c cs ds h i [] = refl
same_there c cs ds h i (b ∷ bs) =
    ap (λ r. if b && is_ended c.process.phase then some i else r) (h (suc i) bs)

Reported-there :
    (c : Child) (cs ds : List Child)
    → ((rset : List Bool) → Reported rset cs → Reported rset ds)
    → (rset : List Bool) → Reported rset (c ∷ cs)
    → Reported rset (c ∷ ds)
Reported-there c cs ds h [] r = r
Reported-there c cs ds h (b ∷ bs) r = (r.0, h bs r.1)

give_there :
    (fd : ℕ) (c : Child) (cs ds : List Child)
    → Balanced (c ∷ cs)
    → c.child_status ≡ 1
    → IsGiven fd cs ds
    → IsGiven fd (c ∷ cs) (c ∷ ds)
give_there fd c cs ds b e g = record {
  size = ap suc g.size;
  balanced = (b.0, g.balanced);
  more = let h = g.more in omega arith;
  holds = λ x. let h = g.holds x in omega arith;
  same = same_there c cs ds g.same;
  reported = Reported-there c cs ds g.reported;
  handed = inr (e, refl, g.handed);
}

-- While a child is available, it gets the connection.
pub give-IsGiven : (fd : ℕ) (cs : List Child) → Balanced cs → busy cs < length cs → Gives fd cs
unfolding give
give-IsGiven fd [] b h = absurd (omega arith)
give-IsGiven fd (c ∷ cs) b h = elim (ℕ_discrete c.child_status 0) [
  | yes e ↦ (_, rw (==_true _ _ e) refl, give_here fd c cs b e)
  | no n ↦
      let (ds, e, g) = give-IsGiven fd cs b.1 (let k = b.0.1 in omega arith) in
      (c ∷ ds, rw (==_false _ _ n, e) refl, give_there fd c cs ds b (omega (arith, n, b.0.1)) g)
]
