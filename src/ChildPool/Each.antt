-- ===== src/ChildPool/Each.antt =====
-- What a round does to each child.
use cosc.Prelude.{
  ℕ, suc, ◌-◌, ◌≡◌, refl, sym, Bool, true, false, Option, none, some, List, [], ◌∷◌, arith, inl,
  inr, ◌⊎◌,
}
use mathlib.Core.Path.{subst}
use cosc.ChildPool.{Child, can_read, freed}
use cosc.ChildPool.Loads.{Balanced, Reported, first_ended, Receives, Handed}
use cosc.ChildPool.Collect.{freed_all, first_ended-tail}

-- A child that was marked is read once, and is available.
pub record IsAvailable (c d : Child) : Type 0 where
  pub phase : d.process.phase ≡ c.process.phase
  pub inbox : d.process.inbox ≡ c.process.inbox
  pub bytes : suc d.process.bytes ≡ c.process.bytes
  pub marked : c.child_status ≡ 1
  pub unmarked : d.child_status ≡ 0
  pub count : d.child_count ≡ c.child_count

-- The children behind a round, one for each before it. Those that are reported become available. The
-- first of the others that is available receives the connection, if there is one. The rest are as they
-- were.
abbrev pub AreAfter : List Bool → Option ℕ → List Child → List Child → Type 0
AreAfter [] o [] [] = o ≡ none
AreAfter [] o [] (d ∷ ds) = ⊥
AreAfter [] o (c ∷ cs) ds = ⊥
AreAfter (b ∷ bs) o [] ds = ⊥
AreAfter (b ∷ bs) o (c ∷ cs) [] = ⊥
AreAfter (true ∷ bs) o (c ∷ cs) (d ∷ ds) = IsAvailable c d × AreAfter bs o cs ds
AreAfter (false ∷ bs) none (c ∷ cs) (d ∷ ds) = (d ≡ c) × AreAfter bs none cs ds
AreAfter (false ∷ bs) (some fd) (c ∷ cs) (d ∷ ds) =
    ((c.child_status ≡ 0) × Receives fd c d × AreAfter bs none cs ds)
    ⊎ ((c.child_status ≡ 1) × (d ≡ c) × AreAfter bs (some fd) cs ds)

freed-IsAvailable :
    (i : ℕ) (bs : List Bool) (c : Child) (cs : List Child)
    → Balanced (c ∷ cs)
    → can_read c.process ≡ true
    → first_ended i (true ∷ bs) (c ∷ cs) ≡ none
    → IsAvailable c (freed c (record c.process { bytes = c.process.bytes - 1 }))
freed-IsAvailable i bs c cs b r n = record {
  phase = refl;
  inbox = refl;
  bytes = ground (arith, b.0, r, n);
  marked = ground (arith, b.0, r, n);
  unmarked = refl;
  count = refl;
}

pub freed_all-AreAfter :
    (i : ℕ) (rset : List Bool) (cs : List Child)
    → Balanced cs
    → Reported rset cs
    → first_ended i rset cs ≡ none
    → AreAfter rset none cs (freed_all rset cs)
freed_all-AreAfter i [] [] b r n = refl
freed_all-AreAfter i [] (c ∷ cs) b r n = cc
freed_all-AreAfter i (x ∷ bs) [] b r n = cc
freed_all-AreAfter i (true ∷ bs) (c ∷ cs) b r n = (
  freed-IsAvailable i bs c cs b (r.0 refl) n,
  freed_all-AreAfter (suc i) bs cs b.1 r.1 (first_ended-tail i true bs c cs n),
)
freed_all-AreAfter i (false ∷ bs) (c ∷ cs) b r n =
    (refl, freed_all-AreAfter (suc i) bs cs b.1 r.1 (first_ended-tail i false bs c cs n))

pub Handed-AreAfter :
    (fd i : ℕ) (rset : List Bool) (cs ds : List Child)
    → Balanced cs
    → Reported rset cs
    → first_ended i rset cs ≡ none
    → Handed fd cs ds
    → AreAfter rset (some fd) cs (freed_all rset ds)
Handed-AreAfter fd i rset [] ds b r n h = absurd h
Handed-AreAfter fd i rset (c ∷ cs) [] b r n h = absurd h
Handed-AreAfter fd i [] (c ∷ cs) (d ∷ ds) b r n h = cc
Handed-AreAfter fd i (true ∷ bs) (c ∷ cs) (d ∷ ds) b r n (inl h) =
    let a = freed-IsAvailable i bs c cs b (r.0 refl) n in absurd (omega (arith, a.marked, h.0))
Handed-AreAfter fd i (true ∷ bs) (c ∷ cs) (d ∷ ds) b r n (inr h) = (
  subst (λ x. IsAvailable c (freed x (record x.process { bytes = x.process.bytes - 1 }))) (sym h.1)
      (freed-IsAvailable i bs c cs b (r.0 refl) n),
  Handed-AreAfter fd (suc i) bs cs ds b.1 r.1 (first_ended-tail i true bs c cs n) h.2,
)
Handed-AreAfter fd i (false ∷ bs) (c ∷ cs) (d ∷ ds) b r n (inl h) = inl (
  h.0,
  h.1,
  subst (λ xs. AreAfter bs none cs (freed_all bs xs)) (sym h.2)
      (freed_all-AreAfter (suc i) bs cs b.1 r.1 (first_ended-tail i false bs c cs n)),
)
Handed-AreAfter fd i (false ∷ bs) (c ∷ cs) (d ∷ ds) b r n (inr h) =
    inr (
      h.0,
      h.1,
      Handed-AreAfter fd (suc i) bs cs ds b.1 r.1 (first_ended-tail i false bs c cs n) h.2,
    )
