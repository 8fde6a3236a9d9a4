-- ===== src/ChildPool/Collect.antt =====
-- The loop of the parent over its children, against a description without `nsel`.
use cosc.Prelude.{
  ℕ, suc, ◌+◌, ◌-◌, ◌≤◌, ◌≡◌, refl, ap, ◌∙◌, Bool, true, false, Option, none, some, List, [], ◌∷◌,
  ◌==◌, if◌then◌else◌, arith, length, ==_true, ==_false, ◌≢◌, Bool-cases, inl, inr,
}
use mathlib.Core.Path.{ap₂}
use native.Mathlib.Decide.{ℕ_discrete}
use cosc.ChildPool.{
  Process, Child, Kernel, can_read, is_ended, select_pipes, count_set, Result, ok, terminated,
  freed, read_byte, collect, one_more, none_more,
}
use cosc.ChildPool.Loads.{load, Balanced, busy, held, Reported, first_ended}

-- Every child that select(2) reports is read once and marked as available.
abbrev pub freed_all : List Bool → List Child → List Child
freed_all [] cs = cs
freed_all (b ∷ bs) [] = []
freed_all (b ∷ bs) (c ∷ cs) =
    let rest = freed_all bs cs in
    (if b then freed c (record c.process { bytes = c.process.bytes - 1 }) else c) ∷ rest

-- What the loop over the children is to do: it ends the process at the first child that has ended.
abbrev pub outcome : {A : Type 0} → Option ℕ → A → Result A
outcome none q = ok q
outcome (some j) q = terminated j

abbrev pub expected : ℕ → List Bool → List Child → Result (List Child × ℕ)
expected i rset cs = outcome (first_ended i rset cs) (freed_all rset cs, count_set rset)

-- Nothing to do when nothing is reported.
pub freed_none : (rset : List Bool) (cs : List Child) → count_set rset ≡ 0 → freed_all rset cs ≡ cs
unfolding count_set
freed_none [] cs h = refl
freed_none (b ∷ bs) [] h = refl
freed_none (true ∷ bs) (c ∷ cs) h = absurd (omega (arith, h))
freed_none (false ∷ bs) (c ∷ cs) h = ap (◌∷◌ c) (freed_none bs cs (omega (arith, h)))

pub ended_none :
    (i : ℕ) (rset : List Bool) (cs : List Child) → count_set rset ≡ 0 → first_ended i rset cs ≡ none
unfolding count_set
ended_none i [] cs h = refl
ended_none i (b ∷ bs) [] h = refl
ended_none i (true ∷ bs) (c ∷ cs) h = absurd (omega (arith, h))
ended_none i (false ∷ bs) (c ∷ cs) h = ended_none (suc i) bs cs (omega (arith, h))

expected_none :
    (i : ℕ) (rset : List Bool) (cs : List Child)
    → count_set rset ≡ 0
    → expected i rset cs ≡ ok (cs, 0)
expected_none i rset cs h =
    rw (ended_none i rset cs h) (ap₂ (λ x y. ok (x, y)) (freed_none rset cs h) h)

-- Of a child with one thing to do that can be read: it has ended and left nothing, or left one byte.
read_byte-ended : (p : Process) → load p ≤ 1 → is_ended p.phase ≡ true → read_byte p ≡ none
unfolding read_byte
read_byte-ended p h e = ground (arith, h, e)

read_byte-live :
    (p : Process)
    → can_read p ≡ true
    → is_ended p.phase ≡ false
    → read_byte p ≡ some (record p { bytes = p.bytes - 1 })
unfolding read_byte
read_byte-live p h e = ground (arith, h, e)

none_more-outcome :
    (c : Child) (o : Option ℕ) (cs : List Child) (n : ℕ)
    → none_more c (outcome o (cs, n)) ≡ outcome o (c ∷ cs, n)
none_more-outcome c none cs n = refl
none_more-outcome c (some j) cs n = refl

one_more-outcome :
    (c : Child) (o : Option ℕ) (cs : List Child) (n m : ℕ)
    → suc n ≡ m
    → one_more c (outcome o (cs, n)) ≡ outcome o (c ∷ cs, m)
one_more-outcome c none cs n m e = ap (λ x. ok (c ∷ cs, x)) e
one_more-outcome c (some j) cs n m e = refl

collect_live :
    (i nsel : ℕ) (c d : Child) (bs : List Bool) (cs : List Child)
    → nsel ≡ suc (count_set bs)
    → collect (suc i) bs (nsel - 1) cs ≡ expected (suc i) bs cs
    → (if nsel - 1 == 0 then ok (d ∷ cs, 1) else one_more d (collect (suc i) bs (nsel - 1) cs))
      ≡ outcome (first_ended (suc i) bs cs) (d ∷ freed_all bs cs, 1 + count_set bs)
collect_live i nsel c d bs cs n h = elim (ℕ_discrete (count_set bs) 0) [
  | yes z ↦
      let one : nsel - 1 ≡ 0 = omega (arith, n, z) in
      rw (==_true _ _ one, ended_none (suc i) bs cs z, freed_none bs cs z, z) refl
  | no p ↦
      let ne : nsel - 1 ≢ 0 = omega (arith, n, p) in
      rw (==_false _ _ ne, h) (one_more-outcome d _ _ _ _ (omega arith))
]

collect_step :
    (i nsel : ℕ) (c : Child) (bs : List Bool) (cs : List Child)
    → Balanced (c ∷ cs)
    → can_read c.process ≡ true
    → nsel ≡ suc (count_set bs)
    → collect (suc i) bs (nsel - 1) cs ≡ expected (suc i) bs cs
    → collect i (true ∷ bs) nsel (c ∷ cs) ≡ expected i (true ∷ bs) (c ∷ cs)
unfolding collect count_set
collect_step i nsel c bs cs b r n h = elim (Bool-cases (is_ended c.process.phase)) [
  | inl e ↦
      let l : load c.process ≤ 1 = omega (arith, b.0.0, b.0.1) in
      rw (read_byte-ended c.process l e, e) refl
  | inr e ↦ rw (read_byte-live c.process r e, e) (collect_live i nsel c _ bs cs n h)
]

pub collect_lem :
    (i nsel : ℕ) (rset : List Bool) (cs : List Child)
    → Balanced cs
    → Reported rset cs
    → nsel ≡ count_set rset
    → collect i rset nsel cs ≡ expected i rset cs
unfolding collect count_set
collect_lem i nsel [] cs b r n = refl
collect_lem i nsel (x ∷ bs) [] b r n = cc
collect_lem i nsel (true ∷ bs) (c ∷ cs) b r n =
    collect_step i nsel c bs cs b (r.0 refl) (omega (arith, n))
      (collect_lem (suc i) (nsel - 1) bs cs b.1 r.1 (omega (arith, n)))
collect_lem i nsel (false ∷ bs) (c ∷ cs) b r n =
    rw (collect_lem (suc i) nsel bs cs b.1 r.1 (omega (arith, n))) (
      none_more-outcome c _ _ _
      ∙ ap (λ x. outcome (first_ended (suc i) bs cs) (c ∷ freed_all bs cs, x)) (omega arith))

-- What the loop leaves, where it does not end the process.
pub record IsFreed (rset : List Bool) (cs ds : List Child) : Type 0 where
  pub size : length ds ≡ length cs
  pub balanced : Balanced ds
  pub fewer : busy ds + count_set rset ≡ busy cs
  pub holds : (x : ℕ) → held x ds ≡ held x cs

IsFreed-step :
    (i : ℕ) (b : Bool) (bs : List Bool) (c : Child) (cs : List Child)
    → Balanced (c ∷ cs)
    → (b ≡ true → can_read c.process ≡ true)
    → first_ended i (b ∷ bs) (c ∷ cs) ≡ none
    → IsFreed bs cs (freed_all bs cs)
    → IsFreed (b ∷ bs) (c ∷ cs) (freed_all (b ∷ bs) (c ∷ cs))
unfolding count_set
IsFreed-step i true bs c cs b r n g = record {
  size = ap suc g.size;
  balanced = ((ground (arith, b.0, r refl, n), omega arith), g.balanced);
  fewer = ground (arith, b.0, r refl, n, g.fewer);
  holds = λ x. let h = g.holds x in omega arith;
}
IsFreed-step i false bs c cs b r n g = record {
  size = ap suc g.size;
  balanced = (b.0, g.balanced);
  fewer = omega (arith, g.fewer);
  holds = λ x. let h = g.holds x in omega arith;
}

pub first_ended-tail :
    (i : ℕ) (b : Bool) (bs : List Bool) (c : Child) (cs : List Child)
    → first_ended i (b ∷ bs) (c ∷ cs) ≡ none
    → first_ended (suc i) bs cs ≡ none
first_ended-tail i b bs c cs h = ground (arith, h)

pub freed_all-IsFreed :
    (i : ℕ) (rset : List Bool) (cs : List Child)
    → Balanced cs
    → Reported rset cs
    → first_ended i rset cs ≡ none
    → IsFreed rset cs (freed_all rset cs)
unfolding count_set
freed_all-IsFreed i [] cs b r n = record {
  size = refl;
  balanced = b;
  fewer = omega arith;
  holds = λ x. refl;
}
freed_all-IsFreed i (x ∷ bs) [] b r n = cc
freed_all-IsFreed i (x ∷ bs) (c ∷ cs) b r n =
    IsFreed-step i x bs c cs b r.0 n
      (freed_all-IsFreed (suc i) bs cs b.1 r.1 (first_ended-tail i x bs c cs n))

pub select_pipes-Reported :
    (k : Kernel) (i : ℕ) (cs : List Child) → Reported (select_pipes k i cs) cs
unfolding select_pipes
select_pipes-Reported k i [] = tt
select_pipes-Reported k i (c ∷ cs) = (λ e. ground (arith, e), select_pipes-Reported k (suc i) cs)
