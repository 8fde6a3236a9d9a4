-- ===== src/ChildPool/Rounds.antt =====
-- A round of the parent with its children.
use cosc.Prelude.{
  ℕ, suc, ◌+◌, ◌-◌, ◌<◌, ◌≡◌, refl, ap, ◌∙◌, Bool, Option, none, some, List, ◌==◌, if◌then◌else◌,
  arith, length, ==_true, ==_false,
}
use native.Mathlib.Decide.{ℕ_discrete}
use cosc.ChildPool.{
  Child, Parent, Kernel, select_pipes, count_set, Result, ok, and_then, newly, collect_all,
  newcomer, round, round_from,
}
use cosc.ChildPool.Collect.{
  freed_all, outcome, freed_none, ended_none, collect_lem, freed_all-IsFreed, select_pipes-Reported,
}
use cosc.ChildPool.Each.{AreAfter, freed_all-AreAfter, Handed-AreAfter}
use cosc.ChildPool.Loads.{
  Balanced, busy, held, Reported, first_ended, IsGiven, give-IsGiven, one_if,
}

-- The parent counts its available children right.
pub record IsSound (s : Parent) : Type 0 where
  pub balanced : Balanced s.cptr
  pub free : s.navail + busy s.cptr ≡ length s.cptr

abbrev pub arrives : ℕ → Option ℕ → ℕ
arrives x none = 0
arrives x (some fd) = one_if (fd == x)

abbrev pub joins : Option ℕ → ℕ
joins none = 0
joins (some fd) = 1

-- What a round leaves: the children as `AreAfter` says, soundly counted, with the sockets that they
-- held and the new one.
pub record IsRound (rset : List Bool) (o : Option ℕ) (s t : Parent) : Type 0 where
  pub sound : IsSound t
  pub each : AreAfter rset o s.cptr t.cptr
  pub size : length t.cptr ≡ length s.cptr
  pub holds : (x : ℕ) → held x t.cptr ≡ held x s.cptr + arrives x o
  pub freed : busy t.cptr + count_set rset ≡ busy s.cptr + joins o

collect_all-outcome :
    (o : Option ℕ) (navail : ℕ) (q : List Child × ℕ)
    → and_then (outcome o q) (λ r. ok (newly navail r)) ≡ outcome o (newly navail q)
collect_all-outcome none navail q = refl
collect_all-outcome (some j) navail q = refl

abbrev pub collected : List Bool → Parent → Parent
collected rset s = newly s.navail (freed_all rset s.cptr, count_set rset)

collect_all_lem :
    (rset : List Bool) (s : Parent)
    → Balanced s.cptr
    → Reported rset s.cptr
    → collect_all rset (count_set rset) s ≡ outcome (first_ended 0 rset s.cptr) (collected rset s)
collect_all_lem rset s b r =
    rw (collect_lem 0 (count_set rset) rset s.cptr b r refl) (collect_all-outcome _ s.navail _)

collected-IsRound :
    (rset : List Bool) (s : Parent)
    → IsSound s
    → Reported rset s.cptr
    → first_ended 0 rset s.cptr ≡ none
    → IsRound rset none s (collected rset s)
collected-IsRound rset s v r n =
    let f = freed_all-IsFreed 0 rset s.cptr v.balanced r n in
    record {
      sound = record { balanced = f.balanced; free = omega (arith, f.size, f.fewer, v.free) };
      each = freed_all-AreAfter 0 rset s.cptr v.balanced r n;
      size = f.size;
      holds = λ x. let h = f.holds x in omega arith;
      freed = omega (arith, f.fewer);
    }

-- The state behind the connection, before the pipes are read.
given-IsSound :
    (fd : ℕ) (s : Parent) (ds : List Child)
    → 0 < s.navail
    → IsSound s
    → IsGiven fd s.cptr ds
    → IsSound (record { cptr = ds; navail = s.navail - 1 })
given-IsSound fd s ds h v g = record {
  balanced = g.balanced;
  free = omega (arith, g.size, g.more, v.free);
}

abbrev pub Rounds : List Bool → Option ℕ → Parent → Type 0
Rounds rset o s =
    (t : Parent) × (round_from rset o s ≡ outcome (first_ended 0 rset s.cptr) t)
    × (first_ended 0 rset s.cptr ≡ none → IsRound rset o s t)

round_given :
    (rset : List Bool) (nsel : ℕ) (s : Parent)
    → nsel ≡ suc (count_set rset)
    → IsSound s
    → Reported rset s.cptr
    → let r : Result Parent = if nsel - 1 == 0 then ok s else collect_all rset (nsel - 1) s in
      r ≡ outcome (first_ended 0 rset s.cptr) (collected rset s)
round_given rset nsel s n v r =
    let e : nsel - 1 ≡ count_set rset = omega (arith, n) in
    rw e (elim (ℕ_discrete (count_set rset) 0) [
      | yes z ↦
          rw (==_true _ _ z, ended_none 0 rset s.cptr z, z, freed_none rset s.cptr z)
            (ap (λ n. ok (record s { navail = n })) (omega arith))
      | no p ↦ rw (==_false _ _ p) (collect_all_lem rset s v.balanced r)
    ])

round_from-Rounds :
    (rset : List Bool) (o : Option ℕ) (s : Parent)
    → IsSound s
    → Reported rset s.cptr
    → ((fd : ℕ) → o ≡ some fd → 0 < s.navail)
    → Rounds rset o s
unfolding round_from
round_from-Rounds rset none s v r h =
    (collected rset s, collect_all_lem rset s v.balanced r, collected-IsRound rset s v r)
round_from-Rounds rset (some fd) s v r h =
    let (ds, e, g) = give-IsGiven fd s.cptr v.balanced (omega (arith, h fd refl, v.free)) in
    let t : Parent = record { cptr = ds; navail = s.navail - 1 } in
    let w = given-IsSound fd s ds (h fd refl) v g in
    let same = g.same 0 rset in
    let rep = g.reported rset r in
    (
      collected rset t,
      rw e (round_given rset _ t refl w rep ∙ ap (λ x. outcome x (collected rset t)) same),
      λ n.
          let c = collected-IsRound rset t w rep (same ∙ n) in
          record {
            sound = c.sound;
            each = Handed-AreAfter fd 0 rset s.cptr ds v.balanced r n g.handed;
            size = c.size ∙ g.size;
            holds = λ x. let a = c.holds x in let b = g.holds x in omega arith;
            freed = omega (arith, c.freed, g.more);
          },
    )

newcomer-free : (k : Kernel) (s : Parent) (fd : ℕ) → newcomer k s ≡ some fd → 0 < s.navail
newcomer-free k s fd h = ground (arith, h)

-- A round of a sound parent ends with a result unless select(2) reports a child that has ended.
pub round-Rounds :
    (k : Kernel) (s : Parent)
    → IsSound s
    → (t : Parent) × (round k s ≡ outcome (first_ended 0 (select_pipes k 0 s.cptr) s.cptr) t)
      × (first_ended 0 (select_pipes k 0 s.cptr) s.cptr ≡ none
          → IsRound (select_pipes k 0 s.cptr) (newcomer k s) s t)
unfolding round
round-Rounds k s v =
    round_from-Rounds _ (newcomer k s) s v (select_pipes-Reported k 0 s.cptr) (newcomer-free k s)
