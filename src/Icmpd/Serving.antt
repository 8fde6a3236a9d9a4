-- ===== src/Icmpd/Serving.antt =====
-- The loop of the daemon over its clients.
use cosc.Prelude.{
  ℕ, zero, suc, ◌+◌, ◌-◌, ◌≤◌, ◌≡◌, refl, ap, ◌∙◌, ◌⊎◌, inl, inr, Bool, true, false, Option, none,
  some, List, [], ◌∷◌, ltb, leb, ◌==◌, ◌||◌, if◌then◌else◌, arith, length, Bool-cases,
}
use native.Mathlib.Decide.{ℕ_discrete}
use cosc.Prelude.Int.{ℤ, is_zero, is_negative}
use cosc.Icmpd.{
  Entry, Action, Passed, ended, no_descriptor, descriptor, Kernel, readable_conn, sock_get_port,
  sock_bind_wild, Loop, keep, done, settle, serve,
}
use cosc.Icmpd.Tables.{one_if, one, count, FreeFrom, Tracks}

-- What the loop over the clients leaves.
pub record IsServed (b : ℕ → ℕ) (k : ℕ) (es : List Entry) (all : ℕ → Bool) (r : Loop) : Type 0 where
  pub size : length r.0 ≡ length es
  pub free : FreeFrom k r.0
  pub tracks : Tracks b r.0 r.1
  pub fewer : (x : ℕ) → r.1 x ≡ true → all x ≡ true

abbrev Connected : Option ℕ → Entry → Type 0
Connected o e = (e.connfd ≡ o) ⊎ (e.connfd ≡ none)

readable_conn-Connected :
    (p : Passed) (wild : Option ℕ) (fd : ℕ) (e : Entry)
    → Connected e.connfd (readable_conn p wild fd e).0
unfolding readable_conn
readable_conn-Connected ended wild fd e = inr refl
readable_conn-Connected no_descriptor wild fd e = inr refl
readable_conn-Connected (descriptor r none) wild fd e = inr refl
readable_conn-Connected (descriptor r (some n)) wild fd e =
    elim (Bool-cases (is_zero (sock_get_port n))) [
      | inl z ↦
          elim (Bool-cases (
            is_negative (sock_bind_wild n.family wild) || is_zero (sock_bind_wild n.family wild))) [
              | inl q ↦ rw z (rw q (inr refl))
              | inr q ↦ rw z (rw q (inl refl))
            ]
      | inr z ↦ rw z (inl refl)
    ]

-- The tables without their first entry: what is known of the others.
tail-Tracks :
    (b : ℕ → ℕ) (e : Entry) (es : List Entry) (all : ℕ → Bool)
    → Tracks b (e ∷ es) all
    → Tracks (λ x. b x + one x e) es all
tail-Tracks b e es all t = record {
  watched = λ x. t.watched x ∙ ap (ltb 0) (omega arith);
  single = λ x. let s = t.single x in omega arith;
}

cons-Tracks :
    (b : ℕ → ℕ) (e : Entry) (es : List Entry) (all : ℕ → Bool)
    → Tracks (λ x. b x + one x e) es all
    → Tracks b (e ∷ es) all
cons-Tracks b e es all t = record {
  watched = λ x. t.watched x ∙ ap (ltb 0) (omega arith);
  single = λ x. let s = t.single x in omega arith;
}

fd_clr_one :
    (x fd c : ℕ) (a : Bool)
    → a ≡ ltb 0 (c + one_if (fd == x))
    → c + one_if (fd == x) ≤ 1
    → (if x == fd then false else a) ≡ ltb 0 (c + 0)
fd_clr_one x fd c a w s = elim (ℕ_discrete x fd) [
  | yes e ↦ ground (arith, w, s, e)
  | no d ↦ ground (arith, w, s, d)
]

one-connected : (x fd : ℕ) (e : Entry) → e.connfd ≡ some fd → one x e ≡ one_if (fd == x)
one-connected x fd e h = rw h refl

settle-Tracks :
    (b : ℕ → ℕ) (fd : ℕ) (d e : Entry) (es : List Entry) (all : ℕ → Bool)
    → e.connfd ≡ some fd
    → Connected (some fd) d
    → Tracks b (e ∷ es) all
    → Tracks (λ x. b x + one x d) es (settle d fd all)
settle-Tracks b fd d e es all h (inl c) t = rw c (record {
  watched = λ x. t.watched x ∙ ap (ltb 0) (let o = one-connected x fd e h in omega arith);
  single = λ x. let s = t.single x in let o = one-connected x fd e h in omega arith;
})
settle-Tracks b fd d e es all h (inr c) t = rw c (record {
  watched = λ x.
      let o = one-connected x fd e h in
      let s = t.single x in
      fd_clr_one x fd (b x + count x es) (all x) (t.watched x ∙ ap (ltb 0) (omega arith))
        (omega arith)
      ∙ ap (ltb 0) (omega arith);
  single = λ x. let s = t.single x in omega arith;
})

settle_fewer : (d : Entry) (fd x : ℕ) (all : ℕ → Bool) → settle d fd all x ≡ true → all x ≡ true
settle_fewer d fd x all h = ground (arith, h)

keep-IsServed :
    (b : ℕ → ℕ) (k : ℕ) (e : Entry) (es : List Entry) (all : ℕ → Bool) (r : Loop)
    → IsServed (λ x. b x + one x e) k es all r
    → IsServed b (suc k) (e ∷ es) all (keep e r)
keep-IsServed b k e es all r v = record {
  size = ap suc v.size;
  free = v.free;
  tracks = cons-Tracks b e r.0 r.1 v.tracks;
  fewer = v.fewer;
}

done-IsServed :
    (b : ℕ → ℕ) (k fd : ℕ) (d e : Entry) (a : List Action) (es : List Entry) (all : ℕ → Bool)
    (r : Loop)
    → IsServed (λ x. b x + one x d) k es (settle d fd all) r
    → IsServed b (suc k) (e ∷ es) all (done (d, a) r)
done-IsServed b k fd d e a es all r v = record {
  size = ap suc v.size;
  free = v.free;
  tracks = cons-Tracks b d r.0 r.1 v.tracks;
  fewer = λ x h. settle_fewer d fd x all (v.fewer x h);
}

same-IsServed :
    (b : ℕ → ℕ) (k : ℕ) (es : List Entry) (all : ℕ → Bool)
    → FreeFrom k es
    → Tracks b es all
    → IsServed b k es all (es, all, [])
same-IsServed b k es all f t = record { size = refl; free = f; tracks = t; fewer = λ x h. h }

-- The loop over the clients behind this one, whatever is left to serve.
abbrev Later : Kernel → (ℕ → Bool) → ℕ → List Entry → Type 0
Later k ready n es =
    (b : ℕ → ℕ) (all : ℕ → Bool) (nready : ℕ)
    → Tracks b es all
    → IsServed b n es all (serve k ready n nready es all)

serve_open :
    (k : Kernel) (ready : ℕ → Bool) (n nready fd : ℕ) (family : ℕ) (lport : ℤ) (es : List Entry)
    (all : ℕ → Bool) (b : ℕ → ℕ)
    → let e : Entry = record { connfd = some fd; family = family; lport = lport } in
      FreeFrom n es
      → Tracks b (e ∷ es) all
      → Later k ready n es
      → IsServed b (suc n) (e ∷ es) all (serve k ready (suc n) nready (e ∷ es) all)
unfolding serve
serve_open k ready n nready fd family lport es all b f t later =
    let e : Entry = record { connfd = some fd; family = family; lport = lport } in
    let c = readable_conn-Connected (k.passed fd) (k.wild_port fd) fd e in
    let d = (readable_conn (k.passed fd) (k.wild_port fd) fd e).0 in
    let u = settle-Tracks b fd d e es all refl c t in
    elim (Bool-cases (ready fd)) [
      | inr r ↦
          rw (r, serve)
            (keep-IsServed b n e es all _ (later _ all nready (tail-Tracks b e es all t)))
      | inl r ↦ elim (Bool-cases (leb nready 1)) [
        | inl q ↦
            rw (r, serve)
              (rw (q, serve) (done-IsServed b n fd d e _ es all _ (same-IsServed _ n es _ f u)))
        | inr q ↦
            rw (r, serve)
              (rw (q, serve)
                (done-IsServed b n fd d e _ es all _ (later _ (settle d fd all) (nready - 1) u)))
      ]
    ]

serve_step :
    (k : Kernel) (ready : ℕ → Bool) (n nready : ℕ) (o : Option ℕ) (family : ℕ) (lport : ℤ)
    (es : List Entry) (all : ℕ → Bool) (b : ℕ → ℕ)
    → let e : Entry = record { connfd = o; family = family; lport = lport } in
      FreeFrom n es
      → Tracks b (e ∷ es) all
      → Later k ready n es
      → IsServed b (suc n) (e ∷ es) all (serve k ready (suc n) nready (e ∷ es) all)
unfolding serve
serve_step k ready n nready none family lport es all b f t later =
    let e : Entry = record { connfd = none; family = family; lport = lport } in
    keep-IsServed b n e es all _ (later _ all nready (tail-Tracks b e es all t))
serve_step k ready n nready (some fd) family lport es all b f t later =
    serve_open k ready n nready fd family lport es all b f t later

pub serve-IsServed :
    (k : Kernel) (ready : ℕ → Bool) (n nready : ℕ) (es : List Entry) (all : ℕ → Bool) (b : ℕ → ℕ)
    → FreeFrom n es
    → Tracks b es all
    → IsServed b n es all (serve k ready n nready es all)
unfolding serve
serve-IsServed k ready zero nready es all b f t = same-IsServed b zero es all f t
serve-IsServed k ready (suc n) nready [] all b f t = same-IsServed b (suc n) [] all f t
serve-IsServed k ready (suc n) nready (e ∷ es) all b f t =
    serve_step k ready n nready e.connfd e.family e.lport es all b f t
      (λ c a m u. serve-IsServed k ready n m es a c f u)
