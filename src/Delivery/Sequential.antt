-- ===== src/Delivery/Sequential.antt =====
-- The sequential server of Lab4: it serves until the first call that fails.
use cosc.Prelude.{
  ℕ, ◌≡◌, refl, ap, sym, ◌∙◌, true, false, none, some, List, [], ◌∷◌, ◌++◌, Bytes, All, arith, ◌⊎◌,
  append-nil,
}
use cosc.Delivery.{Visit, Served, server_loop}

-- Every call for a connection succeeds.
pub record Succeeds (v : Visit) : Type 0 where
  pub fd : ℕ
  pub file_fd : ℕ
  pub bytes : Bytes
  pub accepts : v.accepted ≡ some fd
  pub opens : v.file ≡ some (file_fd, bytes)
  pub sends : v.sends ≡ true

abbrev pub Breaks : Visit → Type 0
Breaks v = (v.accepted ≡ none) ⊎ ((v.file ≡ none) ⊎ (v.sends ≡ false))

-- The sockets that are served whole, with the files.
abbrev pub whole : (vs : List Visit) → All Succeeds vs → List (ℕ × Bytes)
whole [] g = []
whole (v ∷ vs) g = (g.0.fd, g.0.bytes) ∷ whole vs g.1

server_loop_step :
    (v : Visit) (vs : List Visit) (g : Succeeds v)
    → server_loop (v ∷ vs)
      ≡ record (server_loop vs) { sent = (g.fd, g.bytes) ∷ (server_loop vs).sent }
unfolding server_loop
server_loop_step v vs g = simp (g.accepts, g.opens, g.sends)

server_loop_good :
    (vs ws : List Visit) (g : All Succeeds vs)
    → server_loop (vs ++ ws)
      ≡ record (server_loop ws) { sent = whole vs g ++ (server_loop ws).sent }
server_loop_good [] ws g = refl
server_loop_good (v ∷ vs) ws g =
    server_loop_step v (vs ++ ws) g.0
    ∙ ap (λ (r : Served). record r { sent = (g.0.fd, g.0.bytes) ∷ r.sent })
        (server_loop_good vs ws g.1)

server_loop_ends :
    (v : Visit) (ws : List Visit)
    → Breaks v
    → (server_loop (v ∷ ws) ≡ server_loop (v ∷ [])) × ((server_loop (v ∷ ws)).returns ≡ true)
unfolding server_loop
server_loop_ends v ws b = ground arith

server_loop_nil :
    (vs : List Visit) (g : All Succeeds vs)
    → record (server_loop []) { sent = whole vs g ++ (server_loop []).sent }
      ≡ record { sent = whole vs g; left_open = []; returns = false }
unfolding server_loop
server_loop_nil vs g = rw (append-nil (whole vs g))

-- The server sends the whole file to everybody who connects before the first call that fails, in
-- order, and leaves nothing open; at that call it returns, and those behind it get nothing.
pub server_loop_lem :
    (vs : List Visit) (v : Visit) (ws : List Visit) (g : All Succeeds vs)
    → Breaks v
    → (server_loop vs ≡ record { sent = whole vs g; left_open = []; returns = false })
      × (server_loop (vs ++ (v ∷ ws)) ≡ server_loop (vs ++ (v ∷ [])))
      × ((server_loop (vs ++ (v ∷ ws))).returns ≡ true)
      × ((server_loop (vs ++ (v ∷ ws))).sent ≡ whole vs g ++ (server_loop (v ∷ [])).sent)
server_loop_lem vs v ws g b =
    let (same, ends) = server_loop_ends v ws b in
    let run = server_loop_good vs (v ∷ ws) g in
    (
      sym (ap server_loop (append-nil vs)) ∙ server_loop_good vs [] g ∙ server_loop_nil vs g,
      rw (run, server_loop_good vs (v ∷ []) g) (rw same),
      rw run ends,
      rw run (rw same),
    )
