-- ===== src/Client/Tests.antt =====
-- The chat client on three rounds.
use cosc.Prelude.{◌≡◌, refl, true, false, [], ◌∷◌, ◌++◌, ◌↔◌, arith, some}
use cosc.Client.{Kernel, User, goes_on, on_chat, on_stdin, round, chat_user}
use cosc.Client.Lossy.{Works, all_heard, all_typed, AllTaken, chat_user_iff}
use cosc.Client.Loop.{chat_user_spins}

abbrev hears : Kernel
hears = record {
  selects = true;
  chat_ready = true;
  stdin_ready = true;
  from_chat = 104 ∷ 105 ∷ 10 ∷ [];
  from_stdin = 111 ∷ 10 ∷ [];
  writes = some 3;
}

abbrev types : Kernel
types = record hears { chat_ready = false }

abbrev nobody : User
nobody = record { shown = []; sent = [] }

-- what was typed in the first round is sent in the second
run :
    chat_user (hears ∷ types ∷ []) nobody
    ≡ goes_on (record { shown = 104 ∷ 105 ∷ 10 ∷ []; sent = 111 ∷ 10 ∷ [] })
unfolding chat_user round on_chat on_stdin
run = refl

-- write(2) takes one byte of three: the others are never shown.
short_write :
    chat_user (record hears { writes = some 1 } ∷ types ∷ []) nobody
    ≡ goes_on (record { shown = 104 ∷ []; sent = 111 ∷ 10 ∷ [] })
unfolding chat_user round on_chat on_stdin
short_write = refl

abbrev hears-Works : Works hears
hears-Works = record { selects = refl; taken = 3; writes = refl; room = omega arith }

abbrev types-Works : Works types
types-Works = record { selects = refl; taken = 3; writes = refl; room = omega arith }

chat_user_iff_example :
    (t : User) × (chat_user (hears ∷ types ∷ []) nobody ≡ goes_on t)
    × (((t.shown ≡ [] ++ all_heard (hears ∷ types ∷ []))
          × (t.sent ≡ [] ++ all_typed (hears ∷ types ∷ [])))
        ↔ AllTaken (hears ∷ types ∷ []) (hears-Works, (types-Works, tt)))
chat_user_iff_example = chat_user_iff (hears ∷ types ∷ []) nobody (hears-Works, (types-Works, tt))

abbrev hangup : Kernel
hangup = record hears { from_chat = [] }

chat_user_spins_example : chat_user (hangup ∷ hangup ∷ []) nobody ≡ goes_on nobody
chat_user_spins_example =
    chat_user_spins (hangup ∷ hangup ∷ []) nobody ((refl, refl, refl), ((refl, refl, refl), tt))
