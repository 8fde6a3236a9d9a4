-- ===== src/Chat/Tests.antt =====
-- Lab3/chatserver.c on two chatters, and on a full server.
use cosc.Prelude.{
  ℕ, ◌+◌, ◌≤◌, ◌<◌, ◌≡◌, ◌↔◌, ◌⊎◌, refl, true, false, Option, none, some, [], ◌∷◌, length, arith,
  Bytes, codes, decimal, replicate, starts_with, drop,
}
use cosc.Chat.{
  Chat, Net, start, name_size, buff_size, copy_name, send_from, rename, broadcast, process,
  list_names, present, greeting, add_chatter, compress, remove_chatter, leaves, closing, on_read,
  serve_one, serve_from, joins, admit, admit_if, watch_from, watch, ready_in, round, chat_loop,
  write, close, print, change_name, renamed,
}
use cosc.Chat.Valid.{IsValid}
use cosc.Chat.Roster.{chatter, roster}
use cosc.Chat.Effects.{process-rename, add_chatter_lem, remove_chatter_lem, greeting_for, unknown}
use cosc.Chat.Keeps.{chat_loop-IsValid}
use cosc.Chat.Rounds.{MessageFits, round_total, process-none_iff}

-- "hi"
abbrev hi : Bytes
hi = 104 ∷ 105 ∷ []

-- "bo"
abbrev bo : Bytes
bo = 98 ∷ 111 ∷ []

-- "-name=bo"
abbrev name_bo : Bytes
name_bo = 45 ∷ 110 ∷ 97 ∷ 109 ∷ 101 ∷ 61 ∷ bo

-- Every socket that is asked for is ready, each hands out the same bytes.
abbrev busy : Bytes → Net
busy bytes = record {
  select = λ n watched fd. watched fd;
  accepted = 7;
  received = λ fd. bytes;
  peer_ip = λ fd. 49 ∷ [];
  peer_port = λ fd. 4000;
}

abbrev two : Chat
two = record { fds = 5 ∷ 6 ∷ replicate 38 0; names = hi ∷ bo ∷ replicate 38 []; num = 2; out = [] }

abbrev full : Chat
full = record { fds = replicate 40 9; names = replicate 40 bo; num = 40; out = [] }

two-IsValid : IsValid two
two-IsValid = omega arith

hi-fits : MessageFits (104 ∷ 105 ∷ 10 ∷ [])
unfolding codes
hi-fits = record { short_name = λ h. absurd (cc); short_text = λ h. omega arith }

-- A run of one definition unfolds all of the server.
machine : ℕ → Net → Chat → Option Chat
unfolding copy_name send_from rename broadcast process list_names present greeting add_chatter
    compress leaves remove_chatter closing on_read serve_one serve_from joins admit admit_if
    watch_from watch ready_in round start codes decimal
machine = round

-- Two chatters and one that joins all say "hi\n"; the one that joins is read in the next round:
-- a notice, a greeting and two messages to two chatters each.
abbrev actions : Option Chat → ℕ
actions none = 0
actions (some t) = length t.out

round_runs : actions (machine 3 (busy (104 ∷ 105 ∷ 10 ∷ [])) two) ≡ 6
unfolding machine
round_runs = refl

round_total_example : (t : Chat) × (round 3 (busy (104 ∷ 105 ∷ 10 ∷ [])) two ≡ some t) × IsValid t
round_total_example =
    round_total 3 (busy (104 ∷ 105 ∷ 10 ∷ [])) two (λ fd. hi-fits) two-IsValid (λ h. omega arith)

process-none_iff_example : (process 0 (hi) two ≡ none) ↔ (
    ((starts_with change_name hi ≡ true) × (name_size < length (drop (length change_name) hi)))
    ⊎ ((starts_with change_name hi ≡ false) × (buff_size ≤ length hi + length hi + 3)))
process-none_iff_example = process-none_iff 0 hi two two-IsValid (omega arith)

process-rename_example :
    (t : Chat) × (process 0 name_bo two ≡ some t)
    × IsValid t
    × (roster t ≡ chatter 5 bo ∷ chatter 6 bo ∷ [])
    × (t.out ≡ write 5 (renamed bo) ∷ [])
unfolding codes
process-rename_example =
    process-rename 0 bo name_bo two two-IsValid (omega arith) refl refl (omega arith)

add_chatter_lem_example :
    (t : Chat) × (add_chatter 7 two ≡ some t)
    × IsValid t
    × (roster t ≡ chatter 5 hi ∷ chatter 6 bo ∷ chatter 7 (unknown 2) ∷ [])
    × (t.out ≡ write 7 (greeting_for (roster two)) ∷ [])
add_chatter_lem_example = add_chatter_lem 7 two two-IsValid (omega arith)

remove_chatter_lem_example :
    (roster (remove_chatter (busy []) 0 two) ≡ chatter 6 bo ∷ [])
    × ((remove_chatter (busy []) 0 two).out ≡ print (leaves (49 ∷ []) 4000) ∷ close 5 ∷ [])
remove_chatter_lem_example = remove_chatter_lem (busy []) 0 two two-IsValid (omega arith)

abbrev joined : Chat
joined = elim (chat_loop 3 (busy [] ∷ []) start) [ none ↦ two | some t ↦ t ]

chat_loop-IsValid_example : IsValid joined
unfolding machine chat_loop
chat_loop-IsValid_example = chat_loop-IsValid 3 (busy [] ∷ []) {t = joined} refl
