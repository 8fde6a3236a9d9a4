-- ===== src/WebClient/Tests.antt =====
-- The web client on concrete answers of the kernel.
use cosc.Prelude.{
  ℕ, ◌+◌, ◌≡◌, refl, true, false, List, [], ◌∷◌, map, take, All, arith, Bytes, codes, length,
}
use cosc.WebClient.{
  maxfiles, Kernel, begin, start_first, start_connect, write_get_cmd, serve_files, serve_file,
  round, Progress, exits, main_loop, start, file_of,
}
use cosc.WebClient.Counts.{NameFits}
use cosc.WebClient.Rounds.{IsFine, main_loop_lem}

-- Two files, fetched one after the other: each connection is established later, and the server sends
-- nothing but the end.
abbrev two_names : List Bytes
two_names = (97 ∷ []) ∷ (98 ∷ []) ∷ []

abbrev eager : Kernel
eager = record {
  socket = λ left. left + 4;
  at_once = λ left. false;
  readable = λ fd. true;
  writable = λ fd. true;
  received = λ fd. [];
}

two_names-All : All NameFits (map file_of (take maxfiles two_names))
unfolding codes
two_names-All = (omega arith, (omega arith, tt))

abbrev exits_after : Progress → ℕ
exits_after (exits w) = length w.net.sent
exits_after _ = 0

-- Behind four rounds both have been asked for.
eager_run : exits_after (main_loop (eager ∷ eager ∷ eager ∷ eager ∷ []) 1 (start two_names)) ≡ 2
unfolding main_loop start round begin start_first start_connect write_get_cmd serve_files serve_file
    codes
eager_run = refl

main_loop_lem_example :
    IsFine
      (take maxfiles two_names)
      1
      (main_loop (eager ∷ eager ∷ eager ∷ eager ∷ []) 1 (start two_names))
main_loop_lem_example = main_loop_lem (eager ∷ eager ∷ eager ∷ eager ∷ []) two_names 1 two_names-All
