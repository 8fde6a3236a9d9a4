-- ===== src/Stream/Tests.antt =====
-- readn, writen and readline on short streams.
use cosc.Prelude.{◌≡◌, ◌-◌, ◌^◌, refl, List, [], ◌∷◌, arith, false}
use cosc.Prelude.Int.{pos, negsuc}
use cosc.Stream.{Reply, got, interrupted, readn, ssize, took, cut, writen, Buffered, line, readline}
use cosc.Stream.ReadExact.{answer, full, first_of_stream, closed, readn_lem}
use cosc.Stream.WriteAll.{send_all, writen_lem}
use cosc.Stream.Lines.{Behind, readline_lem}

-- "ab\ncd" in three pieces, with a signal between them
abbrev pieces : List Reply
pieces = got (97 ∷ []) ∷ interrupted ∷ got (98 ∷ 10 ∷ []) ∷ got (99 ∷ 100 ∷ []) ∷ got [] ∷ []

abbrev fresh : Buffered
fresh = record { buf = []; replies = pieces }

readn_five : answer (readn 5 pieces) ≡ full (pos 5) (97 ∷ 98 ∷ 10 ∷ 99 ∷ 100 ∷ [])
unfolding readn
readn_five = refl

-- The stream ends two bytes early: that is what `readn` returns.
readn_seven : answer (readn 7 pieces) ≡ full (pos 5) (97 ∷ 98 ∷ 10 ∷ 99 ∷ 100 ∷ [])
unfolding readn
readn_seven = refl

-- A count that an ssize_t does not hold.
ssize_wraps : ssize (2 ^ 63) ≡ negsuc (2 ^ 63 - 1)
ssize_wraps = refl

readn_lem_example :
    answer (readn 3 pieces) ≡ first_of_stream 3 (97 ∷ 98 ∷ 10 ∷ 99 ∷ 100 ∷ []) closed
readn_lem_example = readn_lem 3 pieces (omega arith) (omega arith)

writen_lem_example :
    writen (97 ∷ 98 ∷ 99 ∷ []) (took 2 ∷ cut ∷ took 1 ∷ []) ≡ send_all (97 ∷ 98 ∷ 99 ∷ []) 3 false
writen_lem_example =
    writen_lem (97 ∷ 98 ∷ 99 ∷ []) (took 2 ∷ cut ∷ took 1 ∷ []) (omega arith) (omega arith)

readline_lem_example :
    (t : Buffered) × (readline 10 fresh ≡ line (97 ∷ 98 ∷ 10 ∷ []) 3 t)
    × Behind fresh t (99 ∷ 100 ∷ [])
readline_lem_example =
    readline_lem 10 (97 ∷ 98 ∷ []) (99 ∷ 100 ∷ []) fresh (omega arith) refl (omega arith)

abbrev last_line : Buffered
last_line = record { buf = 99 ∷ []; replies = got (100 ∷ []) ∷ got [] ∷ [] }
