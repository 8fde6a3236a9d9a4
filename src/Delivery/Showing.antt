-- ===== src/Delivery/Showing.antt =====
-- What the clients show of the bytes that a server sends.
use cosc.Prelude.{
  ℕ, ◌≤◌, ◌<◌, ◌≡◌, refl, sym, ap, List, [], ◌∷◌, ◌++◌, map, length, length-take, length-drop, take,
  drop, take-append-drop, Bytes, arith,
}
use cosc.Prelude.Int.{pos, negsuc}
use cosc.Delivery.{returned, hands, piece_size, data_received, dump_all, dump_once}

-- `p` is the beginning of `s`, not empty, and no longer than the buffer.
pub record IsPiece (p s : Bytes) : Type 0 where
  pub rest : Bytes
  pub splits : s ≡ p ++ rest
  pub some_bytes : 0 < length p
  pub fits : length p ≤ 512

dump_all-all :
    (s : Bytes) (ns : List ℕ)
    → length s < length ns
    → dump_all s (map hands ns) ≡ returned (negsuc 0) s
unfolding dump_all
dump_all-all s [] h = absurd (omega arith)
dump_all-all [] (n ∷ ns) h = refl
dump_all-all (b ∷ bs) (n ∷ ns) h =
    let k = piece_size n in
    let rest = dump_all-all (drop k (b ∷ bs)) ns (omega (arith, length-drop k (b ∷ bs))) in
    rw rest (ap (returned (negsuc 0)) (take-append-drop k (b ∷ bs)))

-- A server sends something and closes the connection. However read(2) cuts it, the client of Lab4 shows
-- all of it, and returns -1, if it gets one more read(2) than there are bytes; the client of Lab2 shows
-- a beginning of it, of one byte at least and 512 bytes at most, with its notice, and returns 0.
pub dump_lem :
    (b : ℕ) (bs : Bytes) (n : ℕ) (ns : List ℕ)
    → length bs < length ns
    → (dump_all (b ∷ bs) (map hands (n ∷ ns)) ≡ returned (negsuc 0) (b ∷ bs))
      × ((p : Bytes) × (dump_once (b ∷ bs) (map hands (n ∷ ns))
            ≡ returned (pos 0) (p ++ data_received))
          × IsPiece p (b ∷ bs))
unfolding dump_once
dump_lem b bs n ns h =
    let k = piece_size n in
    (
      dump_all-all (b ∷ bs) (n ∷ ns) (omega arith),
      (
        take k (b ∷ bs),
        refl,
        record {
          rest = drop k (b ∷ bs);
          splits = sym (take-append-drop k (b ∷ bs));
          some_bytes = omega (arith, length-take k (b ∷ bs));
          fits = omega (arith, length-take k (b ∷ bs));
        },
      ),
    )
