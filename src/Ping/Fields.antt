-- ===== src/Ping/Fields.antt =====
-- The fields of an answer to an echo request, as Lab2017/ping/proc_v4.c and proc_v6.c read them.
use cosc.Prelude.{
  ℕ, suc, ◌+◌, ◌*◌, ◌/◌, ◌%◌, ◌^◌, ◌<◌, ◌≡◌, refl, ◌∙◌, [], ◌∷◌, ◌++◌, length, arith, get_or, Bytes,
}
use mathlib.Core.Path.{ap₂}
use cosc.Packet.{Packet, byte_at, word_at}
use cosc.Packet.Parts.{byte_at-append, word_at-append}
use cosc.Ping.{Timeval, rest_of, long_at, timeval_at}

-- The answer of a host to an echo request: its type, the new checksum, and the rest of the request.
abbrev pub answer_to : ℕ → ℕ → ℕ → Bytes → Bytes
answer_to type lo hi (a ∷ b ∷ c ∷ d ∷ rest) = type ∷ 0 ∷ lo ∷ hi ∷ rest
answer_to type lo hi (a ∷ b ∷ c ∷ []) = a ∷ b ∷ c ∷ []
answer_to type lo hi (a ∷ b ∷ []) = a ∷ b ∷ []
answer_to type lo hi (a ∷ []) = a ∷ []
answer_to type lo hi [] = []

-- The two numbers of a time are longs.
pub record IsLong (t : Timeval) : Type 0 where
  pub sec : t.tv_sec < 2 ^ 64
  pub usec : t.tv_usec < 2 ^ 64

abbrev pub answer_of : ℕ → ℕ → ℕ → ℕ → ℕ → Timeval → Bytes
answer_of type lo hi pid nsent sent = type ∷ 0 ∷ lo ∷ hi ∷ rest_of pid nsent sent

pub length-answer_of :
    (type lo hi pid nsent : ℕ) (sent : Timeval) → length (answer_of type lo hi pid nsent sent) ≡ 64
length-answer_of type lo hi pid nsent sent = omega arith

module _ (header : Bytes) (type lo hi pid nsent : ℕ) (sent : Timeval) (old : ℕ → ℕ) where
  abbrev pub whole : Packet
  whole = record { bytes = header ++ answer_of type lo hi pid nsent sent; old = old }

  word_in :
      (i j v : ℕ)
      → i ≡ length header + j
      → suc j < 64
      → get_or (answer_of type lo hi pid nsent sent) j 0
          + 256 * get_or (answer_of type lo hi pid nsent sent) (suc j) 0
        ≡ v
      → word_at whole i ≡ v
  word_in i j v e h q =
      word_at-append header (answer_of type lo hi pid nsent sent) old i j e (omega arith) ∙ q

  pub identifier : pid < 65536 → word_at whole (length header + 4) ≡ pid
  identifier h = word_in (length header + 4) 4 pid refl (omega arith) (omega arith)

  pub number : word_at whole (length header + 6) ≡ nsent % 65536
  number = word_in (length header + 6) 6 (nsent % 65536) refl (omega arith) (omega arith)

  seconds : sent.tv_sec < 2 ^ 64 → long_at whole (length header + 8) ≡ sent.tv_sec
  seconds h =
      let w : (k : ℕ) → ℕ = λ k. sent.tv_sec / 2 ^ k % 65536 in
      let a = word_in (length header + 8) 8 (w 0) refl (omega arith) (omega arith) in
      let b = word_in (length header + 8 + 2) 10 (w 16) (omega arith) (omega arith) (omega arith) in
      let c = word_in (length header + 8 + 4) 12 (w 32) (omega arith) (omega arith) (omega arith) in
      let d = word_in (length header + 8 + 6) 14 (w 48) (omega arith) (omega arith) (omega arith) in
      omega (arith, a, b, c, d, h)

  microseconds : sent.tv_usec < 2 ^ 64 → long_at whole (length header + 8 + 8) ≡ sent.tv_usec
  microseconds h =
      let w : (k : ℕ) → ℕ = λ k. sent.tv_usec / 2 ^ k % 65536 in
      let a = word_in (length header + 8 + 8) 16 (w 0) (omega arith) (omega arith) (omega arith) in
      let b =
        word_in (length header + 8 + 8 + 2) 18 (w 16) (omega arith) (omega arith) (omega arith) in
      let c =
        word_in (length header + 8 + 8 + 4) 20 (w 32) (omega arith) (omega arith) (omega arith) in
      let d =
        word_in (length header + 8 + 8 + 6) 22 (w 48) (omega arith) (omega arith) (omega arith) in
      omega (arith, a, b, c, d, h)

  pub time_in : IsLong sent → timeval_at whole (length header + 8) ≡ sent
  time_in s = ap₂ (λ x y. record { tv_sec = x; tv_usec = y }) (seconds s.sec) (microseconds s.usec)

  pub type_in : byte_at whole (length header) ≡ type
  type_in =
      byte_at-append header (answer_of type lo hi pid nsent sent) old (length header) 0
        (omega arith) (omega arith)
