-- ===== src/Icmpd/Quotes.antt =====
-- The packet of an ICMP error, put together from its parts, and where readable_v4 finds them.
use cosc.Prelude.{◌⊎◌, inl, inr, Bool-cases, ◌&&◌, ◌==◌, if◌then◌else◌, true}
use cosc.Icmpd.{refused, too_long, host_unreachable}
use cosc.Packet.Parts.{get_or-append_left, get_or-append_right}
use cosc.Packet.{Packet, byte_at, word_at, copy, header_length}
use cosc.Prelude.{
  ℕ, ◌+◌, ◌*◌, ◌%◌, ◌≤◌, ◌<◌, ◌≡◌, refl, ap, ◌∙◌, true, some, [], ◌∷◌, ◌++◌, arith, length,
  length-append, get_or, lt→ltb, ltb-false, ==_true, Bytes,
}
use mathlib.Core.Path.{ap₂}
use cosc.Icmpd.{af_inet, Errno, Icmpd, IcmpdErr}
use cosc.Icmpd.Daemon.{tell, errno4, error4, is_error4, make_err, read_icmp4}

-- An ICMP packet about a UDP datagram: its IP header, its type and code with the rest of its header, the
-- IP header of the datagram, and the ports of the datagram with what is quoted behind them.
pub record Quote : Type 0 where
  pub outer : Bytes
  pub icmp_type : ℕ
  pub icmp_code : ℕ
  pub unused : Bytes
  pub inner : Bytes
  pub source : ℕ × ℕ
  pub dest : ℕ × ℕ
  pub more : Bytes

abbrev pub udp_of : Quote → Bytes
udp_of q = q.source.0 ∷ q.source.1 ∷ q.dest.0 ∷ q.dest.1 ∷ q.more

abbrev pub icmp_of : Quote → Bytes
icmp_of q = q.icmp_type ∷ q.icmp_code ∷ q.unused

abbrev pub packet_of : Quote → (ℕ → ℕ) → Packet
packet_of q old = record { bytes = q.outer ++ (icmp_of q ++ (q.inner ++ udp_of q)); old = old }

-- The lengths are those that the headers give, and the datagram is one of UDP.
pub record IsQuote (q : Quote) : Type 0 where
  pub outer : (get_or q.outer 0 0 % 16) * 4 ≡ length q.outer
  pub some_outer : 0 < length q.outer
  pub header : length q.unused ≡ 6
  pub inner : (get_or q.inner 0 0 % 16) * 4 ≡ length q.inner
  pub some_inner : 20 ≤ length q.inner
  pub quoted : 4 ≤ length q.more
  pub udp : get_or q.inner 9 0 ≡ 17
  pub kind : (q.icmp_type ≡ 3) ⊎ ((q.icmp_type ≡ 11) ⊎ (q.icmp_type ≡ 4))

-- The errno for the type and code of an error: ECONNREFUSED for a port that is not reachable, EMSGSIZE
-- where a packet would have to be cut, EHOSTUNREACH for the others.
abbrev pub errno_of : ℕ → ℕ → Errno
errno_of type code =
    if (type == 3) && (code == 3)
    then refused
    else if (type == 3) && (code == 4)
    then too_long
    else host_unreachable

abbrev pub err_of : Quote → IcmpdErr
err_of q = record {
  errno = errno_of q.icmp_type q.icmp_code;
  icmp_type = q.icmp_type;
  icmp_code = q.icmp_code;
  dest = get_or q.inner 16 0 ∷ get_or q.inner 17 0 ∷ get_or q.inner 18 0 ∷ get_or q.inner 19 0 ∷ [];
  dest_port = q.dest.0 + 256 * q.dest.1;
}

errno4-errno_of : (type code : ℕ) → errno4 type code ≡ errno_of type code
errno4-errno_of type code = elim (Bool-cases (type == 3)) [ inl e ↦ rw e refl | inr e ↦ rw e refl ]

pub is_error4-kinds : (type : ℕ) → (type ≡ 3) ⊎ ((type ≡ 11) ⊎ (type ≡ 4)) → is_error4 type ≡ true
is_error4-kinds type (inl e) = rw e refl
is_error4-kinds type (inr (inl e)) = rw e refl
is_error4-kinds type (inr (inr e)) = rw e refl

pub read_icmp4_lem :
    (p : Packet) (s : Icmpd) (h : ℕ)
    → h + 36 ≤ length p.bytes
    → is_error4 (byte_at p h) ≡ true
    → byte_at p (h + 8 + 9) ≡ 17
    → read_icmp4 p s h
      ≡ some (
          tell af_inet
            (word_at p (h + 8 + header_length p (h + 8)))
            (error4 p h (h + 8))
            s.top
            s.client)
unfolding read_icmp4
read_icmp4_lem p s h n t u =
    let a = ltb-false (length p.bytes) (h + 8) (omega arith) in
    let b = ltb-false (length p.bytes) (h + 36) n in
    rw (a, read_icmp4)
      (rw (t, read_icmp4) (rw (b, read_icmp4) (rw (==_true _ _ u, read_icmp4) refl)))

pub length-packet_of :
    (q : Quote) (old : ℕ → ℕ)
    → length (packet_of q old).bytes
      ≡ length q.outer + (2 + length q.unused + (length q.inner + (4 + length q.more)))
length-packet_of q old =
    let a = length-append q.outer (icmp_of q ++ (q.inner ++ udp_of q)) in
    let b = length-append q.unused (q.inner ++ udp_of q) in
    let c = length-append q.inner (udp_of q) in omega arith

byte_in :
    (q : Quote) (old : ℕ → ℕ) (i v : ℕ)
    → i < length q.outer + (2 + length q.unused + (length q.inner + (4 + length q.more)))
    → get_or (packet_of q old).bytes i 0 ≡ v
    → byte_at (packet_of q old) i ≡ v
byte_in q old i v h e =
    rw (lt→ltb i (length (packet_of q old).bytes) (let l = length-packet_of q old in omega arith)) e

four_bytes :
    {a b c d x y z w : ℕ} → a ≡ x → b ≡ y → c ≡ z → d ≡ w → a ∷ b ∷ c ∷ d ∷ [] ≡ x ∷ y ∷ z ∷ w ∷ []
four_bytes e f g h = cc

make_err-cong :
    (errno : ℕ → ℕ → Errno) {a b d x y w : ℕ} {c z : Bytes}
    → a ≡ x
    → b ≡ y
    → c ≡ z
    → d ≡ w
    → make_err errno a b c d ≡ make_err errno x y z w
make_err-cong errno e f g h =
    ap₂ (λ (p : ℕ × ℕ) (q : Bytes × ℕ). make_err errno p.0 p.1 q.0 q.1) (ap₂ (λ x y. (x, y)) e f)
      (ap₂ (λ x y. (x, y)) g h)

module _ (q : Quote) (v : IsQuote q) (old : ℕ → ℕ) where
  pub byte_outer : byte_at (packet_of q old) 0 ≡ get_or q.outer 0 0
  byte_outer =
      let s = v.some_outer in byte_in q old 0 _ (omega arith) (get_or-append_left q.outer _ 0 s)

  pub byte_icmp :
      (i j : ℕ)
      → i ≡ length q.outer + j
      → j < 8
      → byte_at (packet_of q old) i ≡ get_or (icmp_of q) j 0
  byte_icmp i j e h =
      let u = v.header in
      byte_in q old i _ (omega arith)
        (get_or-append_right q.outer _ i j e ∙ get_or-append_left (icmp_of q) _ j (omega arith))

  pub byte_inner :
      (i j : ℕ)
      → i ≡ length q.outer + 8 + j
      → j < length q.inner
      → byte_at (packet_of q old) i ≡ get_or q.inner j 0
  byte_inner i j e h =
      let u = v.header in
      byte_in q old i _ (omega arith) (
        get_or-append_right q.outer _ i (8 + j) (omega arith)
        ∙ get_or-append_right (icmp_of q) _ (8 + j) j (omega arith)
        ∙ get_or-append_left q.inner _ j h)

  byte_udp :
      (i j : ℕ)
      → i ≡ length q.outer + 8 + length q.inner + j
      → j < 8
      → byte_at (packet_of q old) i ≡ get_or (udp_of q) j 0
  byte_udp i j e h =
      let u = v.header in
      let w = v.quoted in
      byte_in q old i _ (omega arith) (
        get_or-append_right q.outer _ i (8 + (length q.inner + j)) (omega arith)
        ∙ get_or-append_right (icmp_of q) _ (8 + (length q.inner + j)) (length q.inner + j)
            (omega arith)
        ∙ get_or-append_right q.inner _ (length q.inner + j) j refl)

  pub inner_length : header_length (packet_of q old) (length q.outer + 8) ≡ length q.inner
  inner_length =
      let w = v.some_inner in
      ap (λ b. (b % 16) * 4) (byte_inner (length q.outer + 8) 0 (omega arith) (omega arith))
      ∙ v.inner

  pub port_at :
      (i j : ℕ)
      → i ≡ length q.outer + 8 + length q.inner + j
      → j < 7
      → word_at (packet_of q old) i ≡ get_or (udp_of q) j 0 + 256 * get_or (udp_of q) (j + 1) 0
  port_at i j e h =
      ap₂ (λ a b. a + 256 * b) (byte_udp i j e (omega arith))
        (byte_udp (i + 1) (j + 1) (omega arith) (omega arith))

  address_at : copy (packet_of q old) (length q.outer + 8 + 16) 4 ≡ (err_of q).dest
  address_at =
      let w = v.some_inner in
      let at =
        λ (i j : ℕ) (e : i ≡ length q.outer + 8 + j) (h : j < 20). byte_inner i j e (omega arith) in
      four_bytes (at _ 16 (omega arith) (omega arith)) (at _ 17 (omega arith) (omega arith))
        (at _ 18 (omega arith) (omega arith)) (at _ 19 (omega arith) (omega arith))

  pub error_at : error4 (packet_of q old) (length q.outer) (length q.outer + 8) ≡ err_of q
  error_at =
      make_err-cong errno4 (byte_icmp (length q.outer) 0 (omega arith) (omega arith))
        (byte_icmp (length q.outer + 1) 1 (omega arith) (omega arith)) address_at
        (port_at _ 2 (let e = inner_length in omega arith) (omega arith))
      ∙ ap (λ n. record (err_of q) { errno = n }) (errno4-errno_of q.icmp_type q.icmp_code)
