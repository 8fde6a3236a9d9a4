-- ===== src/Icmpd/Errors.antt =====
-- To which clients the daemon passes an ICMP error.
use cosc.Packet.{header_length}
use cosc.Prelude.{Bool, Bool-cases, inl, inr, false, ◌==◌, ◌&&◌}
use cosc.Prelude.Int.{pos, negsuc}
use cosc.Icmpd.Quotes.{is_error4-kinds}
use cosc.Prelude.{
  ℕ, zero, suc, ◌+◌, ◌*◌, ◌%◌, ◌≡◌, refl, ap, ◌∙◌, Option, none, some, List, [], ◌∷◌, map,
  if◌then◌else◌, arith, length,
}
use mathlib.Core.Path.{ap₂}
use cosc.Prelude.Int.{ℤ}
use cosc.Icmpd.{af_inet, Entry, Icmpd, IcmpdErr, report}
use cosc.Icmpd.Tables.{FreeFrom}
use cosc.Icmpd.Daemon.{is_for, tell, is_error4, read_icmp4, readable_v4}
use cosc.Icmpd.Quotes.{
  Quote, IsQuote, packet_of, err_of, read_icmp4_lem, length-packet_of, byte_outer, byte_icmp,
  byte_inner, inner_length, port_at, error_at,
}

-- Whether an entry holds this family and this port.
abbrev pub has_port : ℕ → ℕ → Entry → Bool
has_port family port e = elim e.lport [
  | pos n ↦ (n == port) && (e.family == family)
  | negsuc n ↦ false
]

is_for-has_port :
    (family port : ℕ) (o : Option ℕ) (fam : ℕ) (lport : ℤ)
    → let e : Entry = record { connfd = o; family = fam; lport = lport } in
      is_for family port e ≡ has_port family port e
is_for-has_port family port o fam (pos n) = elim (Bool-cases (fam == family)) [
  | inl e ↦ ground (arith, e)
  | inr e ↦ ground (arith, e)
]
is_for-has_port family port o fam (negsuc n) = ground arith

-- The connections in the whole table whose entry holds this family and port.
abbrev pub subscribers : ℕ → ℕ → List Entry → List ℕ
subscribers family port [] = []
subscribers family port (e ∷ es) =
    let rest = subscribers family port es in
    elim e.connfd [ none ↦ rest | some fd ↦ if has_port family port e then fd ∷ rest else rest ]

free-subscribers :
    (family port : ℕ) (es : List Entry) → FreeFrom zero es → subscribers family port es ≡ []
free-subscribers family port [] f = refl
free-subscribers family port (e ∷ es) f = rw (f.0) (free-subscribers family port es f.1)

tell_step :
    (family port : ℕ) (err : IcmpdErr) (k : ℕ) (o : Option ℕ) (fam : ℕ) (lport : ℤ)
    (es : List Entry)
    → let e : Entry = record { connfd = o; family = fam; lport = lport } in
      tell family port err k es ≡ map (λ fd. report fd err) (subscribers family port es)
      → tell family port err (suc k) (e ∷ es)
        ≡ map (λ fd. report fd err) (subscribers family port (e ∷ es))
unfolding tell
tell_step family port err k none fam lport es h = h
tell_step family port err k (some fd) fam lport es h =
    rw (is_for-has_port family port (some fd) fam lport) (ground (arith, h))

tell_lem :
    (family port : ℕ) (err : IcmpdErr) (k : ℕ) (es : List Entry)
    → FreeFrom k es
    → tell family port err k es ≡ map (λ fd. report fd err) (subscribers family port es)
unfolding tell
tell_lem family port err zero es f = rw (free-subscribers family port es f) refl
tell_lem family port err (suc k) [] f = refl
tell_lem family port err (suc k) (e ∷ es) f =
    tell_step family port err k e.connfd e.family e.lport es (tell_lem family port err k es f)

-- An ICMP error of a kind that the daemon passes on, about a UDP datagram over IPv4, goes to the
-- connections whose entry holds the family AF_INET and the source port of that datagram, be it from the
-- client that is connected or left there by one before it, each once and in the order of the table, and
-- to no other, with the destination of the datagram and the errno for its type and code, if the packet
-- holds both headers as long as they say and the ports, and the entries behind maxi are free.
pub readable_v4_lem :
    (q : Quote) (old : ℕ → ℕ) (s : Icmpd)
    → IsQuote q
    → FreeFrom s.top s.client
    → readable_v4 (packet_of q old) s
      ≡ some (
          map
            (λ fd. report fd (err_of q))
            (subscribers af_inet (q.source.0 + 256 * q.source.1) s.client))
unfolding readable_v4
readable_v4_lem q old s v f =
    let p = packet_of q old in
    let h = length q.outer in
    let outer = ap (λ b. (b % 16) * 4) (byte_outer q v old) ∙ v.outer in
    let n = length-packet_of q old in
    let u = v.header in
    let w = v.some_inner in
    let m = v.quoted in
    let kind =
      ap is_error4 (byte_icmp q v old h 0 (omega arith) (omega arith))
      ∙ is_error4-kinds q.icmp_type v.kind in
    let udp = byte_inner q v old (h + 8 + 9) 9 (omega arith) (omega arith) ∙ v.udp in
    let port =
      port_at q v old (h + 8 + header_length p (h + 8)) 0
        (let e = inner_length q v old in omega arith) (omega arith) in
    ap (read_icmp4 p s) outer
    ∙ read_icmp4_lem p s h (omega arith) kind udp
    ∙ ap some (
        ap₂ (λ x err. tell af_inet x err s.top s.client) port (error_at q v old)
        ∙ tell_lem af_inet _ (err_of q) s.top s.client f)
