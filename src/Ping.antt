-- ===== src/Ping.antt =====
-- Lab2017/ping: the program that sends echo requests and shows the replies, over IPv4 and IPv6, with tv_sub
-- of Lab2017/lib. The host stores the low byte of a number first, and a `long` has 64 bits: a `struct
-- timeval` is two of them, each written as a number below 2 ^ 64.
pub mod Times
pub mod Requests
pub mod Fields
pub mod Replies
pub mod Loop
pub mod Exchange
pub mod Hops
mod Tests
use cosc.Prelude.{
  ℕ, zero, suc, ◌+◌, ◌-◌, ◌*◌, ◌/◌, ◌%◌, ◌^◌, Bool, true, false, Option, none, some, List, [], ◌∷◌,
  ◌++◌, ltb, leb, ◌==◌, ◌&&◌, not, if◌then◌else◌, length, Bytes,
}
use cosc.Checksum.{in_cksum}
use cosc.Packet.{Packet, byte_at, word_at, header_length}

pub record Timeval : Type 0 where
  pub tv_sec : ℕ
  pub tv_usec : ℕ

-- Subtraction of two longs, and the sign of one.
abbrev pub minus : ℕ → ℕ → ℕ
minus a b = (a + (2 ^ 64 - b)) % 2 ^ 64

abbrev pub is_negative : ℕ → Bool
is_negative a = leb (2 ^ 63) a

-- `tv_sub`, what it leaves in `*out`
unfoldable pub tv_sub : Timeval → Timeval → Timeval
tv_sub out sent =
    let usec = minus out.tv_usec sent.tv_usec in
    if is_negative usec
    then record {
      tv_sec = minus (minus out.tv_sec 1) sent.tv_sec;
      tv_usec = (usec + 1000000) % 2 ^ 64;
    }
    else record { tv_sec = minus out.tv_sec sent.tv_sec; tv_usec = usec }

-- A `u_short` and a `long` in memory.
abbrev pub short : ℕ → Bytes
short x = x % 256 ∷ x / 256 % 256 ∷ []

abbrev pub long : ℕ → Bytes
long x = short x ++ short (x / 2 ^ 16) ++ short (x / 2 ^ 32) ++ short (x / 2 ^ 48)

abbrev pub times : ℕ → ℕ → Bytes
times zero b = []
times (suc n) b = b ∷ times n b

-- The data of a request: the time, and the pattern of memset behind it; `datalen` is 56.
abbrev pub datalen : ℕ
datalen = 56

abbrev pub data_of : Timeval → Bytes
data_of now = long now.tv_sec ++ long now.tv_usec ++ times (datalen - 16) 165

-- What follows the checksum: the identifier, the number and the data.
abbrev pub rest_of : ℕ → ℕ → Timeval → Bytes
rest_of pid nsent now = short pid ++ short nsent ++ data_of now

-- what `send_v4` sends, of type ICMP_ECHO
unfoldable pub send_v4 : ℕ → ℕ → Timeval → Bytes
send_v4 pid nsent now =
    let cksum = in_cksum (8 ∷ 0 ∷ 0 ∷ 0 ∷ rest_of pid nsent now) in
    8 ∷ 0 ∷ cksum % 256 ∷ cksum / 256 ∷ rest_of pid nsent now

-- what `send_v6` sends, of type ICMP6_ECHO_REQUEST; the kernel puts in the checksum
unfoldable pub send_v6 : ℕ → ℕ → Timeval → Bytes
send_v6 pid nsent now = 128 ∷ 0 ∷ 0 ∷ 0 ∷ rest_of pid nsent now

-- An item of ancillary data.
pub record Cmsg : Type 0 where
  pub cmsg_level : ℕ
  pub cmsg_type : ℕ
  pub value : ℕ

-- A line that is printed; `hops` is the time to live or the hop limit, `none` for "???".
pub data Line : Type 0 where
  echo_reply : (bytes seq : ℕ) → (hops : Option ℕ) → (rtt : Timeval) → Line
  other_type : (bytes type code : ℕ) → Line

-- The time that stands at `i`.
abbrev pub long_at : Packet → ℕ → ℕ
long_at p i =
    word_at p i
    + 2 ^ 16 * word_at p (i + 2)
    + 2 ^ 32 * word_at p (i + 4)
    + 2 ^ 48 * word_at p (i + 6)

abbrev pub timeval_at : Packet → ℕ → Timeval
timeval_at p i = record { tv_sec = long_at p i; tv_usec = long_at p (i + 8) }

-- the part of `proc_v4` behind the test of the lengths, for an ICMP header at `h`
unfoldable pub proc_icmp4 : ℕ → Bool → Packet → ℕ → Timeval → Option Line
proc_icmp4 pid verbose p h now =
    let icmplen = length p.bytes - h in
    if byte_at p h == 0
    then (if not (word_at p (h + 4) == pid)
        then none
        else if ltb icmplen 16
        then none
        else some (
            echo_reply icmplen (word_at p (h + 6)) (some (byte_at p 8))
              (tv_sub now (timeval_at p (h + 8)))))
    else if verbose
    then some (other_type icmplen (byte_at p h) (byte_at p (h + 1)))
    else none

-- `proc_v4`, what it prints
unfoldable pub proc_v4 : ℕ → Bool → Packet → List Cmsg → Timeval → Option Line
proc_v4 pid verbose p control now =
    let h = header_length p 0 in
    if not (byte_at p 9 == 1)
    then none
    else if ltb (length p.bytes) (h + 8)
    then none
    else proc_icmp4 pid verbose p h now

-- the first hop limit of the ancillary data; -1 is 2 ^ 32 - 1
abbrev pub hop_limit : List Cmsg → ℕ
hop_limit [] = 2 ^ 32 - 1
hop_limit (c ∷ cs) =
    if (c.cmsg_level == 41) && (c.cmsg_type == 52) then c.value % 2 ^ 32 else hop_limit cs

abbrev pub known : ℕ → Option ℕ
known hlim = if hlim == 2 ^ 32 - 1 then none else some hlim

-- `proc_v6`
unfoldable pub proc_v6 : ℕ → Bool → Packet → List Cmsg → Timeval → Option Line
proc_v6 pid verbose p control now =
    let len = length p.bytes in
    if ltb len 8
    then none
    else if byte_at p 0 == 129
    then (if not (word_at p 4 == pid)
        then none
        else if ltb len 16
        then none
        else some (
            echo_reply len (word_at p 6) (known (hop_limit control)) (tv_sub now (timeval_at p 8))))
    else if verbose
    then some (other_type len (byte_at p 0) (byte_at p 1))
    else none

-- `struct proto`
pub record Proto : Type 0 where
  pub fproc : ℕ → Bool → Packet → List Cmsg → Timeval → Option Line
  pub fsend : ℕ → ℕ → Timeval → Bytes
  pub icmpproto : ℕ

abbrev pub proto_v4 : Proto
proto_v4 = record { fproc = proc_v4; fsend = send_v4; icmpproto = 1 }

abbrev pub proto_v6 : Proto
proto_v6 = record { fproc = proc_v6; fsend = send_v6; icmpproto = 58 }

-- the choice that main makes, `none` where it quits
unfoldable pub proto_of : ℕ → Bool → Option Proto
proto_of family v4_mapped =
    if family == 2
    then some proto_v4
    else if family == 10
    then (if v4_mapped then none else some proto_v6)
    else none

-- What wakes readloop: SIGALRM, a packet, or a recvmsg that fails for good; with the time.
pub data Event : Type 0 where
  alarm : Timeval → Event
  packet : Packet → List Cmsg → Timeval → Event
  fails : Event

pub record Ping : Type 0 where
  pub nsent : ℕ
  pub sent : List Bytes
  pub shown : List Line

pub data Outcome : Type 0 where
  waits : Ping → Outcome
  ends : Ping → Outcome

-- `sig_alrm`; the next alarm that it asks for, alarm(1), is left to the events: one may come at any time
abbrev pub sig_alrm : Proto → ℕ → Timeval → Ping → Ping
sig_alrm pr pid now s = record s {
  nsent = s.nsent + 1;
  sent = s.sent ++ (pr.fsend pid s.nsent now ∷ []);
}

abbrev pub show : Option Line → Ping → Ping
show none s = s
show (some line) s = record s { shown = s.shown ++ (line ∷ []) }

-- the loop of `readloop`; a list of events that ends leaves it in recvmsg
unfoldable pub loop_from : Proto → ℕ → Bool → List Event → Ping → Outcome
loop_from pr pid verbose [] s = waits s
loop_from pr pid verbose (alarm now ∷ events) s =
    loop_from pr pid verbose events (sig_alrm pr pid now s)
loop_from pr pid verbose (packet p control now ∷ events) s =
    loop_from pr pid verbose events (show (pr.fproc pid verbose p control now) s)
loop_from pr pid verbose (fails ∷ events) s = ends s

-- `readloop`, the first request sent at `now`
unfoldable pub readloop : Proto → ℕ → Bool → Timeval → List Event → Outcome
readloop pr pid verbose now events =
    loop_from pr pid verbose events
      (sig_alrm pr pid now (record { nsent = 0; sent = []; shown = [] }))
