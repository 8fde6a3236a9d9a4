-- ===== src/AddrInfo/Search.antt =====
-- getaddrinfo for a host name and a service, of any address family.
use cosc.Prelude.{ℕ, ◌≡◌, refl, ap, Bool, none, some, List, [], ◌∷◌, map, Bytes, false}
use cosc.AddrInfo.{wants_canonname, Hints, Addrinfo, Memory, freeaddrinfo, Build, Result}
use cosc.AddrInfo.Lookup.{Resolver, on}
use cosc.AddrInfo.Service.{
  give_up, Outcome, found, error, ga_serv, name_first, add_service, complete, unix_path, finish,
}
use cosc.AddrInfo.Offers.{plain, Address, Offer, answers}
use cosc.AddrInfo.Ports.{no_service, Served}
use cosc.AddrInfo.Grows.{IsOpen, IsName, empty_handed, and_false, IsInetResolver}

-- A build with its list written out.
abbrev pub with_list : List Addrinfo → Build → Build
with_list l c = record { list = l; mem = c.mem; unlinked = c.unlinked }

pub complete-finish :
    (r : Resolver) (h : Hints) (named : Bool) (d : ℕ) (serv name : Bytes) (c : Build)
    (ai : Addrinfo) (ais : List Addrinfo)
    → wants_canonname h.flags ≡ false
    → let b = with_list (ai ∷ ais) c in
      complete r h named (some (d ∷ serv)) name (on (empty_handed b))
      ≡ finish (ga_serv r h (d ∷ serv) b)
unfolding complete name_first add_service
complete-finish r h named d serv name c ai ais o = rw (o, complete) (rw (and_false named) refl)

-- What getaddrinfo comes to for some addresses, by the offers of the service.
abbrev pub Concludes : Hints → List Address → List Offer → Outcome → Type 0
Concludes h xs [] r = (m : Memory) × (r ≡ error (no_service h) m)
Concludes h xs (o ∷ os) r =
    (ais : List Addrinfo) × (m : Memory) × (r ≡ found ais m)
    × (map plain ais ≡ answers h xs (o ∷ os))

pub finish-Concludes :
    (h : Hints) (xs : List Address) (os : List Offer) (p : Result)
    → Served h xs os p
    → Concludes h xs os (finish p)
unfolding give_up
finish-Concludes h xs [] p (c, e) = (freeaddrinfo c.list c.mem, ap finish e)
finish-Concludes h xs (o ∷ os) p (c, e, f) = (c.list, c.mem, ap finish e, f)

-- The strings are no path of a Unix domain socket.
pub record Asks (r : Resolver) (h : Hints) (name : Bytes) (serv : Bytes) : Type 0 where
  pub open_hints : IsOpen h
  pub is_name : IsName r name
  pub resolver : IsInetResolver r name
  pub not_unix : unix_path (some name) (some serv) ≡ none
