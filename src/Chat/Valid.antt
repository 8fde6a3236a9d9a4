-- ===== src/Chat/Valid.antt =====
-- The invariant of the tables of Lab3/chatserver.c, and the functions that keep it.
use cosc.Prelude.{
  ℕ, zero, suc, ◌+◌, ◌*◌, ◌-◌, ◌≤◌, ◌<◌, ◌≡◌, refl, ◌∙◌, none, some, [], ◌++◌, arith, length, set,
  All, All-set, All-get_or, length-set, length-append, Bytes, lt→ltb, le→leb, codes,
}
use cosc.Chat.{
  Chat, Action, Net, start, name_size, max_chats, buff_size, copy_name, list_names, greeting,
  present, compress, remove_chatter, name_at, emit,
}

abbrev pub NameFits : Bytes → Type 0
NameFits b = length b ≤ name_size

pub record IsValid (s : Chat) : Type 0 where
  pub fds_room : length s.fds ≡ max_chats
  pub names_room : length s.names ≡ max_chats
  pub seats : s.num ≤ max_chats
  pub names_fit : All NameFits s.names

pub name_at-fits : (s : Chat) (i : ℕ) → IsValid s → length (name_at s i) ≤ name_size
name_at-fits s i v = All-get_or NameFits s.names i [] v.names_fit (omega arith)

pub start-IsValid : IsValid start
unfolding start
start-IsValid = omega arith

pub compress-IsValid : (n k : ℕ) (s : Chat) → IsValid s → IsValid (compress n k s)
unfolding compress
compress-IsValid zero k s v = v
compress-IsValid (suc n) k s v = compress-IsValid n (k + 1) _ (record {
  fds_room = length-set s.fds k _ ∙ v.fds_room;
  names_room = length-set s.names k _ ∙ v.names_room;
  seats = v.seats;
  names_fit = All-set NameFits s.names k _ v.names_fit (name_at-fits s (k + 1) v);
})

pub num-compress : (n k : ℕ) (s : Chat) → (compress n k s).num ≡ s.num
unfolding compress
num-compress zero k s = refl
num-compress (suc n) k s = num-compress n (k + 1) _

pub out-compress : (n k : ℕ) (s : Chat) → (compress n k s).out ≡ s.out
unfolding compress
out-compress zero k s = refl
out-compress (suc n) k s = out-compress n (k + 1) _

pub emit-IsValid : (a : Action) (s : Chat) → IsValid s → IsValid (emit a s)
emit-IsValid a s v = record {
  fds_room = v.fds_room;
  names_room = v.names_room;
  seats = v.seats;
  names_fit = v.names_fit;
}

-- A chatter leaves a valid table valid.
pub remove_chatter-IsValid :
    (net : Net) (i : ℕ) (s : Chat) → IsValid s → IsValid (remove_chatter net i s)
unfolding remove_chatter
remove_chatter-IsValid net i s v =
    let w = compress-IsValid (s.num - 1 - i) i s v in
    record {
      fds_room = w.fds_room;
      names_room = w.names_room;
      seats = omega (arith, v.seats);
      names_fit = w.names_fit;
    }

-- What `strcpy` into a row needs is all that it needs.
pub copy_name_lem :
    (i : ℕ) (name : Bytes) (s : Chat)
    → i < max_chats
    → length name ≤ name_size
    → copy_name i name s ≡ some (record s { names = set s.names i name })
unfolding copy_name
copy_name_lem i name s h k = rw (lt→ltb _ _ h) (rw (le→leb _ _ k))

pub copy_name_overflow :
    (i : ℕ) (name : Bytes) (s : Chat) → name_size < length name → copy_name i name s ≡ none
unfolding copy_name
copy_name_overflow i name s h = ground arith

pub copy_name_outside :
    (i : ℕ) (name : Bytes) (s : Chat) → max_chats ≤ i → copy_name i name s ≡ none
unfolding copy_name
copy_name_outside i name s h = ground arith

pub set_name-IsValid :
    (i : ℕ) (name : Bytes) (s : Chat)
    → length name ≤ name_size
    → IsValid s
    → IsValid (record s { names = set s.names i name })
set_name-IsValid i name s h v = record {
  fds_room = v.fds_room;
  names_room = length-set s.names i name ∙ v.names_room;
  seats = v.seats;
  names_fit = All-set NameFits s.names i name v.names_fit h;
}

length-list_names : (n j : ℕ) (s : Chat) → IsValid s → length (list_names n j s) ≤ 41 * n
unfolding list_names codes
length-list_names zero j s v = omega arith
length-list_names (suc n) j s v = omega (
  arith,
  length-append (name_at s j) (codes " " ++ list_names n (j + 1) s),
  name_at-fits s j v,
  length-list_names n (j + 1) s v,
)

length-present : (s : Chat) → IsValid s → length (present s) ≤ 2000
unfolding present codes
length-present s v = ground (arith, length-list_names s.num 0 s v, v.seats)

-- The greeting never fills the buffer of `addChatter`.
pub greeting_fits : (s : Chat) → IsValid s → length (greeting s) < buff_size
unfolding greeting codes
greeting_fits s v = omega (arith, length-present s v, length-append (present s) (codes "\n"))

pub num-remove_chatter : (net : Net) (i : ℕ) (s : Chat) → (remove_chatter net i s).num ≡ s.num - 1
unfolding remove_chatter
num-remove_chatter net i s = refl
