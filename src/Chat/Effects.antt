-- ===== src/Chat/Effects.antt =====
-- What processChat, addChatter and remove_chatter of Lab3/chatserver.c do to the list of chatters,
-- and what each of them sends.
use cosc.Prelude.{
  ℕ, zero, suc, ◌+◌, ◌-◌, ◌≤◌, ◌<◌, ◌≡◌, refl, ap, ◌∙◌, true, false, none, some, List, [], ◌∷◌,
  ◌++◌, arith, length, get_or-set_self, set, take, length-set, length-append, append_assoc, Bytes,
  lt→ltb, codes, decimal, length-decimal, drop, length-take, starts_with, ==_false, ==_true,
  ltb-false,
}
use cosc.Chat.{
  Chat, Net, name_size, max_chats, buff_size, copy_name, rename, broadcast, process, greeting,
  present, add_chatter, remove_chatter, name_at, fd_at, emit, write, close, print, change_name,
  renamed, signed, welcome_msg, leaves,
}
use native.Mathlib.Numerals.{add-one}
use cosc.Chat.Tables.{erase_at, take-set, set-take, set_shorter}
use cosc.Chat.Valid.{
  IsValid, copy_name_lem, copy_name_overflow, copy_name_outside, set_name-IsValid, greeting_fits,
  emit-IsValid, out-compress,
}
use cosc.Chat.Roster.{
  Chatter, chatter, roster, pair_up-append, pair_up-set, rename_at, roster-compress, names_of,
  posts, add_out, pair_up, seated, seated-suc, send_from-seated, list_names-seated,
}

length-signed : (name text : Bytes) → length (signed name text) ≡ length name + length text + 3
unfolding codes
length-signed name text = omega (
  arith,
  length-append name (codes ":\n" ++ (text ++ codes "\n")),
  length-append text (codes "\n"),
)

-- A message goes, under the name of its sender, to every chatter but the sender, in the order of
-- their seats, and changes no table, if it fits the buffer of `processChat` with that name.
pub process-broadcast :
    (i : ℕ) (text : Bytes) (s : Chat)
    → IsValid s
    → i < s.num
    → starts_with change_name text ≡ false
    → length (name_at s i) + length text + 3 < buff_size
    → process i text s
      ≡ some (add_out (posts (signed (name_at s i) text) (erase_at i (roster s))) s)
unfolding process broadcast
process-broadcast i text s v h plain fits =
    rw
      (
        plain,
        lt→ltb (length (signed (name_at s i) text)) buff_size
            (omega (arith, length-signed (name_at s i) text)),
      )
      (ap some (send_from-seated s.num 0 i i _ s v (omega arith) (omega (arith, v.seats))))

-- A message that does not fit that buffer is written past its end.
pub process-broadcast_overflow :
    (i : ℕ) (text : Bytes) (s : Chat)
    → starts_with change_name text ≡ false
    → buff_size ≤ length (name_at s i) + length text + 3
    → process i text s ≡ none
unfolding process broadcast
process-broadcast_overflow i text s plain long = rw (
  plain,
  ltb-false (length (signed (name_at s i) text)) buff_size
      (omega (arith, length-signed (name_at s i) text)),
)

length-renamed : (name : Bytes) → length (renamed name) ≡ length name + 32
unfolding codes
length-renamed name = omega (arith, length-append name (codes "\n"))

-- A new name of at most `name_size` bytes is stored for its chatter and for no other, and only that
-- chatter is told.
pub process-rename :
    (i : ℕ) (name text : Bytes) (s : Chat)
    → IsValid s
    → i < s.num
    → starts_with change_name text ≡ true
    → name ≡ drop (length change_name) text
    → length name ≤ name_size
    → (t : Chat) × (process i text s ≡ some t)
      × IsValid t
      × (roster t ≡ rename_at i name (roster s))
      × (t.out ≡ s.out ++ (write (fd_at s i) (renamed name) ∷ []))
unfolding process rename
process-rename i name text s v h command e fits =
    let u : Chat = record s { names = set s.names i name } in
    let stored = copy_name_lem i name s (omega (arith, v.seats)) fits in
    let read : name_at u i ≡ name =
      get_or-set_self s.names i name [] (omega (arith, v.seats, v.names_room)) in
    (
      emit (write (fd_at s i) (renamed name)) u,
      rw (
        command,
        ← e,
        stored,
        read,
        lt→ltb (length (renamed name)) buff_size (omega (arith, length-renamed name)),
      ),
      emit-IsValid _ u (set_name-IsValid i name s fits v),
      rw (set-take s.num i s.names name) (pair_up-set i _ _ name),
      refl,
    )

-- A longer one is copied past the end of its row.
pub process-rename_overflow :
    (i : ℕ) (text : Bytes) (s : Chat)
    → starts_with change_name text ≡ true
    → name_size < length (drop (length change_name) text)
    → process i text s ≡ none
unfolding process rename
process-rename_overflow i text s command long = rw (command, copy_name_overflow i _ s long)

-- A chatter that leaves is taken from the list, the others keep their order, and its socket is
-- closed after the notice is printed.
pub remove_chatter_lem :
    (net : Net) (i : ℕ) (s : Chat)
    → IsValid s
    → i < s.num
    → (roster (remove_chatter net i s) ≡ erase_at i (roster s))
      × ((remove_chatter net i s).out
          ≡ s.out
            ++ (print (leaves (net.peer_ip (fd_at s i)) (net.peer_port (fd_at s i)))
                ∷ close (fd_at s i)
                ∷ []))
unfolding remove_chatter
remove_chatter_lem net i s v h = (
  roster-compress (s.num - 1 - i) i (s.num - 1) s v (omega arith) (omega arith),
  rw (out-compress (s.num - 1 - i) i s) (append_assoc s.out _ _),
)

-- What `addChatter` tells a new chatter of those who are there.
pub greeting_for : List Chatter → Bytes
greeting_for [] = welcome_msg ++ (codes "You are the first chatter!\n" ++ codes "\n")
greeting_for (c ∷ cs) =
    welcome_msg ++ ((codes " Current Chatters: " ++ names_of (c ∷ cs)) ++ codes "\n")

greeting-seated :
    (n : ℕ) (s : Chat) → IsValid s → s.num ≡ n → greeting s ≡ greeting_for (seated n 0 s)
unfolding greeting present greeting_for
greeting-seated zero s v e = rw (==_true s.num 0 e)
greeting-seated (suc n) s v e = rw (
  ==_false s.num 0 (omega arith),
  list_names-seated s.num 0 s v (omega (arith, v.seats)),
  e,
  seated-suc n 0 s v (omega (arith, v.seats)),
)

abbrev pub unknown : ℕ → Bytes
unknown n = codes "unknown:" ++ decimal n

length-unknown : (n : ℕ) → n < 100 → length (unknown n) ≤ 10
unfolding codes
length-unknown n h = omega (arith, length-decimal n 1 h)

-- With a free seat a new chatter is added behind the others under the name "unknown:" and the number
-- of those, the tables stay valid, and it alone is sent the welcome with the names of the others.
pub add_chatter_lem :
    (fd : ℕ) (s : Chat)
    → IsValid s
    → s.num < max_chats
    → (t : Chat) × (add_chatter fd s ≡ some t)
      × IsValid t
      × (roster t ≡ roster s ++ (chatter fd (unknown s.num) ∷ []))
      × (t.out ≡ s.out ++ (write fd (greeting_for (roster s)) ∷ []))
unfolding add_chatter
add_chatter_lem fd s v h =
    let name = unknown s.num in
    let u : Chat = record s { names = set s.names s.num name } in
    let fits : length name ≤ name_size = omega (arith, length-unknown s.num (omega arith)) in
    let stored = copy_name_lem s.num name s h fits in
    let w = set_name-IsValid s.num name s fits v in
    let same : roster u ≡ roster s =
      ap (pair_up (take s.num s.fds)) (set_shorter s.num s.num s.names name (omega arith)) in
    let told : greeting u ≡ greeting_for (roster s) =
      greeting-seated s.num u w refl ∙ ap greeting_for same in
    let t : Chat = record (emit (write fd (greeting u)) u) {
      fds = set s.fds s.num fd;
      num = s.num + 1;
    } in
    (
      t,
      rw (
        stored,
        lt→ltb (length (greeting u)) buff_size (greeting_fits u w),
        lt→ltb s.num max_chats h,
      ),
      record {
        fds_room = length-set s.fds s.num fd ∙ v.fds_room;
        names_room = w.names_room;
        seats = omega arith;
        names_fit = w.names_fit;
      },
      rw
          (
            add-one s.num,
            take-set s.num s.fds fd (omega (arith, v.fds_room)),
            take-set s.num s.names name (omega (arith, v.names_room)),
          )
          (pair_up-append _ _ fd name (
            omega (
              arith,
              length-take s.num s.fds,
              length-take s.num s.names,
              v.fds_room,
              v.names_room,
            ))),
      ap (λ text. s.out ++ (write fd text ∷ [])) told,
    )

-- With every seat taken `addChatter` writes behind the end of its tables.
pub add_chatter_full : (fd : ℕ) (s : Chat) → max_chats ≤ s.num → add_chatter fd s ≡ none
unfolding add_chatter
add_chatter_full fd s h = rw (copy_name_outside s.num _ s h)

pub num-add_chatter : (fd : ℕ) (s : Chat) {t : Chat} → add_chatter fd s ≡ some t → t.num ≡ s.num + 1
unfolding add_chatter copy_name
num-add_chatter fd s h = ground arith
