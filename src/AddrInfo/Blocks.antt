-- ===== src/AddrInfo/Blocks.antt =====
-- The blocks that the functions of Lab2017/libgai allocate are those of the entries in the list.
use cosc.Prelude.{
  ℕ, zero, suc, ◌+◌, ◌-◌, ◌≡◌, refl, Bool, true, false, none, some, List, [], ◌∷◌, ◌++◌, leb, ◌==◌,
  arith, length, Bytes, All, Bool-cases, inl, inr,
}
use cosc.AddrInfo.{
  af_local, Hints, Addrinfo, Memory, alloc, blocks, all_blocks, freeaddrinfo, Build, Result, ok,
  err, ◌>>=◌, new_entry, add_entry, add_address, path_size, unlink_if, is_passive, ga_aistruct,
  is_inet,
}
use cosc.AddrInfo.Lookup.{add_all}

-- An allocation fails, or gives one more block.
pub data Alloc (m : Memory) : Type 0 where
  fails : alloc m ≡ none → Alloc m
  gives : (m' : Memory) → m'.live ≡ suc m.live → alloc m ≡ some m' → Alloc m

pub Alloc-cases : (m : Memory) → Alloc m
unfolding alloc
Alloc-cases m = elim m.room as (λ n. Alloc (record m { room = n })) [
  | zero ↦ fails refl
  | suc n ↦ gives (record { room = n; live = suc m.live }) refl refl
]

pub all_blocks-append :
    (xs ys : List Addrinfo) → all_blocks (xs ++ ys) ≡ all_blocks xs + all_blocks ys
all_blocks-append [] ys = omega arith
all_blocks-append (x ∷ xs) ys = omega (arith, all_blocks-append xs ys)

pub freeaddrinfo-live :
    (ais : List Addrinfo) (m : Memory) → (freeaddrinfo ais m).live ≡ m.live - all_blocks ais
unfolding freeaddrinfo
freeaddrinfo-live [] m = omega arith
freeaddrinfo-live (ai ∷ ais) m =
    omega (arith, freeaddrinfo-live ais (record m { live = m.live - blocks ai }))

-- The blocks in use are some others and those of the list, in which no entry has a name.
abbrev pub IsUnnamed : Addrinfo → Type 0
IsUnnamed ai = ai.canonname ≡ none

pub record Kept (base : ℕ) (b : Build) : Type 0 where
  pub live : b.mem.live ≡ base + all_blocks b.list
  pub unnamed : All IsUnnamed b.list

abbrev pub build_of : Result → Build
build_of (ok b) = b
build_of (err e b) = b

All-last :
    (xs : List Addrinfo) (ai : Addrinfo)
    → All IsUnnamed xs
    → IsUnnamed ai
    → All IsUnnamed (xs ++ (ai ∷ []))
All-last [] ai a e = (e, tt)
All-last (x ∷ xs) ai a e = (a.0, All-last xs ai a.1 e)

add_entry-Kept :
    (base : ℕ) (ai : Addrinfo) (m : Memory) (b : Build)
    → Kept base b
    → IsUnnamed ai
    → m.live ≡ b.mem.live + blocks ai
    → Kept base (add_entry ai m b)
add_entry-Kept base ai m b k u l = record {
  live = omega (arith, all_blocks-append b.list (ai ∷ []), k.live, l);
  unnamed = All-last b.list ai k.unnamed u;
}

pub bind-Kept :
    (base : ℕ) (r : Result) (f : Build → Result)
    → Kept base (build_of r)
    → ((b : Build) → Kept base b → Kept base (build_of (f b)))
    → Kept base (build_of (r >>= f))
bind-Kept base (ok b) f k g = g b k
bind-Kept base (err e b) f k g = k

add_address-Kept :
    (base : ℕ) (h : Hints) (addr : Bytes) (fam : ℕ) (m : Memory) (b : Build)
    → Kept base b
    → m.live ≡ suc b.mem.live
    → Kept base (build_of (add_address h addr fam m b))
add_address-Kept base h addr fam m b k l = elim (Alloc-cases m) [
  | fails e ↦ rw (e, add_address) (add_entry-Kept base (new_entry h fam) m b k refl (omega arith))
  | gives m' n e ↦
      rw (e, add_address)
        (add_entry-Kept base (record (new_entry h fam) { addr = some addr }) m' b k refl
          (omega arith))
]

unlink_if-Kept :
    (base : ℕ) (passive : Bool) (path : Bytes) (b : Build)
    → Kept base b
    → Kept base (unlink_if passive path b)
unlink_if-Kept base true path b k = record { live = k.live; unnamed = k.unnamed }
unlink_if-Kept base false path b k = k

pub ga_aistruct-Kept :
    (base : ℕ) (h : Hints) (addr : Bytes) (fam : ℕ) (b : Build)
    → Kept base b
    → Kept base (build_of (ga_aistruct h addr fam b))
unfolding ga_aistruct
ga_aistruct-Kept base h addr fam b k = elim (Alloc-cases b.mem) [
  | fails e ↦ rw (e, ga_aistruct) k
  | gives m l e ↦
      let bare = add_entry-Kept base (new_entry h fam) m b k refl (omega arith) in
      let full = add_address-Kept base h addr fam m b k l in
      rw (e, ga_aistruct)
        (elim (Bool-cases (is_inet fam)) [
          | inl i ↦ rw i full
          | inr i ↦ rw i (elim (Bool-cases (fam == af_local)) [
            | inr n ↦ rw n bare
            | inl n ↦ rw n (elim (Bool-cases (leb path_size (length addr))) [
              | inl p ↦ rw p bare
              | inr p ↦ rw p (
                  bind-Kept base (add_address h addr fam m b) _ full
                    (λ c q. unlink_if-Kept base (is_passive h.flags) addr c q))
            ])
          ])
        ])
]

pub add_all-Kept :
    (base : ℕ) (h : Hints) (l : List Bytes) (fam : ℕ) (b : Build)
    → Kept base b
    → Kept base (build_of (add_all h l fam b))
unfolding add_all
add_all-Kept base h [] fam b k = k
add_all-Kept base h (a ∷ more) fam b k =
    bind-Kept base (ga_aistruct h a fam b) (add_all h more fam) (ga_aistruct-Kept base h a fam b k)
      (λ c q. add_all-Kept base h more fam c q)
