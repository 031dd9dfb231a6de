-- ===== src/Malloc/Layout/Settled.antt =====
-- The blocks of malloclab/mm.c between two calls of its interface: every free block is listed, and no
-- two of them are neighbours. The allocated blocks as the callers see them.
use system_programming_lab.Base.{
  ℕ, ◌+◌, ◌≡◌, ◌∙◌, sym, refl, ap, inl, inr, ◌⊎◌, true, false, List, [], ◌∷◌, ◌++◌, if◌then◌else◌,
  Bool-cases, arith,
}
use native.Mathlib.Nat.{add-zero}
use system_programming_lab.Malloc.Layout.{
  Status, used, listed, loose, Block, is_used, is_listed, total,
}
use system_programming_lab.Malloc.Layout.Lists.{blk}
use system_programming_lab.Malloc.Layout.Retile.{NoneUsed}
use system_programming_lab.Malloc.Layout.Neighbours.{starts_used, ends_used}

-- A block is allocated, or listed before no other free one.
abbrev pub IsHead : Block → List Block → Type 0
IsHead b bs = (is_used b.status ≡ true) ⊎ ((is_listed b.status ≡ true) × (starts_used bs ≡ true))

abbrev pub IsSettled : List Block → Type 0
IsSettled [] = Unit
IsSettled (b ∷ bs) = IsHead b bs × IsSettled bs

-- The payload addresses and the sizes of the allocated blocks.
abbrev pub allocs : ℕ → List Block → List (ℕ × ℕ)
allocs a [] = []
allocs a (b ∷ bs) =
    if is_used b.status then (a, b.size) ∷ allocs (a + b.size) bs else allocs (a + b.size) bs

pub allocs-append :
    (a : ℕ) (xs ys : List Block) → allocs a (xs ++ ys) ≡ allocs a xs ++ allocs (a + total xs) ys
allocs-append a [] ys = rw (add-zero a) refl
allocs-append a (b ∷ xs) ys =
    let e : a + b.size + total xs ≡ a + (b.size + total xs) = omega arith in
    let ih = allocs-append (a + b.size) xs ys in
    elim (Bool-cases (is_used b.status)) [ inl u ↦ rw (u, ih, e) refl | inr u ↦ rw (u, ih, e) refl ]

allocs-none : (a : ℕ) (bs : List Block) → NoneUsed bs → allocs a bs ≡ []
allocs-none a [] n = refl
allocs-none a (b ∷ bs) n = rw (n.0, allocs-none (a + b.size) bs n.1) refl

-- Free blocks between others are not seen.
pub allocs-around :
    (a n : ℕ) (xs core ys : List Block)
    → NoneUsed core
    → total core ≡ n
    → allocs a (xs ++ (core ++ ys)) ≡ allocs a xs ++ allocs (a + total xs + n) ys
allocs-around a n xs core ys free e =
    rw
      (
        allocs-append a xs (core ++ ys),
        allocs-append (a + total xs) core ys,
        allocs-none (a + total xs) core free,
        e,
      )
      refl

pub listed-blk : (b : Block) → is_listed b.status ≡ true → b ≡ blk b.size listed
listed-blk b l = by_status b.size b.status l
  where
    by_status : (size : ℕ) (st : Status) → is_listed st ≡ true → blk size st ≡ blk size listed
    by_status size used l = cc
    by_status size listed l = refl
    by_status size loose l = cc

IsHead-before :
    (b : Block) (cs zs : List Block) (p : ℕ)
    → cs ≡ zs ++ blk p listed ∷ []
    → IsHead b cs
    → ends_used zs ≡ true
    → (ends_used (b ∷ zs) ≡ true) × IsHead b zs
IsHead-before b cs [] p e s u = elim s [
  | inl k ↦ (k, inl k)
  | inr k ↦ let no : starts_used cs ≡ false = ap starts_used e in cc
]
IsHead-before b cs (z ∷ zs) p e s u =
    (u, elim s [ inl k ↦ inl k | inr k ↦ inr (k.0, ap starts_used (sym e) ∙ k.1) ])

-- The blocks before a place end with an allocated one, or with a free one behind such.
pub before-cases :
    (xs : List Block)
    → IsSettled xs
    → (ends_used xs ≡ true)
      ⊎ ((p : ℕ) × (zs : List Block) × (xs ≡ zs ++ blk p listed ∷ [])
          × (ends_used zs ≡ true)
          × IsSettled zs)
before-cases [] s = inl refl
before-cases (b ∷ []) s = elim s.0 [
  | inl u ↦ inl u
  | inr l ↦ inr (b.size, [], ap (λ c. c ∷ []) (listed-blk b l.0), refl, tt)
]
before-cases (b ∷ c ∷ xs) s = elim (before-cases (c ∷ xs) s.1) [
  | inl u ↦ inl u
  | inr (p, zs, e, u, r) ↦
      let (ends, head) = IsHead-before b (c ∷ xs) zs p e s.0 u in
      inr (p, b ∷ zs, ap (λ l. b ∷ l) e, ends, (head, r))
]

pub after-cases :
    (ys : List Block)
    → IsSettled ys
    → (starts_used ys ≡ true)
      ⊎ ((n : ℕ) × (zs : List Block) × (ys ≡ blk n listed ∷ zs)
          × (starts_used zs ≡ true)
          × IsSettled zs)
after-cases [] s = inl refl
after-cases (b ∷ ys) s = elim s.0 [
  | inl u ↦ inl u
  | inr l ↦ inr (b.size, ys, ap (λ c. c ∷ ys) (listed-blk b l.0), l.1, s.1)
]

-- A listed block between allocated ones.
pub IsSettled-between :
    (b : Block) (xs ys : List Block)
    → IsSettled xs
    → ends_used xs ≡ true
    → IsHead b ys
    → IsSettled ys
    → IsSettled (xs ++ b ∷ ys)
IsSettled-between b [] ys sx u s sy = (s, sy)
IsSettled-between b (x ∷ []) ys sx u s sy = (inl u, (s, sy))
IsSettled-between b (x ∷ c ∷ xs) ys sx u s sy = (sx.0, IsSettled-between b (c ∷ xs) ys sx.1 u s sy)

pub IsSettled-left :
    (xs ys : List Block) → IsSettled (xs ++ ys) → starts_used ys ≡ true → IsSettled xs
IsSettled-left [] ys s u = tt
IsSettled-left (x ∷ []) ys s u = (elim s.0 [ inl k ↦ inl k | inr k ↦ inr (k.0, refl) ], tt)
IsSettled-left (x ∷ c ∷ xs) ys s u = (s.0, IsSettled-left (c ∷ xs) ys s.1 u)

pub IsSettled-right : (xs ys : List Block) → IsSettled (xs ++ ys) → IsSettled ys
IsSettled-right [] ys s = s
IsSettled-right (x ∷ xs) ys s = IsSettled-right xs ys s.1
