-- ===== src/Malloc/Layout/Neighbours.antt =====
-- What `coalesce` of malloclab/mm.c reads of the blocks beside a block: the prologue and the epilogue
-- count as allocated ones.
use system_programming_lab.Base.{
  ℕ, ◌+◌, ◌-◌, ◌%◌, ◌≤◌, ◌≡◌, ◌∙◌, sym, refl, ap, Bool, true, List, [], ◌∷◌, ◌++◌, arith,
}
use system_programming_lab.Malloc.Memory.{Heap, get_alloc, ftrp, prev_blkp}
use system_programming_lab.Malloc.Layout.{Block, is_used, total, tag, Tagged, Contents}
use system_programming_lab.Malloc.Layout.Blocks.{total-append, Tagged-left, Tagged-right}

abbrev pub starts_used : List Block → Bool
starts_used [] = true
starts_used (b ∷ bs) = is_used b.status

abbrev pub ends_used : List Block → Bool
ends_used [] = true
ends_used (b ∷ []) = is_used b.status
ends_used (b ∷ c ∷ bs) = ends_used (c ∷ bs)

-- Header and footer of an allocated block stand before the address.
abbrev pub UsedBefore : (ℕ → ℕ) → ℕ → Type 0
UsedBefore m a =
    (n : ℕ) × (m (a - 8) ≡ n + 1) × (m (a - n - 4) ≡ n + 1) × (n % 8 ≡ 0) × (8 ≤ n) × (n + 8 ≤ a)

last-UsedBefore :
    (m : ℕ → ℕ) (a : ℕ) (b : Block) (bs : List Block)
    → 8 ≤ a
    → Tagged m a (b ∷ bs)
    → ends_used (b ∷ bs) ≡ true
    → UsedBefore m (a + (b.size + total bs))
last-UsedBefore m a b [] le t u =
    let e : tag b ≡ b.size + 1 = rw u refl in
    let at : a + (b.size + 0) ≡ a + b.size = omega arith in
    let hd : a + b.size - b.size - 4 ≡ a - 4 = omega arith in
    rw at (b.size, t.1 ∙ e, rw hd (t.0 ∙ e), t.3, omega (arith, t.2), omega (arith, le))
last-UsedBefore m a b (c ∷ bs) le t u =
    let at : a + b.size + (c.size + total bs) ≡ a + (b.size + (c.size + total bs)) = omega arith in
    rw (← at) (last-UsedBefore m (a + b.size) c bs (omega (arith, le)) t.4 u)

pub Contents-UsedBefore :
    (m : ℕ → ℕ) (start : ℕ) (xs ys : List Block) (lists : ℕ → List ℕ)
    → Contents m start (xs ++ ys) lists
    → ends_used xs ≡ true
    → UsedBefore m (start + 56 + total xs)
Contents-UsedBefore m start [] ys lists co u =
    let foot : start + 56 + 0 - 8 ≡ start + 48 = omega arith in
    let head : start + 56 + 0 - 8 - 4 ≡ start + 44 = omega arith in
    (8, rw foot (co.prologue.1), rw head (co.prologue.0), refl, omega arith, omega arith)
Contents-UsedBefore m start (b ∷ xs) ys lists co u =
    last-UsedBefore m (start + 56) b xs (omega arith)
      (Tagged-left m (start + 56) (b ∷ xs) ys co.tagged) u

-- The header before an address that an allocated block or the epilogue follows.
pub Contents-used_after :
    (m : ℕ → ℕ) (start : ℕ) (xs ys : List Block) (lists : ℕ → List ℕ)
    → Contents m start (xs ++ ys) lists
    → starts_used ys ≡ true
    → m (start + 56 + total xs - 4) % 2 ≡ 1
Contents-used_after m start xs [] lists co u =
    let e = total-append xs [] in
    let at : start + 52 + total (xs ++ []) ≡ start + 56 + total xs - 4 = omega (arith, e) in
    let w : m (start + 56 + total xs - 4) ≡ 1 = ap m (sym at) ∙ co.epilogue in rw w refl
Contents-used_after m start xs (b ∷ ys) lists co u =
    let t = Tagged-right m (start + 56) xs (b ∷ ys) co.tagged in
    let e : tag b ≡ b.size + 1 = rw u refl in
    let w : m (start + 56 + total xs - 4) ≡ b.size + 1 = t.0 ∙ e in omega (arith, w, t.3)

-- What the code reads of the allocated block before `a`.
pub UsedBefore-alloc :
    (h : Heap) (a : ℕ) → UsedBefore h.mem a → get_alloc h (ftrp h (prev_blkp h a)) ≡ true
UsedBefore-alloc h a u =
    let size : h.mem (a - 8) - h.mem (a - 8) % 8 ≡ u.0 = omega (arith, u) in
    let size' : h.mem (a - u.0 - 4) - h.mem (a - u.0 - 4) % 8 ≡ u.0 = omega (arith, u) in
    let foot : a - u.0 + u.0 - 8 ≡ a - 8 = omega (arith, u) in
    rw (size, size', foot) (ground (arith, u))
