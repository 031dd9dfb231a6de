-- ===== src/Malloc/Refine/Bounds.antt =====
-- Where the blocks that `mm_malloc` of malloclab/mm.c returns lie: in the heap, aligned and apart from
-- each other.
use system_programming_lab.Base.{
  ℕ, ◌+◌, ◌%◌, ◌≤◌, ◌<◌, ◌≡◌, ◌∙◌, sym, ap, ◌⊎◌, ◌^◌, inl, inr, List, [], ◌∷◌, ◌++◌, Bool-cases,
  All, All-mono, All-append, arith,
}
use system_programming_lab.Malloc.Memory.{Heap}
use system_programming_lab.Malloc.Layout.{used, Block, total, is_used, IsLayout}
use system_programming_lab.Malloc.Layout.Blocks.{
  total-append, total-aligned, Tagged-left, Tagged-right,
}
use system_programming_lab.Malloc.Layout.Lists.{blk}
use system_programming_lab.Malloc.Layout.Settled.{allocs}
use system_programming_lab.Malloc.Refine.{Represents}
use mathlib.Core.Path.{subst}
use system_programming_lab.Malloc.Blocks.{block}
use system_programming_lab.Malloc.Api.{mm_malloc}
use system_programming_lab.Malloc.Refine.Malloc.{
  wanted_brk, block_inj, block-ne_null, mm_malloc-Represents,
}
use system_programming_lab.Malloc.Refine.Blocks.{allocs-split}

allocs-above : (a : ℕ) (bs : List Block) → All (λ b. a ≤ b.0) (allocs a bs)
allocs-above a [] = tt
allocs-above a (b ∷ bs) =
    let later : All (λ (k : ℕ × ℕ). a ≤ k.0) (allocs (a + b.size) bs) =
      All-mono {P = λ (k : ℕ × ℕ). a + b.size ≤ k.0} {Q = λ (k : ℕ × ℕ). a ≤ k.0}
        (allocs (a + b.size) bs) (λ k le. omega (arith, le)) (allocs-above (a + b.size) bs) in
    elim (Bool-cases (is_used b.status)) [ inl u ↦ rw u (omega arith, later) | inr u ↦ rw u later ]

allocs-below : (a : ℕ) (bs : List Block) → All (λ b. b.0 + b.1 ≤ a + total bs) (allocs a bs)
allocs-below a [] = tt
allocs-below a (b ∷ bs) =
    let later : All (λ (k : ℕ × ℕ). k.0 + k.1 ≤ a + (b.size + total bs)) (allocs (a + b.size) bs) =
      All-mono {P = λ (k : ℕ × ℕ). k.0 + k.1 ≤ a + b.size + total bs}
        {Q = λ (k : ℕ × ℕ). k.0 + k.1 ≤ a + (b.size + total bs)} (allocs (a + b.size) bs)
        (λ k le. omega (arith, le)) (allocs-below (a + b.size) bs) in
    elim (Bool-cases (is_used b.status)) [ inl u ↦ rw u (omega arith, later) | inr u ↦ rw u later ]

-- An allocated block of a represented heap is at a multiple of 8, between the words of `mm_init` and
-- the end of the heap, between the allocated blocks before it and those behind it.
Represents-apart :
    (h : Heap) (us vs : List (ℕ × ℕ)) (p n count : ℕ)
    → Represents h (us ++ (p, n) ∷ vs) count
    → (p % 8 ≡ 0)
      × (h.block_list_start + 56 ≤ p)
      × (p + n ≤ h.mem_brk)
      × All (λ b. b.0 + b.1 ≤ p) us
      × All (λ b. p + n ≤ b.0) vs
Represents-apart h us vs p n count r =
    let (xs, ys, e, e1, e2, e3) =
      allocs-split (h.block_list_start + 56) r.blocks us vs p n r.live_blocks in
    let l : IsLayout h (xs ++ blk n used ∷ ys) r.lists = rw e at r.layout in
    let t = Tagged-right h.mem (h.block_list_start + 56) xs (blk n used ∷ ys) l.contents.tagged in
    let al =
      total-aligned h.mem (h.block_list_start + 56) xs
        (Tagged-left h.mem (h.block_list_start + 56) xs _ l.contents.tagged) in
    let tot = total-append xs (blk n used ∷ ys) in
    (
      omega (arith, al, e2, l.aligned),
      omega (arith, e2),
      omega (arith, e2, tot, l.at_brk),
      subst (λ l. All (λ b. b.0 + b.1 ≤ p) l) e1
          (subst (λ k. All (λ b. b.0 + b.1 ≤ k) (allocs (h.block_list_start + 56) xs)) e2
            (allocs-below (h.block_list_start + 56) xs)),
      rw e3 at (allocs-above (p + n) ys),
    )

-- The block for `size` bytes at `p`, its header and its footer included, does not meet the other one.
abbrev pub Apart : (p size : ℕ) → ℕ × ℕ → Type 0
Apart p size b = (b.0 + b.1 ≤ p) ⊎ (p + size + 8 ≤ b.0)

-- A block that `mm_malloc` returns on a represented heap is at a multiple of 8, behind the words of
-- `mm_init`; the bytes that were asked for and 8 more end before the end of the heap, and meet none of
-- the blocks that were allocated before. There is fuel for two more blocks than there are, the size is
-- positive and below 2 ^ 31 by more than 32, and the end of the heap that it may want is below 2 ^ 32.
pub mm_malloc-Apart :
    (fuel count size : ℕ) (h : Heap) (live : List (ℕ × ℕ))
    → Represents h live count
    → count + 2 < fuel
    → 0 < size
    → size + 32 < 2 ^ 31
    → wanted_brk size h < 2 ^ 32
    → (p : ℕ) (h' : Heap) → mm_malloc fuel size h ≡ block p h'
    → (p % 8 ≡ 0)
      × (h.block_list_start + 56 ≤ p)
      × (p + size + 8 ≤ h'.mem_brk)
      × All (Apart p size) live
mm_malloc-Apart fuel count size h live r f pos lt no_wrap p h' e =
    elim (mm_malloc-Represents fuel count size h live r f pos lt no_wrap) [
      | inr (declined, full) ↦ absurd (block-ne_null p h' h (sym e ∙ declined))
      | inl z ↦
          let (at, heap) = block_inj _ _ _ _ (sym z.result ∙ e) in
          let brk : z.brk ≡ h'.mem_brk = ap (λ (k : Heap). k.mem_brk) heap in
          let (al, lo, hi, before, behind) =
            Represents-apart _ z.before z.behind z.pointer z.room _ z.represented in
          let room = z.enough in
          (
            rw at at al,
            rw at at lo,
            omega (arith, at, hi, brk, room),
            subst (λ l. All (Apart p size) l) (sym z.others)
                (All-append (Apart p size) z.before z.behind
                  (All-mono z.before (λ b le. inl (omega (arith, at, le))) before)
                  (All-mono z.behind (λ b le. inr (omega (arith, at, le, room))) behind)),
          )
    ]
