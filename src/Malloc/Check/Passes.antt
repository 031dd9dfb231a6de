-- ===== src/Malloc/Check/Passes.antt =====
-- `mm_check` of malloclab/mm.c on the heaps that the allocator makes.
use system_programming_lab.Base.{
  ℕ, zero, suc, ◌+◌, ◌-◌, ◌*◌, ◌≤◌, ◌<◌, ◌≡◌, ◌∙◌, sym, refl, ap, inl, inr, ◌⊎◌, Bool, true, false,
  none, some, List, [], ◌∷◌, ltb, ◌==◌, ==_refl, Bool-cases, length, arith,
}
use system_programming_lab.Malloc.Memory.{
  Heap, get, get_size, get_alloc, hdrp, mem_heap_lo, mem_heap_hi,
}
use system_programming_lab.Malloc.Check.{
  marked_loop, next_or_null, exist_loop, listed_loop, is_every_free_block_in_free_list, sizes_loop,
  within_loop,
}
use system_programming_lab.Malloc.Check.Escaped.{block-read, next_or_null-last, next_or_null-more}
use system_programming_lab.Malloc.FreeList.Chain.{Chain}
use system_programming_lab.Malloc.Fit.{categories}
use system_programming_lab.Malloc.Layout.{Block, listed, total, Tagged, listed_at, has, IsLayout}
use system_programming_lab.Malloc.Layout.Blocks.{listed_at-place, Tagged-right}
use system_programming_lab.Malloc.Layout.Lists.{blk}
use system_programming_lab.Malloc.Refine.Free.{positive-ne_null}
use system_programming_lab.Malloc.Refine.Fit.{listed_at-split}

-- The test of `isEveryFreeBlockInFreeList` compares the block with itself first.
exist_loop-keeps : (k i p : ℕ) → exist_loop k i p true ≡ true
unfolding exist_loop
exist_loop-keeps zero i p = refl
exist_loop-keeps (suc k) i p = elim (Bool-cases (p + i * 4 == p)) [
  | inl e ↦ rw e (exist_loop-keeps k (suc i) p)
  | inr e ↦ rw e (exist_loop-keeps k (suc i) p)
]

exist_loop-true : (p : ℕ) → exist_loop 10 0 p false ≡ true
unfolding exist_loop
exist_loop-true p =
    let same : (p + 0 * 4 == p) ≡ true = ground arith in rw same (exist_loop-keeps 9 1 p)

listed_loop-step :
    (k : ℕ) (h : Heap) (p next : ℕ) (res r : Bool)
    → 0 < p
    → next_or_null h p ≡ next
    → listed_loop k h next res ≡ some r
    → listed_loop (suc k) h p res ≡ some r
unfolding listed_loop
listed_loop-step k h p next res r pos n rest =
    let nz : (p == 0) ≡ false = positive-ne_null p pos in
    elim (Bool-cases (get_alloc h (hdrp p))) [
      | inl a ↦ rw (nz, n, a) rest
      | inr a ↦ rw (nz, exist_loop-true p, n, a) rest
    ]

listed_loop-null : (k : ℕ) (h : Heap) (res : Bool) → listed_loop (suc k) h 0 res ≡ some res
unfolding listed_loop
listed_loop-null k h res = refl

pub listed_loop-walk :
    (k : ℕ) (h : Heap) (a : ℕ) (res : Bool) (b : Block) (bs : List Block)
    → Tagged h.mem a (b ∷ bs)
    → a + total (b ∷ bs) ≡ h.mem_brk
    → 0 < a
    → length (b ∷ bs) < k
    → listed_loop k h a res ≡ some res
listed_loop-walk zero h a res b bs t at pos f = absurd (omega (arith, f))
listed_loop-walk (suc zero) h a res b bs t at pos f = absurd (omega (arith, f))
listed_loop-walk (suc (suc k)) h a res b [] t at pos f =
    let (alloc, next) = block-read h a b [] t in
    listed_loop-step (suc k) h a 0 res res pos
      (next_or_null-last h a b next (omega (arith, at)) (omega (arith, at, pos)))
      (listed_loop-null k h res)
listed_loop-walk (suc (suc k)) h a res b (c ∷ cs) t at pos f =
    let (alloc, next) = block-read h a b (c ∷ cs) t in
    listed_loop-step (suc k) h a (a + b.size) res res pos
      (next_or_null-more h a b next (omega (arith, at, t.4.2)))
      (listed_loop-walk (suc k) h (a + b.size) res c cs t.4 (omega (arith, at)) (omega arith)
        (omega (arith, f)))

listed_loop-vacuous :
    (k : ℕ) (h : Heap) (p : ℕ)
    → (listed_loop k h p true ≡ none) ⊎ (listed_loop k h p true ≡ some true)
unfolding listed_loop
listed_loop-vacuous zero h p = inl refl
listed_loop-vacuous (suc k) h p =
    let ih = listed_loop-vacuous k h (next_or_null h p) in
    elim (Bool-cases (p == 0)) [
      | inl z ↦ inr (rw z refl)
      | inr nz ↦ elim (Bool-cases (get_alloc h (hdrp p))) [
        | inl a ↦ rw (nz, a) ih
        | inr a ↦ rw (nz, exist_loop-true p, a) ih
      ]
    ]

-- On any heap whatever, `isEveryFreeBlockInFreeList` never answers 0: its walk goes on beyond the fuel,
-- or it answers 1.
pub is_every_free_block_in_free_list-vacuous :
    (fuel : ℕ) (h : Heap)
    → (is_every_free_block_in_free_list fuel h ≡ none)
      ⊎ (is_every_free_block_in_free_list fuel h ≡ some true)
is_every_free_block_in_free_list-vacuous fuel h = listed_loop-vacuous fuel h (h.heap_listp + 8)

-- What the roots hold.
module _ (h : Heap) (bs : List Block) (lists : ℕ → List ℕ) (l : IsLayout h bs lists) where
  abbrev root : ℕ → ℕ
  root i = h.mem (h.block_list_start + i * 4)

  root-cases :
      (i : ℕ)
      → i < categories
      → (root i ≡ 0)
        ⊎ ((h.mem (root i) ≡ 0) × (listed_at (root i) i (h.block_list_start + 56) bs ≡ true))
  root-cases i lt = by_list (lists i) (l.contents.chains i lt) (l.contents.members i lt)
    where
      by_list :
          (xs : List ℕ)
          → Chain h.mem 0 (root i) xs
          → ((x : ℕ) → has x xs ≡ listed_at x i (h.block_list_start + 56) bs)
          → (root i ≡ 0)
            ⊎ ((h.mem (root i) ≡ 0) × (listed_at (root i) i (h.block_list_start + 56) bs ≡ true))
      by_list [] c mem = inl c
      by_list (x ∷ xs) c mem =
          let here : has x (x ∷ xs) ≡ true = rw (==_refl x) refl in
          inr (
            ap h.mem c.0 ∙ c.1,
            ap (λ y. listed_at y i (h.block_list_start + 56) bs) c.0 ∙ sym (mem x) ∙ here,
          )

  root-size :
      (i : ℕ)
      → listed_at (root i) i (h.block_list_start + 56) bs ≡ true
      → 16 ≤ get_size h (hdrp (root i))
  root-size i k =
      let (xs, c, ys, e, at) = listed_at-split (root i) i (h.block_list_start + 56) bs k in
      let t =
        Tagged-right h.mem (h.block_list_start + 56) xs (blk c listed ∷ ys)
          (rw e at l.contents.tagged) in
      let there : get_size h (hdrp (root i)) ≡ get_size h (h.block_list_start + 56 + total xs - 4) =
        ap (λ y. get_size h (y - 4)) (sym at) in
      omega (arith, there, t.0, t.2, t.3)

  below :
      (i : ℕ)
      → listed_at (root i) i (h.block_list_start + 56) bs ≡ true
      → (h.block_list_start < root i) × (root i + 1 < h.mem_brk)
  below i k =
      let (lo, hi, al, kind) =
        listed_at-place h.mem (root i) i (h.block_list_start + 56) bs l.contents.tagged
          (omega (arith, l.aligned)) k in
      (omega (arith, lo), omega (arith, hi, l.at_brk))

  module _ (at_lo : h.mem_start_brk ≡ h.block_list_start) where
    head-eq : (i : ℕ) → get h (mem_heap_lo h + i * 4) ≡ root i
    head-eq i = ap (λ s. h.mem (s + i * 4)) at_lo

    pub marked_loop-passes : (k i : ℕ) (res : Bool) → k + i ≤ 10 → marked_loop k i h res ≡ ([], res)
    unfolding marked_loop
    marked_loop-passes zero i res le = refl
    marked_loop-passes (suc k) i res le =
        let ih = marked_loop-passes k (suc i) res (omega arith) in
        elim (root-cases i (omega arith)) [
          | inl z ↦
              let e : (get h (mem_heap_lo h + i * 4) == 0) ≡ true = rw (head-eq i, z) refl in
              rw (e, ih) refl
          | inr c ↦
              let free : get_alloc h (get h (mem_heap_lo h + i * 4)) ≡ false =
                rw (head-eq i, c.0) refl in
              elim (Bool-cases (get h (mem_heap_lo h + i * 4) == 0)) [
                | inl e ↦ rw (e, ih) refl
                | inr e ↦ rw (e, free, ih) refl
              ]
        ]

    pub sizes_loop-passes : (k i : ℕ) (res : Bool) → k + i ≤ 10 → sizes_loop k i h res ≡ res
    unfolding sizes_loop
    sizes_loop-passes zero i res le = refl
    sizes_loop-passes (suc k) i res le =
        let ih = sizes_loop-passes k (suc i) res (omega arith) in
        elim (root-cases i (omega arith)) [
          | inl z ↦
              let e : (get h (mem_heap_lo h + i * 4) == 0) ≡ true = rw (head-eq i, z) refl in
              rw e ih
          | inr c ↦
              let size : ltb 0 (get_size h (hdrp (get h (mem_heap_lo h + i * 4)))) ≡ true =
                ap (λ y. ltb 0 (get_size h (hdrp y))) (head-eq i)
                ∙ above (get_size h (hdrp (root i))) (root-size i c.1) in
              elim (Bool-cases (get h (mem_heap_lo h + i * 4) == 0)) [
                | inl e ↦ rw e ih
                | inr e ↦ rw (e, size) ih
              ]
        ]
      where
        above : (n : ℕ) → 16 ≤ n → ltb 0 n ≡ true
        above n le = ground arith

    pub within_loop-passes : (k i : ℕ) (res : Bool) → k + i ≤ 10 → within_loop k i h res ≡ res
    unfolding within_loop
    within_loop-passes zero i res le = refl
    within_loop-passes (suc k) i res le =
        let ih = within_loop-passes k (suc i) res (omega arith) in
        elim (root-cases i (omega arith)) [
          | inl z ↦
              let e : (get h (mem_heap_lo h + i * 4) == 0) ≡ true = rw (head-eq i, z) refl in
              rw e ih
          | inr c ↦
              let (lo, hi) = below i c.1 in
              let over : ltb (mem_heap_lo h) (get h (mem_heap_lo h + i * 4)) ≡ true =
                ap (ltb h.mem_start_brk) (head-eq i)
                ∙ ap (λ s. ltb s (root i)) at_lo
                ∙ less h.block_list_start (root i) lo in
              let under : ltb (get h (mem_heap_lo h + i * 4)) (mem_heap_hi h) ≡ true =
                ap (λ y. ltb y (h.mem_brk - 1)) (head-eq i)
                ∙ less (root i) (h.mem_brk - 1) (omega (arith, hi)) in
              elim (Bool-cases (get h (mem_heap_lo h + i * 4) == 0)) [
                | inl e ↦ rw e ih
                | inr e ↦ rw (e, over, under) ih
              ]
        ]
      where
        less : (m n : ℕ) → m < n → ltb m n ≡ true
        less m n lt = ground arith
