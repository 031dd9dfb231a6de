-- ===== src/Malloc/Layout/Moves.antt =====
-- `insert_free_block` and `remove_free_block` on a heap of blocks: a free block is listed, or is no
-- longer.
use system_programming_lab.Base.{
  ℕ, ◌+◌, ◌%◌, ◌≤◌, ◌<◌, ◌≡◌, ◌≢◌, ◌∙◌, sym, refl, ap, inl, inr, false, ◌||◌, List, ◌∷◌, ◌++◌, ◌==◌,
  ==_refl, if◌then◌else◌, Bool-cases, arith,
}
use system_programming_lab.Malloc.Memory.{Heap}
use system_programming_lab.Malloc.FreeList.{free_category, link_block, unlink_block}
use system_programming_lab.Malloc.FreeList.Chain.{IsOut}
use system_programming_lab.Malloc.FreeList.Sorted.{size_of}
use system_programming_lab.Malloc.Fit.{categories}
use system_programming_lab.Malloc.Fit.Lists.{free_category-bound}
use system_programming_lab.Malloc.Layout.{
  listed, loose, Block, total, Tagged, listed_at, listed_count, has,
}
use system_programming_lab.Malloc.Layout.Blocks.{Tagged-left, Tagged-right, total-aligned}
use system_programming_lab.Malloc.Layout.Lists.{
  blk, Tagged-free, listed_at_self, listed_at-other, has-of_IsOut, has-remove, listed_count-listed,
}

-- Writes to a free list are writes to the memory.
pub link_block-mem :
    (root p prevp nextp : ℕ) (h : Heap)
    → link_block root p prevp nextp h ≡ record h { mem = (link_block root p prevp nextp h).mem }
unfolding link_block
link_block-mem root p prevp nextp h = elim (Bool-cases (prevp == root)) [
  | inl a ↦ elim (Bool-cases (nextp == 0)) [ inl b ↦ rw (a, b) refl | inr b ↦ rw (a, b) refl ]
  | inr a ↦ elim (Bool-cases (nextp == 0)) [ inl b ↦ rw (a, b) refl | inr b ↦ rw (a, b) refl ]
]

pub unlink_block-mem :
    (root p prevp nextp : ℕ) (h : Heap)
    → unlink_block root p prevp nextp h ≡ record h { mem = (unlink_block root p prevp nextp h).mem }
unfolding unlink_block
unlink_block-mem root p prevp nextp h = elim (Bool-cases (prevp == 0)) [
  | inl a ↦ elim (Bool-cases (nextp == 0)) [ inl b ↦ rw (a, b) refl | inr b ↦ rw (a, b) refl ]
  | inr a ↦ elim (Bool-cases (nextp == 0)) [ inl b ↦ rw (a, b) refl | inr b ↦ rw (a, b) refl ]
]

-- The block of size `s` behind the blocks `xs`, which is listed before or after a move.
module _ (h : Heap) (s : ℕ) (xs ys : List Block) (al : h.block_list_start % 8 ≡ 0)
    (pos : 0 < h.block_list_start)
    (t : Tagged h.mem (h.block_list_start + 56) (xs ++ blk s loose ∷ ys)) where
  abbrev pub start : ℕ
  start = h.block_list_start

  abbrev pub p : ℕ
  p = start + 56 + total xs

  abbrev pub c : ℕ
  c = free_category (size_of h p)

  abbrev pub as_loose : List Block
  as_loose = xs ++ blk s loose ∷ ys

  abbrev pub as_listed : List Block
  as_listed = xs ++ blk s listed ∷ ys

  pub at_p : (size_of h p ≡ s) × (p % 8 ≡ 0) × (start + 56 ≤ p)
  at_p =
      let right = Tagged-right h.mem (start + 56) xs (blk s loose ∷ ys) t in
      let mult = total-aligned h.mem (start + 56) xs (Tagged-left h.mem (start + 56) xs _ t) in
      (omega (arith, right.0, right.3), omega (arith, mult), omega arith)

  pub small : c < categories
  small = free_category-bound (size_of h p)

  pub t_listed : Tagged h.mem (start + 56) as_listed
  t_listed = Tagged-free h.mem (start + 56) s loose listed xs ys refl refl t

  pub at_loose : (j : ℕ) → listed_at p j (start + 56) as_loose ≡ false
  at_loose j = listed_at_self h.mem j (start + 56) s loose xs ys t (omega arith)

  pub at_listed : (j : ℕ) → listed_at p j (start + 56) as_listed ≡ (c == j)
  at_listed j =
      listed_at_self h.mem j (start + 56) s listed xs ys t_listed (omega arith)
      ∙ ap (λ n. free_category n == j) (sym at_p.0)

  pub elsewhere :
      (j x : ℕ) → p ≢ x → listed_at x j (start + 56) as_loose ≡ listed_at x j (start + 56) as_listed
  elsewhere j x ne = listed_at-other x j (start + 56) s loose listed xs ys ne

  -- In another category nothing changes.
  pub other_category :
      (j x : ℕ) → j ≢ c → listed_at x j (start + 56) as_loose ≡ listed_at x j (start + 56) as_listed
  other_category j x ne = elim (Bool-cases (p == x)) [
    | inl e ↦
        let e' : p ≡ x = ground arith in
        let no : (c == j) ≡ false = ground arith in
        ap (λ y. listed_at y j (start + 56) as_loose) (sym e')
        ∙ at_loose j
        ∙ sym no
        ∙ sym (at_listed j)
        ∙ ap (λ y. listed_at y j (start + 56) as_listed) e'
    | inr ne' ↦ elsewhere j x (ground arith)
  ]

  -- The category's list with the block, for the list without it.
  pub with_block :
      (l : List ℕ)
      → ((x : ℕ) → has x l ≡ listed_at x c (start + 56) as_loose)
      → (x : ℕ) → ((p == x) || has x l) ≡ listed_at x c (start + 56) as_listed
  with_block l mem x = elim (Bool-cases (p == x)) [
    | inl e ↦
        let e' : p ≡ x = ground arith in
        rw e
          (sym (ap (λ y. listed_at y c (start + 56) as_listed) (sym e') ∙ at_listed c ∙ ==_refl c))
    | inr ne ↦ rw ne (mem x ∙ elsewhere c x (ground arith))
  ]

  -- The list without it, for the list with it.
  pub without_block :
      (us vs : List ℕ)
      → IsOut p (us ++ vs)
      → ((x : ℕ) → has x (us ++ p ∷ vs) ≡ listed_at x c (start + 56) as_listed)
      → (x : ℕ) → has x (us ++ vs) ≡ listed_at x c (start + 56) as_loose
  without_block us vs o mem x = elim (Bool-cases (p == x)) [
    | inl e ↦
        let e' : p ≡ x = ground arith in
        ap (λ y. has y (us ++ vs)) (sym e')
        ∙ has-of_IsOut p (us ++ vs) o
        ∙ sym (at_loose c)
        ∙ ap (λ y. listed_at y c (start + 56) as_loose) e'
    | inr ne ↦
        let ne' : p ≢ x = ground arith in has-remove x p us vs ne' ∙ mem x ∙ sym (elsewhere c x ne')
  ]

  pub counted :
      (j : ℕ) → listed_count j as_listed ≡ listed_count j as_loose + (if c == j then 1 else 0)
  counted j =
      listed_count-listed j s xs ys
      ∙ ap (λ n. listed_count j as_loose + (if free_category n == j then 1 else 0)) (sym at_p.0)
