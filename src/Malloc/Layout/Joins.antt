-- ===== src/Malloc/Layout/Joins.antt =====
-- The cases of `coalesce` of malloclab/mm.c as writes to the memory.
use system_programming_lab.Base.{
  ℕ, ◌+◌, ◌-◌, ◌%◌, ◌^◌, ◌≤◌, ◌<◌, ◌≡◌, refl, true, false, ◌==◌, ==_refl, arith,
}
use system_programming_lab.Malloc.Memory.{
  Heap, get_alloc, get_size, hdrp, ftrp, next_blkp, prev_blkp, write,
}
use system_programming_lab.Malloc.FreeList.{remove_free_block}
use system_programming_lab.Malloc.Blocks.{
  coalesce_next, coalesce_prev, coalesce_both, coalesced, word,
}

-- The memory with the header and the footer of a block of size `n` at `a`, which has the word `w`.
abbrev pub tag_words : (ℕ → ℕ) → (a n w : ℕ) → ℕ → ℕ
tag_words m a n w = write (write m (a - 4) w) (a + n - 8) w

-- The same, the footer first.
abbrev pub tag_words_back : (ℕ → ℕ) → (a n w : ℕ) → ℕ → ℕ
tag_words_back m a n w = write (write m (a + n - 8) w) (a - 4) w

pub coalesce_next-eq :
    (h : Heap) (a s n : ℕ) (mr : ℕ → ℕ)
    → get_size h (a - 4) ≡ s
    → get_size h (a + s - 4) ≡ n
    → (s + n) % 8 ≡ 0
    → s + n < 2 ^ 32
    → remove_free_block (a + s) h ≡ record h { mem = mr }
    → coalesce_next a h ≡ (a, record h { mem = tag_words mr a (s + n) (s + n) })
coalesce_next-eq h a s n mr at_a at_next mult lt removed =
    let w : word (s + n) ≡ s + n = omega arith in
    let z : s + n - (s + n) % 8 ≡ s + n = omega arith in
    rw (at_a, at_next, w, removed, ==_refl (a - 4), z) refl

pub coalesce_prev-eq :
    (h : Heap) (a p s : ℕ) (mr : ℕ → ℕ)
    → get_size h (a + p - 4) ≡ s
    → get_size h (a + p - 8) ≡ p
    → get_size h (a - 4) ≡ p
    → (s + p) % 8 ≡ 0
    → s + p < 2 ^ 32
    → remove_free_block a h ≡ record h { mem = mr }
    → mr (a + p - 4) - mr (a + p - 4) % 8 ≡ s
    → mr (a + p - 8) - mr (a + p - 8) % 8 ≡ p
    → 8 ≤ s
    → 8 ≤ p
    → 8 ≤ a
    → coalesce_prev (a + p) h ≡ (a, record h { mem = tag_words_back mr a (s + p) (s + p) })
coalesce_prev-eq h a p s mr at_b at_foot at_a mult lt removed r_b r_foot le_s le_p le_a =
    let w : word (s + p) ≡ s + p = omega arith in
    let back : a + p - p ≡ a = omega arith in
    let far : (a + p - 8 == a + p + s - 8) ≡ false = ground arith in
    let far' : (a + p - 8 == a - 4) ≡ false = ground arith in
    let foot : a + p + s - 8 ≡ a + (s + p) - 8 = omega arith in
    rw (at_b, at_foot, back, at_a, w, removed, r_b, far, r_foot, back, far', r_foot, back, foot)
      refl

pub coalesce_both-eq :
    (h : Heap) (a p s n : ℕ) (mp mr : ℕ → ℕ)
    → get_size h (a + p - 4) ≡ s
    → get_size h (a + p - 8) ≡ p
    → get_size h (a - 4) ≡ p
    → get_size h (a + p + s - 4) ≡ n
    → get_size h (a + p + s + n - 8) ≡ n
    → (s + n + p) % 8 ≡ 0
    → s + n + p < 2 ^ 32
    → remove_free_block a h ≡ record h { mem = mp }
    → mp (a + p - 4) - mp (a + p - 4) % 8 ≡ s
    → remove_free_block (a + p + s) (record h { mem = mp }) ≡ record h { mem = mr }
    → mr (a + p - 4) - mr (a + p - 4) % 8 ≡ s
    → mr (a + p + s - 4) - mr (a + p + s - 4) % 8 ≡ n
    → mr (a + p - 8) - mr (a + p - 8) % 8 ≡ p
    → 8 ≤ s
    → 8 ≤ p
    → 8 ≤ a
    → coalesce_both (a + p) h ≡ (a, record h { mem = tag_words_back mr a (s + n + p) (s + n + p) })
coalesce_both-eq h a p s n mp mr at_b at_foot at_a at_next at_last mult lt removed p_b removed' r_b
      r_next r_foot le_s le_p le_a =
    let w : word (s + n + p) ≡ s + n + p = omega arith in
    let back : a + p - p ≡ a = omega arith in
    let far : (a + p - 8 == a + p + s + n - 8) ≡ false = ground arith in
    let far' : (a + p - 8 == a - 4) ≡ false = ground arith in
    let foot : a + p + s + n - 8 ≡ a + (s + n + p) - 8 = omega arith in
    rw
      (
        at_b, at_foot, back, at_a, at_next, at_last, w, removed, p_b, removed', r_b, r_next, far,
        r_foot, back, far', r_foot, back, foot,
      )
      refl

-- What the tests of `coalesced` choose.
pub coalesced-none :
    (bp : ℕ) (h : Heap)
    → get_alloc h (ftrp h (prev_blkp h bp)) ≡ true
    → get_alloc h (hdrp (next_blkp h bp)) ≡ true
    → coalesced bp h ≡ (bp, h)
unfolding coalesced
coalesced-none bp h p n = rw (p, n) refl

pub coalesced-next :
    (bp : ℕ) (h : Heap)
    → get_alloc h (ftrp h (prev_blkp h bp)) ≡ true
    → get_alloc h (hdrp (next_blkp h bp)) ≡ false
    → coalesced bp h ≡ coalesce_next bp h
unfolding coalesced
coalesced-next bp h p n = rw (p, n) refl

pub coalesced-prev :
    (bp : ℕ) (h : Heap)
    → get_alloc h (ftrp h (prev_blkp h bp)) ≡ false
    → get_alloc h (hdrp (next_blkp h bp)) ≡ true
    → coalesced bp h ≡ coalesce_prev bp h
unfolding coalesced
coalesced-prev bp h p n = rw (p, n) refl

pub coalesced-both :
    (bp : ℕ) (h : Heap)
    → get_alloc h (ftrp h (prev_blkp h bp)) ≡ false
    → get_alloc h (hdrp (next_blkp h bp)) ≡ false
    → coalesced bp h ≡ coalesce_both bp h
unfolding coalesced
coalesced-both bp h p n = rw (p, n) refl
