-- ===== src/Malloc/Refine/Place.antt =====
-- `place` of malloclab/mm.c: a listed block becomes allocated, as a whole or its first part.
use system_programming_lab.Base.{
  ℕ, ◌+◌, ◌-◌, ◌*◌, ◌/◌, ◌%◌, ◌^◌, ◌≤◌, ◌<◌, ◌≡◌, ◌∙◌, refl, ap, true, false, Option, none, some,
  leb, ◌==◌, ==_refl, if◌then◌else◌, arith, inl, inr, ◌⊎◌, List, [], ◌∷◌, ◌++◌,
}
use system_programming_lab.Malloc.Memory.{Heap, dsize, get_size, hdrp, next_blkp}
use system_programming_lab.Malloc.FreeList.{remove_free_block}
use system_programming_lab.Malloc.Blocks.{
  minfb_size, word, free_block, coalesce, mark_allocated, place,
}
use system_programming_lab.Malloc.Layout.Joins.{tag_words}
use system_programming_lab.Malloc.Refine.Free.{free_words, free_block-eq}
use system_programming_lab.Malloc.Layout.{used, listed, loose, Block, Tagged}
use system_programming_lab.Malloc.Layout.Lists.{blk}
use system_programming_lab.Malloc.Layout.Settled.{IsSettled}

abbrev heap_of : Option (ℕ × Heap) → Option Heap
heap_of none = none
heap_of (some (bp', h')) = some h'

abbrev rest_freed : ℕ → ℕ → ℕ → Heap → Option Heap
rest_freed fuel bp remainder taken =
    heap_of (coalesce fuel (next_blkp taken bp) (free_block (next_blkp taken bp) remainder taken))

-- `place` once the block is out of its list.
abbrev pub placed_in : ℕ → ℕ → ℕ → ℕ → Heap → Option Heap
placed_in fuel bp asize csize removed =
    let remainder : ℕ = word (2 ^ 32 + csize - asize) in
    if leb (minfb_size * dsize) remainder
    then rest_freed fuel bp remainder (mark_allocated bp asize removed)
    else some (mark_allocated bp csize removed)

pub place-placed_in :
    (fuel bp asize : ℕ) (h : Heap)
    → place fuel bp asize h
      ≡ placed_in fuel bp asize (get_size h (hdrp bp)) (remove_free_block bp h)
unfolding place
place-placed_in fuel bp asize h = refl

mark_allocated-eq :
    (a n : ℕ) (h : Heap)
    → n % 8 ≡ 0
    → mark_allocated a n h ≡ record h { mem = tag_words h.mem a n (n + 1) }
mark_allocated-eq a n h mult =
    let w : n / 2 * 2 + 1 ≡ n + 1 = omega arith in
    let z : n + 1 - (n + 1) % 8 ≡ n = omega arith in rw (w, ==_refl (a - 4), z) refl

-- Too little is left for a block.
pub placed_in-whole :
    (fuel a asize c : ℕ) (h : Heap)
    → c < 2 ^ 32
    → c % 8 ≡ 0
    → asize ≤ c
    → c < asize + 16
    → placed_in fuel a asize c h ≡ some (record h { mem = tag_words h.mem a c (c + 1) })
placed_in-whole fuel a asize c h lt mult le less =
    let rem : word (2 ^ 32 + c - asize) ≡ c - asize = omega arith in
    let small : leb 16 (c - asize) ≡ false = ground arith in
    rw (rem, small) (ap some (mark_allocated-eq a c h mult))

pub placed_in-split :
    (fuel a asize c : ℕ) (h : Heap) (bp' : ℕ) (h' : Heap)
    → c < 2 ^ 32
    → asize % 8 ≡ 0
    → c % 8 ≡ 0
    → 16 ≤ asize
    → asize + 16 ≤ c
    → coalesce fuel (a + asize) (record h {
      mem = free_words (tag_words h.mem a asize (asize + 1)) (a + asize) (c - asize);
    })
      ≡ some (bp', h')
    → placed_in fuel a asize c h ≡ some h'
placed_in-split fuel a asize c h bp' h' lt mult mult' least room e =
    let rem : word (2 ^ 32 + c - asize) ≡ c - asize = omega arith in
    let big : leb 16 (c - asize) ≡ true = ground arith in
    let far : (a - 4 == a + asize - 8) ≡ false = ground arith in
    let z : asize + 1 - (asize + 1) % 8 ≡ asize = omega arith in
    let taken : Heap = record h { mem = tag_words h.mem a asize (asize + 1) } in
    let next : next_blkp taken a ≡ a + asize = rw (far, ==_refl (a - 4), z) refl in
    rw (rem, big)
      (ap (rest_freed fuel a (c - asize)) (mark_allocated-eq a asize h mult)
        ∙ ap (λ k. heap_of (coalesce fuel k (free_block k (c - asize) taken))) next
        ∙ ap (λ g. heap_of (coalesce fuel (a + asize) g))
            (free_block-eq (a + asize) (c - asize) taken (omega arith))
        ∙ ap heap_of e)

-- An allocated block in place of a listed one, before other settled blocks.
pub IsSettled-used :
    (n c : ℕ) (xs ys zs : List Block)
    → IsSettled (xs ++ blk c listed ∷ ys)
    → IsSettled zs
    → IsSettled (xs ++ blk n used ∷ zs)
IsSettled-used n c [] ys zs s sz = (inl refl, sz)
IsSettled-used n c (x ∷ []) ys zs s sz =
    (elim s.0 [ inl u ↦ inl u | inr l ↦ inr (l.0, refl) ], (inl refl, sz))
IsSettled-used n c (x ∷ y ∷ xs) ys zs s sz = (s.0, IsSettled-used n c (y ∷ xs) ys zs s.1 sz)

pub tag_words-same :
    (m : ℕ → ℕ) (a n w q : ℕ)
    → 8 ≤ a
    → 16 ≤ n
    → (q + 4 < a) ⊎ (a + n ≤ q + 4)
    → tag_words m a n w q ≡ m q
tag_words-same m a n w q le least (inl lt) = ground arith
tag_words-same m a n w q le least (inr ge) = ground arith

-- The words that `place` writes when it splits a block.
abbrev pub split_words : (ℕ → ℕ) → (a n r : ℕ) → ℕ → ℕ
split_words m a n r = free_words (tag_words m a n (n + 1)) (a + n) r

pub split_words-same :
    (m : ℕ → ℕ) (a n r q : ℕ)
    → 8 ≤ a
    → 16 ≤ n
    → 16 ≤ r
    → (q + 4 < a) ⊎ (a + (n + r) ≤ q + 4)
    → split_words m a n r q ≡ m q
split_words-same m a n r q le least least' (inl lt) = ground arith
split_words-same m a n r q le least least' (inr ge) = ground arith

pub split_words-Tagged :
    (m : ℕ → ℕ) (a n r : ℕ)
    → 8 ≤ a
    → 16 ≤ n
    → 16 ≤ r
    → n % 8 ≡ 0
    → r % 8 ≡ 0
    → Tagged (split_words m a n r) a (blk n used ∷ blk r loose ∷ [])
split_words-Tagged m a n r le least least' mult mult' =
    (ground arith, ground arith, least, mult, (ground arith, ground arith, least', mult', tt))
