-- ===== src/Malloc/Refine/Free.antt =====
-- `mm_free` of malloclab/mm.c on the list of allocated blocks.
use mathlib.Core.Option
use system_programming_lab.Base.{
  ℕ, ◌+◌, ◌-◌, ◌%◌, ◌≤◌, ◌<◌, ◌≡◌, ◌∙◌, refl, ap, inl, inr, ◌⊎◌, false, Option, none, some, List,
  [], ◌∷◌, ◌++◌, ◌==◌, ==_refl, length, length-append, arith,
}
use system_programming_lab.Malloc.Memory.{Heap, get_size, hdrp, write}
use system_programming_lab.Malloc.Blocks.{free_block, coalesce}
use system_programming_lab.Malloc.Ranges.{remove_range}
use system_programming_lab.Malloc.Api.{Package, mm_free}
use system_programming_lab.Malloc.Layout.{
  used, listed, loose, Block, total, Tagged, Contents, IsLayout, KeepsPayload,
}
use system_programming_lab.Malloc.Layout.Blocks.{total-append, Tagged-right}
use system_programming_lab.Malloc.Layout.Lists.{blk}
use system_programming_lab.Malloc.Layout.Retile.{
  retile-Contents, retile-KeepsAround, KeepsPayload-of_around,
}
use system_programming_lab.Malloc.Layout.Settled.{
  IsSettled, allocs, allocs-around, IsSettled-left, IsSettled-right,
}
use system_programming_lab.Malloc.Layout.Merge.{Coalesced, coalesce-Coalesced}
use system_programming_lab.Malloc.Refine.{Represents, Keeps}
use system_programming_lab.Malloc.Refine.Blocks.{Keeps-of_payload, allocs-split, IsLayout-mem}

-- The words of a new free block.
abbrev pub free_words : (ℕ → ℕ) → (a n : ℕ) → ℕ → ℕ
free_words m a n = write (write (write (write m (a - 4) n) (a + n - 8) n) (a + 4) 0) a 0

pub free_block-eq :
    (a n : ℕ) (h : Heap) → n % 8 ≡ 0 → free_block a n h ≡ record h { mem = free_words h.mem a n }
free_block-eq a n h mult = let z : n - n % 8 ≡ n = omega arith in rw (==_refl (a - 4), z) refl

pub free_words-Tagged :
    (m : ℕ → ℕ) (a n : ℕ)
    → 8 ≤ a
    → 16 ≤ n
    → n % 8 ≡ 0
    → Tagged (free_words m a n) a (blk n loose ∷ [])
free_words-Tagged m a n le least mult = (ground arith, ground arith, least, mult, tt)

pub free_words-same :
    (m : ℕ → ℕ) (a n q : ℕ)
    → 8 ≤ a
    → 16 ≤ n
    → (q + 4 < a) ⊎ (a + n ≤ q + 4)
    → free_words m a n q ≡ m q
free_words-same m a n q le least (inl lt) = ground arith
free_words-same m a n q le least (inr ge) = ground arith

pub positive-ne_null : (n : ℕ) → 0 < n → (n == 0) ≡ false
positive-ne_null n pos = ground arith

mm_free-eq :
    (fuel bp : ℕ) (s : Package) (bp' : ℕ) (h' : Heap)
    → 0 < bp
    → coalesce fuel bp (free_block bp (get_size s.heap (hdrp bp)) s.heap) ≡ some (bp', h')
    → mm_free fuel bp s
      ≡ some (record {
        heap = h';
        gl_ranges = Option.map (λ ranges. remove_range ranges bp) s.gl_ranges;
      })
unfolding mm_free
mm_free-eq fuel bp s bp' h' pos e = rw (positive-ne_null bp pos) (
    ap {B = Option Package}
      (λ (o : Option (ℕ × Heap)). elim o [
        | none ↦ none
        | some r ↦ some (record {
          heap = r.1;
          gl_ranges = Option.map (λ ranges. remove_range ranges bp) s.gl_ranges;
        })
      ])
      e)

-- The block becomes a free one in no list, which is merged and listed.
module _ (fuel : ℕ) (h : Heap) (xs : List Block) (n : ℕ) (ys : List Block) (lists : ℕ → List ℕ)
    (l : IsLayout h (xs ++ blk n used ∷ ys) lists) (st : IsSettled (xs ++ blk n used ∷ ys))
    (f : length (xs ++ blk n used ∷ ys) < fuel) where
  abbrev at : ℕ
  at = h.block_list_start + 56 + total xs

  abbrev m1 : ℕ → ℕ
  m1 = free_words h.mem at n

  tags : Tagged h.mem at (blk n used ∷ ys)
  tags = Tagged-right h.mem (h.block_list_start + 56) xs (blk n used ∷ ys) l.contents.tagged

  outside : (q : ℕ) → (q + 4 < at) ⊎ (at + total (blk n used ∷ []) ≤ q + 4) → m1 q ≡ h.mem q
  outside q (inl lt) = free_words-same h.mem at n q (omega arith) tags.2 (inl lt)
  outside q (inr ge) = free_words-same h.mem at n q (omega arith) tags.2 (inr (omega (arith, ge)))

  loose_Contents : Contents m1 h.block_list_start (xs ++ blk n loose ∷ ys) lists
  loose_Contents =
      retile-Contents h.mem m1 h.block_list_start xs (blk n used ∷ []) (blk n loose ∷ []) ys lists
        l.aligned l.positive l.contents (refl, tt) (refl, tt) refl
        (free_words-Tagged h.mem at n (omega arith) tags.2 tags.3) outside

  loose_KeepsPayload : KeepsPayload h.mem m1 (h.block_list_start + 56) (xs ++ blk n loose ∷ ys)
  loose_KeepsPayload =
      KeepsPayload-of_around h.mem m1 (h.block_list_start + 56) (n + 0) xs (blk n loose ∷ []) ys
        (refl, tt) refl
        (retile-KeepsAround h.mem m1 h.block_list_start xs (blk n used ∷ []) (blk n loose ∷ []) ys
          lists l.aligned l.positive l.contents (refl, tt) (refl, tt) refl
          (free_words-Tagged h.mem at n (omega arith) tags.2 tags.3) outside)

  merged : Coalesced fuel (record h { mem = m1 }) xs n ys
  merged =
      let e = total-append xs (blk n used ∷ ys) in
      let e' = total-append xs (blk n loose ∷ ys) in
      let k = length-append xs (blk n used ∷ ys) in
      let k' = length-append xs (blk n loose ∷ ys) in
      coalesce-Coalesced fuel (record h { mem = m1 }) xs n ys lists l.aligned l.positive
        (omega (arith, l.at_brk, l.in_bounds, l.bounded, e, e')) (omega (arith, k, k', f))
        loose_Contents (IsSettled-left xs (blk n used ∷ ys) st refl)
        (IsSettled-right xs (blk n used ∷ ys) st).1

  freed-Represents :
      (count : ℕ)
      → length (xs ++ blk n used ∷ ys) ≤ count
      → Represents
          (record h { mem = merged.memory })
          (allocs (h.block_list_start + 56) xs ++ allocs (at + n) ys)
          count
  freed-Represents count le =
      let c = merged in
      let e = total-append xs (blk n used ∷ ys) in
      let e' = total-append xs (blk n loose ∷ ys) in
      let k = length-append xs (blk n used ∷ ys) in
      let k' = length-append xs (blk n loose ∷ ys) in
      record {
        blocks = c.front ++ blk c.size listed ∷ c.back;
        lists = c.lists;
        layout =
            IsLayout-mem h (xs ++ blk n used ∷ ys) _ lists c.lists c.memory l
              (omega (arith, c.extent, e, e')) c.contents;
        settled = c.settled;
        live_blocks =
            c.same_allocs
            ∙ allocs-around (h.block_list_start + 56) n xs (blk n loose ∷ []) ys (refl, tt)
                (omega arith);
        counted = omega (arith, c.shorter, k, k', le);
      }

  freed-Keeps :
      Keeps h.mem merged.memory (allocs (h.block_list_start + 56) xs ++ allocs (at + n) ys)
  freed-Keeps =
      Keeps-of_payload h.mem merged.memory (h.block_list_start + 56) (xs ++ blk n loose ∷ ys) _
        (allocs-around (h.block_list_start + 56) n xs (blk n loose ∷ []) ys (refl, tt)
          (omega arith))
        (λ q k. merged.keeps q k ∙ loose_KeepsPayload q k)

  freed-eq :
      (s : Package)
      → s.heap ≡ h
      → mm_free fuel at s
        ≡ some (record {
          heap = record h { mem = merged.memory };
          gl_ranges = Option.map (λ ranges. remove_range ranges at) s.gl_ranges;
        })
  freed-eq s e =
      let size : get_size s.heap (at - 4) ≡ n =
        ap (λ (g : Heap). get_size g (at - 4)) e ∙ omega (arith, tags.0, tags.3) in
      mm_free-eq fuel at s _ (record h { mem = merged.memory }) (omega arith)
        (ap (λ k. coalesce fuel at (free_block at k s.heap)) size
          ∙ ap (λ (g : Heap). coalesce fuel at (free_block at n g)) e
          ∙ ap (coalesce fuel at) (free_block-eq at n h tags.3)
          ∙ merged.result)

-- Freeing an allocated block of the heap succeeds, with fuel for the number of blocks: the heap then
-- represents the other allocated blocks, whose payloads have not changed, the block is taken off the
-- range list, and nothing but the memory is written.
pub mm_free-Represents :
    (fuel count : ℕ) (s : Package) (us vs : List (ℕ × ℕ)) (p n : ℕ)
    → Represents s.heap (us ++ (p, n) ∷ vs) count
    → count < fuel
    → (m' : ℕ → ℕ) × (mm_free fuel p s
        ≡ some (record {
          heap = record (s.heap) { mem = m' };
          gl_ranges = Option.map (λ ranges. remove_range ranges p) s.gl_ranges;
        }))
      × Represents (record (s.heap) { mem = m' }) (us ++ vs) count
      × Keeps s.heap.mem m' (us ++ vs)
mm_free-Represents fuel count s us vs p n r f =
    let h : Heap = s.heap in
    let (xs, ys, e, e1, e2, e3) =
      allocs-split (h.block_list_start + 56) r.blocks us vs p n r.live_blocks in
    let l : IsLayout h (xs ++ blk n used ∷ ys) r.lists = rw e at r.layout in
    let st : IsSettled (xs ++ blk n used ∷ ys) = rw e at r.settled in
    let le : length (xs ++ blk n used ∷ ys) ≤ count = rw e at r.counted in
    let f' : length (xs ++ blk n used ∷ ys) < fuel = omega (arith, le, f) in
    let live : allocs (h.block_list_start + 56) xs
          ++ allocs (at fuel h xs n ys r.lists l st f' + n) ys
        ≡ us ++ vs =
      ap (λ k. k ++ allocs (at fuel h xs n ys r.lists l st f' + n) ys) e1
      ∙ ap (λ k. us ++ allocs (k + n) ys) e2
      ∙ ap (λ k. us ++ k) e3 in
    (
      (merged fuel h xs n ys r.lists l st f').memory,
      rw e2 at (freed-eq fuel h xs n ys r.lists l st f' s refl),
      rw live at (freed-Represents fuel h xs n ys r.lists l st f' count le),
      rw live at (freed-Keeps fuel h xs n ys r.lists l st f'),
    )
