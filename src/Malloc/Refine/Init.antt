-- ===== src/Malloc/Refine/Init.antt =====
-- `mm_init` of malloclab/mm.c: a heap with no allocated block.
use system_programming_lab.Base.{
  ℕ, ◌+◌, ◌-◌, ◌*◌, ◌/◌, ◌%◌, ◌^◌, ◌≤◌, ◌<◌, ◌≡◌, ◌∙◌, refl, ap, Option, none, some, List, [],
  length, length-append, ◌∷◌, ◌++◌, arith,
}
use system_programming_lab.Malloc.Memory.{Heap, wsize, dsize, chunksize, mem_sbrk}
use system_programming_lab.Malloc.Blocks.{Allocated, block, null, no_fuel, extend_heap}
use system_programming_lab.Malloc.Ranges.{Range}
use system_programming_lab.Malloc.Api.{
  Package, Initialised, ready, failed, unfinished, first_words, mm_init,
}
use system_programming_lab.Malloc.Fit.{categories}
use system_programming_lab.Malloc.Layout.{listed, total, IsLayout}
use system_programming_lab.Malloc.Layout.Lists.{blk}
use system_programming_lab.Malloc.Refine.{Represents}
use system_programming_lab.Malloc.Refine.Extend.{mem_sbrk-fits, extend_heap-Extended}

-- The heap of `mm_init` before `extend_heap`.
abbrev started : Heap → Heap
started h = record (first_words h.mem_brk (record h { mem_brk = h.mem_brk + 56 })) {
  block_list_start = h.mem_brk;
  heap_listp = h.mem_brk + 48;
}

roots_empty : (h : Heap) (i : ℕ) → i < categories → (started h).mem (h.mem_brk + i * 4) ≡ 0
roots_empty h i lt = ground arith

tag_of_first :
    (h : Heap)
    → ((started h).mem (h.mem_brk + 44) ≡ 9)
      × ((started h).mem (h.mem_brk + 48) ≡ 9)
      × ((started h).mem (h.mem_brk + 52) ≡ 1)
tag_of_first h = (ground arith, ground arith, ground arith)

started-IsLayout :
    (h : Heap)
    → h.mem_brk % 8 ≡ 0
    → 0 < h.mem_brk
    → h.mem_brk + 56 ≤ h.mem_max_addr
    → h.mem_max_addr < 2 ^ 32
    → IsLayout (started h) [] (λ i. [])
started-IsLayout h al pos le lt =
    let (first, second, last) = tag_of_first h in
    record {
      aligned = al;
      positive = pos;
      at_list = refl;
      at_brk = omega arith;
      in_bounds = le;
      bounded = lt;
      contents = record {
        prologue = (first, second);
        epilogue = ap (started h).mem (omega arith) ∙ last;
        tagged = tt;
        chains = λ i less. roots_empty h i less;
        places = λ i less. tt;
        sorted = λ i less. tt;
        members = λ i less x. refl;
        lengths = λ i less. omega arith;
      };
    }

-- `mm_init` after `mem_sbrk` and after `extend_heap`.
abbrev extended_from : Option (List Range) → Package → Allocated → Initialised
extended_from ranges s r = elim r [
  | block bp h' ↦ ready (record { heap = h'; gl_ranges = ranges })
  | null h' ↦ failed (record s { heap = h' })
  | no_fuel ↦ unfinished
]

abbrev started_from : ℕ → Option (List Range) → Package → Option (ℕ × Heap) → Initialised
started_from fuel ranges s r = elim r [
  | none ↦ failed (record s { heap = record (s.heap) { heap_listp = 2 ^ 32 - 1 } })
  | some (p, grown) ↦
      let h : Heap = record (first_words p grown) {
        block_list_start = p;
        heap_listp = p + 12 * wsize;
      } in
      extended_from ranges s (extend_heap fuel (chunksize / dsize) h)
]

mm_init-eq :
    (fuel : ℕ) (ranges : Option (List Range)) (s : Package)
    → mm_init fuel ranges s ≡ started_from fuel ranges s (mem_sbrk (14 * wsize) s.heap)
unfolding mm_init
mm_init-eq fuel ranges s = refl

-- A list with one member at most has none around it.
alone {ℓ} :
    {A : Type ℓ} (front : List A) (x : A) (back : List A)
    → length (front ++ x ∷ back) ≤ 1
    → (front ≡ []) × (back ≡ [])
alone [] x [] le = (refl, refl)
alone [] x (y ∷ back) le = absurd (omega arith)
alone (y ∷ front) x back le = absurd (omega (arith, length-append front (x ∷ back)))

-- Where the heap may grow by the first words and a chunk from an 8-aligned address on, and the memory
-- ends below 2 ^ 32, `mm_init` succeeds with fuel for one block, takes the range list that it is given,
-- and makes a heap that ends behind the chunk and represents no allocated block: it is laid out in one
-- block, a free and listed one of the size of the chunk.
pub mm_init-Represents :
    (fuel : ℕ) (ranges : Option (List Range)) (s : Package)
    → s.heap.mem_brk % 8 ≡ 0
    → 0 < s.heap.mem_brk
    → s.heap.mem_brk + 56 + chunksize ≤ s.heap.mem_max_addr
    → s.heap.mem_max_addr < 2 ^ 32
    → 1 < fuel
    → (h' : Heap) × (mm_init fuel ranges s ≡ ready (record { heap = h'; gl_ranges = ranges }))
      × (h'.mem_brk ≡ s.heap.mem_brk + 56 + chunksize)
      × (r : Represents h' [] 1) × (r.blocks ≡ blk chunksize listed ∷ [])
mm_init-Represents fuel ranges s al pos le lt f =
    let h : Heap = started s.heap in
    let x =
      extend_heap-Extended fuel (chunksize / dsize) h [] (λ i. [])
        (started-IsLayout s.heap al pos (omega arith) lt) tt (omega arith) (omega arith)
        (omega arith) (omega arith) (omega arith) in
    let (none_before, none_behind) = alone x.front (blk x.size listed) x.back x.longer in
    let one : x.front ++ blk x.size listed ∷ x.back ≡ blk x.size listed ∷ [] =
      rw (none_before, none_behind) refl in
    let whole : x.size ≡ chunksize =
      let extent : s.heap.mem_brk + 56 + total (x.front ++ blk x.size listed ∷ x.back)
          ≡ s.heap.mem_brk + 56 + chunksize =
        x.layout.at_brk in
      let sum : total (x.front ++ blk x.size listed ∷ x.back) ≡ x.size + 0 = ap total one in
      omega arith in
    (
      record h { mem = x.memory; mem_brk = h.mem_brk + chunksize },
      mm_init-eq fuel ranges s
          ∙ ap (started_from fuel ranges s) (mem_sbrk-fits 56 s.heap (omega arith) (omega arith) lt)
          ∙ ap (extended_from ranges s) x.result,
      refl,
      record {
        blocks = _;
        lists = x.lists;
        layout = x.layout;
        settled = x.settled;
        live_blocks = x.same_allocs;
        counted = omega (arith, x.longer);
      },
      one ∙ ap (λ n. blk n listed ∷ []) whole,
    )
