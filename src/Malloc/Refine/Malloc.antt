-- ===== src/Malloc/Refine/Malloc.antt =====
-- `mm_malloc` of malloclab/mm.c on the list of allocated blocks.
use system_programming_lab.Base.{
  ℕ, ◌+◌, ◌/◌, ◌%◌, ◌^◌, ◌≤◌, ◌<◌, ◌≡◌, ◌∙◌, sym, refl, ap, inl, inr, ◌⊎◌, false, Option, none,
  some, List, [], ◌∷◌, ◌++◌, ltb, ltb→lt, Bool-cases, length, arith,
}
use system_programming_lab.Malloc.Memory.{Heap, dsize}
use system_programming_lab.Malloc.Fit.{Found, found, missing, out_of_fuel, find_fit}
use system_programming_lab.Malloc.Blocks.{
  Allocated, block, null, no_fuel, extend_size, extend_heap, place,
}
use system_programming_lab.Malloc.Api.{adjusted, extendsize, placed, mm_malloc}
use system_programming_lab.Malloc.Api.Sizes.{adjusted-bounds, extend_size-adjusted}
use system_programming_lab.Malloc.Layout.{listed, Block, total, IsLayout}
use system_programming_lab.Malloc.Layout.Lists.{blk}
use system_programming_lab.Malloc.Layout.Settled.{IsSettled, allocs, allocs-around}
use system_programming_lab.Malloc.Refine.{Represents, Keeps}
use system_programming_lab.Malloc.Refine.Blocks.{Keeps-of_payload, IsLayout-mem}
use system_programming_lab.Malloc.Refine.Free.{positive-ne_null}
use system_programming_lab.Malloc.Refine.Placed.{Placed, place-Placed}
use system_programming_lab.Malloc.Refine.Extend.{extend_heap-null, extend_heap-Extended}
use system_programming_lab.Malloc.Refine.Fit.{find_fit-block}

-- `mm_malloc` after `find_fit`, and after `extend_heap`.
abbrev grown_and_placed : ℕ → ℕ → Allocated → Allocated
grown_and_placed fuel asize r = elim r [
  | block bp h' ↦ placed fuel bp asize h'
  | null h' ↦ null h'
  | no_fuel ↦ no_fuel
]

abbrev fitted : ℕ → ℕ → Heap → Found → Allocated
fitted fuel asize h r = elim r [
  | found bp ↦ placed fuel bp asize h
  | missing ↦ grown_and_placed fuel asize (extend_heap fuel (extendsize asize / dsize) h)
  | out_of_fuel ↦ no_fuel
]

mm_malloc-fitted :
    (fuel size : ℕ) (h : Heap)
    → 0 < size
    → mm_malloc fuel size h ≡ fitted fuel (adjusted size) h (find_fit fuel (adjusted size) h)
unfolding mm_malloc
mm_malloc-fitted fuel size h pos = rw (positive-ne_null size pos) refl

placed-eq :
    (fuel bp asize : ℕ) (h h' : Heap)
    → place fuel bp asize h ≡ some h'
    → placed fuel bp asize h ≡ block bp h'
placed-eq fuel bp asize h h' e =
    ap {B = Allocated} (λ (o : Option Heap). elim o [ none ↦ no_fuel | some k ↦ block bp k ]) e

-- A block of the layout is taken for the request.
module _ (fuel asize : ℕ) (h : Heap) (xs : List Block) (c : ℕ) (ys : List Block)
    (lists : ℕ → List ℕ) (l : IsLayout h (xs ++ blk c listed ∷ ys) lists)
    (st : IsSettled (xs ++ blk c listed ∷ ys)) (f : length (xs ++ blk c listed ∷ ys) + 1 < fuel)
    (mult : asize % 8 ≡ 0) (least : 16 ≤ asize) (room : asize ≤ c) where
  abbrev a : ℕ
  a = h.block_list_start + 56

  abbrev at : ℕ
  at = a + total xs

  taken : Placed fuel h xs c ys asize
  taken =
      place-Placed fuel h xs c ys lists asize l.aligned l.positive
        (omega (arith, l.at_brk, l.in_bounds, l.bounded)) l.contents st f mult least room

  old_live : allocs a (xs ++ blk c listed ∷ ys) ≡ allocs a xs ++ allocs (at + c) ys
  old_live = allocs-around a c xs (blk c listed ∷ []) ys (refl, tt) (omega arith)

  taken-Represents :
      (count : ℕ)
      → length (xs ++ blk c listed ∷ ys) + 1 ≤ count
      → Represents
          (record h { mem = taken.memory })
          (allocs a xs ++ (at, taken.size) ∷ allocs (at + c) ys)
          count
  taken-Represents count le = record {
    blocks = taken.blocks;
    lists = taken.lists;
    layout =
        IsLayout-mem h _ taken.blocks lists taken.lists taken.memory l taken.extent taken.contents;
    settled = taken.settled;
    live_blocks = taken.new_allocs;
    counted = omega (arith, taken.longer, le);
  }

-- The outcome of a request that is met: a new block among the others.
pub record Served (fuel size : ℕ) (h : Heap) (live : List (ℕ × ℕ)) (count : ℕ) : Type 0 where
  pub pointer : ℕ
  pub room : ℕ
  pub memory : ℕ → ℕ
  pub brk : ℕ
  pub before : List (ℕ × ℕ)
  pub behind : List (ℕ × ℕ)
  pub result : mm_malloc fuel size h ≡ block pointer (record h { mem = memory; mem_brk = brk })
  pub others : live ≡ before ++ behind
  pub represented :
      Represents
        (record h { mem = memory; mem_brk = brk })
        (before ++ (pointer, room) ∷ behind)
        (count + 2)
  pub enough : size + 8 ≤ room
  pub keeps : Keeps h.mem memory live

-- A listed block with room meets the request, in the heap as it was or grown.
served :
    (fuel count size asize : ℕ) (h : Heap) (live : List (ℕ × ℕ)) (mg : ℕ → ℕ) (brk : ℕ)
    (xs : List Block) (c : ℕ) (ys : List Block) (lists : ℕ → List ℕ)
    → IsLayout (record h { mem = mg; mem_brk = brk }) (xs ++ blk c listed ∷ ys) lists
    → IsSettled (xs ++ blk c listed ∷ ys)
    → allocs (h.block_list_start + 56) (xs ++ blk c listed ∷ ys) ≡ live
    → Keeps h.mem mg live
    → length (xs ++ blk c listed ∷ ys) ≤ count + 1
    → count + 2 < fuel
    → asize % 8 ≡ 0
    → 16 ≤ asize
    → size + 8 ≤ asize
    → asize ≤ c
    → mm_malloc fuel size h
      ≡ placed fuel
          (h.block_list_start + 56 + total xs)
          asize
          (record h { mem = mg; mem_brk = brk })
    → Served fuel size h live count
served fuel count size asize h live mg brk xs c ys lists l st e keeps le f mult least enough room
      r =
    let g : Heap = record h { mem = mg; mem_brk = brk } in
    let a : ℕ = h.block_list_start + 56 in
    let f' : length (xs ++ blk c listed ∷ ys) + 1 < fuel = omega (arith, le, f) in
    let t = taken fuel asize g xs c ys lists l st f' mult least room in
    record {
      pointer = a + total xs;
      room = t.size;
      memory = t.memory;
      brk = brk;
      before = allocs a xs;
      behind = allocs (a + total xs + c) ys;
      result = r ∙ placed-eq fuel (a + total xs) asize g (record g { mem = t.memory }) t.result;
      others = sym e ∙ old_live fuel asize g xs c ys lists l st f' mult least room;
      represented =
          taken-Represents fuel asize g xs c ys lists l st f' mult least room (count + 2)
            (omega (arith, le));
      enough = omega (arith, enough, t.room);
      keeps = λ q k.
          Keeps-of_payload mg t.memory a (xs ++ blk c listed ∷ ys) live e t.keeps q k ∙ keeps q k;
    }

-- The heap grows, or may not.
Served-grown :
    (fuel count size asize dwords : ℕ) (h : Heap) (live : List (ℕ × ℕ))
    → Represents h live count
    → count + 2 < fuel
    → asize % 8 ≡ 0
    → 16 ≤ asize
    → size + 8 ≤ asize
    → asize ≤ extend_size dwords
    → extend_size dwords % 16 ≡ 0
    → extend_size dwords < 2 ^ 31
    → h.mem_brk + extend_size dwords < 2 ^ 32
    → mm_malloc fuel size h ≡ grown_and_placed fuel asize (extend_heap fuel dwords h)
    → Served fuel size h live count
      ⊎ ((mm_malloc fuel size h ≡ null h) × (h.mem_max_addr < h.mem_brk + extend_size dwords))
Served-grown fuel count size asize dwords h live r f mult least enough room mult' lt no_wrap e =
    elim (Bool-cases (ltb h.mem_max_addr (h.mem_brk + extend_size dwords))) [
      | inl full ↦
          let more : h.mem_max_addr < h.mem_brk + extend_size dwords = ltb→lt _ _ full in
          inr (
            e ∙ ap (grown_and_placed fuel asize) (extend_heap-null fuel dwords h more no_wrap),
            more,
          )
      | inr fits ↦
          let x =
            extend_heap-Extended fuel dwords h r.blocks r.lists r.layout r.settled
              (omega (arith, r.counted, f)) (omega (arith, mult')) (omega (arith, least, room)) lt
              (ltb→le _ _ fits) in
          inl (
            served fuel count size asize h live x.memory (h.mem_brk + extend_size dwords) x.front
              x.size x.back x.lists x.layout x.settled (x.same_allocs ∙ r.live_blocks)
              (Keeps-of_payload h.mem x.memory (h.block_list_start + 56) r.blocks live r.live_blocks
                x.keeps)
              (omega (arith, x.longer, r.counted)) f mult least enough (omega (arith, room, x.room))
              (e ∙ ap (grown_and_placed fuel asize) x.result))
    ]
  where
    ltb→le : (m n : ℕ) → ltb m n ≡ false → n ≤ m
    ltb→le m n e = ground arith

grown_size : (asize : ℕ) → asize + 16 < 2 ^ 31 → extend_size (extendsize asize / dsize) < 2 ^ 31
grown_size asize lt = ground arith

pub block_inj : (p q : ℕ) (h k : Heap) → block p h ≡ block q k → (p ≡ q) × (h ≡ k)
block_inj p q h k e = (cc, cc)

pub block-ne_null : (p : ℕ) (h k : Heap) → block p h ≡ null k → ⊥
block-ne_null p h k e = cc

-- The end of the heap behind the block by which `mm_malloc` extends it where no block fits.
abbrev pub wanted_brk : ℕ → Heap → ℕ
wanted_brk size h = h.mem_brk + extend_size (extendsize (adjusted size) / dsize)

-- With fuel for two more blocks than there are, a request of a positive size is met, or NULL is
-- returned and the heap is as it was, since it may not grow by what the request wants. A request that
-- is met returns a block with room for it, its header and its footer, among the blocks that were
-- allocated before; their payloads have not changed, and the heap represents them together with the
-- new one. The size and 32 are below 2 ^ 31, and the end of the heap that the request may want is below
-- 2 ^ 32, so that no sum of `mem_sbrk` wraps around.
pub mm_malloc-Represents :
    (fuel count size : ℕ) (h : Heap) (live : List (ℕ × ℕ))
    → Represents h live count
    → count + 2 < fuel
    → 0 < size
    → size + 32 < 2 ^ 31
    → wanted_brk size h < 2 ^ 32
    → Served fuel size h live count
      ⊎ ((mm_malloc fuel size h ≡ null h) × (h.mem_max_addr < wanted_brk size h))
mm_malloc-Represents fuel count size h live r f pos lt no_wrap =
    let (room, waste, mult, least) = adjusted-bounds size pos (omega arith) in
    let (grown, mult') = extend_size-adjusted size pos (omega arith) in
    let fitting = mm_malloc-fitted fuel size h pos in
    elim (find_fit-block fuel (adjusted size) h r.blocks r.lists r.layout
      (omega (arith, r.counted, f))) [
        | inr (xs, c, ys, e, fit, enough) ↦
            let le : length (xs ++ blk c listed ∷ ys) ≤ count = rw e at r.counted in
            inl (
              served fuel count size (adjusted size) h live h.mem h.mem_brk xs c ys r.lists
                (rw e at r.layout) (rw e at r.settled)
                (ap (allocs (h.block_list_start + 56)) (sym e) ∙ r.live_blocks) (λ q k. refl)
                (omega (arith, le)) f mult least room enough
                (fitting ∙ ap (fitted fuel (adjusted size) h) fit))
        | inl none_fits ↦
            Served-grown fuel count size (adjusted size) (extendsize (adjusted size) / dsize) h live
              r f mult least room grown mult'
              (grown_size (adjusted size) (omega (arith, waste, lt))) no_wrap
              (fitting ∙ ap (fitted fuel (adjusted size) h) none_fits)
      ]
