-- ===== src/Malloc/Refine/Extend.antt =====
-- `extend_heap` of malloclab/mm.c: a new block behind the last one.
use mathlib.Core.List.{append-nil}
use system_programming_lab.Base.{
  ℕ, ◌+◌, ◌-◌, ◌%◌, ◌^◌, ◌≤◌, ◌<◌, ◌≡◌, ◌∙◌, sym, refl, ap, inl, Bool, true, false, ◌||◌, Option,
  none, some, List, [], ◌∷◌, ◌++◌, ltb, ◌==◌, ==_refl, length, length-append, arith,
}
use system_programming_lab.Malloc.Memory.{Heap, hdrp, next_blkp, pack, put, write, mem_sbrk}
use system_programming_lab.Malloc.Blocks.{
  Allocated, block, null, no_fuel, free_block, extend_size, coalesce, extend_heap,
}
use system_programming_lab.Malloc.Layout.{
  listed, loose, Block, total, Tagged, Contents, IsLayout, KeepsPayload,
}
use system_programming_lab.Malloc.Layout.Blocks.{total-append, is_payload-append, or-left}
use system_programming_lab.Malloc.Layout.Lists.{blk}
use system_programming_lab.Malloc.Layout.Settled.{IsSettled, allocs, allocs-append}
use system_programming_lab.Malloc.Layout.Merge.{Coalesced, coalesce-Coalesced}
use system_programming_lab.Malloc.Refine.Grown.{grown-Contents, grown-KeepsPayload}
use system_programming_lab.Malloc.Refine.Free.{free_words, free_block-eq, free_words-same}

-- The words that `extend_heap` writes.
abbrev extended_words : (ℕ → ℕ) → (a n : ℕ) → ℕ → ℕ
extended_words m a n = write (free_words m a n) (a + n - 4) 1

epilogue-eq :
    (a n : ℕ) (h : Heap)
    → 8 ≤ a
    → 16 ≤ n
    → n % 8 ≡ 0
    → put (hdrp (next_blkp (free_block a n h) a)) (pack 0 true) (free_block a n h)
      ≡ record h { mem = extended_words h.mem a n }
epilogue-eq a n h le least mult =
    let f1 : (a - 4 == a) ≡ false = ground arith in
    let f2 : (a - 4 == a + 4) ≡ false = ground arith in
    let f3 : (a - 4 == a + n - 8) ≡ false = ground arith in
    let z : n - n % 8 ≡ n = omega arith in
    let next : next_blkp (record h { mem = free_words h.mem a n }) a ≡ a + n =
      rw (f1, f2, f3, ==_refl (a - 4), z) refl in
    ap (λ (g : Heap). put (hdrp (next_blkp g a)) (pack 0 true) g) (free_block-eq a n h mult)
    ∙ ap (λ k. put (hdrp k) (pack 0 true) (record h { mem = free_words h.mem a n })) next

abbrev allocated_of : Option (ℕ × Heap) → Allocated
allocated_of o = elim o [ none ↦ no_fuel | some (bp', h') ↦ block bp' h' ]

-- `extend_heap` after `mem_sbrk`.
abbrev grown_from : ℕ → ℕ → Heap → Option (ℕ × Heap) → Allocated
grown_from fuel n h o = elim o [
  | none ↦ null h
  | some (bp, grown) ↦
      let freed : Heap = free_block bp n grown in
      let epilogue : Heap = put (hdrp (next_blkp freed bp)) (pack 0 true) freed in
      allocated_of (coalesce fuel bp epilogue)
]

extend_heap-eq :
    (fuel dwords : ℕ) (h : Heap)
    → extend_heap fuel dwords h
      ≡ grown_from fuel (extend_size dwords) h (mem_sbrk (extend_size dwords) h)
unfolding extend_heap
extend_heap-eq fuel dwords h = refl

pub mem_sbrk-fits :
    (n : ℕ) (h : Heap)
    → n < 2 ^ 31
    → h.mem_brk + n ≤ h.mem_max_addr
    → h.mem_max_addr < 2 ^ 32
    → mem_sbrk n h ≡ some (h.mem_brk, record h { mem_brk = h.mem_brk + n })
unfolding mem_sbrk
mem_sbrk-fits n h lt le bounded =
    let whole : (h.mem_brk + n) % 2 ^ 32 ≡ h.mem_brk + n = omega arith in
    let a : ltb (2 ^ 31 - 1) n ≡ false = ground arith in
    let b : ltb h.mem_max_addr (h.mem_brk + n) ≡ false = ground arith in rw (whole, a, b) refl

mem_sbrk-full :
    (n : ℕ) (h : Heap)
    → h.mem_max_addr < h.mem_brk + n
    → h.mem_brk + n < 2 ^ 32
    → mem_sbrk n h ≡ none
unfolding mem_sbrk
mem_sbrk-full n h lt no_wrap =
    let whole : (h.mem_brk + n) % 2 ^ 32 ≡ h.mem_brk + n = omega arith in
    let b : ltb h.mem_max_addr (h.mem_brk + n) ≡ true = ground arith in
    rw (whole, b, or-true_right (ltb (2 ^ 31 - 1) n)) refl
  where
    or-true_right : (c : Bool) → (c || true) ≡ true
    or-true_right true = refl
    or-true_right false = refl

pub extend_heap-null :
    (fuel dwords : ℕ) (h : Heap)
    → h.mem_max_addr < h.mem_brk + extend_size dwords
    → h.mem_brk + extend_size dwords < 2 ^ 32
    → extend_heap fuel dwords h ≡ null h
extend_heap-null fuel dwords h lt no_wrap =
    extend_heap-eq fuel dwords h
    ∙ ap (grown_from fuel (extend_size dwords) h) (mem_sbrk-full (extend_size dwords) h lt no_wrap)

-- The heap of a layout grows by a block, which is merged and listed.
pub record Extended (fuel dwords : ℕ) (h : Heap) (bs : List Block) : Type 0 where
  pub front : List Block
  pub size : ℕ
  pub back : List Block
  pub memory : ℕ → ℕ
  pub lists : ℕ → List ℕ
  pub result :
      extend_heap fuel dwords h
      ≡ block
          (h.block_list_start + 56 + total front)
          (record h { mem = memory; mem_brk = h.mem_brk + extend_size dwords })
  pub layout :
      IsLayout
        (record h { mem = memory; mem_brk = h.mem_brk + extend_size dwords })
        (front ++ blk size listed ∷ back)
        lists
  pub settled : IsSettled (front ++ blk size listed ∷ back)
  pub room : extend_size dwords ≤ size
  pub same_allocs :
      allocs (h.block_list_start + 56) (front ++ blk size listed ∷ back)
      ≡ allocs (h.block_list_start + 56) bs
  pub keeps : KeepsPayload h.mem memory (h.block_list_start + 56) bs
  pub longer : length (front ++ blk size listed ∷ back) ≤ length bs + 1

tag_at : (m : ℕ → ℕ) (a n : ℕ) → 8 ≤ a → 16 ≤ n → n % 8 ≡ 0 → (extended_words m a n (a - 4) ≡ n)
tag_at m a n le least mult = ground arith

foot_at :
    (m : ℕ → ℕ) (a n : ℕ) → 8 ≤ a → 16 ≤ n → n % 8 ≡ 0 → (extended_words m a n (a + n - 8) ≡ n)
foot_at m a n le least mult = ground arith

module _ (fuel dwords : ℕ) (h : Heap) (bs : List Block) (lists : ℕ → List ℕ)
    (l : IsLayout h bs lists) (st : IsSettled bs) (f : length bs + 1 < fuel)
    (mult : extend_size dwords % 8 ≡ 0) (least : 16 ≤ extend_size dwords)
    (lt : extend_size dwords < 2 ^ 31) (le : h.mem_brk + extend_size dwords ≤ h.mem_max_addr) where
  abbrev n : ℕ
  n = extend_size dwords

  abbrev a : ℕ
  a = h.block_list_start + 56 + total bs

  abbrev h1 : Heap
  h1 = record h { mem = extended_words h.mem a n; mem_brk = h.mem_brk + n }

  same_below : (q : ℕ) → q + 4 < a → h1.mem q ≡ h.mem q
  same_below q lo =
      let far : (q == a + n - 4) ≡ false = ground arith in
      rw far (free_words-same h.mem a n q (omega arith) least (inl lo))

  new_tags : Tagged h1.mem a (blk n loose ∷ [])
  new_tags =
      let e : extended_words h.mem a n (a - 4) ≡ n = tag_at h.mem a n (omega arith) least mult in
      let e' : extended_words h.mem a n (a + n - 8) ≡ n =
        foot_at h.mem a n (omega arith) least mult in
      (e, e', least, mult, tt)

  new_epilogue : h1.mem (h.block_list_start + 52 + total bs + n) ≡ 1
  new_epilogue =
      let e : h.block_list_start + 52 + total bs + n ≡ a + n - 4 = omega arith in
      rw (e, ==_refl (a + n - 4)) refl

  grown : Contents h1.mem h.block_list_start (bs ++ blk n loose ∷ []) lists
  grown =
      grown-Contents h.mem h1.mem h.block_list_start n bs lists l.aligned l.positive l.contents
        same_below new_tags new_epilogue

  fits : h.block_list_start + 56 + total (bs ++ blk n loose ∷ []) ≡ h.mem_brk + n
  fits = omega (arith, l.at_brk, total-append bs (blk n loose ∷ []))

  merged : Coalesced fuel h1 bs n []
  merged =
      coalesce-Coalesced fuel h1 bs n [] lists l.aligned l.positive
        (omega (arith, fits, le, l.bounded)) (omega (arith, length-append bs (blk n loose ∷ []), f))
        grown st tt

  extend_heap-result :
      extend_heap fuel dwords h
      ≡ block
          (h.block_list_start + 56 + total merged.front)
          (record h { mem = merged.memory; mem_brk = h.mem_brk + n })
  extend_heap-result =
      let hb : Heap = record h { mem_brk = h.mem_brk + n } in
      extend_heap-eq fuel dwords h
      ∙ ap (grown_from fuel n h) (mem_sbrk-fits n h lt le l.bounded)
      ∙ ap (λ (g : Heap). allocated_of (coalesce fuel (h.mem_brk) g))
          (epilogue-eq h.mem_brk n hb (omega (arith, l.at_brk)) least mult)
      ∙ ap (λ k. allocated_of (coalesce fuel k (record hb { mem = extended_words h.mem k n })))
          (sym l.at_brk)
      ∙ ap allocated_of merged.result

  pub extend_heap-Extended : Extended fuel dwords h bs
  extend_heap-Extended = record {
    front = merged.front;
    size = merged.size;
    back = merged.back;
    memory = merged.memory;
    lists = merged.lists;
    result = extend_heap-result;
    layout = record {
      aligned = l.aligned;
      positive = l.positive;
      at_list = l.at_list;
      at_brk = omega (arith, merged.extent, fits);
      in_bounds = le;
      bounded = l.bounded;
      contents = merged.contents;
    };
    settled = merged.settled;
    room = merged.room;
    same_allocs =
        merged.same_allocs
        ∙ allocs-append (h.block_list_start + 56) bs (blk n loose ∷ [])
        ∙ append-nil _;
    keeps = λ q k.
        merged.keeps q
          (is_payload-append q (h.block_list_start + 56) bs (blk n loose ∷ []) ∙ or-left _ _ k)
        ∙ grown-KeepsPayload h.mem h1.mem h.block_list_start n bs lists l.aligned l.positive
            l.contents same_below new_tags new_epilogue q k;
    longer = omega (arith, merged.shorter, length-append bs (blk n loose ∷ []));
  }
