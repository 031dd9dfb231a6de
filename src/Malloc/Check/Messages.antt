-- ===== src/Malloc/Check/Messages.antt =====
-- What `mm_check` of malloclab/mm.c prints on the heaps that the allocator makes.
use system_programming_lab.Base.{
  ℕ, ◌+◌, ◌<◌, ◌≡◌, ◌∙◌, refl, ap, inl, inr, Bool, true, false, Option, none, some, List, [], ◌∷◌,
  ◌++◌, length, arith,
}
use system_programming_lab.Malloc.Memory.{Heap}
use system_programming_lab.Malloc.Check.{
  Message, all_marked_free, none_escaped, every_block_listed, list_pointers_valid,
  heap_pointers_valid, passed, check_escaped_coalesce, listed_loop,
  is_every_free_block_in_free_list, checked_free_marked_in_free_list,
  check_pointer_in_free_list_valid, check_pointer_in_heap_block_valid, mm_check,
}
use system_programming_lab.Malloc.Check.Escaped.{separate, check_escaped_coalesce-separate}
use system_programming_lab.Malloc.Check.Passes.{
  listed_loop-walk, marked_loop-passes, sizes_loop-passes, within_loop-passes,
}
use system_programming_lab.Malloc.Layout.{Block, IsLayout}
use system_programming_lab.Malloc.Layout.Neighbours.{starts_used}
use system_programming_lab.Malloc.Layout.Blocks.{listed-ne_used}
use system_programming_lab.Malloc.Layout.Settled.{IsSettled}
use system_programming_lab.Malloc.Refine.{Represents}

separate-free : (bs : List Block) → starts_used bs ≡ true → separate true bs ≡ separate false bs
separate-free [] u = refl
separate-free (b ∷ bs) u = rw u refl

separate-IsSettled : (bs : List Block) → IsSettled bs → separate false bs ≡ true
separate-IsSettled [] s = refl
separate-IsSettled (b ∷ bs) s = elim s.0 [
  | inl u ↦ rw u (separate-IsSettled bs s.1)
  | inr l ↦ rw (listed-ne_used b.status l.0) (separate-free bs l.1 ∙ separate-IsSettled bs s.1)
]

-- `mm_check` from the results of its tests.
abbrev printed :
    Option (List Message × Bool)
    → Option Bool
    → List Message × Bool
    → Bool
    → Bool
    → Option (List Message)
printed o2 o3 r1 c4 c5 = elim o2 [
  | none ↦ none
  | some (escaped, c2) ↦ elim o3 [
    | none ↦ none
    | some c3 ↦
        let (marked, c1) = r1 in
        some (
          marked
          ++ (escaped
              ++ (passed c1 all_marked_free
                  ++ (passed c2 none_escaped
                      ++ (passed c3 every_block_listed
                          ++ (passed c4 list_pointers_valid ++ passed c5 heap_pointers_valid))))))
  ]
]

mm_check-printed :
    (fuel : ℕ) (h : Heap)
    → mm_check fuel h
      ≡ printed
          (check_escaped_coalesce fuel h)
          (is_every_free_block_in_free_list fuel h)
          (checked_free_marked_in_free_list h)
          (check_pointer_in_free_list_valid h)
          (check_pointer_in_heap_block_valid h)
unfolding mm_check
mm_check-printed fuel h = refl

abbrev all_passed : List Message
all_passed =
    all_marked_free ∷ none_escaped ∷ every_block_listed ∷ list_pointers_valid ∷ heap_pointers_valid
    ∷ []

passes :
    (fuel : ℕ) (h : Heap) (bs : List Block) (lists : ℕ → List ℕ)
    → IsLayout h bs lists
    → IsSettled bs
    → length bs < fuel
    → h.mem_start_brk ≡ h.block_list_start
    → h.block_list_start + 56 < h.mem_brk
    → (out : List Message) × (mm_check fuel h ≡ some (out ++ all_passed))
passes fuel h [] lists l st f lo some_block = absurd (omega (arith, l.at_brk))
passes fuel h (b ∷ bs) lists l st f lo some_block =
    let start : h.heap_listp + 8 ≡ h.block_list_start + 56 = omega (arith, l.at_list) in
    let (out, escaped) = check_escaped_coalesce-separate fuel h b bs lists l f in
    let apart : check_escaped_coalesce fuel h ≡ some (out, true) =
      escaped ∙ ap (λ r. some (out, r)) (separate-IsSettled (b ∷ bs) st) in
    let all_listed : is_every_free_block_in_free_list fuel h ≡ some true =
      ap (λ p. listed_loop fuel h p true) start
      ∙ listed_loop-walk fuel h (h.block_list_start + 56) true b bs l.contents.tagged l.at_brk
          (omega arith) f in
    (
      out,
      mm_check-printed fuel h
          ∙ ap
              (λ o.
                printed o (is_every_free_block_in_free_list fuel h)
                  (checked_free_marked_in_free_list h) (check_pointer_in_free_list_valid h)
                  (check_pointer_in_heap_block_valid h))
              apart
          ∙ ap
              (λ o.
                printed (some (out, true)) o (checked_free_marked_in_free_list h)
                  (check_pointer_in_free_list_valid h) (check_pointer_in_heap_block_valid h))
              all_listed
          ∙ ap
              (λ r.
                printed (some (out, true)) (some true) r (check_pointer_in_free_list_valid h)
                  (check_pointer_in_heap_block_valid h))
              (marked_loop-passes h (b ∷ bs) lists l lo 10 0 true (omega arith))
          ∙ ap
              (λ c.
                printed (some (out, true)) (some true) ([], true) c
                  (check_pointer_in_heap_block_valid h))
              (sizes_loop-passes h (b ∷ bs) lists l lo 10 0 true (omega arith))
          ∙ ap (λ c. printed (some (out, true)) (some true) ([], true) true c)
              (within_loop-passes h (b ∷ bs) lists l lo 10 0 true (omega arith)),
    )

-- On a heap that represents allocated blocks, has a block and starts where the memory does, the heap
-- checker ends, with fuel for the number of blocks, and the last that it prints is that all five
-- tests are passed.
pub mm_check-passes :
    (fuel count : ℕ) (h : Heap) (live : List (ℕ × ℕ))
    → Represents h live count
    → count < fuel
    → h.mem_start_brk ≡ h.block_list_start
    → h.block_list_start + 56 < h.mem_brk
    → (out : List Message) × (mm_check fuel h
        ≡ some (
            out
            ++ all_marked_free ∷ none_escaped ∷ every_block_listed ∷ list_pointers_valid
              ∷ heap_pointers_valid ∷ []))
mm_check-passes fuel count h live r f lo some_block =
    passes fuel h r.blocks r.lists r.layout r.settled (omega (arith, r.counted, f)) lo some_block
