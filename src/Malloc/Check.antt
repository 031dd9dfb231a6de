-- ===== src/Malloc/Check.antt =====
-- The heap checker of malloclab/mm.c, `mm_check` under MMCHECK. A walk over the heap takes fuel, and
-- `none` means that it ran out. What is printed is a list of messages.
pub mod Escaped
pub mod Passes
pub mod Messages
use system_programming_lab.Base.{
  ℕ, zero, suc, ◌+◌, ◌*◌, Bool, true, false, not, ◌&&◌, Option, none, some, List, [], ◌∷◌, ◌++◌,
  ltb, ◌==◌, if◌then◌else◌,
}
use system_programming_lab.Malloc.Memory.{
  Heap, wsize, get, get_size, get_alloc, hdrp, next_blkp, mem_heap_lo, mem_heap_hi,
}

pub data Message : Type 0 where
  not_marked : ℕ → Message
  not_coalesced : ℕ → ℕ → Message
  all_marked_free : Message
  none_escaped : Message
  every_block_listed : Message
  list_pointers_valid : Message
  heap_pointers_valid : Message

-- The loop of `CheckedFreeMarkedInFreeList` from the root `i` on, for `k` roots.
unfoldable pub marked_loop : (k i : ℕ) → Heap → (res : Bool) → List Message × Bool
marked_loop zero i h res = ([], res)
marked_loop (suc k) i h res =
    let head : ℕ = get h (mem_heap_lo h + i * wsize) in
    let skipped : List Message × Bool = marked_loop k (suc i) h res in
    let failed : List Message × Bool = marked_loop k (suc i) h false in
    if head == 0
    then skipped
    else if not (get_alloc h head)
    then skipped
    else (not_marked (i + 1) ∷ failed.0, failed.1)

abbrev pub checked_free_marked_in_free_list : Heap → List Message × Bool
checked_free_marked_in_free_list h = marked_loop 10 0 h true

-- The pointer to the next block, or NULL behind the last byte.
abbrev pub next_or_null : Heap → ℕ → ℕ
next_or_null h p = if ltb (mem_heap_hi h) (next_blkp h p) then 0 else next_blkp h p

-- The block at `p` is free, and the last free block ends where it begins.
abbrev pub is_escaped : Heap → (p last_p : ℕ) → Bool
is_escaped h p last_p = not (get_alloc h (hdrp p)) && not (last_p == 0) && (next_blkp h last_p == p)

-- The loop of `checkEscapedCoalesce`.
unfoldable pub escaped_loop :
    ℕ → Heap → (p last_p : ℕ) → (res : Bool) → Option (List Message × Bool)
escaped_loop zero h p last_p res = none
escaped_loop (suc k) h p last_p res =
    let last_p' : ℕ = if get_alloc h (hdrp p) then last_p else p in
    let res' : Bool = if is_escaped h p last_p then false else res in
    let printed : List Message =
      if is_escaped h p last_p then not_coalesced last_p p ∷ [] else [] in
    let rest : Option (List Message × Bool) = escaped_loop k h (next_or_null h p) last_p' res' in
    if p == 0
    then some ([], res)
    else elim rest [ none ↦ none | some (out, r) ↦ some (printed ++ out, r) ]

unfoldable pub check_escaped_coalesce : ℕ → Heap → Option (List Message × Bool)
unfolding escaped_loop
check_escaped_coalesce fuel h = escaped_loop fuel h (h.heap_listp + 8) 0 true

-- The inner loop of `isEveryFreeBlockInFreeList`.
unfoldable pub exist_loop : (k i p : ℕ) → (is_exist : Bool) → Bool
exist_loop zero i p is_exist = is_exist
exist_loop (suc k) i p is_exist =
    exist_loop k (suc i) p (if p + i * wsize == p then true else is_exist)

unfoldable pub listed_loop : ℕ → Heap → (p : ℕ) → (res : Bool) → Option Bool
unfolding exist_loop
listed_loop zero h p res = none
listed_loop (suc k) h p res =
    let res' : Bool =
      if get_alloc h (hdrp p) then res else if exist_loop 10 0 p false then res else false in
    let rest : Option Bool = listed_loop k h (next_or_null h p) res' in
    if p == 0 then some res else rest

abbrev pub is_every_free_block_in_free_list : ℕ → Heap → Option Bool
is_every_free_block_in_free_list fuel h = listed_loop fuel h (h.heap_listp + 8) true

-- The loops of `checkPointerInFreeListValid` and `checkPointerInHeapBlockValid`.
unfoldable pub sizes_loop : (k i : ℕ) → Heap → (res : Bool) → Bool
sizes_loop zero i h res = res
sizes_loop (suc k) i h res =
    let head : ℕ = get h (mem_heap_lo h + i * wsize) in
    sizes_loop k (suc i) h
      (if head == 0 then res else if ltb 0 (get_size h (hdrp head)) then res else false)

abbrev pub check_pointer_in_free_list_valid : Heap → Bool
check_pointer_in_free_list_valid h = sizes_loop 10 0 h true

unfoldable pub within_loop : (k i : ℕ) → Heap → (res : Bool) → Bool
within_loop zero i h res = res
within_loop (suc k) i h res =
    let head : ℕ = get h (mem_heap_lo h + i * wsize) in
    within_loop k (suc i) h (
      if head == 0
      then res
      else if ltb (mem_heap_lo h) head && ltb head (mem_heap_hi h)
      then res
      else false)

abbrev pub check_pointer_in_heap_block_valid : Heap → Bool
check_pointer_in_heap_block_valid h = within_loop 10 0 h true

abbrev pub passed : Bool → Message → List Message
passed c message = if c then message ∷ [] else []

-- All that is printed; nothing is returned.
unfoldable pub mm_check : ℕ → Heap → Option (List Message)
unfolding marked_loop check_escaped_coalesce listed_loop sizes_loop within_loop
mm_check fuel h = elim (check_escaped_coalesce fuel h) [
  | none ↦ none
  | some (escaped, c2) ↦ elim (is_every_free_block_in_free_list fuel h) [
    | none ↦ none
    | some c3 ↦
        let (marked, c1) = checked_free_marked_in_free_list h in
        some (
          marked
          ++ (escaped
              ++ (passed c1 all_marked_free
                  ++ (passed c2 none_escaped
                      ++ (passed c3 every_block_listed
                          ++ (passed (check_pointer_in_free_list_valid h) list_pointers_valid
                              ++ passed (check_pointer_in_heap_block_valid h)
                                  heap_pointers_valid))))))
  ]
]
