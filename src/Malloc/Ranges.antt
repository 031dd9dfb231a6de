-- ===== src/Malloc/Ranges.antt =====
-- The range lists of malloclab/mdriver.c, which detect overlapping payloads, and the copy of
-- `remove_range` in malloclab/mm.c.
pub mod Overlap
use system_programming_lab.Base.{
  ℕ, ◌+◌, ◌-◌, ◌%◌, ◌≤◌, ◌<◌, ◌≡◌, ◌⊎◌, refl, ap, inl, inr, Bool, true, false, ◌&&◌, ◌||◌, not,
  List, [], ◌∷◌, ltb, leb, ◌==◌, if◌then◌else◌, Bool-cases, All, arith,
}
use system_programming_lab.Malloc.Memory.{Heap, mem_heap_lo, mem_heap_hi}

-- The payload from `lo` to `hi`, both within it.
pub record Range : Type 0 where
  pub lo : ℕ
  pub hi : ℕ

-- The result of `add_range`: 0 after one of its three errors, or 1 with the new list.
pub data Added : Type 0 where
  misaligned : Added
  outside : Added
  overlapping : Added
  added : List Range → Added

abbrev pub alignment : ℕ
alignment = 8

abbrev pub inside : ℕ → Range → Bool
inside a p = leb p.lo a && leb a p.hi

unfoldable pub overlaps : (lo hi : ℕ) → List Range → Bool
overlaps lo hi [] = false
overlaps lo hi (p ∷ ps) = if inside lo p || inside hi p then true else overlaps lo hi ps

-- `add_range`, whose size is positive by its assertion.
unfoldable pub add_range : Heap → List Range → (lo size : ℕ) → Added
unfolding overlaps
add_range h ranges lo size =
    let hi : ℕ = lo + size - 1 in
    if not (lo % alignment == 0)
    then misaligned
    else if ltb lo (mem_heap_lo h)
        || ltb (mem_heap_hi h) lo
        || ltb hi (mem_heap_lo h)
        || ltb (mem_heap_hi h) hi
    then outside
    else if overlaps lo hi ranges
    then overlapping
    else added (record { lo = lo; hi = hi } ∷ ranges)

unfoldable pub remove_range : List Range → ℕ → List Range
remove_range [] lo = []
remove_range (p ∷ ps) lo = if p.lo == lo then ps else p ∷ remove_range ps lo

unfoldable pub clear_ranges : List Range → List Range
clear_ranges ranges = []

-- The two payloads have no byte in common.
abbrev pub IsDisjoint : (lo hi : ℕ) → Range → Type 0
IsDisjoint lo hi p = (hi < p.lo) ⊎ (p.hi < lo)

-- The payload stands strictly between the two ends.
abbrev pub IsWithin : (lo hi : ℕ) → Range → Type 0
IsWithin lo hi p = (lo < p.lo) × (p.hi < hi)
