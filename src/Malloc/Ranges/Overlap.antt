-- ===== src/Malloc/Ranges/Overlap.antt =====
-- What `add_range` and `remove_range` make of the range list.
use system_programming_lab.Base.{
  ℕ, ◌+◌, ◌-◌, ◌%◌, ◌≤◌, ◌<◌, ◌≡◌, ◌≢◌, ◌⊎◌, refl, inl, inr, Bool, true, false, ◌||◌, not, List, [],
  ◌∷◌, ltb, ◌==◌, if◌then◌else◌, Bool-cases, All, arith,
}
use system_programming_lab.Malloc.Memory.{Heap, mem_heap_lo, mem_heap_hi}
use system_programming_lab.Malloc.Ranges.{
  Range, misaligned, outside, overlapping, added, inside, overlaps, add_range, remove_range,
  IsDisjoint, IsWithin,
}

-- Ranges of at least one byte.
abbrev pub IsProper : List Range → Type 0
IsProper = All (λ p. p.lo ≤ p.hi)

apart :
    (lo hi : ℕ) (p : Range)
    → lo ≤ hi
    → p.lo ≤ p.hi
    → (inside lo p || inside hi p) ≡ false
    → IsDisjoint lo hi p ⊎ IsWithin lo hi p
apart lo hi p le pr miss = ground arith

overlaps-ne_false :
    (lo hi : ℕ) (p : Range) (ps : List Range)
    → (inside lo p || inside hi p) ≡ true
    → overlaps lo hi (p ∷ ps) ≢ false
unfolding overlaps
overlaps-ne_false lo hi p ps hit h = ground arith

rest-none :
    (lo hi : ℕ) (p : Range) (ps : List Range)
    → (inside lo p || inside hi p) ≡ false
    → overlaps lo hi (p ∷ ps) ≡ false
    → overlaps lo hi ps ≡ false
unfolding overlaps
rest-none lo hi p ps miss h = ground arith

overlaps-none :
    (lo hi : ℕ) (ps : List Range)
    → lo ≤ hi
    → IsProper ps
    → overlaps lo hi ps ≡ false
    → All (λ p. IsDisjoint lo hi p ⊎ IsWithin lo hi p) ps
unfolding overlaps
overlaps-none lo hi [] le pr h = tt
overlaps-none lo hi (p ∷ ps) le pr h = elim (Bool-cases (inside lo p || inside hi p)) [
  | inl hit ↦ absurd (overlaps-ne_false lo hi p ps hit h)
  | inr miss ↦
      (apart lo hi p le pr.0 miss, overlaps-none lo hi ps le pr.1 (rest-none lo hi p ps miss h))
]

disjoint-not_inside :
    (lo hi : ℕ) (p : Range) → lo ≤ hi → IsDisjoint lo hi p → (inside lo p || inside hi p) ≡ false
disjoint-not_inside lo hi p le d = ground arith

within-not_inside :
    (lo hi : ℕ) (p : Range) → IsWithin lo hi p → (inside lo p || inside hi p) ≡ false
within-not_inside lo hi p w = ground arith

none-overlaps :
    (lo hi : ℕ) (ps : List Range)
    → lo ≤ hi
    → All (λ p. IsDisjoint lo hi p) ps
    → overlaps lo hi ps ≡ false
unfolding overlaps
none-overlaps lo hi [] le d = refl
none-overlaps lo hi (p ∷ ps) le d =
    let miss = disjoint-not_inside lo hi p le d.0 in rw miss (none-overlaps lo hi ps le d.1)

-- The tests of `add_range` when it adds the payload.
add_range-tests :
    (a b c : Bool) (qs rs : List Range)
    → (if a then misaligned else if b then outside else if c then overlapping else added rs)
      ≡ added qs
    → (a ≡ false) × (b ≡ false) × (c ≡ false) × (qs ≡ rs)
add_range-tests a b c qs rs e = ground arith

-- An accepted payload is 8-aligned and lies in the heap, is put at the head of the list, and is, of
-- each payload in the list, either disjoint from it or strictly around it. The size is positive and
-- the list's payloads are not empty.
pub add_range_lem :
    (h : Heap) (ps qs : List Range) (lo size : ℕ)
    → 0 < size
    → IsProper ps
    → add_range h ps lo size ≡ added qs
    → (qs ≡ record { lo = lo; hi = lo + size - 1 } ∷ ps)
      × (lo % 8 ≡ 0)
      × (mem_heap_lo h ≤ lo)
      × (lo + size - 1 ≤ mem_heap_hi h)
      × All (λ p. IsDisjoint lo (lo + size - 1) p ⊎ IsWithin lo (lo + size - 1) p) ps
unfolding add_range
add_range_lem h ps qs lo size pos pr e =
    let hi : ℕ = lo + size - 1 in
    let (a, b, c, eq) =
      add_range-tests (not (lo % 8 == 0)) _ (overlaps lo hi ps) qs
        (record { lo = lo; hi = hi } ∷ ps) e in
    (eq, ground arith, ground arith, ground arith, overlaps-none lo hi ps (omega arith) pr c)

-- A payload that covers another one's, with room on both sides, is accepted, although the two
-- overlap: it is 8-aligned, in the heap, and disjoint from the list's other payloads.
pub add_range-covering :
    (h : Heap) (p : Range) (ps : List Range) (lo size : ℕ)
    → lo % 8 ≡ 0
    → 0 < size
    → mem_heap_lo h ≤ lo
    → lo + size - 1 ≤ mem_heap_hi h
    → IsWithin lo (lo + size - 1) p
    → All (λ q. IsDisjoint lo (lo + size - 1) q) ps
    → add_range h (p ∷ ps) lo size ≡ added (record { lo = lo; hi = lo + size - 1 } ∷ p ∷ ps)
unfolding add_range overlaps
add_range-covering h p ps lo size al pos l1 l2 w d =
    let hi : ℕ = lo + size - 1 in
    let a : not (lo % 8 == 0) ≡ false = ground arith in
    let b : (ltb lo (mem_heap_lo h)
          || ltb (mem_heap_hi h) lo
          || ltb hi (mem_heap_lo h)
          || ltb (mem_heap_hi h) hi)
        ≡ false =
      ground arith in
    let miss = within-not_inside lo hi p w in
    let c = none-overlaps lo hi ps (omega arith) d in rw (a, b, miss, c) refl

-- Removing a payload that was just added leaves the list as it was.
pub remove_range-add_range :
    (h : Heap) (ps qs : List Range) (lo size : ℕ)
    → add_range h ps lo size ≡ added qs
    → remove_range qs lo ≡ ps
unfolding add_range remove_range
remove_range-add_range h ps qs lo size e =
    let (a, b, c, eq) =
      add_range-tests (not (lo % 8 == 0)) _ (overlaps lo (lo + size - 1) ps) qs
        (record { lo = lo; hi = lo + size - 1 } ∷ ps) e in
    let same : (lo == lo) ≡ true = ground arith in rw (eq, same) refl
