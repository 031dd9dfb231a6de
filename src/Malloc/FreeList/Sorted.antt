-- ===== src/Malloc/FreeList/Sorted.antt =====
-- Free lists sorted by size, as `insert_free_block` of malloclab/mm.c keeps them.
use system_programming_lab.Base.{
  ℕ, ◌≤◌, ◌≡◌, refl, ap, inl, inr, List, [], ◌∷◌, ◌++◌, leb, if◌then◌else◌, All, All-mono, leb→le,
  Bool-cases, arith,
}
use system_programming_lab.Malloc.Memory.{Heap, get_size, hdrp}
use system_programming_lab.Malloc.FreeList.Chain.{All-join}

-- The size that a block's header gives.
abbrev pub size_of : Heap → ℕ → ℕ
size_of h x = get_size h (hdrp x)

-- The blocks before the first that is not smaller, and that one with those behind it.
unfoldable pub smaller : (ℕ → ℕ) → ℕ → List ℕ → List ℕ
smaller sz size [] = []
smaller sz size (x ∷ xs) = if leb size (sz x) then [] else x ∷ smaller sz size xs

unfoldable pub not_smaller : (ℕ → ℕ) → ℕ → List ℕ → List ℕ
not_smaller sz size [] = []
not_smaller sz size (x ∷ xs) = if leb size (sz x) then x ∷ xs else not_smaller sz size xs

-- The list with the block put before the first that is not smaller.
abbrev pub insert_by : (ℕ → ℕ) → ℕ → List ℕ → List ℕ
insert_by sz p xs = smaller sz (sz p) xs ++ p ∷ not_smaller sz (sz p) xs

-- Sizes do not fall along the list.
abbrev pub IsSortedBy : (ℕ → ℕ) → List ℕ → Type 0
IsSortedBy sz [] = Unit
IsSortedBy sz (x ∷ xs) = All (λ y. sz x ≤ sz y) xs × IsSortedBy sz xs

pub smaller-append :
    (sz : ℕ → ℕ) (size : ℕ) (xs : List ℕ) → smaller sz size xs ++ not_smaller sz size xs ≡ xs
unfolding smaller not_smaller
smaller-append sz size [] = refl
smaller-append sz size (x ∷ xs) = elim (Bool-cases (leb size (sz x))) [
  | inl h ↦ rw h
  | inr h ↦ rw h (ap (◌∷◌ x) (smaller-append sz size xs))
]

module _ (sz : ℕ → ℕ) where
  All-smaller : (P : ℕ → Type 0) (size : ℕ) (xs : List ℕ) → All P xs → All P (smaller sz size xs)
  unfolding smaller
  All-smaller P size [] h = tt
  All-smaller P size (x ∷ xs) h = elim (Bool-cases (leb size (sz x))) [
    | inl fit ↦ rw fit tt
    | inr no_fit ↦ rw no_fit (h.0, All-smaller P size xs h.1)
  ]

  All-not_smaller :
      (P : ℕ → Type 0) (size : ℕ) (xs : List ℕ) → All P xs → All P (not_smaller sz size xs)
  unfolding not_smaller
  All-not_smaller P size [] h = tt
  All-not_smaller P size (x ∷ xs) h = elim (Bool-cases (leb size (sz x))) [
    | inl fit ↦ rw fit h
    | inr no_fit ↦ rw no_fit (All-not_smaller P size xs h.1)
  ]

  -- Inserting a block into a list sorted by size leaves it sorted by size.
  pub insert_by-IsSortedBy :
      (p : ℕ) (xs : List ℕ) → IsSortedBy sz xs → IsSortedBy sz (insert_by sz p xs)
  unfolding smaller not_smaller
  insert_by-IsSortedBy p [] s = (tt, tt)
  insert_by-IsSortedBy p (x ∷ xs) s = elim (Bool-cases (leb (sz p) (sz x))) [
    | inl fit ↦
        let le : sz p ≤ sz x = leb→le (sz p) (sz x) fit in
        rw fit (
          (
            le,
            All-mono {P = λ y. sz x ≤ sz y} {Q = λ y. sz p ≤ sz y} xs (λ y r. omega (arith, le, r))
                s.0,
          ),
          s,
        )
    | inr no_fit ↦
        let le : sz x ≤ sz p = ground arith in
        let P : ℕ → Type 0 = λ y. sz x ≤ sz y in
        rw no_fit (
          All-join P (smaller sz (sz p) xs) (p ∷ not_smaller sz (sz p) xs)
              (All-smaller P (sz p) xs s.0) (le, All-not_smaller P (sz p) xs s.0),
          insert_by-IsSortedBy p xs s.1,
        )
  ]
