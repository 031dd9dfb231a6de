-- ===== src/Malloc/Fit/Lists.antt =====
-- `find_fit` of malloclab/mm.c in one list that is sorted by size, with the blocks of one category.
use system_programming_lab.Base.{
  ℕ, zero, suc, ◌+◌, ◌*◌, ◌≤◌, ◌<◌, ◌≡◌, sym, ap, ◌∙◌, true, false, inl, inr, ◌⊎◌, List, [], ◌∷◌,
  leb, ◌==◌, All, All-mono, leb→le, Bool-cases, length, get_elem?, some, arith,
}
use system_programming_lab.Malloc.Memory.{Heap, wsize}
use system_programming_lab.Malloc.FreeList.{free_category}
use system_programming_lab.Malloc.FreeList.Chain.{Chain}
use system_programming_lab.Malloc.FreeList.Sorted.{size_of, IsSortedBy}
use system_programming_lab.Malloc.Fit.{Found, found, missing, out_of_fuel, scan_list, categories}

-- The lists of the ten roots.
pub record FreeLists (h : Heap) (lists : ℕ → List ℕ) : Type 0 where
  pub at_root : h.heap_listp ≡ h.block_list_start + 48
  pub chains :
      (i : ℕ) → i < categories → Chain h.mem 0 (h.mem (h.block_list_start + i * wsize)) (lists i)
  pub positive : (i : ℕ) → i < categories → All (λ x. 0 < x) (lists i)
  pub sorted : (i : ℕ) → i < categories → IsSortedBy (size_of h) (lists i)
  pub kinds : (i : ℕ) → i < categories → All (λ x. free_category (size_of h x) ≡ i) (lists i)

-- A block of a later category is the larger one.
pub free_category-lt : (a b : ℕ) → free_category a < free_category b → a < b
unfolding free_category
free_category-lt a b h = ground arith

pub free_category-bound : (a : ℕ) → free_category a < categories
unfolding free_category
free_category-bound a = ground arith

-- The block is the best fit among the list's blocks, and of category `i`; or none of them fits.
unfoldable pub IsBestIn : (ℕ → ℕ) → (size i : ℕ) → List ℕ → Found → Type 0
IsBestIn sz size i xs (found q) =
    (size ≤ sz q)
    × (free_category (sz q) ≡ i)
    × All (λ x. (sz x < size) ⊎ (sz q ≤ sz x)) xs
    × (n : ℕ) × (get_elem? xs n ≡ some q)
IsBestIn sz size i xs missing = All (λ x. sz x < size) xs
IsBestIn sz size i xs out_of_fuel = ⊥

IsBestIn-cons :
    (sz : ℕ → ℕ) (size i x : ℕ) (xs : List ℕ) (r : Found)
    → sz x < size
    → IsBestIn sz size i xs r
    → IsBestIn sz size i (x ∷ xs) r
unfolding IsBestIn
IsBestIn-cons sz size i x xs (found q) lt b = (b.0, b.1, (inl lt, b.2), suc b.3, b.4)
IsBestIn-cons sz size i x xs missing lt b = (lt, b)
IsBestIn-cons sz size i x xs out_of_fuel lt b = b

pub scan_list-IsBestIn :
    (k : ℕ) (h : Heap) (size i prev p : ℕ) (xs : List ℕ)
    → Chain h.mem prev p xs
    → All (λ x. 0 < x) xs
    → IsSortedBy (size_of h) xs
    → All (λ x. free_category (size_of h x) ≡ i) xs
    → length xs < k
    → IsBestIn (size_of h) size i xs (scan_list k h size p)
unfolding scan_list IsBestIn
scan_list-IsBestIn zero h size i prev p xs c pos s kind f = absurd (omega arith)
scan_list-IsBestIn (suc k) h size i prev p [] c pos s kind f =
    let z : (p == 0) ≡ true = ground arith in rw z tt
scan_list-IsBestIn (suc k) h size i prev p (x ∷ xs) c pos s kind f =
    let nz : (p == 0) ≡ false = ground arith in
    let c' : Chain h.mem x (h.mem (p + 4)) xs = rw (c.0) c.2 in
    let ih = scan_list-IsBestIn k h size i x (h.mem (p + 4)) xs c' pos.1 s.1 kind.1 (omega arith) in
    elim (Bool-cases (leb size (size_of h x))) [
      | inl fit ↦
          let fit' : leb size (size_of h p) ≡ true = rw c.0 fit in
          let e : size_of h p ≡ size_of h x = ap (size_of h) c.0 in
          let all : All (λ y. (size_of h y < size) ⊎ (size_of h p ≤ size_of h y)) xs =
            All-mono {P = λ y. size_of h x ≤ size_of h y} xs (λ y le. inr (omega (arith, e, le)))
              s.0 in
          rw (nz, fit')
            (
              leb→le size (size_of h p) fit',
              ap free_category e ∙ kind.0,
              (inr (omega (arith, e)), all),
              zero,
              ap some (sym c.0),
            )
      | inr no_fit ↦
          let no_fit' : leb size (size_of h p) ≡ false = rw c.0 no_fit in
          rw (nz, no_fit') (IsBestIn-cons (size_of h) size i x xs _ (ground arith) ih)
    ]
