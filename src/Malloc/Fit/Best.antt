-- ===== src/Malloc/Fit/Best.antt =====
-- `find_fit` on free lists that are sorted by size, each with the blocks of its category.
use system_programming_lab.Base.{
  ℕ, zero, suc, ◌+◌, ◌-◌, ◌*◌, ◌≤◌, ◌<◌, ◌≡◌, sym, refl, true, false, inl, inr, ◌⊎◌, List, ◌==◌,
  All, All-mono, All-get, ltb, ltb→lt, Bool-cases, length, get_elem?, some, arith,
}
use system_programming_lab.Malloc.Memory.{Heap, wsize, get}
use system_programming_lab.Malloc.FreeList.{free_category, get_free_category_root}
use system_programming_lab.Malloc.FreeList.Chain.{Chain}
use system_programming_lab.Malloc.FreeList.Sorted.{size_of}
use system_programming_lab.Malloc.Fit.{
  Found, found, missing, out_of_fuel, scan_list, scan_roots, categories, find_fit,
}
use system_programming_lab.Malloc.Fit.Lists.{
  FreeLists, free_category-lt, free_category-bound, IsBestIn, scan_list-IsBestIn,
}

module _ (h : Heap) (lists : ℕ → List ℕ) (size : ℕ) where
  -- The same of the lists from the category `i` on.
  abbrev pub IsBestFrom : ℕ → Found → Type 0
  IsBestFrom i (found q) =
      (size ≤ size_of h q)
      × ((j : ℕ)
          → i ≤ j
          → j < categories
          → All (λ x. (size_of h x < size) ⊎ (size_of h q ≤ size_of h x)) (lists j))
      × (j : ℕ) × (n : ℕ) × (j < categories)
      × (get_elem? (lists j) n ≡ some q)
  IsBestFrom i missing = (j : ℕ) → i ≤ j → j < categories → All (λ x. size_of h x < size) (lists j)
  IsBestFrom i out_of_fuel = ⊥

  here-or-later :
      (i : ℕ) (P : ℕ → Type 0)
      → All P (lists i)
      → ((j : ℕ) → suc i ≤ j → j < categories → All P (lists j))
      → (j : ℕ) → i ≤ j
      → j < categories
      → All P (lists j)
  here-or-later i P here later j le lt = elim (Bool-cases (i == j)) [
    | inl e ↦ let e' : i ≡ j = ground arith in rw (sym e') here
    | inr ne ↦ later j (ground arith) lt
  ]

  IsBestFrom-earlier :
      (i : ℕ) (r : Found)
      → All (λ x. size_of h x < size) (lists i)
      → IsBestFrom (suc i) r
      → IsBestFrom i r
  IsBestFrom-earlier i (found q) here b =
      let P : ℕ → Type 0 = λ x. (size_of h x < size) ⊎ (size_of h q ≤ size_of h x) in
      (
        b.0,
        here-or-later i P (All-mono {Q = P} (lists i) (λ x lt. inl lt) here) b.1,
        b.2,
        b.3,
        b.4,
        b.5,
      )
  IsBestFrom-earlier i missing here b = here-or-later i (λ x. size_of h x < size) here b
  IsBestFrom-earlier i out_of_fuel here b = b

  -- A fit of the category `i` is best of all, the blocks of later categories being larger.
  IsBestIn-from :
      (i q : ℕ)
      → FreeLists h lists
      → i < categories
      → IsBestIn (size_of h) size i (lists i) (found q)
      → IsBestFrom i (found q)
  unfolding IsBestIn
  IsBestIn-from i q fl lt_i b =
      let P : ℕ → Type 0 = λ x. (size_of h x < size) ⊎ (size_of h q ≤ size_of h x) in
      (
        b.0,
        here-or-later i P b.2 (λ j le lt.
            All-mono {Q = P} (lists j)
              (λ x kind. inr (
                let l : size_of h q < size_of h x =
                  free_category-lt (size_of h q) (size_of h x) (omega (arith, b.1, kind, le)) in
                omega (arith, l)))
              (fl.kinds j lt)),
        i,
        b.3,
        lt_i,
        b.4,
      )

  none_fits :
      (i : ℕ)
      → IsBestIn (size_of h) size i (lists i) missing
      → All (λ x. size_of h x < size) (lists i)
  unfolding IsBestIn
  none_fits i b = b

  no_result : (i : ℕ) → IsBestIn (size_of h) size i (lists i) out_of_fuel → ⊥
  unfolding IsBestIn
  no_result i b = b

  scan_roots-last :
      (k fuel i root : ℕ)
      → FreeLists h lists
      → i ≡ categories
      → root ≡ h.block_list_start + i * wsize
      → IsBestFrom i (scan_roots (suc k) fuel h size root)
  unfolding scan_roots
  scan_roots-last k fuel i root fl eq at =
      let z : (root == h.heap_listp - 2 * wsize) ≡ true = ground (arith, fl.at_root) in
      rw (scan_roots, z) (λ j le lt. absurd (omega arith))

  -- One root: what its list has, and what the later ones have.
  scan_roots-step :
      (k fuel i root : ℕ) (r : Found)
      → FreeLists h lists
      → i < categories
      → root ≡ h.block_list_start + i * wsize
      → scan_list fuel h size (get h root) ≡ r
      → IsBestIn (size_of h) size i (lists i) r
      → IsBestFrom (suc i) (scan_roots k fuel h size (root + wsize))
      → IsBestFrom i (scan_roots (suc k) fuel h size root)
  unfolding scan_roots
  scan_roots-step k fuel i root (found q) fl lt at e b ih =
      let nz : (root == h.heap_listp - 2 * wsize) ≡ false = ground (arith, fl.at_root) in
      rw (scan_roots, nz, e) (IsBestIn-from i q fl lt b)
  scan_roots-step k fuel i root missing fl lt at e b ih =
      let nz : (root == h.heap_listp - 2 * wsize) ≡ false = ground (arith, fl.at_root) in
      rw (scan_roots, nz, e)
        (IsBestFrom-earlier i (scan_roots k fuel h size (root + wsize)) (none_fits i b) ih)
  scan_roots-step k fuel i root out_of_fuel fl lt at e b ih = absurd (no_result i b)

  scan_roots-IsBestFrom :
      (k fuel i root : ℕ)
      → FreeLists h lists
      → ((j : ℕ) → j < categories → length (lists j) < fuel)
      → i ≤ categories
      → suc categories ≤ i + k
      → root ≡ h.block_list_start + i * wsize
      → IsBestFrom i (scan_roots k fuel h size root)
  scan_roots-IsBestFrom zero fuel i root fl f le more at = absurd (omega arith)
  scan_roots-IsBestFrom (suc k) fuel i root fl f le more at = elim (Bool-cases (i == categories)) [
    | inl e ↦ scan_roots-last k fuel i root fl (ground arith) at
    | inr ne ↦
        let lt : i < categories = ground arith in
        let c : Chain h.mem 0 (h.mem root) (lists i) = rw at (fl.chains i lt) in
        scan_roots-step k fuel i root (scan_list fuel h size (get h root)) fl lt at refl
          (scan_list-IsBestIn fuel h size i 0 (get h root) (lists i) c (fl.positive i lt)
            (fl.sorted i lt) (fl.kinds i lt) (f i lt))
          (scan_roots-IsBestFrom k fuel (suc i) (root + wsize) fl f (omega arith) (omega arith)
            (omega arith))
  ]

  pub find_fit-IsBestFrom :
      (fuel : ℕ)
      → FreeLists h lists
      → ((j : ℕ) → j < categories → length (lists j) < fuel)
      → IsBestFrom (free_category size) (find_fit fuel size h)
  unfolding find_fit
  find_fit-IsBestFrom fuel fl f =
      let lt = free_category-bound size in
      scan_roots-IsBestFrom (categories + 1) fuel (free_category size)
        (get_free_category_root h size) fl f (omega (arith, lt)) (omega (arith, lt)) refl

  -- A block that fits is of no earlier category.
  not_earlier :
      (j x : ℕ) → free_category (size_of h x) ≡ j → size ≤ size_of h x → free_category size ≤ j
  not_earlier j x kind le = elim (Bool-cases (ltb j (free_category size))) [
    | inl lt ↦
        let less : size_of h x < size =
          free_category-lt (size_of h x) size (rw kind (ltb→lt j (free_category size) lt)) in
        absurd (omega (arith, less, le))
    | inr ge ↦ ground arith
  ]

  best-result :
      (j n x : ℕ) (r : Found)
      → FreeLists h lists
      → j < categories
      → get_elem? (lists j) n ≡ some x
      → size ≤ size_of h x
      → IsBestFrom (free_category size) r
      → (p : ℕ) × (r ≡ found p) × (size ≤ size_of h p) × (size_of h p ≤ size_of h x)
  best-result j n x (found q) fl lt at le b =
      let kind =
        All-get (λ (y : ℕ). free_category (size_of h y) ≡ j) (lists j) n (fl.kinds j lt) at in
      let later = not_earlier j x kind le in
      elim (All-get (λ (y : ℕ). (size_of h y < size) ⊎ (size_of h q ≤ size_of h y)) (lists j) n
        (b.1 j later lt) at) [
          | inl small ↦ absurd (omega (arith, small, le))
          | inr least ↦ (q, refl, b.0, least)
        ]
  best-result j n x missing fl lt at le b =
      let kind =
        All-get (λ (y : ℕ). free_category (size_of h y) ≡ j) (lists j) n (fl.kinds j lt) at in
      let small =
        All-get (λ (y : ℕ). size_of h y < size) (lists j) n (b j (not_earlier j x kind le) lt) at in
      absurd (omega (arith, small, le))
  best-result j n x out_of_fuel fl lt at le b = absurd b

  none-result :
      (r : Found)
      → ((j : ℕ) → j < categories → All (λ x. size_of h x < size) (lists j))
      → IsBestFrom (free_category size) r
      → r ≡ missing
  none-result (found q) small b =
      let lt = All-get (λ (y : ℕ). size_of h y < size) (lists b.2) b.3 (small b.2 b.4) b.5 in
      absurd (omega (arith, lt, b.0))
  none-result missing small b = refl
  none-result out_of_fuel small b = absurd b

-- Where a block of the free lists fits, `find_fit` returns a block that fits and is no larger than
-- that one: the lists are those of the ten roots, sorted by size, each of the blocks of its category,
-- and the fuel exceeds their lengths.
pub find_fit-best :
    (h : Heap) (lists : ℕ → List ℕ) (size fuel j n x : ℕ)
    → FreeLists h lists
    → ((i : ℕ) → i < categories → length (lists i) < fuel)
    → j < categories
    → get_elem? (lists j) n ≡ some x
    → size ≤ size_of h x
    → (p : ℕ) × (find_fit fuel size h ≡ found p)
      × (size ≤ size_of h p)
      × (size_of h p ≤ size_of h x)
find_fit-best h lists size fuel j n x fl f lt get le =
    best-result h lists size j n x (find_fit fuel size h) fl lt get le
      (find_fit-IsBestFrom h lists size fuel fl f)

-- Where every block of the free lists is smaller than the request, `find_fit` returns NULL: the
-- lists are those of the ten roots, sorted by size, each of the blocks of its category, and the fuel
-- exceeds their lengths.
pub find_fit-missing :
    (h : Heap) (lists : ℕ → List ℕ) (size fuel : ℕ)
    → FreeLists h lists
    → ((i : ℕ) → i < categories → length (lists i) < fuel)
    → ((i : ℕ) → i < categories → All (λ x. size_of h x < size) (lists i))
    → find_fit fuel size h ≡ missing
find_fit-missing h lists size fuel fl f small =
    none-result h lists size (find_fit fuel size h) small
      (find_fit-IsBestFrom h lists size fuel fl f)
