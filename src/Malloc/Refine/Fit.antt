-- ===== src/Malloc/Refine/Fit.antt =====
-- `find_fit` of malloclab/mm.c on a heap of blocks.
use system_programming_lab.Base.{
  ℕ, zero, suc, ◌+◌, ◌≤◌, ◌<◌, ◌≡◌, ◌∙◌, sym, refl, ap, inl, inr, ◌⊎◌, true, ◌&&◌, some, List, [],
  ◌∷◌, ◌++◌, ◌==◌, length, get_elem?, arith,
}
use system_programming_lab.Malloc.Memory.{Heap}
use system_programming_lab.Malloc.FreeList.{free_category}
use system_programming_lab.Malloc.FreeList.Sorted.{size_of}
use system_programming_lab.Malloc.Fit.{Found, found, missing, out_of_fuel, find_fit}
use system_programming_lab.Malloc.Fit.Lists.{FreeLists}
use system_programming_lab.Malloc.Fit.Best.{IsBestFrom, find_fit-IsBestFrom}
use system_programming_lab.Malloc.Layout.{
  listed, Block, is_listed, total, listed_at, has, Contents, IsLayout,
}
use system_programming_lab.Malloc.Layout.Blocks.{
  and-true, or-true, or-right, listed_at-place, Tagged-right,
}
use system_programming_lab.Malloc.Layout.Lists.{blk, All-has, listed_count-le}
use system_programming_lab.Malloc.Layout.Settled.{listed-blk}

pub listed_at-split :
    (x i a : ℕ) (bs : List Block)
    → listed_at x i a bs ≡ true
    → (xs : List Block) × (c : ℕ) × (ys : List Block) × (bs ≡ xs ++ blk c listed ∷ ys)
      × (a + total xs ≡ x)
listed_at-split x i a [] h = cc
listed_at-split x i a (b ∷ bs) h =
    elim (or-true ((a == x) && is_listed b.status && (free_category b.size == i)) _ h) [
      | inl here ↦
          let (both, c) = and-true ((a == x) && is_listed b.status) _ here in
          let (e, l) = and-true (a == x) _ both in
          ([], b.size, bs, ap (λ k. k ∷ bs) (listed-blk b l), ground arith)
      | inr later ↦
          let (xs, c, ys, e, at) = listed_at-split x i (a + b.size) bs later in
          (b ∷ xs, c, ys, ap (λ k. b ∷ k) e, omega (arith, at))
    ]

get_elem?-has : (xs : List ℕ) (n q : ℕ) → get_elem? xs n ≡ some q → has q xs ≡ true
get_elem?-has [] n q e = cc
get_elem?-has (x ∷ xs) zero q e =
    let same : x ≡ q = cc in let here : (x == q) ≡ true = ground (arith, same) in rw here refl
get_elem?-has (x ∷ xs) (suc n) q e = or-right (x == q) (has q xs) (get_elem?-has xs n q e)

pub IsLayout-FreeLists :
    (h : Heap) (bs : List Block) (lists : ℕ → List ℕ) → IsLayout h bs lists → FreeLists h lists
IsLayout-FreeLists h bs lists l =
    let start : ℕ = h.block_list_start in
    let co : Contents h.mem start bs lists = l.contents in
    record {
      at_root = l.at_list;
      chains = co.chains;
      positive = λ i lt. All-has {P = λ x. 0 < x} (lists i) λ x k.
          let (lo, hi, al, kind) =
            listed_at-place h.mem x i (start + 56) bs co.tagged (omega (arith, l.aligned))
              (sym (co.members i lt x) ∙ k) in
          omega (arith, lo);
      sorted = co.sorted;
      kinds = λ i lt. All-has {P = λ x. free_category (size_of h x) ≡ i} (lists i) λ x k.
          (listed_at-place h.mem x i (start + 56) bs co.tagged (omega (arith, l.aligned))
            (sym (co.members i lt x) ∙ k)).3;
    }

-- A listed block that has room, or NULL.
pub find_fit-block :
    (fuel size : ℕ) (h : Heap) (bs : List Block) (lists : ℕ → List ℕ)
    → IsLayout h bs lists
    → length bs < fuel
    → (find_fit fuel size h ≡ missing)
      ⊎ ((xs : List Block) × (c : ℕ) × (ys : List Block) × (bs ≡ xs ++ blk c listed ∷ ys)
          × (find_fit fuel size h ≡ found (h.block_list_start + 56 + total xs))
          × (size ≤ c))
find_fit-block fuel size h bs lists l f = by_result (find_fit fuel size h) refl (
    find_fit-IsBestFrom h lists size fuel (IsLayout-FreeLists h bs lists l)
      (λ j lt. omega (arith, l.contents.lengths j lt, listed_count-le j bs, f)))
  where
    by_result :
        (r : Found)
        → find_fit fuel size h ≡ r
        → IsBestFrom h lists size (free_category size) r
        → (find_fit fuel size h ≡ missing)
          ⊎ ((xs : List Block) × (c : ℕ) × (ys : List Block) × (bs ≡ xs ++ blk c listed ∷ ys)
              × (find_fit fuel size h ≡ found (h.block_list_start + 56 + total xs))
              × (size ≤ c))
    by_result missing e best = inl e
    by_result out_of_fuel e best = absurd best
    by_result (found q) e (le, all, j, n, lt, get) =
        let at = sym (l.contents.members j lt q) ∙ get_elem?-has (lists j) n q get in
        let (xs, c, ys, whole, place) = listed_at-split q j (h.block_list_start + 56) bs at in
        let tags =
          Tagged-right h.mem (h.block_list_start + 56) xs (blk c listed ∷ ys)
            (rw whole at l.contents.tagged) in
        let size_q : size_of h q ≡ c = ap (size_of h) (sym place) ∙ omega (arith, tags.0, tags.3) in
        inr (xs, c, ys, whole, e ∙ ap found (sym place), omega (arith, le, size_q))
