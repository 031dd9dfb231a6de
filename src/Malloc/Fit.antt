-- ===== src/Malloc/Fit.antt =====
-- `find_fit` of malloclab/mm.c.
pub mod Lists
pub mod Best
use system_programming_lab.Base.{
  ℕ, zero, suc, ◌+◌, ◌-◌, ◌*◌, Bool, true, false, Option, none, some, leb, ◌==◌, if◌then◌else◌,
}
use system_programming_lab.Malloc.Memory.{Heap, wsize, get, get_size, hdrp, next_linknode_rp}
use system_programming_lab.Malloc.FreeList.{free_category, get_free_category_root}

-- `found p` with the block, `missing` for NULL.
pub data Found : Type 0 where
  found : ℕ → Found
  missing : Found
  out_of_fuel : Found

-- The inner loop, along one list.
unfoldable pub scan_list : ℕ → Heap → ℕ → ℕ → Found
scan_list zero h size p = out_of_fuel
scan_list (suc k) h size p =
    let more : Found = scan_list k h size (get h (next_linknode_rp p)) in
    if p == 0 then missing else if leb size (get_size h (hdrp p)) then found p else more

-- The outer loop, over the roots up to `heap_listp - 2 * WSIZE`.
unfoldable pub scan_roots : ℕ → ℕ → Heap → ℕ → ℕ → Found
unfolding scan_list
scan_roots zero fuel h size root = out_of_fuel
scan_roots (suc k) fuel h size root = elim (root == h.heap_listp - 2 * wsize) [
  | true ↦ missing
  | false ↦ elim (scan_list fuel h size (get h root)) [
    | found p ↦ found p
    | missing ↦ scan_roots k fuel h size (root + wsize)
    | out_of_fuel ↦ out_of_fuel
  ]
]

abbrev pub categories : ℕ
categories = 10

-- There are ten roots, and one more test ends the loop.
unfoldable pub find_fit : ℕ → ℕ → Heap → Found
unfolding scan_roots free_category
find_fit fuel size h = scan_roots (categories + 1) fuel h size (get_free_category_root h size)
