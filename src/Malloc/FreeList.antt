-- ===== src/Malloc/FreeList.antt =====
-- The segregated free lists of malloclab/mm.c: `get_freeCategory_root`, `insert_free_block`,
-- `remove_free_block`. A loop along a list takes fuel, and `none` means that it ran out.
pub mod Chain
pub mod Sorted
pub mod Insert
pub mod Remove
use system_programming_lab.Base.{
  ℕ, zero, suc, ◌+◌, ◌*◌, Bool, true, false, Option, none, some, leb, ◌==◌, if◌then◌else◌,
}
use system_programming_lab.Malloc.Memory.{
  Heap, wsize, get, put, get_size, hdrp, prev_linknode_rp, next_linknode_rp,
}

-- The index `i` of `get_freeCategory_root`.
unfoldable pub free_category : ℕ → ℕ
free_category size =
    if leb size 8
    then 0
    else if leb size 16
    then 0
    else if leb size 32
    then 0
    else if leb size 64
    then 1
    else if leb size 128
    then 2
    else if leb size 256
    then 3
    else if leb size 512
    then 4
    else if leb size 2048
    then 5
    else if leb size 4096
    then 6
    else if leb size 8192
    then 7
    else if leb size 16384
    then 8
    else 9

abbrev pub get_free_category_root : Heap → ℕ → ℕ
get_free_category_root h size = h.block_list_start + free_category size * wsize

-- The search of `insert_free_block` for the place of a block of the given size.
unfoldable pub find_place : ℕ → Heap → ℕ → (prevp nextp : ℕ) → Option (ℕ × ℕ)
find_place zero h size prevp nextp = none
find_place (suc k) h size prevp nextp =
    let more : Option (ℕ × ℕ) = find_place k h size nextp (get h (next_linknode_rp nextp)) in
    if nextp == 0
    then some (prevp, nextp)
    else if leb size (get_size h (hdrp nextp))
    then some (prevp, nextp)
    else more

-- The writes of `insert_free_block`.
unfoldable pub link_block : (root p prevp nextp : ℕ) → Heap → Heap
link_block root p prevp nextp h =
    let back : Heap → Heap = λ h'. if nextp == 0 then h' else put (prev_linknode_rp nextp) p h' in
    if prevp == root
    then back (put (prev_linknode_rp p) 0 (put (next_linknode_rp p) nextp (put root p h)))
    else back (
        put (next_linknode_rp p) nextp
          (put (prev_linknode_rp p) prevp (put (next_linknode_rp prevp) p h)))

unfoldable pub insert_free_block : ℕ → ℕ → Heap → Option Heap
unfolding free_category find_place link_block
insert_free_block fuel p h =
    let root : ℕ = get_free_category_root h (get_size h (hdrp p)) in
    elim (find_place fuel h (get_size h (hdrp p)) root (get h root)) [
      | none ↦ none
      | some (prevp, nextp) ↦ some (link_block root p prevp nextp h)
    ]

-- The writes of `remove_free_block`.
unfoldable pub unlink_block : (root p prevp nextp : ℕ) → Heap → Heap
unlink_block root p prevp nextp h =
    let taken : Heap =
      if prevp == 0
      then put root nextp (if nextp == 0 then h else put (prev_linknode_rp nextp) 0 h)
      else put (next_linknode_rp prevp) nextp
          (if nextp == 0 then h else put (prev_linknode_rp nextp) prevp h) in
    put (prev_linknode_rp p) 0 (put (next_linknode_rp p) 0 taken)

unfoldable pub remove_free_block : ℕ → Heap → Heap
unfolding free_category unlink_block
remove_free_block p h =
    unlink_block (get_free_category_root h (get_size h (hdrp p))) p (get h (prev_linknode_rp p))
      (get h (next_linknode_rp p)) h
