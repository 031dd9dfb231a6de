-- ===== src/Malloc/Layout.antt =====
-- The heap of malloclab/mm.c as a list of blocks: what the words of the memory hold of it.
pub mod Blocks
pub mod Tags
pub mod Lists
pub mod Links
pub mod Moves
pub mod Listing
pub mod Unlisting
pub mod Retile
pub mod Neighbours
pub mod Joins
pub mod Coalesce
pub mod Settled
pub mod Merge
use system_programming_lab.Base.{
  ℕ, ◌+◌, ◌-◌, ◌*◌, ◌%◌, ◌^◌, ◌≤◌, ◌<◌, ◌≡◌, Bool, true, false, ◌&&◌, ◌||◌, List, [], ◌∷◌, ◌++◌,
  ltb, leb, ◌==◌, if◌then◌else◌, length,
}
use system_programming_lab.Malloc.Memory.{Heap}
use system_programming_lab.Malloc.FreeList.{free_category}
use system_programming_lab.Malloc.FreeList.Chain.{Chain, Places}
use system_programming_lab.Malloc.FreeList.Sorted.{size_of, IsSortedBy}
use system_programming_lab.Malloc.Fit.{categories}

-- A block is allocated, or free and in a free list, or free and in none.
pub data Status : Type 0 where
  used listed loose : Status

pub record Block : Type 0 where
  pub size : ℕ
  pub status : Status

abbrev pub is_used : Status → Bool
is_used used = true
is_used listed = false
is_used loose = false

abbrev pub is_listed : Status → Bool
is_listed used = false
is_listed listed = true
is_listed loose = false

-- The word of a block's header and of its footer.
abbrev pub tag : Block → ℕ
tag b = if is_used b.status then b.size + 1 else b.size

abbrev pub total : List Block → ℕ
total [] = 0
total (b ∷ bs) = b.size + total bs

-- Blocks one behind the other from the payload address `a` on, with their headers and footers.
abbrev pub Tagged : (ℕ → ℕ) → ℕ → List Block → Type 0
Tagged m a [] = Unit
Tagged m a (b ∷ bs) =
    (m (a - 4) ≡ tag b)
    × (m (a + b.size - 8) ≡ tag b)
    × (16 ≤ b.size)
    × (b.size % 8 ≡ 0)
    × Tagged m (a + b.size) bs

-- A listed block of category `i` has the payload address `x`.
abbrev pub listed_at : (x i a : ℕ) → List Block → Bool
listed_at x i a [] = false
listed_at x i a (b ∷ bs) =
    ((a == x) && is_listed b.status && (free_category b.size == i)) || listed_at x i (a + b.size) bs

-- The word `q` is in the payload of an allocated block.
abbrev pub is_payload : (q a : ℕ) → List Block → Bool
is_payload q a [] = false
is_payload q a (b ∷ bs) =
    (is_used b.status && leb a q && ltb q (a + b.size - 8)) || is_payload q (a + b.size) bs

-- The word `q` is a header or a footer.
abbrev pub is_tag : (q a : ℕ) → List Block → Bool
is_tag q a [] = false
is_tag q a (b ∷ bs) = (q + 4 == a) || ((q + 8 == a + b.size) || is_tag q (a + b.size) bs)

-- How many listed blocks are of category `i`.
abbrev pub listed_count : ℕ → List Block → ℕ
listed_count i [] = 0
listed_count i (b ∷ bs) =
    (if is_listed b.status && (free_category b.size == i) then 1 else 0) + listed_count i bs

abbrev pub has : ℕ → List ℕ → Bool
has x [] = false
has x (y ∷ ys) = (y == x) || has x ys

-- What a header says is the size.
abbrev pub size_in : (ℕ → ℕ) → ℕ → ℕ
size_in m x = m (x - 4) - m (x - 4) % 8

-- The memory from the roots at `start` on: the blocks `bs` between prologue and epilogue, behind ten
-- roots and the padding. The roots lead to the lists of the listed blocks by their categories, sorted
-- by size.
pub record Contents (m : ℕ → ℕ) (start : ℕ) (bs : List Block) (lists : ℕ → List ℕ) : Type 0 where
  pub prologue : (m (start + 44) ≡ 9) × (m (start + 48) ≡ 9)
  pub epilogue : m (start + 52 + total bs) ≡ 1
  pub tagged : Tagged m (start + 56) bs
  pub chains : (i : ℕ) → i < categories → Chain m 0 (m (start + i * 4)) (lists i)
  pub places : (i : ℕ) → i < categories → Places (start + 40) (lists i)
  pub sorted : (i : ℕ) → i < categories → IsSortedBy (size_in m) (lists i)
  pub members : (i : ℕ) → i < categories → (x : ℕ) → has x (lists i) ≡ listed_at x i (start + 56) bs
  pub lengths : (i : ℕ) → i < categories → length (lists i) ≤ listed_count i bs

-- The static variables fit the contents.
pub record IsLayout (h : Heap) (bs : List Block) (lists : ℕ → List ℕ) : Type 0 where
  pub aligned : h.block_list_start % 8 ≡ 0
  pub positive : 0 < h.block_list_start
  pub at_list : h.heap_listp ≡ h.block_list_start + 48
  pub at_brk : h.block_list_start + 56 + total bs ≡ h.mem_brk
  pub in_bounds : h.mem_brk ≤ h.mem_max_addr
  pub bounded : h.mem_max_addr < 2 ^ 32
  pub contents : Contents h.mem h.block_list_start bs lists

abbrev pub replace : (ℕ → List ℕ) → ℕ → List ℕ → ℕ → List ℕ
replace lists c new i = if i == c then new else lists i

-- The payloads of allocated blocks are the same in both memories.
abbrev pub KeepsPayload : (m m' : ℕ → ℕ) → ℕ → List Block → Type 0
KeepsPayload m m' a bs = (q : ℕ) → is_payload q a bs ≡ true → m' q ≡ m q
