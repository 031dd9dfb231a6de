-- ===== src/Malloc/Refine.antt =====
-- The allocator of malloclab/mm.c as its callers see it: a heap represents the list of the allocated
-- blocks, which the operations of the interface extend and shorten.
pub mod Blocks
pub mod Free
pub mod Place
pub mod Placed
pub mod Grown
pub mod Extend
pub mod Fit
pub mod Malloc
pub mod Init
pub mod Bounds
pub mod Runs
mod Tests
use system_programming_lab.Base.{
  ℕ, ◌+◌, ◌-◌, ◌≤◌, ◌<◌, ◌≡◌, Bool, true, false, ◌&&◌, ◌||◌, List, [], ◌∷◌, ltb, leb, length,
}
use system_programming_lab.Malloc.Memory.{Heap}
use system_programming_lab.Malloc.Layout.{Block, IsLayout}
use system_programming_lab.Malloc.Layout.Settled.{IsSettled, allocs}

-- The heap is laid out in at most `count` blocks, of which the allocated ones are `live`, given by
-- their payload addresses and their sizes in ascending order. The free ones are listed, and no two of
-- them are neighbours.
pub record Represents (h : Heap) (live : List (ℕ × ℕ)) (count : ℕ) : Type 0 where
  pub blocks : List Block
  pub lists : ℕ → List ℕ
  pub layout : IsLayout h blocks lists
  pub settled : IsSettled blocks
  pub live_blocks : allocs (h.block_list_start + 56) blocks ≡ live
  pub counted : length blocks ≤ count

-- The word `q` is in the payload of one of the blocks.
abbrev pub in_payload : ℕ → List (ℕ × ℕ) → Bool
in_payload q [] = false
in_payload q (b ∷ bs) = (leb (b.0) q && ltb q (b.0 + b.1 - 8)) || in_payload q bs

-- The words of the payloads are the same in both memories.
abbrev pub Keeps : (m m' : ℕ → ℕ) → List (ℕ × ℕ) → Type 0
Keeps m m' live = (q : ℕ) → in_payload q live ≡ true → m' q ≡ m q
