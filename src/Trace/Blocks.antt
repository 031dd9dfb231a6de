-- ===== src/Trace/Blocks.antt =====
-- The list of linklab/utils/memlist.c. The dummy item at its head is left out; a list that is NULL
-- is `none` in the tracer. The item that `alloc` and `dealloc` return is not used by their callers.
pub mod Search
use system_programming_lab.Base.{
  ℕ, zero, suc, ◌+◌, Bool, true, false, Option, none, some, List, [], ◌∷◌, ltb, ◌==◌, if◌then◌else◌,
}
pub use system_programming_lab.Base.{ℤ, pos, negsuc}

unfoldable pub increment : ℤ → ℤ
increment (pos n) = pos (n + 1)
increment (negsuc zero) = pos 0
increment (negsuc (suc n)) = negsuc n

unfoldable pub decrement : ℤ → ℤ
decrement (pos zero) = negsuc 0
decrement (pos (suc n)) = pos n
decrement (negsuc n) = negsuc (n + 1)

pub record Item : Type 0 where
  pub ptr : ℕ
  pub size : ℕ
  pub cnt : ℤ
  pub fname : List ℕ
  pub ofs : ℕ

-- What get_callinfo says of the call, if it succeeds.
abbrev pub Caller : Type 0
Caller = Option (List ℕ × ℕ)

abbrev pub unknown : List ℕ
unknown = b'?' ∷ b'?' ∷ b'?' ∷ []

abbrev pub new_item : ℕ → ℕ → Caller → Item
new_item ptr size none = record { ptr = ptr; size = size; cnt = pos 1; fname = unknown; ofs = 0 }
new_item ptr size (some (fname, ofs)) = record {
  ptr = ptr;
  size = size;
  cnt = pos 1;
  fname = fname;
  ofs = ofs;
}

-- The search and the insertion of `alloc`, for the new item `i`.
unfoldable pub insert_item : List Item → Item → List Item
unfolding increment
insert_item [] i = i ∷ []
insert_item (c ∷ cs) i =
    if ltb c.ptr i.ptr
    then c ∷ insert_item cs i
    else if c.ptr == i.ptr
    then record c { size = i.size; cnt = increment c.cnt } ∷ cs
    else i ∷ c ∷ cs

unfoldable pub alloc : List Item → (ptr size : ℕ) → Caller → List Item
unfolding insert_item
alloc list ptr size caller = insert_item list (new_item ptr size caller)

unfoldable pub dealloc : List Item → ℕ → List Item
unfolding decrement
dealloc [] p = []
dealloc (c ∷ cs) p =
    if c.ptr == p then record c { cnt = decrement c.cnt } ∷ cs else c ∷ dealloc cs p

unfoldable pub find : List Item → ℕ → Option Item
find [] p = none
find (c ∷ cs) p = if ltb c.ptr p then find cs p else if c.ptr == p then some c else none
