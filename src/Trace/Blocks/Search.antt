-- ===== src/Trace/Blocks/Search.antt =====
-- What `find` answers after `alloc` and `dealloc`, and the order that they keep.
use system_programming_lab.Base.{
  ℕ, zero, suc, ◌<◌, ◌≡◌, ◌≢◌, refl, inl, inr, Option, none, some, List, [], ◌∷◌, ltb, ltb→lt, ◌==◌,
  Bool-cases, All, All-mono, All-get, get_elem?, arith,
}
use system_programming_lab.Trace.Blocks.{increment, decrement, Item, insert_item, dealloc, find}

-- The blocks' addresses ascend.
abbrev pub IsAscending : List Item → Type 0
IsAscending [] = Unit
IsAscending (c ∷ cs) = All (λ d. c.ptr < d.ptr) cs × IsAscending cs

-- The item after another allocation of its block, or the new one.
abbrev pub merged : Option Item → Item → Item
merged none i = i
merged (some c) i = record c { size = i.size; cnt = increment c.cnt }

abbrev pub lowered : Option Item → Option Item
lowered none = none
lowered (some c) = some (record c { cnt = decrement c.cnt })

pub find-insert_item :
    (list : List Item) (i : Item)
    → find (insert_item list i) i.ptr ≡ some (merged (find list i.ptr) i)
unfolding find insert_item
find-insert_item [] i = ground arith
find-insert_item (c ∷ cs) i = let ih = find-insert_item cs i in ground arith

pub find-insert_item_other :
    (list : List Item) (i : Item) (q : ℕ) → q ≢ i.ptr → find (insert_item list i) q ≡ find list q
unfolding find insert_item
find-insert_item_other [] i q ne = ground arith
find-insert_item_other (c ∷ cs) i q ne = let ih = find-insert_item_other cs i q ne in ground arith

-- `dealloc` lowers the count that `find` answers for the block by one.
pub find-dealloc : (list : List Item) (p : ℕ) → find (dealloc list p) p ≡ lowered (find list p)
unfolding find dealloc
find-dealloc [] p = refl
find-dealloc (c ∷ cs) p = let ih = find-dealloc cs p in ground arith

pub find-dealloc_other :
    (list : List Item) (p q : ℕ) → p ≢ q → find (dealloc list p) q ≡ find list q
unfolding find dealloc
find-dealloc_other [] p q ne = refl
find-dealloc_other (c ∷ cs) p q ne = let ih = find-dealloc_other cs p q ne in ground arith

-- In an ascending list `find` finds every block.
pub find-get :
    (list : List Item) (k : ℕ) (c : Item)
    → IsAscending list
    → get_elem? list k ≡ some c
    → find list c.ptr ≡ some c
unfolding find
find-get [] k c s g = cc
find-get (d ∷ ds) zero c s g = let e : d ≡ c = cc in rw e (ground arith)
find-get (d ∷ ds) (suc k) c s g =
    let lt = All-get (λ (x : Item). d.ptr < x.ptr) ds k s.0 g in
    let ih = find-get ds k c s.1 g in ground (arith, lt)

-- A bound below the addresses holds of an item's new address too.
insert_item-All :
    (a : ℕ) (list : List Item) (i : Item)
    → a < i.ptr
    → All (λ d. a < d.ptr) list
    → All (λ d. a < d.ptr) (insert_item list i)
unfolding insert_item
insert_item-All a [] i lt h = (lt, tt)
insert_item-All a (c ∷ cs) i lt h = elim (Bool-cases (ltb c.ptr i.ptr)) [
  | inl before ↦ rw before (h.0, insert_item-All a cs i lt h.1)
  | inr behind ↦ elim (Bool-cases (c.ptr == i.ptr)) [
    | inl same ↦ rw (behind, same) h
    | inr differs ↦ rw (behind, differs) (lt, h)
  ]
]

-- `alloc` keeps the addresses ascending.
pub insert_item-IsAscending :
    (list : List Item) (i : Item) → IsAscending list → IsAscending (insert_item list i)
unfolding insert_item
insert_item-IsAscending [] i s = (tt, tt)
insert_item-IsAscending (c ∷ cs) i s = elim (Bool-cases (ltb c.ptr i.ptr)) [
  | inl before ↦
      rw before (
        insert_item-All c.ptr cs i (ltb→lt c.ptr i.ptr before) s.0,
        insert_item-IsAscending cs i s.1,
      )
  | inr behind ↦ elim (Bool-cases (c.ptr == i.ptr)) [
    | inl same ↦ rw (behind, same) s
    | inr differs ↦
        let lt : i.ptr < c.ptr = ground arith in
        rw (behind, differs)
          (
            (
              lt,
              All-mono {P = λ d. c.ptr < d.ptr} {Q = λ d. i.ptr < d.ptr} cs
                  (λ d l. omega (arith, l, lt)) s.0,
            ),
            s,
          )
  ]
]

dealloc-All :
    (a : ℕ) (list : List Item) (p : ℕ)
    → All (λ d. a < d.ptr) list
    → All (λ d. a < d.ptr) (dealloc list p)
unfolding dealloc
dealloc-All a [] p h = tt
dealloc-All a (c ∷ cs) p h = elim (Bool-cases (c.ptr == p)) [
  | inl same ↦ rw same h
  | inr differs ↦ rw differs (h.0, dealloc-All a cs p h.1)
]

pub dealloc-IsAscending :
    (list : List Item) (p : ℕ) → IsAscending list → IsAscending (dealloc list p)
unfolding dealloc
dealloc-IsAscending [] p s = tt
dealloc-IsAscending (c ∷ cs) p s = elim (Bool-cases (c.ptr == p)) [
  | inl same ↦ rw same s
  | inr differs ↦ rw differs (dealloc-All c.ptr cs p s.0, dealloc-IsAscending cs p s.1)
]
