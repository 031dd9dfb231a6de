-- ===== src/Malloc/FreeList/Insert.antt =====
-- `insert_free_block` on a free list: where it puts the block, and that the list stays sorted.
use system_programming_lab.Base.{
  ℕ, zero, suc, ◌+◌, ◌%◌, ◌<◌, ◌≡◌, ◌≢◌, refl, ap, inl, inr, true, false, some, List, [], ◌∷◌, ◌++◌,
  leb, ◌==◌, All, Bool-cases, length, arith,
}
use system_programming_lab.Malloc.Memory.{Heap}
use system_programming_lab.Malloc.FreeList.{
  get_free_category_root, find_place, link_block, insert_free_block,
}
use system_programming_lab.Malloc.FreeList.Sorted.{
  size_of, smaller, not_smaller, insert_by, IsSortedBy, smaller-append, insert_by-IsSortedBy,
}
use system_programming_lab.Malloc.FreeList.Chain.{
  Chain, IsPlace, IsOut, Places, NoLink, end_cell, end_prev, head_or_null, Linked, Chain-Linked,
  All-left, Places-left,
}

-- `find_place` stops behind the smaller blocks.
find_place-smaller :
    (k : ℕ) (h : Heap) (size v prev p : ℕ) (xs : List ℕ)
    → Chain h.mem v p xs
    → All (λ x. 0 < x) xs
    → length xs < k
    → find_place k h size prev p
      ≡ some (
        end_prev prev (smaller (size_of h) size xs),
        head_or_null (not_smaller (size_of h) size xs),
      )
unfolding find_place smaller not_smaller
find_place-smaller zero h size v prev p xs c pos f = absurd (omega arith)
find_place-smaller (suc k) h size v prev p [] c pos f =
    let z : (p == 0) ≡ true = ground arith in rw (z, c)
find_place-smaller (suc k) h size v prev p (x ∷ xs) c pos f =
    let nz : (p == 0) ≡ false = ground arith in
    let ih =
      find_place-smaller k h size x p (h.mem (p + 4)) xs (rw (c.0) c.2) pos.1 (omega arith) in
    elim (Bool-cases (leb size (size_of h x))) [
      | inl fit ↦ let fit' : leb size (size_of h p) ≡ true = rw c.0 fit in rw (nz, fit', fit, c.0)
      | inr no_fit ↦
          let no_fit' : leb size (size_of h p) ≡ false = rw c.0 no_fit in
          rw (nz, no_fit', no_fit, ih)
            (ap
              (λ y. some (
                end_prev y (smaller (size_of h) size xs),
                head_or_null (not_smaller (size_of h) size xs),
              ))
              c.0)
    ]

pub end_cell-prev : (y : ℕ) (ys : List ℕ) → end_cell (y + 4) ys ≡ end_prev y ys + 4
end_cell-prev y [] = refl
end_cell-prev y (x ∷ ys) = end_cell-prev x ys

-- The writes at the front of the list.
Linked-at_root :
    (h : Heap) (root p n : ℕ)
    → root ≢ p
    → root ≢ p + 4
    → n ≢ p
    → n ≢ p + 4
    → n ≢ root
    → Linked h.mem (link_block root p root n h).mem root 0 p n
unfolding link_block
Linked-at_root h root p n n1 n2 n3 n4 n5 = record {
  at_cell = ground arith;
  at_prev = ground arith;
  at_next = ground arith;
  at_back = ground arith;
  same = λ q m1 m2 m3 m4. ground arith;
}

Linked-behind :
    (h : Heap) (root p v n : ℕ)
    → v ≢ root
    → v + 4 ≢ p
    → v + 4 ≢ p + 4
    → n ≢ p
    → n ≢ p + 4
    → n ≢ v + 4
    → Linked h.mem (link_block root p v n h).mem (v + 4) v p n
unfolding link_block
Linked-behind h root p v n n0 n1 n2 n3 n4 n5 = record {
  at_cell = ground arith;
  at_prev = ground arith;
  at_next = ground arith;
  at_back = ground arith;
  same = λ q m1 m2 m3 m4. ground arith;
}

-- The links of a list lie behind its root, and its blocks are not NULL.
Places-pos : (root : ℕ) (xs : List ℕ) → Places root xs → All (λ x. 0 < x) xs
Places-pos root [] h = tt
Places-pos root (x ∷ xs) h = (omega (arith, h.0.1), Places-pos root xs h.2)

-- A place among the blocks is one that is out of nothing that the blocks are out of.
pub end_prev-IsPlace :
    (root p y : ℕ) (ys : List ℕ)
    → IsPlace root y
    → y ≢ p
    → Places root ys
    → IsOut p ys
    → IsPlace root (end_prev y ys) × (end_prev y ys ≢ p)
end_prev-IsPlace root p y [] a n h o = (a, n)
end_prev-IsPlace root p y (x ∷ ys) a n h o = end_prev-IsPlace root p x ys h.0 o.0 h.2 o.1

-- What follows in a list of places is NULL or a place that is not among those before it.
pub head-place :
    (root p : ℕ) (ys zs : List ℕ)
    → Places root (ys ++ zs)
    → IsOut p (ys ++ zs)
    → 0 < p
    → (head_or_null zs ≢ p) × (head_or_null zs % 8 ≡ 0)
head-place root p [] [] h o pos = (omega arith, refl)
head-place root p [] (z ∷ zs) h o pos = (o.0, h.0.0)
head-place root p (y ∷ ys) zs h o pos = head-place root p ys zs h.2 o.1 pos

pub head-ne_root : (root : ℕ) (zs : List ℕ) → 0 < root → Places root zs → head_or_null zs ≢ root
head-ne_root root [] pos t = omega arith
head-ne_root root (z ∷ zs) pos t = omega (arith, t.0.1)

-- The writes of `insert_free_block` put `p` behind the blocks `ys`.
link_block-Linked :
    (h : Heap) (root p : ℕ) (ys zs : List ℕ)
    → IsPlace root p
    → root % 4 ≡ 0
    → 0 < root
    → Places root (ys ++ zs)
    → IsOut p (ys ++ zs)
    → Linked h.mem
        (link_block root p (end_prev root ys) (head_or_null zs) h).mem
        (end_cell root ys)
        (end_prev 0 ys)
        p
        (head_or_null zs)
link_block-Linked h root p [] zs a r pos t o =
    let (np, al) = head-place root p [] zs t o (omega (arith, a.1)) in
    Linked-at_root h root p (head_or_null zs) (omega (arith, a.1)) (omega (arith, a.1)) np
      (omega (arith, a.0)) (head-ne_root root zs pos t)
link_block-Linked h root p (y ∷ ys) zs a r pos t o =
    let (b, ne) =
      end_prev-IsPlace root p y ys t.0 o.0 (Places-left root ys zs t.2)
        (All-left (λ (x : ℕ). x ≢ p) ys zs o.1) in
    let (np, al) = head-place root p ys zs t.2 o.1 (omega (arith, a.1)) in
    rw (end_cell-prev y ys) (
      Linked-behind h root p (end_prev y ys) (head_or_null zs) (omega (arith, b.1))
        (omega (arith, a.0, b.0)) (omega (arith, ne)) np (omega (arith, a.0, al))
        (omega (arith, b.0, al)))

-- The memory that `insert_free_block` leaves behind.
abbrev pub inserted : Heap → ℕ → List ℕ → Heap
inserted h p xs =
    let size : ℕ = size_of h p in
    let root : ℕ = get_free_category_root h size in
    link_block root p (end_prev root (smaller (size_of h) size xs))
      (head_or_null (not_smaller (size_of h) size xs)) h

pub insert_free_block-eq :
    (fuel : ℕ) (h : Heap) (p : ℕ) (xs : List ℕ)
    → Places (get_free_category_root h (size_of h p)) xs
    → Chain h.mem 0 (h.mem (get_free_category_root h (size_of h p))) xs
    → length xs < fuel
    → insert_free_block fuel p h ≡ some (inserted h p xs)
unfolding insert_free_block
insert_free_block-eq fuel h p xs t c f =
    let root : ℕ = get_free_category_root h (size_of h p) in
    rw
      (
        insert_free_block,
        find_place-smaller fuel h (size_of h p) 0 root (h.mem root) xs c (Places-pos root xs t) f,
      )
      refl

pub end_cell-ne_link : (q c : ℕ) (ys zs : List ℕ) → q ≢ c → NoLink (ys ++ zs) q → q ≢ end_cell c ys
end_cell-ne_link q c [] zs n h = n
end_cell-ne_link q c (y ∷ ys) zs n h = end_cell-ne_link q (y + 4) ys zs h.0.1 h.1

pub head-ne_link : (q : ℕ) (ys zs : List ℕ) → q ≢ 0 → NoLink (ys ++ zs) q → q ≢ head_or_null zs
head-ne_link q [] [] n h = n
head-ne_link q [] (z ∷ zs) n h = h.0.0
head-ne_link q (y ∷ ys) zs n h = head-ne_link q ys zs n h.1

pub root-NoLink : (root : ℕ) (xs : List ℕ) → Places root xs → NoLink xs root
root-NoLink root [] t = tt
root-NoLink root (x ∷ xs) t =
    ((omega (arith, t.0.1), omega (arith, t.0.1)), root-NoLink root xs t.2)

-- What `inserted` makes of the root's list and of the other words.
module _ (h : Heap) (p : ℕ) (xs : List ℕ) (r : get_free_category_root h (size_of h p) % 4 ≡ 0)
    (pos : 0 < get_free_category_root h (size_of h p))
    (a : IsPlace (get_free_category_root h (size_of h p)) p)
    (t : Places (get_free_category_root h (size_of h p)) xs) (o : IsOut p xs) where
  root : ℕ
  root = get_free_category_root h (size_of h p)

  ys : List ℕ
  ys = smaller (size_of h) (size_of h p) xs

  zs : List ℕ
  zs = not_smaller (size_of h) (size_of h p) xs

  parts : ys ++ zs ≡ xs
  unfolding ys zs
  parts = smaller-append (size_of h) (size_of h p) xs

  links : Linked h.mem (inserted h p xs).mem (end_cell root ys) (end_prev 0 ys) p (head_or_null zs)
  unfolding root ys zs parts
  links = link_block-Linked h root p ys zs a r pos (rw parts t) (rw parts o)

  pub inserted-Chain :
      Chain h.mem 0 (h.mem (get_free_category_root h (size_of h p))) xs
      → Chain
          (inserted h p xs).mem
          0
          ((inserted h p xs).mem (get_free_category_root h (size_of h p)))
          (insert_by (size_of h) p xs)
  unfolding root ys zs parts
  inserted-Chain c =
      Chain-Linked root h.mem (inserted h p xs).mem 0 root p ys zs (rw parts t) a (rw parts o)
        (omega (arith, a.1)) (omega (arith, a.1)) (omega arith) (rw parts (root-NoLink root xs t))
        (rw parts c) links

  pub inserted-same :
      (q : ℕ)
      → q ≢ 0
      → q ≢ get_free_category_root h (size_of h p)
      → NoLink (p ∷ xs) q
      → (inserted h p xs).mem q ≡ h.mem q
  unfolding root ys zs parts
  inserted-same q q0 qr nq =
      links.same q (end_cell-ne_link q root ys zs qr (rw parts nq.1)) nq.0.0 nq.0.1
        (head-ne_link q ys zs q0 (rw parts nq.1))

-- Inserting a block into a list sorted by the sizes in the headers succeeds, with fuel for the
-- list's length. The root's list, linked both ways, is then the list with the block before the first
-- that is not smaller, and is sorted, and a word that is not at 0 and is neither the root nor a link
-- of the block or of the list is as before. The root is a positive multiple of 4; the block and the
-- list's are distinct, 8-aligned and above the root.
pub insert_free_block_lem :
    (fuel : ℕ) (h : Heap) (p : ℕ) (xs : List ℕ) (q : ℕ)
    → get_free_category_root h (size_of h p) % 4 ≡ 0
    → 0 < get_free_category_root h (size_of h p)
    → IsPlace (get_free_category_root h (size_of h p)) p
    → Places (get_free_category_root h (size_of h p)) xs
    → IsOut p xs
    → Chain h.mem 0 (h.mem (get_free_category_root h (size_of h p))) xs
    → IsSortedBy (size_of h) xs
    → length xs < fuel
    → q ≢ 0
    → q ≢ get_free_category_root h (size_of h p)
    → NoLink (p ∷ xs) q
    → (h' : Heap) × (insert_free_block fuel p h ≡ some h')
      × Chain h'.mem 0
          (h'.mem (get_free_category_root h (size_of h p)))
          (insert_by (size_of h) p xs)
      × IsSortedBy (size_of h) (insert_by (size_of h) p xs)
      × (h'.mem q ≡ h.mem q)
insert_free_block_lem fuel h p xs q r pos a t o c sorted f q0 qr nq = (
  inserted h p xs,
  insert_free_block-eq fuel h p xs t c f,
  inserted-Chain h p xs r pos a t o c,
  insert_by-IsSortedBy (size_of h) p xs sorted,
  inserted-same h p xs r pos a t o q q0 qr nq,
)
