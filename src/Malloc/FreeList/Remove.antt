-- ===== src/Malloc/FreeList/Remove.antt =====
-- `remove_free_block` on a free list.
use system_programming_lab.Base.{
  ℕ, ◌+◌, ◌%◌, ◌<◌, ◌≡◌, ◌≢◌, ◌∙◌, sym, refl, ap, List, [], ◌∷◌, ◌++◌, All, arith,
}
use system_programming_lab.Malloc.Memory.{Heap}
use system_programming_lab.Malloc.FreeList.{get_free_category_root, unlink_block, remove_free_block}
use system_programming_lab.Malloc.FreeList.Sorted.{size_of}
use system_programming_lab.Malloc.FreeList.Chain.{
  Chain, Chain-frame, IsPlace, IsOut, Places, Places-left, NoLink, end_cell, end_prev, head_or_null,
  Unlinked, All-left, All-right, All-join, IsPlace-apart, NoLink-of_out, NoLink-of_place,
  IsOut-of_NoLink, SameLinks-elsewhere, end_cell-mod, head_or_null-ne, end_cell-ne,
}
use system_programming_lab.Malloc.FreeList.Insert.{
  end_cell-prev, end_prev-IsPlace, head-place, head-ne_root, root-NoLink, end_cell-ne_link,
  head-ne_link,
}

-- What the words of a chain hold at one of its blocks.
Chain-at :
    (m : ℕ → ℕ) (v c p : ℕ) (ys zs : List ℕ)
    → Chain m v (m c) (ys ++ p ∷ zs)
    → (m p ≡ end_prev v ys) × (m (p + 4) ≡ head_or_null zs)
Chain-at m v c p [] [] h = (h.1, h.2)
Chain-at m v c p [] (z ∷ zs) h = (h.1, h.2.0)
Chain-at m v c p (y ∷ ys) zs h = Chain-at m y (y + 4) p ys zs h.2

-- A block of distinct places is a place, and none of the others.
pub Places-at :
    (root p : ℕ) (ys zs : List ℕ)
    → Places root (ys ++ p ∷ zs)
    → IsPlace root p × IsOut p (ys ++ zs) × Places root (ys ++ zs)
Places-at root p [] zs h = (h.0, h.1, h.2)
Places-at root p (y ∷ ys) zs h =
    let (a, o, t) = Places-at root p ys zs h.2 in
    let out : All (λ w. w ≢ y) (p ∷ zs) = All-right (λ (w : ℕ). w ≢ y) ys (p ∷ zs) h.1 in
    (
      a,
      ((λ e. out.0 (sym e)), o),
      (
        h.0,
        All-join (λ (w : ℕ). w ≢ y) ys zs (All-left (λ (w : ℕ). w ≢ y) ys (p ∷ zs) h.1) out.1,
        t,
      ),
    )

-- Taking a block out of a chain leaves the chain of the others.
Chain-Unlinked :
    (root : ℕ) (m m' : ℕ → ℕ) (v c p : ℕ) (ys zs : List ℕ)
    → Places root (ys ++ p ∷ zs)
    → c ≢ p
    → c ≢ p + 4
    → c ≢ 0
    → NoLink (ys ++ p ∷ zs) c
    → Chain m v (m c) (ys ++ p ∷ zs)
    → Unlinked m m' (end_cell c ys) (end_prev v ys) p (head_or_null zs)
    → Chain m' v (m' c) (ys ++ zs)
Chain-Unlinked root m m' v c p [] [] h n1 n2 n3 nc ch l = l.at_cell
Chain-Unlinked root m m' v c p [] (z ∷ zs) h n1 n2 n3 nc ch l =
    let (f, g, k) = IsPlace-apart root z p h.2.0 h.0 h.1.0 in
    let next : m' (z + 4) ≡ m (z + 4) = l.same (z + 4) (λ e. nc.1.0.1 (sym e)) g k (omega arith) in
    let nz = NoLink-of_place root z zs h.2.0 h.2.2 h.2.1 in
    let rest = SameLinks-elsewhere root m m' c p z zs h.2.2 h.0 h.1.1 nc.1.1 nz l.same in
    (
      l.at_cell,
      l.at_back (omega (arith, h.2.0.1)),
      rw next (Chain-frame m m' z (m (z + 4)) zs rest ch.2.2),
    )
Chain-Unlinked root m m' v c p (y ∷ ys) zs h n1 n2 n3 nc ch l =
    let (a, o, t) = Places-at root p (y ∷ ys) zs h in
    let (f, g, k) = IsPlace-apart root y p h.0 a o.0 in
    let ny = NoLink-of_out root y (ys ++ p ∷ zs) h.0 h.2 h.1 in
    let P : ℕ → Type 0 = λ x. (c ≢ x) × (c ≢ x + 4) in
    let out_c = All-join P ys zs (All-left P ys (p ∷ zs) nc.1) (All-right P ys (p ∷ zs) nc.1).1 in
    let end4 = end_cell-mod root y ys h.0.0 (Places-left root ys (p ∷ zs) h.2) in
    let at_c : m' c ≡ m c =
      l.same c (end_cell-ne c y ys nc.0.1 (All-left P ys (p ∷ zs) nc.1)) n1 n2
        (head_or_null-ne c ys zs n3 (IsOut-of_NoLink c (ys ++ zs) out_c)) in
    let at_y : m' y ≡ m y =
      l.same y (omega (arith, h.0.0)) o.0 f (head_or_null-ne y ys zs (omega (arith, h.0.1)) t.1) in
    let ih = Chain-Unlinked root m m' y (y + 4) p ys zs h.2 g k (omega arith) ny ch.2 l in
    (at_c ∙ ch.0, at_y ∙ ch.1, ih)

Unlinked-at_root :
    (h : Heap) (root p n : ℕ)
    → root ≢ p
    → root ≢ p + 4
    → n ≢ p
    → n ≢ p + 4
    → n ≢ root
    → Unlinked h.mem (unlink_block root p 0 n h).mem root 0 p n
unfolding unlink_block
Unlinked-at_root h root p n n1 n2 n3 n4 n5 = record {
  at_cell = ground arith;
  at_back = ground arith;
  same = λ q m1 m2 m3 m4. ground arith;
}

Unlinked-behind :
    (h : Heap) (root p v n : ℕ)
    → v ≢ 0
    → v + 4 ≢ p
    → v + 4 ≢ p + 4
    → n ≢ p
    → n ≢ p + 4
    → n ≢ v + 4
    → Unlinked h.mem (unlink_block root p v n h).mem (v + 4) v p n
unfolding unlink_block
Unlinked-behind h root p v n n0 n1 n2 n3 n4 n5 = record {
  at_cell = ground arith;
  at_back = ground arith;
  same = λ q m1 m2 m3 m4. ground arith;
}

unlink_block-Unlinked :
    (h : Heap) (root p : ℕ) (ys zs : List ℕ)
    → root % 4 ≡ 0
    → 0 < root
    → Places root (ys ++ p ∷ zs)
    → Unlinked h.mem
        (unlink_block root p (end_prev 0 ys) (head_or_null zs) h).mem
        (end_cell root ys)
        (end_prev 0 ys)
        p
        (head_or_null zs)
unlink_block-Unlinked h root p [] zs r pos t =
    let (a, o, t') = Places-at root p [] zs t in
    let (np, al) = head-place root p [] zs t' o (omega (arith, a.1)) in
    Unlinked-at_root h root p (head_or_null zs) (omega (arith, a.1)) (omega (arith, a.1)) np
      (omega (arith, a.0, al)) (head-ne_root root zs pos t.2)
unlink_block-Unlinked h root p (y ∷ ys) zs r pos t =
    let (a, o, t') = Places-at root p (y ∷ ys) zs t in
    let left = Places-left root ys zs t'.2 in
    let (b, ne) =
      end_prev-IsPlace root p y ys t.0 o.0 left (All-left (λ (x : ℕ). x ≢ p) ys zs o.1) in
    let (np, al) = head-place root p ys zs t'.2 o.1 (omega (arith, a.1)) in
    rw (end_cell-prev y ys) (
      Unlinked-behind h root p (end_prev y ys) (head_or_null zs) (omega (arith, b.1))
        (omega (arith, a.0, b.0)) (omega (arith, ne)) np (omega (arith, a.0, al))
        (omega (arith, b.0, al)))

-- The pointers of the block are cleared.
unlink_block-cleared :
    (root p prevp nextp : ℕ) (h : Heap)
    → ((unlink_block root p prevp nextp h).mem p ≡ 0)
      × ((unlink_block root p prevp nextp h).mem (p + 4) ≡ 0)
unfolding unlink_block
unlink_block-cleared root p prevp nextp h = (ground arith, ground arith)

pub remove_free_block-eq :
    (h : Heap) (p : ℕ) (ys zs : List ℕ)
    → Chain h.mem 0 (h.mem (get_free_category_root h (size_of h p))) (ys ++ p ∷ zs)
    → remove_free_block p h
      ≡ unlink_block (get_free_category_root h (size_of h p)) p (end_prev 0 ys) (head_or_null zs) h
unfolding remove_free_block
remove_free_block-eq h p ys zs c =
    let root : ℕ = get_free_category_root h (size_of h p) in
    let (prev, next) = Chain-at h.mem 0 root p ys zs c in rw (prev, next) refl

-- What `remove_free_block` makes of the root's list and of the other words.
module _ (h : Heap) (p : ℕ) (ys zs : List ℕ) (r : get_free_category_root h (size_of h p) % 4 ≡ 0)
    (pos : 0 < get_free_category_root h (size_of h p))
    (t : Places (get_free_category_root h (size_of h p)) (ys ++ p ∷ zs))
    (c : Chain h.mem 0 (h.mem (get_free_category_root h (size_of h p))) (ys ++ p ∷ zs)) where
  root : ℕ
  root = get_free_category_root h (size_of h p)

  links :
      Unlinked h.mem
        (unlink_block root p (end_prev 0 ys) (head_or_null zs) h).mem
        (end_cell root ys)
        (end_prev 0 ys)
        p
        (head_or_null zs)
  unfolding root
  links = unlink_block-Unlinked h root p ys zs r pos t

  pub removed-Chain :
      Chain
        (remove_free_block p h).mem
        0
        ((remove_free_block p h).mem (get_free_category_root h (size_of h p)))
        (ys ++ zs)
  unfolding root
  removed-Chain =
      let (a, o, t') = Places-at root p ys zs t in
      rw (remove_free_block-eq h p ys zs c) (
        Chain-Unlinked root h.mem (unlink_block root p (end_prev 0 ys) (head_or_null zs) h).mem 0
          root p ys zs t (omega (arith, a.1)) (omega (arith, a.1)) (omega arith)
          (root-NoLink root (ys ++ p ∷ zs) t) c links)

  pub removed-same :
      (q : ℕ)
      → q ≢ 0
      → q ≢ get_free_category_root h (size_of h p)
      → NoLink (ys ++ p ∷ zs) q
      → (remove_free_block p h).mem q ≡ h.mem q
  unfolding root
  removed-same q q0 qr nq =
      let P : ℕ → Type 0 = λ x. (q ≢ x) × (q ≢ x + 4) in
      let nqp = All-right P ys (p ∷ zs) nq in
      let nq' = All-join P ys zs (All-left P ys (p ∷ zs) nq) nqp.1 in
      rw (remove_free_block-eq h p ys zs c) (
        links.same q (end_cell-ne_link q root ys zs qr nq') nqp.0.0 nqp.0.1
          (head-ne_link q ys zs q0 nq'))

-- Removing a block from the list of its category leaves the root with the list of the others, linked
-- both ways and in their order, clears the block's links, and leaves a word that is not at 0 and is
-- neither the root nor a link of the list as it was. The root is a positive multiple of 4; the list's
-- blocks are distinct, 8-aligned and above the root.
pub remove_free_block_lem :
    (h : Heap) (p : ℕ) (ys zs : List ℕ) (q : ℕ)
    → get_free_category_root h (size_of h p) % 4 ≡ 0
    → 0 < get_free_category_root h (size_of h p)
    → Places (get_free_category_root h (size_of h p)) (ys ++ p ∷ zs)
    → Chain h.mem 0 (h.mem (get_free_category_root h (size_of h p))) (ys ++ p ∷ zs)
    → q ≢ 0
    → q ≢ get_free_category_root h (size_of h p)
    → NoLink (ys ++ p ∷ zs) q
    → Chain
        (remove_free_block p h).mem
        0
        ((remove_free_block p h).mem (get_free_category_root h (size_of h p)))
        (ys ++ zs)
      × ((remove_free_block p h).mem p ≡ 0)
      × ((remove_free_block p h).mem (p + 4) ≡ 0)
      × ((remove_free_block p h).mem q ≡ h.mem q)
remove_free_block_lem h p ys zs q r pos t c q0 qr nq =
    let (z, z') =
      unlink_block-cleared (get_free_category_root h (size_of h p)) p (end_prev 0 ys)
        (head_or_null zs) h in
    let e = remove_free_block-eq h p ys zs c in
    (
      removed-Chain h p ys zs r pos t c,
      ap (λ (h' : Heap). h'.mem p) e ∙ z,
      ap (λ (h' : Heap). h'.mem (p + 4)) e ∙ z',
      removed-same h p ys zs r pos t c q q0 qr nq,
    )
