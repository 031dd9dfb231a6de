-- ===== src/Malloc/Layout/Coalesce.antt =====
-- `coalesce` of malloclab/mm.c on a heap of blocks: a free block in no list, and what it becomes.
pub mod Both
use mathlib.Core.List.{append_assoc}
use system_programming_lab.Base.{
  ℕ, ◌+◌, ◌-◌, ◌%◌, ◌^◌, ◌≤◌, ◌<◌, ◌≡◌, ◌≢◌, ◌∙◌, sym, refl, ap, inl, inr, ◌⊎◌, true, false, List,
  [], ◌∷◌, ◌++◌, ◌==◌, arith,
}
use system_programming_lab.Malloc.Memory.{Heap, get_alloc, hdrp, ftrp, next_blkp, prev_blkp}
use system_programming_lab.Malloc.FreeList.{remove_free_block}
use system_programming_lab.Malloc.Blocks.{coalesced}
use system_programming_lab.Malloc.Layout.{
  Status, listed, loose, Block, is_used, total, tag, Tagged, Contents, KeepsPayload,
}
use system_programming_lab.Malloc.Layout.Blocks.{total-append, Tagged-right}
use system_programming_lab.Malloc.Layout.Lists.{blk}
use system_programming_lab.Malloc.Layout.Unlisting.{remove-Layout}
use system_programming_lab.Malloc.Layout.Retile.{
  NoneListed, KeepsAround, KeepsAround-of_payload, retile-Contents, retile-KeepsAround,
}
use system_programming_lab.Malloc.Layout.Neighbours.{
  starts_used, ends_used, Contents-UsedBefore, Contents-used_after, UsedBefore-alloc,
}
use system_programming_lab.Malloc.Layout.Joins.{
  tag_words, tag_words_back, coalesce_next-eq, coalesce_prev-eq, coalesce_both-eq, coalesced-none,
  coalesced-next, coalesced-prev, coalesced-both,
}

-- The removal of the second of two blocks.
remove-second :
    (h : Heap) (b : Block) (n : ℕ) (xs ys : List Block) (lists : ℕ → List ℕ)
    → h.block_list_start % 8 ≡ 0
    → 0 < h.block_list_start
    → Contents h.mem h.block_list_start (xs ++ b ∷ blk n listed ∷ ys) lists
    → (m2 : ℕ → ℕ) × (lists2 : ℕ → List ℕ) × (remove_free_block
          (h.block_list_start + 56 + total xs + b.size)
          h
        ≡ record h { mem = m2 })
      × Contents m2 h.block_list_start (xs ++ b ∷ blk n loose ∷ ys) lists2
      × KeepsPayload h.mem m2 (h.block_list_start + 56) (xs ++ b ∷ blk n listed ∷ ys)
remove-second h b n xs ys lists al pos co =
    let e = append_assoc xs (b ∷ []) (blk n listed ∷ ys) in
    let e' = append_assoc xs (b ∷ []) (blk n loose ∷ ys) in
    let tot = total-append xs (b ∷ []) in
    let place : h.block_list_start + 56 + total (xs ++ b ∷ [])
        ≡ h.block_list_start + 56 + total xs + b.size =
      omega (arith, tot) in
    let (m2, lists2, eq, co2, keeps) = remove-Layout h n (xs ++ b ∷ []) ys lists al pos (rw e co) in
    (m2, lists2, ap (λ a. remove_free_block a h) (sym place) ∙ eq, rw e' at co2, rw e at keeps)

-- The header and the footer of one block written for the blocks `mid`.
module _ (m m' : ℕ → ℕ) (start n : ℕ) (xs mid ys : List Block) (lists : ℕ → List ℕ)
    (al : start % 8 ≡ 0) (pos : 0 < start) (co : Contents m start (xs ++ (mid ++ ys)) lists)
    (none : NoneListed mid) (extent : total mid ≡ n) (least : 16 ≤ n) (mult : n % 8 ≡ 0)
    (header : m' (start + 56 + total xs - 4) ≡ n) (footer : m' (start + 56 + total xs + n - 8) ≡ n)
    (same : (q : ℕ)
      → q ≢ start + 56 + total xs - 4
      → q ≢ start + 56 + total xs + n - 8
      → m' q ≡ m q) where
  same_outside :
      (q : ℕ)
      → (q + 4 < start + 56 + total xs) ⊎ (start + 56 + total xs + total mid ≤ q + 4)
      → m' q ≡ m q
  same_outside q (inl lt) = same q (omega arith) (omega arith)
  same_outside q (inr ge) = same q (omega arith) (omega arith)

  join-Contents : Contents m' start (xs ++ blk n loose ∷ ys) lists
  join-Contents =
      retile-Contents m m' start xs mid (blk n loose ∷ []) ys lists al pos co none (refl, tt)
        (omega arith) (header, footer, least, mult, tt) same_outside

  join-KeepsAround : KeepsAround m m' (start + 56) xs n ys
  join-KeepsAround = rw (← extent) (
      retile-KeepsAround m m' start xs mid (blk n loose ∷ []) ys lists al pos co none (refl, tt)
        (omega arith) (header, footer, least, mult, tt) same_outside)

-- The block `bp` has become the one of `n` bytes between `xs` and `ys`.
abbrev pub Joined : Heap → ℕ → List Block → ℕ → List Block → Type 0
Joined h bp xs n ys =
    (m1 : ℕ → ℕ) × (lists1 : ℕ → List ℕ) × (coalesced bp h
      ≡ (h.block_list_start + 56 + total xs, record h { mem = m1 }))
    × Contents m1 h.block_list_start (xs ++ blk n loose ∷ ys) lists1
    × KeepsAround h.mem m1 (h.block_list_start + 56) xs n ys

-- The tags of a free block.
free_tags :
    (m : ℕ → ℕ) (a s : ℕ) (st : Status) (ys : List Block)
    → is_used st ≡ false
    → Tagged m a (blk s st ∷ ys)
    → (m (a - 4) ≡ s) × (m (a + s - 8) ≡ s) × (16 ≤ s) × (s % 8 ≡ 0)
free_tags m a s st ys u t = let e : tag (blk s st) ≡ s = rw u refl in (t.0 ∙ e, t.1 ∙ e, t.2, t.3)

free_size : (m : ℕ → ℕ) (q s : ℕ) → m q ≡ s → s % 8 ≡ 0 → m q - m q % 8 ≡ s
free_size m q s e mult = omega (arith, e)

module _ (h : Heap) (xs ys : List Block) (lists : ℕ → List ℕ) (al : h.block_list_start % 8 ≡ 0)
    (pos : 0 < h.block_list_start) where
  abbrev at : ℕ
  at = h.block_list_start + 56 + total xs

  pub join_none :
      (s : ℕ)
      → Contents h.mem h.block_list_start (xs ++ blk s loose ∷ ys) lists
      → ends_used xs ≡ true
      → starts_used ys ≡ true
      → Joined h at xs s ys
  join_none s co left right =
      let t = Tagged-right h.mem (h.block_list_start + 56) xs (blk s loose ∷ ys) co.tagged in
      let prev =
        UsedBefore-alloc h at (Contents-UsedBefore h.mem h.block_list_start xs _ lists co left) in
      let e = append_assoc xs (blk s loose ∷ []) ys in
      let place = total-append xs (blk s loose ∷ []) in
      let size : h.mem (at - 4) - h.mem (at - 4) % 8 ≡ s = free_size h.mem (at - 4) s t.0 t.3 in
      let after =
        Contents-used_after h.mem h.block_list_start (xs ++ blk s loose ∷ []) ys lists (rw e co)
          right in
      let next : get_alloc h (hdrp (next_blkp h at)) ≡ true =
        let there : h.block_list_start + 56 + total (xs ++ blk s loose ∷ []) - 4 ≡ at + s - 4 =
          omega (arith, place) in
        let odd : h.mem (at + s - 4) % 2 ≡ 1 = rw there at after in rw (size, odd) refl in
      (h.mem, lists, coalesced-none at h prev next, co, λ q k. refl)

  pub join_next :
      (s n : ℕ)
      → Contents h.mem h.block_list_start (xs ++ blk s loose ∷ blk n listed ∷ ys) lists
      → h.block_list_start + 56 + total (xs ++ blk s loose ∷ blk n listed ∷ ys) < 2 ^ 32
      → ends_used xs ≡ true
      → Joined h at xs (s + n) ys
  join_next s n co fits left =
      let t =
        Tagged-right h.mem (h.block_list_start + 56) xs (blk s loose ∷ blk n listed ∷ ys)
          co.tagged in
      let tot = total-append xs (blk s loose ∷ blk n listed ∷ ys) in
      let prev =
        UsedBefore-alloc h at (Contents-UsedBefore h.mem h.block_list_start xs _ lists co left) in
      let size : h.mem (at - 4) - h.mem (at - 4) % 8 ≡ s = free_size h.mem (at - 4) s t.0 t.3 in
      let size' : h.mem (at + s - 4) - h.mem (at + s - 4) % 8 ≡ n =
        free_size h.mem (at + s - 4) n t.4.0 t.4.3 in
      let even : (h.mem (at + s - 4) % 2 == 1) ≡ false = ground (arith, t.4.0, t.4.3) in
      let next : get_alloc h (hdrp (next_blkp h at)) ≡ false = rw (size, even) refl in
      let (mr, lists', removed, co', keeps) =
        remove-second h (blk s loose) n xs ys lists al pos co in
      let mid : List Block = blk s loose ∷ blk n loose ∷ [] in
      let big : 16 ≤ s + n = omega (arith, t.2) in
      let mult : (s + n) % 8 ≡ 0 = omega (arith, t.3, t.4.3) in
      let joined = tag_words mr at (s + n) (s + n) in
      let header : joined (at - 4) ≡ s + n = ground arith in
      let footer : joined (at + (s + n) - 8) ≡ s + n = ground arith in
      (
        joined,
        lists',
        coalesced-next at h prev next
            ∙ coalesce_next-eq h at s n mr size size' mult (omega (arith, fits, tot)) removed,
        join-Contents mr joined h.block_list_start (s + n) xs mid ys lists' al pos co'
            (refl, (refl, tt)) (omega arith) big mult header footer (λ q ne ne'. ground arith),
        λ q k.
            join-KeepsAround mr joined h.block_list_start (s + n) xs mid ys lists' al pos co'
              (refl, (refl, tt)) (omega arith) big mult header footer (λ q ne ne'. ground arith) q k
            ∙ KeepsAround-of_payload h.mem mr (h.block_list_start + 56) (s + n) xs
                (blk s loose ∷ blk n listed ∷ []) ys (refl, (refl, tt)) (omega arith) keeps q k,
      )

  pub join_prev :
      (p s : ℕ)
      → Contents h.mem h.block_list_start (xs ++ blk p listed ∷ blk s loose ∷ ys) lists
      → h.block_list_start + 56 + total (xs ++ blk p listed ∷ blk s loose ∷ ys) < 2 ^ 32
      → starts_used ys ≡ true
      → Joined h (at + p) xs (s + p) ys
  join_prev p s co fits right =
      let before : List Block = xs ++ blk p listed ∷ blk s loose ∷ ys in
      let t =
        Tagged-right h.mem (h.block_list_start + 56) xs (blk p listed ∷ blk s loose ∷ ys)
          co.tagged in
      let tot = total-append xs (blk p listed ∷ blk s loose ∷ ys) in
      let e = append_assoc xs (blk p listed ∷ blk s loose ∷ []) ys in
      let place = total-append xs (blk p listed ∷ blk s loose ∷ []) in
      let size_p : h.mem (at - 4) - h.mem (at - 4) % 8 ≡ p = free_size h.mem (at - 4) p t.0 t.3 in
      let size_f : h.mem (at + p - 8) - h.mem (at + p - 8) % 8 ≡ p =
        free_size h.mem (at + p - 8) p t.1 t.3 in
      let size_s : h.mem (at + p - 4) - h.mem (at + p - 4) % 8 ≡ s =
        free_size h.mem (at + p - 4) s t.4.0 t.4.3 in
      let back : at + p - p ≡ at = omega arith in
      let even : (h.mem (at + p - 8) % 2 == 1) ≡ false = ground (arith, t.1, t.3) in
      let prev : get_alloc h (ftrp h (prev_blkp h (at + p))) ≡ false =
        rw (size_f, back, size_p, even) refl in
      let after =
        Contents-used_after h.mem h.block_list_start (xs ++ blk p listed ∷ blk s loose ∷ []) ys
          lists (rw e co) right in
      let next : get_alloc h (hdrp (next_blkp h (at + p))) ≡ true =
        let there : h.block_list_start + 56 + total (xs ++ blk p listed ∷ blk s loose ∷ []) - 4
            ≡ at + p + s - 4 =
          omega (arith, place) in
        let odd : h.mem (at + p + s - 4) % 2 ≡ 1 = rw there at after in rw (size_s, odd) refl in
      let (mr, lists', removed, co', keeps) =
        remove-Layout h p xs (blk s loose ∷ ys) lists al pos co in
      let u =
        Tagged-right mr (h.block_list_start + 56) xs (blk p loose ∷ blk s loose ∷ ys) co'.tagged in
      let mid : List Block = blk p loose ∷ blk s loose ∷ [] in
      let big : 16 ≤ s + p = omega (arith, t.2) in
      let mult : (s + p) % 8 ≡ 0 = omega (arith, t.3, t.4.3) in
      let joined = tag_words_back mr at (s + p) (s + p) in
      let header : joined (at - 4) ≡ s + p = ground arith in
      let footer : joined (at + (s + p) - 8) ≡ s + p = ground arith in
      (
        joined,
        lists',
        coalesced-prev (at + p) h prev next
            ∙ coalesce_prev-eq h at p s mr size_s size_f size_p mult (omega (arith, fits, tot))
                removed (free_size mr (at + p - 4) s u.4.0 u.4.3)
                (free_size mr (at + p - 8) p u.1 u.3) (omega (arith, t.4.2)) (omega (arith, t.2))
                (omega arith),
        join-Contents mr joined h.block_list_start (s + p) xs mid ys lists' al pos co'
            (refl, (refl, tt)) (omega arith) big mult header footer (λ q ne ne'. ground arith),
        λ q k.
            join-KeepsAround mr joined h.block_list_start (s + p) xs mid ys lists' al pos co'
              (refl, (refl, tt)) (omega arith) big mult header footer (λ q ne ne'. ground arith) q k
            ∙ KeepsAround-of_payload h.mem mr (h.block_list_start + 56) (s + p) xs
                (blk p listed ∷ blk s loose ∷ []) ys (refl, (refl, tt)) (omega arith) keeps q k,
      )
