-- ===== src/Malloc/Layout/Coalesce/Both.antt =====
-- `coalesce` of malloclab/mm.c for a free block between two others.
use mathlib.Core.List.{append_assoc}
use system_programming_lab.Base.{
  ℕ, ◌+◌, ◌-◌, ◌%◌, ◌^◌, ◌≤◌, ◌<◌, ◌≡◌, ◌∙◌, sym, refl, ap, false, List, [], ◌∷◌, ◌++◌, ◌==◌, arith,
}
use system_programming_lab.Malloc.Memory.{Heap, get_alloc, hdrp, ftrp, next_blkp, prev_blkp}
use system_programming_lab.Malloc.FreeList.{remove_free_block}
use system_programming_lab.Malloc.Layout.{listed, loose, Block, total, Tagged, Contents}
use system_programming_lab.Malloc.Layout.Blocks.{total-append, Tagged-right}
use system_programming_lab.Malloc.Layout.Lists.{blk}
use system_programming_lab.Malloc.Layout.Unlisting.{remove-Layout}
use system_programming_lab.Malloc.Layout.Retile.{KeepsAround, KeepsAround-of_payload}
use system_programming_lab.Malloc.Layout.Joins.{tag_words_back, coalesce_both-eq, coalesced-both}
use system_programming_lab.Malloc.Layout.Coalesce.{
  remove-second, join-Contents, join-KeepsAround, free_size, Joined,
}

module _ (h : Heap) (xs ys : List Block) (lists : ℕ → List ℕ) (al : h.block_list_start % 8 ≡ 0)
    (pos : 0 < h.block_list_start) where
  abbrev at : ℕ
  at = h.block_list_start + 56 + total xs

  -- Both neighbours leave their lists.
  remove_both :
      (p s n : ℕ)
      → Contents h.mem h.block_list_start
          (xs ++ blk p listed ∷ blk s loose ∷ blk n listed ∷ ys)
          lists
      → (mp mr : ℕ → ℕ) × (lists' : ℕ → List ℕ) × (remove_free_block at h ≡ record h { mem = mp })
        × Tagged mp at (blk p loose ∷ blk s loose ∷ blk n listed ∷ ys)
        × (remove_free_block (at + p + s) (record h { mem = mp }) ≡ record h { mem = mr })
        × Contents mr h.block_list_start (xs ++ blk p loose ∷ blk s loose ∷ blk n loose ∷ ys) lists'
        × KeepsAround h.mem mr (h.block_list_start + 56) xs (s + n + p) ys
  remove_both p s n co =
      let (mp, lists1, removed, co1, keeps1) =
        remove-Layout h p xs (blk s loose ∷ blk n listed ∷ ys) lists al pos co in
      let h1 : Heap = record h { mem = mp } in
      let e = append_assoc xs (blk p loose ∷ []) (blk s loose ∷ blk n listed ∷ ys) in
      let e' = append_assoc xs (blk p loose ∷ []) (blk s loose ∷ blk n loose ∷ ys) in
      let tot = total-append xs (blk p loose ∷ []) in
      let place : h.block_list_start + 56 + total (xs ++ blk p loose ∷ []) + s ≡ at + p + s =
        omega (arith, tot) in
      let (mr, lists2, removed', co2, keeps2) =
        remove-second h1 (blk s loose) n (xs ++ blk p loose ∷ []) ys lists1 al pos (rw e co1) in
      (
        mp,
        mr,
        lists2,
        removed,
        Tagged-right mp (h.block_list_start + 56) xs (blk p loose ∷ blk s loose ∷ blk n listed ∷ ys)
            co1.tagged,
        ap (λ a. remove_free_block a h1) (sym place) ∙ removed',
        rw e' at co2,
        λ q k.
            KeepsAround-of_payload mp mr (h.block_list_start + 56) (s + n + p) xs
              (blk p loose ∷ blk s loose ∷ blk n listed ∷ []) ys (refl, (refl, (refl, tt)))
              (omega arith) (rw e at keeps2) q k
            ∙ KeepsAround-of_payload h.mem mp (h.block_list_start + 56) (s + n + p) xs
                (blk p listed ∷ blk s loose ∷ blk n listed ∷ []) ys (refl, (refl, (refl, tt)))
                (omega arith) keeps1 q k,
      )

  pub join_both :
      (p s n : ℕ)
      → Contents h.mem h.block_list_start
          (xs ++ blk p listed ∷ blk s loose ∷ blk n listed ∷ ys)
          lists
      → h.block_list_start + 56 + total (xs ++ blk p listed ∷ blk s loose ∷ blk n listed ∷ ys)
        < 2 ^ 32
      → Joined h (at + p) xs (s + n + p) ys
  join_both p s n co fits =
      let t =
        Tagged-right h.mem (h.block_list_start + 56) xs
          (blk p listed ∷ blk s loose ∷ blk n listed ∷ ys) co.tagged in
      let tot = total-append xs (blk p listed ∷ blk s loose ∷ blk n listed ∷ ys) in
      let size_p : h.mem (at - 4) - h.mem (at - 4) % 8 ≡ p = free_size h.mem (at - 4) p t.0 t.3 in
      let size_f : h.mem (at + p - 8) - h.mem (at + p - 8) % 8 ≡ p =
        free_size h.mem (at + p - 8) p t.1 t.3 in
      let size_s : h.mem (at + p - 4) - h.mem (at + p - 4) % 8 ≡ s =
        free_size h.mem (at + p - 4) s t.4.0 t.4.3 in
      let size_n : h.mem (at + p + s - 4) - h.mem (at + p + s - 4) % 8 ≡ n =
        free_size h.mem (at + p + s - 4) n t.4.4.0 t.4.4.3 in
      let size_l : h.mem (at + p + s + n - 8) - h.mem (at + p + s + n - 8) % 8 ≡ n =
        free_size h.mem (at + p + s + n - 8) n t.4.4.1 t.4.4.3 in
      let back : at + p - p ≡ at = omega arith in
      let even : (h.mem (at + p - 8) % 2 == 1) ≡ false = ground (arith, t.1, t.3) in
      let even' : (h.mem (at + p + s - 4) % 2 == 1) ≡ false = ground (arith, t.4.4.0, t.4.4.3) in
      let prev : get_alloc h (ftrp h (prev_blkp h (at + p))) ≡ false =
        rw (size_f, back, size_p, even) refl in
      let next : get_alloc h (hdrp (next_blkp h (at + p))) ≡ false = rw (size_s, even') refl in
      let (mp, mr, lists', removed, v, removed', co', keeps) = remove_both p s n co in
      let u =
        Tagged-right mr (h.block_list_start + 56) xs (blk p loose ∷ blk s loose ∷ blk n loose ∷ ys)
          co'.tagged in
      let mid : List Block = blk p loose ∷ blk s loose ∷ blk n loose ∷ [] in
      let big : 16 ≤ s + n + p = omega (arith, t.2) in
      let mult : (s + n + p) % 8 ≡ 0 = omega (arith, t.3, t.4.3, t.4.4.3) in
      let joined = tag_words_back mr at (s + n + p) (s + n + p) in
      let header : joined (at - 4) ≡ s + n + p = ground arith in
      let footer : joined (at + (s + n + p) - 8) ≡ s + n + p = ground arith in
      (
        joined,
        lists',
        coalesced-both (at + p) h prev next
            ∙ coalesce_both-eq h at p s n mp mr size_s size_f size_p size_n size_l mult
                (omega (arith, fits, tot)) removed (free_size mp (at + p - 4) s v.4.0 v.4.3)
                removed' (free_size mr (at + p - 4) s u.4.0 u.4.3)
                (free_size mr (at + p + s - 4) n u.4.4.0 u.4.4.3)
                (free_size mr (at + p - 8) p u.1 u.3) (omega (arith, t.4.2)) (omega (arith, t.2))
                (omega arith),
        join-Contents mr joined h.block_list_start (s + n + p) xs mid ys lists' al pos co'
            (refl, (refl, (refl, tt))) (omega arith) big mult header footer
            (λ q ne ne'. ground arith),
        λ q k.
            join-KeepsAround mr joined h.block_list_start (s + n + p) xs mid ys lists' al pos co'
              (refl, (refl, (refl, tt))) (omega arith) big mult header footer
              (λ q ne ne'. ground arith) q k
            ∙ keeps q k,
      )
