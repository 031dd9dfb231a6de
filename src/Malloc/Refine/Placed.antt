-- ===== src/Malloc/Refine/Placed.antt =====
-- `place` of malloclab/mm.c on a heap of blocks.
use mathlib.Core.List.{append_assoc}
use system_programming_lab.Base.{
  ℕ, ◌+◌, ◌-◌, ◌%◌, ◌^◌, ◌≤◌, ◌<◌, ◌≡◌, ◌∙◌, sym, refl, ap, inl, inr, ◌⊎◌, true, ◌&&◌, ◌||◌, some,
  List, [], ◌∷◌, ◌++◌, ltb, leb, leb→le, Bool-cases, length, length-append, arith,
}
use system_programming_lab.Malloc.Memory.{Heap, get_size}
use system_programming_lab.Malloc.FreeList.{remove_free_block}
use system_programming_lab.Malloc.Blocks.{coalesce, place}
use system_programming_lab.Malloc.Layout.{
  used, listed, loose, Block, total, Tagged, Contents, is_payload, KeepsPayload,
}
use system_programming_lab.Malloc.Layout.Blocks.{
  total-append, Tagged-right, is_payload-append, or-true, or-left, or-right,
}
use system_programming_lab.Malloc.Layout.Lists.{blk}
use system_programming_lab.Malloc.Layout.Unlisting.{remove-Layout}
use system_programming_lab.Malloc.Layout.Retile.{
  retile-Contents, retile-KeepsAround, KeepsAround, KeepsAround-of_payload, KeepsPayload-of_around,
}
use system_programming_lab.Malloc.Layout.Settled.{IsSettled, allocs, allocs-append, IsSettled-right}
use system_programming_lab.Malloc.Layout.Joins.{tag_words}
use system_programming_lab.Malloc.Layout.Merge.{Coalesced, coalesce-Coalesced}
use system_programming_lab.Malloc.Refine.Place.{
  IsSettled-used, tag_words-same, split_words, split_words-same, split_words-Tagged,
  place-placed_in, placed_in, placed_in-whole, placed_in-split,
}

-- What `place` makes of the listed block of `c` bytes between `xs` and `ys`.
pub record Placed (fuel : ℕ) (h : Heap) (xs : List Block) (c : ℕ) (ys : List Block) (asize : ℕ)
    : Type 0 where
  pub size : ℕ
  pub blocks : List Block
  pub memory : ℕ → ℕ
  pub lists : ℕ → List ℕ
  pub result :
      place fuel (h.block_list_start + 56 + total xs) asize h ≡ some (record h { mem = memory })
  pub contents : Contents memory h.block_list_start blocks lists
  pub settled : IsSettled blocks
  pub extent : total blocks ≡ total (xs ++ blk c listed ∷ ys)
  pub room : asize ≤ size
  pub new_allocs :
      allocs (h.block_list_start + 56) blocks
      ≡ allocs (h.block_list_start + 56) xs
        ++ (h.block_list_start + 56 + total xs, size)
          ∷ allocs (h.block_list_start + 56 + total xs + c) ys
  pub keeps : KeepsPayload h.mem memory (h.block_list_start + 56) (xs ++ blk c listed ∷ ys)
  pub longer : length blocks ≤ length (xs ++ blk c listed ∷ ys) + 1

module _ (fuel : ℕ) (h : Heap) (xs : List Block) (c : ℕ) (ys : List Block) (lists : ℕ → List ℕ)
    (asize : ℕ) (al : h.block_list_start % 8 ≡ 0) (pos : 0 < h.block_list_start)
    (fits : h.block_list_start + 56 + total (xs ++ blk c listed ∷ ys) < 2 ^ 32)
    (co : Contents h.mem h.block_list_start (xs ++ blk c listed ∷ ys) lists)
    (st : IsSettled (xs ++ blk c listed ∷ ys)) (f : length (xs ++ blk c listed ∷ ys) + 1 < fuel)
    (mult : asize % 8 ≡ 0) (least : 16 ≤ asize) (room : asize ≤ c) where
  abbrev a : ℕ
  a = h.block_list_start + 56

  abbrev at : ℕ
  at = a + total xs

  abbrev mr : ℕ → ℕ
  mr = (remove-Layout h c xs ys lists al pos co).0

  abbrev l1 : ℕ → List ℕ
  l1 = (remove-Layout h c xs ys lists al pos co).1

  removed : remove_free_block at h ≡ record h { mem = mr }
  removed = (remove-Layout h c xs ys lists al pos co).2

  co1 : Contents mr h.block_list_start (xs ++ blk c loose ∷ ys) l1
  co1 = (remove-Layout h c xs ys lists al pos co).3

  keeps1 : KeepsAround h.mem mr a xs c ys
  keeps1 =
      KeepsAround-of_payload h.mem mr a c xs (blk c listed ∷ []) ys (refl, tt) (omega arith)
        (remove-Layout h c xs ys lists al pos co).4

  tags : Tagged h.mem at (blk c listed ∷ ys)
  tags = Tagged-right h.mem a xs (blk c listed ∷ ys) co.tagged

  below : c < 2 ^ 32
  below = let e = total-append xs (blk c listed ∷ ys) in omega (arith, e, fits)

  place-eq : place fuel at asize h ≡ placed_in fuel at asize c (record h { mem = mr })
  place-eq =
      let size : get_size h (at - 4) ≡ c = omega (arith, tags.0, tags.3) in
      place-placed_in fuel at asize h
      ∙ ap (λ n. placed_in fuel at asize n (remove_free_block at h)) size
      ∙ ap (placed_in fuel at asize c) removed

  place_whole : c < asize + 16 → Placed fuel h xs c ys asize
  place_whole less =
      let m1 : ℕ → ℕ = tag_words mr at c (c + 1) in
      let header : m1 (at - 4) ≡ c + 1 = ground arith in
      let footer : m1 (at + c - 8) ≡ c + 1 = ground arith in
      let t : Tagged m1 at (blk c used ∷ []) = (header, footer, tags.2, tags.3, tt) in
      let same = λ (q : ℕ) (o : (q + 4 < at) ⊎ (at + (c + 0) ≤ q + 4)).
        tag_words-same mr at c (c + 1) q (omega arith) tags.2
          (elim o [ inl lt ↦ inl lt | inr ge ↦ inr (omega (arith, ge)) ]) in
      let around : KeepsAround mr m1 a xs (c + 0) ys =
        retile-KeepsAround mr m1 h.block_list_start xs (blk c loose ∷ []) (blk c used ∷ []) ys l1 al
          pos co1 (refl, tt) (refl, tt) refl t same in
      let e = total-append xs (blk c listed ∷ ys) in
      let e' = total-append xs (blk c used ∷ ys) in
      let k = length-append xs (blk c listed ∷ ys) in
      let k' = length-append xs (blk c used ∷ ys) in
      record {
        size = c;
        blocks = xs ++ blk c used ∷ ys;
        memory = m1;
        lists = l1;
        result =
            place-eq
            ∙ placed_in-whole fuel at asize c (record h { mem = mr }) below tags.3 room less;
        contents =
            retile-Contents mr m1 h.block_list_start xs (blk c loose ∷ []) (blk c used ∷ []) ys l1
              al pos co1 (refl, tt) (refl, tt) refl t same;
        settled = IsSettled-used c c xs ys ys st (IsSettled-right xs (blk c listed ∷ ys) st).1;
        extent = omega (arith, e, e');
        room = room;
        new_allocs = allocs-append a xs (blk c used ∷ ys);
        keeps =
            KeepsPayload-of_around h.mem m1 a (c + 0) xs (blk c listed ∷ []) ys (refl, tt) refl
              λ q o.
                around q o
                ∙ KeepsAround-of_payload h.mem mr a (c + 0) xs (blk c listed ∷ []) ys (refl, tt)
                    refl (remove-Layout h c xs ys lists al pos co).4 q o;
        longer = omega (arith, k, k');
      }

  module _ (enough : asize + 16 ≤ c) where
    abbrev r : ℕ
    r = c - asize

    abbrev m1 : ℕ → ℕ
    m1 = split_words mr at asize r

    abbrev head : List Block
    head = xs ++ blk asize used ∷ []

    parts : List Block
    parts = blk asize used ∷ blk r loose ∷ []

    split_tags : Tagged m1 at (blk asize used ∷ blk r loose ∷ [])
    split_tags =
        split_words-Tagged mr at asize r (omega arith) least (omega arith) mult
          (omega (arith, mult, tags.3))

    outside : (q : ℕ) → (q + 4 < at) ⊎ (at + (c + 0) ≤ q + 4) → m1 q ≡ mr q
    outside q (inl lt) = split_words-same mr at asize r q (omega arith) least (omega arith) (inl lt)
    outside q (inr ge) =
        split_words-same mr at asize r q (omega arith) least (omega arith)
          (inr (omega (arith, ge, room)))

    split-Contents : Contents m1 h.block_list_start (head ++ blk r loose ∷ ys) l1
    split-Contents = rw (append_assoc xs (blk asize used ∷ []) (blk r loose ∷ ys)) (
        retile-Contents mr m1 h.block_list_start xs (blk c loose ∷ [])
          (blk asize used ∷ blk r loose ∷ []) ys l1 al pos co1 (refl, tt) (refl, (refl, tt))
          (omega arith) split_tags outside)

    split_around : KeepsAround mr m1 a xs c ys
    split_around q o =
        retile-KeepsAround mr m1 h.block_list_start xs (blk c loose ∷ [])
          (blk asize used ∷ blk r loose ∷ []) ys l1 al pos co1 (refl, tt) (refl, (refl, tt))
          (omega arith) split_tags outside q
          (ap (λ n. is_payload q a xs || is_payload q (at + n) ys) (omega arith) ∙ o)

    head-total : total head ≡ total xs + asize
    head-total = omega (arith, total-append xs (blk asize used ∷ []))

    same_length : length (head ++ blk r loose ∷ ys) ≡ length (xs ++ blk c listed ∷ ys) + 1
    same_length =
        let k = length-append xs (blk c listed ∷ ys) in
        let k' = length-append xs (blk asize used ∷ []) in
        let k2 = length-append head (blk r loose ∷ ys) in omega (arith, k, k', k2)

    same_extent : total (head ++ blk r loose ∷ ys) ≡ total (xs ++ blk c listed ∷ ys)
    same_extent =
        let e = total-append xs (blk c listed ∷ ys) in
        let e2 = total-append head (blk r loose ∷ ys) in omega (arith, e, e2, head-total)

    rest : Coalesced fuel (record h { mem = m1 }) head r ys
    rest =
        coalesce-Coalesced fuel (record h { mem = m1 }) head r ys l1 al pos
          (omega (arith, same_extent, fits)) (omega (arith, same_length, f)) split-Contents
          (IsSettled-used asize c xs ys [] st tt) (IsSettled-right xs (blk c listed ∷ ys) st).1

    split_allocs :
        allocs a (head ++ blk r loose ∷ ys) ≡ allocs a xs ++ (at, asize) ∷ allocs (at + c) ys
    split_allocs =
        let whole = append_assoc xs (blk asize used ∷ []) (blk r loose ∷ ys) in
        let end : at + asize + r ≡ at + c = omega arith in
        ap (allocs a) whole
        ∙ allocs-append a xs (blk asize used ∷ blk r loose ∷ ys)
        ∙ ap (λ n. allocs a xs ++ (at, asize) ∷ allocs n ys) end

    -- A payload around the block is one of the blocks after the split.
    payload_after :
        (q : ℕ)
        → (is_payload q a xs || is_payload q (at + c) ys) ≡ true
        → is_payload q a (head ++ blk r loose ∷ ys) ≡ true
    payload_after q o =
        let end : at + asize + r ≡ at + c = omega arith in
        let whole = append_assoc xs (blk asize used ∷ []) (blk r loose ∷ ys) in
        let there = is_payload-append q a xs (blk asize used ∷ blk r loose ∷ ys) in
        ap (is_payload q a) whole ∙ there ∙ elim (or-true (is_payload q a xs) _ o) [
          | inl k ↦ or-left (is_payload q a xs) _ k
          | inr k ↦ or-right (is_payload q a xs) _ (
              or-right ((leb at q) && (ltb q (at + asize - 8))) _
                (ap (λ n. is_payload q n ys) end ∙ k))
        ]

    place_split : Placed fuel h xs c ys asize
    place_split =
        let bp : h.block_list_start + 56 + total head ≡ at + asize = omega (arith, head-total) in
        record {
          size = asize;
          blocks = rest.front ++ blk (rest.size) listed ∷ rest.back;
          memory = rest.memory;
          lists = rest.lists;
          result =
              place-eq
              ∙ placed_in-split fuel at asize c (record h { mem = mr }) _
                  (record h { mem = rest.memory }) below mult tags.3 least enough
                  (ap (λ n. coalesce fuel n (record h { mem = m1 })) (sym bp) ∙ rest.result);
          contents = rest.contents;
          settled = rest.settled;
          extent = rest.extent ∙ same_extent;
          room = omega arith;
          new_allocs = rest.same_allocs ∙ split_allocs;
          keeps =
              KeepsPayload-of_around h.mem rest.memory a c xs (blk c listed ∷ []) ys (refl, tt)
                (omega arith)
                λ q o. rest.keeps q (payload_after q o) ∙ split_around q o ∙ keeps1 q o;
          longer = omega (arith, rest.shorter, same_length);
        }

  -- `place` splits the block or takes it whole.
  pub place-Placed : Placed fuel h xs c ys asize
  place-Placed = elim (Bool-cases (leb (asize + 16) c)) [
    | inl big ↦ place_split (leb→le (asize + 16) c big)
    | inr small ↦ place_whole (ground arith)
  ]
