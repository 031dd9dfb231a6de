-- ===== src/Malloc/Layout/Unlisting.antt =====
-- `remove_free_block` on a heap of blocks: a listed block gets out of the list of its category.
use system_programming_lab.Base.{
  ℕ, ◌+◌, ◌*◌, ◌%◌, ◌≤◌, ◌<◌, ◌≡◌, ◌≢◌, ◌∙◌, sym, refl, ap, List, [], ◌∷◌, ◌++◌, ==_refl, length,
  length-append, arith,
}
use system_programming_lab.Malloc.Memory.{Heap}
use system_programming_lab.Malloc.FreeList.{free_category, remove_free_block}
use system_programming_lab.Malloc.FreeList.Chain.{
  Chain, IsPlace, IsOut, Places, NoLink, All-left, All-right, All-join,
}
use system_programming_lab.Malloc.FreeList.Sorted.{size_of, IsSortedBy}
use system_programming_lab.Malloc.FreeList.Remove.{
  removed-Chain, removed-same, remove_free_block-eq, Places-at,
}
use system_programming_lab.Malloc.Fit.{categories}
use system_programming_lab.Malloc.Layout.{
  listed, loose, Block, total, Tagged, listed_at, listed_count, has, size_in, Contents, replace,
  KeepsPayload,
}
use system_programming_lab.Malloc.Layout.Lists.{blk, total-status, Tagged-free, split_at}
use system_programming_lab.Malloc.Layout.Links.{
  Places-lower, links-KeepsPayload, links-Tagged, links-before, links-behind, links-Chain,
  links-sorted,
}
use system_programming_lab.Malloc.Layout.Moves.{
  at_p, small, at_listed, other_category, without_block, counted, unlink_block-mem,
}
use system_programming_lab.Malloc.Layout.Listing.{replace_all}

IsSortedBy-remove :
    (sz : ℕ → ℕ) (p : ℕ) (us vs : List ℕ) → IsSortedBy sz (us ++ p ∷ vs) → IsSortedBy sz (us ++ vs)
IsSortedBy-remove sz p [] vs s = s.1
IsSortedBy-remove sz p (u ∷ us) vs s = (
  All-join (λ (y : ℕ). sz u ≤ sz y) us vs (All-left (λ (y : ℕ). sz u ≤ sz y) us (p ∷ vs) s.0)
      (All-right (λ (y : ℕ). sz u ≤ sz y) us (p ∷ vs) s.0).1,
  IsSortedBy-remove sz p us vs s.1,
)

module _ (h : Heap) (s : ℕ) (xs ys : List Block) (lists : ℕ → List ℕ)
    (al : h.block_list_start % 8 ≡ 0) (pos : 0 < h.block_list_start)
    (co : Contents h.mem h.block_list_start (xs ++ blk s listed ∷ ys) lists) where
  abbrev start : ℕ
  start = h.block_list_start

  abbrev x : ℕ
  x = start + 56 + total xs

  abbrev i : ℕ
  i = free_category (size_of h x)

  abbrev before : List Block
  before = xs ++ blk s listed ∷ ys

  abbrev after : List Block
  after = xs ++ blk s loose ∷ ys

  t_loose : Tagged h.mem (start + 56) after
  t_loose = Tagged-free h.mem (start + 56) s listed loose xs ys refl refl co.tagged

  i_small : i < categories
  i_small = small h s xs ys al pos t_loose

  at_x : (size_of h x ≡ s) × (x % 8 ≡ 0) × (start + 56 ≤ x)
  at_x = at_p h s xs ys al pos t_loose

  x_in : (us : List ℕ) × (vs : List ℕ) × (lists i ≡ us ++ x ∷ vs)
  x_in =
      split_at x (lists i)
        (co.members i i_small x ∙ at_listed h s xs ys al pos t_loose i ∙ ==_refl i)

  module _ (us vs : List ℕ) (e : lists i ≡ us ++ x ∷ vs) where
    abbrev m' : ℕ → ℕ
    m' = (remove_free_block x h).mem

    abbrev lists' : ℕ → List ℕ
    lists' = replace lists i (us ++ vs)

    places : Places (start + 40) (us ++ x ∷ vs)
    places = rw e at (co.places i i_small)

    chain : Chain h.mem 0 (h.mem (start + i * 4)) (us ++ x ∷ vs)
    chain = rw e at (co.chains i i_small)

    above_root : Places (start + i * 4) (us ++ x ∷ vs)
    above_root =
        Places-lower (start + 40) (start + i * 4) (us ++ x ∷ vs) (omega (arith, i_small)) places

    same_memory : (q : ℕ) → q ≢ 0 → q ≢ start + i * 4 → NoLink (us ++ x ∷ vs) q → m' q ≡ h.mem q
    same_memory = removed-same h x us vs (omega arith) (omega arith) above_root chain

    x_members : (y : ℕ) → has y (us ++ x ∷ vs) ≡ listed_at y i (start + 56) before
    x_members y = ap (has y) (sym e) ∙ co.members i i_small y

    split : IsPlace (start + 40) x × IsOut x (us ++ vs) × Places (start + 40) (us ++ vs)
    split = Places-at (start + 40) x us vs places

    new_members :
        (j : ℕ) → j < categories → (y : ℕ) → has y (lists' j) ≡ listed_at y j (start + 56) after
    new_members j lt =
        replace_all (λ k l. k < categories → (y : ℕ) → has y l ≡ listed_at y k (start + 56) after)
          lists i (us ++ vs) (λ lt'. without_block h s xs ys al pos t_loose us vs split.1 x_members)
          (λ k ne lt' y. co.members k lt' y ∙ sym (other_category h s xs ys al pos t_loose k y ne))
          j lt

    -- The heap with the block in no list.
    remove-Contents : Contents m' start after lists'
    remove-Contents =
        let L : List ℕ = us ++ x ∷ vs in
        let tot = total-status s loose listed xs ys in
        let pre =
          links-before h.mem m' start i before L al pos i_small co.tagged places x_members
            same_memory in
        let cnt = counted h s xs ys al pos t_loose in
        record {
          prologue = (
            pre (start + 44) (omega arith) (omega arith) ∙ co.prologue.0,
            pre (start + 48) (omega arith) (omega arith) ∙ co.prologue.1,
          );
          epilogue =
              links-behind h.mem m' start i before L al pos i_small co.tagged places x_members
                same_memory (start + 52 + total after) (omega (arith, tot))
              ∙ ap (λ n. h.mem (start + 52 + n)) tot
              ∙ co.epilogue;
          tagged = Tagged-free m' (start + 56) s listed loose xs ys refl refl (
              links-Tagged h.mem m' start i before L al pos i_small co.tagged places x_members
                same_memory);
          chains =
              replace_all (λ k l. k < categories → Chain m' 0 (m' (start + k * 4)) l) lists i
                (us ++ vs)
                (λ lt. removed-Chain h x us vs (omega arith) (omega arith) above_root chain)
                (λ k ne lt.
                  links-Chain h.mem m' start i before L al pos i_small co.tagged places x_members
                    same_memory k (lists k) ne lt (co.members k lt) (co.chains k lt));
          places =
              replace_all (λ k l. k < categories → Places (start + 40) l) lists i (us ++ vs)
                (λ lt. split.2) (λ k ne lt. co.places k lt);
          sorted =
              replace_all (λ k l. k < categories → IsSortedBy (size_in m') l) lists i (us ++ vs)
                (λ lt. IsSortedBy-remove (size_in m') x us vs (
                  links-sorted h.mem m' start i before L al pos i_small co.tagged places x_members
                    same_memory i L (λ y k. sym (x_members y) ∙ k) (rw e at (co.sorted i i_small))))
                (λ k ne lt.
                  links-sorted h.mem m' start i before L al pos i_small co.tagged places x_members
                    same_memory k (lists k) (λ y k'. sym (co.members k lt y) ∙ k')
                    (co.sorted k lt));
          members = new_members;
          lengths =
              replace_all (λ k l. k < categories → length l ≤ listed_count k after) lists i
                (us ++ vs)
                (λ lt.
                  let n = co.lengths i i_small in
                  let n' = ap length e ∙ length-append us (x ∷ vs) in
                  let n2 = length-append us vs in
                  let r = ==_refl i in ground (arith, n, n', n2, cnt i))
                (λ k ne lt. ground (arith, co.lengths k lt, cnt k));
        }

    remove-eq : remove_free_block x h ≡ record h { mem = m' }
    remove-eq =
        let z = remove_free_block-eq h x us vs chain in
        z ∙ unlink_block-mem _ x _ _ h ∙ ap (λ (g : Heap). record h { mem = g.mem }) (sym z)

  pub remove-Layout :
      (m2 : ℕ → ℕ) × (lists2 : ℕ → List ℕ) × (remove_free_block x h ≡ record h { mem = m2 })
      × Contents m2 start after lists2
      × KeepsPayload h.mem m2 (start + 56) before
  remove-Layout =
      let (us, vs, e) = x_in in
      (
        m' us vs e,
        lists' us vs e,
        remove-eq us vs e,
        remove-Contents us vs e,
        links-KeepsPayload h.mem (m' us vs e) start i before (us ++ x ∷ vs) al pos i_small co.tagged
            (places us vs e) (x_members us vs e) (same_memory us vs e),
      )
