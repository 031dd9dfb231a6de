-- ===== src/Malloc/Layout/Listing.antt =====
-- `insert_free_block` on a heap of blocks: a free block that is in no list gets into the list of its
-- category.
use system_programming_lab.Base.{
  ℕ, ◌+◌, ◌*◌, ◌%◌, ◌≤◌, ◌<◌, ◌≡◌, ◌≢◌, ◌∙◌, sym, ap, inl, inr, some, List, [], ◌∷◌, ◌++◌, ◌==◌,
  Bool-cases, length, arith,
}
use system_programming_lab.Malloc.Memory.{Heap}
use system_programming_lab.Malloc.FreeList.{free_category, insert_free_block}
use system_programming_lab.Malloc.FreeList.Chain.{
  Chain, IsPlace, IsOut, Places, NoLink, All-left, All-right, All-join,
}
use system_programming_lab.Malloc.FreeList.Sorted.{
  size_of, insert_by, IsSortedBy, insert_by-IsSortedBy, smaller, not_smaller, smaller-append,
}
use system_programming_lab.Malloc.FreeList.Insert.{
  inserted, inserted-Chain, inserted-same, insert_free_block-eq,
}
use system_programming_lab.Malloc.Fit.{categories}
use system_programming_lab.Malloc.Layout.{
  listed, loose, Block, total, Tagged, listed_at, listed_count, has, size_in, Contents, replace,
  KeepsPayload,
}
use system_programming_lab.Malloc.Layout.Lists.{
  blk, total-status, IsOut-of_has, has-insert_by, listed_count-le, length-insert_by,
}
use system_programming_lab.Malloc.Layout.Links.{
  Places-lower, links-KeepsPayload, links-Tagged, links-before, links-behind, links-Chain,
  links-sorted,
}
use system_programming_lab.Malloc.Layout.Moves.{
  p, c, at_p, small, t_listed, at_loose, other_category, with_block, counted, link_block-mem,
}

-- A property of all lists, for lists of which one is replaced.
pub replace_all :
    (P : ℕ → List ℕ → Type 0) (lists : ℕ → List ℕ) (c : ℕ) (new : List ℕ)
    → P c new
    → ((j : ℕ) → j ≢ c → P j (lists j))
    → (j : ℕ) → P j (replace lists c new j)
replace_all P lists c new at_c others j = elim (Bool-cases (j == c)) [
  | inl e ↦ let e' : c ≡ j = ground arith in rw e (rw e' at at_c)
  | inr ne ↦ rw ne (others j (ground arith))
]

Places-insert :
    (root p : ℕ) (ys zs : List ℕ)
    → Places root (ys ++ zs)
    → IsPlace root p
    → IsOut p (ys ++ zs)
    → Places root (ys ++ p ∷ zs)
Places-insert root p [] zs t a o = (a, o, t)
Places-insert root p (y ∷ ys) zs t a o = (
  t.0,
  All-join (λ (w : ℕ). w ≢ y) ys (p ∷ zs) (All-left (λ (w : ℕ). w ≢ y) ys zs t.1)
      ((λ e. o.0 (sym e)), All-right (λ (w : ℕ). w ≢ y) ys zs t.1),
  Places-insert root p ys zs t.2 a o.1,
)

pub Places-insert_by :
    (root : ℕ) (sz : ℕ → ℕ) (p : ℕ) (xs : List ℕ)
    → Places root xs
    → IsPlace root p
    → IsOut p xs
    → Places root (insert_by sz p xs)
Places-insert_by root sz p xs t a o =
    Places-insert root p (smaller sz (sz p) xs) (not_smaller sz (sz p) xs)
      (rw (smaller-append sz (sz p) xs) t) a (rw (smaller-append sz (sz p) xs) o)

module _ (h : Heap) (s : ℕ) (xs ys : List Block) (lists : ℕ → List ℕ)
    (al : h.block_list_start % 8 ≡ 0) (pos : 0 < h.block_list_start)
    (co : Contents h.mem h.block_list_start (xs ++ blk s loose ∷ ys) lists) where
  abbrev start : ℕ
  start = h.block_list_start

  abbrev x : ℕ
  x = start + 56 + total xs

  abbrev i : ℕ
  i = free_category (size_of h x)

  abbrev before : List Block
  before = xs ++ blk s loose ∷ ys

  abbrev after : List Block
  after = xs ++ blk s listed ∷ ys

  i_small : i < categories
  i_small = small h s xs ys al pos co.tagged

  at_x : (size_of h x ≡ s) × (x % 8 ≡ 0) × (start + 56 ≤ x)
  at_x = at_p h s xs ys al pos co.tagged

  out : IsOut x (lists i)
  out = IsOut-of_has x (lists i) (co.members i i_small x ∙ at_loose h s xs ys al pos co.tagged i)

  abbrev m' : ℕ → ℕ
  m' = (inserted h x (lists i)).mem

  abbrev lists' : ℕ → List ℕ
  lists' = replace lists i (insert_by (size_of h) x (lists i))

  above_root : Places (start + i * 4) (lists i)
  above_root =
      Places-lower (start + 40) (start + i * 4) (lists i) (omega (arith, i_small))
        (co.places i i_small)

  x-IsPlace : IsPlace (start + i * 4) x
  x-IsPlace = (at_x.1, omega (arith, i_small, at_x.2))

  same_memory : (q : ℕ) → q ≢ 0 → q ≢ start + i * 4 → NoLink (x ∷ lists i) q → m' q ≡ h.mem q
  same_memory = inserted-same h x (lists i) (omega arith) (omega arith) x-IsPlace above_root out

  x_members : (y : ℕ) → has y (x ∷ lists i) ≡ listed_at y i (start + 56) after
  x_members = with_block h s xs ys al pos co.tagged (lists i) (co.members i i_small)

  x-Places : Places (start + 40) (x ∷ lists i)
  x-Places = ((at_x.1, omega (arith, at_x.2)), out, co.places i i_small)

  t_after : Tagged h.mem (start + 56) after
  t_after = t_listed h s xs ys al pos co.tagged

  other_members :
      (j : ℕ)
      → j < categories
      → j ≢ i
      → (y : ℕ) → has y (lists j) ≡ listed_at y j (start + 56) after
  other_members j lt ne y = co.members j lt y ∙ other_category h s xs ys al pos co.tagged j y ne

  new_members :
      (j : ℕ) → j < categories → (y : ℕ) → has y (lists' j) ≡ listed_at y j (start + 56) after
  new_members j lt =
      replace_all (λ k l. k < categories → (y : ℕ) → has y l ≡ listed_at y k (start + 56) after)
        lists i (insert_by (size_of h) x (lists i))
        (λ lt' y. has-insert_by (size_of h) y x (lists i) ∙ x_members y)
        (λ k ne lt'. other_members k lt' ne) j lt

  -- The heap with the block in its list.
  insert-Contents : Contents m' start after lists'
  insert-Contents =
      let L : List ℕ = x ∷ lists i in
      let tot = total-status s loose listed xs ys in
      let pre =
        links-before h.mem m' start i after L al pos i_small t_after x-Places x_members
          same_memory in
      let cnt = counted h s xs ys al pos co.tagged in
      record {
        prologue = (
          pre (start + 44) (omega arith) (omega arith) ∙ co.prologue.0,
          pre (start + 48) (omega arith) (omega arith) ∙ co.prologue.1,
        );
        epilogue =
            links-behind h.mem m' start i after L al pos i_small t_after x-Places x_members
              same_memory (start + 52 + total after) (omega arith)
            ∙ ap (λ n. h.mem (start + 52 + n)) (sym tot)
            ∙ co.epilogue;
        tagged =
            links-Tagged h.mem m' start i after L al pos i_small t_after x-Places x_members
              same_memory;
        chains =
            replace_all (λ k l. k < categories → Chain m' 0 (m' (start + k * 4)) l) lists i
              (insert_by (size_of h) x (lists i))
              (λ lt.
                inserted-Chain h x (lists i) (omega arith) (omega arith) x-IsPlace above_root out
                  (co.chains i i_small))
              (λ k ne lt.
                links-Chain h.mem m' start i after L al pos i_small t_after x-Places x_members
                  same_memory k (lists k) ne lt (other_members k lt ne) (co.chains k lt));
        places =
            replace_all (λ k l. k < categories → Places (start + 40) l) lists i
              (insert_by (size_of h) x (lists i))
              (λ lt.
                Places-insert_by (start + 40) (size_of h) x (lists i) (co.places i i_small)
                  x-Places.0 out)
              (λ k ne lt. co.places k lt);
        sorted = λ j lt.
            links-sorted h.mem m' start i after L al pos i_small t_after x-Places x_members
              same_memory j (lists' j) (λ y e. sym (new_members j lt y) ∙ e)
              (replace_all (λ k l. k < categories → IsSortedBy (size_in h.mem) l) lists i
                (insert_by (size_of h) x (lists i))
                (λ lt'. insert_by-IsSortedBy (size_of h) x (lists i) (co.sorted i i_small))
                (λ k ne lt'. co.sorted k lt') j lt);
        members = new_members;
        lengths =
            replace_all (λ k l. k < categories → length l ≤ listed_count k after) lists i
              (insert_by (size_of h) x (lists i))
              (λ lt.
                ground
                  (arith, length-insert_by (size_of h) x (lists i), co.lengths i i_small, cnt i))
              (λ k ne lt. omega (arith, co.lengths k lt, cnt k));
      }

  pub insert-Layout :
      (fuel : ℕ)
      → length before < fuel
      → (m2 : ℕ → ℕ) × (lists2 : ℕ → List ℕ) × (insert_free_block fuel x h
          ≡ some (record h { mem = m2 }))
        × Contents m2 start after lists2
        × KeepsPayload h.mem m2 (start + 56) after
  insert-Layout fuel f = (
    m',
    lists',
    insert_free_block-eq fuel h x (lists i) above_root (co.chains i i_small)
          (omega (arith, co.lengths i i_small, listed_count-le i before, f))
        ∙ ap some (link_block-mem _ x _ _ h),
    insert-Contents,
    links-KeepsPayload h.mem m' start i after (x ∷ lists i) al pos i_small t_after x-Places
        x_members same_memory,
  )
