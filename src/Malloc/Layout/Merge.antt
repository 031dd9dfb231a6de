-- ===== src/Malloc/Layout/Merge.antt =====
-- `coalesce` of malloclab/mm.c: a free block in no list is merged with its free neighbours and listed.
use mathlib.Core.List.{append_assoc}
use mathlib.Core.Path.{subst}
use system_programming_lab.Base.{
  ℕ, ◌+◌, ◌%◌, ◌^◌, ◌≤◌, ◌<◌, ◌≡◌, ◌∙◌, sym, refl, ap, inl, inr, true, Option, none, some, List, [],
  ◌∷◌, ◌++◌, length, length-append, arith,
}
use system_programming_lab.Malloc.Memory.{Heap}
use system_programming_lab.Malloc.FreeList.{insert_free_block}
use system_programming_lab.Malloc.Blocks.{coalesced, coalesce}
use system_programming_lab.Malloc.Layout.{listed, loose, Block, total, Contents, KeepsPayload}
use system_programming_lab.Malloc.Layout.Blocks.{total-append}
use system_programming_lab.Malloc.Layout.Lists.{blk}
use system_programming_lab.Malloc.Layout.Listing.{insert-Layout}
use system_programming_lab.Malloc.Layout.Retile.{
  NoneUsed, KeepsAround, KeepsAround-of_payload, KeepsPayload-of_around,
}
use system_programming_lab.Malloc.Layout.Neighbours.{starts_used, ends_used}
use system_programming_lab.Malloc.Layout.Settled.{
  IsSettled, allocs, allocs-around, before-cases, after-cases, IsSettled-between,
}
use system_programming_lab.Malloc.Layout.Coalesce.Both.{join_both}
use system_programming_lab.Malloc.Layout.Coalesce.{Joined, join_none, join_next, join_prev}

-- What becomes of the block of `s` bytes between `xs` and `ys`.
pub record Coalesced (fuel : ℕ) (h : Heap) (xs : List Block) (s : ℕ) (ys : List Block)
    : Type 0 where
  pub front : List Block
  pub size : ℕ
  pub back : List Block
  pub memory : ℕ → ℕ
  pub lists : ℕ → List ℕ
  pub result :
      coalesce fuel (h.block_list_start + 56 + total xs) h
      ≡ some (h.block_list_start + 56 + total front, record h { mem = memory })
  pub contents : Contents memory h.block_list_start (front ++ blk size listed ∷ back) lists
  pub settled : IsSettled (front ++ blk size listed ∷ back)
  pub extent : total (front ++ blk size listed ∷ back) ≡ total (xs ++ blk s loose ∷ ys)
  pub room : s ≤ size
  pub same_allocs :
      allocs (h.block_list_start + 56) (front ++ blk size listed ∷ back)
      ≡ allocs (h.block_list_start + 56) (xs ++ blk s loose ∷ ys)
  pub keeps : KeepsPayload h.mem memory (h.block_list_start + 56) (xs ++ blk s loose ∷ ys)
  pub shorter : length (front ++ blk size listed ∷ back) ≤ length (xs ++ blk s loose ∷ ys)

coalesce-eq :
    (fuel bp : ℕ) (h : Heap) (bp' : ℕ) (h' linked : Heap)
    → coalesced bp h ≡ (bp', h')
    → insert_free_block fuel bp' h' ≡ some linked
    → coalesce fuel bp h ≡ some (bp', linked)
unfolding coalesce
coalesce-eq fuel bp h bp' h' linked e i =
    ap {B = Option (ℕ × Heap)}
      (λ (r : ℕ × Heap). elim (insert_free_block fuel r.0 r.1) [
        | none ↦ none
        | some l ↦ some (r.0, l)
      ])
      e
    ∙ ap {B = Option (ℕ × Heap)}
        (λ (o : Option Heap). elim o [ none ↦ none | some l ↦ some (bp', l) ]) i

listed-Joined :
    (fuel : ℕ) (h : Heap) (bp : ℕ) (xs : List Block) (n : ℕ) (ys : List Block)
    → h.block_list_start % 8 ≡ 0
    → 0 < h.block_list_start
    → length (xs ++ blk n loose ∷ ys) < fuel
    → Joined h bp xs n ys
    → (m2 : ℕ → ℕ) × (lists2 : ℕ → List ℕ) × (coalesce fuel bp h
        ≡ some (h.block_list_start + 56 + total xs, record h { mem = m2 }))
      × Contents m2 h.block_list_start (xs ++ blk n listed ∷ ys) lists2
      × KeepsAround h.mem m2 (h.block_list_start + 56) xs n ys
listed-Joined fuel h bp xs n ys al pos f (m1, lists1, e, co, keeps) =
    let (m2, lists2, e2, co2, keeps2) =
      insert-Layout (record h { mem = m1 }) n xs ys lists1 al pos co fuel f in
    (
      m2,
      lists2,
      coalesce-eq fuel bp h _ _ _ e e2,
      co2,
      λ q k.
          KeepsAround-of_payload m1 m2 (h.block_list_start + 56) n xs (blk n listed ∷ []) ys
            (refl, tt) (omega arith) keeps2 q k
          ∙ keeps q k,
    )

-- The blocks `core` with the freed one among them have become one between allocated ones.
finish :
    (fuel : ℕ) (h : Heap) (xs : List Block) (s : ℕ) (ys zs core ws : List Block) (n : ℕ)
    → h.block_list_start % 8 ≡ 0
    → 0 < h.block_list_start
    → length (xs ++ blk s loose ∷ ys) < fuel
    → xs ++ blk s loose ∷ ys ≡ zs ++ (core ++ ws)
    → NoneUsed core
    → total core ≡ n
    → 1 ≤ length core
    → s ≤ n
    → (ends_used zs ≡ true) × IsSettled zs
    → (starts_used ws ≡ true) × IsSettled ws
    → Joined h (h.block_list_start + 56 + total xs) zs n ws
    → Coalesced fuel h xs s ys
finish fuel h xs s ys zs core ws n al pos f e free extent one le left right joined =
    let a : ℕ = h.block_list_start + 56 in
    let l1 = ap length e ∙ length-append zs (core ++ ws) in
    let l2 = length-append core ws in
    let l3 = length-append zs (blk n listed ∷ ws) in
    let l4 = length-append zs (blk n loose ∷ ws) in
    let t1 = ap total e ∙ total-append zs (core ++ ws) in
    let t2 = total-append core ws in
    let t3 = total-append zs (blk n listed ∷ ws) in
    let (m2, lists2, result, co, keeps) =
      listed-Joined fuel h (a + total xs) zs n ws al pos (omega (arith, l1, l2, l4, f, one))
        joined in
    record {
      front = zs;
      size = n;
      back = ws;
      memory = m2;
      lists = lists2;
      result = result;
      contents = co;
      settled = IsSettled-between (blk n listed) zs ws left.1 left.0 (inr (refl, right.0)) right.1;
      extent = omega (arith, t1, t2, t3, extent);
      room = le;
      same_allocs =
          allocs-around a n zs (blk n listed ∷ []) ws (refl, tt) (omega arith)
          ∙ sym (allocs-around a n zs core ws free extent)
          ∙ ap (allocs a) (sym e);
      keeps =
          subst (λ bs. KeepsPayload h.mem m2 a bs) (sym e)
            (KeepsPayload-of_around h.mem m2 a n zs core ws free extent keeps);
      shorter = omega (arith, l1, l2, l3, one);
    }

-- A free block in no list, between settled blocks.
pub coalesce-Coalesced :
    (fuel : ℕ) (h : Heap) (xs : List Block) (s : ℕ) (ys : List Block) (lists : ℕ → List ℕ)
    → h.block_list_start % 8 ≡ 0
    → 0 < h.block_list_start
    → h.block_list_start + 56 + total (xs ++ blk s loose ∷ ys) < 2 ^ 32
    → length (xs ++ blk s loose ∷ ys) < fuel
    → Contents h.mem h.block_list_start (xs ++ blk s loose ∷ ys) lists
    → IsSettled xs
    → IsSettled ys
    → Coalesced fuel h xs s ys
coalesce-Coalesced fuel h xs s ys lists al pos fits f co sx sy = elim (before-cases xs sx) [
  | inl u ↦ elim (after-cases ys sy) [
    | inl v ↦
        finish fuel h xs s ys xs (blk s loose ∷ []) ys s al pos f refl (refl, tt) (omega arith)
          (omega arith) (omega arith) (u, sx) (v, sy) (join_none h xs ys lists al pos s co u v)
    | inr (n, ws, e, v, sw) ↦
        let whole : xs ++ blk s loose ∷ ys ≡ xs ++ blk s loose ∷ blk n listed ∷ ws =
          ap (λ l. xs ++ blk s loose ∷ l) e in
        finish fuel h xs s ys xs (blk s loose ∷ blk n listed ∷ []) ws (s + n) al pos f whole
          (refl, (refl, tt)) (omega arith) (omega arith) (omega arith) (u, sx) (v, sw)
          (join_next h xs ws lists al pos s n (rw whole at co) (rw whole at fits) u)
  ]
  | inr (p, zs, e, u, sz) ↦ elim (after-cases ys sy) [
    | inl v ↦
        let whole : xs ++ blk s loose ∷ ys ≡ zs ++ blk p listed ∷ blk s loose ∷ ys =
          ap (λ l. l ++ blk s loose ∷ ys) e
          ∙ append_assoc zs (blk p listed ∷ []) (blk s loose ∷ ys) in
        let tot = ap total e ∙ total-append zs (blk p listed ∷ []) in
        let place : h.block_list_start + 56 + total zs + p ≡ h.block_list_start + 56 + total xs =
          omega (arith, tot) in
        finish fuel h xs s ys zs (blk p listed ∷ blk s loose ∷ []) ys (s + p) al pos f whole
          (refl, (refl, tt)) (omega arith) (omega arith) (omega arith) (u, sz) (v, sy)
          (rw place at (join_prev h zs ys lists al pos p s (rw whole at co) (rw whole at fits) v))
    | inr (n, ws, e', v, sw) ↦
        let whole : xs ++ blk s loose ∷ ys ≡ zs ++ blk p listed ∷ blk s loose ∷ blk n listed ∷ ws =
          ap (λ l. xs ++ blk s loose ∷ l) e'
          ∙ ap (λ l. l ++ blk s loose ∷ blk n listed ∷ ws) e
          ∙ append_assoc zs (blk p listed ∷ []) (blk s loose ∷ blk n listed ∷ ws) in
        let tot = ap total e ∙ total-append zs (blk p listed ∷ []) in
        let place : h.block_list_start + 56 + total zs + p ≡ h.block_list_start + 56 + total xs =
          omega (arith, tot) in
        finish fuel h xs s ys zs (blk p listed ∷ blk s loose ∷ blk n listed ∷ []) ws (s + n + p) al
          pos f whole (refl, (refl, (refl, tt))) (omega arith) (omega arith) (omega arith) (u, sz)
          (v, sw)
          (rw place at (join_both h zs ws lists al pos p s n (rw whole at co) (rw whole at fits)))
  ]
]
