-- ===== src/Malloc/Refine/Runs.antt =====
-- Histories of calls of malloclab/mm.c: `mm_init`, then `mm_malloc` and `mm_free` in any order, where a
-- program frees only what it holds, and asks for sizes whose sums do not wrap around.
use mathlib.Core.Bool.{Bool-set}
use mathlib.Core.Logic.{∥∥₁_elim}
use mathlib.Core.List.{Perm, perm_middle, perm_inv_core, Permᴰ}
use mathlib.Core.List as Lists
use mathlib.Core.Path.{subst}
use system_programming_lab.Base.{
  ℕ, ◌+◌, ◌%◌, ◌^◌, ◌≤◌, ◌<◌, ◌≡◌, ◌∙◌, sym, refl, ap, inl, inr, ◌⊎◌, Bool, true, false, ◌||◌,
  Option, some, List, [], ◌∷◌, ◌++◌, ◌==◌, arith,
}
use system_programming_lab.Malloc.Memory.{Heap, chunksize}
use system_programming_lab.Malloc.Blocks.{block, null}
use system_programming_lab.Malloc.Ranges.{Range}
use system_programming_lab.Malloc.Api.{Package, ready, mm_init, mm_malloc, mm_free}
use system_programming_lab.Malloc.Layout.{has}
use system_programming_lab.Malloc.Layout.Blocks.{or-right}
use system_programming_lab.Malloc.Layout.Lists.{split_at}
use system_programming_lab.Malloc.Refine.{Represents}
use system_programming_lab.Malloc.Refine.Free.{mm_free-Represents}
use system_programming_lab.Malloc.Refine.Malloc.{
  Served, wanted_brk, block_inj, block-ne_null, mm_malloc-Represents,
}
use system_programming_lab.Malloc.Refine.Init.{mm_init-Represents}

-- The memory of `mem_init` has room for `mm_init`, from an 8-aligned address on.
pub record IsFresh (h : Heap) : Type 0 where
  pub aligned : h.mem_brk % 8 ≡ 0
  pub positive : 0 < h.mem_brk
  pub room : h.mem_brk + 56 + chunksize ≤ h.mem_max_addr
  pub bounded : h.mem_max_addr < 2 ^ 32

-- The pointers that the program holds, the last one first, and a bound on the number of blocks: a call
-- of `mm_malloc` makes two at most.
pub data Run (fuel : ℕ) : Package → List ℕ → ℕ → Type 0 where
  initialised :
      (s : Package) {s' : Package} (ranges : Option (List Range))
      → IsFresh s.heap
      → mm_init fuel ranges s ≡ ready s'
      → Run fuel s' [] 1
  served :
      (s : Package) {held : List ℕ} {count : ℕ} (size p : ℕ) (h : Heap)
      → Run fuel s held count
      → 0 < size
      → size + 32 < 2 ^ 31
      → wanted_brk size s.heap < 2 ^ 32
      → mm_malloc fuel size s.heap ≡ block p h
      → Run fuel (record s { heap = h }) (p ∷ held) (count + 2)
  refused :
      (s : Package) {held : List ℕ} {count : ℕ} (size : ℕ) (h : Heap)
      → Run fuel s held count
      → 0 < size
      → size + 32 < 2 ^ 31
      → wanted_brk size s.heap < 2 ^ 32
      → mm_malloc fuel size s.heap ≡ null h
      → Run fuel (record s { heap = h }) held (count + 2)
  freed :
      (s : Package) {s' : Package} {count : ℕ} (us vs : List ℕ) (p : ℕ)
      → Run fuel s (us ++ p ∷ vs) count
      → mm_free fuel p s ≡ some s'
      → Run fuel s' (us ++ vs) count

abbrev pub pointers : List (ℕ × ℕ) → List ℕ
pointers [] = []
pointers (b ∷ bs) = b.0 ∷ pointers bs

-- The heap represents blocks at the pointers held, in whatever order.
pub record Holds (s : Package) (held : List ℕ) (count : ℕ) : Type 0 where
  pub live : List (ℕ × ℕ)
  pub represented : Represents s.heap live count
  pub same : Perm (pointers live) held

pointers-append : (us vs : List (ℕ × ℕ)) → pointers (us ++ vs) ≡ pointers us ++ pointers vs
pointers-append [] vs = refl
pointers-append (u ∷ us) vs = ap (λ l. u.0 ∷ l) (pointers-append us vs)

-- A pointer that is held stands among the allocated blocks.
pointers-split :
    (live : List (ℕ × ℕ)) (xs ys : List ℕ) (p : ℕ)
    → pointers live ≡ xs ++ p ∷ ys
    → (us : List (ℕ × ℕ)) × (n : ℕ) × (vs : List (ℕ × ℕ)) × (live ≡ us ++ (p, n) ∷ vs)
      × (pointers us ≡ xs)
      × (pointers vs ≡ ys)
pointers-split [] [] ys p e = cc
pointers-split [] (x ∷ xs) ys p e = cc
pointers-split (b ∷ bs) [] ys p e =
    let first : b.0 ≡ p = cc in
    let rest : pointers bs ≡ ys = cc in ([], b.1, bs, ap (λ k. (k, b.1) ∷ bs) first, refl, rest)
pointers-split (b ∷ bs) (x ∷ xs) ys p e =
    let first : b.0 ≡ x = cc in
    let rest : pointers bs ≡ xs ++ p ∷ ys = cc in
    let (us, n, vs, e1, e2, e3) = pointers-split bs xs ys p rest in
    (b ∷ us, n, vs, ap (λ k. b ∷ k) e1, ap (λ k. b.0 ∷ k) e2 ∙ ap (λ k. k ∷ xs) first, e3)

has-Permᴰ : {xs ys : List ℕ} → Permᴰ xs ys → (p : ℕ) → has p xs ≡ has p ys
has-Permᴰ Permᴰ.nil p = refl
has-Permᴰ (Permᴰ.cons {b = b} e d) p = rw (e, has-Permᴰ d p) refl
has-Permᴰ (Permᴰ.swap {a' = a'} {b' = b'} {l = l} e e') p =
    rw (e, e') (swapped (b' == p) (a' == p) (has p l))
  where
    swapped : (b c d : Bool) → (b || (c || d)) ≡ (c || (b || d))
    swapped true true d = refl
    swapped true false d = refl
    swapped false true d = refl
    swapped false false d = refl
has-Permᴰ (Permᴰ.trans d d') p = has-Permᴰ d p ∙ has-Permᴰ d' p

has-middle : (us vs : List ℕ) (p : ℕ) → has p (us ++ p ∷ vs) ≡ true
has-middle [] vs p = let e : (p == p) ≡ true = ground arith in rw e refl
has-middle (u ∷ us) vs p = or-right (u == p) _ (has-middle us vs p)

has-Perm : (p : ℕ) (xs us vs : List ℕ) → Perm xs (us ++ p ∷ vs) → has p xs ≡ true
has-Perm p xs us vs q =
    ∥∥₁_elim q (Bool-set (has p xs) true) (λ d. has-Permᴰ d p ∙ has-middle us vs p)

-- A held pointer is one of the allocated blocks', and the others are held without it.
Holds-split :
    (s : Package) (us vs : List ℕ) (p count : ℕ)
    → Holds s (us ++ p ∷ vs) count
    → (xs : List (ℕ × ℕ)) × (n : ℕ) × (ys : List (ℕ × ℕ)) × Represents s.heap
        (xs ++ (p, n) ∷ ys)
        count
      × Perm (pointers (xs ++ ys)) (us ++ vs)
Holds-split s us vs p count r =
    let (ps, qs, e) = split_at p (pointers r.live) (has-Perm p (pointers r.live) us vs r.same) in
    let (xs, n, ys, whole, e1, e2) = pointers-split r.live ps qs p e in
    let others : pointers (xs ++ ys) ≡ ps ++ qs =
      pointers-append xs ys ∙ ap (λ l. l ++ pointers ys) e1 ∙ ap (λ l. ps ++ l) e2 in
    (
      xs,
      n,
      ys,
      rw whole at r.represented,
      subst (λ (l : List ℕ). Perm l (us ++ vs)) (sym others)
          (perm_inv_core p ps us qs vs (subst (λ (l : List ℕ). Perm l (us ++ p ∷ vs)) e r.same)),
    )

-- Freeing a held pointer.
freed-Holds :
    (fuel count : ℕ) (s : Package) (us vs : List ℕ) (p : ℕ)
    → Holds s (us ++ p ∷ vs) count
    → count < fuel
    → (s' : Package) × (mm_free fuel p s ≡ some s') × Holds s' (us ++ vs) count
freed-Holds fuel count s us vs p r f =
    let (xs, n, ys, rep, same) = Holds-split s us vs p count r in
    let (m', e, rep', keeps) = mm_free-Represents fuel count s xs ys p n rep f in
    (_, e, record { live = xs ++ ys; represented = rep'; same = same })

some_inj {ℓ} : {A : Type ℓ} {x y : A} → some x ≡ some y → x ≡ y
some_inj e = cc

null_inj : (h k : Heap) → null h ≡ null k → h ≡ k
null_inj h k e = cc

ready_inj : (s t : Package) → ready s ≡ ready t → s ≡ t
ready_inj s t e = cc

-- A request with a history behind it: the block joins those held, or the heap is as it was.
Served-Holds :
    (fuel size count : ℕ) (s : Package) (held : List ℕ)
    → (r : Holds s held count) → (z : Served fuel size s.heap r.live count)
    → Holds
        (record s { heap = record (s.heap) { mem = z.memory; mem_brk = z.brk } })
        (z.pointer ∷ held)
        (count + 2)
Served-Holds fuel size count s held r z = record {
  live = z.before ++ (z.pointer, z.room) ∷ z.behind;
  represented = z.represented;
  same =
      let e = pointers-append z.before ((z.pointer, z.room) ∷ z.behind) in
      let e' = ap pointers z.others ∙ pointers-append z.before z.behind in
      subst (λ (l : List ℕ). Perm l (z.pointer ∷ held)) (sym e)
        (Lists.Perm.trans (perm_middle (pointers z.before) (pointers z.behind))
          (Lists.Perm.cons z.pointer (subst (λ (l : List ℕ). Perm l held) e' r.same)));
}

weaker : {s : Package} {held : List ℕ} {count : ℕ} → Holds s held count → Holds s held (count + 2)
weaker r = record {
  live = r.live;
  represented = record {
    blocks = r.represented.blocks;
    lists = r.represented.lists;
    layout = r.represented.layout;
    settled = r.represented.settled;
    live_blocks = r.represented.live_blocks;
    counted = omega (arith, r.represented.counted);
  };
  same = r.same;
}

-- After a history of `mm_init` on fresh memory, calls of `mm_malloc` and calls of `mm_free` on pointers
-- that the program holds, the heap represents blocks at exactly the pointers that it still holds. Each
-- request is of a positive size that is below 2 ^ 31 by more than 32, with the end of the heap that it
-- may want below 2 ^ 32; there is fuel for all blocks.
pub Run-Holds :
    (fuel : ℕ) {s : Package} {held : List ℕ} {count : ℕ}
    → Run fuel s held count
    → count < fuel
    → Holds s held count
Run-Holds fuel (Run.initialised s ranges fresh e) f =
    let (h', e', at, rep, one) =
      mm_init-Represents fuel ranges s fresh.aligned fresh.positive fresh.room fresh.bounded f in
    subst (λ (t : Package). Holds t [] 1) (ready_inj _ _ (sym e' ∙ e))
      (record { live = []; represented = rep; same = Lists.Perm.refl [] })
Run-Holds fuel (Run.served s {held} {count} size p h run pos lt no_wrap e) f =
    let r = Run-Holds fuel run (omega (arith, f)) in
    elim (mm_malloc-Represents fuel count size s.heap r.live r.represented f pos lt no_wrap) [
      | inl z ↦
          let (at, heap) = block_inj _ _ _ _ (sym z.result ∙ e) in
          subst (λ (k : Heap). Holds (record s { heap = k }) (p ∷ held) (count + 2)) heap
            (subst
              (λ (k : ℕ).
                Holds (record s { heap = record (s.heap) { mem = z.memory; mem_brk = z.brk } })
                  (k ∷ held) (count + 2))
              at (Served-Holds fuel size count s held r z))
      | inr (declined, full) ↦ absurd (block-ne_null _ _ _ (sym e ∙ declined))
    ]
Run-Holds fuel (Run.refused s {held} {count} size h run pos lt no_wrap e) f =
    let r = Run-Holds fuel run (omega (arith, f)) in
    elim (mm_malloc-Represents fuel count size s.heap r.live r.represented f pos lt no_wrap) [
      | inl z ↦ absurd (block-ne_null _ _ _ (sym z.result ∙ e))
      | inr (declined, full) ↦
          subst (λ (k : Heap). Holds (record s { heap = k }) held (count + 2))
            (null_inj _ _ (sym declined ∙ e)) (weaker r)
    ]
Run-Holds fuel (Run.freed s {s'} {count} us vs p run e) f =
    let (s2, e2, r2) = freed-Holds fuel count s us vs p (Run-Holds fuel run f) f in
    subst (λ (t : Package). Holds t (us ++ vs) count) (some_inj (sym e2 ∙ e)) r2

-- After such a history, with fuel for its blocks, freeing any pointer that the program holds
-- completes.
pub Run-mm_free :
    (fuel count : ℕ) (s : Package) (us vs : List ℕ) (p : ℕ)
    → Run fuel s (us ++ p ∷ vs) count
    → count < fuel
    → (s' : Package) × (mm_free fuel p s ≡ some s') × Run fuel s' (us ++ vs) count
Run-mm_free fuel count s us vs p run f =
    let (s', e, r) = freed-Holds fuel count s us vs p (Run-Holds fuel run f) f in
    (s', e, Run.freed s us vs p run e)

-- After such a history, with fuel for its blocks and for two more, a request of a positive size
-- completes: it returns a block, or NULL with the heap as it was.
pub Run-mm_malloc :
    (fuel count size : ℕ) (s : Package) (held : List ℕ)
    → Run fuel s held count
    → count + 2 < fuel
    → 0 < size
    → size + 32 < 2 ^ 31
    → wanted_brk size s.heap < 2 ^ 32
    → ((p : ℕ) × (h : Heap) × (mm_malloc fuel size s.heap ≡ block p h)
        × Run fuel (record s { heap = h }) (p ∷ held) (count + 2))
      ⊎ (mm_malloc fuel size s.heap ≡ null s.heap)
Run-mm_malloc fuel count size s held run f pos lt no_wrap =
    let r = Run-Holds fuel run (omega (arith, f)) in
    elim (mm_malloc-Represents fuel count size s.heap r.live r.represented f pos lt no_wrap) [
      | inl z ↦
          inl (z.pointer, _, z.result, Run.served s size z.pointer _ run pos lt no_wrap z.result)
      | inr (declined, full) ↦ inr declined
    ]
