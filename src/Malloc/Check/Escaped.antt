-- ===== src/Malloc/Check/Escaped.antt =====
-- `checkEscapedCoalesce` of malloclab/mm.c walks over the blocks of the heap.
use system_programming_lab.Base.{
  ℕ, zero, suc, ◌+◌, ◌-◌, ◌%◌, ◌<◌, ◌≡◌, ◌∙◌, sym, refl, ap, inl, inr, ◌⊎◌, Bool, true, false, not,
  ◌&&◌, Option, none, some, List, [], ◌∷◌, ◌++◌, ltb, ◌==◌, ==_refl, if◌then◌else◌, Bool-cases,
  length, arith,
}
use system_programming_lab.Malloc.Memory.{Heap, get_alloc, hdrp, next_blkp}
use system_programming_lab.Malloc.Check.{
  Message, not_coalesced, next_or_null, is_escaped, escaped_loop, check_escaped_coalesce,
}
use system_programming_lab.Malloc.Refine.Free.{positive-ne_null}
use system_programming_lab.Malloc.Layout.{Block, is_used, tag, total, Tagged, IsLayout}

-- No two free blocks are neighbours; `free` is whether a free one stands before.
abbrev pub separate : (free : Bool) → List Block → Bool
separate free [] = true
separate free (b ∷ bs) =
    if is_used b.status then separate false bs else not free && separate true bs

-- The block at an address is read, and the end of the heap is behind the last one.
pub block-read :
    (h : Heap) (a : ℕ) (b : Block) (bs : List Block)
    → Tagged h.mem a (b ∷ bs)
    → (get_alloc h (hdrp a) ≡ is_used b.status) × (next_blkp h a ≡ a + b.size)
block-read h a b bs t = elim (Bool-cases (is_used b.status)) [
  | inl u ↦
      let e : tag b ≡ b.size + 1 = rw u refl in
      let w : h.mem (a - 4) ≡ b.size + 1 = t.0 ∙ e in
      let odd : (h.mem (a - 4) % 2 == 1) ≡ true = ground (arith, w, t.3) in
      (odd ∙ sym u, omega (arith, w, t.3))
  | inr u ↦
      let e : tag b ≡ b.size = rw u refl in
      let w : h.mem (a - 4) ≡ b.size = t.0 ∙ e in
      let even : (h.mem (a - 4) % 2 == 1) ≡ false = ground (arith, w, t.3) in
      (even ∙ sym u, omega (arith, w, t.3))
]

pub next_or_null-last :
    (h : Heap) (a : ℕ) (b : Block)
    → next_blkp h a ≡ a + b.size
    → a + b.size ≡ h.mem_brk
    → 0 < h.mem_brk
    → next_or_null h a ≡ 0
next_or_null-last h a b e at pos =
    let over : ltb (h.mem_brk - 1) (a + b.size) ≡ true = ground arith in rw (e, over) refl

pub next_or_null-more :
    (h : Heap) (a : ℕ) (b : Block)
    → next_blkp h a ≡ a + b.size
    → a + b.size < h.mem_brk
    → next_or_null h a ≡ a + b.size
next_or_null-more h a b e lt =
    let within : ltb (h.mem_brk - 1) (a + b.size) ≡ false = ground arith in rw (e, within) refl

-- The last free block ends at `a`, or before.
abbrev Last : Heap → (last_p a : ℕ) → Bool → Type 0
Last h last_p a true = (0 < last_p) × (next_blkp h last_p ≡ a)
Last h last_p a false = (last_p ≡ 0) ⊎ (next_blkp h last_p < a)

is_escaped-Last :
    (h : Heap) (a last_p : ℕ) (free used : Bool)
    → Last h last_p a free
    → get_alloc h (hdrp a) ≡ used
    → is_escaped h a last_p ≡ (not used && free)
is_escaped-Last h a last_p true used l e =
    let nz : (last_p == 0) ≡ false = positive-ne_null last_p l.0 in
    rw (e, nz, l.1, ==_refl a) (fold used)
  where
    fold : (u : Bool) → ((not u && true) && true) ≡ (not u && true)
    fold true = refl
    fold false = refl
is_escaped-Last h a last_p false used (inl z) e = rw (e, z) (fold used _)
  where
    fold : (u c : Bool) → ((not u && false) && c) ≡ (not u && false)
    fold true c = refl
    fold false c = refl
is_escaped-Last h a last_p false used (inr lt) e =
    let ne : (next_blkp h last_p == a) ≡ false = lt-ne (next_blkp h last_p) a lt in
    rw (e, ne) (fold used _)
  where
    lt-ne : (m n : ℕ) → m < n → (m == n) ≡ false
    lt-ne m n lt = ground arith

    fold : (u c : Bool) → ((not u && c) && false) ≡ (not u && false)
    fold true c = refl
    fold false true = refl
    fold false false = refl

-- Behind a block.
abbrev last_behind : (used : Bool) → (last_p a : ℕ) → ℕ
last_behind used last_p a = if used then last_p else a

Last-next :
    (h : Heap) (a size last_p : ℕ) (free used : Bool)
    → 0 < a
    → 0 < size
    → next_blkp h a ≡ a + size
    → Last h last_p a free
    → Last h (last_behind used last_p a) (a + size) (not used)
Last-next h a size last_p true true pos s e l = inr (omega (arith, l.1))
Last-next h a size last_p false true pos s e (inl z) = inl z
Last-next h a size last_p false true pos s e (inr lt) = inr (omega (arith, lt))
Last-next h a size last_p free false pos s e l = (pos, e)

abbrev continued : List Message → Option (List Message × Bool) → Option (List Message × Bool)
continued printed rest = elim rest [ none ↦ none | some (out, r) ↦ some (printed ++ out, r) ]

escaped_loop-step :
    (k : ℕ) (h : Heap) (a last_p : ℕ) (res free used r : Bool) (next : ℕ) (out : List Message)
    → 0 < a
    → get_alloc h (hdrp a) ≡ used
    → is_escaped h a last_p ≡ (not used && free)
    → next_or_null h a ≡ next
    → escaped_loop k h next (last_behind used last_p a) (if not used && free then false else res)
      ≡ some (out, r)
    → (out' : List Message) × (escaped_loop (suc k) h a last_p res ≡ some (out', r))
unfolding escaped_loop
escaped_loop-step k h a last_p res free used r next out pos e esc n rest =
    let nz : (a == 0) ≡ false = positive-ne_null a pos in
    let printed : Bool → List Message = λ c. if c then not_coalesced last_p a ∷ [] else [] in
    let after : Option (List Message × Bool) =
      escaped_loop k h next (last_behind used last_p a) (if not used && free then false else res) in
    (
      printed (not used && free) ++ out,
      rw (nz, esc, n, e)
          (ap (λ c. continued (printed c) after) esc
            ∙ ap (continued (printed (not used && free))) rest),
    )

separate_cons :
    (res free used : Bool) (bs : List Block)
    → ((if not used && free then false else res) && separate (not used) bs)
      ≡ (res && (if used then separate false bs else not free && separate true bs))
separate_cons res free true bs = refl
separate_cons res false false bs = refl
separate_cons true true false bs = refl
separate_cons false true false bs = refl

null-step :
    (k : ℕ) (h : Heap) (last_p : ℕ) (res : Bool)
    → escaped_loop (suc k) h 0 last_p res ≡ some ([], res)
unfolding escaped_loop
null-step k h last_p res = refl

and-true_right : (b : Bool) → b ≡ (b && true)
and-true_right true = refl
and-true_right false = refl

escaped_loop-walk :
    (k : ℕ) (h : Heap) (a last_p : ℕ) (free res : Bool) (b : Block) (bs : List Block)
    → Tagged h.mem a (b ∷ bs)
    → a + total (b ∷ bs) ≡ h.mem_brk
    → 0 < a
    → Last h last_p a free
    → length (b ∷ bs) < k
    → (out : List Message) × (escaped_loop k h a last_p res
        ≡ some (out, res && separate free (b ∷ bs)))
escaped_loop-walk zero h a last_p free res b bs t at pos l f = absurd (omega (arith, f))
escaped_loop-walk (suc zero) h a last_p free res b bs t at pos l f = absurd (omega (arith, f))
escaped_loop-walk (suc (suc k)) h a last_p free res b [] t at pos l f =
    let (alloc, next) = block-read h a b [] t in
    let used : Bool = is_used b.status in
    let res' : Bool = if not used && free then false else res in
    let none_more = next_or_null-last h a b next (omega (arith, at)) (omega (arith, at, pos)) in
    let (out', e') =
      escaped_loop-step (suc k) h a last_p res free used res' 0 [] pos alloc
        (is_escaped-Last h a last_p free used l alloc) none_more
        (null-step k h (last_behind used last_p a) res') in
    (out', e' ∙ ap (λ r. some (out', r)) (and-true_right res' ∙ separate_cons res free used []))
escaped_loop-walk (suc (suc k)) h a last_p free res b (c ∷ cs) t at pos l f =
    let (alloc, next) = block-read h a b (c ∷ cs) t in
    let used : Bool = is_used b.status in
    let res' : Bool = if not used && free then false else res in
    let (out, e) =
      escaped_loop-walk (suc k) h (a + b.size) (last_behind used last_p a) (not used) res' c cs t.4
        (omega (arith, at)) (omega arith)
        (Last-next h a b.size last_p free used pos (omega (arith, t.2)) next l)
        (omega (arith, f)) in
    let more = next_or_null-more h a b next (omega (arith, at, t.4.2)) in
    let (out', e') =
      escaped_loop-step (suc k) h a last_p res free used (res' && separate (not used) (c ∷ cs))
        (a + b.size) out pos alloc (is_escaped-Last h a last_p free used l alloc) more e in
    (out', e' ∙ ap (λ r. some (out', r)) (separate_cons res free used (c ∷ cs)))

-- On a heap laid out in blocks, one at least, with more fuel than blocks, `checkEscapedCoalesce` ends,
-- and says whether no two free blocks are neighbours.
pub check_escaped_coalesce-separate :
    (fuel : ℕ) (h : Heap) (b : Block) (bs : List Block) (lists : ℕ → List ℕ)
    → IsLayout h (b ∷ bs) lists
    → length (b ∷ bs) < fuel
    → (out : List Message) × (check_escaped_coalesce fuel h ≡ some (out, separate false (b ∷ bs)))
unfolding check_escaped_coalesce
check_escaped_coalesce-separate fuel h b bs lists l f =
    let start : h.heap_listp + 8 ≡ h.block_list_start + 56 = omega (arith, l.at_list) in
    rw start (
      escaped_loop-walk fuel h (h.block_list_start + 56) 0 false true b bs l.contents.tagged
        l.at_brk (omega arith) (inl refl) f)
