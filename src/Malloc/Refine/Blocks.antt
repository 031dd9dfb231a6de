-- ===== src/Malloc/Refine/Blocks.antt =====
-- The list of allocated blocks and the blocks of the heap.
use system_programming_lab.Base.{
  ℕ, ◌+◌, ◌≡◌, ◌∙◌, refl, ap, inl, inr, true, List, [], ◌∷◌, ◌++◌, Bool-cases, arith,
}
use system_programming_lab.Malloc.Memory.{Heap}
use system_programming_lab.Malloc.Layout.{
  Status, used, listed, loose, Block, is_used, total, Contents, IsLayout, is_payload, KeepsPayload,
}
use system_programming_lab.Malloc.Layout.Lists.{blk}
use system_programming_lab.Malloc.Layout.Settled.{allocs}
use system_programming_lab.Malloc.Refine.{in_payload, Keeps}

pub is_payload-allocs : (q a : ℕ) (bs : List Block) → is_payload q a bs ≡ in_payload q (allocs a bs)
is_payload-allocs q a [] = refl
is_payload-allocs q a (b ∷ bs) =
    let ih = is_payload-allocs q (a + b.size) bs in
    elim (Bool-cases (is_used b.status)) [ inl u ↦ rw (u, ih) refl | inr u ↦ rw (u, ih) refl ]

pub Keeps-of_payload :
    (m m' : ℕ → ℕ) (a : ℕ) (bs : List Block) (live : List (ℕ × ℕ))
    → allocs a bs ≡ live
    → KeepsPayload m m' a bs
    → Keeps m m' live
Keeps-of_payload m m' a bs live e keeps q h =
    keeps q (is_payload-allocs q a bs ∙ ap (in_payload q) e ∙ h)

used-blk : (b : Block) → is_used b.status ≡ true → b ≡ blk b.size used
used-blk b u = by_status b.size b.status u
  where
    by_status : (size : ℕ) (st : Status) → is_used st ≡ true → blk size st ≡ blk size used
    by_status size used u = refl
    by_status size listed u = cc
    by_status size loose u = cc

cons_head {ℓ} : {A : Type ℓ} {x y : A} {xs ys : List A} → x ∷ xs ≡ y ∷ ys → (x ≡ y) × (xs ≡ ys)
cons_head e = (cc, cc)

-- An allocated block stands among the blocks.
pub allocs-split :
    (a : ℕ) (bs : List Block) (us vs : List (ℕ × ℕ)) (p n : ℕ)
    → allocs a bs ≡ us ++ (p, n) ∷ vs
    → (xs : List Block) × (ys : List Block) × (bs ≡ xs ++ blk n used ∷ ys)
      × (allocs a xs ≡ us)
      × (a + total xs ≡ p)
      × (allocs (p + n) ys ≡ vs)
allocs-split a [] [] vs p n e = cc
allocs-split a [] (u ∷ us) vs p n e = cc
allocs-split a (b ∷ bs) [] vs p n e = elim (Bool-cases (is_used b.status)) [
  | inl u ↦
      let (first, rest) = cons_head (rw u at e) in
      let at : a ≡ p = ap (λ (r : ℕ × ℕ). r.0) first in
      let size : b.size ≡ n = ap (λ (r : ℕ × ℕ). r.1) first in
      (
        [],
        bs,
        ap (λ c. c ∷ bs) (used-blk b u ∙ ap (λ k. blk k used) size),
        refl,
        omega (arith, at),
        ap (λ k. allocs k bs) (omega (arith, at, size)) ∙ rest,
      )
  | inr u ↦
      let (xs, ys, e1, e2, e3, e4) = allocs-split (a + b.size) bs [] vs p n (rw u at e) in
      (b ∷ xs, ys, ap (λ l. b ∷ l) e1, rw u e2, omega (arith, e3), e4)
]
allocs-split a (b ∷ bs) (w ∷ us) vs p n e = elim (Bool-cases (is_used b.status)) [
  | inl u ↦
      let (first, rest) = cons_head (rw u at e) in
      let (xs, ys, e1, e2, e3, e4) = allocs-split (a + b.size) bs us vs p n rest in
      (
        b ∷ xs,
        ys,
        ap (λ l. b ∷ l) e1,
        rw u (ap (λ l. (a, b.size) ∷ l) e2 ∙ ap (λ r. r ∷ us) first),
        omega (arith, e3),
        e4,
      )
  | inr u ↦
      let (xs, ys, e1, e2, e3, e4) = allocs-split (a + b.size) bs (w ∷ us) vs p n (rw u at e) in
      (b ∷ xs, ys, ap (λ l. b ∷ l) e1, rw u e2, omega (arith, e3), e4)
]

-- New contents within the same bounds.
pub IsLayout-mem :
    (h : Heap) (bs bs' : List Block) (lists lists' : ℕ → List ℕ) (m' : ℕ → ℕ)
    → IsLayout h bs lists
    → total bs' ≡ total bs
    → Contents m' h.block_list_start bs' lists'
    → IsLayout (record h { mem = m' }) bs' lists'
IsLayout-mem h bs bs' lists lists' m' l e co = record {
  aligned = l.aligned;
  positive = l.positive;
  at_list = l.at_list;
  at_brk = omega (arith, l.at_brk, e);
  in_bounds = l.in_bounds;
  bounded = l.bounded;
  contents = co;
}
