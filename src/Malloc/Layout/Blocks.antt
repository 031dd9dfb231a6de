-- ===== src/Malloc/Layout/Blocks.antt =====
-- Lists of blocks one behind the other: their parts, and the addresses of what they hold.
use system_programming_lab.Base.{
  ℕ, ◌+◌, ◌-◌, ◌%◌, ◌≤◌, ◌<◌, ◌≡◌, ◌≢◌, ◌∙◌, sym, refl, ap, inl, inr, ◌⊎◌, Bool, true, false, ◌&&◌,
  ◌||◌, List, [], ◌∷◌, ◌++◌, ltb, ltb→lt, leb, ◌==◌, arith,
}
use mathlib.Core.Bool.{or_assoc}
use native.Mathlib.Nat.{add-zero}
use system_programming_lab.Malloc.FreeList.{free_category}
use system_programming_lab.Malloc.Layout.{
  Status, used, listed, loose, Block, is_used, is_listed, total, Tagged, listed_at, is_payload,
}

pub total-append : (xs ys : List Block) → total (xs ++ ys) ≡ total xs + total ys
total-append [] ys = omega arith
total-append (x ∷ xs) ys = omega (arith, total-append xs ys)

pub listed_at-append :
    (x i a : ℕ) (xs ys : List Block)
    → listed_at x i a (xs ++ ys) ≡ (listed_at x i a xs || listed_at x i (a + total xs) ys)
listed_at-append x i a [] ys = rw (add-zero a) refl
listed_at-append x i a (b ∷ xs) ys =
    let ih = listed_at-append x i (a + b.size) xs ys in
    let e : a + b.size + total xs ≡ a + (b.size + total xs) = omega arith in
    rw (ih, e)
      (sym (
        or_assoc ((a == x) && is_listed b.status && (free_category b.size == i))
          (listed_at x i (a + b.size) xs) (listed_at x i (a + (b.size + total xs)) ys)))

pub is_payload-append :
    (q a : ℕ) (xs ys : List Block)
    → is_payload q a (xs ++ ys) ≡ (is_payload q a xs || is_payload q (a + total xs) ys)
is_payload-append q a [] ys = rw (add-zero a) refl
is_payload-append q a (b ∷ xs) ys =
    let ih = is_payload-append q (a + b.size) xs ys in
    let e : a + b.size + total xs ≡ a + (b.size + total xs) = omega arith in
    rw (ih, e)
      (sym (
        or_assoc (is_used b.status && leb a q && ltb q (a + b.size - 8))
          (is_payload q (a + b.size) xs) (is_payload q (a + (b.size + total xs)) ys)))

pub Tagged-left : (m : ℕ → ℕ) (a : ℕ) (xs ys : List Block) → Tagged m a (xs ++ ys) → Tagged m a xs
Tagged-left m a [] ys t = tt
Tagged-left m a (b ∷ xs) ys t = (t.0, t.1, t.2, t.3, Tagged-left m (a + b.size) xs ys t.4)

pub Tagged-right :
    (m : ℕ → ℕ) (a : ℕ) (xs ys : List Block) → Tagged m a (xs ++ ys) → Tagged m (a + total xs) ys
Tagged-right m a [] ys t = rw (add-zero a) t
Tagged-right m a (b ∷ xs) ys t =
    let e : a + b.size + total xs ≡ a + (b.size + total xs) = omega arith in
    rw (← e) (Tagged-right m (a + b.size) xs ys t.4)

pub Tagged-append :
    (m : ℕ → ℕ) (a : ℕ) (xs ys : List Block)
    → Tagged m a xs
    → Tagged m (a + total xs) ys
    → Tagged m a (xs ++ ys)
Tagged-append m a [] ys t u = rw (← add-zero a) u
Tagged-append m a (b ∷ xs) ys t u =
    let e : a + b.size + total xs ≡ a + (b.size + total xs) = omega arith in
    (t.0, t.1, t.2, t.3, Tagged-append m (a + b.size) xs ys t.4 (rw e u))

pub total-aligned : (m : ℕ → ℕ) (a : ℕ) (bs : List Block) → Tagged m a bs → total bs % 8 ≡ 0
total-aligned m a [] t = refl
total-aligned m a (b ∷ bs) t = omega (arith, t.3, total-aligned m (a + b.size) bs t.4)

pub used-ne_listed : (s : Status) → is_used s ≡ true → is_listed s ≡ false
used-ne_listed used h = refl
used-ne_listed listed h = cc
used-ne_listed loose h = cc

pub or-true : (b c : Bool) → (b || c) ≡ true → (b ≡ true) ⊎ (c ≡ true)
or-true true c h = inl refl
or-true false c h = inr h

pub listed-ne_used : (s : Status) → is_listed s ≡ true → is_used s ≡ false
listed-ne_used used h = cc
listed-ne_used listed h = refl
listed-ne_used loose h = refl

pub and-true : (b c : Bool) → (b && c) ≡ true → (b ≡ true) × (c ≡ true)
and-true true c h = (refl, h)
and-true false c h = cc

pub or-false : (b : Bool) → (b || false) ≡ b
or-false true = refl
or-false false = refl

pub or-right : (b c : Bool) → c ≡ true → (b || c) ≡ true
or-right true c h = refl
or-right false c h = h

pub or-left : (b c : Bool) → b ≡ true → (b || c) ≡ true
or-left true c h = refl
or-left false c h = cc

pub listed-here :
    (x i a : ℕ) (b : Block)
    → ((a == x) && is_listed b.status && (free_category b.size == i)) ≡ true
    → a ≡ x
listed-here x i a b h =
    let (both, c) = and-true ((a == x) && is_listed b.status) _ h in
    let (e, l) = and-true (a == x) _ both in ground arith

-- What stands at a listed block's address.
pub listed_at-place :
    (m : ℕ → ℕ) (x i a : ℕ) (bs : List Block)
    → Tagged m a bs
    → a % 8 ≡ 0
    → listed_at x i a bs ≡ true
    → (a ≤ x)
      × (x + 16 ≤ a + total bs)
      × (x % 8 ≡ 0)
      × (free_category (m (x - 4) - m (x - 4) % 8) ≡ i)
listed_at-place m x i a [] t al h = cc
listed_at-place m x i a (b ∷ bs) t al h =
    elim (or-true ((a == x) && is_listed b.status && (free_category b.size == i)) _ h) [
      | inl here ↦
          let (first, c) = and-true ((a == x) && is_listed b.status) _ here in
          let (e, l) = and-true (a == x) _ first in
          let e' : a ≡ x = ground arith in
          let k : free_category b.size ≡ i = ground arith in
          let word : m (a - 4) ≡ b.size = t.0 ∙ rw (listed-ne_used b.status l) refl in
          let size : m (x - 4) - m (x - 4) % 8 ≡ b.size =
            ap (λ y. m (y - 4) - m (y - 4) % 8) (sym e') ∙ omega (arith, word, t.3) in
          (
            omega (arith, e'),
            omega (arith, e', t.2),
            omega (arith, e', al),
            ap free_category size ∙ k,
          )
      | inr later ↦
          let (le, ge, al', kind) =
            listed_at-place m x i (a + b.size) bs t.4 (omega (arith, al, t.3)) later in
          (omega (arith, le), omega (arith, ge), al', kind)
    ]

pub is_payload-bounds :
    (m : ℕ → ℕ) (q a : ℕ) (bs : List Block)
    → Tagged m a bs
    → is_payload q a bs ≡ true
    → (a ≤ q) × (q + 8 < a + total bs)
is_payload-bounds m q a [] t h = cc
is_payload-bounds m q a (b ∷ bs) t h =
    elim (or-true (is_used b.status && leb a q && ltb q (a + b.size - 8)) _ h) [
      | inl here ↦
          let (first, lt) = and-true (is_used b.status && leb a q) _ here in
          let (u, le) = and-true (is_used b.status) _ first in (ground arith, ground (arith, t.2))
      | inr later ↦
          let (le, lt) = is_payload-bounds m q (a + b.size) bs t.4 later in
          (omega (arith, le), omega (arith, lt))
    ]

-- A block is of one category.
pub listed_at-one :
    (m : ℕ → ℕ) (x i j a : ℕ) (bs : List Block)
    → Tagged m a bs
    → a % 8 ≡ 0
    → listed_at x i a bs ≡ true
    → listed_at x j a bs ≡ true
    → i ≡ j
listed_at-one m x i j a bs t al h k =
    sym (listed_at-place m x i a bs t al h).3 ∙ (listed_at-place m x j a bs t al k).3

-- A word of an allocated block's payload is no link.
pub is_payload-ne_link :
    (m : ℕ → ℕ) (q x i a : ℕ) (bs : List Block)
    → Tagged m a bs
    → a % 8 ≡ 0
    → is_payload q a bs ≡ true
    → listed_at x i a bs ≡ true
    → (q ≢ x) × (q ≢ x + 4)
is_payload-ne_link m q x i a [] t al h k = cc
is_payload-ne_link m q x i a (b ∷ bs) t al h k =
    elim (or-true (is_used b.status && leb a q && ltb q (a + b.size - 8)) _ h) [
      | inl here ↦
          let (first, lt) = and-true (is_used b.status && leb a q) _ here in
          let (u, le) = and-true (is_used b.status) _ first in
          elim (or-true ((a == x) && is_listed b.status && (free_category b.size == i)) _ k) [
            | inl at ↦
                let (both, c) = and-true ((a == x) && is_listed b.status) _ at in
                let (e, l) = and-true (a == x) _ both in let no = used-ne_listed b.status u in cc
            | inr at ↦
                let p = listed_at-place m x i (a + b.size) bs t.4 (omega (arith, al, t.3)) at in
                let below : q < a + b.size - 8 = ltb→lt q (a + b.size - 8) lt in
                (omega (arith, p.0, below), omega (arith, p.0, below))
          ]
      | inr later ↦
          let (lo, hi) = is_payload-bounds m q (a + b.size) bs t.4 later in
          elim (or-true ((a == x) && is_listed b.status && (free_category b.size == i)) _ k) [
            | inl at ↦
                let (both, c) = and-true ((a == x) && is_listed b.status) _ at in
                let (e, l) = and-true (a == x) _ both in
                let e' : a ≡ x = ground arith in
                (omega (arith, lo, e', t.2), omega (arith, lo, e', t.2))
            | inr at ↦
                is_payload-ne_link m q x i (a + b.size) bs t.4 (omega (arith, al, t.3)) later at
          ]
    ]

-- Another memory that agrees on the blocks' words.
pub Tagged-frame :
    (m m' : ℕ → ℕ) (a : ℕ) (bs : List Block)
    → 4 ≤ a
    → ((q : ℕ) → a ≤ q + 4 → q + 4 < a + total bs → m' q ≡ m q)
    → Tagged m a bs
    → Tagged m' a bs
Tagged-frame m m' a [] le same t = tt
Tagged-frame m m' a (b ∷ bs) le same t = (
  same (a - 4) (omega arith) (omega (arith, t.2)) ∙ t.0,
  same (a + b.size - 8) (omega (arith, t.2)) (omega (arith, t.2)) ∙ t.1,
  t.2,
  t.3,
  Tagged-frame m m' (a + b.size) bs (omega arith)
      (λ q l r. same q (omega (arith, l)) (omega (arith, r))) t.4,
)
