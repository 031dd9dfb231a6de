-- ===== src/Malloc/Layout/Lists.antt =====
-- Membership in the free lists, and the change of one block's status.
use system_programming_lab.Base.{
  ℕ, ◌+◌, ◌%◌, ◌≤◌, ◌≡◌, ◌≢◌, ◌∙◌, sym, refl, ap, inl, inr, Bool, true, false, ◌&&◌, ◌||◌, List, [],
  ◌∷◌, ◌++◌, ◌==◌, if◌then◌else◌, Bool-cases, All, length, length-append, arith,
}
use mathlib.Core.Bool.{or_assoc}
use system_programming_lab.Malloc.FreeList.{free_category}
use system_programming_lab.Malloc.FreeList.Chain.{IsOut}
use system_programming_lab.Malloc.FreeList.Sorted.{
  smaller, not_smaller, insert_by, smaller-append, IsSortedBy,
}
use system_programming_lab.Malloc.Layout.{
  Status, listed, loose, Block, is_used, is_listed, tag, total, Tagged, listed_at, listed_count,
  is_payload, has,
}
use system_programming_lab.Malloc.Layout.Blocks.{
  or-false, or-right, listed_at-place, listed_at-append, is_payload-append, Tagged-left,
  Tagged-right, total-append, total-aligned,
}

pub has-append : (x : ℕ) (xs ys : List ℕ) → has x (xs ++ ys) ≡ (has x xs || has x ys)
has-append x [] ys = refl
has-append x (y ∷ xs) ys = rw (has-append x xs ys) (sym (or_assoc (y == x) (has x xs) (has x ys)))

pub All-has : {P : ℕ → Type 0} (xs : List ℕ) → ((x : ℕ) → has x xs ≡ true → P x) → All P xs
All-has [] f = tt
All-has (y ∷ ys) f =
    let here : (y == y) ≡ true = ground arith in
    (f y (rw here refl), All-has ys (λ x h. f x (or-right (y == x) _ h)))

pub IsOut-of_has : (p : ℕ) (xs : List ℕ) → has p xs ≡ false → IsOut p xs
IsOut-of_has p [] h = tt
IsOut-of_has p (y ∷ ys) h = elim (Bool-cases (y == p)) [
  | inl e ↦ let h' : true ≡ false = rw e at h in cc
  | inr ne ↦ (ground arith, IsOut-of_has p ys (rw ne at h))
]

pub has-of_IsOut : (p : ℕ) (xs : List ℕ) → IsOut p xs → has p xs ≡ false
has-of_IsOut p [] o = refl
has-of_IsOut p (y ∷ ys) o =
    let ne : (y == p) ≡ false = ground (arith, o.0) in rw ne (has-of_IsOut p ys o.1)

-- A member stands somewhere in the list.
pub split_at :
    (p : ℕ) (xs : List ℕ) → has p xs ≡ true → (ys : List ℕ) × (zs : List ℕ) × (xs ≡ ys ++ p ∷ zs)
split_at p [] h = cc
split_at p (y ∷ ys) h = elim (Bool-cases (y == p)) [
  | inl e ↦ let e' : y ≡ p = ground arith in ([], ys, ap (λ z. z ∷ ys) e')
  | inr ne ↦ let (us, vs, e) = split_at p ys (rw ne at h) in (y ∷ us, vs, ap (λ zs. y ∷ zs) e)
]

pub has-insert_by :
    (sz : ℕ → ℕ) (x p : ℕ) (xs : List ℕ) → has x (insert_by sz p xs) ≡ ((p == x) || has x xs)
has-insert_by sz x p xs =
    let parts : (has x (smaller sz (sz p) xs) || has x (not_smaller sz (sz p) xs)) ≡ has x xs =
      sym (has-append x (smaller sz (sz p) xs) (not_smaller sz (sz p) xs))
      ∙ ap (has x) (smaller-append sz (sz p) xs) in
    has-append x (smaller sz (sz p) xs) (p ∷ not_smaller sz (sz p) xs) ∙ swap _ (p == x) _ _ parts
  where
    swap : (a b c d : Bool) → (a || c) ≡ d → (a || (b || c)) ≡ (b || d)
    swap true true c d e = refl
    swap true false c d e = e
    swap false true c d e = refl
    swap false false c d e = e

pub has-remove : (x p : ℕ) (ys zs : List ℕ) → p ≢ x → has x (ys ++ zs) ≡ has x (ys ++ p ∷ zs)
has-remove x p ys zs ne =
    let no : (p == x) ≡ false = ground arith in
    rw (has-append x ys zs, has-append x ys (p ∷ zs), no) refl

pub IsSortedBy-same :
    (sz sz' : ℕ → ℕ) (xs : List ℕ)
    → All (λ x. sz' x ≡ sz x) xs
    → IsSortedBy sz xs
    → IsSortedBy sz' xs
IsSortedBy-same sz sz' [] e s = tt
IsSortedBy-same sz sz' (x ∷ xs) e s =
    (above sz sz' x xs e.0 e.1 s.0, IsSortedBy-same sz sz' xs e.1 s.1)
  where
    above :
        (sz sz' : ℕ → ℕ) (x : ℕ) (xs : List ℕ)
        → sz' x ≡ sz x
        → All (λ y. sz' y ≡ sz y) xs
        → All (λ y. sz x ≤ sz y) xs
        → All (λ y. sz' x ≤ sz' y) xs
    above sz sz' x [] e es s = tt
    above sz sz' x (y ∷ ys) e es s = (omega (arith, e, es.0, s.0), above sz sz' x ys e es.1 s.1)

-- A block of a given size and status.
abbrev pub blk : ℕ → Status → Block
blk size status = record { size = size; status = status }

-- A block of another status is seen at its own address only.
pub listed_at-other :
    (x i a s : ℕ) (st st' : Status) (xs ys : List Block)
    → a + total xs ≢ x
    → listed_at x i a (xs ++ blk s st ∷ ys) ≡ listed_at x i a (xs ++ blk s st' ∷ ys)
listed_at-other x i a s st st' xs ys ne =
    let no : (a + total xs == x) ≡ false = ground arith in
    rw (listed_at-append x i a xs (blk s st ∷ ys), listed_at-append x i a xs (blk s st' ∷ ys), no)
      refl

pub listed_at_self :
    (m : ℕ → ℕ) (i a s : ℕ) (st : Status) (xs ys : List Block)
    → Tagged m a (xs ++ blk s st ∷ ys)
    → a % 8 ≡ 0
    → listed_at (a + total xs) i a (xs ++ blk s st ∷ ys) ≡ (is_listed st && (free_category s == i))
listed_at_self m i a s st xs ys t al =
    let here : (a + total xs == a + total xs) ≡ true = ground arith in
    let right = Tagged-right m a xs (blk s st ∷ ys) t in
    let before : listed_at (a + total xs) i a xs ≡ false =
      elim (Bool-cases (listed_at (a + total xs) i a xs)) [
        | inl h ↦
            let (lo, hi, al', kind) =
              listed_at-place m (a + total xs) i a xs (Tagged-left m a xs _ t) al h in
            absurd (omega (arith, hi))
        | inr h ↦ h
      ] in
    let behind : listed_at (a + total xs) i (a + total xs + s) ys ≡ false =
      elim (Bool-cases (listed_at (a + total xs) i (a + total xs + s) ys)) [
        | inl h ↦
            let mult = total-aligned m a xs (Tagged-left m a xs _ t) in
            let (lo, hi, al', kind) =
              listed_at-place m (a + total xs) i (a + total xs + s) ys right.4
                (omega (arith, al, mult, right.3)) h in
            absurd (omega (arith, lo, right.2))
        | inr h ↦ h
      ] in
    rw (listed_at-append (a + total xs) i a xs (blk s st ∷ ys), before, here, behind) (or-false _)

-- Blocks of either free status have the same headers and footers, and the same payloads around them.
pub Tagged-free :
    (m : ℕ → ℕ) (a s : ℕ) (st st' : Status) (xs ys : List Block)
    → is_used st ≡ false
    → is_used st' ≡ false
    → Tagged m a (xs ++ blk s st ∷ ys)
    → Tagged m a (xs ++ blk s st' ∷ ys)
Tagged-free m a s st st' [] ys u u' t =
    let e : tag (blk s st) ≡ tag (blk s st') = rw (u, u') refl in (t.0 ∙ e, t.1 ∙ e, t.2, t.3, t.4)
Tagged-free m a s st st' (b ∷ xs) ys u u' t =
    (t.0, t.1, t.2, t.3, Tagged-free m (a + b.size) s st st' xs ys u u' t.4)

pub is_payload-free :
    (q a s : ℕ) (st st' : Status) (xs ys : List Block)
    → is_used st ≡ false
    → is_used st' ≡ false
    → is_payload q a (xs ++ blk s st ∷ ys) ≡ is_payload q a (xs ++ blk s st' ∷ ys)
is_payload-free q a s st st' xs ys u u' =
    rw (is_payload-append q a xs (blk s st ∷ ys), is_payload-append q a xs (blk s st' ∷ ys), u, u')
      refl

pub total-status :
    (s : ℕ) (st st' : Status) (xs ys : List Block)
    → total (xs ++ blk s st ∷ ys) ≡ total (xs ++ blk s st' ∷ ys)
total-status s st st' xs ys =
    total-append xs (blk s st ∷ ys) ∙ sym (total-append xs (blk s st' ∷ ys))

pub listed_count-append :
    (i : ℕ) (xs ys : List Block) → listed_count i (xs ++ ys) ≡ listed_count i xs + listed_count i ys
listed_count-append i [] ys = omega arith
listed_count-append i (b ∷ xs) ys = omega (arith, listed_count-append i xs ys)

pub listed_count-le : (i : ℕ) (bs : List Block) → listed_count i bs ≤ length bs
listed_count-le i [] = omega arith
listed_count-le i (b ∷ bs) = ground (arith, listed_count-le i bs)

-- Listing a loose block counts it in its category.
pub listed_count-listed :
    (i s : ℕ) (xs ys : List Block)
    → listed_count i (xs ++ blk s listed ∷ ys)
      ≡ listed_count i (xs ++ blk s loose ∷ ys) + (if free_category s == i then 1 else 0)
listed_count-listed i s xs ys = omega (
  arith,
  listed_count-append i xs (blk s listed ∷ ys),
  listed_count-append i xs (blk s loose ∷ ys),
)

pub length-insert_by :
    (sz : ℕ → ℕ) (p : ℕ) (xs : List ℕ) → length (insert_by sz p xs) ≡ length xs + 1
length-insert_by sz p xs =
    let e = length-append (smaller sz (sz p) xs) (p ∷ not_smaller sz (sz p) xs) in
    let f = length-append (smaller sz (sz p) xs) (not_smaller sz (sz p) xs) in
    let parts = ap length (smaller-append sz (sz p) xs) in omega (arith, e, f, parts)
