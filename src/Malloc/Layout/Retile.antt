-- ===== src/Malloc/Layout/Retile.antt =====
-- Blocks in no list are replaced by others of the same extent: the rest of the heap stays as it was.
use system_programming_lab.Base.{
  ℕ, ◌+◌, ◌-◌, ◌*◌, ◌%◌, ◌≤◌, ◌<◌, ◌≡◌, ◌∙◌, sym, refl, ap, inl, inr, ◌⊎◌, Bool, true, false, ◌&&◌,
  ◌||◌, List, [], ◌∷◌, ◌++◌, ◌==◌, All, arith,
}
use system_programming_lab.Malloc.FreeList.Chain.{Chain-frame}
use system_programming_lab.Malloc.Fit.{categories}
use system_programming_lab.Malloc.Layout.{
  Block, is_used, is_listed, total, Tagged, listed_at, listed_count, is_payload, has, size_in,
  Contents, KeepsPayload,
}
use system_programming_lab.Malloc.Layout.Blocks.{
  total-append, listed_at-append, is_payload-append, Tagged-left, Tagged-right, Tagged-append,
  total-aligned, or-true, listed_at-place, is_payload-bounds, Tagged-frame,
}
use system_programming_lab.Malloc.Layout.Lists.{All-has, IsSortedBy-same, listed_count-append}

abbrev pub NoneListed : List Block → Type 0
NoneListed bs = All (λ b. is_listed b.status ≡ false) bs

abbrev pub NoneUsed : List Block → Type 0
NoneUsed bs = All (λ b. is_used b.status ≡ false) bs

listed_at-none : (x i a : ℕ) (bs : List Block) → NoneListed bs → listed_at x i a bs ≡ false
listed_at-none x i a [] n = refl
listed_at-none x i a (b ∷ bs) n = rw (n.0, listed_at-none x i (a + b.size) bs n.1) (fold (a == x) _)
  where
    fold : (c d : Bool) → ((c && false && d) || false) ≡ false
    fold true d = refl
    fold false d = refl

listed_count-none : (i : ℕ) (bs : List Block) → NoneListed bs → listed_count i bs ≡ 0
listed_count-none i [] n = refl
listed_count-none i (b ∷ bs) n = rw (n.0, listed_count-none i bs n.1) refl

is_payload-none : (q a : ℕ) (bs : List Block) → NoneUsed bs → is_payload q a bs ≡ false
is_payload-none q a [] n = refl
is_payload-none q a (b ∷ bs) n = rw (n.0, is_payload-none q (a + b.size) bs n.1) refl

-- The payloads of allocated blocks are the same before and behind an extent of `n` bytes.
abbrev pub KeepsAround : (m m' : ℕ → ℕ) → ℕ → List Block → ℕ → List Block → Type 0
KeepsAround m m' a xs n ys =
    (q : ℕ) → (is_payload q a xs || is_payload q (a + total xs + n) ys) ≡ true → m' q ≡ m q

pub payload-around :
    (q a n : ℕ) (xs core ys : List Block)
    → NoneUsed core
    → total core ≡ n
    → is_payload q a (xs ++ (core ++ ys))
      ≡ (is_payload q a xs || is_payload q (a + total xs + n) ys)
payload-around q a n xs core ys free e =
    rw
      (
        is_payload-append q a xs (core ++ ys),
        is_payload-append q (a + total xs) core ys,
        is_payload-none q (a + total xs) core free,
        e,
      )
      refl

pub KeepsAround-of_payload :
    (m m' : ℕ → ℕ) (a n : ℕ) (xs core ys : List Block)
    → NoneUsed core
    → total core ≡ n
    → KeepsPayload m m' a (xs ++ (core ++ ys))
    → KeepsAround m m' a xs n ys
KeepsAround-of_payload m m' a n xs core ys free e keeps q h =
    keeps q (payload-around q a n xs core ys free e ∙ h)

pub KeepsPayload-of_around :
    (m m' : ℕ → ℕ) (a n : ℕ) (xs core ys : List Block)
    → NoneUsed core
    → total core ≡ n
    → KeepsAround m m' a xs n ys
    → KeepsPayload m m' a (xs ++ (core ++ ys))
KeepsPayload-of_around m m' a n xs core ys free e keeps q h =
    keeps q (sym (payload-around q a n xs core ys free e) ∙ h)

-- `mid` becomes `mid'` behind the blocks `xs`, before the blocks `ys`.
module _ (m m' : ℕ → ℕ) (start : ℕ) (xs mid mid' ys : List Block) (lists : ℕ → List ℕ)
    (al : start % 8 ≡ 0) (pos : 0 < start) (co : Contents m start (xs ++ (mid ++ ys)) lists)
    (none : NoneListed mid) (none' : NoneListed mid') (same_total : total mid' ≡ total mid)
    (tagged : Tagged m' (start + 56 + total xs) mid')
    (same : (q : ℕ)
      → (q + 4 < start + 56 + total xs) ⊎ (start + 56 + total xs + total mid ≤ q + 4)
      → m' q ≡ m q) where
  abbrev at : ℕ
  at = start + 56 + total xs

  abbrev before : List Block
  before = xs ++ (mid ++ ys)

  abbrev after : List Block
  after = xs ++ (mid' ++ ys)

  totals : (total before ≡ total xs + (total mid + total ys)) × (total after ≡ total before)
  totals =
      let e = total-append xs (mid ++ ys) in
      let f = total-append mid ys in
      let e' = total-append xs (mid' ++ ys) in
      let f' = total-append mid' ys in
      (omega (arith, e, f), omega (arith, e, f, e', f', same_total))

  left : Tagged m (start + 56) xs
  left = Tagged-left m (start + 56) xs (mid ++ ys) co.tagged

  right : Tagged m (at + total mid) ys
  right = Tagged-right m at mid ys (Tagged-right m (start + 56) xs (mid ++ ys) co.tagged)

  at_aligned : (at + total mid) % 8 ≡ 0
  at_aligned =
      let l = total-aligned m (start + 56) xs left in
      let r =
        total-aligned m at mid
          (Tagged-left m at mid ys (Tagged-right m (start + 56) xs (mid ++ ys) co.tagged)) in
      omega (arith, l, r, al)

  before_parts :
      (x i : ℕ)
      → listed_at x i (start + 56) before
        ≡ (listed_at x i (start + 56) xs || listed_at x i (at + total mid) ys)
  before_parts x i =
      rw
        (
          listed_at-append x i (start + 56) xs (mid ++ ys),
          listed_at-append x i at mid ys,
          listed_at-none x i at mid none,
        )
        refl

  after_parts : (x i : ℕ) → listed_at x i (start + 56) after ≡ listed_at x i (start + 56) before
  after_parts x i =
      rw
        (
          before_parts x i,
          listed_at-append x i (start + 56) xs (mid' ++ ys),
          listed_at-append x i at mid' ys,
          listed_at-none x i at mid' none',
          same_total,
        )
        refl

  -- The words of a listed block are as they were.
  same_at :
      (x i : ℕ)
      → listed_at x i (start + 56) before ≡ true
      → (m' x ≡ m x) × (m' (x + 4) ≡ m (x + 4)) × (m' (x - 4) ≡ m (x - 4))
  same_at x i h = elim (or-true (listed_at x i (start + 56) xs) _ (sym (before_parts x i) ∙ h)) [
    | inl k ↦
        let (lo, hi, al', kind) = listed_at-place m x i (start + 56) xs left (omega arith) k in
        (
          same x (inl (omega (arith, hi))),
          same (x + 4) (inl (omega (arith, hi))),
          same (x - 4) (inl (omega (arith, hi, lo))),
        )
    | inr k ↦
        let (lo, hi, al', kind) = listed_at-place m x i (at + total mid) ys right at_aligned k in
        (
          same x (inr (omega (arith, lo))),
          same (x + 4) (inr (omega (arith, lo))),
          same (x - 4) (inr (omega (arith, lo))),
        )
  ]

  listed_member :
      (i : ℕ)
      → i < categories
      → (x : ℕ) → has x (lists i) ≡ true
      → listed_at x i (start + 56) before ≡ true
  listed_member i lt x h = sym (co.members i lt x) ∙ h

  new-Tagged : Tagged m' (start + 56) after
  new-Tagged =
      Tagged-append m' (start + 56) xs (mid' ++ ys)
        (Tagged-frame m m' (start + 56) xs (omega arith) (λ q l r. same q (inl r)) left)
        (Tagged-append m' at mid' ys tagged (
          rw same_total
            (Tagged-frame m m' (at + total mid) ys (omega arith) (λ q l r. same q (inr l)) right)))

  pub retile-Contents : Contents m' start after lists
  retile-Contents = record {
    prologue = (
      same (start + 44) (inl (omega arith)) ∙ co.prologue.0,
      same (start + 48) (inl (omega arith)) ∙ co.prologue.1,
    );
    epilogue =
        same (start + 52 + total after) (inr (omega (arith, totals)))
        ∙ ap (λ n. m (start + 52 + n)) totals.1
        ∙ co.epilogue;
    tagged = new-Tagged;
    chains = λ i lt.
        let root = same (start + i * 4) (inl (omega (arith, lt))) in
        rw root (
          Chain-frame m m' 0 (m (start + i * 4)) (lists i)
            (All-has {P = λ x. (m' x ≡ m x) × (m' (x + 4) ≡ m (x + 4))} (lists i)
              λ x h. let s = same_at x i (listed_member i lt x h) in (s.0, s.1))
            (co.chains i lt));
    places = co.places;
    sorted = λ i lt.
        IsSortedBy-same (size_in m) (size_in m') (lists i)
          (All-has {P = λ x. size_in m' x ≡ size_in m x} (lists i)
            λ x h. ap (λ n. n - n % 8) (same_at x i (listed_member i lt x h)).2)
          (co.sorted i lt);
    members = λ i lt x. co.members i lt x ∙ sym (after_parts x i);
    lengths = λ i lt.
        let a = listed_count-append i xs (mid ++ ys) in
        let b = listed_count-append i mid ys in
        let a' = listed_count-append i xs (mid' ++ ys) in
        let b' = listed_count-append i mid' ys in
        let n = listed_count-none i mid none in
        let n' = listed_count-none i mid' none' in
        omega (arith, co.lengths i lt, a, b, a', b', n, n');
  }

  -- The payloads outside.
  pub retile-KeepsAround : KeepsAround m m' (start + 56) xs (total mid) ys
  retile-KeepsAround q h = elim (or-true (is_payload q (start + 56) xs) _ h) [
    | inl k ↦
        let (lo, hi) = is_payload-bounds m q (start + 56) xs left k in
        same q (inl (omega (arith, hi)))
    | inr k ↦
        let (lo, hi) = is_payload-bounds m q (at + total mid) ys right k in
        same q (inr (omega (arith, lo)))
  ]
