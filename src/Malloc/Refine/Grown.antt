-- ===== src/Malloc/Refine/Grown.antt =====
-- A heap of blocks with one more block behind the last one, as `extend_heap` of malloclab/mm.c makes it.
use system_programming_lab.Base.{
  ℕ, ◌+◌, ◌-◌, ◌*◌, ◌%◌, ◌<◌, ◌≡◌, ◌∙◌, sym, refl, ap, Bool, true, false, ◌&&◌, ◌||◌, List, [], ◌∷◌,
  ◌++◌, ◌==◌, arith,
}
use system_programming_lab.Malloc.FreeList.Chain.{Chain-frame}
use system_programming_lab.Malloc.Fit.{categories}
use system_programming_lab.Malloc.Layout.{
  loose, Block, total, Tagged, listed_at, has, size_in, Contents, KeepsPayload,
}
use system_programming_lab.Malloc.Layout.Blocks.{
  total-append, Tagged-append, Tagged-frame, listed_at-append, listed_at-place, is_payload-bounds,
  or-false,
}
use system_programming_lab.Malloc.Layout.Lists.{blk, All-has, IsSortedBy-same, listed_count-append}

-- A block in no list behind the last one, and the epilogue behind it.
module _ (m m' : ℕ → ℕ) (start n : ℕ) (bs : List Block) (lists : ℕ → List ℕ) (al : start % 8 ≡ 0)
    (pos : 0 < start) (co : Contents m start bs lists)
    (same : (q : ℕ) → q + 4 < start + 56 + total bs → m' q ≡ m q)
    (tagged : Tagged m' (start + 56 + total bs) (blk n loose ∷ []))
    (epilogue : m' (start + 52 + total bs + n) ≡ 1) where
  pub grown_total : total (bs ++ blk n loose ∷ []) ≡ total bs + n
  grown_total = omega (arith, total-append bs (blk n loose ∷ []))

  same_members :
      (x i : ℕ)
      → listed_at x i (start + 56) (bs ++ blk n loose ∷ []) ≡ listed_at x i (start + 56) bs
  same_members x i =
      listed_at-append x i (start + 56) bs (blk n loose ∷ [])
      ∙ ap (λ b. listed_at x i (start + 56) bs || b) (fold (start + 56 + total bs == x) _)
      ∙ or-false _
    where
      fold : (c d : Bool) → ((c && false && d) || false) ≡ false
      fold true d = refl
      fold false d = refl

  same_links :
      (i : ℕ)
      → i < categories
      → (x : ℕ) → has x (lists i) ≡ true
      → (m' x ≡ m x) × (m' (x + 4) ≡ m (x + 4)) × (m' (x - 4) ≡ m (x - 4))
  same_links i lt x h =
      let (lo, hi, al', kind) =
        listed_at-place m x i (start + 56) bs co.tagged (omega arith)
          (sym (co.members i lt x) ∙ h) in
      (
        same x (omega (arith, hi)),
        same (x + 4) (omega (arith, hi)),
        same (x - 4) (omega (arith, hi)),
      )

  pub grown-Contents : Contents m' start (bs ++ blk n loose ∷ []) lists
  grown-Contents = record {
    prologue = (
      same (start + 44) (omega arith) ∙ co.prologue.0,
      same (start + 48) (omega arith) ∙ co.prologue.1,
    );
    epilogue = ap m' (omega (arith, grown_total)) ∙ epilogue;
    tagged =
        Tagged-append m' (start + 56) bs (blk n loose ∷ [])
          (Tagged-frame m m' (start + 56) bs (omega arith) (λ q l r. same q r) co.tagged) tagged;
    chains = λ i lt. rw (same (start + i * 4) (omega (arith, lt))) (
        Chain-frame m m' 0 (m (start + i * 4)) (lists i)
          (All-has {P = λ x. (m' x ≡ m x) × (m' (x + 4) ≡ m (x + 4))} (lists i)
            λ x h. let s = same_links i lt x h in (s.0, s.1))
          (co.chains i lt));
    places = co.places;
    sorted = λ i lt.
        IsSortedBy-same (size_in m) (size_in m') (lists i)
          (All-has {P = λ x. size_in m' x ≡ size_in m x} (lists i)
            λ x h. ap (λ n. n - n % 8) (same_links i lt x h).2)
          (co.sorted i lt);
    members = λ i lt x. co.members i lt x ∙ sym (same_members x i);
    lengths = λ i lt. omega (arith, co.lengths i lt, listed_count-append i bs (blk n loose ∷ []));
  }

  pub grown-KeepsPayload : KeepsPayload m m' (start + 56) bs
  grown-KeepsPayload q h =
      let (lo, hi) = is_payload-bounds m q (start + 56) bs co.tagged h in same q (omega (arith, hi))
