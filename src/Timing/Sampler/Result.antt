-- ===== src/Timing/Sampler/Result.antt =====
-- What fcyc of malloclab/fcyc.c returns, and after how many samples.
use system_programming_lab.Base.{
  ℕ, zero, suc, ◌+◌, ◌-◌, ◌≤◌, ◌<◌, ◌≡◌, ◌∙◌, refl, sym, ap, inl, inr, ◌⊎◌, true, false, not, ◌&&◌,
  Bool, Option, some, List, [], ◌∷◌, ◌++◌, ltb, ltb→lt, if◌then◌else◌, All, Bool-cases, arith,
  replicate, length,
}
use mathlib.Core.Path.{subst}
use system_programming_lab.Timing.Sampler.{
  Sampler, Clock, get_or, init_sampler, add_sample, has_converged, measure, sample_loop, fcyc,
}
use system_programming_lab.Timing.Sampler.Sorted.{insert, IsSorted}
use system_programming_lab.Timing.Sampler.Best.{
  take, sort, sort-IsSorted, HoldsBest, init_sampler-HoldsBest, add_sample-HoldsBest,
}

-- What the counter says for the k-th sample.
abbrev pub reading : Clock → Bool → ℕ → ℕ
reading clock compensate k = if compensate then clock.get_comp_counter k else clock.get_counter k

-- The first samples, the latest first.
abbrev pub readings : Clock → Bool → ℕ → List ℕ
readings clock b zero = []
readings clock b (suc n) = reading clock b n ∷ readings clock b n

-- What the loop does not change.
record Same (s s' : Sampler) : Type 0 where
  kbest : s'.kbest ≡ s.kbest
  maxsamples : s'.maxsamples ≡ s.maxsamples
  compensate : s'.compensate ≡ s.compensate
  clear_cache : s'.clear_cache ≡ s.clear_cache

add_sample-Same : (x : ℕ) (s : Sampler) → Same s (add_sample x s)
unfolding add_sample
add_sample-Same x s = record {
  kbest = ground arith;
  maxsamples = ground arith;
  compensate = ground arith;
  clear_cache = ground arith;
}

All-of_insert : (P : ℕ → Type 0) (x : ℕ) (ys : List ℕ) → All P (insert x ys) → P x × All P ys
All-of_insert P x [] h = h
All-of_insert P x (y ∷ ys) h = elim (Bool-cases (ltb x y)) [
  | inl lt ↦ rw lt at h
  | inr ge ↦
      let k : P y × All P (insert x ys) = rw ge at h in
      let r = All-of_insert P x ys k.1 in (r.0, (k.0, r.1))
]

All-of_sort : (P : ℕ → Type 0) (xs : List ℕ) → All P (sort xs) → All P xs
All-of_sort P [] h = tt
All-of_sort P (x ∷ xs) h = let r = All-of_insert P x (sort xs) h in (r.0, All-of_sort P xs r.1)

module _ (clock : Clock) (fuel : ℕ) (p : ℕ) where
  measure-plain :
      (b : Bool) (s : Sampler) (k : ℕ)
      → s.clear_cache ≡ false
      → s.compensate ≡ b
      → s.samplecount ≡ k
      → measure clock fuel s ≡ some (add_sample (reading clock b k) s)
  unfolding measure
  measure-plain b s k e c n = rw (e, measure, c, n) refl

  -- The least sample stands first.
  sort-first :
      (b : Bool) (n : ℕ)
      → (i : ℕ) × (vs : List ℕ) × (i < suc n)
        × (sort (readings clock b (suc n)) ≡ reading clock b i ∷ vs)
  sort-first b zero = (0, [], omega arith, refl)
  sort-first b (suc n) =
      let (i, vs, lt, e) = sort-first b n in
      elim (Bool-cases (ltb (reading clock b (suc n)) (reading clock b i))) [
        | inl less ↦ (
          suc n,
          reading clock b i ∷ vs,
          omega arith,
          ap (insert (reading clock b (suc n))) e ∙ rw less refl,
        )
        | inr more ↦ (
          i,
          insert (reading clock b (suc n)) vs,
          omega (arith, lt),
          ap (insert (reading clock b (suc n))) e ∙ rw more refl,
        )
      ]

  sort-least : (xs : List ℕ) {v : ℕ} {vs : List ℕ} → sort xs ≡ v ∷ vs → All (λ x. v ≤ x) xs
  sort-least xs {v} {vs} e =
      let s : IsSorted (v ∷ vs) = subst IsSorted e (sort-IsSorted xs) in
      All-of_sort (λ x. v ≤ x) xs (subst (All (λ x. v ≤ x)) (sym e) (omega arith, s.0))

  sample_loop-step :
      (rounds : ℕ) (s s' : Sampler)
      → measure clock fuel s ≡ some s'
      → sample_loop clock fuel (suc rounds) s
        ≡ elim (not (has_converged s') && ltb s'.samplecount s'.maxsamples)
            as (λ _. Option Sampler) [ true ↦ sample_loop clock fuel rounds s' | false ↦ some s' ]
  unfolding sample_loop
  sample_loop-step rounds s s' e = rw (e, sample_loop) refl

  length-readings : (b : Bool) (n : ℕ) → length (readings clock b n) ≡ n
  length-readings b zero = refl
  length-readings b (suc n) = ap suc (length-readings b n)

  -- How the loop ended: behind `m` samples and one.
  record Ended (b : Bool) (most n : ℕ) (result : Option Sampler) : Type 0 where
    m : ℕ
    sampler : Sampler
    is_result : result ≡ some sampler
    holds : HoldsBest sampler (readings clock b (suc m))
    kept : sampler.kbest ≡ suc p
    more : n ≤ m
    few : (suc m ≤ most) ⊎ (m ≡ n)
    reason : (has_converged sampler ≡ true) ⊎ (most ≤ suc m)

  -- The loop with `n` samples so far.
  sample_loop-Ended :
      (b : Bool) (most rounds n : ℕ) (s : Sampler)
      → s.clear_cache ≡ false
      → s.compensate ≡ b
      → s.maxsamples ≡ most
      → s.kbest ≡ suc p
      → HoldsBest s (readings clock b n)
      → 0 < rounds
      → most < n + rounds
      → Ended b most n (sample_loop clock fuel rounds s)
  sample_loop-Ended b most zero n s plain cb ms k h some_round enough = absurd (omega arith)
  sample_loop-Ended b most (suc rounds) n s plain cb ms k h some_round enough =
      let s' : Sampler = add_sample (reading clock b n) s in
      let same = add_sample-Same (reading clock b n) s in
      let h' : HoldsBest s' (readings clock b (suc n)) =
        add_sample-HoldsBest s p (reading clock b n) (readings clock b n) k h in
      let step =
        sample_loop-step rounds s s'
          (measure-plain b s n plain cb (h.count ∙ length-readings b n)) in
      let count : s'.samplecount ≡ suc n = h'.count ∙ length-readings b (suc n) in
      let most' : s'.maxsamples ≡ most = same.maxsamples ∙ ms in
      elim (Bool-cases (not (has_converged s') && ltb s'.samplecount s'.maxsamples)) [
        | inl on ↦
            let under : ltb s'.samplecount s'.maxsamples ≡ true = ground arith in
            let lt : suc n < most = omega (arith, ltb→lt _ _ under, count, most') in
            let r =
              sample_loop-Ended b most rounds (suc n) s' (same.clear_cache ∙ plain)
                (same.compensate ∙ cb) most' (same.kbest ∙ k) h' (omega (arith, lt, enough))
                (omega (arith, enough)) in
            record {
              m = r.m;
              sampler = r.sampler;
              is_result = step ∙ rw on r.is_result;
              holds = r.holds;
              kept = r.kept;
              more = omega (arith, r.more);
              few = inl (elim r.few [ inl le ↦ le | inr e ↦ omega (arith, e, lt) ]);
              reason = r.reason;
            }
        | inr off ↦ record {
          m = n;
          sampler = s';
          is_result = step ∙ rw off refl;
          holds = h';
          kept = same.kbest ∙ k;
          more = omega arith;
          few = inr refl;
          reason = elim (Bool-cases (has_converged s')) [
            | inl yes_it_has ↦ inl yes_it_has
            | inr not_yet ↦
                let over : ltb s'.samplecount s'.maxsamples ≡ false = ground arith in
                inr (ground (arith, count, most'))
          ];
        }
      ]

  -- Where the cache is not cleared, at least one value is kept and the rounds are more than
  -- `maxsamples`, fcyc returns after some samples, at most `maxsamples` or only one. Its result is one
  -- of them and at most each of them; its array held the smallest of them in their order; and it
  -- stopped since they had converged or since they were `maxsamples` or more.
  pub fcyc-least :
      (rounds : ℕ) (s : Sampler)
      → s.clear_cache ≡ false
      → s.kbest ≡ suc p
      → s.maxsamples < rounds
      → (n : ℕ) × (i : ℕ) × (s' : Sampler) × (fcyc clock fuel rounds s
          ≡ some (reading clock s.compensate i, record s' { values = [] }))
        × (i < n)
        × All (λ x. reading clock s.compensate i ≤ x) (readings clock s.compensate n)
        × HoldsBest s' (readings clock s.compensate n)
        × ((n ≤ s.maxsamples) ⊎ (n ≡ 1))
        × ((has_converged s' ≡ true) ⊎ (s.maxsamples ≤ n))
  unfolding fcyc init_sampler
  fcyc-least rounds s plain k enough =
      let r =
        sample_loop-Ended s.compensate s.maxsamples rounds 0 (init_sampler s) plain refl refl k
          (init_sampler-HoldsBest s) (omega (arith, enough)) (omega (arith, enough)) in
      let (i, vs, lt, e) = sort-first s.compensate r.m in
      let first : get_or r.sampler.values 0 ≡ reading clock s.compensate i =
        ap (λ l. get_or l 0)
          (r.holds.best
            ∙ ap
                (λ n.
                  take n (sort (readings clock s.compensate (suc r.m)))
                  ++ replicate (n - length (readings clock s.compensate (suc r.m))) 0)
                r.kept
            ∙ ap
                (λ l.
                  take (suc p) l
                  ++ replicate (suc p - length (readings clock s.compensate (suc r.m))) 0)
                e) in
      (
        suc r.m,
        i,
        r.sampler,
        rw (r.is_result, fcyc) (ap (λ v. some (v, record (r.sampler) { values = [] })) first),
        lt,
        sort-least (readings clock s.compensate (suc r.m)) e,
        r.holds,
        elim r.few [ inl le ↦ inl le | inr z ↦ inr (omega (arith, z)) ],
        r.reason,
      )
