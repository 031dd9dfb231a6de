-- ===== src/Timing/Tests.antt =====
-- The sampler of malloclab/fcyc.c on concrete times.
use system_programming_lab.Base.{
  ℕ, zero, suc, ◌≤◌, ◌<◌, ◌≡◌, ◌⊎◌, refl, true, false, none, some, [], ◌∷◌, All, arith,
}
use system_programming_lab.Timing.Sampler.{
  Sampler, Clock, init_sampler, add_sample, has_converged, fcyc, clear, set_fcyc_k,
  set_fcyc_cache_size,
}
use system_programming_lab.Timing.Sampler.Best.{HoldsBest}
use system_programming_lab.Timing.Sampler.Result.{reading, readings, fcyc-least}

-- The sampler as the program starts, but for three samples that are kept.
abbrev sampler : Sampler
sampler = record {
  kbest = 3;
  maxsamples = 20;
  epsilon_num = 1;
  epsilon_den = 100;
  compensate = false;
  clear_cache = false;
  cache_bytes = 64;
  cache_block = 32;
  cache_buf = none;
  values = [];
  samplecount = 0;
  sink = 0;
}

-- The times of the samples fall from 1008 to 1000.
abbrev clock : Clock
clock = record {
  malloc = λ bytes. some (1 ∷ 2 ∷ 3 ∷ []);
  get_counter = λ k. elim k [
    | zero ↦ 2000
    | suc zero ↦ 1008
    | suc (suc zero) ↦ 3000
    | suc (suc (suc zero)) ↦ 1004
    | other ↦ 1000
  ];
  get_comp_counter = λ k. 5;
}

three_smallest :
    (add_sample 1004
      (add_sample 3000 (add_sample 1008 (add_sample 2000 (init_sampler sampler))))).values
    ≡ 1004 ∷ 1008 ∷ 2000 ∷ []
unfolding add_sample init_sampler
three_smallest = refl

-- Five samples are enough.
measured : (s : Sampler) × (fcyc clock 100 21 sampler ≡ some (1000, s)) × (s.samplecount ≡ 5)
unfolding fcyc
measured = (_, refl, refl)

cleared : (s : Sampler) × (clear clock 100 sampler ≡ some s) × (s.sink ≡ 1)
unfolding clear
cleared = (_, refl, refl)

resized : (set_fcyc_cache_size 32 (set_fcyc_k 2 sampler)).cache_bytes ≡ 32
unfolding set_fcyc_cache_size set_fcyc_k
resized = refl

fcyc-least_example :
    (n : ℕ) × (i : ℕ) × (s' : Sampler) × (fcyc clock 100 21 sampler
      ≡ some (reading clock false i, record s' { values = [] }))
    × (i < n)
    × All (λ x. reading clock false i ≤ x) (readings clock false n)
    × HoldsBest s' (readings clock false n)
    × ((n ≤ 20) ⊎ (n ≡ 1))
    × ((has_converged s' ≡ true) ⊎ (20 ≤ n))
fcyc-least_example = fcyc-least clock 100 2 21 sampler refl refl (omega arith)
