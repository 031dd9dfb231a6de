-- ===== src/Timing/Sampler.antt =====
-- The sampler of malloclab/fcyc.c. The measured times, which are doubles that hold whole numbers of
-- cycles, are natural numbers, and `epsilon` is a fraction.
pub mod Sorted
pub mod Best
pub mod Result
pub mod Clear
use system_programming_lab.Base.{
  ℕ, zero, suc, ◌+◌, ◌-◌, ◌*◌, ◌/◌, Bool, true, false, not, ◌&&◌, Option, none, some, List, [], ◌∷◌,
  ltb, leb, ◌==◌, if◌then◌else◌, length, set, replicate, get_elem?,
}

-- The static variables.
pub record Sampler : Type 0 where
  pub kbest : ℕ
  pub maxsamples : ℕ
  pub epsilon_num : ℕ
  pub epsilon_den : ℕ
  pub compensate : Bool
  pub clear_cache : Bool
  pub cache_bytes : ℕ
  pub cache_block : ℕ
  pub cache_buf : Option (List ℕ)
  pub values : List ℕ
  pub samplecount : ℕ
  pub sink : ℕ

-- An element of an array; 0 for an index outside.
abbrev pub get_or : List ℕ → ℕ → ℕ
get_or [] i = 0
get_or (x ∷ xs) zero = x
get_or (x ∷ xs) (suc i) = get_or xs i

unfoldable pub init_sampler : Sampler → Sampler
init_sampler s = record s { values = replicate s.kbest 0; samplecount = 0 }

-- The insertion sort from `pos` down.
unfoldable pub sift : ℕ → List ℕ → List ℕ
sift zero vs = vs
sift (suc p) vs =
    let temp : ℕ = get_or vs p in
    let rest = sift p (set (set vs p (get_or vs (suc p))) (suc p) temp) in
    if ltb (get_or vs (suc p)) (get_or vs p) then rest else vs

unfoldable pub add_sample : ℕ → Sampler → Sampler
unfolding sift
add_sample val s =
    let counted : Sampler = record s { samplecount = s.samplecount + 1 } in
    if ltb s.samplecount s.kbest
    then record counted { values = sift s.samplecount (set s.values s.samplecount val) }
    else if ltb val (get_or s.values (s.kbest - 1))
    then record counted { values = sift (s.kbest - 1) (set s.values (s.kbest - 1) val) }
    else counted

unfoldable pub has_converged : Sampler → Bool
has_converged s =
    leb s.kbest s.samplecount
    && leb (s.epsilon_den * get_or s.values (s.kbest - 1))
        ((s.epsilon_den + s.epsilon_num) * get_or s.values 0)

-- The loop of `clear` over the buffer; `none` is no more fuel. The sum, which nothing reads, is kept
-- without the wrap-around of an int.
unfoldable pub clear_loop : ℕ → (incr cptr cend : ℕ) → List ℕ → ℕ → Option ℕ
clear_loop zero incr cptr cend buf x = none
clear_loop (suc fuel) incr cptr cend buf x =
    let rest = clear_loop fuel incr (cptr + incr) cend buf (x + get_or buf cptr) in
    if ltb cptr cend then rest else some x

-- What the code calls: malloc of the buffer for the cache, and the counters of clock.c around the
-- measured function, by the number of the sample.
pub record Clock : Type 0 where
  pub malloc : ℕ → Option (List ℕ)
  pub get_counter : ℕ → ℕ
  pub get_comp_counter : ℕ → ℕ

module _ (clock : Clock) (fuel : ℕ) where
  -- `none` is the end of the process, or no more fuel.
  unfoldable pub clear : Sampler → Option Sampler
  unfolding clear_loop
  clear s =
      let buf : Option (List ℕ) = elim s.cache_buf [
        | some b ↦ some b
        | none ↦ clock.malloc s.cache_bytes
      ] in
      elim buf [
        | none ↦ none
        | some b ↦ elim (clear_loop fuel (s.cache_block / 4) 0 (s.cache_bytes / 4) b s.sink) [
          | none ↦ none
          | some x ↦ some (record s { cache_buf = some b; sink = x })
        ]
      ]

  -- One round of the loop of `fcyc`.
  unfoldable pub measure : Sampler → Option Sampler
  unfolding clear add_sample
  measure s = elim (if s.clear_cache then clear s else some s) [
    | none ↦ none
    | some s' ↦ some (
        add_sample
          (if s'.compensate
            then clock.get_comp_counter s'.samplecount
            else clock.get_counter s'.samplecount)
          s')
  ]

  unfoldable pub sample_loop : ℕ → Sampler → Option Sampler
  unfolding measure has_converged
  sample_loop zero s = none
  sample_loop (suc rounds) s = elim (measure s) [
    | none ↦ none
    | some s' ↦ elim (not (has_converged s') && ltb s'.samplecount s'.maxsamples) [
      | true ↦ sample_loop rounds s'
      | false ↦ some s'
    ]
  ]

  -- The result, with the sampler whose `values` are freed.
  unfoldable pub fcyc : ℕ → Sampler → Option (ℕ × Sampler)
  unfolding init_sampler sample_loop
  fcyc rounds s = elim (sample_loop rounds (init_sampler s)) [
    | none ↦ none
    | some s' ↦ some (get_or s'.values 0, record s' { values = [] })
  ]

unfoldable pub set_fcyc_clear_cache : Bool → Sampler → Sampler
set_fcyc_clear_cache clear s = record s { clear_cache = clear }

-- A buffer of another size is freed.
unfoldable pub set_fcyc_cache_size : ℕ → Sampler → Sampler
set_fcyc_cache_size bytes s =
    if bytes == s.cache_bytes then s else record s { cache_bytes = bytes; cache_buf = none }

unfoldable pub set_fcyc_cache_block : ℕ → Sampler → Sampler
set_fcyc_cache_block bytes s = record s { cache_block = bytes }

unfoldable pub set_fcyc_compensate : Bool → Sampler → Sampler
set_fcyc_compensate compensate_arg s = record s { compensate = compensate_arg }

unfoldable pub set_fcyc_k : ℕ → Sampler → Sampler
set_fcyc_k k s = record s { kbest = k }

unfoldable pub set_fcyc_maxsamples : ℕ → Sampler → Sampler
set_fcyc_maxsamples maxsamples_arg s = record s { maxsamples = maxsamples_arg }

unfoldable pub set_fcyc_epsilon : (num den : ℕ) → Sampler → Sampler
set_fcyc_epsilon num den s = record s { epsilon_num = num; epsilon_den = den }
