-- ===== src/Timing/Sampler/Clear.antt =====
-- The loop of malloclab/fcyc.c that clears the cache, and when it ends.
use system_programming_lab.Base.{
  ℕ, zero, suc, ◌+◌, ◌<◌, ◌≡◌, refl, inl, inr, none, some, List, ltb, ltb→lt, Bool-cases, arith,
}
use system_programming_lab.Timing.Sampler.{get_or, clear_loop}

-- The loop ends where a cache block has an int at least, with as much fuel as there are ints ahead.
pub clear_loop-some :
    (fuel incr cptr cend : ℕ) (buf : List ℕ) (x : ℕ)
    → 0 < incr
    → 0 < fuel
    → cend < cptr + fuel
    → (y : ℕ) × (clear_loop fuel incr cptr cend buf x ≡ some y)
unfolding clear_loop
clear_loop-some zero incr cptr cend buf x h g f = absurd (omega arith)
clear_loop-some (suc fuel) incr cptr cend buf x h g f = elim (Bool-cases (ltb cptr cend)) [
  | inl more ↦
      let lt = ltb→lt cptr cend more in
      rw more (
        clear_loop-some fuel incr (cptr + incr) cend buf (x + get_or buf cptr) h
          (omega (arith, f, lt)) (omega (arith, f, h)))
  | inr done ↦ (x, rw done refl)
]

-- With a block smaller than an int the loop does not move on, and never ends.
pub clear_loop-none :
    (fuel cptr cend : ℕ) (buf : List ℕ) (x : ℕ)
    → cptr < cend
    → clear_loop fuel 0 cptr cend buf x ≡ none
unfolding clear_loop
clear_loop-none zero cptr cend buf x h = refl
clear_loop-none (suc fuel) cptr cend buf x h =
    ground (arith, clear_loop-none fuel (cptr + 0) cend buf (x + get_or buf cptr))
