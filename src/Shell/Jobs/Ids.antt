-- ===== src/Shell/Jobs/Ids.antt =====
-- The job numbers: `maxjid`, and which numbers `addjob` gives.
use system_programming_lab.Base.{
  ℕ, zero, suc, ◌+◌, ◌≤◌, ◌<◌, ◌≡◌, ◌≢◌, ◌⊎◌, ◌∙◌, sym, refl, inl, inr, ap, true, some, List, [],
  ◌∷◌, ltb, if◌then◌else◌, get_elem?, set, find_index, All, arith, All-mono, get_elem?-set_self,
  get_elem?-set_ne, All-set, find_index-some, Option-cases, Bool-cases,
}
use system_programming_lab.Shell.State.{Text, max_jobs, JobState, Job, Shell}
use system_programming_lab.Shell.Jobs.{
  cleared, has_pid, addjob, deletejob, clearjob, maxjid, maxjid_from, next_after,
}
use system_programming_lab.Shell.Jobs.Lookup.{entry, addjob-some, addjob_cases}

-- Every job number is at most `n`.
abbrev pub IsJidLe : ℕ → List Job → Type 0
IsJidLe n jobs = All (λ j. j.jid ≤ n) jobs

IsJidLe-mono : (n m : ℕ) (jobs : List Job) → n ≤ m → IsJidLe n jobs → IsJidLe m jobs
IsJidLe-mono n m [] h l = l
IsJidLe-mono n m (j ∷ js) h l = (omega arith, IsJidLe-mono n m js h l.1)

-- The loop's result is no less than where it starts and than every number, and is one of these.
maxjid_from_lem :
    (jobs : List Job) (m : ℕ)
    → (m ≤ maxjid_from jobs m)
      × IsJidLe (maxjid_from jobs m) jobs
      × ((maxjid_from jobs m ≡ m)
          ⊎ ((i : ℕ) × (j : Job) × (get_elem? jobs i ≡ some j) × (j.jid ≡ maxjid_from jobs m)))
unfolding maxjid_from
maxjid_from_lem [] m = (omega arith, tt, inl refl)
maxjid_from_lem (x ∷ xs) m =
    let next : ℕ = if ltb m x.jid then x.jid else m in
    let (up, all, one) = maxjid_from_lem xs next in
    (
      ground arith,
      (ground arith, all),
      elim one [
        | inl e ↦ elim (Bool-cases (ltb m x.jid)) [
          | inl h ↦ inr (0, x, refl, sym (e ∙ ap (λ b. if b then x.jid else m) h))
          | inr h ↦ inl (e ∙ ap (λ b. if b then x.jid else m) h)
        ]
        | inr (i, j, g, e) ↦ inr (suc i, j, g, e)
      ],
    )

-- `maxjid` returns the largest job number of the list: none is larger, and it is the number of some
-- slot, or 0.
pub maxjid_lem :
    (jobs : List Job)
    → IsJidLe (maxjid jobs) jobs
      × ((maxjid jobs ≡ 0)
          ⊎ ((i : ℕ) × (j : Job) × (get_elem? jobs i ≡ some j) × (j.jid ≡ maxjid jobs)))
unfolding maxjid
maxjid_lem jobs = let (up, all, one) = maxjid_from_lem jobs 0 in (all, one)

-- No two used slots have one job number.
abbrev pub IsJidAbsent : ℕ → List Job → Type 0
IsJidAbsent n jobs = All (λ j. j.pid ≢ 0 → j.jid ≢ n) jobs

abbrev pub HasDistinctJids : List Job → Type 0
HasDistinctJids [] = Unit
HasDistinctJids (j ∷ js) = (j.pid ≢ 0 → IsJidAbsent j.jid js) × HasDistinctJids js

-- The job numbers are distinct, and the next one to be given is larger than all of them.
pub record HasFreshJid (s : Shell) : Type 0 where
  pub below : All (λ j. j.jid < s.nextjid) s.jobs
  pub distinct : HasDistinctJids s.jobs

IsJidAbsent-of_below : (n : ℕ) (jobs : List Job) → All (λ j. j.jid < n) jobs → IsJidAbsent n jobs
IsJidAbsent-of_below n [] h = h
IsJidAbsent-of_below n (j ∷ js) h = (λ p e. omega arith, IsJidAbsent-of_below n js h.1)

HasDistinctJids-set :
    (xs : List Job) (i : ℕ) (v : Job)
    → HasDistinctJids xs
    → (v.pid ≢ 0 → IsJidAbsent v.jid xs)
    → HasDistinctJids (set xs i v)
HasDistinctJids-set [] i v d a = d
HasDistinctJids-set (x ∷ xs) zero v d a = (λ n. (a n).1, d.1)
HasDistinctJids-set (x ∷ xs) (suc i) v d a = (
  λ n. All-set (λ (j : Job). j.pid ≢ 0 → j.jid ≢ x.jid) xs i v (d.0 n) (λ m e. (a m).0 n (sym e)),
  HasDistinctJids-set xs i v d.1 (λ n. (a n).1),
)

-- While the counter is below MAXJOBS and larger than all job numbers, and these are distinct,
-- `addjob` keeps them distinct, and the counter larger than all of them.
pub addjob-HasFreshJid :
    (s : Shell) (pid : ℕ) (state : JobState) (cmdline : Text)
    → HasFreshJid s
    → s.nextjid < max_jobs
    → HasFreshJid (addjob s pid state cmdline).0
addjob-HasFreshJid s pid state cmdline f small = elim (addjob_cases s pid state cmdline) [
  | inl (js, n) ↦ record { below = rw (js, n) f.below; distinct = rw js f.distinct }
  | inr (i, e, pos, js, n) ↦
      let job : Job = entry s pid state cmdline in
      let new : next_after s.nextjid ≡ s.nextjid + 1 = ground arith in
      let up : All (λ j. j.jid < s.nextjid + 1) s.jobs =
        All-mono s.jobs (λ j h. omega arith) f.below in
      record {
        below =
            rw (js, n, new)
              (All-set (λ (j : Job). j.jid < s.nextjid + 1) s.jobs i job up (omega arith));
        distinct = rw js (
            HasDistinctJids-set s.jobs i job f.distinct
              (λ _. IsJidAbsent-of_below s.nextjid s.jobs f.below));
      }
]

-- `deletejob` keeps the job numbers distinct, and the next one larger than all of them.
pub deletejob-HasFreshJid : (s : Shell) (pid : ℕ) → HasFreshJid s → HasFreshJid (deletejob s pid).0
unfolding deletejob clearjob
deletejob-HasFreshJid s pid f = elim (Bool-cases (ltb pid 1)) [
  | inl small ↦ rw small f
  | inr big ↦ rw big (elim (Option-cases (find_index (has_pid pid) s.jobs)) [
    | inl missing ↦ rw missing f
    | inr (i, e) ↦
        let jobs' : List Job = set s.jobs i cleared in
        rw e (record {
          below = All-mono jobs' (λ j h. omega arith) (maxjid_lem jobs').0;
          distinct = HasDistinctJids-set s.jobs i cleared f.distinct (λ n. absurd (n refl));
        })
  ])
]

-- A free slot is not a used one.
slot-ne :
    (xs : List Job) (i k : ℕ) {x j : Job}
    → get_elem? xs i ≡ some x
    → get_elem? xs k ≡ some j
    → has_pid 0 x ≡ true
    → j.pid ≢ 0
    → i ≢ k
slot-ne xs i k {x} {j} g h free live z =
    let g' : get_elem? xs k ≡ some x = rw z at g in
    let q : x ≡ j = cc in live (ap (λ (y : Job). y.pid) (sym q) ∙ ground arith)

-- The counter restarts at 1 behind MAXJOBS: if a job numbered 1 is still there when the counter is
-- at MAXJOBS, and there are free slots for two jobs, the second one added has the number 1 in its slot
-- too, which is another slot than that of the job that was there. Their pids are positive.
pub addjob-wraps :
    (s : Shell) (p q : ℕ) (state state' : JobState) (cmd cmd' : Text) (k : ℕ) {i i' : ℕ} {j : Job}
    → s.nextjid ≡ max_jobs
    → get_elem? s.jobs k ≡ some j
    → j.pid ≢ 0
    → j.jid ≡ 1
    → 0 < p
    → 0 < q
    → find_index (has_pid 0) s.jobs ≡ some i
    → find_index (has_pid 0) (addjob s p state cmd).0.jobs ≡ some i'
    → (x : Job) × (get_elem? (addjob (addjob s p state cmd).0 q state' cmd').0.jobs i' ≡ some x)
      × (x.pid ≡ q)
      × (x.jid ≡ 1)
      × (get_elem? (addjob (addjob s p state cmd).0 q state' cmd').0.jobs k ≡ some j)
      × (i' ≢ k)
addjob-wraps s p q state state' cmd cmd' k {i} {i'} {j} full g live one pp qq e e' =
    let s' : Shell = (addjob s p state cmd).0 in
    let (x, h, free, b) = find_index-some (has_pid 0) s.jobs e in
    let (y, h', free', b') = find_index-some (has_pid 0) s'.jobs e' in
    let (js, r, n) = addjob-some s p state cmd e pp in
    let (js', r', n') = addjob-some s' q state' cmd' e' qq in
    let apart = slot-ne s.jobs i k h g free live in
    let g' : get_elem? s'.jobs k ≡ some j = rw js (get_elem?-set_ne s.jobs _ apart ∙ g) in
    let apart' = slot-ne s'.jobs i' k h' g' free' live in
    let final : List Job = (addjob s' q state' cmd').0.jobs in
    let at_i : get_elem? final i' ≡ some (entry s' q state' cmd') =
      rw js' (get_elem?-set_self s'.jobs i' (entry s' q state' cmd') b') in
    let at_k : get_elem? final k ≡ some j =
      rw js' (get_elem?-set_ne s'.jobs (entry s' q state' cmd') apart' ∙ g') in
    let again : s'.nextjid ≡ 1 = n ∙ ap next_after full in
    (entry s' q state' cmd', at_i, refl, again, at_k, apart')
