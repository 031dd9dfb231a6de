-- ===== src/Shell/Jobs/Table.antt =====
-- The job list's invariant, and that the routines which write the list keep it.
use system_programming_lab.Base.{
  ℕ, zero, suc, ◌+◌, ◌≤◌, ◌<◌, ◌≡◌, ◌≢◌, ◌∙◌, sym, refl, inl, inr, none, some, List, [], ◌∷◌, ltb,
  if◌then◌else◌, get_elem?, set, find_index, length, All, arith, length-set, All-set,
  find_index-some, Option-cases, Bool-cases,
}
use system_programming_lab.Shell.State.{Text, max_jobs, JobState, Job, Shell}
use system_programming_lab.Shell.Jobs.{cleared, is_fg, has_pid, in_fg, addjob, deletejob}

-- A slot whose pid is 0 is a cleared one.
abbrev pub IsClean : Job → Type 0
IsClean j = j.pid ≡ 0 → j ≡ cleared

-- No slot has the pid.
abbrev pub IsAbsent : ℕ → List Job → Type 0
IsAbsent pid jobs = All (λ j. j.pid ≢ pid) jobs

-- No two used slots have one pid.
abbrev pub IsDistinct : List Job → Type 0
IsDistinct [] = Unit
IsDistinct (j ∷ js) = (j.pid ≢ 0 → IsAbsent j.pid js) × IsDistinct js

abbrev pub fg_weight : Job → ℕ
fg_weight j = if in_fg j then 1 else 0

-- The number of foreground jobs.
abbrev pub fg_count : List Job → ℕ
fg_count [] = 0
fg_count (j ∷ js) = fg_weight j + fg_count js

-- A job list as the shell keeps it: 16 slots, the free ones cleared, no pid twice, and at most one
-- job in the foreground.
pub record IsTable (jobs : List Job) : Type 0 where
  pub size : length jobs ≡ max_jobs
  pub clean : All IsClean jobs
  pub distinct : IsDistinct jobs
  pub one_fg : fg_count jobs ≤ 1

IsAbsent-set :
    (p : ℕ) (xs : List Job) (i : ℕ) (v : Job) → IsAbsent p xs → v.pid ≢ p → IsAbsent p (set xs i v)
IsAbsent-set p xs i v h n = All-set (λ (j : Job). j.pid ≢ p) xs i v h n

IsDistinct-set :
    (xs : List Job) (i : ℕ) (v : Job)
    → IsDistinct xs
    → (v.pid ≢ 0 → IsAbsent v.pid xs)
    → IsDistinct (set xs i v)
IsDistinct-set [] i v d a = d
IsDistinct-set (x ∷ xs) zero v d a = (λ n. (a n).1, d.1)
IsDistinct-set (x ∷ xs) (suc i) v d a = (
  λ n. IsAbsent-set x.pid xs i v (d.0 n) (λ e. (a (λ z. n (sym e ∙ z))).0 (sym e)),
  IsDistinct-set xs i v d.1 (λ n. (a n).1),
)

-- A write changes the number of foreground jobs by that of the two jobs.
pub fg_count-set :
    (xs : List Job) (i : ℕ) {x : Job} (v : Job)
    → get_elem? xs i ≡ some x
    → fg_count (set xs i v) + fg_weight x ≡ fg_count xs + fg_weight v
fg_count-set [] i v e = cc
fg_count-set (y ∷ xs) zero {x} v e = let q : y ≡ x = cc in rw q (omega arith)
fg_count-set (y ∷ xs) (suc i) {x} v e = let h = fg_count-set xs i v e in omega arith

IsAbsent-of_none : (p : ℕ) (xs : List Job) → find_index (has_pid p) xs ≡ none → IsAbsent p xs
IsAbsent-of_none p [] e = tt
IsAbsent-of_none p (x ∷ xs) e = (ground arith, IsAbsent-of_none p xs (ground arith))

-- Writing a job over a free slot.
IsTable-fill :
    {jobs : List Job} {i : ℕ} (v : Job)
    → IsTable jobs
    → find_index (has_pid 0) jobs ≡ some i
    → 0 < v.pid
    → IsAbsent v.pid jobs
    → fg_count jobs + fg_weight v ≤ 1
    → IsTable (set jobs i v)
IsTable-fill {jobs} {i} v t e pos a f =
    let (x, g, h, b) = find_index-some (has_pid 0) jobs e in
    let w = fg_count-set jobs i v g in
    record {
      size = length-set jobs i v ∙ t.size;
      clean = All-set IsClean jobs i v t.clean (λ z. absurd (omega arith));
      distinct = IsDistinct-set jobs i v t.distinct (λ _. a);
      one_fg = omega arith;
    }

-- Clearing any slot.
pub IsTable-clear :
    {jobs : List Job} (i : ℕ) {x : Job}
    → IsTable jobs
    → get_elem? jobs i ≡ some x
    → IsTable (set jobs i cleared)
IsTable-clear {jobs} i {x} t g =
    let w = fg_count-set jobs i cleared g in
    record {
      size = length-set jobs i cleared ∙ t.size;
      clean = All-set IsClean jobs i cleared t.clean (λ z. refl);
      distinct = IsDistinct-set jobs i cleared t.distinct (λ n. absurd (n refl));
      one_fg = omega arith;
    }

-- `addjob` of a pid that the list does not hold keeps the job list's invariant, whatever it returns;
-- a foreground job may be added only while there is none.
pub addjob-IsTable :
    (s : Shell) (pid : ℕ) (state : JobState) (cmdline : Text)
    → IsTable s.jobs
    → find_index (has_pid pid) s.jobs ≡ none
    → fg_count s.jobs + (if is_fg state then 1 else 0) ≤ 1
    → IsTable (addjob s pid state cmdline).0.jobs
unfolding addjob
addjob-IsTable s pid state cmdline t a f = elim (Bool-cases (ltb pid 1)) [
  | inl small ↦ rw small t
  | inr big ↦ rw big (elim (Option-cases (find_index (has_pid 0) s.jobs)) [
    | inl full ↦ rw full t
    | inr (i, e) ↦
        let job : Job = record { pid = pid; jid = s.nextjid; state = state; cmdline = cmdline } in
        let new = IsTable-fill job t e (ground arith) (IsAbsent-of_none pid s.jobs a) f in
        rw e (ground arith)
  ])
]

-- `deletejob` keeps the job list's invariant, whatever pid it is given.
pub deletejob-IsTable : (s : Shell) (pid : ℕ) → IsTable s.jobs → IsTable (deletejob s pid).0.jobs
unfolding deletejob
deletejob-IsTable s pid t = elim (Bool-cases (ltb pid 1)) [
  | inl small ↦ rw small t
  | inr big ↦ rw big (elim (Option-cases (find_index (has_pid pid) s.jobs)) [
    | inl missing ↦ rw missing t
    | inr (i, e) ↦
        let (x, g, h, b) = find_index-some (has_pid pid) s.jobs e in rw e (IsTable-clear i t g)
  ])
]
