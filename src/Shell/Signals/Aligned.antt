-- ===== src/Shell/Signals/Aligned.antt =====
-- Job lists in which `jobs[jid-1]` is the entry of job `jid`, as the handlers take for granted.
use system_programming_lab.Base.{
  ℕ, zero, suc, ◌+◌, ◌<◌, ◌≡◌, ◌≢◌, ◌∙◌, sym, refl, ap, true, false, some, List, [], ◌∷◌, ◌==◌,
  get_elem?, set, find_index, find_index-some, ==_iff, All-get, arith,
}
use system_programming_lab.Shell.State.{Job, Shell, ok, job_at}
use system_programming_lab.Shell.Signals.{WaitStatus, reap_status, sigchld_handler}
use system_programming_lab.Shell.Jobs.{has_pid, in_fg, fgpid, pid2jid}
use system_programming_lab.Shell.Jobs.Lookup.{pid2jid-get}
use system_programming_lab.Shell.Jobs.Table.{IsDistinct, IsTable}

-- The used slots from the one of job number `n` on.
abbrev pub AlignedFrom : ℕ → List Job → Type 0
AlignedFrom n [] = Unit
AlignedFrom n (j ∷ js) = (j.pid ≢ 0 → j.jid ≡ n) × AlignedFrom (suc n) js

-- The job number of each used slot is one more than the slot's index.
abbrev pub IsAligned : List Job → Type 0
IsAligned jobs = AlignedFrom 1 jobs

jid-from :
    (n : ℕ) (jobs : List Job) (i : ℕ) {j : Job}
    → AlignedFrom n jobs
    → get_elem? jobs i ≡ some j
    → j.pid ≢ 0
    → j.jid ≡ n + i
jid-from n [] i a g p = cc
jid-from n (x ∷ xs) zero {j} a g p =
    let q : x ≡ j = cc in
    ap (λ (y : Job). y.jid) (sym q)
    ∙ a.0 (λ z. p (ap (λ (y : Job). y.pid) (sym q) ∙ z))
    ∙ omega arith
jid-from n (x ∷ xs) (suc i) a g p = jid-from (suc n) xs i a.1 g p ∙ omega arith

AlignedFrom-set :
    (n : ℕ) (jobs : List Job) (i : ℕ) (v : Job)
    → AlignedFrom n jobs
    → (v.pid ≢ 0 → v.jid ≡ n + i)
    → AlignedFrom n (set jobs i v)
AlignedFrom-set n [] i v a h = a
AlignedFrom-set n (x ∷ xs) zero v a h = (λ p. h p ∙ omega arith, a.1)
AlignedFrom-set n (x ∷ xs) (suc i) v a h =
    (a.0, AlignedFrom-set (suc n) xs i v a.1 (λ p. h p ∙ omega arith))

pub IsAligned-set :
    (jobs : List Job) (i : ℕ) (v : Job)
    → IsAligned jobs
    → (v.pid ≢ 0 → v.jid ≡ suc i)
    → IsAligned (set jobs i v)
IsAligned-set jobs i v a h = AlignedFrom-set 1 jobs i v a (λ p. h p ∙ omega arith)

pub jid-aligned :
    (jobs : List Job) (i : ℕ) {j : Job}
    → IsAligned jobs
    → get_elem? jobs i ≡ some j
    → j.pid ≢ 0
    → j.jid ≡ suc i
jid-aligned jobs i a g p = jid-from 1 jobs i a g p ∙ omega arith

-- What a search for a pid finds has it.
pub pid-of_find :
    (jobs : List Job) (pid : ℕ) {i : ℕ} {j : Job}
    → find_index (has_pid pid) jobs ≡ some i
    → get_elem? jobs i ≡ some j
    → j.pid ≡ pid
pid-of_find jobs pid {i} {j} e g =
    let (x, g', h, b) = find_index-some (has_pid pid) jobs e in
    let q : x ≡ j = cc in ap (λ (y : Job). y.pid) (sym q) ∙ ground arith

-- On an aligned list the handlers' `jobs[pid2jid(pid)-1]` is the entry of the pid.
pub job_at-pid2jid :
    (jobs : List Job) (pid : ℕ) {i : ℕ} {j : Job}
    → IsAligned jobs
    → find_index (has_pid pid) jobs ≡ some i
    → get_elem? jobs i ≡ some j
    → 0 < pid
    → job_at jobs (pid2jid jobs pid) ≡ ok (i, j)
unfolding job_at
job_at-pid2jid jobs pid {i} {j} a e g pos =
    let same : j.pid ≡ pid = pid-of_find jobs pid e g in
    let live : j.pid ≢ 0 = omega arith in
    let n : pid2jid jobs pid ≡ suc i = pid2jid-get jobs pid e g pos ∙ jid-aligned jobs i a g live in
    rw (n, job_at, g) refl

-- In a list without doubles a job is found by its pid in its own slot.
pub find_index-of_get :
    (jobs : List Job) (i : ℕ) {j : Job}
    → IsDistinct jobs
    → get_elem? jobs i ≡ some j
    → j.pid ≢ 0
    → find_index (has_pid j.pid) jobs ≡ some i
find_index-of_get [] i d g p = cc
find_index-of_get (x ∷ xs) zero {j} d g p =
    let q : x ≡ j = cc in
    let here : (x.pid == j.pid) ≡ true = (==_iff x.pid j.pid).1 (ap (λ (y : Job). y.pid) q) in
    rw here
find_index-of_get (x ∷ xs) (suc i) {j} d g p =
    let ih = find_index-of_get xs i d.1 g p in
    let apart : x.pid ≢ j.pid =
      λ e. All-get (λ (k : Job). k.pid ≢ x.pid) xs i (d.0 (λ z. p (sym e ∙ z))) g (sym e) in
    let other : (x.pid == j.pid) ≡ false = ground arith in rw (other, ih)

-- The handler's run for one child that the list holds.
pub sigchld-one :
    (s : Shell) (i : ℕ) {j : Job} (status : WaitStatus)
    → IsTable s.jobs
    → IsAligned s.jobs
    → get_elem? s.jobs i ≡ some j
    → j.pid ≢ 0
    → sigchld_handler ((j.pid, status) ∷ []) s
      ≡ ok (reap_status (fgpid s.jobs) j.pid status i j (record s { get_int_or_stp = in_fg j }))
unfolding sigchld_handler
sigchld-one s i {j} status t a g live =
    let here = find_index-of_get s.jobs i t.distinct g live in
    rw (job_at-pid2jid s.jobs j.pid a here g (omega arith)) (ground arith)
