-- ===== src/Shell/Jobs/Lookup.antt =====
-- What the lookups of the job list answer, and what `addjob` and `deletejob` do to the answers.
use system_programming_lab.Base.{
  ℕ, zero, suc, ◌+◌, ◌≤◌, ◌<◌, ◌≡◌, ◌≢◌, ◌↔◌, ◌⊎◌, ◌∙◌, refl, inl, inr, ap, true, false, none, some,
  List, [], ◌∷◌, ltb, get_elem?, set, find_index, All, arith, All-get, find_index-cons,
  find_index-some, find_index-set, set-set, set-get, get_elem?-set_self, get_elem?-set_ne,
  Option-cases, Bool-cases,
}
use system_programming_lab.Shell.State.{Text, JobState, Job, Shell}
use system_programming_lab.Shell.Jobs.{
  cleared, has_pid, in_fg, addjob, deletejob, maxjid, fgpid, getjobpid, pid2jid, jid_of, next_after,
}
use system_programming_lab.Shell.Jobs.Table.{IsClean, fg_count, IsTable}

-- The entry that `addjob` writes.
abbrev pub entry : Shell → ℕ → JobState → Text → Job
entry s pid state cmdline = record { pid = pid; jid = s.nextjid; state = state; cmdline = cmdline }

pub addjob-some :
    (s : Shell) (pid : ℕ) (state : JobState) (cmdline : Text) {i : ℕ}
    → find_index (has_pid 0) s.jobs ≡ some i
    → 0 < pid
    → ((addjob s pid state cmdline).0.jobs ≡ set s.jobs i (entry s pid state cmdline))
      × ((addjob s pid state cmdline).1 ≡ true)
      × ((addjob s pid state cmdline).0.nextjid ≡ next_after s.nextjid)
unfolding addjob
addjob-some s pid state cmdline e pos = ground arith

-- `addjob` changes the list and the counter only by writing its entry over the first free slot.
pub addjob_cases :
    (s : Shell) (pid : ℕ) (state : JobState) (cmdline : Text)
    → (((addjob s pid state cmdline).0.jobs ≡ s.jobs)
        × ((addjob s pid state cmdline).0.nextjid ≡ s.nextjid))
      ⊎ ((i : ℕ) × (find_index (has_pid 0) s.jobs ≡ some i)
          × (0 < pid)
          × ((addjob s pid state cmdline).0.jobs ≡ set s.jobs i (entry s pid state cmdline))
          × ((addjob s pid state cmdline).0.nextjid ≡ next_after s.nextjid))
unfolding addjob
addjob_cases s pid state cmdline = elim (Bool-cases (ltb pid 1)) [
  | inl small ↦ inl (rw small refl, rw small refl)
  | inr big ↦ elim (Option-cases (find_index (has_pid 0) s.jobs)) [
    | inl full ↦ inl (rw (big, full) refl, rw (big, full) refl)
    | inr (i, e) ↦ inr (i, e, ground arith, ground arith, ground arith)
  ]
]

pub deletejob-some :
    (s : Shell) (pid : ℕ) {i : ℕ}
    → find_index (has_pid pid) s.jobs ≡ some i
    → 0 < pid
    → ((deletejob s pid).0.jobs ≡ set s.jobs i cleared)
      × ((deletejob s pid).0.nextjid ≡ maxjid (set s.jobs i cleared) + 1)
      × ((deletejob s pid).1 ≡ true)
unfolding deletejob
deletejob-some s pid e pos = ground arith

jid_of-get :
    (jobs : List Job) (pid : ℕ) {i : ℕ} {j : Job}
    → find_index (has_pid pid) jobs ≡ some i
    → get_elem? jobs i ≡ some j
    → jid_of jobs pid ≡ j.jid
unfolding jid_of
jid_of-get [] pid e g = cc
jid_of-get (x ∷ xs) pid {i} {j} e g = elim (find_index-cons (has_pid pid) x xs e) [
  | inl (h, z) ↦ let g' : get_elem? (x ∷ xs) 0 ≡ some j = rw z at g in ground arith
  | inr (k, f, h, z) ↦
      let g' : get_elem? (x ∷ xs) (suc k) ≡ some j = rw z at g in rw h (jid_of-get xs pid f g')
]

pub pid2jid-get :
    (jobs : List Job) (pid : ℕ) {i : ℕ} {j : Job}
    → find_index (has_pid pid) jobs ≡ some i
    → get_elem? jobs i ≡ some j
    → 0 < pid
    → pid2jid jobs pid ≡ j.jid
unfolding pid2jid
pid2jid-get jobs pid e g pos =
    let big : ltb pid 1 ≡ false = ground arith in rw big (jid_of-get jobs pid e g)

pub addjob-stored :
    (s : Shell) (pid : ℕ) (state : JobState) (cmdline : Text) {i : ℕ}
    → find_index (has_pid 0) s.jobs ≡ some i
    → 0 < pid
    → find_index (has_pid pid) s.jobs ≡ none
    → ((addjob s pid state cmdline).1 ≡ true)
      × (getjobpid (addjob s pid state cmdline).0.jobs pid ≡ some i)
      × (get_elem? (addjob s pid state cmdline).0.jobs i ≡ some (entry s pid state cmdline))
      × (pid2jid (addjob s pid state cmdline).0.jobs pid ≡ s.nextjid)
unfolding getjobpid
addjob-stored s pid state cmdline {i} e pos a =
    let (x, g, h, b) = find_index-some (has_pid 0) s.jobs e in
    let (js, r, n) = addjob-some s pid state cmdline e pos in
    let job : Job = entry s pid state cmdline in
    let f = find_index-set (has_pid pid) s.jobs i job a b (ground arith) in
    let w = get_elem?-set_self s.jobs i job b in
    rw js (r, ground arith, w, pid2jid-get (set s.jobs i job) pid f w pos)

-- With a free slot, `addjob` of a new pid succeeds: the job stands in the first free slot with the
-- next job number, the lookups by pid find it there, and another slot k is as before.
pub addjob_lem :
    (s : Shell) (pid : ℕ) (state : JobState) (cmdline : Text) {i : ℕ} (k : ℕ)
    → find_index (has_pid 0) s.jobs ≡ some i
    → 0 < pid
    → find_index (has_pid pid) s.jobs ≡ none
    → i ≢ k
    → ((addjob s pid state cmdline).1 ≡ true)
      × (getjobpid (addjob s pid state cmdline).0.jobs pid ≡ some i)
      × (get_elem? (addjob s pid state cmdline).0.jobs i ≡ some (entry s pid state cmdline))
      × (pid2jid (addjob s pid state cmdline).0.jobs pid ≡ s.nextjid)
      × (get_elem? (addjob s pid state cmdline).0.jobs k ≡ get_elem? s.jobs k)
addjob_lem s pid state cmdline k e pos a ne =
    let (r, at, here, jid) = addjob-stored s pid state cmdline e pos a in
    let (js, r', n) = addjob-some s pid state cmdline e pos in
    (r, at, here, jid, rw js (get_elem?-set_ne s.jobs (entry s pid state cmdline) ne))

-- In a list that keeps its invariant, with a free slot, `deletejob` undoes `addjob` of a new pid:
-- the job list is the one before, and the next job number is one more than the largest in use.
pub deletejob-addjob :
    (s : Shell) (pid : ℕ) (state : JobState) (cmdline : Text) {i : ℕ}
    → IsTable s.jobs
    → find_index (has_pid 0) s.jobs ≡ some i
    → 0 < pid
    → find_index (has_pid pid) s.jobs ≡ none
    → ((deletejob (addjob s pid state cmdline).0 pid).0.jobs ≡ s.jobs)
      × ((deletejob (addjob s pid state cmdline).0 pid).0.nextjid ≡ maxjid s.jobs + 1)
      × ((deletejob (addjob s pid state cmdline).0 pid).1 ≡ true)
deletejob-addjob s pid state cmdline {i} t e pos a =
    let (x, g, h, b) = find_index-some (has_pid 0) s.jobs e in
    let (js, r, n) = addjob-some s pid state cmdline e pos in
    let job : Job = entry s pid state cmdline in
    let f = find_index-set (has_pid pid) s.jobs i job a b (ground arith) in
    let (js', n', r') = deletejob-some (addjob s pid state cmdline).0 pid {i = i} (rw js f) pos in
    let free : x ≡ cleared = All-get IsClean s.jobs i t.clean g (ground arith) in
    let same : set (addjob s pid state cmdline).0.jobs i cleared ≡ s.jobs =
      rw js (set-set s.jobs i job cleared ∙ set-get s.jobs i (g ∙ ap some free)) in
    (js' ∙ same, n' ∙ ap (λ js. maxjid js + 1) same, r')

-- A list with no foreground job holds none.
in_fg_of_zero :
    (jobs : List Job) (i : ℕ) {j : Job}
    → fg_count jobs ≡ 0
    → get_elem? jobs i ≡ some j
    → in_fg j ≡ false
in_fg_of_zero [] i c g = cc
in_fg_of_zero (x ∷ xs) zero c g = ground arith
in_fg_of_zero (x ∷ xs) (suc i) c g = in_fg_of_zero xs i (omega arith) g

-- Where at most one job is in the foreground, `fgpid` returns that job's pid, in whatever slot it is.
pub fgpid-get :
    (jobs : List Job) (i : ℕ) {j : Job}
    → fg_count jobs ≤ 1
    → get_elem? jobs i ≡ some j
    → in_fg j ≡ true
    → fgpid jobs ≡ j.pid
unfolding fgpid
fgpid-get [] i c g f = cc
fgpid-get (x ∷ xs) zero c g f = ground arith
fgpid-get (x ∷ xs) (suc i) {j} c g f = elim (Bool-cases (in_fg x)) [
  | inl h ↦ let free = in_fg_of_zero xs i (ground arith) g in cc
  | inr h ↦ rw h (fgpid-get xs i (omega arith) g f)
]

-- Where the slots with pid 0 are cleared ones, `fgpid` returns 0 exactly when no job is in the
-- foreground.
pub fgpid-eq-zero : (jobs : List Job) → All IsClean jobs → (fgpid jobs ≡ 0) ↔ (fg_count jobs ≡ 0)
unfolding fgpid
fgpid-eq-zero [] h = (λ e. refl, λ e. refl)
fgpid-eq-zero (x ∷ xs) h =
    let (to, from) = fgpid-eq-zero xs h.1 in
    let free : x.pid ≡ 0 → in_fg x ≡ false = λ z. ap in_fg (h.0 z) in
    (λ e. ground (arith, to, free), λ e. ground (arith, from))
