-- ===== src/Shell/Control/Resume.antt =====
-- `bg` and `fg` with a job number: what they do on an aligned job list, and how the list stops being
-- one.
use system_programming_lab.Base.{
  ℕ, suc, ◌≤◌, ◌<◌, ◌≡◌, ◌≢◌, ◌∙◌, refl, ap, inl, inr, Bool, true, false, none, some, List, ◌∷◌,
  ltb, Option-cases, get_elem?, set, find_index, get_elem?-set_ne, get_elem?-set_self,
  find_index-some, find_index-le, find_index-none, All-get, arith,
}
use system_programming_lab.Shell.State.{
  Text, JobState, bg, Job, sigcont, started, Shell, print, kill, ok, job_at, set_state,
}
use system_programming_lab.Shell.Jobs.{
  cleared, has_pid, has_jid, addjob, deletejob, getjobjid, maxjid,
}
use system_programming_lab.Shell.Jobs.Ids.{maxjid_lem}
use system_programming_lab.Shell.Jobs.Lookup.{addjob-stored, deletejob-some}
use system_programming_lab.Shell.Signals.{Event}
use system_programming_lab.Shell.Signals.Aligned.{IsAligned, jid-aligned}
use system_programming_lab.Shell.Control.{bg_word, atoi, resume, resume_jid, do_bgfg}

find_index-ne_none :
    (p : Job → Bool) (jobs : List Job) (i : ℕ) {j : Job}
    → get_elem? jobs i ≡ some j
    → p j ≡ true
    → find_index p jobs ≢ none
find_index-ne_none p jobs i {j} g h e =
    let no : p j ≡ false = All-get (λ (x : Job). p x ≡ false) jobs i (find_index-none p jobs e) g in
    cc

getjobjid-some :
    (jobs : List Job) (i : ℕ) {j : Job}
    → get_elem? jobs i ≡ some j
    → j.jid ≡ suc i
    → (k : ℕ) × (getjobjid jobs (suc i) ≡ some k)
unfolding getjobjid
getjobjid-some jobs i {j} g jid =
    let found = find_index-ne_none (has_jid (suc i)) jobs i g (ground arith) in
    let big : ltb (suc i) 1 ≡ false = ground arith in
    elim (Option-cases (find_index (has_jid (suc i)) jobs)) [
      | inl missing ↦ absurd (found missing)
      | inr (k, e) ↦ (k, rw (big, e) refl)
    ]

job_at-get :
    (jobs : List Job) (i : ℕ) {j : Job}
    → get_elem? jobs i ≡ some j
    → job_at jobs (suc i) ≡ ok (i, j)
unfolding job_at
job_at-get jobs i g = rw (g, job_at)

resume_jid-bg :
    (s : Shell) (i : ℕ) (arg : Text) (es : List Event) {j : Job}
    → get_elem? s.jobs i ≡ some j
    → j.jid ≡ suc i
    → resume_jid bg_word arg (suc i) true es s
      ≡ ok (print (started (suc i) j.pid j.cmdline) (set_state (kill j.pid sigcont s) i j bg), es)
unfolding resume_jid
resume_jid-bg s i arg es {j} g jid =
    let (k, e) = getjobjid-some s.jobs i g jid in
    let entry_at : job_at s.jobs (suc i) ≡ ok (i, j) = job_at-get s.jobs i g in
    rw (e, resume_jid, entry_at, resume)

-- On an aligned list, and where kill succeeds, `bg %n` sends SIGCONT to the process group of job n,
-- sets its state to BG, prints its line, and changes no other slot.
pub do_bgfg-bg :
    (s : Shell) (i : ℕ) (digits : Text) (more : List Text) (es : List Event) {j : Job}
    → IsAligned s.jobs
    → get_elem? s.jobs i ≡ some j
    → j.pid ≢ 0
    → atoi digits ≡ suc i
    → do_bgfg bg_word ((b'%' ∷ digits) ∷ more) true es s
      ≡ ok (print (started (suc i) j.pid j.cmdline) (set_state (kill j.pid sigcont s) i j bg), es)
unfolding do_bgfg
do_bgfg-bg s i digits more es {j} a g n num =
    ap (λ k. resume_jid bg_word (b'%' ∷ digits) k true es s) num
    ∙ resume_jid-bg s i (b'%' ∷ digits) es g (jid-aligned s.jobs i a g n)

-- Delete a job of a list in which job n is in slot n - 1, while a later one is there, and add a
-- new job in a free slot: its number is not one more than the index of its slot, or that of
-- another job is not.
pub addjob-misaligned :
    (s : Shell) (pid q : ℕ) (state : JobState) (cmdline : Text) {i i' k : ℕ} {later : Job}
    → IsAligned s.jobs
    → find_index (has_pid pid) s.jobs ≡ some i
    → 0 < pid
    → get_elem? s.jobs k ≡ some later
    → later.pid ≢ 0
    → i < k
    → find_index (has_pid 0) (deletejob s pid).0.jobs ≡ some i'
    → 0 < q
    → find_index (has_pid q) (deletejob s pid).0.jobs ≡ none
    → ¬ IsAligned (addjob (deletejob s pid).0 q state cmdline).0.jobs
addjob-misaligned s pid q state cmdline {i} {i'} {k} {later} a e pos g n lt e' qpos new al =
    let s1 : Shell = (deletejob s pid).0 in
    let (js, next, r) = deletejob-some s pid e pos in
    let (r', l, here, n') = addjob-stored s1 q state cmdline e' qpos new in
    let apart : i ≢ k = omega arith in
    let g1 : get_elem? (set s.jobs i cleared) k ≡ some later =
      get_elem?-set_ne s.jobs cleared apart ∙ g in
    let jid = jid-aligned s.jobs k a g n in
    let top =
      All-get (λ (j : Job). j.jid ≤ maxjid (set s.jobs i cleared)) (set s.jobs i cleared) k
        (maxjid_lem (set s.jobs i cleared)).0 g1 in
    let cleared_here : get_elem? s1.jobs i ≡ some cleared =
      rw js (get_elem?-set_self s.jobs i cleared (find_index-some (has_pid pid) s.jobs e).3) in
    let le = find_index-le (has_pid 0) s1.jobs i e' cleared_here refl in
    let now = jid-aligned (addjob s1 q state cmdline).0.jobs i' al here (omega arith) in omega arith
