-- ===== src/Shell/Control/Settled.antt =====
-- The commands of shelllab/tsh.c and the loop of `main`: what each line leaves in the foreground. A
-- line `fg PID` is left out: `do_bgfg` writes to the slot that `pid2jid` names, which can be another
-- job's.
use system_programming_lab.Base.{
  ℕ, ◌≡◌, refl, inl, inr, Bool, true, false, not, ◌&&◌, ◌||◌, none, some, List, [], ◌∷◌, ltb, ◌==◌,
  All, All-set, All-mono, Option-cases, Bool-cases, find_index,
}
use system_programming_lab.Shell.State.{
  Text, JobState, fg, bg, Job, Shell, print, ok, fault, ◌>>=◌, job_at, no_such_job, no_such_process,
}
use system_programming_lab.Shell.Jobs.{
  getjobpid, in_fg, addjob, addjob_at, has_pid, pid2jid, getjobjid, listjobs,
}
use system_programming_lab.Shell.Parse.{
  parseline, Parsed, parsed, parse_overflow, parse_out_of_fuel,
}
use system_programming_lab.Shell.Signals.{Event, waitfg}
use system_programming_lab.Shell.Control.{
  text_eq, quit_word, jobs_word, fg_word, bg_word, resume_pid, atoi, digit_prefix, rest_of, resume,
  resume_jid, do_bgfg, Fork, failed, child, launch, command, eval, deliver_all, Input, main_loop,
  first_char,
}
use system_programming_lab.Shell.Control.Foreground.{
  NoFg, OnlyFg, Settled, Reaches, >>=-Reaches, job_at-Reaches, Reaches-ok, Reaches-eq,
  wait_loop-Settled, deliver_all-All,
}

NoFg-OnlyFg : (pid : ℕ) (jobs : List Job) → NoFg jobs → OnlyFg pid jobs
NoFg-OnlyFg pid jobs h = All-mono jobs (λ j none_here here. cc) h

addjob-All :
    (P : Job → Type 0) (s : Shell) (pid : ℕ) (state : JobState) (cmdline : Text)
    → All P s.jobs
    → P (record { pid = pid; jid = s.nextjid; state = state; cmdline = cmdline })
    → All P (addjob s pid state cmdline).0.jobs
unfolding addjob addjob_at
addjob-All P s pid state cmdline h p = elim (Bool-cases (ltb pid 1)) [
  | inl small ↦ rw small h
  | inr big ↦ rw big (elim (Option-cases (find_index (has_pid 0) s.jobs)) [
    | inl missing ↦ rw missing h
    | inr (i, e) ↦ rw e (elim (Bool-cases s.verbose) [
      | inl v ↦ rw v (All-set P s.jobs i _ h p)
      | inr v ↦ rw v (All-set P s.jobs i _ h p)
    ])
  ])
]

launch-Settled :
    (in_bg : Bool) (cmdline : Text) (fork : Fork) (es : List Event) (s : Shell)
    → NoFg s.jobs
    → Reaches Settled (launch in_bg cmdline fork es s)
unfolding launch waitfg
launch-Settled true cmdline failed es s h = h
launch-Settled false cmdline failed es s h = h
launch-Settled true cmdline (child pid) es s h =
    addjob-All (λ j. in_fg j ≡ false) s pid bg cmdline h refl
launch-Settled false cmdline (child pid) es s h =
    wait_loop-Settled pid es (record (addjob s pid fg cmdline).0 { get_int_or_stp = false })
      (addjob-All (λ j. in_fg j ≡ true → j.pid ≡ pid) s pid fg cmdline (NoFg-OnlyFg pid s.jobs h)
        λ f. refl)

resume-Settled :
    (name : Text) (jid pid : ℕ) (killed : Bool) (es : List Event) (s : Shell)
    → NoFg s.jobs
    → ((i : ℕ) (j : Job)
        → job_at s.jobs jid ≡ ok (i, j)
        → text_eq name bg_word ≡ false
        → j.pid ≡ pid)
    → Reaches Settled (resume name jid pid killed es s)
unfolding resume waitfg
resume-Settled name jid pid killed es s h same = elim (Bool-cases (text_eq name bg_word)) [
  | inl b ↦ rw b (elim (Bool-cases killed) [
    | inl k ↦ rw k (
        >>=-Reaches _ Settled (job_at s.jobs jid) _ (job_at-Reaches s.jobs jid)
          λ (i, j) e. All-set (λ j. in_fg j ≡ false) s.jobs i (record j { state = bg }) h refl)
    | inr k ↦ rw k h
  ])
  | inr b ↦ rw b (elim (Bool-cases killed) [
    | inl k ↦ rw k (
        >>=-Reaches _ Settled (job_at s.jobs jid) _ (job_at-Reaches s.jobs jid) λ (i, j) e.
          wait_loop-Settled pid es _ (
            All-set (λ j. in_fg j ≡ true → j.pid ≡ pid) s.jobs i (record j { state = fg })
              (NoFg-OnlyFg pid s.jobs h) λ f. same i j e b))
    | inr k ↦ rw k h
  ])
]

resume_jid-missing :
    (name arg : Text) (jid : ℕ) (killed : Bool) (es : List Event) (s : Shell)
    → getjobjid s.jobs jid ≡ none
    → resume_jid name arg jid killed es s ≡ ok (print (no_such_job arg) s, es)
unfolding resume_jid
resume_jid-missing name arg jid killed es s e = rw (e, resume_jid) refl

resume_jid-found :
    (name arg : Text) (jid : ℕ) (killed : Bool) (es : List Event) (s : Shell) (slot : ℕ)
    → getjobjid s.jobs jid ≡ some slot
    → resume_jid name arg jid killed es s
      ≡ (job_at s.jobs jid >>= λ entry. resume name jid (entry.1).pid killed es s)
unfolding resume_jid
resume_jid-found name arg jid killed es s slot e = rw (e, resume_jid) refl

resume_jid-Settled :
    (name arg : Text) (jid : ℕ) (killed : Bool) (es : List Event) (s : Shell)
    → NoFg s.jobs
    → Reaches Settled (resume_jid name arg jid killed es s)
resume_jid-Settled name arg jid killed es s h = elim (Option-cases (getjobjid s.jobs jid)) [
  | inl missing ↦ Reaches-ok Settled (resume_jid-missing name arg jid killed es s missing) h
  | inr (slot, e) ↦ Reaches-eq Settled (resume_jid-found name arg jid killed es s slot e) (
      >>=-Reaches _ Settled (job_at s.jobs jid) _ (job_at-Reaches s.jobs jid)
        λ (i, j) at. resume-Settled name jid j.pid killed es s h λ i' j' at' b. cc)
]

resume_pid-missing :
    (name str : Text) (killed : Bool) (es : List Event) (s : Shell)
    → getjobpid s.jobs (atoi str) ≡ none
    → resume_pid name str killed es s ≡ ok (print (no_such_process str) s, es)
unfolding resume_pid
resume_pid-missing name str killed es s e = rw (e, resume_pid) refl

resume_pid-found :
    (name str : Text) (killed : Bool) (es : List Event) (s : Shell) (slot : ℕ)
    → getjobpid s.jobs (atoi str) ≡ some slot
    → resume_pid name str killed es s
      ≡ resume name (pid2jid s.jobs (atoi str)) (atoi str) killed es s
unfolding resume_pid
resume_pid-found name str killed es s slot e = rw (e, resume_pid) refl

resume_pid-Settled :
    (name str : Text) (killed : Bool) (es : List Event) (s : Shell)
    → text_eq name bg_word ≡ true
    → NoFg s.jobs
    → Reaches Settled (resume_pid name str killed es s)
unfolding resume_pid
resume_pid-Settled name str killed es s b h = elim (Option-cases (getjobpid s.jobs (atoi str))) [
  | inl missing ↦ Reaches-ok Settled (resume_pid-missing name str killed es s missing) h
  | inr (slot, e) ↦
      Reaches-eq Settled (resume_pid-found name str killed es s slot e)
        (resume-Settled name (pid2jid s.jobs (atoi str)) (atoi str) killed es s h λ i j at n. cc)
]

-- The argument is a job number.
abbrev pub NamesJob : List Text → Type 0
NamesJob [] = Unit
NamesJob (arg ∷ more) = (first_char arg == b'%') ≡ true

do_bgfg-Settled :
    (name : Text) (args : List Text) (killed : Bool) (es : List Event) (s : Shell)
    → (text_eq name bg_word ≡ false → NamesJob args)
    → NoFg s.jobs
    → Reaches Settled (do_bgfg name args killed es s)
unfolding do_bgfg
do_bgfg-Settled name [] killed es s by_job h = h
do_bgfg-Settled name (arg ∷ more) killed es s by_job h =
    elim (Bool-cases
      (not (first_char arg == b'%') && (ltb b'9' (first_char arg) || ltb (first_char arg) b'0'))) [
        | inl bad ↦ rw bad h
        | inr good ↦ rw good (elim (Bool-cases (first_char arg == b'%')) [
          | inl job ↦ rw job (resume_jid-Settled name arg (atoi (rest_of arg)) killed es s h)
          | inr number ↦ rw number (elim (Bool-cases (text_eq name bg_word)) [
            | inl b ↦ resume_pid-Settled name (digit_prefix arg) killed es s b h
            | inr n ↦ let job : (first_char arg == b'%') ≡ true = by_job n in cc
          ])
        ])
      ]

-- A line that gives `fg` an argument gives it a job number.
abbrev pub FgNamesJob : Parsed → Type 0
FgNamesJob (parsed in_bg (name ∷ more)) = text_eq name fg_word ≡ true → NamesJob more
FgNamesJob _ = Unit

command-Settled :
    (in_bg : Bool) (name : Text) (more : List Text) (cmdline : Text) (fork : Fork) (killed : Bool)
    (es : List Event) (s : Shell)
    → (text_eq name fg_word ≡ true → NamesJob more)
    → NoFg s.jobs
    → Reaches Settled (command in_bg name more cmdline fork killed es s)
unfolding command listjobs
command-Settled in_bg name more cmdline fork killed es s by_job h =
    elim (Bool-cases (text_eq name quit_word)) [
      | inl q ↦ rw q tt
      | inr q ↦ rw q (elim (Bool-cases (text_eq name jobs_word)) [
        | inl list ↦ rw list h
        | inr list ↦ rw list (elim (Bool-cases (text_eq name bg_word)) [
          | inl b ↦ rw b (do_bgfg-Settled name more killed es s (λ nb. cc) h)
          | inr b ↦ rw b (elim (Bool-cases (text_eq name fg_word)) [
            | inl f ↦ rw f (do_bgfg-Settled name more killed es s (λ nb. by_job f) h)
            | inr f ↦ rw f (launch-Settled in_bg cmdline fork es s h)
          ])
        ])
      ])
    ]

eval-Settled :
    (cmdline : Text) (fork : Fork) (killed : Bool) (es : List Event) (s : Shell)
    → FgNamesJob (parseline cmdline)
    → NoFg s.jobs
    → Reaches Settled (eval cmdline fork killed es s)
unfolding eval
eval-Settled cmdline fork killed es s by_job h =
    elim (parseline cmdline)
        as (λ p.
          FgNamesJob p
          → Reaches Settled (elim p [
            | parsed in_bg [] ↦ ok (s, es)
            | parsed in_bg (name ∷ more) ↦ command in_bg name more cmdline fork killed es s
            | parse_overflow ↦ fault
            | parse_out_of_fuel ↦ fault
          ])) [
            | parsed in_bg [] ↦ λ u. h
            | parsed in_bg (name ∷ more) ↦
                λ u. command-Settled in_bg name more cmdline fork killed es s u h
            | parse_overflow ↦ λ u. tt
            | parse_out_of_fuel ↦ λ u. tt
          ]
      by_job

-- Where no job is in the foreground at first and each line that gives `fg` an argument gives it a job
-- number, the loop of `main` that comes to the end of its input leaves no job in the foreground
-- in its list.
pub main_loop-NoFg :
    (inputs : List Input) (s : Shell)
    → All (λ i. FgNamesJob (parseline i.line)) inputs
    → NoFg s.jobs
    → Reaches (λ s'. NoFg s'.jobs) (main_loop inputs s)
unfolding main_loop
main_loop-NoFg [] s by_job h = h
main_loop-NoFg (i ∷ rest) s by_job h =
    >>=-Reaches Settled (λ s'. NoFg s'.jobs) (eval i.line i.fork i.killed i.events s) _
      (eval-Settled i.line i.fork i.killed i.events s by_job.0 h)
      λ (s', left) h'.
        >>=-Reaches (λ s''. NoFg s''.jobs) (λ s''. NoFg s''.jobs) (deliver_all left s') _
          (deliver_all-All (λ j. in_fg j ≡ false) refl (λ j. refl) left s' h')
          λ s'' h''. main_loop-NoFg rest s'' by_job.1 h''
