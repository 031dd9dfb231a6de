-- ===== src/Shell/Control.antt =====
-- `do_bgfg`, `builtin_cmd`, `eval` and the loop of `main` of shelllab/tsh.c. The result of fork, the
-- success of kill and the signals that arrive are arguments.
pub mod Launch
pub mod Resume
pub mod Foreground
pub mod Settled
use system_programming_lab.Base.{
  ℕ, ◌+◌, ◌*◌, ◌-◌, Bool, true, false, not, ◌&&◌, ◌||◌, none, some, List, [], ◌∷◌, ltb, leb, ◌==◌,
  if◌then◌else◌,
}
use system_programming_lab.Shell.State.{
  Text, JobState, fg, bg, Job, Signal, sigcont, started, fork_failed, requires_argument,
  bad_argument, no_such_job, no_such_process, kill_error_bg, kill_error_fg, Shell, print, kill, Run,
  ok, fault, exited, ◌>>=◌, job_at, set_state,
}
use system_programming_lab.Shell.Jobs.{addjob, getjobpid, getjobjid, pid2jid, listjobs}
use system_programming_lab.Shell.Parse.{
  parseline, Parsed, parsed, parse_overflow, parse_out_of_fuel,
}
use system_programming_lab.Shell.Signals.{Event, deliver, waitfg}

-- `strcmp(a, b) == 0`
abbrev pub text_eq : Text → Text → Bool
text_eq [] [] = true
text_eq (c ∷ cs) (d ∷ ds) = (c == d) && text_eq cs ds
text_eq _ _ = false

abbrev pub quit_word : Text
quit_word = b'q' ∷ b'u' ∷ b'i' ∷ b't' ∷ []

abbrev pub jobs_word : Text
jobs_word = b'j' ∷ b'o' ∷ b'b' ∷ b's' ∷ []

abbrev pub bg_word : Text
bg_word = b'b' ∷ b'g' ∷ []

abbrev pub fg_word : Text
fg_word = b'f' ∷ b'g' ∷ []

abbrev pub is_digit : ℕ → Bool
is_digit c = leb b'0' c && leb c b'9'

abbrev pub is_blank : ℕ → Bool
is_blank c = (c == b' ') || (leb 9 c && leb c 13)

-- The characters of `argv[1]` that the loop copies to `str`.
unfoldable pub digit_prefix : Text → Text
digit_prefix [] = []
digit_prefix (c ∷ cs) = if is_digit c then c ∷ digit_prefix cs else []

abbrev pub number_from : ℕ → Text → ℕ
number_from n [] = n
number_from n (c ∷ cs) = if is_digit c then number_from (10 * n + (c - b'0')) cs else n

-- C's atoi, with 0 for a negative number, which every use here treats as it treats 0. Numbers past
-- the range of int, where C leaves the result open, are kept.
unfoldable pub atoi : Text → ℕ
atoi [] = 0
atoi (c ∷ cs) =
    if is_blank c then atoi cs else if c == b'+' then number_from 0 cs else number_from 0 (c ∷ cs)

-- The end of `do_bgfg`: send SIGCONT, write `jobs[jid-1].state`, and print or wait.
unfoldable pub resume : Text → (jid pid : ℕ) → Bool → List Event → Shell → Run (Shell × List Event)
unfolding job_at
resume name jid pid killed es s =
    let s' : Shell = kill pid sigcont s in
    let in_bg : Run (Shell × List Event) = (do
      (i, j) ← job_at s'.jobs jid
      ok (print (started jid pid j.cmdline) (set_state s' i j bg), es)) in
    let in_fg : Run (Shell × List Event) = (do
      (i, j) ← job_at s'.jobs jid
      waitfg pid es (set_state s' i j fg)) in
    if text_eq name bg_word
    then if killed then in_bg else ok (print kill_error_bg s', es)
    else if killed
    then in_fg
    else ok (print kill_error_fg s', es)

-- The branch for '%': the job is looked up, and its pid is read as `jobs[jid-1].pid`.
unfoldable pub resume_jid : Text → Text → ℕ → Bool → List Event → Shell → Run (Shell × List Event)
unfolding resume
resume_jid name arg jid killed es s = elim (getjobjid s.jobs jid) [
  | none ↦ ok (print (no_such_job arg) s, es)
  | some slot ↦ job_at s.jobs jid >>= λ entry. resume name jid (entry.1).pid killed es s
]

unfoldable pub resume_pid : Text → Text → Bool → List Event → Shell → Run (Shell × List Event)
unfolding resume
resume_pid name str killed es s =
    let pid : ℕ = atoi str in
    elim (getjobpid s.jobs pid) [
      | none ↦ ok (print (no_such_process str) s, es)
      | some slot ↦ resume name (pid2jid s.jobs pid) pid killed es s
    ]

-- The first character of a text, NUL for the empty one.
abbrev pub first_char : Text → ℕ
first_char [] = 0
first_char (c ∷ cs) = c

abbrev pub rest_of : Text → Text
rest_of [] = []
rest_of (c ∷ cs) = cs

unfoldable pub do_bgfg : Text → List Text → Bool → List Event → Shell → Run (Shell × List Event)
unfolding resume_jid resume_pid digit_prefix atoi
do_bgfg name [] killed es s = ok (print (requires_argument name) s, es)
do_bgfg name (arg ∷ more) killed es s =
    let c : ℕ = first_char arg in
    if not (c == b'%') && (ltb b'9' c || ltb c b'0')
    then ok (print (bad_argument name) s, es)
    else if c == b'%'
    then resume_jid name arg (atoi (rest_of arg)) killed es s
    else resume_pid name (digit_prefix arg) killed es s

-- What fork returns to the shell: an error, or the child's pid.
pub data Fork : Type 0 where
  failed : Fork
  child : ℕ → Fork

-- The part of `eval` behind fork, in the parent. On an error the pid is -1: `addjob` refuses it,
-- `pid2jid` returns 0, and `waitfg` returns at once.
unfoldable pub launch : Bool → Text → Fork → List Event → Shell → Run (Shell × List Event)
launch true cmdline failed es s = ok (print (fork_failed cmdline) s, es)
launch false cmdline failed es s = ok (record s { get_int_or_stp = false }, es)
launch true cmdline (child pid) es s =
    let s' : Shell = (addjob s pid bg cmdline).0 in
    ok (print (started (pid2jid s'.jobs pid) pid cmdline) s', es)
launch false cmdline (child pid) es s = waitfg pid es (addjob s pid fg cmdline).0

-- `builtin_cmd`, and what `eval` does where it returns 0.
unfoldable pub command :
    Bool → Text → List Text → Text → Fork → Bool → List Event → Shell → Run (Shell × List Event)
unfolding launch do_bgfg
command in_bg name more cmdline fork killed es s =
    if text_eq name quit_word
    then exited
    else if text_eq name jobs_word
    then ok (listjobs s, es)
    else if text_eq name bg_word || text_eq name fg_word
    then do_bgfg name more killed es s
    else launch in_bg cmdline fork es s

unfoldable pub eval : Text → Fork → Bool → List Event → Shell → Run (Shell × List Event)
unfolding command parseline
eval cmdline fork killed es s = elim (parseline cmdline) [
  | parsed in_bg [] ↦ ok (s, es)
  | parsed in_bg (name ∷ more) ↦ command in_bg name more cmdline fork killed es s
  | parse_overflow ↦ fault
  | parse_out_of_fuel ↦ fault
]

unfoldable pub deliver_all : List Event → Shell → Run Shell
deliver_all [] s = ok s
deliver_all (e ∷ es) s = deliver e s >>= deliver_all es

-- A line of input, the results of its system calls, and the signals from its evaluation to the next
-- line.
pub record Input : Type 0 where
  pub line : Text
  pub fork : Fork
  pub killed : Bool
  pub events : List Event

-- The loop of `main`, to the end of the input.
unfoldable pub main_loop : List Input → Shell → Run Shell
unfolding eval deliver_all
main_loop [] s = ok s
main_loop (i ∷ rest) s = do
  (s', left) ← eval i.line i.fork i.killed i.events s
  s'' ← deliver_all left s'
  main_loop rest s''
