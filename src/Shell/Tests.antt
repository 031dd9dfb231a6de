-- ===== src/Shell/Tests.antt =====
-- The shell's theorems at concrete job lists, and runs of the model.
use system_programming_lab.Base.{
  ℕ, zero, suc, ◌+◌, ◌≤◌, ◌≡◌, ◌≢◌, refl, Bool, true, false, some, List, [], ◌∷◌, ◌++◌, get_elem?,
  set, replicate, arith, All-replicate, sym,
}
use system_programming_lab.Shell.State.{Text, JobState, fg, bg, Job, Shell, terminated_by, ok}
use system_programming_lab.Shell.Jobs.{cleared, in_fg, addjob, deletejob, fgpid, maxjid}
use system_programming_lab.Shell.Jobs.Table.{
  IsClean, IsAbsent, IsDistinct, fg_count, IsTable, addjob-IsTable, deletejob-IsTable,
}
use system_programming_lab.Shell.Jobs.Lookup.{deletejob-addjob}
use system_programming_lab.Shell.Jobs.Ids.{HasFreshJid, addjob-HasFreshJid, addjob-wraps}
use system_programming_lab.Shell.Parse.{parseline, parsed, parse_overflow}
use system_programming_lab.Shell.Parse.Words.{Word, bare, quoted, line_of}
use system_programming_lab.Shell.Parse.RoundTrip.{parseline-line_of, parseline-overflow}
use system_programming_lab.Shell.Parse.Total.{parseline-parsed}
use system_programming_lab.Shell.Signals.{
  finished, signaled, sigint_number, chld, tstp, sigchld_handler,
}
use system_programming_lab.Shell.Signals.Aligned.{IsAligned}
use system_programming_lab.Shell.Signals.Foreground.{sigchld-finished, sigchld-signaled}
use system_programming_lab.Shell.Signals.Background.{sigchld-background}
use system_programming_lab.Shell.Control.{failed, child, launch, Input, main_loop}
use system_programming_lab.Shell.Control.Launch.{launch-foreground}
use system_programming_lab.Shell.Control.Resume.{addjob-misaligned}
use system_programming_lab.Shell.Control.Foreground.{NoFg, Reaches}
use system_programming_lab.Shell.Control.Settled.{main_loop-NoFg}

abbrev job : ℕ → ℕ → JobState → Job
job pid jid state = record { pid = pid; jid = jid; state = state; cmdline = b'x' ∷ [] }

abbrev shell_of : List Job → ℕ → Shell
shell_of jobs n = record {
  jobs = jobs;
  nextjid = n;
  verbose = false;
  get_int_or_stp = false;
  out = [];
  sent = [];
}

-- A job in the background, one in the foreground, and 14 free slots.
abbrev busy : Shell
busy = shell_of (job 100 1 bg ∷ job 200 2 fg ∷ replicate 14 cleared) 3

-- Two jobs in the background.
abbrev quiet : Shell
quiet = shell_of (job 100 1 bg ∷ job 200 2 bg ∷ replicate 14 cleared) 3

abbrev full : Shell
full = shell_of (replicate 16 (job 7 1 bg)) 1

-- The counter at MAXJOBS with job 1 in the list.
abbrev at_limit : Shell
at_limit = shell_of (job 100 1 bg ∷ job 200 15 bg ∷ replicate 14 cleared) 16

IsAbsent-free : (n p : ℕ) → p ≢ 0 → IsAbsent p (replicate n cleared)
IsAbsent-free n p h = All-replicate (λ (j : Job). j.pid ≢ p) n (λ e. h (sym e))

IsDistinct-free : (n : ℕ) → IsDistinct (replicate n cleared)
IsDistinct-free zero = tt
IsDistinct-free (suc n) = (λ h. absurd (h refl), IsDistinct-free n)

two_jobs :
    (a b : JobState)
    → fg_count (job 100 1 a ∷ job 200 2 b ∷ replicate 14 cleared) ≤ 1
    → IsTable (job 100 1 a ∷ job 200 2 b ∷ replicate 14 cleared)
two_jobs a b one = record {
  size = refl;
  clean = (
    λ z. absurd (omega arith),
    (λ z. absurd (omega arith), All-replicate IsClean 14 (λ z. refl)),
  );
  distinct = (
    λ h. (omega arith, IsAbsent-free 14 100 (omega arith)),
    (λ h. IsAbsent-free 14 200 (omega arith), IsDistinct-free 14),
  );
  one_fg = one;
}

busy-IsTable : IsTable busy.jobs
busy-IsTable = two_jobs bg fg (omega arith)

quiet-IsTable : IsTable quiet.jobs
quiet-IsTable = two_jobs bg bg (omega arith)

busy-IsAligned : IsAligned busy.jobs
busy-IsAligned = omega arith

quiet-IsAligned : IsAligned quiet.jobs
quiet-IsAligned = omega arith

quiet-HasFreshJid : HasFreshJid quiet
quiet-HasFreshJid = omega arith

addjob-IsTable_example : IsTable (addjob quiet 300 fg []).0.jobs
addjob-IsTable_example = addjob-IsTable quiet 300 fg [] quiet-IsTable refl (omega arith)

deletejob-IsTable_example : IsTable (deletejob busy 100).0.jobs
deletejob-IsTable_example = deletejob-IsTable busy 100 busy-IsTable

deletejob-addjob_example :
    ((deletejob (addjob quiet 300 bg []).0 300).0.jobs ≡ quiet.jobs)
    × ((deletejob (addjob quiet 300 bg []).0 300).0.nextjid ≡ maxjid quiet.jobs + 1)
    × ((deletejob (addjob quiet 300 bg []).0 300).1 ≡ true)
deletejob-addjob_example =
    deletejob-addjob quiet 300 bg [] {i = 2} quiet-IsTable refl (omega arith) refl

addjob-HasFreshJid_example : HasFreshJid (addjob quiet 300 bg []).0
addjob-HasFreshJid_example = addjob-HasFreshJid quiet 300 bg [] quiet-HasFreshJid (omega arith)

addjob-wraps_example :
    (x : Job) × (get_elem? (addjob (addjob at_limit 300 bg []).0 400 bg []).0.jobs 3 ≡ some x)
    × (x.pid ≡ 400)
    × (x.jid ≡ 1)
    × (get_elem? (addjob (addjob at_limit 300 bg []).0 400 bg []).0.jobs 0 ≡ some (job 100 1 bg))
    × (◌≢◌ {A = ℕ} 3 0)
unfolding addjob
addjob-wraps_example =
    addjob-wraps at_limit 300 400 bg bg [] [] 0 {i = 2} {i' = 3} refl refl (omega arith) refl
      (omega arith) (omega arith) refl refl

-- ls 'a b' &
abbrev words : List Word
words = bare (b'l' ∷ b's' ∷ []) ∷ quoted (b'a' ∷ b' ' ∷ b'b' ∷ []) ∷ []

parseline-line_of_example :
    parseline (line_of words (bare (b'&' ∷ [])))
    ≡ parsed true ((b'l' ∷ b's' ∷ []) ∷ (b'a' ∷ b' ' ∷ b'b' ∷ []) ∷ [])
parseline-line_of_example =
    parseline-line_of words (bare (b'&' ∷ [])) (omega arith) (omega arith) (omega arith)
      (omega arith)

parseline-overflow_example :
    parseline (line_of (replicate 127 (bare (b'x' ∷ []))) (bare (b'x' ∷ []))) ≡ parse_overflow
parseline-overflow_example =
    parseline-overflow (replicate 127 (bare (b'x' ∷ []))) (bare (b'x' ∷ [])) (omega arith)
      (omega arith) (omega arith)

parseline-parsed_example :
    (in_bg : Bool) × (argv : List Text) × (parseline (b'l' ∷ b's' ∷ 10 ∷ []) ≡ parsed in_bg argv)
parseline-parsed_example = parseline-parsed (b'l' ∷ b's' ∷ 10 ∷ []) (omega arith) (omega arith)

sigchld-finished_example :
    (s' : Shell) × (sigchld_handler ((200, finished 0) ∷ []) busy ≡ ok s')
    × (s'.jobs ≡ set busy.jobs 1 cleared)
    × (s'.nextjid ≡ maxjid (set busy.jobs 1 cleared) + 1)
    × (fgpid s'.jobs ≡ 0)
sigchld-finished_example = sigchld-finished busy 1 busy-IsTable busy-IsAligned refl refl 0

sigchld-signaled_example :
    (s' : Shell) × (sigchld_handler ((200, signaled 15) ∷ []) busy ≡ ok s')
    × (s'.jobs ≡ set busy.jobs 1 cleared)
    × (s'.out ≡ busy.out ++ terminated_by 2 200 sigint_number ∷ [])
    × (fgpid s'.jobs ≡ 0)
sigchld-signaled_example = sigchld-signaled busy 1 busy-IsTable busy-IsAligned refl refl 15

sigchld-background_example :
    (s' : Shell) × (sigchld_handler ((100, finished 0) ∷ []) busy ≡ ok s')
    × (get_elem? s'.jobs 0 ≡ some (job 100 1 bg))
    × (s'.jobs ≡ (deletejob busy (fgpid busy.jobs)).0.jobs)
sigchld-background_example =
    sigchld-background busy 0 0 busy-IsTable busy-IsAligned refl (omega arith) refl

launch-foreground_example :
    (s' : Shell) × (launch false (b'l' ∷ []) (child 300) (chld ((300, finished 0) ∷ []) ∷ []) quiet
      ≡ ok (s', []))
    × (s'.jobs ≡ quiet.jobs)
    × (s'.nextjid ≡ maxjid quiet.jobs + 1)
launch-foreground_example =
    launch-foreground quiet (b'l' ∷ []) 300 0 [] {i = 2} quiet-IsTable quiet-IsAligned refl refl
      refl (omega arith) refl

-- A command that ends in the foreground, and `fg %1` for a job that the user stops and that ends later.
abbrev session : List Input
session =
    record {
      line = b'l' ∷ b's' ∷ b'\n' ∷ [];
      fork = child 300;
      killed = true;
      events = chld ((300, finished 0) ∷ []) ∷ [];
    }
    ∷ record {
      line = b'f' ∷ b'g' ∷ b' ' ∷ b'%' ∷ b'1' ∷ b'\n' ∷ [];
      fork = failed;
      killed = true;
      events = tstp true ∷ chld ((100, finished 0) ∷ []) ∷ [];
    }
    ∷ []

main_loop-NoFg_example : Reaches (λ s. NoFg s.jobs) (main_loop session quiet)
unfolding parseline
main_loop-NoFg_example =
    main_loop-NoFg session quiet (λ u. tt, (λ u. refl, tt))
      (refl, (refl, All-replicate (λ (j : Job). in_fg j ≡ false) 14 {a = cleared} refl))

addjob-misaligned_example : ¬ IsAligned (addjob (deletejob quiet 100).0 300 bg []).0.jobs
unfolding deletejob
addjob-misaligned_example =
    addjob-misaligned quiet 100 300 bg [] {i = 0} {i' = 0} {k = 1} quiet-IsAligned refl
      (omega arith) refl (omega arith) (omega arith) refl (omega arith) refl
