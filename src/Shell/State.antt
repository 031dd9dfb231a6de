-- ===== src/Shell/State.antt =====
-- The data of shelllab/tsh.c: `struct job_t`, the global variables, what the shell prints, and how
-- a piece of the shell can end.
use system_programming_lab.Base.{
  ℕ, zero, suc, Bool, none, some, List, ◌∷◌, [], ◌++◌, get_elem?, set,
}

-- A C string without its NUL.
abbrev pub Text : Type 0
Text = List ℕ

abbrev pub max_jobs : ℕ
max_jobs = 16

-- UNDEF, FG, BG and ST.
pub data JobState : Type 0 where
  undef fg bg st : JobState

pub record Job : Type 0 where
  pub pid : ℕ
  pub jid : ℕ
  pub state : JobState
  pub cmdline : Text

pub data Signal : Type 0 where
  sigint sigtstp sigcont : Signal

-- What the shell prints, by the call of printf.
pub data Message : Type 0 where
  added : (jid pid : ℕ) → Text → Message
  too_many : Message
  job_entry : (jid pid : ℕ) → JobState → Text → Message
  bad_entry : (i jid pid : ℕ) → JobState → Text → Message
  started : (jid pid : ℕ) → Text → Message
  fork_failed : Text → Message
  requires_argument : Text → Message
  bad_argument : Text → Message
  no_such_job : Text → Message
  no_such_process : Text → Message
  kill_error_bg kill_error_fg kill_error_tstp : Message
  kill_error_int : (pid : ℕ) → Message
  stopped_by : (jid pid sig : ℕ) → Message
  terminated_by : (jid pid sig : ℕ) → Message

-- The globals `jobs`, `nextjid`, `verbose` and `getIntOrStp`, the output so far, and the calls of
-- kill(-pid, sig) so far.
pub record Shell : Type 0 where
  pub jobs : List Job
  pub nextjid : ℕ
  pub verbose : Bool
  pub get_int_or_stp : Bool
  pub out : List Message
  pub sent : List (ℕ × Signal)

abbrev pub print : Message → Shell → Shell
print m s = record s { out = s.out ++ (m ∷ []) }

abbrev pub kill : ℕ → Signal → Shell → Shell
kill pid sig s = record s { sent = s.sent ++ ((pid, sig) ∷ []) }

-- `fault` is an access outside an array, `blocked` a wait that no further signal ends.
pub data Run (A : Type 0) : Type 0 where
  ok : A → Run A
  fault : Run A
  blocked : Run A
  exited : Run A

infixl 5 ◌>>=◌
abbrev pub ◌>>=◌ : {A B : Type 0} → Run A → (A → Run B) → Run B
ok a >>= f = f a
fault >>= f = fault
blocked >>= f = blocked
exited >>= f = exited

-- `jobs[jid-1]`: the index and the entry. A job number 0 is the index -1.
unfoldable pub job_at : List Job → ℕ → Run (ℕ × Job)
job_at jobs zero = fault
job_at jobs (suc i) = elim (get_elem? jobs i) [ none ↦ fault | some j ↦ ok (i, j) ]

-- `jobs[i].state = state`, for the entry `j` of slot `i`
abbrev pub set_state : Shell → ℕ → Job → JobState → Shell
set_state s i j state = record s { jobs = set s.jobs i (record j { state = state }) }
