-- ===== src/Proxy/Threads.antt =====
-- main of proxylab/proxy.c: the threads that it starts, and how their steps mix.
pub mod Balanced
pub mod Request
pub mod Holders
pub mod Fair
pub mod Exclusion
use system_programming_lab.Base.{
  ℕ, zero, suc, ◌+◌, ◌≡◌, Bool, true, false, Option, none, some, List, [], ◌∷◌, ◌++◌, ℤ, ◌==◌,
  get_elem?, set,
}
use system_programming_lab.Proxy.State.{
  Text, Semaphore, mutex_log, mutex_sem, Event, locked, unlocked, logged, exited, overrun, Library,
}
use system_programming_lab.Proxy.Scan.{atoi}
use system_programming_lab.Proxy.Request.{Connection, process_request}

-- The process: for each thread what it has still to do, the values of the semaphores, the log file,
-- and whether the process has ended.
pub record Process : Type 0 where
  pub threads : List (List Event)
  pub log_value : ℕ
  pub sem_value : ℕ
  pub log_file : List Text
  pub is_over : Bool

pub data Started : Type 0 where
  usage : Started
  no_socket : Started
  listening : ℕ → Process → Started

abbrev pub first_process : Process
first_process = record {
  threads = [];
  log_value = 1;
  sem_value = 1;
  log_file = [];
  is_over = false;
}

-- main up to its loop; `none` of `open_listenfd` ends the process.
unfoldable pub main : (argc : ℕ) → (argv1 : Text) → (open_listenfd : ℤ → Option ℕ) → Started
main argc argv1 open_listenfd = elim (argc == 2) [
  | false ↦ usage
  | true ↦ elim (open_listenfd (atoi argv1)) [
    | none ↦ no_socket
    | some listenfd ↦ listening listenfd first_process
  ]
]

-- sem_wait, if the value allows it.
abbrev pub wait : Semaphore → Process → Option Process
wait mutex_log p = elim p.log_value [ zero ↦ none | suc n ↦ some (record p { log_value = n }) ]
wait mutex_sem p = elim p.sem_value [ zero ↦ none | suc n ↦ some (record p { sem_value = n }) ]

abbrev pub post : Semaphore → Process → Process
post mutex_log p = record p { log_value = p.log_value + 1 }
post mutex_sem p = record p { sem_value = p.sem_value + 1 }

-- What one event of a thread does to the process.
unfoldable pub act : Event → Process → Option Process
act (locked m) p = wait m p
act (unlocked m) p = some (post m p)
act (logged cs) p = some (record p { log_file = p.log_file ++ cs ∷ [] })
act overrun p = some (record p { threads = []; is_over = true })
act exited p = some (record p { threads = []; is_over = true })
act e p = some p

-- The loop of main accepts a client and starts its thread, or some thread does what comes next.
pub data Step (lib : Library) (p q : Process) : Type 0 where
  accept :
      (c : Connection)
      → p.is_over ≡ false
      → q ≡ record p { threads = p.threads ++ process_request lib c ∷ [] }
      → Step lib p q
  turn :
      (i : ℕ) (e : Event) (es : List Event)
      → p.is_over ≡ false
      → get_elem? p.threads i ≡ some (e ∷ es)
      → act e (record p { threads = set p.threads i es }) ≡ some q
      → Step lib p q

pub data Reach (lib : Library) (p : Process) : Process → Type 0 where
  here : Reach lib p p
  next : {q r : Process} → Reach lib p q → Step lib q r → Reach lib p r
