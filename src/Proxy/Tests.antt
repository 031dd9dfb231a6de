-- ===== src/Proxy/Tests.antt =====
-- The definitions of the proxy on concrete inputs, and its theorems at inputs that meet their
-- hypotheses.
use system_programming_lab.Base.{
  ℕ, ◌≡◌, ◌≤◌, zero, suc, refl, true, false, some, List, [], ◌∷◌, ◌++◌, pos, negsuc, ℤ, codes,
  length, arith, Option,
}
use system_programming_lab.Proxy.State.{
  Text, Library, line, end_of_file, mutex_sem, Event, c_string, locked, freed_args, exits, overrun,
}
use system_programming_lab.Base.{replicate, ◌≢◌, All-replicate}
use system_programming_lab.Proxy.State.{detached}
use system_programming_lab.Proxy.Threads.{
  Process, first_process, main, listening, act, Reach, here, next, accept, turn,
}
use system_programming_lab.Proxy.Scan.{sscanf, request, incomplete, empty, atoi}
use system_programming_lab.Proxy.Format.{decimal, decimal3, deal_log_format}
use system_programming_lab.Proxy.Format.Numbers.{atoi-decimal}
use system_programming_lab.Proxy.Format.Line.{address, length-deal_log_format}
use system_programming_lab.Proxy.Request.{
  Connection, newline, process_request, receive, serve, events_of,
}
use system_programming_lab.Proxy.Request.Overrun.{receive-overrun}
use system_programming_lab.Proxy.Request.Buffers.{Serves, texts_of}
use system_programming_lab.Proxy.Request.Events.{
  collect, text_to, text_logged, descriptor_closed, contents, replies, numbered,
}
use system_programming_lab.Proxy.Request.Writes.{session}
use system_programming_lab.Proxy.Request.Hangup.{serve-end_of_file}
use system_programming_lab.Proxy.Threads.Exclusion.{
  CanTurn, process_request-exclusion, process_request-no_deadlock,
}
use system_programming_lab.Proxy.Request.Traffic.{process_request-traffic, process_request-closed}

words_of_line :
    sscanf (codes " localhost\t80  hello more" ++ newline ∷ [])
    ≡ request (codes "localhost") (codes "80") (codes "hello")
unfolding sscanf
words_of_line = refl

too_few_words : sscanf (codes "localhost 80 " ++ newline ∷ []) ≡ incomplete
unfolding sscanf
too_few_words = refl

no_words : sscanf (codes "  " ++ newline ∷ []) ≡ empty
unfolding sscanf
no_words = refl

negative_port : atoi (codes " -12x") ≡ negsuc 11
unfolding atoi
negative_port = refl

padded : decimal3 7 ≡ codes "  7"
unfolding decimal3
padded = refl

abbrev time_text : Text
time_text = codes "Thu Nov 26 12:42:50 2026" ++ newline ∷ []

abbrev answer : Text
answer = codes "hello" ++ newline ∷ []

logged_line :
    deal_log_format (address 127 0 0 1 40000) time_text answer
    ≡ codes "Thu Nov 26 12:42:50 2026: 127.0.0.1 40000   6 hello" ++ newline ∷ []
unfolding deal_log_format decimal3
logged_line = refl

-- A server that answers each line with the same line.
abbrev library : Library
library = record {
  rio_readlineb = λ fd k. line 5 answer;
  rio_writen = λ fd cs k. pos (length cs);
  open_clientfd = λ h p. some 5;
  asctime = λ k. time_text;
}

abbrev connection : Connection
connection = record {
  fd = 4;
  addr = address 127 0 0 1 40000;
  lines =
      line 19 (codes "localhost 80 hello" ++ newline ∷ [])
      ∷ line 4 (codes "what" ++ newline ∷ [])
      ∷ line 18 (codes "localhost 80 again" ++ newline ∷ [])
      ∷ [];
  garbage = replicate 8192 7;
}

library-Serves : Serves library 5 (λ k. answer)
library-Serves = record {
  connects = λ h p. refl;
  count = λ k. 5;
  answered = λ k. refl;
  are_lines = λ k. omega arith;
  dated = λ k. refl;
  short = λ k. omega arith;
}

process_request-traffic_example :
    (collect (text_to 5) (process_request library connection)
      ≡ contents (texts_of connection.lines))
    × (collect (text_to 4) (process_request library connection)
        ≡ replies (λ k. answer) 0 (texts_of connection.lines))
    × (collect text_logged (process_request library connection)
        ≡ numbered
            (λ k. deal_log_format connection.addr time_text answer)
            0
            (contents (texts_of connection.lines)))
unfolding texts_of
process_request-traffic_example =
    process_request-traffic library connection 5 (λ k. answer) (omega arith) library-Serves refl
      (omega arith)

served_text :
    contents (texts_of connection.lines)
    ≡ (codes "hello" ++ newline ∷ []) ∷ (codes "again" ++ newline ∷ []) ∷ []
unfolding contents texts_of sscanf
served_text = refl

process_request-closed_example :
    collect descriptor_closed (process_request library connection)
    ≡ elim (contents (texts_of connection.lines)) as (λ _. List ℤ) [
      | [] ↦ []
      | _ ∷ _ ↦ pos 4 ∷ pos 5 ∷ []
    ]
unfolding texts_of
process_request-closed_example =
    process_request-closed library connection 5 (λ k. answer) (omega arith) library-Serves refl
      (omega arith)

-- A server that has closed its end.
abbrev silent : Library
silent = record {
  rio_readlineb = λ fd k. end_of_file;
  rio_writen = λ fd cs k. negsuc 0;
  open_clientfd = λ h p. some 5;
  asctime = λ k. time_text;
}

abbrev request_line : Text
request_line = codes "localhost 80 hello" ++ newline ∷ []

abbrev request_buf : Text
request_buf = request_line ++ 0 ∷ replicate 8172 7

serve-end_of_file_example :
    (collect (text_to 5) (
        events_of (
          serve silent
            (sscanf (c_string request_buf))
            (session 4 5 (address 127 0 0 1 40000) true request_buf 0 0 0)))
      ≡ (codes "hello" ++ newline ∷ []) ∷ [])
    × (collect (text_to 4) (
          events_of (
            serve silent
              (sscanf (c_string request_buf))
              (session 4 5 (address 127 0 0 1 40000) true request_buf 0 0 0)))
        ≡ c_string request_buf ∷ [])
    × (collect text_logged (
          events_of (
            serve silent
              (sscanf (c_string request_buf))
              (session 4 5 (address 127 0 0 1 40000) true request_buf 0 0 0)))
        ≡ [])
unfolding sscanf c_string
serve-end_of_file_example =
    serve-end_of_file silent 4 5 (address 127 0 0 1 40000) (omega arith) (codes "localhost")
      (codes "80") (codes "hello") request_buf 0 0 0 refl refl refl

-- A server whose lines have 8160 characters.
abbrev talkative : Library
talkative = record silent { rio_readlineb = λ fd k. line 8159 (replicate 8160 b'x') }

receive-overrun_example :
    receive talkative (session 4 5 (address 127 0 0 1 40000) true (replicate 8192 7) 0 0 0)
    ≡ exits (overrun ∷ [])
receive-overrun_example =
    receive-overrun talkative (session 4 5 (address 127 0 0 1 40000) true (replicate 8192 7) 0 0 0)
      8159 (replicate 8160 b'x') refl
      (omega arith, All-replicate (λ c. c ≢ 0) 8160 {a = b'x'} (omega arith)) refl refl
      (omega arith)

length-deal_log_format_example :
    (46 ≤ length (deal_log_format (address 147 46 10 1 40000) time_text answer))
    × (length (deal_log_format (address 147 46 10 1 40000) time_text answer) ≤ 59)
length-deal_log_format_example =
    length-deal_log_format (address 147 46 10 1 40000) time_text answer refl (omega arith)

atoi-decimal_example : atoi (decimal 8080) ≡ pos 8080
atoi-decimal_example = atoi-decimal 8080

abbrev open_listenfd : ℤ → Option ℕ
open_listenfd port = some 3

abbrev tail : ℕ → List Event → List Event
tail zero es = es
tail (suc n) [] = []
tail (suc n) (e ∷ es) = tail n es

-- The process with two clients, the first of which is about to open its connection.
abbrev two_threads : Process
two_threads = record {
  threads = tail 3 (process_request library connection) ∷ process_request library connection ∷ [];
  log_value = 1;
  sem_value = 0;
  log_file = [];
  is_over = false;
}

two_threads-Reach : Reach library first_process two_threads
unfolding process_request act c_string decimal decimal3
two_threads-Reach =
    next
      (next
        (next (next (next here (accept connection refl refl)) (turn 0 detached _ refl refl refl))
          (turn 0 freed_args _ refl refl refl))
        (turn 0 (locked mutex_sem) _ refl refl refl))
      (accept connection refl refl)

main_listens : main 2 (codes "3210") open_listenfd ≡ listening 3 first_process
unfolding main
main_listens = refl

abbrev first_thread : List Event
first_thread = tail 3 (process_request library connection)

process_request-exclusion_example : ◌≡◌ {A = ℕ} 0 0
unfolding process_request c_string decimal decimal3
process_request-exclusion_example =
    process_request-exclusion library (codes "3210") open_listenfd main_listens two_threads-Reach
      refl mutex_sem 0 0 {t = first_thread} {u = first_thread} refl refl tt tt

process_request-no_deadlock_example : CanTurn two_threads
unfolding process_request c_string decimal decimal3
process_request-no_deadlock_example =
    process_request-no_deadlock library (codes "3210") open_listenfd main_listens two_threads-Reach
      refl 1 refl
