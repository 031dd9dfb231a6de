-- ===== src/Proxy/Request/Traffic.antt =====
-- What the thread of a client in proxylab/proxy.c does from its begin to its end.
use system_programming_lab.Base.{
  ℕ, ◌≡◌, ◌≢◌, refl, ap, true, Bool, false, Option, none, ◌++◌, List, [], ◌∷◌, ℤ, pos, length, All,
}
use system_programming_lab.Proxy.State.{
  Text, Event, detached, freed_args, closed, ran, after, Library, max_line, >>=-ran,
}
use system_programming_lab.Proxy.Format.{deal_log_format}
use system_programming_lab.Proxy.Request.{
  Connection, process_request, close_both, request_loop, events_of,
}
use system_programming_lab.Proxy.Request.Buffers.{IsLine, Serves, texts_of}
use system_programming_lab.Proxy.Request.Events.{
  collect, collect-append, text_to, text_logged, descriptor_closed, contents, replies, numbered,
}
use mathlib.Core.List.{append-nil}
use system_programming_lab.Proxy.Request.Serve.{Does}
use system_programming_lab.Proxy.Request.Writes.{session}
use system_programming_lab.Proxy.Request.Loop.{now_open, past, request_loop-Follows}

module _ (lib : Library) (c : Connection) (server : ℕ) (answers : ℕ → Text) (apart : c.fd ≢ server)
    (serves : Serves lib server answers) (garbage : length c.garbage ≡ max_line)
    (h : All IsLine (texts_of c.lines)) where
  abbrev loop :
      Does lib c.fd server c.addr answers false c.garbage 0 0
        (now_open false (contents (texts_of c.lines)))
        (past 0 (contents (texts_of c.lines)))
        (contents (texts_of c.lines))
        (replies answers 0 (texts_of c.lines))
        (numbered
          (λ k. deal_log_format c.addr (lib.asctime k) (answers k))
          0
          (contents (texts_of c.lines)))
        (request_loop lib c.lines (session c.fd server c.addr false c.garbage 0 0 0))
  loop =
      request_loop-Follows lib c.fd server c.addr answers apart serves c.lines h false c.garbage 0 0
        garbage

  closing : Bool → List Event
  closing true = closed (pos c.fd) ∷ closed (pos server) ∷ []
  closing false = []

  close_both-closing :
      (o : Bool) (buf : Text) (k w : ℕ)
      → close_both (session c.fd server c.addr o buf k w k)
        ≡ ran (closing o) tt (session c.fd server c.addr o buf k w k)
  unfolding close_both closing
  close_both-closing true buf k w = refl
  close_both-closing false buf k w = refl

  process_request-eq :
      process_request lib c
      ≡ detached ∷ freed_args ∷ loop.events
        ++ closing (now_open false (contents (texts_of c.lines)))
  unfolding process_request
  process_request-eq =
      ap (λ r. events_of (after (detached ∷ []) (after (freed_args ∷ []) r)))
        (>>=-ran (request_loop lib c.lines) (λ _. close_both) loop.is_run
          (close_both-closing (now_open false (contents (texts_of c.lines))) loop.buf'
            (past 0 (contents (texts_of c.lines))) loop.writes))

  collect-process_request {ℓ} :
      {A : Type ℓ} (f : Event → Option A)
      → f detached ≡ none
      → f freed_args ≡ none
      → collect f (process_request lib c)
        ≡ collect f loop.events
          ++ collect f (closing (now_open false (contents (texts_of c.lines))))
  collect-process_request f a b = rw (process_request-eq, a, b) (collect-append f _ _)

  collect-closing {ℓ} :
      {A : Type ℓ} (f : Event → Option A)
      → ((fd : ℤ) → f (closed fd) ≡ none)
      → (o : Bool) → collect f (closing o) ≡ []
  unfolding closing
  collect-closing f a true = rw (a, a)
  collect-closing f a false = refl

  -- Where the client's descriptor and the server's are not the same, every connection to the server
  -- succeeds, the server sends a line for each line that it gets, short enough by 53 characters for an
  -- array of 8192, asctime returns 25 characters, `buf` has 8192, and what is read are lines, the thread sends the server the third word of every
  -- line of the client with three words or more, in their order, each with a newline; it answers every
  -- line of the client, by the next line of the server, or by a message that it lacks arguments or has
  -- no word; and it logs each line of the server, in their order, with the client's address. The
  -- client's lines count up to its end or up to a read that fails.
  pub process_request-traffic :
      (collect (text_to server) (process_request lib c) ≡ contents (texts_of c.lines))
      × (collect (text_to c.fd) (process_request lib c) ≡ replies answers 0 (texts_of c.lines))
      × (collect text_logged (process_request lib c)
          ≡ numbered
              (λ k. deal_log_format c.addr (lib.asctime k) (answers k))
              0
              (contents (texts_of c.lines)))
  process_request-traffic = (
    rw
        (
          collect-process_request (text_to server) refl refl,
          loop.server_gets,
          collect-closing (text_to server) (λ _. refl),
        )
        (append-nil _),
    rw
        (
          collect-process_request (text_to c.fd) refl refl,
          loop.client_gets,
          collect-closing (text_to c.fd) (λ _. refl),
        )
        (append-nil _),
    rw
        (
          collect-process_request text_logged refl refl,
          loop.log_gets,
          collect-closing text_logged (λ _. refl),
        )
        (append-nil _),
  )

  closing-now_open :
      (ts : List Text)
      → collect descriptor_closed (closing (now_open true ts)) ≡ pos c.fd ∷ pos server ∷ []
  unfolding closing
  closing-now_open [] = refl
  closing-now_open (t ∷ ts) = closing-now_open ts

  closing-requests :
      (ts : List Text)
      → collect descriptor_closed (closing (now_open false ts))
        ≡ elim ts as (λ _. List ℤ) [ [] ↦ [] | _ ∷ _ ↦ pos c.fd ∷ pos server ∷ [] ]
  unfolding closing
  closing-requests [] = refl
  closing-requests (t ∷ ts) = closing-now_open ts

  -- Where the client's descriptor and the server's are not the same, every connection to the server
  -- succeeds, the server sends a line for each line that it gets, short enough by 53 characters for an
  -- array of 8192, asctime returns 25 characters, `buf` has 8192, and what is read are lines, the thread
  -- closes the client's descriptor and the server's, once each, if some line of the client up to its end
  -- or up to a read that fails has three words, and otherwise closes nothing.
  pub process_request-closed :
      collect descriptor_closed (process_request lib c)
      ≡ elim (contents (texts_of c.lines)) as (λ _. List ℤ) [
        | [] ↦ []
        | _ ∷ _ ↦ pos c.fd ∷ pos server ∷ []
      ]
  process_request-closed =
      rw (collect-process_request descriptor_closed refl refl, loop.closes)
        (closing-requests (contents (texts_of c.lines)))
