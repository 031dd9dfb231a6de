-- ===== src/Proxy/Request/Loop.antt =====
-- The lines of a client in proxylab/proxy.c, one after the other, where the server answers each line
-- that it gets.
use system_programming_lab.Base.{
  ℕ, ◌+◌, ◌≡◌, ◌≢◌, ◌∙◌, refl, ap, Bool, true, List, [], ◌∷◌, ◌++◌, length, All, arith,
}
use system_programming_lab.Proxy.State.{
  Text, SockAddr, Reading, line, failed, end_of_file, warned, readlineb_failed, Library, Session,
  Run, ran, exits, M, ◌>>◌, after, >>=-ran, max_line, c_string, store, rio_readlineb_w,
}
use system_programming_lab.Proxy.Scan.{Scanned, request, incomplete, empty, sscanf}
use system_programming_lab.Proxy.Request.{serve, request_loop}
use system_programming_lab.Proxy.Request.Buffers.{
  IsLine, Serves, texts_of, length-store, c_string-store,
}
use system_programming_lab.Proxy.Request.Events.{
  collect-append, text_to, text_logged, descriptor_closed, asked, contents, replied, replies,
  numbered,
}
use system_programming_lab.Proxy.Request.Serve.{
  log_line, Does, serve-request, serve-incomplete, serve-empty,
}
use system_programming_lab.Proxy.Request.Writes.{session}

-- Whether the server is connected, and how often it was read, behind some requests.
abbrev pub now_open : Bool → List Text → Bool
now_open o [] = o
now_open o (t ∷ ts) = now_open true ts

abbrev pub past : ℕ → List Text → ℕ
past k [] = k
past k (t ∷ ts) = past (k + 1) ts

module _ (lib : Library) (client server : ℕ) (sock : SockAddr) (answers : ℕ → Text) where
  abbrev Done :
      Bool
      → Text
      → (k w : ℕ) → Bool
      → ℕ
      → (to_server to_client log : List Text) → Run (Unit {0})
      → Type 0
  Done = Does lib client server sock answers

  abbrev at : Bool → Text → (k w : ℕ) → Session
  at o buf k w = session client server sock o buf k w k

  Does-bind :
      {o o1 o2 : Bool} {buf : Text} {k w j j2 : ℕ} {a b c a' b' c' : List Text} (m g : M (Unit {0}))
      → Done o buf k w o1 j a b c (m (at o buf k w))
      → ((buf' : Text) (w' : ℕ)
          → length buf' ≡ length buf
          → Done o1 buf' j w' o2 j2 a' b' c' (g (at o1 buf' j w')))
      → Done o buf k w o2 j2 (a ++ a') (b ++ b') (c ++ c') ((m >> g) (at o buf k w))
  Does-bind m g d next =
      let n = next d.buf' d.writes d.size in
      record {
        events = d.events ++ n.events;
        buf' = n.buf';
        writes = n.writes;
        is_run = >>=-ran m (λ _. g) d.is_run n.is_run;
        size = n.size ∙ d.size;
        server_gets =
            rw (collect-append (text_to server) d.events n.events, d.server_gets, n.server_gets);
        client_gets =
            rw (collect-append (text_to client) d.events n.events, d.client_gets, n.client_gets);
        log_gets = rw (collect-append text_logged d.events n.events, d.log_gets, n.log_gets);
        closes = rw (collect-append descriptor_closed d.events n.events, d.closes, n.closes);
      }

  module _ (apart : client ≢ server) (serves : Serves lib server answers) where
    abbrev Follows : List Reading → List Text → Type 0
    Follows rs ts =
        (o : Bool) (buf : Text) (k w : ℕ)
        → length buf ≡ max_line
        → Done o buf k w (now_open o (contents ts)) (past k (contents ts)) (contents ts)
            (replies answers k ts)
            (numbered (log_line lib client server sock answers) k (contents ts))
            (request_loop lib rs (at o buf k w))

    serve-Follows :
        (sc : Scanned) (rs : List Reading) (ts : List Text)
        → Follows rs ts
        → (o : Bool) (buf : Text) (k w : ℕ) → length buf ≡ max_line
        → Done o buf k w
            (now_open o (asked sc (contents ts)))
            (past k (asked sc (contents ts)))
            (asked sc (contents ts))
            (replied answers k sc (λ j. replies answers j ts))
            (numbered (log_line lib client server sock answers) k (asked sc (contents ts)))
            ((serve lib sc >> request_loop lib rs) (at o buf k w))
    unfolding numbered
    serve-Follows (request h p x) rs ts ih o buf k w e =
        Does-bind (serve lib (request h p x)) (request_loop lib rs)
          (serve-request lib client server sock answers apart serves h p x o buf k w e)
          (λ buf' w' q. ih true buf' (k + 1) w' (q ∙ e))
    serve-Follows incomplete rs ts ih o buf k w e =
        Does-bind (serve lib incomplete) (request_loop lib rs)
          (serve-incomplete lib client server sock answers apart serves o buf k w)
          (λ buf' w' q. ih o buf' k w' (q ∙ e))
    serve-Follows empty rs ts ih o buf k w e =
        Does-bind (serve lib empty) (request_loop lib rs)
          (serve-empty lib client server sock answers apart serves o buf k w)
          (λ buf' w' q. ih o buf' k w' (q ∙ e))

    after-nil {ℓ} : {A : Type ℓ} (r : Run A) → after [] r ≡ r
    after-nil (ran es a s) = refl
    after-nil (exits es) = refl

    request_loop-line :
        (n : ℕ) (t : Text) (rs : List Reading) (o : Bool) (buf : Text) (k w : ℕ)
        → IsLine t
        → length buf ≡ max_line
        → request_loop lib (line n t ∷ rs) (at o buf k w)
          ≡ (serve lib (sscanf t) >> request_loop lib rs) (at o (store (t ++ 0 ∷ []) buf) k w)
    unfolding request_loop rio_readlineb_w
    request_loop-line n t rs o buf k w h e =
        let same : c_string (store (t ++ 0 ∷ []) buf) ≡ t =
          c_string-store t buf h.1 (omega (arith, h.0)) in
        after-nil _
        ∙ ap
            (λ (u : Text).
              (serve lib (sscanf u) >> request_loop lib rs) (at o (store (t ++ 0 ∷ []) buf) k w))
            same

    pub request_loop-Follows :
        (rs : List Reading) → All IsLine (texts_of rs) → Follows rs (texts_of rs)
    unfolding request_loop rio_readlineb_w texts_of contents replies numbered
    request_loop-Follows [] h o buf k w e = record {
      events = [];
      buf' = buf;
      writes = w;
      is_run = refl;
      size = refl;
      server_gets = refl;
      client_gets = refl;
      log_gets = refl;
      closes = refl;
    }
    request_loop-Follows (end_of_file ∷ rs) h o buf k w e = record {
      events = [];
      buf' = buf;
      writes = w;
      is_run = refl;
      size = refl;
      server_gets = refl;
      client_gets = refl;
      log_gets = refl;
      closes = refl;
    }
    request_loop-Follows (failed t ∷ rs) h o buf k w e = record {
      events = warned readlineb_failed ∷ [];
      buf' = store t buf;
      writes = w;
      is_run = refl;
      size = length-store t buf;
      server_gets = refl;
      client_gets = refl;
      log_gets = refl;
      closes = refl;
    }
    request_loop-Follows (line n t ∷ rs) h o buf k w e =
        let size' = length-store (t ++ 0 ∷ []) buf in
        let d =
          serve-Follows (sscanf t) rs (texts_of rs) (request_loop-Follows rs h.1) o
            (store (t ++ 0 ∷ []) buf) k w (size' ∙ e) in
        record {
          events = d.events;
          buf' = d.buf';
          writes = d.writes;
          is_run = request_loop-line n t rs o buf k w h.0 e ∙ d.is_run;
          size = d.size ∙ size';
          server_gets = d.server_gets;
          client_gets = d.client_gets;
          log_gets = d.log_gets;
          closes = d.closes;
        }
