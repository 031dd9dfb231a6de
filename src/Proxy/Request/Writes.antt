-- ===== src/Proxy/Request/Writes.antt =====
-- What the thread of a client in proxylab/proxy.c writes.
use system_programming_lab.Base.{
  ℕ, ◌+◌, ◌≡◌, ◌≢◌, refl, Bool, not, Option, none, List, [], ◌∷◌, ℤ, pos, negsuc, if◌then◌else◌,
  length, arith,
}
use system_programming_lab.Proxy.State.{
  Text, SockAddr, sent, Event, Library, Session, ran, equals, rio_writen_w, warned, writen_failed,
}
use system_programming_lab.Proxy.Request.Events.{collect, text_to}

-- The variables of the thread, with the connection to the server open or not yet.
abbrev pub session :
    (client server : ℕ) → SockAddr → Bool → Text → (reads writes times : ℕ) → Session
session client server sock is_open buf reads writes times = record {
  fd_client = pos client;
  sock = sock;
  buf = buf;
  init_flag = not is_open;
  fd_server = if is_open then pos server else negsuc 0;
  reads = reads;
  writes = writes;
  times = times;
}

module _ (lib : Library) where
  pub warning : ℤ → Text → ℕ → List Event
  warning fd cs k =
      if equals (lib.rio_writen fd cs k) (length cs) then [] else warned writen_failed ∷ []

  pub write :
      (fd : ℤ) (cs : Text) (s : Session)
      → rio_writen_w lib fd cs s
        ≡ ran (sent fd cs ∷ warning fd cs s.writes) tt (record s { writes = s.writes + 1 })
  unfolding rio_writen_w warning
  write fd cs s = ground arith

  pub collect-warning {ℓ} :
      {A : Type ℓ} (f : Event → Option A)
      → f (warned writen_failed) ≡ none
      → (fd : ℤ) (cs : Text) (k : ℕ) → collect f (warning fd cs k) ≡ []
  unfolding warning
  collect-warning f e fd cs k = ground (arith, e)

  pub collect-sent :
      (fd : ℕ) (cs : Text) (k : ℕ)
      → collect (text_to fd) (sent (pos fd) cs ∷ warning (pos fd) cs k) ≡ cs ∷ []
  collect-sent fd cs k = ground (arith, collect-warning (text_to fd) refl (pos fd) cs k)

  pub collect-sent_ne :
      (fd to : ℕ) (cs : Text) (k : ℕ)
      → to ≢ fd
      → collect (text_to fd) (sent (pos to) cs ∷ warning (pos to) cs k) ≡ []
  collect-sent_ne fd to cs k h = ground (arith, collect-warning (text_to fd) refl (pos to) cs k)
