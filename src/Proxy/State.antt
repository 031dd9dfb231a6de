-- ===== src/Proxy/State.antt =====
-- What a thread of proxylab/proxy.c keeps, what it calls and what can be seen of it.
use system_programming_lab.Base.{
  ℕ, suc, ◌+◌, ◌≡◌, ap, Bool, false, Option, none, some, List, [], ◌∷◌, ◌++◌, ℤ, pos, negsuc, ◌==◌,
  if◌then◌else◌, length,
}

abbrev pub Text : Type 0
Text = List ℕ

abbrev pub max_line : ℕ
max_line = 8192

-- The part of `struct sockaddr_in` that is read: two words in network order, as the machine reads them.
pub record SockAddr : Type 0 where
  pub sin_addr : ℕ
  pub sin_port : ℕ

-- A call of rio_readlineb: it fails with some characters stored, it is at the end with nothing stored,
-- or it stores a line with a NUL behind it and returns a number above 0.
pub data Reading : Type 0 where
  failed : Text → Reading
  end_of_file : Reading
  line : ℕ → Text → Reading

pub data Semaphore : Type 0 where
  mutex_log mutex_sem : Semaphore

pub data Warning : Type 0 where
  readlineb_failed writen_failed no_arguments request_error : Warning

-- What a thread does to the world, in its order. `overrun` is a write past the end of an array.
pub data Event : Type 0 where
  detached freed_args flushed : Event
  locked unlocked : Semaphore → Event
  opened : Text → ℤ → Event
  sent : ℤ → Text → Event
  logged shown : Text → Event
  warned : Warning → Event
  closed : ℤ → Event
  exited overrun : Event

-- The calls of csapp.c and of the C library whose results are not the program's own: the k-th line
-- that the thread reads from a server, the result of its k-th rio_writen, Open_clientfd, which ends the
-- process where it is `none`, and asctime of the time of its k-th log line.
pub record Library : Type 0 where
  pub rio_readlineb : ℤ → ℕ → Reading
  pub rio_writen : ℤ → Text → ℕ → ℤ
  pub open_clientfd : Text → ℤ → Option ℕ
  pub asctime : ℕ → Text

-- The local variables of process_request, and how often it has called each function of the library.
pub record Session : Type 0 where
  pub fd_client : ℤ
  pub sock : SockAddr
  pub buf : Text
  pub init_flag : Bool
  pub fd_server : ℤ
  pub reads : ℕ
  pub writes : ℕ
  pub times : ℕ

-- What came of a piece of a thread: its events, and either a value and the variables, or the end of
-- the whole process. Behind a write past the end of an array the code promises nothing: the model ends
-- the process there.
pub data Run {ℓ} (A : Type ℓ) : Type ℓ where
  ran : List Event → A → Session → Run A
  exits : List Event → Run A

abbrev pub M {ℓ} : Type ℓ → Type ℓ
M A = Session → Run A

abbrev pub after {ℓ} : {A : Type ℓ} → List Event → Run A → Run A
after es (ran more a s) = ran (es ++ more) a s
after es (exits more) = exits (es ++ more)

infixl 5 ◌>>=◌ ◌>>◌
abbrev pub ◌>>=◌ {ℓ κ} : {A : Type ℓ} {B : Type κ} → M A → (A → M B) → M B
◌>>=◌ m f s = elim (m s) [ ran es a s' ↦ after es (f a s') | exits es ↦ exits es ]

abbrev pub ◌>>◌ {ℓ} : {B : Type ℓ} → M (Unit {0}) → M B → M B
m >> k = m >>= λ _. k

pub >>=-ran {ℓ κ} :
    {A : Type ℓ} {B : Type κ} (m : M A) (f : A → M B) {a : A} {b : B} {es es' : List Event}
    {s s1 s2 : Session}
    → m s ≡ ran es a s1
    → f a s1 ≡ ran es' b s2
    → (m >>= f) s ≡ ran (es ++ es') b s2
>>=-ran m f p q = rw (p, ◌>>=◌) (ap (after _) q)

abbrev pub skip : M (Unit {0})
skip s = ran [] tt s

abbrev pub emit : Event → M (Unit {0})
emit e s = ran (e ∷ []) tt s

-- The characters of an array before its first NUL.
unfoldable pub c_string : Text → Text
c_string [] = []
c_string (c ∷ cs) = if c == 0 then [] else c ∷ c_string cs

-- A write at the begin of an array, of what fits.
unfoldable pub store : Text → Text → Text
store [] buf = buf
store (c ∷ cs) [] = []
store (c ∷ cs) (b ∷ buf) = c ∷ store cs buf

abbrev pub equals : ℤ → ℕ → Bool
equals (pos k) n = k == n
equals (negsuc k) n = false

-- A return of rio_readlineb below 0 is turned into 0. What is returned, and what `buf` holds then.
unfoldable pub rio_readlineb_w : Reading → M ℕ
unfolding store
rio_readlineb_w (failed cs) s =
    ran (warned readlineb_failed ∷ []) 0 (record s { buf = store cs s.buf })
rio_readlineb_w end_of_file s = ran [] 0 s
rio_readlineb_w (line n cs) s = ran [] (suc n) (record s { buf = store (cs ++ 0 ∷ []) s.buf })

module _ (lib : Library) where
  -- Rio_writen_w: a result other than the length is only reported.
  unfoldable pub rio_writen_w : ℤ → Text → M (Unit {0})
  rio_writen_w fd cs s =
      if equals (lib.rio_writen fd cs s.writes) (length cs)
      then ran (sent fd cs ∷ []) tt (record s { writes = s.writes + 1 })
      else ran (sent fd cs ∷ warned writen_failed ∷ []) tt (record s { writes = s.writes + 1 })

  unfoldable pub open_clientfd_ts : Text → ℤ → M ℤ
  open_clientfd_ts hostname port s = elim (lib.open_clientfd hostname port) [
    | none ↦ exits (locked mutex_sem ∷ opened hostname port ∷ exited ∷ [])
    | some fd ↦ ran (locked mutex_sem ∷ opened hostname port ∷ unlocked mutex_sem ∷ []) (pos fd) s
  ]

-- print_log
unfoldable pub print_log : Text → M (Unit {0})
print_log log_format s =
    ran
      (locked mutex_log ∷ logged log_format ∷ flushed ∷ unlocked mutex_log ∷ shown log_format ∷ [])
      tt s
