-- ===== src/Proxy/Request/Events.antt =====
-- Parts of what a thread of proxylab/proxy.c does: what it sends to one end, what it writes to the
-- log, what it closes; and what they shall be for the lines of a client.
use system_programming_lab.Base.{
  ℕ, ◌+◌, ◌≡◌, refl, Option, none, some, List, [], ◌∷◌, ◌++◌, ℤ, if◌then◌else◌, arith,
}
use system_programming_lab.Proxy.State.{Text, Event, sent, logged, closed, equals}
use system_programming_lab.Proxy.Scan.{Scanned, request, incomplete, empty, sscanf}
use system_programming_lab.Proxy.Request.{newline, error_msg, incomplete_msg}

-- The values that a function picks from some events.
abbrev pub collect {ℓ} : {A : Type ℓ} → (Event → Option A) → List Event → List A
collect f [] = []
collect f (e ∷ es) = elim (f e) [ none ↦ collect f es | some a ↦ a ∷ collect f es ]

pub collect-append {ℓ} :
    {A : Type ℓ} (f : Event → Option A) (xs ys : List Event)
    → collect f (xs ++ ys) ≡ collect f xs ++ collect f ys
collect-append f [] ys = refl
collect-append f (e ∷ xs) ys = let ih = collect-append f xs ys in ground (arith, ih)

abbrev pub text_to : ℕ → Event → Option Text
text_to fd (sent to cs) = if equals to fd then some cs else none
text_to fd e = none

abbrev pub text_logged : Event → Option Text
text_logged (logged cs) = some cs
text_logged e = none

abbrev pub descriptor_closed : Event → Option ℤ
descriptor_closed (closed fd) = some fd
descriptor_closed e = none

-- What the server of a client that sends these lines shall get.
abbrev pub asked : Scanned → List Text → List Text
asked (request h p content) ts = (content ++ newline ∷ []) ∷ ts
asked incomplete ts = ts
asked empty ts = ts

unfoldable pub contents : List Text → List Text
contents [] = []
contents (t ∷ ts) = asked (sscanf t) (contents ts)

-- What the client shall get, where the server's k-th line is `answers k`.
abbrev pub replied : (ℕ → Text) → ℕ → Scanned → (ℕ → List Text) → List Text
replied answers k (request h p content) more = answers k ∷ more (k + 1)
replied answers k incomplete more = incomplete_msg ∷ more k
replied answers k empty more = error_msg ∷ more k

unfoldable pub replies : (ℕ → Text) → ℕ → List Text → List Text
replies answers k [] = []
replies answers k (t ∷ ts) = replied answers k (sscanf t) (λ j. replies answers j ts)

-- As many values of a sequence, from the k-th on, as the list has members.
unfoldable pub numbered : (ℕ → Text) → ℕ → List Text → List Text
numbered f k [] = []
numbered f k (t ∷ ts) = f k ∷ numbered f (k + 1) ts
