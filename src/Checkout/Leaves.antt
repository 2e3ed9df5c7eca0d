-- ===== src/Checkout/Leaves.antt =====
-- Calls that end in a retry or an error.
use version_control_tools_fx.Base.{◌≡◌, Bool, true, false, Text, codes, text_eq, if◌then◌else◌, ℕ}
use version_control_tools_fx.Checkout.Steps.{
  Exception, abort, ssl_error, socket_timeout, repo_lookup_error, revlog_error, other, http_error,
  url_error, repo_error, response_error, Answer, State, next, M, ◌>>=◌, ◌>>◌, raise, callself,
  answered,
}
use version_control_tools_fx.Checkout.Failures.{
  handlepullerror, again_if, retry_or_raise, handlerepoerror, on_failure,
}
use version_control_tools_fx.Checkout.Sane.{then-eq-next}
use version_control_tools_fx.Checkout.Stored.{bind-eq-next}

-- A call that never ends with a value.
abbrev pub Leaves : {A : Type 0} → M A → Type 0
Leaves {A} m = (s s' : State) (a : A) → m s ≡ next a s' → ⊥

Leaves-bind : {A B : Type 0} (m : M A) (k : A → M B) → ((a : A) → Leaves (k a)) → Leaves (m >>= k)
Leaves-bind m k h s s' b e = let (a, s1, first, rest) = bind-eq-next m k s e in h a s1 s' b rest

Leaves-then : {A B : Type 0} (m : M A) (n : M B) → Leaves n → Leaves (m >> n)
Leaves-then m n h s s' b e = let (a, s1, first, rest) = then-eq-next m n s e in h s1 s' b rest

pub raise-Leaves : {A : Type 0} (e : Exception) → Leaves (raise {A = A} e)
unfolding raise
raise-Leaves e s s' a h = absurd (cc h)

callself-Leaves : {A : Type 0} → Leaves (callself {A = A})
unfolding callself
callself-Leaves s s' a h = absurd (cc h)

again_if-Leaves : {A : Type 0} (e : Exception) (b : Bool) → Leaves (again_if {A = A} e b)
again_if-Leaves e true = callself-Leaves
again_if-Leaves e false = raise-Leaves e

retry-Leaves : {A : Type 0} (limit : ℕ) (e : Exception) → Leaves (retry_or_raise {A = A} limit e)
unfolding retry_or_raise
retry-Leaves limit e = Leaves-bind (handlepullerror limit e) (again_if e) (again_if-Leaves e)

if-Leaves : {A : Type 0} (b : Bool) (m n : M A) → Leaves m → Leaves n → Leaves (if b then m else n)
if-Leaves true m n h k = h
if-Leaves false m n h k = k

handlerepoerror-Leaves :
    {A : Type 0} (r : Answer Bool) (e : Exception) (message : Text)
    → Leaves (handlerepoerror {A = A} r e message)
unfolding handlerepoerror
handlerepoerror-Leaves r e message =
    if-Leaves (text_eq message (codes "abandoned transaction found")) _ _
      (Leaves-bind (answered r) _ (λ b. Leaves-then _ callself callself-Leaves)) (raise-Leaves e)

pub on_failure-Leaves :
    {A : Type 0} (limit : ℕ) (r : Answer Bool) (m : M (Unit {0})) (e : Exception)
    → Leaves (on_failure {A = A} limit r m e)
unfolding on_failure
on_failure-Leaves limit r m (repo_error message) =
    handlerepoerror-Leaves r (repo_error message) message
on_failure-Leaves limit r m revlog_error = Leaves-then m callself callself-Leaves
on_failure-Leaves limit r m (abort message) = retry-Leaves limit (abort message)
on_failure-Leaves limit r m ssl_error = retry-Leaves limit ssl_error
on_failure-Leaves limit r m socket_timeout = retry-Leaves limit socket_timeout
on_failure-Leaves limit r m (http_error code) = retry-Leaves limit (http_error code)
on_failure-Leaves limit r m (url_error is_socket) = retry-Leaves limit (url_error is_socket)
on_failure-Leaves limit r m (response_error message) = raise-Leaves (response_error message)
on_failure-Leaves limit r m repo_lookup_error = raise-Leaves repo_lookup_error
on_failure-Leaves limit r m other = raise-Leaves other
