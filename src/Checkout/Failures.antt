-- ===== src/Checkout/Failures.antt =====
-- hgext/robustcheckout/__init__.py: what `_docheckout` does where a call of Mercurial fails.
use version_control_tools_fx.Base.{
  ℕ, suc, Bool, true, false, not, Text, codes, text_eq, starts_with, strip, leb, none, some,
  if◌then◌else◌,
}
use version_control_tools_fx.Checkout.Steps.{
  Exception, abort, ssl_error, socket_timeout, revlog_error, other, http_error, url_error,
  repo_error, response_error, Answer, M, Step, next, again, raised, ◌>>=◌, ◌>>◌, pure, raise,
  callself, when, answered, disk_of, remove_dest, remove_store, timeit, sharedpath_of,
}
use version_control_tools_fx.Checkout.Sanity.{store_dir}

-- `try: m except …`
abbrev pub caught : {A : Type 0} → Step A → (Exception → M A) → Step A
caught (next a s) h = next a s
caught (again s) h = again s
caught (raised e s) h = h e s

unfoldable pub try_ : {A : Type 0} → M A → (Exception → M A) → M A
try_ m h s = caught (m s) h

-- `deletesharedstore()`; without the file of the shared path, reading it raises
unfoldable pub deletesharedstore : M (Unit {0})
unfolding remove_store store_dir strip
deletesharedstore = do
  d ← disk_of
  elim (sharedpath_of d) [ none ↦ raise other | some raw ↦ remove_store (store_dir (strip raw)) ]

unfoldable pub count_attempt : M (Unit {0})
count_attempt s = next tt (record s { attempts = suc s.attempts })

-- `handlenetworkfailure`
unfoldable pub handlenetworkfailure : ℕ → M (Unit {0})
handlenetworkfailure limit s =
    if leb limit s.attempts
    then raised (abort (codes "reached maximum number of network attempts; giving up\n")) s
    else count_attempt s

abbrev pub retried : ℕ → M Bool
retried limit = do handlenetworkfailure limit; pure true

abbrev pub on_abort : ℕ → Text → M Bool
on_abort limit message =
    if text_eq message (codes "repository is unrelated")
    then (do remove_dest; pure true)
    else if starts_with message (codes "stream ended unexpectedly")
    then retried limit
    else pure false

abbrev pub on_response : ℕ → Text → M Bool
on_response limit message =
    if starts_with message (codes "unexpected response from remote server:")
    then (do remove_dest; retried limit)
    else pure false

-- `handlepullerror`
unfoldable pub handlepullerror : ℕ → Exception → M Bool
unfolding handlenetworkfailure starts_with
handlepullerror limit (abort message) = on_abort limit message
handlepullerror limit (response_error message) = on_response limit message
handlepullerror limit ssl_error = retried limit
handlepullerror limit (http_error code) = if leb 500 code then retried limit else pure false
handlepullerror limit (url_error is_socket) = if is_socket then retried limit else pure false
handlepullerror limit socket_timeout = retried limit
handlepullerror limit e = pure false

-- The first `except` clause of the network operations.
abbrev pub is_pull_error : Exception → Bool
is_pull_error (abort message) = true
is_pull_error ssl_error = true
is_pull_error (http_error code) = true
is_pull_error (url_error is_socket) = true
is_pull_error socket_timeout = true
is_pull_error e = false

abbrev pub again_if : {A : Type 0} → Exception → Bool → M A
again_if e true = callself
again_if e false = raise e

unfoldable pub retry_or_raise : {A : Type 0} → ℕ → Exception → M A
unfolding handlepullerror
retry_or_raise limit e = handlepullerror limit e >>= again_if e

-- `handlerepoerror`, with the answer of `repo.recover()`
unfoldable pub handlerepoerror : {A : Type 0} → Answer Bool → Exception → Text → M A
unfolding timeit deletesharedstore
handlerepoerror recover e message =
    if text_eq message (codes "abandoned transaction found")
    then (do
      recovered ← answered recover
      when (not recovered) (
          timeit (codes "remove_unrecovered_shared_store") (codes "remove-store") deletesharedstore)
      callself)
    else raise e

-- The `except` clauses of the clone and the pull, where `m` deletes the store of a corrupt repository.
unfoldable pub on_failure : {A : Type 0} → ℕ → Answer Bool → M (Unit {0}) → Exception → M A
unfolding retry_or_raise handlerepoerror
on_failure limit recover m (repo_error message) =
    handlerepoerror recover (repo_error message) message
on_failure limit recover m revlog_error = do m; callself
on_failure limit recover m e = if is_pull_error e then retry_or_raise limit e else raise e
