-- ===== src/Checkout/Bounded.antt =====
-- The attempts that `robustcheckout` makes.
use Prim.Native.Nat.{max}
use version_control_tools_fx.Base.{
  ℕ, zero, suc, ◌+◌, ◌-◌, ◌≤◌, ◌<◌, ◌≡◌, refl, ap, ◌∙◌, true, false, List, [], ◌∷◌, none, Text,
  codes, leb, length, arith, inl, inr, Bool-cases, if◌then◌else◌,
}
use version_control_tools_fx.Checkout.{failed, run, state_of, begin}
use version_control_tools_fx.Checkout.Steps.{
  ◌>>=◌, ◌>>◌, when, pure, raise, answered, callself, disk_of, Store, repo_lookup_error,
  revlog_error, other, repo_error, response_error, Exception, abort, ssl_error, socket_timeout,
  http_error, url_error, raises, Disk, State, Step, next, again, raised,
}
use version_control_tools_fx.Checkout.Failures.{
  try_, again_if, retried, handlenetworkfailure, count_attempt, retry_or_raise,
}
use version_control_tools_fx.Checkout.Sanity.{check_dest}
use version_control_tools_fx.Checkout.Attempt.{
  Options, Answers, on_root_failure, find_root, docheckout,
}
use version_control_tools_fx.Checkout.Phases.{Stable}
use version_control_tools_fx.Checkout.Runs.{run-kept}

abbrev Within : ℕ → State → Type 0
Within limit s = s.attempts ≤ max limit 1

Within-Stable : (limit : ℕ) → Stable limit (Within limit)
Within-Stable limit = record {
  files = λ s d p. p;
  times = λ s ts p. p;
  behavior = λ s b apart p. p;
  attempt = λ s below p. ground (arith, below);
}

-- Whatever Mercurial and the network answer, the attempts that are counted never pass the limit, or
-- one where that is 0.
run-attempts :
    (o : Options) (answers : List Answers) (d : Disk)
    → (state_of (run o answers (begin d))).attempts ≤ max o.networkattemptlimit 1
run-attempts o answers d =
    run-kept o (Within o.networkattemptlimit) (Within-Stable o.networkattemptlimit) answers
      (begin d) (omega arith)

-- A failure of the network.
abbrev pub IsNetwork : Exception → Type 0
IsNetwork ssl_error = Unit
IsNetwork socket_timeout = Unit
IsNetwork (http_error code) = leb 500 code ≡ true
IsNetwork (url_error is_socket) = is_socket ≡ true
IsNetwork e = ⊥

abbrev pub gave_up : Exception
gave_up = abort (codes "reached maximum number of network attempts; giving up\n")

abbrev pub fresh : List (Text × Store) → ℕ → List Text → List Text → State
fresh stores n bs ts = record {
  disk = record { dest = none; stores = stores };
  attempts = n;
  behaviors = bs;
  optimes = ts;
}

no_dest :
    (profile : Text) (stores : List (Text × Store)) (n : ℕ) (bs ts : List Text)
    → check_dest profile (fresh stores n bs ts) ≡ next tt (fresh stores n bs ts)
unfolding check_dest ◌>>=◌ ◌>>◌ when pure disk_of
no_dest [] stores n bs ts = refl
no_dest (c ∷ cs) stores n bs ts = refl

abbrev counted : ℕ → State → Step Text
counted limit s =
    if leb limit s.attempts
    then raised gave_up s
    else again (record s { attempts = suc s.attempts })

-- A failure is counted, or the run ends.
retried-counted :
    (limit : ℕ) (e : Exception) (s : State) → (retried limit >>= again_if e) s ≡ counted limit s
unfolding handlenetworkfailure count_attempt ◌>>=◌ ◌>>◌ pure callself
retried-counted limit e s = elim (Bool-cases (leb limit s.attempts)) [
  | inl reached ↦ rw reached refl
  | inr below ↦ rw below refl
]

network-retry :
    (limit : ℕ) (e : Exception) (s : State)
    → IsNetwork e
    → on_root_failure limit e s ≡ counted limit s
unfolding retry_or_raise
network-retry limit ssl_error s n = retried-counted limit ssl_error s
network-retry limit socket_timeout s n = retried-counted limit socket_timeout s
network-retry limit (http_error code) s n =
    (rw (retry_or_raise, n) refl) ∙ retried-counted limit (http_error code) s
network-retry limit (url_error is_socket) s n =
    (rw (retry_or_raise, n) refl) ∙ retried-counted limit (url_error is_socket) s
network-retry limit (abort m) s n = absurd n
network-retry limit repo_lookup_error s n = absurd n
network-retry limit revlog_error s n = absurd n
network-retry limit other s n = absurd n
network-retry limit (repo_error m) s n = absurd n
network-retry limit (response_error m) s n = absurd n

root_fails :
    (o : Options) (a : Answers) (e : Exception) (s : State)
    → a.root ≡ raises e
    → IsNetwork e
    → find_root o a s ≡ counted o.networkattemptlimit s
unfolding find_root answered raise try_ ◌>>=◌
root_fails o a e s h n = elim (Bool-cases (leb o.networkattemptlimit s.attempts)) [
  | inl reached ↦ rw (answered, h, network-retry o.networkattemptlimit e s n, reached) refl
  | inr below ↦ rw (answered, h, network-retry o.networkattemptlimit e s n, below) refl
]

-- Without a destination a call ends where the network fails.
docheckout_fails :
    (o : Options) (a : Answers) (e : Exception) (stores : List (Text × Store)) (n : ℕ)
    (bs ts : List Text)
    → a.root ≡ raises e
    → IsNetwork e
    → docheckout o a (fresh stores n bs ts) ≡ counted o.networkattemptlimit (fresh stores n bs ts)
unfolding docheckout ◌>>=◌ ◌>>◌
docheckout_fails o a e stores n bs ts h f = elim (Bool-cases (leb o.networkattemptlimit n)) [
  | inl reached ↦
      rw
        (
          no_dest o.sparse_profile stores n bs ts,
          root_fails o a e (fresh stores n bs ts) h f,
          reached,
        )
        refl
  | inr below ↦
      rw
        (
          no_dest o.sparse_profile stores n bs ts,
          root_fails o a e (fresh stores n bs ts) h f,
          below,
        )
        refl
]

-- The network fails in each call.
abbrev pub NetworkFails : List Answers → Type 0
NetworkFails [] = Unit
NetworkFails (a ∷ rest) = ((e : Exception) × (a.root ≡ raises e) × IsNetwork e) × NetworkFails rest

gives_up :
    (o : Options) (left : ℕ) (answers : List Answers) (stores : List (Text × Store)) (n : ℕ)
    (bs ts : List Text)
    → n + left ≡ o.networkattemptlimit
    → left < length answers
    → NetworkFails answers
    → run o answers (fresh stores n bs ts)
      ≡ failed gave_up (fresh stores o.networkattemptlimit bs ts)
unfolding run
gives_up o left [] stores n bs ts e l f = absurd (omega (arith, l))
gives_up o zero (a ∷ rest) stores n bs ts e l ((x, h, w), f) =
    let here : n ≡ o.networkattemptlimit = omega (arith, e) in
    let reached : leb o.networkattemptlimit n ≡ true = ground (arith, here) in
    rw (run, docheckout_fails o a x stores n bs ts h w, reached)
      (ap (λ k. failed gave_up (fresh stores k bs ts)) here)
gives_up o (suc left) (a ∷ rest) stores n bs ts e l ((x, h, w), f) =
    let below : leb o.networkattemptlimit n ≡ false = ground (arith, e) in
    rw (run, docheckout_fails o a x stores n bs ts h w, below)
      (gives_up o left rest stores (suc n) bs ts (omega (arith, e)) (omega (arith, l)) f)

-- Without a destination and with a limit of one attempt or more, where the network fails in each of
-- as many calls, the run raises the error of the last attempt, has counted as many attempts as the
-- limit says, and has changed no file.
pub run-gives_up :
    (o : Options) (answers : List Answers) (stores : List (Text × Store))
    → 1 ≤ o.networkattemptlimit
    → o.networkattemptlimit ≤ length answers
    → NetworkFails answers
    → run o answers (begin (record { dest = none; stores = stores }))
      ≡ failed gave_up (fresh stores o.networkattemptlimit [] [])
run-gives_up o answers stores some_attempt enough f =
    gives_up o (o.networkattemptlimit - 1) answers stores 1 [] [] (omega (arith, some_attempt))
      (omega (arith, some_attempt, enough)) f
