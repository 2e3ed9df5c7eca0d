-- ===== src/Checkout/Phases.antt =====
-- What every call of `_docheckout` keeps of the counters.
use version_control_tools_fx.Base.{
  ℕ, suc, ◌≡◌, refl, Bool, true, false, not, List, ◌∷◌, ◌++◌, Option, none, some, Text, codes,
  text_eq, find, leb, strip, Bool-cases, inl, inr,
}
use version_control_tools_fx.Checkout.Steps.{
  Exception, abort, ssl_error, socket_timeout, repo_lookup_error, revlog_error, other, http_error,
  url_error, repo_error, response_error, Answer, Store, Disk, State, Step, next, again, raised, M,
  ◌>>=◌, pure, raise, remove_dest, remove_store, add_behavior, timed, timeit, sharedpath_of,
  store_exists,
}
use version_control_tools_fx.Checkout.Sanity.{
  store_dir, refuse_dest, drop_unshared, check_path, check_shared, drop_locked, check_dest,
  drop_both, drop_locked_store, drop_odd_store, all_requires, drop_unless_complete, check_required,
  drop_incomplete_store, check_store,
}
use version_control_tools_fx.Checkout.Failures.{
  deletesharedstore, handlenetworkfailure, retried, handlepullerror, again_if, retry_or_raise,
  handlerepoerror, on_failure, count_attempt,
}
use version_control_tools_fx.Checkout.Attempt.{effect}
use version_control_tools_fx.Checkout.Keep.{
  after, Keep, bind-Keep, then-Keep, pure-Keep, raise-Keep, callself-Keep, disk-Keep, when-Keep,
  answered-Keep, answered-kept, if-Keep,
}

-- A behavior that is not one of two.
abbrev pub IsApart : Text → Type 0
IsApart b = (text_eq (codes "sparse-update") b ≡ false) × (text_eq (codes "create-store") b ≡ false)

-- What a property of the state must allow: that files and times change, that a behavior is noted,
-- other than two, and that an attempt is counted below the limit.
pub record Stable (limit : ℕ) (P : State → Type 0) : Type 0 where
  pub files : (s : State) (d : Disk) → P s → P (record s { disk = d })
  pub times : (s : State) (ts : List Text) → P s → P (record s { optimes = ts })
  pub behavior :
      (s : State) (b : Text) → IsApart b → P s → P (record s { behaviors = b ∷ s.behaviors })
  pub attempt :
      (s : State) → leb limit s.attempts ≡ false → P s → P (record s { attempts = suc s.attempts })

module _ (limit : ℕ) (P : State → Type 0) (stable : Stable limit P) where
  effect-kept : {A : Type 0} (f : Disk → Answer A × Disk) (s : State) → P s → P (after (effect f s))
  unfolding effect
  effect-kept f s p = answered-kept P (f s.disk).0 _ (stable.files s (f s.disk).1 p)

  pub effect-Keep : {A : Type 0} (f : Disk → Answer A × Disk) → Keep P (effect f)
  effect-Keep f = record { kept = effect-kept f }

  remove_dest-Keep : Keep P remove_dest
  unfolding remove_dest
  remove_dest-Keep = record { kept = λ s p. stable.files s _ p }

  remove_store-kept : (path : Text) (s : State) → P s → P (after (remove_store path s))
  unfolding remove_store
  remove_store-kept path s p = stable.files s _ p

  remove_store-Keep : (path : Text) → Keep P (remove_store path)
  remove_store-Keep path = record { kept = remove_store-kept path }

  timed-kept : {A : Type 0} (op : Text) (r : Step A) → P (after r) → P (after (timed op r))
  timed-kept op (next a s) p = stable.times s _ p
  timed-kept op (again s) p = stable.times s _ p
  timed-kept op (raised e s) p = stable.times s _ p

  timeit-kept :
      {A : Type 0} (op behavior : Text) {m : M A}
      → IsApart behavior
      → Keep P m
      → (s : State) → P s
      → P (after (timeit op behavior m s))
  unfolding timeit
  timeit-kept op behavior {m} apart h s p =
      timed-kept op (m (record s { behaviors = behavior ∷ s.behaviors }))
        (h.kept _ (stable.behavior s behavior apart p))

  pub timeit-Keep :
      {A : Type 0} (op behavior : Text) {m : M A}
      → IsApart behavior
      → Keep P m
      → Keep P (timeit op behavior m)
  timeit-Keep op behavior apart h = record { kept = timeit-kept op behavior apart h }

  behavior-kept : (b : Text) → IsApart b → (s : State) → P s → P (after (add_behavior b s))
  unfolding add_behavior
  behavior-kept b apart s p = stable.behavior s b apart p

  pub behavior-Keep : (b : Text) → IsApart b → Keep P (add_behavior b)
  behavior-Keep b apart = record { kept = behavior-kept b apart }

  timed_dest-Keep : (op : Text) → Keep P (timeit op (codes "remove-wdir") remove_dest)
  unfolding text_eq
  timed_dest-Keep op = timeit-Keep op _ (refl, refl) remove_dest-Keep

  refuse_dest-Keep : (profile : Text) → Keep P (refuse_dest profile)
  unfolding refuse_dest
  refuse_dest-Keep profile = bind-Keep disk-Keep (λ d.
      then-Keep (when-Keep _ (raise-Keep _))
        (then-Keep (when-Keep _ (raise-Keep _)) (when-Keep _ (raise-Keep _))))

  check_path-Keep : (path : Text) (d : Disk) → Keep P (check_path path d)
  check_path-Keep path d =
      if-Keep (not (store_exists (store_dir path) d)) (timed_dest-Keep _)
        (when-Keep _ (timed_dest-Keep _))

  shared-Keep :
      (o : Option Text) (d : Disk)
      → Keep P (elim o [ none ↦ pure tt | some raw ↦ check_path (strip raw) d ])
  shared-Keep none d = pure-Keep tt
  shared-Keep (some raw) d = check_path-Keep (strip raw) d

  pub check_dest-Keep : (profile : Text) → Keep P (check_dest profile)
  unfolding check_dest drop_unshared drop_locked check_shared
  check_dest-Keep profile = then-Keep (refuse_dest-Keep profile) (
      then-Keep (bind-Keep disk-Keep (λ d. when-Keep _ (timed_dest-Keep _))) (
        then-Keep (bind-Keep disk-Keep (λ d. shared-Keep (sharedpath_of d) d))
          (bind-Keep disk-Keep (λ d. when-Keep _ (timed_dest-Keep _)))))

  drop_both-Keep : (dest_op store_op path : Text) → Keep P (drop_both dest_op store_op path)
  unfolding drop_both text_eq
  drop_both-Keep dest_op store_op path = bind-Keep disk-Keep (λ d.
      then-Keep (when-Keep _ (timed_dest-Keep dest_op))
        (timeit-Keep store_op _ (refl, refl) (remove_store-Keep path)))

  all_requires-Keep : (rs : List Text) (more : Option (List Text)) → Keep P (all_requires rs more)
  unfolding all_requires
  all_requires-Keep rs more = if-Keep _ (chosen more) (pure-Keep rs)
    where
      chosen :
          (o : Option (List Text))
          → Keep {A = List Text} P (elim o [ none ↦ raise other | some ms ↦ pure (rs ++ ms) ])
      chosen none = raise-Keep other
      chosen (some ms) = pure-Keep (rs ++ ms)

  check_required-Keep : (path : Text) (t : Store) → Keep P (check_required path t)
  check_required-Keep path t = chosen t.requires
    where
      chosen :
          (o : Option (List Text))
          → Keep P (elim o [
            | none ↦ pure tt
            | some rs ↦ all_requires rs t.store_requires >>= drop_unless_complete path
          ])
      chosen none = pure-Keep tt
      chosen (some rs) =
          bind-Keep (all_requires-Keep rs t.store_requires)
            (λ ms. when-Keep _ (drop_both-Keep _ _ path))

  incomplete-Keep :
      (path : Text) (o : Option Store)
      → Keep P (elim o [ none ↦ pure tt | some t ↦ check_required path t ])
  incomplete-Keep path none = pure-Keep tt
  incomplete-Keep path (some t) = check_required-Keep path t

  pub check_store-Keep : (path : Text) → Keep P (check_store path)
  unfolding check_store drop_locked_store drop_odd_store drop_incomplete_store
  check_store-Keep path =
      then-Keep (bind-Keep disk-Keep (λ d. when-Keep _ (drop_both-Keep _ _ path))) (
        then-Keep (bind-Keep disk-Keep (λ d. when-Keep _ (drop_both-Keep _ _ path)))
          (bind-Keep disk-Keep (λ d. incomplete-Keep path (find path d.stores))))

  pub delete-Keep : Keep P deletesharedstore
  unfolding deletesharedstore
  delete-Keep = bind-Keep disk-Keep (λ d. chosen (sharedpath_of d))
    where
      chosen :
          (o : Option Text)
          → Keep {A = Unit {0}} P
              (elim o [ none ↦ raise other | some raw ↦ remove_store (store_dir (strip raw)) ])
      chosen none = raise-Keep other
      chosen (some raw) = remove_store-Keep (store_dir (strip raw))

  count-kept : (s : State) → P s → P (after (handlenetworkfailure limit s))
  unfolding handlenetworkfailure count_attempt
  count-kept s p = elim (Bool-cases (leb limit s.attempts)) [
    | inl reached ↦ rw reached p
    | inr below ↦ rw below (stable.attempt s below p)
  ]

  retried-Keep : Keep P (retried limit)
  retried-Keep = then-Keep (record { kept = count-kept }) (pure-Keep true)

  handlepullerror-Keep : (e : Exception) → Keep P (handlepullerror limit e)
  unfolding handlepullerror
  handlepullerror-Keep (abort message) =
      if-Keep _ (then-Keep remove_dest-Keep (pure-Keep true))
        (if-Keep _ retried-Keep (pure-Keep false))
  handlepullerror-Keep (response_error message) =
      if-Keep _ (then-Keep remove_dest-Keep retried-Keep) (pure-Keep false)
  handlepullerror-Keep ssl_error = retried-Keep
  handlepullerror-Keep (http_error code) = if-Keep _ retried-Keep (pure-Keep false)
  handlepullerror-Keep (url_error is_socket) = if-Keep _ retried-Keep (pure-Keep false)
  handlepullerror-Keep socket_timeout = retried-Keep
  handlepullerror-Keep repo_lookup_error = pure-Keep false
  handlepullerror-Keep revlog_error = pure-Keep false
  handlepullerror-Keep other = pure-Keep false
  handlepullerror-Keep (repo_error message) = pure-Keep false

  again_if-Keep : {A : Type 0} (e : Exception) (b : Bool) → Keep P (again_if {A = A} e b)
  again_if-Keep e true = callself-Keep
  again_if-Keep e false = raise-Keep e

  pub retry-Keep : {A : Type 0} (e : Exception) → Keep P (retry_or_raise {A = A} limit e)
  unfolding retry_or_raise
  retry-Keep e = bind-Keep (handlepullerror-Keep e) (again_if-Keep e)

  handlerepoerror-Keep :
      {A : Type 0} (r : Answer Bool) (e : Exception) (message : Text)
      → Keep P (handlerepoerror {A = A} r e message)
  unfolding handlerepoerror text_eq
  handlerepoerror-Keep r e message =
      if-Keep _
        (bind-Keep (answered-Keep r)
          (λ b. then-Keep (when-Keep _ (timeit-Keep _ _ (refl, refl) delete-Keep)) callself-Keep))
        (raise-Keep e)

  pub on_failure-Keep :
      {A : Type 0} (r : Answer Bool) {m : M (Unit {0})} (e : Exception)
      → Keep P m
      → Keep P (on_failure {A = A} limit r m e)
  unfolding on_failure
  on_failure-Keep r (repo_error message) h = handlerepoerror-Keep r (repo_error message) message
  on_failure-Keep r revlog_error h = then-Keep h callself-Keep
  on_failure-Keep r (abort message) h = retry-Keep (abort message)
  on_failure-Keep r ssl_error h = retry-Keep ssl_error
  on_failure-Keep r socket_timeout h = retry-Keep socket_timeout
  on_failure-Keep r (http_error code) h = retry-Keep (http_error code)
  on_failure-Keep r (url_error is_socket) h = retry-Keep (url_error is_socket)
  on_failure-Keep r (response_error message) h = raise-Keep (response_error message)
  on_failure-Keep r repo_lookup_error h = raise-Keep repo_lookup_error
  on_failure-Keep r other h = raise-Keep other
