-- ===== src/Checkout/Runs.antt =====
-- What a call of `_docheckout` keeps of the counters, and a run of calls.
use version_control_tools_fx.Base.{
  refl, Bool, List, [], ◌∷◌, Option, none, some, Text, codes, text_eq,
}
use version_control_tools_fx.Checkout.Steps.{
  Exception, abort, ssl_error, socket_timeout, repo_lookup_error, revlog_error, other, http_error,
  url_error, repo_error, response_error, Answer, gives, raises, Dest, State, Step, next, again,
  raised, add_behavior,
}
use version_control_tools_fx.Checkout.Sanity.{is_given}
use version_control_tools_fx.Checkout.Attempt.{
  Options, Answers, on_root_failure, find_root, clone_dest, ensure_dest, local_answer, find_local,
  pull_revision, pull_wanted, or_pull, find_revision, purge_dest, note_wdir, set_profile, update_to,
  update_wdir, docheckout, store_path, set_checked_out,
}
use version_control_tools_fx.Checkout.Keep.{
  after, Keep, bind-Keep, then-Keep, pure-Keep, raise-Keep, disk-Keep, when-Keep, answered-Keep,
  try-Keep, if-Keep,
}
use version_control_tools_fx.Checkout.{finished, failed, run, state_of}
use version_control_tools_fx.Checkout.Phases.{
  Stable, effect-Keep, timeit-Keep, behavior-Keep, check_dest-Keep, check_store-Keep, delete-Keep,
  retry-Keep, on_failure-Keep,
}

module _ (o : Options) (P : State → Type 0) (stable : Stable o.networkattemptlimit P) where
  on_root-Keep : (e : Exception) → Keep P (on_root_failure o.networkattemptlimit e)
  on_root-Keep repo_lookup_error = raise-Keep _
  on_root-Keep (abort message) = retry-Keep o.networkattemptlimit P stable (abort message)
  on_root-Keep ssl_error = retry-Keep o.networkattemptlimit P stable ssl_error
  on_root-Keep socket_timeout = retry-Keep o.networkattemptlimit P stable socket_timeout
  on_root-Keep (http_error code) = retry-Keep o.networkattemptlimit P stable (http_error code)
  on_root-Keep (url_error is_socket) =
      retry-Keep o.networkattemptlimit P stable (url_error is_socket)
  on_root-Keep revlog_error = raise-Keep revlog_error
  on_root-Keep other = raise-Keep other
  on_root-Keep (repo_error message) = raise-Keep (repo_error message)
  on_root-Keep (response_error message) = raise-Keep (response_error message)

  find_root-Keep : (a : Answers) → Keep P (find_root o a)
  unfolding find_root
  find_root-Keep a =
      bind-Keep (try-Keep (answered-Keep a.root) on_root-Keep)
        (λ root. then-Keep (when-Keep _ (raise-Keep _)) (pure-Keep root))

  clone_dest-Keep : (a : Answers) (path : Text) → Keep P (clone_dest o a path)
  unfolding clone_dest text_eq
  clone_dest-Keep a path = bind-Keep disk-Keep (λ d.
      then-Keep (when-Keep _ (behavior-Keep o.networkattemptlimit P stable _ (refl, refl))) (
        bind-Keep
          (try-Keep
            (timeit-Keep o.networkattemptlimit P stable _ _ (refl, refl)
              (effect-Keep o.networkattemptlimit P stable a.clone))
            (λ e. on_failure-Keep o.networkattemptlimit P stable a.recover e (
              timeit-Keep o.networkattemptlimit P stable _ _ (refl, refl)
                (delete-Keep o.networkattemptlimit P stable))))
          (λ res.
            then-Keep (when-Keep _ (raise-Keep _))
              (bind-Keep disk-Keep (λ d'. when-Keep _ (raise-Keep _))))))

  local-Keep : (revision : Text) (r : Answer Text) → Keep P (local_answer revision r)
  local-Keep revision (gives hex) = if-Keep _ (pure-Keep (some hex)) (raise-Keep _)
  local-Keep revision (raises repo_lookup_error) = pure-Keep none
  local-Keep revision (raises (abort message)) = raise-Keep _
  local-Keep revision (raises ssl_error) = raise-Keep _
  local-Keep revision (raises socket_timeout) = raise-Keep _
  local-Keep revision (raises (http_error code)) = raise-Keep _
  local-Keep revision (raises (url_error is_socket)) = raise-Keep _
  local-Keep revision (raises revlog_error) = raise-Keep _
  local-Keep revision (raises other) = raise-Keep _
  local-Keep revision (raises (repo_error message)) = raise-Keep _
  local-Keep revision (raises (response_error message)) = raise-Keep _

  pull-Keep : (a : Answers) (rev : Text) → Keep P (pull_revision a rev)
  unfolding text_eq
  pull-Keep a rev =
      bind-Keep
        (timeit-Keep o.networkattemptlimit P stable _ _ (refl, refl)
          (effect-Keep o.networkattemptlimit P stable a.pull))
        (λ pulled. then-Keep (when-Keep _ (raise-Keep _)) (pure-Keep rev))

  or_pull-Keep : (a : Answers) (found : Option Text) → Keep P (or_pull o a found)
  unfolding pull_wanted
  or_pull-Keep a (some rev) = pure-Keep rev
  or_pull-Keep a none =
      try-Keep
        (bind-Keep (answered-Keep a.remote) (λ rev. if-Keep _ (pure-Keep rev) (pull-Keep a rev)))
        (λ e.
          on_failure-Keep o.networkattemptlimit P stable a.recover e
            (delete-Keep o.networkattemptlimit P stable))

  find_revision-Keep : (a : Answers) → Keep P (find_revision o a)
  unfolding find_revision find_local
  find_revision-Keep a =
      bind-Keep (if-Keep (is_given o.revision) (local-Keep o.revision a.local) (pure-Keep none))
        (or_pull-Keep a)

  note_wdir-Keep : Keep P note_wdir
  unfolding note_wdir text_eq
  note_wdir-Keep = bind-Keep disk-Keep (λ d. on_dest d.dest)
    where
      on_rev :
          (r : Option Text)
          → Keep {A = Unit {0}} P (elim r [
            | none ↦ add_behavior (codes "empty-wdir")
            | some rev ↦ add_behavior (codes "populated-wdir")
          ])
      on_rev none = behavior-Keep o.networkattemptlimit P stable _ (refl, refl)
      on_rev (some rev) = behavior-Keep o.networkattemptlimit P stable _ (refl, refl)

      on_dest :
          (x : Option Dest)
          → Keep {A = Unit {0}} P (elim x [
            | none ↦ add_behavior (codes "empty-wdir")
            | some y ↦ elim y.checked_out [
              | none ↦ add_behavior (codes "empty-wdir")
              | some rev ↦ add_behavior (codes "populated-wdir")
            ]
          ])
      on_dest none = behavior-Keep o.networkattemptlimit P stable _ (refl, refl)
      on_dest (some y) = on_rev y.checked_out

  update_to-Keep : (a : Answers) (rev : Text) → Keep P (update_to a rev)
  unfolding set_checked_out
  update_to-Keep a rev = bind-Keep (answered-Keep a.updates) (λ failed.
      then-Keep (when-Keep _ (raise-Keep _)) (record { kept = λ s p. stable.files s _ p }))

  update_wdir-Keep :
      (a : Answers) (created : Bool) (rev : Text) → Keep P (update_wdir o a created rev)
  unfolding update_wdir purge_dest set_profile text_eq
  update_wdir-Keep a created rev =
      then-Keep
        (when-Keep _ (
          timeit-Keep o.networkattemptlimit P stable _ _ (refl, refl)
            (bind-Keep (answered-Keep a.purges) (λ failed. when-Keep _ (raise-Keep _)))))
        (then-Keep note_wdir-Keep (
          then-Keep
            (when-Keep _ (
              bind-Keep (answered-Keep a.has_profile) (λ there.
                then-Keep (when-Keep _ (raise-Keep _)) (
                  when-Keep _ (
                    timeit-Keep o.networkattemptlimit P stable _ _ (refl, refl)
                      (effect-Keep o.networkattemptlimit P stable a.refreshes))))))
            (if-Keep (is_given o.sparse_profile)
              (timeit-Keep o.networkattemptlimit P stable _ _ (refl, refl) (update_to-Keep a rev))
              (timeit-Keep o.networkattemptlimit P stable _ _ (refl, refl)
                (update_to-Keep a rev)))))

  docheckout-Keep : (a : Answers) → Keep P (docheckout o a)
  unfolding docheckout ensure_dest
  docheckout-Keep a = then-Keep (check_dest-Keep o.networkattemptlimit P stable o.sparse_profile) (
      bind-Keep (find_root-Keep a) (λ root.
        then-Keep (check_store-Keep o.networkattemptlimit P stable (store_path o root)) (
          bind-Keep
            (bind-Keep disk-Keep
              (λ d. then-Keep (when-Keep _ (clone_dest-Keep a (store_path o root))) (pure-Keep _)))
            (λ created. then-Keep (answered-Keep a.opens) (
              bind-Keep (find_revision-Keep a) (λ rev.
                then-Keep (when-Keep _ (update_wdir-Keep a created rev)) (pure-Keep rev)))))))

  -- Whatever is answered to a run of calls.
  pub run-kept : (answers : List Answers) (s : State) → P s → P (state_of (run o answers s))
  unfolding run
  run-kept [] s p = p
  run-kept (a ∷ rest) s p =
      behind (docheckout o a s) ((docheckout-Keep a).kept s p) (λ s' q. run-kept rest s' q)
    where
      behind :
          (r : Step Text)
          → P (after r)
          → ((s' : State) → P s' → P (state_of (run o rest s')))
          → P (
              state_of (elim r [
                | next rev s' ↦ finished rev s'
                | raised e s' ↦ failed e s'
                | again s' ↦ run o rest s'
              ]))
      behind (next rev s') q more = q
      behind (raised e s') q more = q
      behind (again s') q more = more s' q
