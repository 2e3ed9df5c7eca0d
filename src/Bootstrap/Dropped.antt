-- ===== src/Bootstrap/Dropped.antt =====
-- What becomes of the messages of a repository that the list has not.
use version_control_tools_fx.Base.{
  ◌≡◌, refl, sym, ap, ◌∙◌, Bool, false, List, [], ◌∷◌, ◌++◌, Option, none, some, Text, text_eq,
  text_eq_iff, find, find-assign, any, any-append, arith, Bool-cases, inl, inr,
}
use version_control_tools_fx.Base.Result.{Error, ok, >>=-eq-ok}
use version_control_tools_fx.Message.{Payload}
use version_control_tools_fx.Config.Filter.{RepoFilterResult, Filters, filter}
use version_control_tools_fx.Hooks.Roots.{member, add}
use version_control_tools_fx.Pushlog.Lookup.{filter_rows}
use version_control_tools_fx.Bootstrap.Schedule.{
  Report, clone_failed, Audit, listed, append_at, admit, filter_all, Clone, Schedule, schedule_all,
}
use version_control_tools_fx.Bootstrap.Finish.{
  Threads, report_missing, report, batch, finish_clones, finish_extra, Outcome, finish, start,
  hgweb,
}
use version_control_tools_fx.Bootstrap.View.{is_own, View, view, at, follow, is_audited}
use version_control_tools_fx.Bootstrap.Own.{schedule_all-follow}
use version_control_tools_fx.Bootstrap.Kept.{follow-idle}

abbrev pub has_clone : Text → List Clone → Bool
has_clone repo cs = any (λ (c : Clone). text_eq c.path repo) cs

abbrev pub has_batch : Text → List (Text × List Payload) → Bool
has_batch repo bs = any (λ b. text_eq b.0 repo) bs

-- What completes is what was scheduled.
pub record Completes (t : Threads) (repo : Text) : Type 0 where
  pub of_clones : (cs : List Clone) → has_clone repo (t.clones_completed cs) ≡ has_clone repo cs
  pub of_extra :
      (bs : List (Text × List Payload)) → has_batch repo (t.extra_completed bs) ≡ has_batch repo bs

append_at-other :
    {A : Type 0} (repo k : Text) (x : A) (d : List (Text × List A))
    → text_eq k repo ≡ false
    → find repo (append_at k x d) ≡ find repo d
append_at-other repo k x d h = find-assign k repo (listed (find k d) ++ x ∷ []) d ∙ (rw h refl)

module _ (repo : Text) where
  admit-other :
      (result : RepoFilterResult) (r : Text) (repos : List Text) (audit : Audit)
      → text_eq r repo ≡ false
      → (member repo (admit result r (repos, audit)).0 ≡ member repo repos)
        × (find repo (admit result r (repos, audit)).1 ≡ find repo audit)
  unfolding add member
  admit-other result r repos audit o = elim (Bool-cases result.passes_filter) [
    | inl passes ↦ rw passes (ground (arith, o, text_eq_iff r repo, text_eq_iff repo r), refl)
    | inr stays ↦ rw stays (refl, append_at-other repo r _ audit o)
  ]

  filter_all-other :
      (f : Filters) (rs repos : List Text) (audit : Audit) {st : List Text × Audit}
      → filter_all f rs (repos, audit) ≡ ok st
      → member repo rs ≡ false
      → (member repo st.0 ≡ member repo repos) × (find repo st.1 ≡ find repo audit)
  unfolding filter_all member
  filter_all-other f [] repos audit {st} h o =
      let same : ◌≡◌ {A = List Text × Audit} (repos, audit) st = cc in
      (
        ap (λ (t : List Text × Audit). member repo t.0) (sym same),
        ap (λ (t : List Text × Audit). find repo t.1) (sym same),
      )
  filter_all-other f (r ∷ rs) repos audit h o =
      let (result, e, h') = >>=-eq-ok (filter f r) _ h in
      let (repos1, audit1) = admit result r (repos, audit) in
      let (m, a) =
        admit-other result r repos audit
          (ground (arith, o, text_eq_iff r repo, text_eq_iff repo r)) in
      let (m', a') = filter_all-other f rs repos1 audit1 h' (ground (arith, o)) in (m' ∙ m, a' ∙ a)

  report_missing-other :
      (rs : List Text) (audit : Audit)
      → member repo rs ≡ false
      → find repo (report_missing rs audit) ≡ find repo audit
  unfolding report_missing member
  report_missing-other [] audit h = refl
  report_missing-other (r ∷ rs) audit h =
      report_missing-other rs _ (ground (arith, h))
      ∙ append_at-other repo r _ audit (ground (arith, h, text_eq_iff r repo, text_eq_iff repo r))

  report-other :
      (kind : Error → Report) (k : Text) (e : Option Error) (audit : Audit)
      → text_eq k repo ≡ false
      → find repo (report kind k e audit) ≡ find repo audit
  report-other kind k none audit h = refl
  report-other kind k (some e) audit h = append_at-other repo k (kind e) audit h

  finish_clones-other :
      (t : Threads) (extra : List (Text × List Payload)) (cs : List Clone) (audit : Audit)
      → has_clone repo cs ≡ false
      → (find repo (finish_clones t extra cs audit).0 ≡ find repo audit)
        × (has_batch repo (finish_clones t extra cs audit).1 ≡ false)
  unfolding finish_clones
  finish_clones-other t extra [] audit h = (refl, refl)
  finish_clones-other t extra (c ∷ cs) audit h =
      let first : text_eq c.path repo ≡ false = ground (arith, h) in
      let (a, b) =
        finish_clones-other t extra cs (report clone_failed c.path (t.clone c) audit)
          (ground (arith, h)) in
      (
        a ∙ report-other clone_failed c.path (t.clone c) audit first,
        any-append (λ x. text_eq x.0 repo) (batch c.path (find c.path extra)) _
            ∙ (rw (batch-other c.path (find c.path extra) first) b),
      )
    where
      batch-other :
          (k : Text) (o : Option (List Payload))
          → text_eq k repo ≡ false
          → has_batch repo (batch k o) ≡ false
      batch-other k none h = refl
      batch-other k (some ps) h = rw h refl

  finish_extra-other :
      (t : Threads) (bs : List (Text × List Payload)) (audit : Audit)
      → has_batch repo bs ≡ false
      → find repo (finish_extra t bs audit) ≡ find repo audit
  unfolding finish_extra
  finish_extra-other t [] audit h = refl
  finish_extra-other t ((k, ps) ∷ bs) audit h =
      finish_extra-other t bs _ (ground (arith, h))
      ∙ report-other _ k (t.seqmap k ps) audit (ground (arith, h))

-- A view without clones is of a schedule without clones.
has_clone-view :
    (repo : Text) (cs : List Clone)
    → filter_rows (λ (c : Clone). text_eq c.path repo) cs ≡ []
    → has_clone repo cs ≡ false
unfolding filter_rows
has_clone-view repo [] h = refl
has_clone-view repo (c ∷ cs) h = ground (arith, h, has_clone-view repo cs)

-- What was not scheduled is not touched.
finish-other :
    (t : Threads) (s : Schedule) (audit : Audit) (repo : Text)
    → Completes t repo
    → find repo audit ≡ none
    → member repo s.to_clone ≡ false
    → has_clone repo s.clones ≡ false
    → (has_batch repo (finish t s audit).batches ≡ false)
      × (find repo (finish t s audit).audit ≡ none)
unfolding finish
finish-other t s audit repo c clean idle unscheduled =
    let missing = report_missing s.to_clone audit in
    let (a, b) =
      finish_clones-other repo t s.extra (t.clones_completed s.clones) missing
        (c.of_clones s.clones ∙ unscheduled) in
    let done = finish_clones t s.extra (t.clones_completed s.clones) missing in
    (
      b,
      finish_extra-other repo t (t.extra_completed done.1) done.0 (c.of_extra done.1 ∙ b)
          ∙ a
          ∙ report_missing-other repo s.to_clone audit idle
          ∙ clean,
    )

-- The messages of a repository that the list has not, other than heartbeats, are all kept for it, in
-- their order, and then passed over: it is not cloned, no batch of messages is its, and the audit
-- says nothing of it, whatever the threads do, where what completes was scheduled.
pub hgweb-unlisted :
    (f : Filters) (t : Threads) (repositories : List Text) (messages : List Payload) (repo : Text)
    (o : Outcome)
    → Completes t repo
    → hgweb f t repositories messages ≡ ok o
    → member repo repositories ≡ false
    → (st : List Text × Audit) × (s : Schedule) × (filter_all f repositories ([], []) ≡ ok st)
      × (schedule_all st.1 messages (start st.0) ≡ ok s)
      × (listed (find repo s.extra) ≡ filter_rows (is_own repo) messages)
      × (has_clone repo o.clones ≡ false)
      × (has_batch repo o.batches ≡ false)
      × (find repo o.audit ≡ none)
unfolding hgweb finish member follow filter_rows find
hgweb-unlisted f t repositories messages repo o c h u =
    let (st, e, h1) = >>=-eq-ok (filter_all f repositories ([], [])) _ h in
    let (waits, clean) = filter_all-other repo f repositories [] [] e u in
    let (s, e', h2) = >>=-eq-ok (schedule_all st.1 messages (start st.0)) _ h1 in
    let is : finish t s st.1 ≡ o = cc in
    let silent : is_audited repo st.1 ≡ false = rw (is_audited, clean) refl in
    let qs = filter_rows (is_own repo) messages in
    let seen : view repo s ≡ at false [] qs =
      schedule_all-follow repo st.1 messages (start st.0) e'
      ∙ ap (λ b. follow repo b qs (view repo (start st.0))) silent
      ∙ ap (λ w. follow repo false qs (at w [] [])) waits
      ∙ follow-idle repo qs [] [] in
    let unscheduled = has_clone-view repo s.clones (ap (λ (v : View). v.clones) seen) in
    let (batches, audit) =
      finish-other t s st.1 repo c clean (ap (λ (v : View). v.waiting) seen) unscheduled in
    (
      st,
      s,
      e,
      e',
      ap (λ (v : View). v.extra) seen,
      ap (λ (x : Outcome). has_clone repo x.clones) (sym is) ∙ unscheduled,
      ap (λ (x : Outcome). has_batch repo x.batches) (sym is) ∙ batches,
      ap (λ (x : Outcome). find repo x.audit) (sym is) ∙ audit,
    )
