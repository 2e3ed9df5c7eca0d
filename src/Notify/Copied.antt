-- ===== src/Notify/Copied.antt =====
-- From the master to the notifier: an event is sent by `Producer.send_message`, copied by the
-- aggregator, and read by `consume_one`.
use version_control_tools_fx.Base.{
  ℕ, ◌≡◌, ◌∙◌, ap, refl, Bool, true, false, not, ◌&&◌, [], ◌∷◌, Option, none, some, Text, String,
  codes, text_eq, All, if◌then◌else◌,
}
use version_control_tools_fx.Base.Result.{Result, ok, err, ◌>>=◌, bind_assoc}
use version_control_tools_fx.Message.{Payload}
use version_control_tools_fx.Message.Produce.{
  Sent, Attempts, send_message, send_retry, record_hg_repo_sync,
}
use version_control_tools_fx.Message.Display.{payload_log_display, payload_logs}
use version_control_tools_fx.Config.Rewrite.{parse_wire_repo_path, get_public_url_from_wire_path}
use version_control_tools_fx.Consumer.Handle.Protocol.{
  Event as Recorded, heartbeat, new_repo, new_hgrc, pushed, pushed_key, synced, has_heads, deleted,
  payload_of,
}
use version_control_tools_fx.Aggregator.Copy.{Received, Delivery, annotate, send_copy}
use version_control_tools_fx.Notify.{
  Repos, Paths, Event, changegroup, newrepo, Action, skip, is_ignored, no_url, url_of, decide,
  decide_path, event_of, decide_event, act, wrap, fire, consume_one, get_changegroup_payload,
  get_pushkey_payload, Outcome,
}

-- What the aggregator receives of a message that was sent.
abbrev pub received : Sent → Received
received q = record { partition = q.partition; payload = q.payload }

-- The payload of an event as the notifier reads it, sent at `now`, with the partition and the time of
-- the original.
abbrev pub copied_payload : Recorded → ℕ → ℕ → ℕ → Payload
copied_payload x now partition created = record (payload_of x) {
  created = some now;
  original_created = some created;
  original_partition = some partition;
}

-- The message that the master sends for an event.
abbrev sent_for : Recorded → ℕ → ℕ → Sent
sent_for x t partition = record {
  partition = partition;
  payload = record (payload_of x) { created = some t };
}

-- All that is sent is one message.
send_message-All :
    (P : Sent → Type 0) (now : ℕ) (first second : Bool) (o : Payload) (partition : ℕ)
    → P (record { partition = partition; payload = record o { created = some now } })
    → All P (send_message now first second o partition).sent
unfolding send_message send_retry
send_message-All P now true second o partition h = (h, tt)
send_message-All P now false true o partition h = (h, (h, tt))
send_message-All P now false false o partition h = (h, (h, tt))

send_copy-sent_for :
    (x : Recorded) (t partition : ℕ) (d : Delivery)
    → send_copy (received (sent_for x t partition)) d
      ≡ ok (send_message d.now d.first d.second (annotate (received (sent_for x t partition)) t) 0)
unfolding send_copy payload_log_display payload_logs record_hg_repo_sync
send_copy-sent_for (synced path hgrc heads requirements bootstrap) t partition d = refl
send_copy-sent_for x t partition d = refl

if_bind :
    {A B : Type 0} (b : Bool) (m : Result A) (n : A) (k : A → Result B)
    → ((if b then m else ok n) >>= k) ≡ (if b then m >>= k else k n)
if_bind true m n k = refl
if_bind false m n k = refl

module _ {D : Type 0} (r : Repos D) (c : Paths) where
  -- The public URL of a path that is told of: it has one, is not ignored and is there.
  abbrev pub told : Text → Option Text
  told path =
      let url = get_public_url_from_wire_path c.public_url_rewrites path in
      if not (no_url url)
        && not (is_ignored c.ignore_paths path)
        && r.exists (parse_wire_repo_path c.path_rewrites path)
      then url
      else none

  -- What is made of a path that is told of.
  abbrev pub where_told :
      Text → (Text → Text → Result (Option (Event D))) → Result (Option (Event D))
  where_told path k = elim (told path) [
    | none ↦ ok none
    | some url ↦ k (parse_wire_repo_path c.path_rewrites path) url
  ]

  -- The event that the callback is owed for what the master recorded, if any.
  abbrev pub owed : Recorded → Result (Option (Event D))
  owed (pushed path source nodes heads) = where_told path λ local_path url.
      r.get_pushlog_info local_path url heads >>= λ pushes.
      ok (some (changegroup url heads source pushes))
  owed (new_repo path generaldelta) = where_told path λ local_path url. ok (some (newrepo url))
  owed (pushed_key path namespace key old new ret) = where_told path λ local_path url.
      if text_eq namespace (codes "obsolete")
      then (r.get_obsolete_pushkey_message local_path url new >>= λ m. ok (wrap r m))
      else ok none
  owed _ = ok none

  -- The callback is called with the owed event and the time of the record, and the message is
  -- committed where nothing is owed or the callback has taken the event.
  abbrev pub notified :
      (Event D → ℕ → Result (Unit {0})) → ℕ → Result (Option (Event D)) → Outcome r
  notified cb t (err e) = record { event = none; committed = false; result = err e }
  notified cb t (ok none) = record { event = none; committed = true; result = ok tt }
  notified cb t (ok (some e)) = elim (cb e t) [
    | ok _ ↦ record { event = some (e, t); committed = true; result = ok tt }
    | err x ↦ record { event = some (e, t); committed = false; result = err x }
  ]

  guards :
      (url : Option Text) (ignored exists : Bool) (k : Text → Result (Action D))
      → (if no_url url
          then ok skip
          else if ignored
          then ok skip
          else if not exists
          then ok skip
          else k (url_of url))
        ≡ elim (if not (no_url url) && not ignored && exists then url else none) [
          | none ↦ ok skip
          | some u ↦ k u
        ]
  guards none ignored exists k = refl
  guards (some []) ignored exists k = refl
  guards (some (u ∷ us)) true exists k = refl
  guards (some (u ∷ us)) false true k = refl
  guards (some (u ∷ us)) false false k = refl

  decide_path-told :
      (name : String) (path : Text) (p : Payload)
      → decide_path r c name path p ≡ elim (told path) [
        | none ↦ ok skip
        | some url ↦ decide_event r name (parse_wire_repo_path c.path_rewrites path) url p
      ]
  unfolding decide_path
  decide_path-told name path p =
      guards (get_public_url_from_wire_path c.public_url_rewrites path)
        (is_ignored c.ignore_paths path) (r.exists (parse_wire_repo_path c.path_rewrites path))
        (λ url. decide_event r name (parse_wire_repo_path c.path_rewrites path) url p)

  module _ (cb : Event D → ℕ → Result (Unit {0})) (t : ℕ) where
    -- `consume_one` behind its decision
    abbrev done : Result (Action D) → Outcome r
    done (ok a) = act r cb a
    done (err e) = record { event = none; committed = false; result = err e }

    consume_one-done : (p : Payload) → consume_one r c cb p ≡ done (decide r c p)
    unfolding consume_one
    consume_one-done p = by_answer (decide r c p)
      where
        by_answer :
            (a : Result (Action D))
            → elim a [
              | ok a ↦ act r cb a
              | err e ↦ record { event = none; committed = false; result = err e }
            ]
              ≡ done a
        by_answer (ok a) = refl
        by_answer (err e) = refl

    -- The event is fired with the time of the record.
    fire-notified :
        (p : Payload) (e : Result (Option (Event D)))
        → p.original_created ≡ some t
        → done (e >>= λ o. fire r o p) ≡ notified cb t e
    fire-notified p (err x) h = refl
    fire-notified p (ok none) h = refl
    fire-notified p (ok (some e)) h = rw h refl

    where_told-notified :
        (url : Option Text) (g : Text → Result (Action D)) (f : Text → Result (Option (Event D)))
        → ((u : Text) → done (g u) ≡ notified cb t (f u))
        → done (elim url [ none ↦ ok skip | some u ↦ g u ])
          ≡ notified cb t (elim url [ none ↦ ok none | some u ↦ f u ])
    where_told-notified none g f h = refl
    where_told-notified (some u) g f h = h u

    nowhere_told :
        (url : Option Text) (g : Text → Result (Action D))
        → ((u : Text) → g u ≡ ok skip)
        → done (elim url [ none ↦ ok skip | some u ↦ g u ]) ≡ notified cb t (ok none)
    nowhere_told none g h = refl
    nowhere_told (some u) g h = ap done (h u)

    decided :
        (name : String) (path : Text) (p : Payload) (f : Text → Text → Result (Option (Event D)))
        → p.original_created ≡ some t
        → ((local_path url : Text) → event_of r name local_path url p ≡ f local_path url)
        → done (decide_path r c name path p) ≡ notified cb t (where_told path f)
    decided name path p f h same =
        ap done (decide_path-told name path p)
        ∙ where_told-notified (told path) _ _ λ u.
          fire-notified p _ h
          ∙ ap (λ e. notified cb t e) (same (parse_wire_repo_path c.path_rewrites path) u)

    undecided :
        (name : String) (path : Text) (p : Payload)
        → ((local_path url : Text) → event_of r name local_path url p ≡ ok none)
        → done (decide_path r c name path p) ≡ notified cb t (ok none)
    undecided name path p none_of =
        ap done (decide_path-told name path p)
        ∙ nowhere_told (told path) _ λ u.
          ap (λ e. e >>= λ o. fire r o p) (none_of (parse_wire_repo_path c.path_rewrites path) u)

    decide-owed :
        (x : Recorded) (now partition : ℕ)
        → done (decide r c (copied_payload x now partition t)) ≡ notified cb t (owed x)
    unfolding decide event_of get_changegroup_payload get_pushkey_payload record_hg_repo_sync
    decide-owed heartbeat now partition = refl
    decide-owed (pushed path source nodes heads) now partition =
        let p = copied_payload (pushed path source nodes heads) now partition t in
        decided "hg-changegroup-2" path p _ refl
          λ local_path url. bind_assoc (r.get_pushlog_info local_path url heads) _ _
    decide-owed (new_repo path generaldelta) now partition =
        let p = copied_payload (new_repo path generaldelta) now partition t in
        decided "hg-repo-init-2" path p _ refl λ local_path url. refl
    decide-owed (pushed_key path namespace key old new ret) now partition =
        let p = copied_payload (pushed_key path namespace key old new ret) now partition t in
        decided "hg-pushkey-1" path p _ refl
          λ local_path url. if_bind (text_eq namespace (codes "obsolete")) _ _ _
    decide-owed (new_hgrc path content) now partition =
        let p = copied_payload (new_hgrc path content) now partition t in
        undecided "hg-hgrc-update-1" path p λ local_path url. refl
    decide-owed (synced path hgrc heads requirements bootstrap) now partition =
        let p = copied_payload (synced path hgrc heads requirements bootstrap) now partition t in
        undecided "hg-repo-sync-2" path p λ local_path url. refl
    decide-owed (has_heads path heads last_push_id) now partition =
        let p = copied_payload (has_heads path heads last_push_id) now partition t in
        undecided "hg-heads-1" path p λ local_path url. refl
    decide-owed (deleted path) now partition =
        let p = copied_payload (deleted path) now partition t in
        undecided "hg-repo-delete-1" path p λ local_path url. refl

  copied_again :
      (cb : Event D → ℕ → Result (Unit {0})) (x : Recorded) (now partition t : ℕ)
      → consume_one r c cb
          (record (annotate (received (sent_for x t partition)) t) { created = some now })
        ≡ notified cb t (owed x)
  unfolding annotate
  copied_again cb x now partition t =
      consume_one-done cb t (copied_payload x now partition t) ∙ decide-owed cb t x now partition

  -- Whatever event the master records and whichever attempts Kafka takes, each message that is sent
  -- for it can be copied, and each copy of it makes the notifier call the callback with the event that
  -- is owed and the time of the master's record, and commit as `notified` says: not behind an error of
  -- the callback or of Mercurial, and at once where nothing is owed.
  pub sent_copied-notified :
      (cb : Event D → ℕ → Result (Unit {0})) (x : Recorded) (t partition : ℕ) (first second : Bool)
      (d : Delivery)
      → All
          (λ q.
            (a : Attempts) × (send_copy (received q) d ≡ ok a)
            × All (λ s. consume_one r c cb s.payload ≡ notified cb t (owed x)) a.sent)
          (send_message t first second (payload_of x) partition).sent
  sent_copied-notified cb x t partition first second d =
      send_message-All _ t first second (payload_of x) partition (
        send_message d.now d.first d.second (annotate (received (sent_for x t partition)) t) 0,
        send_copy-sent_for x t partition d,
        send_message-All _ d.now d.first d.second (annotate (received (sent_for x t partition)) t) 0
            (copied_again cb x d.now partition t),
      )
