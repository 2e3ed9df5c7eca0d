-- ===== src/Aggregator/Copy/Single.antt =====
-- One copy: `copy_one` against what it is to send and commit.
use version_control_tools_fx.Base.{
  ◌≡◌, refl, ◌∙◌, true, ◌||◌, List, [], ◌∷◌, ◌++◌, map, some, Bool-cases, ◌⊎◌, inl, inr, ℕ,
  if◌then◌else◌, ap,
}
use version_control_tools_fx.Base.Result.{
  Error, ok, err, require, key_error, Result-cases, >>=-eq-ok, require-eq-ok,
}
use version_control_tools_fx.Message.Produce.{Sent, Attempts, send_message, send_retry}
use version_control_tools_fx.Message.Display.{payload_log_display}
use version_control_tools_fx.Aggregator.Copy.{
  Received, Delivery, Effect, send, commit, copy_one, send_copy, commit_copy, annotate,
}

-- The copy of a message: it goes to partition 0, with the time at which it is sent, and keeps the
-- partition and the time of the original.
abbrev pub copy_of : Received → Delivery → Sent
copy_of m d = record {
  partition = 0;
  payload = record m.payload {
    original_created = m.payload.created;
    original_partition = some m.partition;
    created = some d.now;
  };
}

-- A copy is sent once, and once more where Kafka does not take it the first time.
abbrev pub tries : Received → Delivery → List Effect
tries m d =
    if d.first then send (copy_of m d) ∷ [] else send (copy_of m d) ∷ send (copy_of m d) ∷ []

-- A copy that goes through: the message says when it was created, Kafka takes one of the two
-- attempts, and it takes the commit.
abbrev pub IsTaken : Received → Delivery → Type 0
IsTaken m d =
    ((created : ℕ) × (m.payload.created ≡ some created))
    × ((d.first || d.second) ≡ true)
    × (d.committed ≡ true)

send_copy-ok :
    (m : Received) (d : Delivery) {a : Attempts}
    → send_copy m d ≡ ok a
    → (created : ℕ) × (m.payload.created ≡ some created)
      × (a ≡ send_message d.now d.first d.second (annotate m created) 0)
unfolding send_copy
send_copy-ok m d {a} h =
    let (shown, e, h') = >>=-eq-ok (payload_log_display m.payload) _ h in
    let (created, e', h'') = >>=-eq-ok (require key_error m.payload.created) _ h' in
    (created, require-eq-ok key_error m.payload.created e', cc)

attempts_sent :
    (m : Received) (d : Delivery) (created : ℕ)
    → m.payload.created ≡ some created
    → map send (send_message d.now d.first d.second (annotate m created) 0).sent ≡ tries m d
unfolding send_message annotate send_retry
attempts_sent m d created h = elim (Bool-cases d.first) [
  | inl taken ↦ rw (taken, h, send_message) refl
  | inr refused ↦ elim (Bool-cases d.second) [
    | inl taken ↦ rw (refused, taken, h, send_message) refl
    | inr refused' ↦ rw (refused, refused', h, send_message) refl
  ]
]

attempts-result :
    (m : Received) (d : Delivery) (created : ℕ)
    → (send_message d.now d.first d.second (annotate m created) 0).result ≡ ok tt
    → (d.first || d.second) ≡ true
unfolding send_message send_retry
attempts-result m d created h = elim (Bool-cases d.first) [
  | inl taken ↦ rw taken refl
  | inr refused ↦ elim (Bool-cases d.second) [
    | inl taken ↦ rw (refused, taken) refl
    | inr refused' ↦ cc (rw (refused, refused', send_message) at h)
  ]
]

commit_copy-ok :
    (m : Received) (d : Delivery) (a : Attempts)
    → (commit_copy m d a).1 ≡ ok tt
    → (a.result ≡ ok tt)
      × (d.committed ≡ true)
      × ((commit_copy m d a).0 ≡ map send a.sent ++ commit m.partition ∷ [])
unfolding commit_copy
commit_copy-ok m d a h = elim (Result-cases a.result) [
  | inl (u, e) ↦ elim (Bool-cases d.committed) [
    | inl yes_committed ↦ (e, yes_committed, rw (e, yes_committed))
    | inr not_committed ↦ cc (rw (e, not_committed, commit_copy) at h)
  ]
  | inr (x, e) ↦ cc (rw (e, commit_copy) at h)
]

commit_copy-err :
    (m : Received) (d : Delivery) (a : Attempts) (e : Error)
    → (commit_copy m d a).1 ≡ err e
    → (commit_copy m d a).0 ≡ map send a.sent
unfolding commit_copy
commit_copy-err m d a e h = elim (Result-cases a.result) [
  | inl (u, ok_sent) ↦ elim (Bool-cases d.committed) [
    | inl yes_committed ↦ cc (rw (ok_sent, yes_committed, commit_copy) at h)
    | inr not_committed ↦ rw (ok_sent, not_committed, commit_copy) refl
  ]
  | inr (x, failed) ↦ rw (failed, commit_copy) refl
]

-- A copy that returns was taken: it is sent as `tries` says, and the offset of its partition is
-- committed behind that.
pub copy_one-ok :
    (m : Received) (d : Delivery)
    → (copy_one m d).1 ≡ ok tt
    → IsTaken m d × ((copy_one m d).0 ≡ tries m d ++ commit m.partition ∷ [])
unfolding copy_one
copy_one-ok m d h = elim (Result-cases (send_copy m d)) [
  | inl (a, e) ↦
      let (r, c, s) = commit_copy-ok m d a (rw (e, copy_one) at h) in
      let (created, has, is) = send_copy-ok m d e in
      (
        ((created, has), attempts-result m d created (rw is at r), c),
        rw (e, copy_one)
            (s
              ∙ ap (λ x. map send x.sent ++ commit m.partition ∷ []) is
              ∙ ap (λ es. es ++ commit m.partition ∷ []) (attempts_sent m d created has)),
      )
  | inr (x, e) ↦ cc (rw (e, copy_one) at h)
]

-- A copy that raises has sent all its attempts or nothing, and committed nothing.
pub copy_one-err :
    (m : Received) (d : Delivery) (e : Error)
    → (copy_one m d).1 ≡ err e
    → ((copy_one m d).0 ≡ []) ⊎ ((copy_one m d).0 ≡ tries m d)
unfolding copy_one
copy_one-err m d e h = elim (Result-cases (send_copy m d)) [
  | inl (a, sent) ↦
      let (created, has, is) = send_copy-ok m d sent in
      inr (
        rw (sent, copy_one)
          (commit_copy-err m d a e (rw (sent, copy_one) at h)
            ∙ ap (λ x. map send x.sent) is
            ∙ attempts_sent m d created has))
  | inr (x, failed) ↦ inl (rw (failed, copy_one) refl)
]
