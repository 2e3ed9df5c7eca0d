-- ===== src/Notify/Tests.antt =====
-- The notifier on one repository.
use version_control_tools_fx.Base.{
  ℕ, ◌≡◌, refl, true, List, [], ◌∷◌, none, some, codes, starts_with, length, lookup, All, false,
}
use version_control_tools_fx.Base.Result.{Result, ok}
use version_control_tools_fx.Message.Produce.{Attempts, send_message}
use version_control_tools_fx.Config.Rewrite.{get_public_url_from_wire_path}
use version_control_tools_fx.Aggregator.Copy.{Delivery, send_copy}
use version_control_tools_fx.Consumer.Handle.Protocol.{Event as Recorded, pushed, payload_of}
use version_control_tools_fx.Notify.{Repos, Paths, Event, changegroup, is_ignored, consume_one}
use version_control_tools_fx.Notify.Info.{PushedAt, get_pushlog_info}
use version_control_tools_fx.Notify.Log.{Logged, printed}
use version_control_tools_fx.Notify.Read.{first_push, get_pushlog_info-first}
use version_control_tools_fx.Notify.Copied.{received, owed, notified, sent_copied-notified}

-- The pushes of heads are counted only.
abbrev repos : Repos ℕ
repos = record {
  exists = λ p. true;
  get_pushlog_info = λ local_path url heads. ok (length heads);
  get_obsolete_pushkey_message = λ local_path url value. ok none;
}

abbrev paths : Paths
paths = record {
  path_rewrites = [];
  public_url_rewrites = ([], codes "https") ∷ [];
  ignore_paths = some ((codes "{moz}/users", []) ∷ []);
}

abbrev accept : Event ℕ → ℕ → Result (Unit {0})
accept e t = ok tt

abbrev taken : Delivery
taken = record { now = 8; first = false; second = true; committed = true }

abbrev push : Recorded
push = pushed (codes "/a") (codes "push") [] (codes "n" ∷ [])

notified_example :
    All
      (λ q.
        (a : Attempts) × (send_copy (received q) taken ≡ ok a)
        × All
            (λ s.
              consume_one repos paths accept s.payload
              ≡ notified repos paths accept 5 (owed repos paths push))
            a.sent)
      (send_message 5 false true (payload_of push) 1).sent
notified_example = sent_copied-notified repos paths accept push 5 1 false true taken

-- What the notifier owes the push.
owed_push :
    owed repos paths push
    ≡ ok (some (changegroup (codes "https/a") (codes "n" ∷ []) (codes "push") 1))
unfolding get_public_url_from_wire_path starts_with is_ignored
owed_push = refl

-- One push with two changesets, and a changeset without a push.
abbrev logged : List Logged
logged =
    record {
      node = codes "aa";
      pushed = some (record { pushid = 7; user = codes "a b"; time = 60; offset = codes "-3600" });
    }
    ∷ record { node = codes "bb"; pushed = none }
    ∷ record {
      node = codes "cc";
      pushed = some (record { pushid = 7; user = codes "c"; time = 61; offset = codes "0" });
    }
    ∷ []

info_example :
    (m : List (ℕ × PushedAt)) × (get_pushlog_info (codes "https/a") (printed logged) ≡ ok m)
    × ((k : ℕ) → lookup k m ≡ first_push (codes "https/a") k logged)
info_example =
    get_pushlog_info-first (codes "https/a") logged
      ((refl, refl, (refl, refl, refl)), ((refl, refl, tt), ((refl, refl, (refl, refl, refl)), tt)))
