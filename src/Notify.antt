-- ===== src/Notify.antt =====
-- pylib/vcsreplicator/vcsreplicator/pushnotifications.py: `consume_one`, which turns a message of
-- the aggregate topic into a call of the notifier. Mercurial's answers are the record `Repos`. The
-- children: the payload of a push (Info), of obsolescence (Obsolete), and what is written of it (Log)
-- and read back (Read), and the way of a message from the master to here (Copied).
pub mod Decision
pub mod Copied
pub mod Info
pub mod Obsolete
pub mod Log
pub mod Read
mod Tests
use text.Mathlib.Text.{◌==◌ as str_eq}
use version_control_tools_fx.Base.{
  ℕ, Bool, true, false, not, ◌||◌, List, [], ◌∷◌, Option, none, some, Text, String, codes, text_eq,
  starts_with, any, if◌then◌else◌,
}
use version_control_tools_fx.Base.Result.{Result, ok, err, key_error, require, ◌>>=◌, ◌>>◌}
use version_control_tools_fx.Message.{Payload}
use version_control_tools_fx.Config.Rewrite.{
  Rules, parse_wire_repo_path, get_public_url_from_wire_path,
}

-- What the repositories answer: whether a path is there, the pushes of heads, and the message for
-- obsolescence markers, if any.
pub record Repos (D : Type 0) : Type 0 where
  pub exists : Text → Bool
  pub get_pushlog_info : Text → Text → List Text → Result D
  pub get_obsolete_pushkey_message : Text → Text → Text → Result (Option D)

-- The rewrites, and the items of the section `ignore_paths`, where there is one.
pub record Paths : Type 0 where
  pub path_rewrites : Rules
  pub public_url_rewrites : Rules
  pub ignore_paths : Option (List (Text × Text))

-- What the callback receives, less the message itself.
pub data Event (D : Type 0) : Type 0 where
  changegroup : Text → List Text → Text → D → Event D
  newrepo : Text → Event D
  obsolete : D → Event D

-- How a message is dealt with: it is committed at once, or the callback is called before.
pub data Action (D : Type 0) : Type 0 where
  skip : Action D
  notify : Event D → ℕ → Action D

unfoldable pub is_ignored : Option (List (Text × Text)) → Text → Bool
unfolding starts_with
is_ignored none path = false
is_ignored (some items) path = any (λ (i : Text × Text). starts_with path i.0) items

-- `not public_url`
abbrev pub no_url : Option Text → Bool
no_url none = true
no_url (some []) = true
no_url (some (c ∷ cs)) = false

abbrev pub url_of : Option Text → Text
url_of none = []
url_of (some u) = u

module _ {D : Type 0} (r : Repos D) where
  -- `_get_changegroup_payload`
  unfoldable pub get_changegroup_payload : Text → Text → List Text → Text → Result (Event D)
  get_changegroup_payload local_path public_url heads source = do
    pushes ← r.get_pushlog_info local_path public_url heads
    ok (changegroup public_url heads source pushes)

  -- `_get_pushkey_payload`
  unfoldable pub get_pushkey_payload : Text → Text → Text → Text → Result (Option D)
  get_pushkey_payload local_path public_url namespace new =
      if text_eq namespace (codes "obsolete")
      then r.get_obsolete_pushkey_message local_path public_url new
      else ok none

  abbrev pub from_changegroup : Text → Text → Payload → Result (Option (Event D))
  from_changegroup local_path public_url p = do
    heads ← require key_error p.heads
    source ← require key_error p.source
    e ← get_changegroup_payload local_path public_url heads source
    ok (some e)

  abbrev pub wrap : Option D → Option (Event D)
  wrap none = none
  wrap (some d) = some (obsolete d)

  abbrev pub from_pushkey : Text → Text → Payload → Result (Option (Event D))
  from_pushkey local_path public_url p = do
    namespace ← require key_error p.namespace
    require key_error p.key
    require key_error p.old
    new ← require key_error p.new
    require key_error p.ret
    d ← get_pushkey_payload local_path public_url namespace new
    ok (wrap d)

  -- The branches by name: the event, or none where the callback is not called.
  unfoldable pub event_of : String → Text → Text → Payload → Result (Option (Event D))
  event_of name local_path public_url p =
      if str_eq name "hg-changegroup-1" || str_eq name "hg-changegroup-2"
      then from_changegroup local_path public_url p
      else if str_eq name "hg-repo-init-1" || str_eq name "hg-repo-init-2"
      then ok (some (newrepo public_url))
      else if str_eq name "hg-pushkey-1"
      then from_pushkey local_path public_url p
      else ok none

  abbrev pub fire : Option (Event D) → Payload → Result (Action D)
  fire none p = ok skip
  fire (some e) p = do created ← require key_error p.original_created; ok (notify e created)

  abbrev pub decide_event : String → Text → Text → Payload → Result (Action D)
  decide_event name local_path public_url p = do e ← event_of name local_path public_url p; fire e p

  -- For a message with a path.
  unfoldable pub decide_path : Paths → String → Text → Payload → Result (Action D)
  unfolding event_of is_ignored
  decide_path c name path p =
      let url = get_public_url_from_wire_path c.public_url_rewrites path in
      let local_path = parse_wire_repo_path c.path_rewrites path in
      if no_url url
      then ok skip
      else if is_ignored c.ignore_paths path
      then ok skip
      else if not (r.exists local_path)
      then ok skip
      else decide_event name local_path (url_of url) p

  abbrev pub decide_named : Paths → String → Payload → Result (Action D)
  decide_named c name p =
      if str_eq name "heartbeat-1"
      then ok skip
      else (require key_error p.path >>= λ path. decide_path c name path p)

  -- What `consume_one` does with a message, up to the commit.
  unfoldable pub decide : Paths → Payload → Result (Action D)
  unfolding decide_path
  decide c p = require key_error p.name >>= λ name. decide_named c name p

  -- What has happened behind `consume_one`: the callback's event, and whether the message is
  -- committed.
  pub record Outcome : Type 0 where
    pub event : Option (Event D × ℕ)
    pub committed : Bool
    pub result : Result (Unit {0})

  abbrev pub act : (Event D → ℕ → Result (Unit {0})) → Action D → Outcome
  act cb skip = record { event = none; committed = true; result = ok tt }
  act cb (notify e created) = elim (cb e created) [
    | ok _ ↦ record { event = some (e, created); committed = true; result = ok tt }
    | err x ↦ record { event = some (e, created); committed = false; result = err x }
  ]

  -- `consume_one` for a message, with the callback and a commit that is taken
  unfoldable pub consume_one : Paths → (Event D → ℕ → Result (Unit {0})) → Payload → Outcome
  unfolding decide
  consume_one c cb p = elim (decide c p) [
    | ok a ↦ act cb a
    | err e ↦ record { event = none; committed = false; result = err e }
  ]
