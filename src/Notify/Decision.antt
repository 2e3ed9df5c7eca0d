-- ===== src/Notify/Decision.antt =====
-- Which messages reach the notifier, and which are committed.
use version_control_tools_fx.Base.{
  ℕ, ◌≡◌, ap, true, false, Option, none, some, Text, String, ◌⊎◌, inl, inr, arith, Bool-cases,
}
use version_control_tools_fx.Base.Result.{Result, ok, Result-cases}
use version_control_tools_fx.Message.{Payload}
use version_control_tools_fx.Config.Rewrite.{parse_wire_repo_path, get_public_url_from_wire_path}
use text.Mathlib.Text.{◌==◌ as str_eq}
use version_control_tools_fx.Notify.{
  Repos, Paths, Event, Action, skip, notify, is_ignored, no_url, decide, decide_path, act,
  consume_one,
}

module _ {D : Type 0} (r : Repos D) (c : Paths) where
  act-committed :
      (cb : Event D → ℕ → Result (Unit {0})) (a : Action D) (e : Event D) (t : ℕ)
      → (act r cb a).event ≡ some (e, t)
      → (act r cb a).committed ≡ true
      → cb e t ≡ ok tt
  act-committed cb skip e t h k = absurd (cc h)
  act-committed cb (notify e' t') e t h k = elim (Result-cases (cb e' t')) [
    | inl (u, fine) ↦
        let pair : ◌≡◌ {A = Option (Event D × ℕ)} (some (e', t')) (some (e, t)) =
          rw (fine, act) at h in
        let same : ◌≡◌ {A = Event D × ℕ} (e', t') (e, t) = cc in
        let same_event : e' ≡ e = ap (λ x. x.0) same in
        let same_time : t' ≡ t = ap (λ x. x.1) same in rw (← same_event, ← same_time) fine
    | inr (x, fails) ↦ cc (rw (fails, act) at k)
  ]

  -- A message is committed only where the callback has taken its event.
  pub consume_one-committed :
      (cb : Event D → ℕ → Result (Unit {0})) (p : Payload) (e : Event D) (t : ℕ)
      → (consume_one r c cb p).event ≡ some (e, t)
      → (consume_one r c cb p).committed ≡ true
      → cb e t ≡ ok tt
  unfolding consume_one
  consume_one-committed cb p e t h k = elim (Result-cases (decide r c p)) [
    | inl (a, d) ↦ act-committed cb a e t (rw (d, consume_one) at h) (rw (d, consume_one) at k)
    | inr (x, d) ↦ cc (rw (d, consume_one) at h)
  ]

  -- Nobody is to be told of the path: it has no public URL, it is ignored, or it is not there.
  abbrev pub Untold : Text → Type 0
  Untold path =
      (no_url (get_public_url_from_wire_path c.public_url_rewrites path) ≡ true)
      ⊎ ((is_ignored c.ignore_paths path ≡ true)
          ⊎ (r.exists (parse_wire_repo_path c.path_rewrites path) ≡ false))

  decide_path-Untold :
      (name : String) (path : Text) (p : Payload)
      → Untold path
      → decide_path r c name path p ≡ ok skip
  unfolding decide_path
  decide_path-Untold name path p u = ground arith

  -- A message for such a path is committed without a call of the callback, whatever it says.
  pub consume_one-Untold :
      (cb : Event D → ℕ → Result (Unit {0})) (p : Payload) (name : String) (path : Text)
      → p.name ≡ some name
      → p.path ≡ some path
      → Untold path
      → consume_one r c cb p ≡ record { event = none; committed = true; result = ok tt }
  unfolding consume_one decide
  consume_one-Untold cb p name path is_name is_path u =
      elim (Bool-cases (str_eq name "heartbeat-1")) [
        | inl beat ↦ simp (is_name, consume_one, beat)
        | inr other ↦ simp (is_name, consume_one, other, is_path, decide_path-Untold name path p u)
      ]
