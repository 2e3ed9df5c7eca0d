-- ===== src/Master/Transaction/Gathered.antt =====
-- What the hooks gather until a transaction closes.
use version_control_tools_fx.Base.{
  ◌≡◌, refl, sym, ap, ◌∙◌, Bool, true, false, ◌||◌, List, [], ◌∷◌, ◌++◌, map, append-nil,
  append_assoc, Text, codes, text_eq, Bool-cases, inl, inr, arith, if◌then◌else◌,
}
use version_control_tools_fx.Message.{Payload}
use version_control_tools_fx.Consumer.Handle.Protocol.{Event, payload_of, pushed_key}
use version_control_tools_fx.Master.Hooks.{
  ReplicationInfo, Pushkey, Ret, to_int, pushkeyhook, pretxnchangegrouphook, pushkey_message,
}
use version_control_tools_fx.Master.Transaction.{Update, pushkey_update, changegroup_update, gather}

-- The pushkey updates in order, less those of the namespace that is ignored.
abbrev pub keys_of : Text → List Update → List Event
keys_of path [] = []
keys_of path (pushkey_update namespace key old new ret ∷ us) =
    if text_eq namespace (codes "obsolescence")
    then keys_of path us
    else pushed_key path namespace key old new (to_int ret) ∷ keys_of path us
keys_of path (changegroup_update ∷ us) = keys_of path us

abbrev pub has_changegroup : List Update → Bool
has_changegroup [] = false
has_changegroup (pushkey_update namespace key old new ret ∷ us) = has_changegroup us
has_changegroup (changegroup_update ∷ us) = true

abbrev pub marker_event : Text → Text × Text → Event
marker_event path (key, value) = pushed_key path (codes "obsolete") key [] value 0

pub map_append {ℓ κ} :
    {A : Type ℓ} {B : Type κ} (f : A → B) (xs ys : List A) → map f (xs ++ ys) ≡ map f xs ++ map f ys
map_append f [] ys = refl
map_append f (x ∷ xs) ys = ap (λ zs. f x ∷ zs) (map_append f xs ys)

module _ (namespace key old new : Text) (ret : Ret) (info : ReplicationInfo) where
  abbrev entry : Pushkey
  entry = record { namespace = namespace; key = key; old = old; new = new; ret = to_int ret }

  pushkeyhook-kept :
      ((pushkeyhook namespace key old new ret info).obsolescence ≡ info.obsolescence)
      × ((pushkeyhook namespace key old new ret info).pre_served_heads ≡ info.pre_served_heads)
  unfolding pushkeyhook
  pushkeyhook-kept = elim (Bool-cases (text_eq namespace (codes "obsolescence"))) [
    | inl same ↦ rw same (refl, refl)
    | inr other ↦ rw other (refl, refl)
  ]

  pushkeyhook-ignored :
      text_eq namespace (codes "obsolescence") ≡ true
      → (pushkeyhook namespace key old new ret info).pushkey ≡ info.pushkey
  unfolding pushkeyhook
  pushkeyhook-ignored same = rw same refl

  pushkeyhook-queued :
      text_eq namespace (codes "obsolescence") ≡ false
      → (pushkeyhook namespace key old new ret info).pushkey ≡ info.pushkey ++ entry ∷ []
  unfolding pushkeyhook
  pushkeyhook-queued other = rw other refl

-- What `gather` makes of the information.
pub gather-keys :
    (path : Text) (us : List Update) (info : ReplicationInfo)
    → map (pushkey_message path) (gather us info).pushkey
      ≡ map (pushkey_message path) info.pushkey ++ map payload_of (keys_of path us)
unfolding gather
gather-keys path [] info = sym (append-nil (map (pushkey_message path) info.pushkey))
gather-keys path (changegroup_update ∷ us) info = gather-keys path us (pretxnchangegrouphook info)
gather-keys path (pushkey_update namespace key old new ret ∷ us) info =
    let message = pushkey_message path in
    let later = map payload_of (keys_of path us) in
    let tail = gather-keys path us (pushkeyhook namespace key old new ret info) in
    let at : List Pushkey → List Payload = λ ks. map message ks ++ later in
    elim (Bool-cases (text_eq namespace (codes "obsolescence"))) [
      | inl same ↦ rw same (tail ∙ ap at (pushkeyhook-ignored namespace key old new ret info same))
      | inr other ↦
          let new_entry = entry namespace key old new ret info in
          rw other (
            tail
            ∙ ap at (pushkeyhook-queued namespace key old new ret info other)
            ∙ ap (λ (xs : List Payload). xs ++ later)
                (map_append message info.pushkey (new_entry ∷ []))
            ∙ append_assoc (map message info.pushkey) (message new_entry ∷ []) later)
    ]

pub gather-changegroup :
    (us : List Update) (info : ReplicationInfo)
    → (gather us info).changegroup ≡ (info.changegroup || has_changegroup us)
unfolding gather pushkeyhook pretxnchangegrouphook
gather-changegroup [] info = ground arith
gather-changegroup (changegroup_update ∷ us) info =
    ground (arith, gather-changegroup us (pretxnchangegrouphook info))
gather-changegroup (pushkey_update namespace key old new ret ∷ us) info =
    ground (arith, gather-changegroup us (pushkeyhook namespace key old new ret info))

pub gather-kept :
    (us : List Update) (info : ReplicationInfo)
    → ((gather us info).obsolescence ≡ info.obsolescence)
      × ((gather us info).pre_served_heads ≡ info.pre_served_heads)
unfolding gather pushkeyhook pretxnchangegrouphook
gather-kept [] info = (refl, refl)
gather-kept (changegroup_update ∷ us) info = gather-kept us (pretxnchangegrouphook info)
gather-kept (pushkey_update namespace key old new ret ∷ us) info =
    let kept = gather-kept us (pushkeyhook namespace key old new ret info) in
    let here = pushkeyhook-kept namespace key old new ret info in (kept.0 ∙ here.0, kept.1 ∙ here.1)
