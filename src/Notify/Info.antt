-- ===== src/Notify/Info.antt =====
-- pushnotifications.py: `_get_pushlog_info`, which reads the pushes from what `hg log` prints.
use version_control_tools_fx.Base.{
  ℕ, suc, zero, List, [], ◌∷◌, ◌++◌, map, Option, none, some, Text, codes, strip, split_on, lookup,
  sorted_items,
}
use version_control_tools_fx.Base.Result.{Result, ok, err, value_error, index_error, ◌>>=◌}
use version_control_tools_fx.Base.Decimal.{decimal, int}
use version_control_tools_fx.Base.Words.{splitlines, words}

pub record PushedAt : Type 0 where
  pub pushid : ℕ
  pub user : Text
  pub time : ℕ
  pub push_json_url : Text
  pub push_full_json_url : Text

-- `"%d" % (pushid - 1)`
abbrev pushid_before : ℕ → Text
pushid_before zero = codes "-1"
pushid_before (suc n) = decimal n

abbrev id_query : ℕ → Text
id_query pushid = codes "startID=" ++ pushid_before pushid ++ codes "&endID=" ++ decimal pushid

abbrev pub pushed_at : Text → ℕ → Text → ℕ → PushedAt
pushed_at public_url pushid user time = record {
  pushid = pushid;
  user = user;
  time = time;
  push_json_url = public_url ++ codes "/json-pushes?version=2&" ++ id_query pushid;
  push_full_json_url = public_url ++ codes "/json-pushes?version=2&full=1&" ++ id_query pushid;
}

-- `int(pushtime.split()[0])`
unfoldable pub first_number : List Text → Result ℕ
unfolding int
first_number [] = err index_error
first_number (w ∷ ws) = int w

-- The fields of a line; one without a push id is left out.
abbrev pub read_fields : Text → List Text → Result (Option PushedAt)
read_fields public_url (node ∷ [] ∷ pushuser ∷ pushtime ∷ []) = ok none
read_fields public_url (node ∷ (c ∷ cs) ∷ pushuser ∷ pushtime ∷ []) = do
  pushid ← int (c ∷ cs)
  time ← first_number (words pushtime)
  ok (some (pushed_at public_url pushid pushuser time))
read_fields public_url _ = err value_error

abbrev pub read_stripped : Text → Text → Result (Option PushedAt)
read_stripped public_url [] = ok none
read_stripped public_url (c ∷ cs) = read_fields public_url (split_on 0 (c ∷ cs))

-- `pushes.setdefault(pushid, …)`
abbrev pub set_default : Option PushedAt → List (ℕ × PushedAt) → List (ℕ × PushedAt)
set_default none pushes = pushes
set_default (some p) pushes = elim (lookup p.pushid pushes) [
  | none ↦ pushes ++ (p.pushid, p) ∷ []
  | some q ↦ pushes
]

unfoldable pub read_pushes : Text → List Text → List (ℕ × PushedAt) → Result (List (ℕ × PushedAt))
unfolding strip split_on int words lookup
read_pushes public_url [] pushes = ok pushes
read_pushes public_url (l ∷ ls) pushes = do
  push ← read_stripped public_url (strip l)
  read_pushes public_url ls (set_default push pushes)

-- `_get_pushlog_info`, on what the command prints; no number is negative
unfoldable pub get_pushlog_info : Text → Text → Result (List (ℕ × PushedAt))
unfolding read_pushes splitlines
get_pushlog_info public_url out = read_pushes public_url (splitlines out) []

-- `[v for k, v in sorted(pushes.items())]`
abbrev pub pushlog_pushes : List (ℕ × PushedAt) → List PushedAt
pushlog_pushes pushes = map (λ (e : ℕ × PushedAt). e.1) (sorted_items pushes)
