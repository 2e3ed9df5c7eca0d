-- ===== src/Pushlog/Wire.antt =====
-- `pushlogwireproto`, and `retry_pull_pushlog` and `exchangepullpushlog` of the pulling client.
-- `pycompat.bytestr(e)` of an exception and `bin` are arguments.
pub mod Lines
pub mod Pull
pub mod Mirror
use version_control_tools_fx.Base.{
  ℕ, zero, suc, Bool, true, false, not, ◌&&◌, ◌||◌, List, [], ◌∷◌, ◌++◌, map, Option, none, some,
  Text, codes, join, text_eq, any, ◌==◌, if◌then◌else◌,
}
use version_control_tools_fx.Base.Result.{
  Result, Error, ok, err, value_error, abort, index_error, stop_iteration, ◌>>=◌,
}
use version_control_tools_fx.Base.Decimal.{decimal, int}
use version_control_tools_fx.Base.Words.{splitlines, split_at_most, words}
use version_control_tools_fx.Pushlog.Db.{Db, lastpushid}
use version_control_tools_fx.Pushlog.Record.{is_known, Push, recordpushes}
use version_control_tools_fx.Pushlog.Lookup.{Repo}
use version_control_tools_fx.Pushlog.Select.{Args, all_pushes}
use version_control_tools_fx.Pushlog.Query.{pushes}

-- `b"%d %s %d %s" % (pushid, who, when, b" ".join(nodes))`
unfoldable pub push_line : Push → Text
unfolding decimal join
push_line p =
    decimal p.pushid ++ 32 ∷ (p.user ++ 32 ∷ (decimal p.when ++ 32 ∷ join (32 ∷ []) p.nodes))

-- `start_id=n`
abbrev pub from_id : ℕ → Args
from_id n = record all_pushes { start_id = some n }

abbrev pub listing : Result (List Push) → Result (List Text)
listing (err e) = err e
listing (ok ps) = ok (codes "1" ∷ map push_line ps)

abbrev pub response : (Error → Text) → Result (List Text) → Text
response message (err e) = join (10 ∷ []) (codes "0" ∷ message e ∷ [])
response message (ok ls) = join (10 ∷ []) ls

-- `pushlogwireproto`
unfoldable pub pushlogwireproto : (Error → Text) → Repo → Text → Db → Text
unfolding int pushes push_line join
pushlogwireproto message r firstpush db =
    response message (do n ← int firstpush; listing (pushes r (from_id n) db))

-- One attempt: the lines behind the status, the error that it raises, or the lines that are left
-- behind the warning.
pub data Attempt : Type 0 where
  fetched : List Text → Attempt
  raised : Error → Attempt
  warned : List Text → Attempt

abbrev pub by_status : ℕ → List Text → Attempt
by_status c ls =
    if c == b'1'
    then fetched ls
    else if not (c == b'0')
    then raised abort
    else elim ls [ [] ↦ raised stop_iteration | message ∷ rest ↦ warned rest ]

-- The body of the loop, for the lines of the response.
unfoldable pub attempt : List Text → Attempt
attempt [] = raised stop_iteration
attempt ([] ∷ ls) = raised index_error
attempt ((c ∷ cs) ∷ ls) = by_status c ls

-- `next(lines)` behind the loop
abbrev pub give_up : List Text → Error
give_up [] = stop_iteration
give_up (l ∷ ls) = abort

-- The loop with as many attempts to go, the number of the next one and the lines that the last one
-- left.
unfoldable pub attempts : (ℕ → Text) → ℕ → ℕ → List Text → Result (List Text)
unfolding attempt splitlines
attempts call zero n left = err (give_up left)
attempts call (suc k) n left = elim (attempt (splitlines (call n))) [
  | fetched ls ↦ ok ls
  | raised e ↦ err e
  | warned ls ↦ attempts call k (suc n) ls
]

-- `retry_pull_pushlog`; `call` answers each of the three attempts
unfoldable pub retry_pull_pushlog : (ℕ → Text) → Result (List Text)
unfolding attempts
retry_pull_pushlog call = attempts call 3 1 []

-- What the client meets: the steps done, whether the remote has the capability, its answers to
-- each attempt and first push, `bin`, and `urepo[n]` as for `recordpushes`.
pub record Client : Type 0 where
  pub stepsdone : List Text
  pub capable : Bool
  pub call : ℕ → Text → Text
  pub bin : Text → Result Text
  pub resolve : Text → Option (ℕ × Text)

unfoldable pub bins : (Text → Result Text) → List Text → Result (List Text)
bins bin [] = ok []
bins bin (t ∷ ts) = do n ← bin t; ns ← bins bin ts; ok (n ∷ ns)

-- `[urepo[n] for n in nodes]` raises nothing
unfoldable pub all_known : (Text → Option (ℕ × Text)) → List Text → Bool
all_known resolve [] = true
all_known resolve (n ∷ ns) = is_known resolve n && all_known resolve ns

-- `pushid, who, when, nodes = line.split(b" ", 3)`
abbrev pub four : List Text → Result (Text × Text × Text × Text)
four (a ∷ b ∷ c ∷ d ∷ []) = ok (a, b, c, d)
four _ = err value_error

-- `int(pushid)` and `int(when)`, where the changesets are known
abbrev pub numbered : Text → Text → Text → List Text → Result Push
numbered pushid who when nodes = do
  i ← int pushid
  w ← int when
  ok (record { pushid = i; user = who; when = w; nodes = nodes })

-- A line: its push, or none where a changeset is not known.
unfoldable pub read_line : Client → Text → Result (Option Push)
unfolding split_at_most words bins all_known int
read_line c line = do
  (pushid, who, when, nodes) ← four (split_at_most 32 3 line)
  ns ← bins c.bin (words nodes)
  (if all_known c.resolve ns then (do p ← numbered pushid who when ns; ok (some p)) else ok none)

-- The loop over the lines.
unfoldable pub read_lines : Client → List Text → Result (List Push)
unfolding read_line
read_lines c [] = ok []
read_lines c (l ∷ ls) = do
  o ← read_line c l
  elim o [ none ↦ ok [] | some p ↦ do ps ← read_lines c ls; ok (p ∷ ps) ]

-- `exchangepullpushlog` behind `orig`: the steps done and the pushlog
unfoldable pub exchangepullpushlog : Client → Db → Result (List Text × Db)
unfolding retry_pull_pushlog read_lines recordpushes
exchangepullpushlog c db =
    if any (text_eq (codes "pushlog")) c.stepsdone || not c.capable
    then ok (c.stepsdone, db)
    else do
      lines ← retry_pull_pushlog (λ n. c.call n (decimal (suc (lastpushid db))))
      ps ← read_lines c lines
      db' ← recordpushes c.resolve ps db
      ok (c.stepsdone ++ codes "pushlog" ∷ [], db')
