-- ===== src/Pushlog/Wire/Pull.antt =====
-- What a client records of a server's pushlog, attempts that fail included.
use version_control_tools_fx.Base.{
  ℕ, zero, suc, ◌≤◌, ◌≡◌, refl, ap, ◌∙◌, true, false, not, List, [], ◌∷◌, ◌++◌, map, none, Text,
  codes, join, text_eq, any, All, length, ◌+◌, leb, arith,
}
use version_control_tools_fx.Base.Result.{Error, ok, err, stop_iteration, ◌>>=◌}
use version_control_tools_fx.Base.Decimal.{decimal, int-decimal}
use version_control_tools_fx.Base.Words.{splitlines, IsLine, splitlines-join}
use version_control_tools_fx.Pushlog.Db.{PushRow, Db, lastpushid, max_id}
use version_control_tools_fx.Pushlog.Db.Rows.{IsPushlog}
use version_control_tools_fx.Pushlog.Record.{Push, recordpushes}
use version_control_tools_fx.Pushlog.Lookup.{Repo, filter_rows, order_by, id_before}
use version_control_tools_fx.Pushlog.Select.{
  Window, window, selects, inner, check_args, start_bound, end_bound, node_ids,
}
use version_control_tools_fx.Pushlog.Query.{pushes}
use version_control_tools_fx.Pushlog.Query.Listing.{push_of, pushes-eq-inner}
use version_control_tools_fx.Pushlog.Wire.{
  push_line, from_id, listing, response, warned, fetched, pushlogwireproto, Client, attempt,
  attempts, retry_pull_pushlog, exchangepullpushlog,
}
use version_control_tools_fx.Pushlog.Wire.Lines.{
  IsPlain, known_pushes, read_lines-push_lines, splitlines-response,
}

-- A response that tells an error.
abbrev pub refused : Text → Text
refused m = join (10 ∷ []) (codes "0" ∷ m ∷ [])

-- The calls from `n` on answer with these errors, of one line each.
abbrev pub AllRefused : (ℕ → Text) → ℕ → List Text → Type 0
AllRefused call n [] = Unit
AllRefused call n (m ∷ ms) = (call n ≡ refused m) × IsLine m × AllRefused call (suc n) ms

-- The pushes with an id from `n` on, by id.
abbrev pub served : Db → ℕ → List Push
served db n =
    map (push_of false db.changesets)
      (order_by (id_before false) (filter_rows (λ (p : PushRow). leb n p.id) db.pushlog))

abbrev pub open_window : ℕ → ℕ → Window
open_window n m = record { start = (n, false); end = (none, false); ids = []; max_push_id = m }

selects-from_id :
    (n m : ℕ) (p : PushRow) → p.id ≤ m → selects (from_id n) (open_window n m) p ≡ leb n p.id
unfolding selects
selects-from_id n m p h = ground (arith, h)

pub filter_rows-from_id :
    (n m : ℕ) (ps : List PushRow)
    → max_id ps ≤ m
    → filter_rows (selects (from_id n) (open_window n m)) ps
      ≡ filter_rows (λ (p : PushRow). leb n p.id) ps
unfolding filter_rows max_id
filter_rows-from_id n m [] h = refl
filter_rows-from_id n m (p ∷ ps) h =
    rw (selects-from_id n m p (omega (arith, h)), filter_rows-from_id n m ps (omega (arith, h)))
      refl

pushes-from_id :
    (r : Repo) (db : Db) (n : ℕ) → IsPushlog db → pushes r (from_id n) db ≡ ok (served db n)
unfolding window inner check_args start_bound end_bound node_ids
pushes-from_id r db n v =
    pushes-eq-inner r (from_id n) db (open_window n (lastpushid db)) refl refl refl v
    ∙ ap
        (λ (ps : List PushRow).
          ok (map (push_of false db.changesets) (order_by (id_before false) ps)))
        (filter_rows-from_id n (lastpushid db) db.pushlog (omega arith))

-- The server answers with the pushes from the number that is asked for.
pushlogwireproto-served :
    (message : Error → Text) (r : Repo) (n : ℕ) (db : Db)
    → IsPushlog db
    → pushlogwireproto message r (decimal n) db
      ≡ join (10 ∷ []) (codes "1" ∷ map push_line (served db n))
unfolding pushlogwireproto
pushlogwireproto-served message r n db v =
    rw (int-decimal n) (ap (λ o. response message (listing o)) (pushes-from_id r db n v))

attempt-refused : (m : Text) → IsLine m → attempt (splitlines (refused m)) ≡ warned []
unfolding attempt
attempt-refused m h = rw (splitlines-join (codes "0" ∷ m ∷ []) (refl, (h, tt))) refl

attempt-served :
    (ps : List Push)
    → All IsPlain ps
    → attempt (splitlines (join (10 ∷ []) (codes "1" ∷ map push_line ps)))
      ≡ fetched (map push_line ps)
unfolding attempt
attempt-served ps h = rw (splitlines-response ps h) refl

attempts-refused :
    (call : ℕ → Text) (k n : ℕ) (m : Text) (left : List Text)
    → call n ≡ refused m
    → IsLine m
    → attempts call (suc k) n left ≡ attempts call k (suc n) []
unfolding attempts
attempts-refused call k n m left h l = rw (attempts, h, attempt-refused m l) refl

-- With an attempt to spare, failures are passed over.
attempts-failures :
    (call : ℕ → Text) (messages : List Text) (k n : ℕ) (left : List Text) (ps : List Push)
    → AllRefused call n messages
    → call (n + length messages) ≡ join (10 ∷ []) (codes "1" ∷ map push_line ps)
    → All IsPlain ps
    → length messages ≤ k
    → attempts call (suc k) n left ≡ ok (map push_line ps)
unfolding attempts
attempts-failures call [] k n left ps f last h fits =
    let here : call n ≡ join (10 ∷ []) (codes "1" ∷ map push_line ps) =
      ap call (omega arith) ∙ last in
    rw (attempts, here, attempt-served ps h) refl
attempts-failures call (m ∷ ms) zero n left ps f last h fits = absurd (omega (arith, fits))
attempts-failures call (m ∷ ms) (suc k) n left ps f last h fits =
    attempts-refused call (suc k) n m left f.0 f.1
    ∙ attempts-failures call ms k (suc n) [] ps f.2 (ap call (omega arith) ∙ last) h
        (omega (arith, fits))

-- A client that lacks the step and whose remote has it, after at most two errors, records the
-- pushes that the server has from the client's next number on, up to the first with an unknown
-- changeset.
pub pull-replicates :
    (c : Client) (db server : Db) (message : Error → Text) (r : Repo) (failures : List Text)
    → any (text_eq (codes "pushlog")) c.stepsdone ≡ false
    → c.capable ≡ true
    → IsPushlog server
    → All IsPlain (served server (suc (lastpushid db)))
    → length failures ≤ 2
    → AllRefused (λ n. c.call n (decimal (suc (lastpushid db)))) 1 failures
    → c.call (1 + length failures) (decimal (suc (lastpushid db)))
      ≡ pushlogwireproto message r (decimal (suc (lastpushid db))) server
    → exchangepullpushlog c db ≡ (do
      ps ← known_pushes c (served server (suc (lastpushid db)))
      db' ← recordpushes c.resolve ps db
      ok (c.stepsdone ++ codes "pushlog" ∷ [], db'))
unfolding exchangepullpushlog retry_pull_pushlog
pull-replicates c db server message r failures step can v plain few failed last =
    let next = suc (lastpushid db) in
    let ps = served server next in
    rw
      (
        step,
        ap not can,
        attempts-failures (λ n. c.call n (decimal next)) failures 2 1 [] ps failed
            (last ∙ pushlogwireproto-served message r next server v) plain few,
        read_lines-push_lines c ps plain,
      )
      refl

-- Three errors of one line each: the lines have run out where the message is made.
retry-refused :
    (call : ℕ → Text) (a b d : Text)
    → AllRefused call 1 (a ∷ b ∷ d ∷ [])
    → retry_pull_pushlog call ≡ err stop_iteration
unfolding retry_pull_pushlog attempts
retry-refused call a b d h =
    attempts-refused call 2 1 a [] h.0 h.1
    ∙ attempts-refused call 1 2 b [] h.2.0 h.2.1
    ∙ attempts-refused call 0 3 d [] h.2.2.0 h.2.2.1
