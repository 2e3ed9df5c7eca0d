-- ===== src/Pushlog/Feed/Json.antt =====
-- The JSON view of a page.
use mathlib.Core.List.{reverse, reverse-cons}
use mathlib.Core.Path.{subst}
use text.Mathlib.Text.{◌==◌ as str_eq}
use version_control_tools_fx.Base.{
  ℕ, ◌-◌, ◌*◌, ◌≡◌, refl, sym, ap, ◌∙◌, Bool, true, false, List, [], ◌∷◌, ◌++◌, map, append-nil,
  Option, none, some, Text, text_eq, find, strip, take, drop, any, all, All, ◌==◌, arith,
  if◌then◌else◌,
}
use version_control_tools_fx.Base.Result.{Result, ok, ◌>>=◌}
use version_control_tools_fx.Base.Decimal.{
  decimal, int, int-decimal, decimal-digits, strip-digits, is_digit,
}
use version_control_tools_fx.Pushlog.Db.{PushRow, ChangesetRow, Db, same_rev}
use version_control_tools_fx.Pushlog.Db.Rows.{IsPushlog, Unique, All-imp}
use version_control_tools_fx.Pushlog.Record.{Push}
use version_control_tools_fx.Pushlog.Lookup.{Repo, nodes_of, last_push_id_replicated}
use version_control_tools_fx.Pushlog.Query.Listing.{push_of}
use version_control_tools_fx.Pushlog.Query.Reversed.{nodes_of-reverse}
use version_control_tools_fx.Pushlog.Feed.{Entry, entries_at, Found, do_query}
use version_control_tools_fx.Pushlog.Feed.Pages.{
  page_query, replicated, entries_of, page_found, do_query-page, page_rows-Unique,
}
use version_control_tools_fx.Pushlog.Feed.Worker.{
  Change, Context, shown, ChangeData, node_only, PushData, PushMap, pushes_worker,
}
use version_control_tools_fx.Pushlog.Feed.Collected.{
  IsAnswered, data_of, shown_nodes, hidden_nodes, pushes_worker-eq-data,
}
use version_control_tools_fx.Pushlog.Feed.Dates.{Calendar}
use version_control_tools_fx.Pushlog.Feed.Setup.{
  Params, int_or_zero, page_of, pushlog_setup, pushes_view, query_start, query_end, formatversion,
  Ready,
}
use version_control_tools_fx.Pushlog.Feed.Owned.{own-row, own-rows}

-- A request that names a page and nothing else.
abbrev pub page_params : ℕ → Params
page_params n = record {
  get = λ name. if str_eq name "node" then some (decimal n) else none;
  getall = λ name. [];
}

-- The rows of the page.
abbrev pub page_rows : Repo → Db → ℕ → List PushRow
page_rows r db n = take 10 (drop ((n - 1) * 10) (replicated r db))

abbrev pub item_data : PushRow → List Text → PushData
item_data p ns = record {
  user = p.user;
  date = p.date;
  changesets = map (λ t. node_only t) ns;
  obsoletechangesets = none;
}

abbrev pub item : PushRow → List Text → Option PushData
item p [] = none
item p (n ∷ ns) = some (item_data p (n ∷ ns))

-- What the JSON says of a push: its changesets by rising revision. One without changesets has no item.
abbrev pub item_of : List ChangesetRow → PushRow → Option PushData
item_of cs p = item p (nodes_of false p.id cs)

int_nil : {n : ℕ} → int [] ≡ ok n → ⊥
unfolding int strip
int_nil h = cc h

digits-first :
    (t : Text) {n : ℕ} → all is_digit t ≡ true → strip t ≡ t → int t ≡ ok n → int_or_zero t ≡ ok n
unfolding int_or_zero
digits-first [] h s i = absurd (int_nil i)
digits-first (c ∷ cs) h s i =
    let digit : c == b'-' ≡ false = ground (arith, h) in rw (int_or_zero, s, digit) i

page_of-decimal : (n : ℕ) → page_of (some (decimal n)) ≡ n
page_of-decimal n =
    rw
      (
        page_of,
        digits-first (decimal n) (decimal-digits n) (strip-digits (decimal n) (decimal-digits n))
            (int-decimal n),
      )
      refl

map-snoc :
    (xs : List Text) (x : Text)
    → map (λ (t : Text). node_only t) (xs ++ x ∷ []) ≡ map (λ t. node_only t) xs ++ node_only x ∷ []
map-snoc [] x = refl
map-snoc (y ∷ ys) x = ap (λ zs. node_only y ∷ zs) (map-snoc ys x)

item-snoc :
    (p : PushRow) (xs : List Text) (x : Text)
    → item p (xs ++ x ∷ []) ≡ some (item_data p (xs ++ x ∷ []))
item-snoc p [] x = refl
item-snoc p (y ∷ ys) x = refl

module _ (change : Text → Change) (haveobs : Bool) where
  shown_nodes-entries :
      (p : Push) (ns : List Text)
      → shown_nodes (λ n. shown (change n)) haveobs false (entries_at p ns)
        ≡ map (λ t. node_only t) (reverse ns)
  shown_nodes-entries p [] = refl
  shown_nodes-entries p (n ∷ ns) =
      ap (λ xs. xs ++ node_only n ∷ []) (shown_nodes-entries p ns)
      ∙ sym (map-snoc (reverse ns) n)
      ∙ ap (map (λ t. node_only t)) (sym (reverse-cons n ns))

  hidden_nodes-entries :
      (p : Push) (ns : List Text)
      → hidden_nodes (λ n. shown (change n)) haveobs false (entries_at p ns) ≡ []
  hidden_nodes-entries p [] = refl
  hidden_nodes-entries p (n ∷ ns) = rw (hidden_nodes-entries p ns) refl

  data_of-reverse :
      (cs : List ChangesetRow) (p : PushRow) (ns : List Text)
      → data_of (λ n. shown (change n)) haveobs false (entries_at (push_of true cs p) ns)
        ≡ item p (reverse ns)
  data_of-reverse cs p [] = refl
  data_of-reverse cs p (n ∷ ns) =
      rw
        (
          shown_nodes-entries (push_of true cs p) (n ∷ ns),
          hidden_nodes-entries (push_of true cs p) (n ∷ ns),
        )
        (subst
          (λ xs.
            Path (Option PushData)
              (some (record {
                user = p.user;
                date = p.date;
                changesets = map (λ t. node_only t) xs ++ [];
                obsoletechangesets = none;
              }))
              (item p xs))
          (sym (reverse-cons n ns))
          (ap
              (λ (cs : List ChangeData). some (record {
                user = p.user;
                date = p.date;
                changesets = cs;
                obsoletechangesets = none;
              }))
              (append-nil (map (λ t. node_only t) (reverse ns ++ n ∷ [])))
            ∙ sym (item-snoc p (reverse ns) n)))

  data_of-item :
      (cs : List ChangesetRow) (p : PushRow)
      → Unique same_rev cs
      → data_of
          (λ n. shown (change n))
          haveobs
          false
          (entries_at (push_of true cs p) (nodes_of true p.id cs))
        ≡ item_of cs p
  data_of-item cs p u =
      data_of-reverse cs p (nodes_of true p.id cs) ∙ ap (item p) (nodes_of-reverse p.id cs u)

pushlog_setup-page :
    (cal : Calendar) (r : Repo) (db : Db) (n : ℕ)
    → IsPushlog db
    → pushlog_setup cal r db (page_params n)
      ≡ ok (record { query = page_query n; version = 1; found = page_found r db n })
unfolding pushlog_setup query_start query_end formatversion text_eq
pushlog_setup-page cal r db n v =
    ap
      (λ page. do_query r (page_query page) db >>= λ found.
        ok (record { query = page_query page; version = 1; found = found }))
      (page_of-decimal n)
    ∙ ap
        (λ (o : Result Found).
          o >>= λ found. ok (record { query = page_query n; version = 1; found = found }))
        (do_query-page r db n v)

-- On tables in order, where the repository shows each changeset, the JSON of a page has version 1 and the
-- last replicated push id, an item for each of the ten pushes of the page that has changesets, with
-- its user, its date and its changesets by rising revision, and no other item.
pub pushes_view-page :
    (cal : Calendar) (r : Repo) (db : Db) (change : Text → Change) (haveobs : Bool) (n : ℕ)
    → IsPushlog db
    → (m : PushMap) × (pushes_view cal r db (λ t. shown (change t)) haveobs (page_params n)
        ≡ ok (record { version = 1; pushes = m; lastpushid = last_push_id_replicated r db }))
      × All (λ (p : PushRow). find (decimal p.id) m ≡ item_of db.changesets p) (page_rows r db n)
      × ((k : ℕ)
          → any (λ (p : PushRow). p.id == k) (page_rows r db n) ≡ false
          → find (decimal k) m ≡ none)
unfolding pushes_view page_found
pushes_view-page cal r db change haveobs n v =
    let es = entries_of db (page_rows r db n) in
    let lookup : Text → Context = λ t. shown (change t) in
    let (m, ends, says) = pushes_worker-eq-data lookup haveobs false es (all_shown es) in
    (
      m,
      ap
            (λ (o : Result Ready). o >>= λ q.
              pushes_worker lookup haveobs false q.found.entries [] >>= λ ps.
              ok (record { version = q.version; pushes = ps; lastpushid = q.found.lastpushid }))
            (pushlog_setup-page cal r db n v)
          ∙ ap
              (λ (o : Result PushMap). o >>= λ ps.
                ok (record { version = 1; pushes = ps; lastpushid = last_push_id_replicated r db }))
              ends,
      All-imp _ _ (page_rows r db n)
          (λ p h.
            says p.id
            ∙ ap (data_of lookup haveobs false) h
            ∙ data_of-item change haveobs db.changesets p v.revs)
          (own-rows db (page_rows r db n) (page_rows-Unique r db n v)),
      λ k h. says k ∙ ap (data_of lookup haveobs false) (own-row db k (page_rows r db n) h),
    )
  where
    all_shown : (es : List Entry) → All (λ (e : Entry). IsAnswered (shown (change e.node))) es
    all_shown [] = tt
    all_shown (e ∷ es) = (refl, all_shown es)
