-- ===== src/Pushlog/Feed/Pages.antt =====
-- The pages of a query by count.
use version_control_tools_fx.Base.{
  ℕ, suc, zero, ◌+◌, ◌-◌, ◌*◌, ◌≤◌, ◌≡◌, refl, sym, ap, ◌∙◌, Bool, true, false, List, [], ◌∷◌, ◌++◌,
  append_assoc, map, none, length, take, drop, leb, arith,
}
use version_control_tools_fx.Base.Result.{Result, ok, ◌>>=◌}
use mathlib.Core.Path.{subst}
use version_control_tools_fx.Pushlog.Db.{PushRow, Db, same_id}
use version_control_tools_fx.Pushlog.Db.Rows.{IsPushlog, Unique}
use version_control_tools_fx.Pushlog.Record.{Push}
use version_control_tools_fx.Pushlog.Lookup.{
  Repo, push_count, order_by, insert_by, nodes_of, filter_rows, id_before, last_push_id_replicated,
}
use version_control_tools_fx.Pushlog.Select.{
  Window, window, selects, inner, check_args, start_bound, end_bound, node_ids,
}
use version_control_tools_fx.Pushlog.Query.{pushes}
use version_control_tools_fx.Pushlog.Query.Ordered.{inner-Unique}
use version_control_tools_fx.Pushlog.Query.Listing.{push_of, pushes-eq-inner}
use version_control_tools_fx.Pushlog.Feed.{
  PushlogQuery, count, newest, Entry, Found, entries_at, page_entries, page_args, do_query,
  numpages, pushes_per_page,
}

-- The query for a page.
abbrev pub page_query : ℕ → PushlogQuery
page_query n = record {
  tipsonly = false;
  page = n;
  querystart = count pushes_per_page;
  queryend = newest;
  userquery = [];
  changesetquery = [];
  branch = none;
}

-- The entries of the first `n` pages, one page behind the other.
unfoldable pub first_pages : Repo → Db → ℕ → Result (List Entry)
unfolding do_query
first_pages r db zero = ok []
first_pages r db (suc n) = do
  before ← first_pages r db n
  page ← do_query r (page_query (suc n)) db
  ok (before ++ page.entries)

-- The rows of the replicated pushes, the last first.
unfoldable pub replicated : Repo → Db → List PushRow
unfolding order_by filter_rows
replicated r db =
    order_by (id_before true)
      (filter_rows (λ (p : PushRow). leb p.id (last_push_id_replicated r db)) db.pushlog)

take-none : {A : Type 0} (n : ℕ) → take {A = A} n [] ≡ []
take-none zero = refl
take-none (suc n) = refl

take-drop : {A : Type 0} (a b : ℕ) (xs : List A) → take a xs ++ take b (drop a xs) ≡ take (a + b) xs
take-drop zero b xs = ap (λ n. take n xs) (omega arith)
take-drop {A} (suc a) zero [] = sym (take-none (suc a + 0))
take-drop {A} (suc a) (suc b) [] = sym (take-none (suc a + suc b))
take-drop {A} (suc a) b (x ∷ xs) =
    let more : suc (a + b) ≡ suc a + b = omega arith in
    ap (λ (ys : List A). x ∷ ys) (take-drop a b xs) ∙ ap (λ n. take n (x ∷ xs)) more

take-all : {A : Type 0} (n : ℕ) (xs : List A) → length xs ≤ n → take n xs ≡ xs
take-all zero [] h = refl
take-all zero (x ∷ xs) h = absurd (omega (arith, h))
take-all (suc n) [] h = refl
take-all (suc n) (x ∷ xs) h = ap (λ ys. x ∷ ys) (take-all n xs (omega (arith, h)))

unfoldable pub entries_of : Db → List PushRow → List Entry
unfolding page_entries
entries_of db rows = page_entries false (map (push_of true db.changesets) rows)

entries-append :
    (db : Db) (xs ys : List PushRow)
    → entries_of db (xs ++ ys) ≡ entries_of db xs ++ entries_of db ys
unfolding entries_of page_entries
entries-append db [] ys = refl
entries-append db (x ∷ xs) ys =
    ap
      (λ (es : List Entry).
        entries_at (push_of true db.changesets x) (nodes_of true x.id db.changesets) ++ es)
      (entries-append db xs ys)
    ∙ sym (
        append_assoc (entries_at (push_of true db.changesets x) (nodes_of true x.id db.changesets))
          (entries_of db xs) (entries_of db ys))

length-insert_by :
    (before : PushRow → PushRow → Bool) (x : PushRow) (ys : List PushRow)
    → length (insert_by before x ys) ≡ suc (length ys)
unfolding insert_by
length-insert_by before x [] = refl
length-insert_by before x (y ∷ ys) = ground (arith, length-insert_by before x ys)

length-order_by :
    (before : PushRow → PushRow → Bool) (xs : List PushRow)
    → length (order_by before xs) ≡ length xs
unfolding order_by
length-order_by before [] = refl
length-order_by before (x ∷ xs) =
    length-insert_by before x (order_by before xs) ∙ ap (λ n. suc n) (length-order_by before xs)

length-filter_rows :
    (keep : PushRow → Bool) (xs : List PushRow) → length (filter_rows keep xs) ≤ length xs
unfolding filter_rows
length-filter_rows keep [] = omega arith
length-filter_rows keep (x ∷ xs) = ground (arith, length-filter_rows keep xs)

page_window : Repo → Db → Window
page_window r db = record {
  start = (0, false);
  end = (none, false);
  ids = [];
  max_push_id = last_push_id_replicated r db;
}

selects-page :
    (r : Repo) (db : Db) (n : ℕ) (p : PushRow)
    → selects (page_args (page_query n) 10) (page_window r db) p
      ≡ leb p.id (last_push_id_replicated r db)
unfolding selects page_window
selects-page r db n p = ground arith

filter_rows-ext :
    (p q : PushRow → Bool) (xs : List PushRow)
    → ((x : PushRow) → p x ≡ q x)
    → filter_rows p xs ≡ filter_rows q xs
unfolding filter_rows
filter_rows-ext p q [] h = refl
filter_rows-ext p q (x ∷ xs) h = rw (h x, filter_rows-ext p q xs h) refl

-- What the query for a page finds.
unfoldable pub page_found : Repo → Db → ℕ → Found
unfolding entries_of
page_found r db n = record {
  entries = entries_of db (take 10 (drop ((n - 1) * 10) (replicated r db)));
  totalentries = push_count db;
  lastpushid = last_push_id_replicated r db;
}

pushes-page :
    (r : Repo) (db : Db) (n : ℕ)
    → IsPushlog db
    → pushes r (page_args (page_query n) 10) db
      ≡ ok (map (push_of true db.changesets) (take 10 (drop ((n - 1) * 10) (replicated r db))))
unfolding window inner check_args start_bound end_bound node_ids replicated page_window
pushes-page r db n v =
    pushes-eq-inner r (page_args (page_query n) 10) db (page_window r db) refl refl refl v
    ∙ ap
        (λ (ps : List PushRow). ok (
          map (push_of true db.changesets)
            (take 10 (drop ((n - 1) * 10) (order_by (id_before true) ps)))))
        (filter_rows-ext _ _ db.pushlog (selects-page r db n))

-- The pushes of a page have different ids.
pub page_rows-Unique :
    (r : Repo) (db : Db) (n : ℕ)
    → IsPushlog db
    → Unique same_id (take 10 (drop ((n - 1) * 10) (replicated r db)))
unfolding inner replicated page_window
page_rows-Unique r db n v =
    subst
      (λ (ps : List PushRow).
        Unique same_id (take 10 (drop ((n - 1) * 10) (order_by (id_before true) ps))))
      (filter_rows-ext _ _ db.pushlog (selects-page r db n))
      (inner-Unique (page_args (page_query n) 10) (page_window r db) db v.ids)

pub do_query-page :
    (r : Repo) (db : Db) (n : ℕ)
    → IsPushlog db
    → do_query r (page_query n) db ≡ ok (page_found r db n)
unfolding do_query page_found entries_of
do_query-page r db n v =
    ap
      (λ (o : Result (List Push)). o >>= λ ps. ok (record {
        entries = page_entries false ps;
        totalentries = push_count db;
        lastpushid = last_push_id_replicated r db;
      }))
      (pushes-page r db n v)

first_pages-take :
    (r : Repo) (db : Db) (n : ℕ)
    → IsPushlog db
    → first_pages r db n ≡ ok (entries_of db (take (n * 10) (replicated r db)))
unfolding first_pages entries_of page_entries page_found
first_pages-take r db zero v = refl
first_pages-take r db (suc n) v =
    let rows = replicated r db in
    let here : (suc n - 1) * 10 ≡ n * 10 = omega arith in
    let behind : n * 10 + 10 ≡ suc n * 10 = omega arith in
    let page : Result (List Entry) → Result (List Entry) = λ o. o >>= λ before.
    do_query r (page_query (suc n)) db >>= λ found. ok (before ++ found.entries) in
    ap page (first_pages-take r db n v)
    ∙ ap
        (λ (o : Result Found).
          o >>= λ found. ok (entries_of db (take (n * 10) rows) ++ found.entries))
        (do_query-page r db (suc n) v)
    ∙ ap (λ m. ok (entries_of db (take (n * 10) rows) ++ entries_of db (take 10 (drop m rows))))
        here
    ∙ ap ok (
        sym (entries-append db (take (n * 10) rows) (take 10 (drop (n * 10) rows)))
        ∙ ap (entries_of db) (take-drop (n * 10) 10 rows ∙ ap (λ m. take m rows) behind))

length-replicated : (r : Repo) (db : Db) → length (replicated r db) ≤ push_count db
unfolding replicated
length-replicated r db =
    let keep : PushRow → Bool = λ p. leb p.id (last_push_id_replicated r db) in
    omega (
      arith,
      length-order_by (id_before true) (filter_rows keep db.pushlog),
      length-filter_rows keep db.pushlog,
    )

-- On tables in order the pages that the navigation counts, one behind the other, list each
-- changeset of the replicated pushes once, the last push first.
pub pages_cover :
    (r : Repo) (db : Db)
    → IsPushlog db
    → first_pages r db (numpages (push_count db))
      ≡ ok (page_entries false (map (push_of true db.changesets) (replicated r db)))
unfolding entries_of
pages_cover r db v =
    first_pages-take r db (numpages (push_count db)) v
    ∙ ap (λ (rows : List PushRow). ok (page_entries false (map (push_of true db.changesets) rows)))
        (take-all (numpages (push_count db) * 10) (replicated r db)
          (omega (arith, length-replicated r db)))
