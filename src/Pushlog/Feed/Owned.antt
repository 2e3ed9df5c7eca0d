-- ===== src/Pushlog/Feed/Owned.antt =====
-- The entries of a push among those of several.
use version_control_tools_fx.Base.{
  ℕ, ◌≡◌, refl, ap, ◌∙◌, true, false, List, [], ◌∷◌, ◌++◌, append-nil, Text, any, All, ◌==◌, arith,
}
use version_control_tools_fx.Pushlog.Db.{PushRow, Db, same_id}
use version_control_tools_fx.Pushlog.Db.Rows.{Unique}
use version_control_tools_fx.Pushlog.Record.{Push}
use version_control_tools_fx.Pushlog.Lookup.{nodes_of, filter_rows}
use version_control_tools_fx.Pushlog.Query.Listing.{push_of}
use version_control_tools_fx.Pushlog.Feed.{Entry, entries_at, page_entries}
use version_control_tools_fx.Pushlog.Feed.Pages.{entries_of}
use version_control_tools_fx.Pushlog.Feed.Collected.{own}

own-append : (k : ℕ) (xs ys : List Entry) → own k (xs ++ ys) ≡ own k xs ++ own k ys
unfolding filter_rows
own-append k [] ys = refl
own-append k (x ∷ xs) ys = ground (arith, own-append k xs ys)

own-same : (p : Push) (ns : List Text) → own p.pushid (entries_at p ns) ≡ entries_at p ns
unfolding filter_rows
own-same p [] = refl
own-same p (n ∷ ns) = ground (arith, own-same p ns)

own-other :
    (k : ℕ) (p : Push) (ns : List Text) → p.pushid == k ≡ false → own k (entries_at p ns) ≡ []
unfolding filter_rows
own-other k p [] h = refl
own-other k p (n ∷ ns) h = rw h (own-other k p ns h)

-- The entries of a push among those of all rows.
pub own-row :
    (db : Db) (k : ℕ) (rows : List PushRow)
    → any (λ (q : PushRow). q.id == k) rows ≡ false
    → own k (entries_of db rows) ≡ []
unfolding entries_of page_entries filter_rows
own-row db k [] h = refl
own-row db k (p ∷ ps) h =
    let at = push_of true db.changesets p in
    own-append k (entries_at at at.nodes) (entries_of db ps)
    ∙ ap (λ es. es ++ own k (entries_of db ps)) (own-other k at at.nodes (ground (arith, h)))
    ∙ own-row db k ps (ground (arith, h))

any-flip :
    (p : PushRow) (ps : List PushRow)
    → any (same_id p) ps ≡ false
    → any (λ (q : PushRow). q.id == p.id) ps ≡ false
any-flip p [] h = refl
any-flip p (q ∷ qs) h = ground (arith, h, any-flip p qs)

-- The entries of a push, with its nodes by falling revision.
abbrev pub row_entries : Db → PushRow → List Entry
row_entries db p = entries_at (push_of true db.changesets p) (nodes_of true p.id db.changesets)

more_rows :
    (db : Db) (p : PushRow) (ps xs : List PushRow)
    → any (same_id p) xs ≡ false
    → All (λ (x : PushRow). own x.id (entries_of db ps) ≡ row_entries db x) xs
    → All (λ (x : PushRow). own x.id (entries_of db (p ∷ ps)) ≡ row_entries db x) xs
unfolding entries_of
more_rows db p ps [] h a = tt
more_rows db p ps (x ∷ xs) h a = (
  own-append x.id (row_entries db p) (entries_of db ps)
      ∙ ap (λ es. es ++ own x.id (entries_of db ps))
          (own-other x.id (push_of true db.changesets p) (nodes_of true p.id db.changesets)
            (ground (arith, h)))
      ∙ a.0,
  more_rows db p ps xs (ground (arith, h)) a.1,
)

pub own-rows :
    (db : Db) (rows : List PushRow)
    → Unique same_id rows
    → All (λ (p : PushRow). own p.id (entries_of db rows) ≡ row_entries db p) rows
unfolding entries_of
own-rows db [] u = tt
own-rows db (p ∷ ps) u = (
  own-append p.id (row_entries db p) (entries_of db ps)
      ∙ ap (λ es. es ++ own p.id (entries_of db ps))
          (own-same (push_of true db.changesets p) (nodes_of true p.id db.changesets))
      ∙ ap (λ es. row_entries db p ++ es) (own-row db p.id ps (any-flip p ps u.0))
      ∙ append-nil (row_entries db p),
  more_rows db p ps ps u.0 (own-rows db ps u.1),
)
