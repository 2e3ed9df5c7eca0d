-- ===== src/Unify/Pulls.antt =====
-- hgext/unifyrepo/__init__.py: `emitfastforwardnodes`, with the order of the push infos.
use version_control_tools_fx.Base.{
  Bool, ◌&&◌, List, [], ◌∷◌, ◌++◌, map, Option, none, some, Text, text_eq, text_leb, leb, ◌==◌,
  if◌then◌else◌,
}
use version_control_tools_fx.Base.Result.{Result, ok, err, other_error}
use version_control_tools_fx.Hooks.Roots.{member}
use version_control_tools_fx.Pushlog.Lookup.{order_by, filter_rows}
use version_control_tools_fx.Unify.Collect.{Info, PushInfo}

-- `<=` on the tuples `(when, source, rev, who, pushid)`
abbrev pub info_leb : Info → Info → Bool
info_leb a b =
    if a.when == b.when
    then if text_eq a.source b.source
      then if a.rev == b.rev
        then if text_eq a.who b.who then leb a.pushid b.pushid else text_leb a.who b.who
        else leb a.rev b.rev
      else text_leb a.source b.source
    else leb a.when b.when

abbrev pub entry_before : Text × Info → Text × Info → Bool
entry_before e f = info_leb e.1 f.1

-- `sorted(pushtonode.items())`: a revision of a source is one node, so the infos differ and the
-- nodes are not compared.
unfoldable pub sorted_infos : PushInfo → PushInfo
unfolding order_by text_leb
sorted_infos = order_by entry_before

-- The changelog of the staging repository: the nodes with their parents.
abbrev pub Changelog : Type 0
Changelog = List (Text × List Text)

-- `clchildren[n]`: the relevant nodes with `n` for a parent
unfoldable pub children : Changelog → List Text → Text → List Text
unfolding filter_rows member
children cl relevant n =
    map (λ e. e.0) (filter_rows (λ (e : Text × List Text). member e.0 relevant && member n e.1) cl)

abbrev pub emit_last : Option Text → List Text
emit_last none = []
emit_last (some n) = n ∷ []

-- One round of the loop, with `wantedchildren` and `lastnode`: what it yields, and both afterwards.
unfoldable pub fast_forward :
    List Text → Text → List Text → Option Text → List Text × (List Text × Option Text)
unfolding member
fast_forward [] n wanted last = (n ∷ [], ([], none))
fast_forward (c ∷ cs) n wanted last =
    if member n wanted then ([], (c ∷ cs, some n)) else (emit_last last, (c ∷ cs, some n))

-- The loop: what it yields, and the last `lastnode`.
unfoldable pub emit_from :
    (Text → List Text) → List Text → List Text → Option Text → List Text × Option Text
unfolding fast_forward
emit_from kids [] wanted last = ([], last)
emit_from kids (n ∷ ns) wanted last =
    let (out, state) = fast_forward (kids n) n wanted last in
    let (rest, end) = emit_from kids ns state.0 state.1 in (out ++ rest, end)

-- `emitfastforwardnodes`, all that it yields; the assertion behind the loop may fail
unfoldable pub emitfastforwardnodes : Changelog → PushInfo → Result (List Text)
unfolding emit_from children sorted_infos
emitfastforwardnodes cl pushtonode =
    let nodes = map (λ e. e.0) (sorted_infos pushtonode) in
    let (out, last) = emit_from (children cl nodes) nodes [] none in
    elim last [ none ↦ ok out | some n ↦ err other_error ]
