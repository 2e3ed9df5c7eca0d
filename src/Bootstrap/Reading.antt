-- ===== src/Bootstrap/Reading.antt =====
-- Which messages of a partition are kept.
use version_control_tools_fx.Base.{
  ℕ, suc, ◌<◌, ◌≡◌, refl, sym, ap, true, List, [], ◌∷◌, ltb, leb, any, All, arith, Bool-cases, inl,
  inr,
}
use version_control_tools_fx.Pushlog.Lookup.{filter_rows}
use version_control_tools_fx.Bootstrap.{Message, kept, collect_from}

-- The offsets rise.
abbrev pub Rising : List Message → Type 0
Rising [] = Unit
Rising (m ∷ ms) = All (λ (n : Message). m.offset < n.offset) ms × Rising ms

-- Nothing behind the last offset is of the range.
filter-beyond :
    (end : ℕ) (m : Message) (ms : List Message)
    → leb end (suc m.offset) ≡ true
    → All (λ (n : Message). m.offset < n.offset) ms
    → filter_rows (λ (n : Message). ltb n.offset end) ms ≡ []
unfolding filter_rows
filter-beyond end m [] h a = refl
filter-beyond end m (n ∷ ms) h a = ground (arith, h, a.0, filter-beyond end m ms h a.1)

-- Of messages whose offsets rise, those are kept that stand before the end of the range, and the
-- loop over the partition is left exactly where the last offset of the range or one behind it is met.
collect_from-filter :
    (end : ℕ) (ms : List Message)
    → Rising ms
    → ((collect_from end ms).messages ≡ filter_rows (λ (m : Message). ltb m.offset end) ms)
      × ((collect_from end ms).done ≡ any (λ (m : Message). leb end (suc m.offset)) ms)
unfolding collect_from filter_rows
collect_from-filter end [] r = (refl, refl)
collect_from-filter end (m ∷ ms) r =
    let (messages, done) = collect_from-filter end ms r.1 in
    elim (Bool-cases (leb end (suc m.offset))) [
      | inl last ↦
          let beyond = filter-beyond end m ms last r.0 in
          (
            rw (collect_from, last) (ap (λ ns. kept end m ns) (sym beyond)),
            rw (collect_from, last) refl,
          )
      | inr before ↦ (
        rw (collect_from, before) (ap (λ ns. kept end m ns) messages),
        rw (collect_from, before) done,
      )
    ]
