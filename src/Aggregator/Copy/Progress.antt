-- ===== src/Aggregator/Copy/Progress.antt =====
-- When `_copy_messages` gets to its end.
use version_control_tools_fx.Base.{ℕ, zero, suc, ◌≤◌, ◌≡◌, refl, true, List, [], ◌∷◌, length, arith}
use version_control_tools_fx.Base.Result.{ok}
use version_control_tools_fx.Aggregator.Copy.{
  nothing, broken, got, Poll, returned, copy_one, copy_loop,
}
use version_control_tools_fx.Aggregator.Copy.Effects.{deliveries}

-- No signal arrives, no poll raises, and each copy goes through.
abbrev pub RunsWell : List Poll → Type 0
RunsWell [] = Unit
RunsWell ((nothing, quiet) ∷ ps) = (quiet ≡ true) × RunsWell ps
RunsWell ((broken e, quiet) ∷ ps) = ⊥
RunsWell ((got m d, quiet) ∷ ps) = (quiet ≡ true) × ((copy_one m d).1 ≡ ok tt) × RunsWell ps

-- Without a signal, a failed poll or a failed copy, and with as many delivered messages as are
-- counted, the loop returns and has none left to copy, however many polls come back empty.
pub copy_loop_returns :
    (count : ℕ) (polls : List Poll)
    → RunsWell polls
    → count ≤ length (deliveries polls)
    → ((copy_loop count true polls).end ≡ returned) × ((copy_loop count true polls).left ≡ 0)
unfolding copy_loop
copy_loop_returns zero polls w h = (refl, refl)
copy_loop_returns (suc n) [] w h = absurd (omega arith)
copy_loop_returns (suc n) ((nothing, quiet) ∷ ps) w h = rw w.0 (copy_loop_returns (suc n) ps w.1 h)
copy_loop_returns (suc n) ((broken e, quiet) ∷ ps) w h = absurd w
copy_loop_returns (suc n) ((got m d, quiet) ∷ ps) w h =
    rw (w.1, w.0, copy_loop) (copy_loop_returns n ps w.2 (omega arith))
