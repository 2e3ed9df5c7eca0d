-- ===== src/Daemon/Tests.antt =====
-- The loop of the daemons on three rounds.
use version_control_tools_fx.Base.{◌≡◌, refl, false, [], ◌∷◌}
use version_control_tools_fx.Daemon.{Iteration, code, run_in_loop}
use version_control_tools_fx.Daemon.Stops.{run_in_loop_ends}

abbrev calm : Iteration
calm = record { signals = 0; clears = false; raises = false }

abbrev signalled : Iteration
signalled = record { signals = 1; clears = false; raises = false }

-- A signal during the second call.
run_in_loop_ends_example : run_in_loop false (calm ∷ signalled ∷ calm ∷ []) ≡ (2, code 0)
run_in_loop_ends_example =
    run_in_loop_ends false (calm ∷ []) signalled (calm ∷ []) (code 0) (refl, tt) refl
