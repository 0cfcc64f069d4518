-- ===== src/Lifecycle/Shutdown/Examples.antt =====
-- internal/lifecycle/shutdown.go: a shutdown whose engine hangs, for the tests.
use tortui.Lifecycle.Shutdown.{
  pause_torrents, close_engine, ShutdownOptions, Step, shutdown, StepEnding, run_step, hangs,
  timed_out, succeeds, StepError, restore_terminal,
}
use tortui.Base.{true, ◌≡◌, ◌∷◌, [], refl, ◌++◌, List, false, Bool}
use tortui.Lifecycle.Shutdown.Steps.{wanted_steps, errors_of, shutdown-runs, when}

abbrev all_options : ShutdownOptions
all_options = record {
  engine = true;
  store = true;
  session = true;
  stop_input = true;
  restore_terminal = true;
}

abbrev engine_hangs : Step → StepEnding
engine_hangs pause_torrents = hangs
engine_hangs close_engine = hangs
engine_hangs _ = succeeds

shutdown-runs_example :
    ((shutdown all_options engine_hangs).started
      ≡ wanted_steps all_options ++ when all_options.restore_terminal (restore_terminal ∷ []))
    × ((shutdown all_options engine_hangs).errs ≡ errors_of engine_hangs (wanted_steps all_options))
shutdown-runs_example = shutdown-runs all_options engine_hangs

two-errors :
    (shutdown all_options engine_hangs).errs
    ≡ timed_out pause_torrents ∷ timed_out close_engine ∷ []
unfolding shutdown run_step
two-errors = refl

abbrev contains_restore : List StepError → Bool
contains_restore [] = false
contains_restore (timed_out restore_terminal ∷ errs) = true
contains_restore (e ∷ errs) = contains_restore errs

abbrev all_hang : Step → StepEnding
all_hang s = hangs

-- The restore hangs too, and no error says so.
no-restore_error : contains_restore (shutdown all_options all_hang).errs ≡ false
unfolding shutdown run_step
no-restore_error = refl
