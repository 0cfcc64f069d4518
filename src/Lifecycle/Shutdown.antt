-- ===== src/Lifecycle/Shutdown.antt =====
-- internal/lifecycle/shutdown.go: the steps of a shutdown, in the order in which they start.
pub mod Steps
mod Examples
use tortui.Base.{Bool, List, [], if◌then◌else◌, ◌∷◌, ◌++◌}

pub data Step : Type 0 where
  stop_input pause_torrents save_session seal_session flush_store close_engine close_store
        restore_terminal :
      Step

-- How a step's goroutine meets its timeout: it ends well, it ends with an error, or it does not end
-- in time, which is the other case of runStep's select. One that panics ends the process.
pub data StepEnding : Type 0 where
  succeeds failing hangs : StepEnding

pub data StepError : Type 0 where
  failed timed_out : Step → StepError

-- The fields of ShutdownOptions that are set.
pub record ShutdownOptions : Type 0 where
  pub engine : Bool
  pub store : Bool
  pub session : Bool
  pub stop_input : Bool
  pub restore_terminal : Bool

-- runStep: an error is its result; a step that hangs is left behind when its timeout is over.
abbrev pub step_error : Step → StepEnding → List StepError
step_error s succeeds = []
step_error s failing = failed s ∷ []
step_error s hangs = timed_out s ∷ []

-- The steps started so far and the errors collected.
pub record Progress : Type 0 where
  pub started : List Step
  pub errs : List StepError

-- A step that is in the sequence when its field is set.
unfoldable pub run_step : (Step → StepEnding) → Bool → Step → Progress → Progress
run_step ending set s p =
    if set
    then record { started = p.started ++ s ∷ []; errs = p.errs ++ step_error s (ending s) }
    else p

-- The call of seal, which does not fail and is not run as a step.
abbrev pub seal : Bool → Progress → Progress
seal set p = if set then record p { started = p.started ++ seal_session ∷ [] } else p

-- Shutdown: what it started and what it returns. The deferred restore comes last, and its error is
-- appended to a variable whose value has been returned already.
unfoldable pub shutdown : ShutdownOptions → (Step → StepEnding) → Progress
unfolding run_step
shutdown opts ending =
    let p0 : Progress = record { started = []; errs = [] } in
    let p1 = run_step ending opts.stop_input stop_input p0 in
    let p2 = run_step ending opts.engine pause_torrents p1 in
    let p3 = seal opts.session (run_step ending opts.session save_session p2) in
    let p4 = run_step ending opts.store flush_store p3 in
    let p5 = run_step ending opts.engine close_engine p4 in
    let p6 = run_step ending opts.store close_store p5 in
    record p6 { started = (run_step ending opts.restore_terminal restore_terminal p6).started }
