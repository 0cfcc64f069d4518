-- ===== src/Lifecycle/Shutdown/Steps.antt =====
-- internal/lifecycle/shutdown.go: what a shutdown starts and returns, however its steps end.
use mathlib.Core.List.{append-nil, append_assoc}
use tortui.Lifecycle.Shutdown.{
  stop_input, pause_torrents, save_session, seal_session, flush_store, close_engine, close_store,
  restore_terminal, seal,
}
use tortui.Base.{Bool, List, true, false, if◌then◌else◌, ◌≡◌, [], ◌∷◌, ◌++◌, ap, refl, ◌∙◌, sym}
use tortui.Lifecycle.Shutdown.{
  ShutdownOptions, Step, shutdown, StepEnding, run_step, StepError, stop_input, step_error,
  Progress,
}

abbrev pub when : Bool → List Step → List Step
when set steps = if set then steps else []

-- The steps that the options ask for before the terminal's restore.
abbrev pub wanted_steps : ShutdownOptions → List Step
wanted_steps o =
    when o.stop_input (stop_input ∷ [])
    ++ when o.engine (pause_torrents ∷ [])
    ++ when o.session (save_session ∷ seal_session ∷ [])
    ++ when o.store (flush_store ∷ [])
    ++ when o.engine (close_engine ∷ [])
    ++ when o.store (close_store ∷ [])

abbrev pub is_sealing : Step → Bool
is_sealing seal_session = true
is_sealing _ = false

-- The error of a step; sealing has none.
abbrev pub step_errors : (Step → StepEnding) → Step → List StepError
step_errors ending s = if is_sealing s then [] else step_error s (ending s)

-- The errors of steps, in order.
abbrev pub errors_of : (Step → StepEnding) → List Step → List StepError
errors_of ending [] = []
errors_of ending (s ∷ steps) = step_errors ending s ++ errors_of ending steps

module _ (ending : Step → StepEnding) where
  errors_of-append :
      (xs ys : List Step) → errors_of ending (xs ++ ys) ≡ errors_of ending xs ++ errors_of ending ys
  errors_of-append [] ys = refl
  errors_of-append (x ∷ xs) ys =
      ap (λ l. step_errors ending x ++ l) (errors_of-append xs ys)
      ∙ sym (append_assoc (step_errors ending x) (errors_of ending xs) (errors_of ending ys))

  -- The progress is what these steps make.
  abbrev Follows : Progress → List Step → Type 0
  Follows p steps = (p.started ≡ steps) × (p.errs ≡ errors_of ending steps)

  run_step-Follows :
      (set : Bool) (s : Step) (p : Progress) (steps : List Step)
      → is_sealing s ≡ false
      → Follows p steps
      → Follows (run_step ending set s p) (steps ++ when set (s ∷ []))
  unfolding run_step
  run_step-Follows false s p steps h (a, b) = rw (append-nil steps) (a, b)
  run_step-Follows true s p steps h (a, b) = (
    ap (λ l. l ++ s ∷ []) a,
    (let one : errors_of ending (s ∷ []) ≡ step_error s (ending s) =
          append-nil (step_errors ending s) ∙ rw h refl in
        ap (λ l. l ++ step_error s (ending s)) b
        ∙ ap (λ l. errors_of ending steps ++ l) (sym one)
        ∙ sym (errors_of-append steps (s ∷ []))),
  )

  seal-Follows :
      (set : Bool) (p : Progress) (steps : List Step)
      → Follows p (steps ++ when set (save_session ∷ []))
      → Follows (seal set p) (steps ++ when set (save_session ∷ seal_session ∷ []))
  seal-Follows false p steps f = f
  seal-Follows true p steps (a, b) = (
    ap (λ l. l ++ seal_session ∷ []) a ∙ append_assoc steps (save_session ∷ []) (seal_session ∷ []),
    b
        ∙ errors_of-append steps (save_session ∷ [])
        ∙ sym (errors_of-append steps (save_session ∷ seal_session ∷ [])),
  )

-- Whatever its steps do, hang or fail, a shutdown starts every step that its options ask for, in
-- one order, the terminal's restore last. It returns one error for each step that fails or hangs,
-- but none for the restore.
pub shutdown-runs :
    (opts : ShutdownOptions) (ending : Step → StepEnding)
    → ((shutdown opts ending).started
        ≡ wanted_steps opts ++ when opts.restore_terminal (restore_terminal ∷ []))
      × ((shutdown opts ending).errs ≡ errors_of ending (wanted_steps opts))
unfolding shutdown
shutdown-runs opts ending =
    let start : Progress = record { started = []; errs = [] } in
    let step = run_step-Follows ending in
    let p1 = run_step ending opts.stop_input stop_input start in
    let p2 = run_step ending opts.engine pause_torrents p1 in
    let p3 = run_step ending opts.session save_session p2 in
    let p3' = seal opts.session p3 in
    let p4 = run_step ending opts.store flush_store p3' in
    let p5 = run_step ending opts.engine close_engine p4 in
    let p6 = run_step ending opts.store close_store p5 in
    let f1 = step opts.stop_input stop_input start [] refl (refl, refl) in
    let f2 = step opts.engine pause_torrents p1 _ refl f1 in
    let f3 = step opts.session save_session p2 _ refl f2 in
    let f3' = seal-Follows ending opts.session p3 _ f3 in
    let f4 = step opts.store flush_store p3' _ refl f3' in
    let f5 = step opts.engine close_engine p4 _ refl f4 in
    let f6 = step opts.store close_store p5 _ refl f5 in
    ((step opts.restore_terminal restore_terminal p6 _ refl f6).0, f6.1)
