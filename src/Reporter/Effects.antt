-- ===== src/Reporter/Effects.antt =====
-- What the reporter task of src/interval_reporter.rs calls back and prints.
use rperf3_rs.Base.{◌≡◌, refl, ap, List, [], ◌∷◌, map, Bool, true, false, if◌then◌else◌}
use rperf3_rs.Base.Float.{Float}
use rperf3_rs.Reporter.{
  IntervalReport, IntervalMessage, report_msg, complete_msg, IntervalUpdate, Line, Effect,
  on_progress, print_line, update_of, format_interval_output, on_report, run_reporter_task,
}

-- The messages of a test: its reports, and then the end.
abbrev pub messages_of :
    {F : Type 0} → List (IntervalReport F) → List (IntervalMessage F) → List (IntervalMessage F)
messages_of [] later = complete_msg ∷ later
messages_of (r ∷ rs) later = report_msg r ∷ messages_of rs later

abbrev pub updates_in : {F : Type 0} → List (Effect F) → List (IntervalUpdate F)
updates_in [] = []
updates_in (on_progress u ∷ es) = u ∷ updates_in es
updates_in (print_line l ∷ es) = updates_in es

abbrev pub lines_in : {F : Type 0} → List (Effect F) → List (Line F)
lines_in [] = []
lines_in (on_progress u ∷ es) = lines_in es
lines_in (print_line l ∷ es) = l ∷ lines_in es

module _ (fl : Float) where
  -- Every report before the end is called back once and in order if there is a callback, and printed
  -- once and in order unless the output is JSON; what is sent after the end has no effect.
  pub run_reporter_task-messages_of :
      (json_mode has_callback : Bool) (rs : List (IntervalReport (fl.F)))
      (later : List (IntervalMessage (fl.F)))
      → let out = run_reporter_task fl json_mode has_callback (messages_of rs later) in
        (updates_in out ≡ (if has_callback then map update_of rs else []))
        × (lines_in out ≡ (if json_mode then [] else map (format_interval_output fl) rs))
  unfolding run_reporter_task on_report
  run_reporter_task-messages_of true true [] later = (refl, refl)
  run_reporter_task-messages_of true false [] later = (refl, refl)
  run_reporter_task-messages_of false true [] later = (refl, refl)
  run_reporter_task-messages_of false false [] later = (refl, refl)
  run_reporter_task-messages_of true true (r ∷ rs) later =
      let (u, l) = run_reporter_task-messages_of true true rs later in
      (ap (λ us. update_of r ∷ us) u, l)
  run_reporter_task-messages_of true false (r ∷ rs) later =
      run_reporter_task-messages_of true false rs later
  run_reporter_task-messages_of false true (r ∷ rs) later =
      let (u, l) = run_reporter_task-messages_of false true rs later in
      (ap (λ us. update_of r ∷ us) u, ap (λ ls. format_interval_output fl r ∷ ls) l)
  run_reporter_task-messages_of false false (r ∷ rs) later =
      let (u, l) = run_reporter_task-messages_of false false rs later in
      (u, ap (λ ls. format_interval_output fl r ∷ ls) l)
