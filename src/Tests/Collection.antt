-- ===== src/Tests/Collection.antt =====
-- Training at concrete inputs.
use mod_sec_intl_wace_lib.Base.{List, [], arith, none, ok, refl, ◌++◌, ◌∷◌, ◌≡◌}
use mod_sec_intl_wace_lib.Tests.Data.{two_samples}
use mod_sec_intl_wace_lib.Training.Collect.{Event, cancel, handle_training, lines}
use mod_sec_intl_wace_lib.Training.Moments.{due_writes}
use mod_sec_intl_wace_lib.Training.WriteLaws.{handle_training-writes}
use mod_sec_intl_wace_lib.Training.CompleteLaws.{IsComplete, handle_training-IsComplete, samples_at}
use mod_sec_intl_wace_lib.Training.FillLaws.{FillsTo, handle_training-FillsTo}

-- Two samples come, and then the end of the context.
abbrev two_events : List Event
two_events = samples_at two_samples ((8, 101) ∷ (9, 102) ∷ []) ++ (cancel ∷ [])

handle_training-IsComplete_example :
    IsComplete two_samples
      (8 ∷ 9 ∷ [])
      (handle_training two_samples 100 (ok none) (lines 0) two_events)
handle_training-IsComplete_example =
    handle_training-IsComplete two_samples 100 (ok none) 0 8 101 ((9, 102) ∷ []) (cancel ∷ []) tt
      (λ e. cc) (omega arith) refl

handle_training-writes_example :
    (handle_training two_samples 100 (ok none) (lines 0) two_events).writes
    ≡ due_writes two_samples 100 (ok none) (lines 0) two_events
handle_training-writes_example =
    handle_training-writes two_samples 100 (ok none) (lines 0) two_events (omega arith)

handle_training-FillsTo_example :
    FillsTo two_samples 1 (handle_training two_samples 100 (ok none) (lines 1) two_events)
handle_training-FillsTo_example =
    handle_training-FillsTo two_samples 100 (ok none) 1 two_events (omega arith)
