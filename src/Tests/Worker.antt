-- ===== src/Tests/Worker.antt =====
-- The options of the workers.
use junglegaming_test.Base.{◌≡◌, false, List, [], ◌∷◌, arith}
use junglegaming_test.Worker.{polling_options, Turn, failed, found, idle, run}
use junglegaming_test.Worker.Delays.{
  IsSound, AllBounded, run-AllBounded, failures, doubled_pauses, run-failures,
}

polling_options-IsSound : IsSound polling_options
polling_options-IsSound = record { ordered = omega arith; bounded = omega arith }

abbrev turns : List Turn
turns =
    record { outcome = failed; stopped = false; woken = false }
    ∷ record { outcome = found; stopped = false; woken = false }
    ∷ record { outcome = idle; stopped = false; woken = false }
    ∷ []

run-AllBounded_example : AllBounded polling_options (run polling_options turns)
run-AllBounded_example = run-AllBounded polling_options turns polling_options-IsSound

run-failures_example :
    run polling_options (failures 7)
    ≡ doubled_pauses 7 0 polling_options.min_error_delay polling_options.max_error_delay
run-failures_example = run-failures polling_options 7 polling_options-IsSound
