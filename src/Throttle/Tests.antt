-- ===== src/Throttle/Tests.antt =====
-- Tests of logThrottler.ts.
use dmp.Base.{ℕ, ◌+◌, ◌<◌, ◌≤◌, ◌≡◌, ◌⊎◌, refl, none, some, List, [], ◌∷◌, map, All, lookup, arith}
use dmp.Throttle.{
  throttled_log, format_duration, log_message, error, warn, ThrottleOptions, Line, initial,
  subsequent,
}
use dmp.Throttle.Events.{Event, log, run}
use dmp.Throttle.Spaced.{Keeps, Spaced, run-Spaced}
use dmp.Throttle.Counted.{count_of, calls, run-count}
use dmp.Throttle.Heard.{Heard, throttled_log-Heard}

abbrev defaults : ThrottleOptions
defaults = record {
  initial_log_interval = none;
  subsequent_log_interval = none;
  max_occurrences = none;
  summarize_interval = none;
}

hours_and_minutes : format_duration 3900000 ≡ "1h 5m"
unfolding format_duration
hours_and_minutes = refl

repeated :
    (throttled_log 61000 "k" "boom" error defaults
      (throttled_log 1000 "k" "boom" error defaults []).0).1
    ≡ some (record { level = error; text = "boom (occurred 2 times in the last 1m 0s)" })
unfolding throttled_log log_message
repeated = refl

-- Three calls for one key, one of them early, and a call for another.
abbrev history : List Event
history =
    log 0 "k" "boom" error defaults
    ∷ log 1000 "k" "boom" error defaults
    ∷ log 2000 "j" "bang" warn defaults
    ∷ log 60000 "k" "boom" error defaults
    ∷ []

two_lines : map (λ x. x.time) (run history []).1 ≡ 0 ∷ 2000 ∷ 60000 ∷ []
unfolding throttled_log log_message
two_lines = refl

history-Keeps : All (Keeps "k" 60000) history
history-Keeps =
    let long : (60000 ≤ 60000) × (60000 ≤ 300000) × (60000 ≤ 1800000) =
      (omega arith, omega arith, omega arith) in
    (λ _. long, (λ _. long, (λ _. long, (λ _. long, tt))))

run-Spaced_example : Spaced "k" 60000 none (run history []).1
run-Spaced_example = run-Spaced "k" 60000 history history-Keeps

run-count_example : count_of (lookup "k" (run history []).0) ≡ calls "k" 0 history
run-count_example = run-count "k" history

throttled_log-Heard_example :
    ((x : Line) × ((throttled_log 61000 "k" "boom" error defaults (run history []).0).1 ≡ some x))
    ⊎ ((t : ℕ) × Heard "k" t (run history []).1
        × ((61000 < t + initial defaults) ⊎ (61000 < t + subsequent defaults)))
throttled_log-Heard_example = throttled_log-Heard history 61000 "k" "boom" error defaults
