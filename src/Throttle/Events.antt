-- ===== src/Throttle/Events.antt =====
-- Sequences of calls of logThrottler.ts, and what one call does to the record of a key.
use dmp.Base.{
  ℕ, ◌≡◌, refl, String, Option, none, some, List, [], ◌∷◌, ◌++◌, ◌==◌, if◌then◌else◌, lookup,
  lookup-insert, Bool-cases, inl, inr,
}
use dmp.Throttle.{
  ErrorRecord, ErrorRecords, Level, ThrottleOptions, Line, throttled_log, reset_tracking, counted,
  should_log, log_message,
}

-- A call of `throttledLog` at a time, or of `resetTracking`.
pub data Event : Type 0 where
  log : (now : ℕ) (key message : String) → Level → ThrottleOptions → Event
  reset : (key : String) → Event

-- A line that was logged, with its key and time.
pub record Logged : Type 0 where
  pub key : String
  pub time : ℕ
  pub line : Line

abbrev pub entry : String → ℕ → Option Line → List Logged
entry k t none = []
entry k t (some l) = record { key = k; time = t; line = l } ∷ []

-- One event: the new records, and the lines that it logs.
abbrev pub step : Event → ErrorRecords → ErrorRecords × List Logged
step (log now k m l o) rs = let r = throttled_log now k m l o rs in (r.0, entry k now r.1)
step (reset k) rs = (reset_tracking k rs, [])

abbrev pub run : List Event → ErrorRecords → ErrorRecords × List Logged
run [] rs = (rs, [])
run (e ∷ es) rs = let first = step e rs in let rest = run es first.0 in (rest.0, first.1 ++ rest.1)

-- The record that a call leaves for a key.
abbrev pub after_log : ℕ → String → ThrottleOptions → String → ErrorRecords → ErrorRecord
after_log now m o k rs =
    let r = counted now k m rs in if should_log now o r then record r { last_logged = now } else r

pub log-lookup :
    (now : ℕ) (k m : String) (l : Level) (o : ThrottleOptions) (j : String) (rs : ErrorRecords)
    → lookup j (throttled_log now k m l o rs).0
      ≡ (if k == j then some (after_log now m o k rs) else lookup j rs)
unfolding throttled_log
log-lookup now k m l o j rs = elim (Bool-cases (should_log now o (counted now k m rs))) [
  | inl e ↦ rw e (lookup-insert k j _ rs)
  | inr e ↦ rw e (lookup-insert k j _ rs)
]

pub log-line :
    (now : ℕ) (k m : String) (l : Level) (o : ThrottleOptions) (rs : ErrorRecords)
    → (throttled_log now k m l o rs).1 ≡ (
        if should_log now o (counted now k m rs)
        then some (record { level = l; text = log_message now m (counted now k m rs) })
        else none)
unfolding throttled_log
log-line now k m l o rs = elim (Bool-cases (should_log now o (counted now k m rs))) [
  | inl e ↦ rw e refl
  | inr e ↦ rw e refl
]
