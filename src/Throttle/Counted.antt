-- ===== src/Throttle/Counted.antt =====
-- The counters of throttled keys.
use dmp.Base.{
  ℕ, suc, ◌+◌, get_or, ◌≡◌, refl, String, Option, none, some, List, [], ◌∷◌, ◌==◌, arith,
  if◌then◌else◌, lookup, lookup-remove, eq_iff, Bool-cases, inl, inr,
}
use dmp.Throttle.{
  ErrorRecord, ErrorRecords, Level, ThrottleOptions, throttled_log, reset_tracking, counted,
  should_log,
}
use dmp.Throttle.Events.{Event, log, reset, run, log-lookup, after_log}

-- How often a key was logged for since it was last reset, counted on from a number.
abbrev pub calls : String → ℕ → List Event → ℕ
calls k n [] = n
calls k n (log now j m l o ∷ es) = calls k (if j == k then suc n else n) es
calls k n (reset j ∷ es) = calls k (if j == k then 0 else n) es

-- The number of occurrences that is stored: 0 stands for no record.
abbrev pub count_of : Option ErrorRecord → ℕ
count_of none = 0
count_of (some r) = r.count

after_log-count :
    (now : ℕ) (m : String) (o : ThrottleOptions) (k : String) (rs : ErrorRecords)
    → (after_log now m o k rs).count ≡ suc (count_of (lookup k rs))
unfolding counted
after_log-count now m o k rs = elim (Bool-cases (should_log now o (counted now k m rs))) [
  | inl h ↦ rw h (found (lookup k rs))
  | inr h ↦ rw h (found (lookup k rs))
]
  where
    found :
        (f : Option ErrorRecord)
        → (get_or f (record { count = 0; last_logged = 0; first_seen = now; message = m })).count
            + 1
          ≡ suc (count_of f)
    found none = omega arith
    found (some r) = omega arith

log-count :
    (now : ℕ) (j m : String) (l : Level) (o : ThrottleOptions) (k : String) (rs : ErrorRecords)
    → count_of (lookup k (throttled_log now j m l o rs).0)
      ≡ (if j == k then suc (count_of (lookup k rs)) else count_of (lookup k rs))
log-count now j m l o k rs = elim (Bool-cases (j == k)) [
  | inl e ↦
      let same = (eq_iff j k).0 e in
      rw (log-lookup now j m l o k rs, e, same) (after_log-count now m o k rs)
  | inr e ↦ rw (log-lookup now j m l o k rs, e) refl
]

reset-count :
    (j k : String) (rs : ErrorRecords)
    → count_of (lookup k (reset_tracking j rs)) ≡ (if j == k then 0 else count_of (lookup k rs))
unfolding reset_tracking
reset-count j k rs = rw (lookup-remove j k rs) (ground arith)

run-count_from :
    (k : String) (es : List Event) (rs : ErrorRecords)
    → count_of (lookup k (run es rs).0) ≡ calls k (count_of (lookup k rs)) es
run-count_from k [] rs = refl
run-count_from k (log now j m l o ∷ es) rs =
    rw (← log-count now j m l o k rs) (run-count_from k es (throttled_log now j m l o rs).0)
run-count_from k (reset j ∷ es) rs =
    rw (← reset-count j k rs) (run-count_from k es (reset_tracking j rs))

-- After any sequence of throttled calls and resets, starting with no records, the count that is stored
-- for a key is the number of calls for the key since it was last reset; there is no count where that is
-- none.
pub run-count : (k : String) (es : List Event) → count_of (lookup k (run es []).0) ≡ calls k 0 es
run-count k es = run-count_from k es []
