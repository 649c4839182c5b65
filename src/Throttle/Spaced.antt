-- ===== src/Throttle/Spaced.antt =====
-- The lines of a key stand apart.
use dmp.Base.{
  ℕ, ◌+◌, ◌≤◌, ◌≡◌, ◌≢◌, refl, String, Bool, true, false, Option, none, some, List, [], ◌∷◌, ◌==◌,
  arith, lookup, lookup-remove, eq_iff, Bool-cases, Option-cases, inl, inr, All, ◌⊎◌,
}
use dmp.Throttle.{
  ErrorRecord, ErrorRecords, Level, ThrottleOptions, initial, subsequent, summarize, throttled_log,
  reset_tracking, counted, should_log,
}
use dmp.Throttle.Events.{Event, log, reset, Logged, run, log-lookup, log-line}

-- The time of the last line of a record, and that it has been counted.
abbrev pub last_of : Option ErrorRecord → Option ℕ
last_of none = none
last_of (some r) = some r.last_logged

abbrev pub IsCounted : Option ErrorRecord → Type 0
IsCounted none = Unit
IsCounted (some r) = 1 ≤ r.count

abbrev pub When : Bool → Type 0 → Type 0 → Type 0
When true A B = A
When false A B = B

-- The event does not reset the key, and a call for it has no interval below `d`.
abbrev pub Keeps : String → ℕ → Event → Type 0
Keeps k d (log now j m l o) = (j ≡ k) → (d ≤ initial o) × (d ≤ subsequent o) × (d ≤ summarize o)
Keeps k d (reset j) = j ≢ k

abbrev pub Gap : ℕ → Option ℕ → ℕ → Type 0
Gap d none t = Unit
Gap d (some s) t = s + d ≤ t

-- Each line of the key stands at least `d` after the one before it.
abbrev pub Spaced : String → ℕ → Option ℕ → List Logged → Type 0
Spaced k d last [] = Unit
Spaced k d last (x ∷ xs) =
    When (x.key == k) (Gap d last x.time × Spaced k d (some x.time) xs) (Spaced k d last xs)

log-Gap :
    (k : String) (d now : ℕ) (m : String) (o : ThrottleOptions) (rs : ErrorRecords)
    → (d ≤ initial o) × (d ≤ subsequent o) × (d ≤ summarize o)
    → IsCounted (lookup k rs)
    → should_log now o (counted now k m rs) ≡ true
    → Gap d (last_of (lookup k rs)) now
unfolding should_log counted
log-Gap k d now m o rs long seen h = elim (Option-cases (lookup k rs)) [
  | inl e ↦ rw (e, Gap) tt
  | inr (r, e) ↦
      let before : 1 ≤ r.count = rw e at seen in let logs = rw e at h in rw (e, Gap) (ground arith)
]

log-IsCounted :
    (now : ℕ) (j m : String) (l : Level) (o : ThrottleOptions) (k : String) (rs : ErrorRecords)
    → IsCounted (lookup k rs)
    → IsCounted (lookup k (throttled_log now j m l o rs).0)
unfolding counted
log-IsCounted now j m l o k rs seen = elim (Bool-cases (j == k)) [
  | inl e ↦ rw (log-lookup now j m l o k rs, e) (ground arith)
  | inr e ↦ rw (log-lookup now j m l o k rs, e) seen
]

reset_other :
    (j k : String) (rs : ErrorRecords) → j ≢ k → lookup k (reset_tracking j rs) ≡ lookup k rs
unfolding reset_tracking
reset_other j k rs other = ground (arith, lookup-remove j k rs, eq_iff j k)

quiet_found :
    (now : ℕ) (k m : String) (o : ThrottleOptions) (rs : ErrorRecords)
    → should_log now o (counted now k m rs) ≡ false
    → some (counted now k m rs).last_logged ≡ last_of (lookup k rs)
unfolding should_log counted
quiet_found now k m o rs h = elim (Option-cases (lookup k rs)) [
  | inl e ↦ absurd (let logs = rw e at h in ground arith)
  | inr (r, e) ↦ rw e refl
]

-- A call that logs nothing, or is for another key, leaves the time of the last line.
log_kept :
    (now : ℕ) (j m : String) (l : Level) (o : ThrottleOptions) (k : String) (rs : ErrorRecords)
    → ((j == k) ≡ false) ⊎ (should_log now o (counted now j m rs) ≡ false)
    → last_of (lookup k (throttled_log now j m l o rs).0) ≡ last_of (lookup k rs)
log_kept now j m l o k rs (inl e) = rw (log-lookup now j m l o k rs, e) refl
log_kept now j m l o k rs (inr h) = elim (Bool-cases (j == k)) [
  | inl e ↦
      rw (log-lookup now j m l o k rs, e, h)
        (let same = (eq_iff j k).0 e in rw same (quiet_found now k m o rs (rw same at h)))
  | inr e ↦ rw (log-lookup now j m l o k rs, e) refl
]

log_hit :
    (now : ℕ) (j m : String) (l : Level) (o : ThrottleOptions) (k : String) (rs : ErrorRecords)
    → (j == k) ≡ true
    → should_log now o (counted now j m rs) ≡ true
    → last_of (lookup k (throttled_log now j m l o rs).0) ≡ some now
log_hit now j m l o k rs e h = rw (log-lookup now j m l o k rs, e, h) refl

run-Spaced_from :
    (k : String) (d : ℕ) (es : List Event) (rs : ErrorRecords)
    → All (Keeps k d) es
    → IsCounted (lookup k rs)
    → Spaced k d (last_of (lookup k rs)) (run es rs).1
run-Spaced_from k d [] rs keeps seen = tt
run-Spaced_from k d (reset j ∷ es) rs keeps seen =
    let same = reset_other j k rs keeps.0 in
    let rest = run-Spaced_from k d es (reset_tracking j rs) keeps.1 (rw same seen) in
    rw same at rest
run-Spaced_from k d (log now j m l o ∷ es) rs keeps seen =
    let rest =
      run-Spaced_from k d es (throttled_log now j m l o rs).0 keeps.1
        (log-IsCounted now j m l o k rs seen) in
    elim (Bool-cases (should_log now o (counted now j m rs))) [
      | inl h ↦ elim (Bool-cases (j == k)) [
        | inl e ↦
            let same : j ≡ k = (eq_iff j k).0 e in
            rw (log-line now j m l o rs, h, e)
              (
                log-Gap k d now m o rs (keeps.0 same) seen (rw same at h),
                rw (log_hit now j m l o k rs e h) at rest,
              )
        | inr e ↦
            rw (log-line now j m l o rs, h, e) (rw (log_kept now j m l o k rs (inl e)) at rest)
      ]
      | inr h ↦ rw (log-line now j m l o rs, h) (rw (log_kept now j m l o k rs (inr h)) at rest)
    ]

-- After any sequence of throttled calls for any keys and of resets of other keys, starting with no
-- records: where no call for the key has an interval below `d`, each line that is logged for the key comes
-- at least `d` after the one before it, however the clock runs.
pub run-Spaced :
    (k : String) (d : ℕ) (es : List Event) → All (Keeps k d) es → Spaced k d none (run es []).1
run-Spaced k d es keeps = run-Spaced_from k d es [] keeps tt
