-- ===== src/Throttle/Heard.antt =====
-- No key stays silent: what is not logged was logged a short while before.
use mathlib.Core.List.{append_assoc}
use dmp.Base.{
  ℕ, ◌+◌, ◌≤◌, ◌<◌, ◌≡◌, refl, String, Option, none, some, List, [], ◌∷◌, ◌++◌, ◌==◌, arith, lookup,
  lookup-remove, eq_iff, Bool-cases, Option-cases, inl, inr, ◌⊎◌, Any,
}
use dmp.Throttle.{
  ErrorRecord, ErrorRecords, Level, ThrottleOptions, Line, initial, subsequent, throttled_log,
  reset_tracking, counted, should_log, log_message,
}
use dmp.Throttle.Events.{
  Event, log, reset, Logged, run, step, entry, log-lookup, log-line, after_log,
}

-- A line of the key at that time is among those that were logged.
abbrev pub Heard : String → ℕ → List Logged → Type 0
Heard k t = Any (λ x. (x.key ≡ k) × (x.time ≡ t))

Heard-append :
    (k : String) (t : ℕ) (xs ys : List Logged) → Heard k t xs ⊎ Heard k t ys → Heard k t (xs ++ ys)
Heard-append k t [] ys (inl h) = absurd h
Heard-append k t [] ys (inr h) = h
Heard-append k t (x ∷ xs) ys (inl (inl h)) = inl h
Heard-append k t (x ∷ xs) ys (inl (inr h)) = inr (Heard-append k t xs ys (inl h))
Heard-append k t (x ∷ xs) ys (inr h) = inr (Heard-append k t xs ys (inr h))

-- The record of a key stands for a line that was logged.
abbrev Known : String → List Logged → Option ErrorRecord → Type 0
Known k lines none = Unit
Known k lines (some r) = (1 ≤ r.count) × Heard k r.last_logged lines

Known-append :
    (k : String) (xs ys : List Logged) (f : Option ErrorRecord)
    → Known k xs f
    → Known k (xs ++ ys) f
Known-append k xs ys none h = tt
Known-append k xs ys (some r) h = (h.0, Heard-append k r.last_logged xs ys (inl h.1))

log-Known :
    (now : ℕ) (k m : String) (l : Level) (o : ThrottleOptions) (lines : List Logged)
    (rs : ErrorRecords)
    → Known k lines (lookup k rs)
    → Known k
        (lines ++ entry k now (throttled_log now k m l o rs).1)
        (some (after_log now m o k rs))
unfolding counted should_log
log-Known now k m l o lines rs known = elim (Bool-cases (should_log now o (counted now k m rs))) [
  | inl h ↦
      rw (log-line now k m l o rs, h, Known)
        (omega arith, Heard-append k now lines _ (inr (inl (refl, refl))))
  | inr h ↦ elim (Option-cases (lookup k rs)) [
    | inl e ↦ absurd (let logs = rw e at h in ground arith)
    | inr (r, e) ↦
        let old : Known k lines (some r) = rw e at known in
        rw (h, e) (omega arith, Heard-append k r.last_logged lines _ (inl old.1))
  ]
]

step-Known :
    (k : String) (e : Event) (lines : List Logged) (rs : ErrorRecords)
    → Known k lines (lookup k rs)
    → Known k (lines ++ (step e rs).1) (lookup k (step e rs).0)
unfolding reset_tracking
step-Known k (reset j) lines rs known = rw (lookup-remove j k rs) (elim (Bool-cases (j == k)) [
  | inl e ↦ rw e tt
  | inr e ↦ rw e (Known-append k lines [] (lookup k rs) known)
])
step-Known k (log now j m l o) lines rs known =
    rw (log-lookup now j m l o k rs) (elim (Bool-cases (j == k)) [
      | inl e ↦ let same = (eq_iff j k).0 e in rw (e, same) (log-Known now k m l o lines rs known)
      | inr e ↦ rw e (Known-append k lines _ (lookup k rs) known)
    ])

run-Known :
    (k : String) (es : List Event) (lines : List Logged) (rs : ErrorRecords)
    → Known k lines (lookup k rs)
    → Known k (lines ++ (run es rs).1) (lookup k (run es rs).0)
run-Known k [] lines rs known = Known-append k lines [] (lookup k rs) known
run-Known k (e ∷ es) lines rs known =
    rw (← append_assoc lines (step e rs).1 (run es (step e rs).0).1)
      (run-Known k es (lines ++ (step e rs).1) (step e rs).0 (step-Known k e lines rs known))

-- After any sequence of throttled calls and resets, starting with no records: a call for a key logs a
-- line, or a line for the key was logged at a time from which less than one of the call's two intervals
-- has passed.
pub throttled_log-Heard :
    (es : List Event) (now : ℕ) (k m : String) (l : Level) (o : ThrottleOptions)
    → ((x : Line) × ((throttled_log now k m l o (run es []).0).1 ≡ some x))
      ⊎ ((t : ℕ) × Heard k t (run es []).1 × ((now < t + initial o) ⊎ (now < t + subsequent o)))
unfolding should_log counted
throttled_log-Heard es now k m l o =
    let rs = (run es []).0 in
    let known = run-Known k es [] [] tt in
    elim (Bool-cases (should_log now o (counted now k m rs))) [
      | inl h ↦ inl (
        record { level = l; text = log_message now m (counted now k m rs) },
        rw (log-line now k m l o rs, h) refl,
      )
      | inr h ↦ elim (Option-cases (lookup k rs)) [
        | inl e ↦ absurd (let logs = rw e at h in ground arith)
        | inr (r, e) ↦
            let old : Known k (run es []).1 (some r) = rw e at known in
            let quiet = rw e at h in inr (r.last_logged, old.1, grind arith)
      ]
    ]
