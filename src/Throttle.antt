-- ===== src/Throttle.antt =====
-- Throttled logging: packages/itmat-commons/src/utils/logThrottler.ts. Times and intervals are whole
-- milliseconds; a clock that runs backwards is allowed.
mod Tests
pub mod Events
pub mod Spaced
pub mod Counted
pub mod Heard
use Prim.Native.Char.{Char}
use Prim.Native.String.{String, ◌++◌}
use dmp.Base.Decimal.{decimal}
use dmp.Base.{
  ℕ, zero, suc, ◌+◌, ◌-◌, ◌/◌, ◌%◌, Bool, true, ◌&&◌, ◌||◌, Option, none, some, List, [], ◌∷◌, ltb,
  leb, eqb, if◌then◌else◌, get_or, lookup, insert, remove,
}

pub record ErrorRecord : Type 0 where
  pub count : ℕ
  pub last_logged : ℕ
  pub first_seen : ℕ
  pub message : String

pub data Level : Type 0 where
  error warn info : Level

-- `throttleOptions`, each of them optional.
pub record ThrottleOptions : Type 0 where
  pub initial_log_interval : Option ℕ
  pub subsequent_log_interval : Option ℕ
  pub max_occurrences : Option ℕ
  pub summarize_interval : Option ℕ

-- The options over their defaults.
abbrev pub initial : ThrottleOptions → ℕ
initial o = get_or o.initial_log_interval 60000

abbrev pub subsequent : ThrottleOptions → ℕ
subsequent o = get_or o.subsequent_log_interval 300000

abbrev pub most : ThrottleOptions → ℕ
most o = get_or o.max_occurrences 10

abbrev pub summarize : ThrottleOptions → ℕ
summarize o = get_or o.summarize_interval 1800000

-- What the logger is given.
pub record Line : Type 0 where
  pub level : Level
  pub text : String

abbrev pub ErrorRecords : Type 0
ErrorRecords = List (String × ErrorRecord)

-- `formatDuration` of a duration that is not negative.
unfoldable pub format_duration : ℕ → String
unfolding decimal
format_duration ms =
    let seconds = ms / 1000 in
    let minutes = seconds / 60 in
    let hours = minutes / 60 in
    if ltb 0 hours
    then decimal hours ++ "h " ++ decimal (minutes % 60) ++ "m"
    else if ltb 0 minutes
    then decimal minutes ++ "m " ++ decimal (seconds % 60) ++ "s"
    else decimal seconds ++ "s"

-- `formatDuration(now - firstSeen)`. `Math.floor` of a negative number of seconds goes away from zero.
unfoldable pub elapsed : ℕ → ℕ → String
unfolding format_duration
elapsed now first =
    if ltb now first
    then "-" ++ decimal ((first - now + 999) / 1000) ++ "s"
    else format_duration (now - first)

-- `shouldLog`, with the record's counter already incremented.
unfoldable pub should_log : ℕ → ThrottleOptions → ErrorRecord → Bool
should_log now o r =
    if eqb r.count 1
    then true
    else leb (r.last_logged + (if leb r.count (most o) then initial o else subsequent o)) now
      || (leb (r.first_seen + summarize o) now && leb (r.last_logged + summarize o) now)

-- `errorRecords.get(key) || { … }`, then `record.count++`
unfoldable pub counted : ℕ → String → String → ErrorRecords → ErrorRecord
counted now key message records =
    let fresh : ErrorRecord = record {
      count = 0;
      last_logged = 0;
      first_seen = now;
      message = message;
    } in
    let found = get_or (lookup key records) fresh in record found { count = found.count + 1 }

-- `logMessage`
unfoldable pub log_message : ℕ → String → ErrorRecord → String
unfolding elapsed
log_message now message r =
    if ltb 1 r.count
    then message
      ++ " (occurred "
      ++ decimal r.count
      ++ " times in the last "
      ++ elapsed now r.first_seen
      ++ ")"
    else message

-- `throttledLog`, where `Date.now()` answers `now`: the new records, and the line that is logged.
unfoldable pub throttled_log :
    ℕ → String → String → Level → ThrottleOptions → ErrorRecords → ErrorRecords × Option Line
unfolding should_log counted
throttled_log now key message level o records =
    let r = counted now key message records in
    if should_log now o r
    then (
      insert key (record r { last_logged = now }) records,
      some (record { level = level; text = log_message now message r }),
    )
    else (insert key r records, none)

-- `resetTracking`
unfoldable pub reset_tracking : String → ErrorRecords → ErrorRecords
reset_tracking key records = remove key records
