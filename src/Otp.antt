-- ===== src/Otp.antt =====
-- One-time passwords: packages/itmat-cores/src/utils/mfa.ts.
pub mod Counter
pub mod Verify
mod Tests
use dmp.Base.{
  ℕ, zero, suc, ◌+◌, ◌-◌, ◌*◌, ◌/◌, ◌%◌, String, Bool, true, false, ◌||◌, Option, none, some, List,
  [], ◌∷◌, get_elem?, length, get_or, ltb, eqb, if◌then◌else◌,
}
use dmp.Base.Int.{ℤ, pos, negsuc, ◌+ℤ◌, word_of, magnitude, negated}

-- What the program does not implement: the bytes of a secret in base 32, HMAC-SHA-1, `parseInt`, none where
-- it is not a number, and the n-th answer of `Date.now()`.
pub record Otp : Type 0 where
  pub decode : String → List ℕ
  pub hmac : List ℕ → List ℕ → List ℕ
  pub parse_int : String → Option ℕ
  pub now : ℕ → ℕ

-- `n >> 8` on 32 bits in two's complement, as the 32-bit word that stands for the result.
unfoldable pub shift_right : ℕ → ℕ
shift_right n =
    let word = n % 4294967296 in if ltb word 2147483648 then word / 256 else word / 256 + 4278190080

-- The loop that fills the buffer of 8 bytes from its end: its last `k` bytes, before the bytes `later`.
unfoldable pub fill : ℕ → ℕ → List ℕ → List ℕ
unfolding shift_right
fill zero counter later = later
fill (suc k) counter later = fill k (shift_right counter) (counter % 256 ∷ later)

unfoldable pub counter_bytes : ℕ → List ℕ
unfolding fill
counter_bytes counter = fill 8 counter []

-- `hmacValue[i]`; out of range it is undefined, which the operators on bits read as 0.
abbrev pub byte : List ℕ → ℕ → ℕ
byte bytes i = get_or (get_elem? bytes i) 0

-- `dynamicTruncationFn`; the four parts have no bit in common, so that `|` is a sum.
unfoldable pub dynamic_truncation : List ℕ → ℕ
dynamic_truncation hmac_value =
    let offset = byte hmac_value (length hmac_value - 1) % 16 in
    byte hmac_value offset % 128 * 16777216
    + byte hmac_value (offset + 1) % 256 * 65536
    + byte hmac_value (offset + 2) % 256 * 256
    + byte hmac_value (offset + 3) % 256

-- `generateHOTP`; the operators on bits read the counter as a 32-bit word.
unfoldable pub generate_hotp : Otp → String → ℤ → ℕ
unfolding counter_bytes dynamic_truncation
generate_hotp o secret counter =
    dynamic_truncation (o.hmac (o.decode secret) (counter_bytes (word_of counter))) % 1000000

-- `generateTOTP` at the n-th reading of the clock, for a window that may be negative.
unfoldable pub generate_totp : Otp → ℕ → String → ℤ → ℕ
unfolding generate_hotp
generate_totp o tick secret window = generate_hotp o secret (pos (o.now tick / 30000) +ℤ window)

abbrev pub is_code : Option ℕ → ℕ → Bool
is_code none totp = false
is_code (some n) totp = eqb n totp

-- The loop of `verifyTOTP`: `rounds` rounds from `error_window` on, each of which reads the clock.
unfoldable pub try_windows : Otp → ℕ → String → String → ℤ → ℕ → Bool
unfolding generate_totp
try_windows o tick token secret error_window zero = false
try_windows o tick token secret error_window (suc rounds) =
    let rest = try_windows o (suc tick) token secret (error_window +ℤ pos 1) rounds in
    if is_code (o.parse_int token) (generate_totp o tick secret error_window) then true else rest

-- How often `errorWindow <= +window` holds from `-window` on.
abbrev pub rounds_of : ℤ → ℕ
rounds_of (pos n) = 2 * n + 1
rounds_of (negsuc n) = 0

-- `verifyTOTP`
unfoldable pub verify_totp : Otp → ℕ → String → String → ℤ → Bool
unfolding try_windows
verify_totp o tick token secret window =
    if ltb 10 (magnitude window)
    then false
    else try_windows o tick token secret (negated window) (rounds_of window)
