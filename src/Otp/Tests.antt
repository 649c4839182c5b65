-- ===== src/Otp/Tests.antt =====
-- Tests of mfa.ts, and its theorems at concrete inputs.
use dmp.Base.{
  ℕ, ◌+◌, ◌*◌, ◌/◌, ◌≤◌, ◌<◌, ◌≡◌, ◌↔◌, refl, true, false, some, [], ◌∷◌, arith, length, All,
}
use dmp.Base.Int.{pos, negsuc, ◌⊖◌, ◌+ℤ◌}
use dmp.Otp.{Otp, counter_bytes, verify_totp, generate_hotp}
use dmp.Otp.Counter.{from_bytes, counter_bytes-from_bytes}
use dmp.Otp.Verify.{verify_totp_iff}

-- A hash that gives the counter's bytes back, and a clock that stands.
abbrev echo : Otp
echo = record {
  decode = λ s. [];
  hmac = λ key message. message;
  parse_int = λ s. some 0;
  now = λ n. 30000;
}

bytes_of_1000 : counter_bytes 1000 ≡ 0 ∷ 0 ∷ 0 ∷ 0 ∷ 0 ∷ 0 ∷ 3 ∷ 232 ∷ []
unfolding counter_bytes
bytes_of_1000 = refl

-- A counter that a 32-bit word does not hold loses its upper half.
too_large : counter_bytes 4294967297 ≡ counter_bytes 1
unfolding counter_bytes
too_large = refl

accepted : verify_totp echo 0 "0" "" (pos 1) ≡ true
unfolding verify_totp ◌+ℤ◌
accepted = refl

counter_bytes-from_bytes_example :
    (from_bytes 0 (counter_bytes 1000) ≡ 1000)
    × (length (counter_bytes 1000) ≡ 8)
    × All (λ b. b < 256) (counter_bytes 1000)
counter_bytes-from_bytes_example = counter_bytes-from_bytes 1000 (omega arith)

-- In the clock's first step the window below it has the counter -1.
before_the_epoch : generate_hotp echo "" (negsuc 0) ≡ generate_hotp echo "" (pos 4294967295)
unfolding generate_hotp
before_the_epoch = refl

nothing_for_negative : verify_totp echo 0 "0" "" (negsuc 0) ≡ false
unfolding verify_totp
nothing_for_negative = refl

verify_totp_iff_example : (verify_totp echo 0 "0" "" (pos 1) ≡ true) ↔ (
    (n : ℕ) × (pos 1 ≡ pos n)
    × (n ≤ 10)
    × ((j : ℕ) × (j < 2 * n + 1)
        × (echo.parse_int "0" ≡ some (generate_hotp echo "" ((echo.now (0 + j) / 30000 + j) ⊖ n)))))
verify_totp_iff_example = verify_totp_iff echo 0 "0" "" (pos 1)
