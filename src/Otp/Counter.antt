-- ===== src/Otp/Counter.antt =====
-- The bytes of the counter and the range of the codes (packages/itmat-cores/src/utils/mfa.ts).
use dmp.Base.{
  ℕ, zero, suc, ◌+◌, ◌*◌, ◌/◌, ◌%◌, ◌<◌, ◌≡◌, ◌∙◌, ap, List, [], ◌∷◌, arith, length, All,
}
use dmp.Otp.{shift_right, fill, counter_bytes}

-- The number whose digits in base 256 are the bytes, the most significant first.
abbrev pub from_bytes : ℕ → List ℕ → ℕ
from_bytes n [] = n
from_bytes n (b ∷ bs) = from_bytes (n * 256 + b) bs

shift_right-half : (n : ℕ) → n < 2147483648 → shift_right n ≡ n / 256
unfolding shift_right
shift_right-half n small = ground arith

-- 256 to the power of `k`
abbrev room : ℕ → ℕ
room zero = 1
room (suc k) = 256 * room k

fill-from_bytes :
    (k n : ℕ) (later : List ℕ)
    → n < 2147483648
    → n < room k
    → from_bytes 0 (fill k n later) ≡ from_bytes n later
unfolding fill
fill-from_bytes zero n later small fits = ap (λ m. from_bytes m later) (omega arith)
fill-from_bytes (suc k) n later small fits = rw (shift_right-half n small) (
    fill-from_bytes k (n / 256) (n % 256 ∷ later) (omega arith) (omega arith)
    ∙ ap (λ m. from_bytes m later) (omega arith))

fill-Bytes :
    (k n : ℕ) (later : List ℕ) → All (λ b. b < 256) later → All (λ b. b < 256) (fill k n later)
unfolding fill
fill-Bytes zero n later a = a
fill-Bytes (suc k) n later a = fill-Bytes k (shift_right n) (n % 256 ∷ later) (omega arith, a)

length-fill : (k n : ℕ) (later : List ℕ) → length (fill k n later) ≡ k + length later
unfolding fill
length-fill zero n later = omega arith
length-fill (suc k) n later = omega (arith, length-fill k (shift_right n) (n % 256 ∷ later))

-- Where the counter is below 2 to the power of 31, the buffer has 8 bytes, and as a number in base 256, the most
-- significant byte first, it is the counter.
pub counter_bytes-from_bytes :
    (counter : ℕ)
    → counter < 2147483648
    → (from_bytes 0 (counter_bytes counter) ≡ counter)
      × (length (counter_bytes counter) ≡ 8)
      × All (λ b. b < 256) (counter_bytes counter)
unfolding counter_bytes
counter_bytes-from_bytes counter small = (
  fill-from_bytes 8 counter [] small (omega (arith, small)),
  length-fill 8 counter [],
  fill-Bytes 8 counter [] tt,
)
