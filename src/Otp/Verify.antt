-- ===== src/Otp/Verify.antt =====
-- Which tokens are accepted (verifyTOTP of packages/itmat-cores/src/utils/mfa.ts).
use dmp.Base.{
  ℕ, zero, suc, ◌+◌, ◌*◌, ◌/◌, ◌≤◌, ◌<◌, ◌≡◌, ◌∙◌, ◌↔◌, refl, ap, subst, String, true, false, some,
  arith, Bool-cases, inl, inr, ltb, Option, none,
}
use dmp.Base.Int.{ℤ, pos, negsuc, ◌⊖◌, next-⊖, add-⊖}
use dmp.Otp.{Otp, generate_hotp, generate_totp, try_windows, verify_totp, is_code}

is_code-true : (p : Option ℕ) (n : ℕ) → is_code p n ≡ true → p ≡ some n
is_code-true none n h = absurd (ground arith)
is_code-true (some m) n h = ground arith

is_code-some : (n : ℕ) → is_code (some n) n ≡ true
is_code-some n = ground arith

module _ (o : Otp) (token secret : String) (n : ℕ) where
  -- The token is the code, by the clock at its reading `tick`, of the window `k - n`.
  abbrev pub IsCode : ℕ → ℕ → Type 0
  IsCode tick k = o.parse_int token ≡ some (generate_hotp o secret ((o.now tick / 30000 + k) ⊖ n))

  generate_totp-⊖ :
      (tick k : ℕ)
      → generate_totp o tick secret (k ⊖ n) ≡ generate_hotp o secret ((o.now tick / 30000 + k) ⊖ n)
  unfolding generate_totp
  generate_totp-⊖ tick k = ap (λ c. generate_hotp o secret c) (add-⊖ (o.now tick / 30000) k n)

  moved : {a b c d : ℕ} → a ≡ b → c ≡ d → IsCode a c → IsCode b d
  moved {a} {b} {c} {d} clock shift h =
      subst (λ t. IsCode t d) clock (subst (λ k. IsCode a k) shift h)

  try_windows-IsCode :
      (rounds tick k : ℕ)
      → try_windows o tick token secret (k ⊖ n) rounds ≡ true
      → (j : ℕ) × (j < rounds) × IsCode (tick + j) (k + j)
  unfolding try_windows
  try_windows-IsCode zero tick k h = absurd (ground arith)
  try_windows-IsCode (suc rounds) tick k h =
      elim (Bool-cases (is_code (o.parse_int token) (generate_totp o tick secret (k ⊖ n)))) [
        | inl e ↦ (
          0,
          omega arith,
          moved (omega arith) (omega arith)
              (is_code-true (o.parse_int token) _ e ∙ ap some (generate_totp-⊖ tick k)),
        )
        | inr e ↦
            let (j, below, hit) =
              try_windows-IsCode rounds (suc tick) (suc k) (rw (e, next-⊖ k n) at h) in
            (suc j, omega (arith, below), moved (omega arith) (omega arith) hit)
      ]

  IsCode-try_windows :
      (rounds tick k j : ℕ)
      → j < rounds
      → IsCode (tick + j) (k + j)
      → try_windows o tick token secret (k ⊖ n) rounds ≡ true
  unfolding try_windows
  IsCode-try_windows zero tick k j below hit = absurd (omega (arith, below))
  IsCode-try_windows (suc rounds) tick k zero below hit =
      let now : IsCode tick k = moved (omega arith) (omega arith) hit in
      rw (now, generate_totp-⊖ tick k, is_code-some) refl
  IsCode-try_windows (suc rounds) tick k (suc j) below hit =
      elim (Bool-cases (is_code (o.parse_int token) (generate_totp o tick secret (k ⊖ n)))) [
        | inl e ↦ rw e refl
        | inr e ↦
            let later : IsCode (suc tick + j) (suc k + j) = moved (omega arith) (omega arith) hit in
            rw (e, next-⊖ k n)
              (IsCode-try_windows rounds (suc tick) (suc k) j (omega (arith, below)) later)
      ]

-- A token is accepted exactly where the window is one of 0 to 10 and the token is, as a number, the code of
-- one of the counters from the window below the clock's step of 30 seconds to the window above it: the
-- code of the step plus `j - n` for a `j` from 0 to `2 n`, where `n` is the window and the clock is read anew for
-- each `j`. With a negative window no token is accepted.
pub verify_totp_iff :
    (o : Otp) (tick : ℕ) (token secret : String) (window : ℤ)
    → (verify_totp o tick token secret window ≡ true) ↔ (
        (n : ℕ) × (window ≡ pos n)
        × (n ≤ 10)
        × ((j : ℕ) × (j < 2 * n + 1)
            × (o.parse_int token
                ≡ some (generate_hotp o secret ((o.now (tick + j) / 30000 + j) ⊖ n)))))
unfolding verify_totp
verify_totp_iff o tick token secret (negsuc n) =
    (λ h. absurd (ground arith), λ (m, same, _, _). absurd (ground arith))
verify_totp_iff o tick token secret (pos n) = (
  λ h. elim (Bool-cases (ltb 10 (n + 0))) [
    | inl e ↦ absurd (ground arith)
    | inr e ↦
        let (j, below, hit) = try_windows-IsCode o token secret n (2 * n + 1) tick 0 (rw e at h) in
        (n, refl, ground arith, (j, below, moved o token secret n refl (omega arith) hit))
  ],
  λ (m, same, small, (j, below, hit)).
      let equal : m ≡ n = ground arith in
      let open_gate : ltb 10 (n + 0) ≡ false = ground arith in
      let hit_n : IsCode o token secret n (tick + j) (0 + j) =
        moved o token secret n refl (omega arith)
          (subst (λ i. IsCode o token secret i (tick + j) j) equal hit) in
      rw open_gate (IsCode-try_windows o token secret n (2 * n + 1) tick 0 j (omega arith) hit_n),
)
