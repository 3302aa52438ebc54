-- ===== src/Security/Totp/Recovery.antt =====
-- Recovery codes through sequences of calls of backend/app/platform/security/totp.py.
use smart_ao_v.Base.{
  find, update_first, ℕ, ◌+◌, ◌≤◌, ◌≡◌, ◌⊎◌, ◌==◌, String, true, false, not, Option, none, some,
  List, [], ◌∷◌, ◌++◌, arith, length, filter, is_some, Option-cases, inl, inr,
}
use smart_ao_v.Base.Result.{Result, ok, err, Result-cases}
use smart_ao_v.Security.Totp.{
  TotpError, Tables, TotpRecoveryCodeRecord, TotpVerificationResult, Drawn, is_factor_of,
}
use smart_ao_v.Security.Totp.Codes.{Crypto, matching_counter, hash_recovery_code}
use smart_ao_v.Security.Totp.Enrollment.{code_rows, begin_enrollment, confirm_enrollment}
use smart_ao_v.Security.Totp.StepUp.{
  is_unused, find_recovery_code, spend, use_recovery_code, verify_step_up, disable,
}

-- The number of recovery codes that have not been used.
abbrev pub unused : List TotpRecoveryCodeRecord → ℕ
unused codes = length (filter (λ r. not (is_some r.used_at)) codes)

unused-append : (xs ys : List TotpRecoveryCodeRecord) → unused (xs ++ ys) ≡ unused xs + unused ys
unused-append [] ys = omega arith
unused-append (r ∷ xs) ys = ground (arith, unused-append xs ys)

unused-rows :
    (hash : String → Option String) (factor now : ℕ) (codes : List (ℕ × String))
    (rows : List TotpRecoveryCodeRecord)
    → code_rows hash factor now codes ≡ ok rows
    → unused rows ≤ length codes
unused-rows hash factor now [] rows h = ground (arith, h)
unused-rows hash factor now ((id, c) ∷ codes) rows h = elim (Option-cases (hash c)) [
  | inl e ↦ ground (arith, e, h)
  | inr (k, e) ↦ elim (Result-cases (code_rows hash factor now codes)) [
    | inr (er, f) ↦ ground (arith, e, f, h)
    | inl (rest, f) ↦ ground (arith, e, f, h, unused-rows hash factor now codes rest f)
  ]
]

-- A call, and the number of recovery codes that it may issue.
pub data Call : Type 0 where
  step_ups disables : ℕ → String → ℕ → Call
  confirms : ℕ → ℕ → String → ℕ → Option ℕ → Call
  enrolls : ℕ → Drawn → ℕ → Call

abbrev pub issued : Call → ℕ
issued (step_ups sid s now) = 0
issued (disables identity s now) = 0
issued (confirms identity factor s now sid) = 0
issued (enrolls identity drawn now) = length drawn.recovery_codes

abbrev pub issued_by : List Call → ℕ
issued_by [] = 0
issued_by (c ∷ cs) = issued c + issued_by cs

module _ (x : Crypto) where
  unused-update :
      (factor : ℕ) (h : String) (now : ℕ) (codes : List TotpRecoveryCodeRecord)
      (r : TotpRecoveryCodeRecord)
      → find (is_unused x factor h) codes ≡ some r
      → unused (update_first (is_unused x factor h) (λ r. record r { used_at = some now }) codes)
          + 1
        ≡ unused codes
  unused-update factor h now [] r e = ground arith
  unused-update factor h now (c ∷ codes) r e = ground (arith, unused-update factor h now codes r)

  -- A code that is found and spent is one unused code fewer.
  unused-spend :
      (factor : ℕ) (s : String) (now : ℕ) (codes : List TotpRecoveryCodeRecord)
      (r : TotpRecoveryCodeRecord)
      → find_recovery_code x factor s codes ≡ some r
      → unused (spend x factor s now codes) + 1 ≡ unused codes
  unfolding find_recovery_code spend
  unused-spend factor s now codes r e =
      elim (Option-cases (hash_recovery_code x.upper x.sha256 s)) [
        | inl n ↦ ground (arith, n, e)
        | inr (h, n) ↦ ground (arith, n, e, unused-update factor h now codes r)
      ]

  unused-find :
      (factor : ℕ) (s : String) (now : ℕ) (codes : List TotpRecoveryCodeRecord)
      → (find_recovery_code x factor s codes ≡ none)
        ⊎ ((r : TotpRecoveryCodeRecord) × (find_recovery_code x factor s codes ≡ some r)
            × (unused (spend x factor s now codes) + 1 ≡ unused codes))
  unused-find factor s now codes = elim (Option-cases (find_recovery_code x factor s codes)) [
    | inl e ↦ inl e
    | inr (r, e) ↦ inr (r, e, unused-spend factor s now codes r e)
  ]

  -- `used_recovery_code` of a result, as a number.
  abbrev pub recoveries : Result TotpError TotpVerificationResult → ℕ
  recoveries (ok r) = elim r.used_recovery_code [ true ↦ 1 | false ↦ 0 ]
  recoveries (err e) = 0

  step_up-unused :
      (session_id : ℕ) (s : String) (now : ℕ) (d : Tables)
      → recoveries (verify_step_up x session_id s now d).0
          + unused (verify_step_up x session_id s now d).1.codes
        ≡ unused d.codes
  unfolding verify_step_up use_recovery_code
  step_up-unused session_id s now d =
      elim (Option-cases (find (λ a. a.id == session_id) d.sessions)) [
        | inl e ↦ ground (arith, e)
        | inr (a, e) ↦ elim (Option-cases (find (is_factor_of a.identity_id "ACTIVE") d.factors)) [
          | inl g ↦ ground (arith, e, g)
          | inr (f, g) ↦ elim (Option-cases (x.decrypt f.encrypted_secret)) [
            | inl n ↦ ground (arith, e, g, n)
            | inr (secret, n) ↦ ground (
              arith,
              e,
              g,
              n,
              Result-cases (matching_counter x.is_digit x.totp_code secret s now),
              unused-find f.id s now d.codes,
            )
          ]
        ]
      ]

  disable-unused :
      (identity : ℕ) (s : String) (now : ℕ) (d : Tables)
      → unused (disable x identity s now d).1.codes ≤ unused d.codes
  unfolding disable use_recovery_code
  disable-unused identity s now d =
      elim (Option-cases (find (is_factor_of identity "ACTIVE") d.factors)) [
        | inl g ↦ ground (arith, g)
        | inr (f, g) ↦ elim (Option-cases (x.decrypt f.encrypted_secret)) [
          | inl n ↦ ground (arith, g, n)
          | inr (secret, n) ↦ ground (
            arith,
            g,
            n,
            Result-cases (matching_counter x.is_digit x.totp_code secret s now),
            unused-find f.id s now d.codes,
          )
        ]
      ]

  confirm-unused :
      (identity factor : ℕ) (s : String) (now : ℕ) (sid : Option ℕ) (d : Tables)
      → (confirm_enrollment x identity factor s now sid d).1.codes ≡ d.codes
  unfolding confirm_enrollment
  confirm-unused identity factor s now sid d = ground arith

  enroll-unused :
      (identity : ℕ) (drawn : Drawn) (now : ℕ) (d : Tables)
      → unused (begin_enrollment x identity drawn now d).1.codes
        ≤ unused d.codes + length drawn.recovery_codes
  unfolding begin_enrollment
  enroll-unused identity drawn now d =
      elim (Result-cases (
        code_rows (hash_recovery_code x.upper x.sha256) drawn.factor_id now drawn.recovery_codes)) [
          | inr (e, f) ↦ ground (arith, f)
          | inl (rows, f) ↦
              let within =
                unused-rows (hash_recovery_code x.upper x.sha256) drawn.factor_id now
                  drawn.recovery_codes rows f in
              ground (arith, f, within, unused-append d.codes rows)
        ]

  -- The rows after a call, and how many sessions it has made strong by a recovery code.
  unfoldable pub call : Call → Tables → ℕ × Tables
  call (step_ups sid s now) d = let (r, d') = verify_step_up x sid s now d in (recoveries r, d')
  call (disables identity s now) d = (0, (disable x identity s now d).1)
  call (confirms identity factor s now sid) d =
      (0, (confirm_enrollment x identity factor s now sid d).1)
  call (enrolls identity drawn now) d = (0, (begin_enrollment x identity drawn now d).1)

  unfoldable pub calls : List Call → Tables → ℕ × Tables
  calls [] d = (0, d)
  calls (c ∷ cs) d = let (n, d') = call c d in let (m, d'') = calls cs d' in (n + m, d'')

  call-unused :
      (c : Call) (d : Tables) → (call c d).0 + unused (call c d).1.codes ≤ unused d.codes + issued c
  unfolding call
  call-unused (step_ups sid s now) d = omega (arith, step_up-unused sid s now d)
  call-unused (disables identity s now) d = omega (arith, disable-unused identity s now d)
  call-unused (confirms identity factor s now sid) d =
      rw (confirm-unused identity factor s now sid d) (omega arith)
  call-unused (enrolls identity drawn now) d = omega (arith, enroll-unused identity drawn now d)

  -- In every sequence of calls, refused ones included, the step-ups that a recovery code makes and
  -- the codes left unused are at most the codes unused at first and those of the enrolments.
  pub recoveries_are_bounded :
      (cs : List Call) (d : Tables)
      → (calls cs d).0 + unused (calls cs d).1.codes ≤ unused d.codes + issued_by cs
  unfolding calls
  recoveries_are_bounded [] d = omega arith
  recoveries_are_bounded (c ∷ cs) d =
      omega (arith, call-unused c d, recoveries_are_bounded cs (call c d).1)
