-- ===== src/Security/Totp/Enrollment.antt =====
-- `begin_enrollment` and `confirm_enrollment` of backend/app/platform/security/totp.py. Each is one
-- transaction: when it raises, the rows are as they were.
use smart_ao_v.Base.{
  find, update_all, ℕ, ◌+◌, String, Bool, true, not, ◌&&◌, Option, none, some, List, [], ◌∷◌, ◌++◌,
  map, ◌==◌, leb, str_eq, is_some, if◌then◌else◌,
}
use smart_ao_v.Base.Result.{Result, ok, err}
use smart_ao_v.Base.Method.{Method, pure, ◌>>=◌, ◌>>◌, raise_if, gets, modify, lift, transaction}
use smart_ao_v.Security.Totp.{
  TotpError, identity_not_active, totp_already_enabled, totp_enrollment_not_pending,
  totp_enrollment_expired, totp_code_invalid, session_not_active, not_ascii, TotpFactorRecord,
  TotpRecoveryCodeRecord, AuthSessionRecord, Tables, TotpEnrollmentResult, Drawn, or_raise,
  is_factor_of, set_factor, set_session,
}
use smart_ao_v.Security.Totp.Codes.{Crypto, hash_recovery_code, matching_counter, decrypt_secret}

-- The rows of the recovery codes; the hash of one that is not ASCII raises.
abbrev pub code_rows :
    (String → Option String)
    → ℕ
    → ℕ
    → List (ℕ × String)
    → Result TotpError (List TotpRecoveryCodeRecord)
code_rows hash factor now [] = ok []
code_rows hash factor now ((id, c) ∷ codes) = elim (hash c) [
  | none ↦ err not_ascii
  | some h ↦ elim (code_rows hash factor now codes) [
    | err e ↦ err e
    | ok rows ↦ ok (
        record { id = id; factor_id = factor; code_hash = h; created_at = now; used_at = none }
        ∷ rows)
  ]
]

-- `if factor.expires_at <= current`: the factor is disabled, and the call raises.
abbrev pub expire_factor : (TotpFactorRecord → Bool) → ℕ → ℕ → Method TotpError Tables (Unit {0})
expire_factor is_it now expires_at =
    if leb expires_at now
    then set_factor is_it (λ f. record f { state = "DISABLED"; confirmed_at = some now })
      >> raise_if true totp_enrollment_expired
    else pure tt

module _ (x : Crypto) where
  open x use {is_digit, upper, sha256, totp_code, decrypt}

  -- `begin_enrollment`; the URI for the authenticator is left out of its result.
  unfoldable pub begin_enrollment : ℕ → Drawn → ℕ → Method TotpError Tables TotpEnrollmentResult
  unfolding hash_recovery_code
  begin_enrollment identity_id drawn now = transaction (do
    d ← gets (λ d. d)
    identity ← or_raise identity_not_active (find (λ i. i.id == identity_id) d.identities)
    raise_if (not (str_eq identity.lifecycle "ACTIVE")) identity_not_active
    raise_if (is_some (find (is_factor_of identity_id "ACTIVE") d.factors)) totp_already_enabled
    rows ←
        lift (code_rows (hash_recovery_code upper sha256) drawn.factor_id now drawn.recovery_codes)
    modify (λ d. record d {
      factors =
          update_all (is_factor_of identity_id "PENDING")
            (λ f. record f { state = "DISABLED"; confirmed_at = some now }) d.factors
          ++ record {
            id = drawn.factor_id;
            identity_id = identity_id;
            encrypted_secret = drawn.encrypted_secret;
            state = "PENDING";
            created_at = now;
            expires_at = now + 600000000;
            confirmed_at = none;
            last_used_step = none;
          }
            ∷ [];
      codes = d.codes ++ rows;
    })
    pure (record {
      factor_id = drawn.factor_id;
      recovery_codes = map (λ c. c.1) drawn.recovery_codes;
      expires_at = now + 600000000;
    }))

  -- The session that a confirmation makes strong, when it names one.
  abbrev pub strengthen : ℕ → ℕ → Option ℕ → Method TotpError Tables (Unit {0})
  strengthen identity_id now none = pure tt
  strengthen identity_id now (some sid) = do
    d ← gets (λ d. d)
    let is_it = λ (s : AuthSessionRecord).
        s.id == sid && s.identity_id == identity_id && str_eq s.state "ACTIVE"
    s ← or_raise session_not_active (find is_it d.sessions)
    set_session is_it now "MFA"

  -- `confirm_enrollment`
  unfoldable pub confirm_enrollment : ℕ → ℕ → String → ℕ → Option ℕ → Method TotpError Tables ℕ
  unfolding matching_counter
  confirm_enrollment identity_id factor_id s now session_id = transaction (do
    d ← gets (λ d. d)
    let is_it = λ (f : TotpFactorRecord). f.id == factor_id && f.identity_id == identity_id
    f ← or_raise totp_enrollment_not_pending (find is_it d.factors)
    raise_if (not (str_eq f.state "PENDING")) totp_enrollment_not_pending
    expire_factor is_it now f.expires_at
    secret ← decrypt_secret x f.encrypted_secret
    matched ← lift (matching_counter is_digit totp_code secret s now)
    counter ← or_raise totp_code_invalid matched
    set_factor is_it
        (λ f. record f { state = "ACTIVE"; confirmed_at = some now; last_used_step = some counter })
    strengthen identity_id now session_id
    pure now)
