-- ===== src/Security/Totp/StepUp.antt =====
-- `verify_step_up` and `disable` of backend/app/platform/security/totp.py. Each is one transaction:
-- when it raises, the rows are as they were.
use smart_ao_v.Base.{
  find, update_first, update_all, ℕ, String, Bool, true, false, not, ◌&&◌, Option, none, some, List,
  ◌==◌, str_eq, is_some, if◌then◌else◌,
}
use smart_ao_v.Base.Method.{Method, pure, ◌>>=◌, ◌>>◌, raise_if, gets, modify, lift, transaction}
use smart_ao_v.Security.Totp.{
  TotpError, totp_code_invalid, session_not_active, totp_not_enabled, TotpFactorRecord,
  TotpRecoveryCodeRecord, Tables, TotpVerificationResult, or_raise, is_factor_of, set_factor,
  set_session,
}
use smart_ao_v.Security.Totp.Codes.{Crypto, hash_recovery_code, matching_counter, decrypt_secret}

module _ (x : Crypto) where
  open x use {is_digit, upper, sha256, totp_code, decrypt}

  -- Whether a row is an unused code of the factor with the hash.
  abbrev pub is_unused : ℕ → String → TotpRecoveryCodeRecord → Bool
  is_unused factor h r = r.factor_id == factor && str_eq r.code_hash h && not (is_some r.used_at)

  -- `_find_recovery_code`
  unfoldable pub find_recovery_code :
      ℕ → String → List TotpRecoveryCodeRecord → Option TotpRecoveryCodeRecord
  unfolding hash_recovery_code
  find_recovery_code factor s codes = elim (hash_recovery_code upper sha256 s) [
    | none ↦ none
    | some h ↦ find (is_unused factor h) codes
  ]

  -- `recovery.used_at = current`, on the row that was found
  unfoldable pub spend : ℕ → String → ℕ → List TotpRecoveryCodeRecord → List TotpRecoveryCodeRecord
  unfolding hash_recovery_code
  spend factor s now codes = elim (hash_recovery_code upper sha256 s) [
    | none ↦ codes
    | some h ↦ update_first (is_unused factor h) (λ r. record r { used_at = some now }) codes
  ]

  -- A recovery code is accepted once.
  unfoldable pub use_recovery_code : ℕ → String → ℕ → Method TotpError Tables (Unit {0})
  unfolding find_recovery_code spend
  use_recovery_code factor s now = do
    d ← gets (λ d. d)
    r ← or_raise totp_code_invalid (find_recovery_code factor s d.codes)
    modify (λ d. record d { codes = spend factor s now d.codes })

  -- `if counter is not None and factor.last_used_step == counter: counter = None`
  abbrev pub unless_used : Option ℕ → Option ℕ → Option ℕ
  unless_used none last = none
  unless_used (some c) none = some c
  unless_used (some c) (some l) = if l == c then none else some c

  abbrev pub verification : ℕ → Bool → ℕ → TotpVerificationResult
  verification session_id recovery now = record {
    session_id = session_id;
    used_recovery_code = recovery;
    verified_at = now;
  }

  -- The part of `verify_step_up` after the counter is known.
  abbrev pub accept_code :
      ℕ
      → ℕ
      → TotpFactorRecord
      → String
      → ℕ
      → Option ℕ
      → Method TotpError Tables TotpVerificationResult
  accept_code session_id identity_id f s now (some c) = do
    set_factor (is_factor_of identity_id "ACTIVE") (λ g. record g { last_used_step = some c })
    set_session (λ a. a.id == session_id) now "MFA_STEP_UP"
    pure (verification session_id false now)
  accept_code session_id identity_id f s now none = do
    use_recovery_code f.id s now
    set_session (λ a. a.id == session_id) now "MFA_STEP_UP"
    pure (verification session_id true now)

  -- `verify_step_up`
  unfoldable pub verify_step_up : ℕ → String → ℕ → Method TotpError Tables TotpVerificationResult
  unfolding matching_counter use_recovery_code
  verify_step_up session_id s now = transaction (do
    d ← gets (λ d. d)
    a ← or_raise session_not_active (find (λ a. a.id == session_id) d.sessions)
    raise_if (not (str_eq a.state "ACTIVE")) session_not_active
    f ← or_raise totp_not_enabled (find (is_factor_of a.identity_id "ACTIVE") d.factors)
    secret ← decrypt_secret x f.encrypted_secret
    matched ← lift (matching_counter is_digit totp_code secret s now)
    accept_code session_id a.identity_id f s now (unless_used matched f.last_used_step))

  -- `disable`: a code of a time step is looked at, and not recorded.
  abbrev pub check_code :
      TotpFactorRecord → String → ℕ → Option ℕ → Method TotpError Tables (Unit {0})
  check_code f s now (some c) = pure tt
  check_code f s now none = use_recovery_code f.id s now

  unfoldable pub disable : ℕ → String → ℕ → Method TotpError Tables (Unit {0})
  unfolding matching_counter use_recovery_code
  disable identity_id s now = transaction (do
    d ← gets (λ d. d)
    f ← or_raise totp_not_enabled (find (is_factor_of identity_id "ACTIVE") d.factors)
    secret ← decrypt_secret x f.encrypted_secret
    matched ← lift (matching_counter is_digit totp_code secret s now)
    check_code f s now (unless_used matched f.last_used_step)
    set_factor (is_factor_of identity_id "ACTIVE") (λ g. record g { state = "DISABLED" })
    modify (λ d. record d {
      sessions =
          update_all (λ a. a.identity_id == identity_id && str_eq a.state "ACTIVE")
            (λ a. record a { auth_strength = "PASSWORD"; mfa_verified_at = none }) d.sessions;
    }))
