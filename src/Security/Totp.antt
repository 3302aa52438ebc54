-- ===== src/Security/Totp.antt =====
-- The rows of backend/app/platform/security/totp.py, and the queries and assignments that its
-- operations make.
pub mod Codes
pub mod Enrollment
pub mod StepUp
pub mod Replay
pub mod Recovery
pub mod Disabling
mod Tests
use smart_ao_v.Base.{
  find, update_first, update_all, ℕ, ◌-◌, ◌+◌, ◌/◌, String, Bool, true, false, not, ◌&&◌, ◌||◌,
  Option, none, some, List, [], ◌∷◌, ◌++◌, map, ◌==◌, leb, ltb, str_eq, strip, text_length, is_some,
  if◌then◌else◌,
}
use smart_ao_v.Base.Result.{Result, ok, err}
use smart_ao_v.Base.Method.{Method, pure, ◌>>=◌, ◌>>◌, raise_if, gets, modify, lift, transaction}

pub data TotpError : Type 0 where
  identity_not_active totp_already_enabled totp_enrollment_not_pending : TotpError
  totp_enrollment_expired totp_code_invalid session_not_active : TotpError
  totp_not_enabled totp_secret_unavailable : TotpError
  -- `TypeError` of `hmac.compare_digest`, and `struct.error` of `struct.pack`
  not_ascii negative_counter : TotpError

-- The columns that the service reads or writes.
pub record IdentityRecord : Type 0 where
  pub id : ℕ
  pub lifecycle : String

pub record TotpFactorRecord : Type 0 where
  pub id : ℕ
  pub identity_id : ℕ
  pub encrypted_secret : String
  pub state : String
  pub created_at : ℕ
  pub expires_at : ℕ
  pub confirmed_at : Option ℕ
  pub last_used_step : Option ℕ

pub record TotpRecoveryCodeRecord : Type 0 where
  pub id : ℕ
  pub factor_id : ℕ
  pub code_hash : String
  pub created_at : ℕ
  pub used_at : Option ℕ

pub record AuthSessionRecord : Type 0 where
  pub id : ℕ
  pub identity_id : ℕ
  pub state : String
  pub auth_strength : String
  pub mfa_verified_at : Option ℕ

pub record Tables : Type 0 where
  pub identities : List IdentityRecord
  pub factors : List TotpFactorRecord
  pub codes : List TotpRecoveryCodeRecord
  pub sessions : List AuthSessionRecord

pub record TotpEnrollmentResult : Type 0 where
  pub factor_id : ℕ
  pub recovery_codes : List String
  pub expires_at : ℕ

pub record TotpVerificationResult : Type 0 where
  pub session_id : ℕ
  pub used_recovery_code : Bool
  pub verified_at : ℕ

-- What `begin_enrollment` draws or lets Fernet make: the encrypted secret, and the recovery codes with
-- the identifiers of their rows.
pub record Drawn : Type 0 where
  pub factor_id : ℕ
  pub encrypted_secret : String
  pub recovery_codes : List (ℕ × String)

-- `if x is None: raise e`
abbrev pub or_raise : {A : Type 0} → TotpError → Option A → Method TotpError Tables A
or_raise e none d = (err e, d)
or_raise e (some a) d = (ok a, d)

abbrev pub is_factor_of : ℕ → String → TotpFactorRecord → Bool
is_factor_of identity state f = f.identity_id == identity && str_eq f.state state

abbrev pub set_factor :
    (TotpFactorRecord → Bool)
    → (TotpFactorRecord → TotpFactorRecord)
    → Method TotpError Tables (Unit {0})
set_factor p f = modify (λ d. record d { factors = update_first p f d.factors })

abbrev pub set_session :
    (AuthSessionRecord → Bool) → ℕ → String → Method TotpError Tables (Unit {0})
set_session p now strength = modify (λ d. record d {
  sessions =
      update_first p (λ s. record s { mfa_verified_at = some now; auth_strength = strength })
        d.sessions;
})
