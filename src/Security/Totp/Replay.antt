-- ===== src/Security/Totp/Replay.antt =====
-- Which codes `verify_step_up` of backend/app/platform/security/totp.py accepts again.
use smart_ao_v.Base.{
  find, update_first, ℕ, ◌≡◌, ◌≢◌, refl, sym, String, false, none, some, arith, eq_iff, ==_iff,
  ◌==◌, Option-cases,
}
use smart_ao_v.Base.Result.{ok, err}
use smart_ao_v.Security.Totp.{
  totp_code_invalid, Tables, TotpFactorRecord, AuthSessionRecord, is_factor_of,
}
use smart_ao_v.Security.Totp.Codes.{Crypto, matching_counter}
use smart_ao_v.Security.Totp.StepUp.{verification, find_recovery_code, verify_step_up}
use smart_ao_v.Base.Rows.{find-holds, find-update_first}

-- The session is active, its identity has an active factor, and the secret
-- of the factor can be read.
pub record IsArmed (x : Crypto) (session_id : ℕ) (secret : String) (d : Tables)
    (a : AuthSessionRecord) (f : TotpFactorRecord) : Type 0 where
  pub session : find (λ s. s.id == session_id) d.sessions ≡ some a
  pub active : a.state ≡ "ACTIVE"
  pub factor : find (is_factor_of a.identity_id "ACTIVE") d.factors ≡ some f
  pub readable : x.decrypt f.encrypted_secret ≡ some secret

-- The rows after a code of a time step.
abbrev pub stepped_factor : TotpFactorRecord → ℕ → TotpFactorRecord
stepped_factor f c = record f { last_used_step = some c }

abbrev pub stepped_session : AuthSessionRecord → ℕ → AuthSessionRecord
stepped_session a now = record a { mfa_verified_at = some now; auth_strength = "MFA_STEP_UP" }

abbrev pub stepped : ℕ → ℕ → ℕ → ℕ → Tables → Tables
stepped session_id identity now c d = record d {
  factors = update_first (is_factor_of identity "ACTIVE") (λ g. stepped_factor g c) d.factors;
  sessions = update_first (λ s. s.id == session_id) (λ s. stepped_session s now) d.sessions;
}

some-injective : {m n : ℕ} → some m ≡ some n → m ≡ n
some-injective q = ground arith

module _ (x : Crypto) (session_id : ℕ) (secret : String) where
  -- A code of another counter than the last is accepted.
  fresh_code :
      (d : Tables) (a : AuthSessionRecord) (f : TotpFactorRecord) (s : String) (now c : ℕ)
      → IsArmed x session_id secret d a f
      → matching_counter x.is_digit x.totp_code secret s now ≡ ok (some c)
      → f.last_used_step ≢ some c
      → verify_step_up x session_id s now d
        ≡ (ok (verification x session_id false now), stepped session_id a.identity_id now c d)
  unfolding verify_step_up
  fresh_code d a f s now c k m n = ground (
    arith,
    k.session,
    k.active,
    k.factor,
    k.readable,
    m,
    n,
    eq_iff a.state "ACTIVE",
    Option-cases f.last_used_step,
  )

  stepped-IsArmed :
      (d : Tables) (a : AuthSessionRecord) (f : TotpFactorRecord) (now c : ℕ)
      → IsArmed x session_id secret d a f
      → IsArmed x session_id secret
          (stepped session_id a.identity_id now c d)
          (stepped_session a now)
          (stepped_factor f c)
  stepped-IsArmed d a f now c k = record {
    session =
        find-update_first (λ s. s.id == session_id) (λ s. s.id == session_id)
          (λ s. stepped_session s now) d.sessions a k.session k.session
          (find-holds (λ s. s.id == session_id) d.sessions a k.session);
    active = k.active;
    factor =
        find-update_first (is_factor_of a.identity_id "ACTIVE")
          (is_factor_of a.identity_id "ACTIVE") (λ g. stepped_factor g c) d.factors f k.factor
          k.factor (find-holds (is_factor_of a.identity_id "ACTIVE") d.factors f k.factor);
    readable = k.readable;
  }

  spent_code :
      (d : Tables) (a : AuthSessionRecord) (f : TotpFactorRecord) (s : String) (now c : ℕ)
      → IsArmed x session_id secret d a f
      → matching_counter x.is_digit x.totp_code secret s now ≡ ok (some c)
      → f.last_used_step ≡ some c
      → find_recovery_code x f.id s d.codes ≡ none
      → verify_step_up x session_id s now d ≡ (err totp_code_invalid, d)
  unfolding verify_step_up
  spent_code d a f s now c k m n r = ground (
    arith,
    k.session,
    k.active,
    k.factor,
    k.readable,
    m,
    n,
    r,
    eq_iff a.state "ACTIVE",
    ==_iff c c,
  )

  -- For an active session with an active factor: a code of another counter than the one used last is
  -- accepted, and then the same code is refused, and changes nothing, at every time at which it has
  -- the same counter, when it is no unused recovery code.
  pub repeated_code_is_refused :
      (d : Tables) (a : AuthSessionRecord) (f : TotpFactorRecord) (s : String) (now later c : ℕ)
      → IsArmed x session_id secret d a f
      → matching_counter x.is_digit x.totp_code secret s now ≡ ok (some c)
      → matching_counter x.is_digit x.totp_code secret s later ≡ ok (some c)
      → f.last_used_step ≢ some c
      → find_recovery_code x f.id s d.codes ≡ none
      → let d' = (verify_step_up x session_id s now d).1 in
        ((verify_step_up x session_id s now d).0 ≡ ok (verification x session_id false now))
        × (verify_step_up x session_id s later d' ≡ (err totp_code_invalid, d'))
  repeated_code_is_refused d a f s now later c k m m' n r =
      let first = fresh_code d a f s now c k m n in
      rw first (
        refl,
        spent_code (stepped session_id a.identity_id now c d) (stepped_session a now)
            (stepped_factor f c) s later c (stepped-IsArmed d a f now c k) m' refl r,
      )

  -- For an active session with an active factor: of two codes that have different counters at one
  -- time, the first of them not the counter used last, the first, the second, and the first again are all
  -- accepted.
  pub alternating_codes_are_accepted :
      (d : Tables) (a : AuthSessionRecord) (f : TotpFactorRecord) (s t : String) (now c e : ℕ)
      → IsArmed x session_id secret d a f
      → matching_counter x.is_digit x.totp_code secret s now ≡ ok (some c)
      → matching_counter x.is_digit x.totp_code secret t now ≡ ok (some e)
      → c ≢ e
      → f.last_used_step ≢ some c
      → let d' = (verify_step_up x session_id s now d).1 in
        let d'' = (verify_step_up x session_id t now d').1 in
        ((verify_step_up x session_id s now d).0 ≡ ok (verification x session_id false now))
        × ((verify_step_up x session_id t now d').0 ≡ ok (verification x session_id false now))
        × ((verify_step_up x session_id s now d'').0 ≡ ok (verification x session_id false now))
  alternating_codes_are_accepted d a f s t now c e k m m' ne n =
      let d' = stepped session_id a.identity_id now c d in
      let a' = stepped_session a now in
      let f' = stepped_factor f c in
      let k' = stepped-IsArmed d a f now c k in
      let first = fresh_code d a f s now c k m n in
      let second = fresh_code d' a' f' t now e k' m' (λ q. ne (some-injective q)) in
      let third =
        fresh_code (stepped session_id a.identity_id now e d') (stepped_session a' now)
          (stepped_factor f' e) s now c (stepped-IsArmed d' a' f' now e k') m
          (λ q. ne (sym (some-injective q))) in
      rw (first, second, third) (refl, refl, refl)
