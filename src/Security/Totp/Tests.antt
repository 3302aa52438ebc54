-- ===== src/Security/Totp/Tests.antt =====
-- An identity with an active factor and two recovery codes, and the theorems at it.
use smart_ao_v.Security.Totp.Recovery.{call}
use smart_ao_v.Base.{find, strip}
use smart_ao_v.Base.{
  ℕ, ◌+◌, ◌≤◌, ◌≡◌, ◌⊎◌, ◌&&◌, refl, true, false, ◌||◌, none, some, List, [], ◌∷◌, arith, leb, ◌==◌,
  all, if◌then◌else◌,
}
use smart_ao_v.Base.Result.{ok, err}
use smart_ao_v.Security.Totp.{
  Tables, TotpFactorRecord, AuthSessionRecord, TotpRecoveryCodeRecord, totp_code_invalid,
  totp_enrollment_expired, session_not_active, totp_not_enabled, not_ascii,
}
use smart_ao_v.Security.Totp.Codes.{Crypto, matching_counter}
use smart_ao_v.Security.Totp.Enrollment.{confirm_enrollment}
use smart_ao_v.Security.Totp.StepUp.{
  verification, find_recovery_code, use_recovery_code, verify_step_up, disable,
}
use smart_ao_v.Security.Totp.Replay.{
  IsArmed, repeated_code_is_refused, alternating_codes_are_accepted,
}
use smart_ao_v.Security.Totp.Recovery.{
  Call, step_ups, disables, enrolls, calls, unused, issued_by, recoveries_are_bounded,
}
use smart_ao_v.Security.Totp.Disabling.{is_weak, disabled_blocks_step_up}

-- Stand-ins, for the run: counter 1 has the code 111111, and the others 222222.
abbrev crypto : Crypto
crypto = record {
  is_digit = λ c. leb 48 c && leb c 57 || leb 2406 c && leb c 2415;
  upper = λ s. s;
  sha256 = λ s. s;
  totp_code = λ s c. if c == 1 then "111111" else "222222";
  decrypt = some;
}

abbrev factor : TotpFactorRecord
factor = record {
  id = 1;
  identity_id = 9;
  encrypted_secret = "SEED";
  state = "ACTIVE";
  created_at = 0;
  expires_at = 600000000;
  confirmed_at = some 1;
  last_used_step = none;
}

abbrev browser : AuthSessionRecord
browser = record {
  id = 40;
  identity_id = 9;
  state = "ACTIVE";
  auth_strength = "PASSWORD";
  mfa_verified_at = none;
}

abbrev spare : TotpRecoveryCodeRecord
spare = record {
  id = 70;
  factor_id = 1;
  code_hash = "ABCD12345678";
  created_at = 0;
  used_at = none;
}

abbrev tables : Tables
tables = record {
  identities = record { id = 9; lifecycle = "ACTIVE" } ∷ [];
  factors = factor ∷ [];
  codes = spare ∷ [];
  sessions = browser ∷ [];
}

armed : IsArmed crypto 40 "SEED" tables browser factor
armed = record { session = refl; active = refl; factor = refl; readable = refl }

-- The time is in the period of counter 2.
abbrev noon : ℕ
noon = 60000000

current_code :
    matching_counter crypto.is_digit crypto.totp_code "SEED" " 222222 " noon ≡ ok (some 2)
unfolding matching_counter strip
current_code = refl

former_code : matching_counter crypto.is_digit crypto.totp_code "SEED" "111111" noon ≡ ok (some 1)
unfolding matching_counter strip
former_code = refl

-- Six digits that are not ASCII make the comparison raise.
foreign_digits :
    matching_counter crypto.is_digit crypto.totp_code "SEED" "१२३४५६" noon ≡ err not_ascii
unfolding matching_counter strip
foreign_digits = refl

no_recovery : find_recovery_code crypto 1 " 222222 " tables.codes ≡ none
unfolding find_recovery_code strip
no_recovery = refl

-- A recovery code is accepted with and without its hyphens, once.
recovery_once :
    (calls crypto
      (step_ups 40 "ABCD-1234-5678" noon ∷ step_ups 40 "ABCD12345678" noon ∷ [])
      tables).0
    ≡ 1
unfolding calls verify_step_up use_recovery_code call strip
recovery_once = refl

-- An expired enrolment is refused, and its factor is still pending.
expired_stays_pending :
    let d = record tables {
      factors = record factor { state = "PENDING"; confirmed_at = none } ∷ [];
    } in
    confirm_enrollment crypto 9 1 "222222" 600000000 none d ≡ (err totp_enrollment_expired, d)
unfolding confirm_enrollment
expired_stays_pending = refl

-- A browser that has stepped up.
abbrev stepped_up : Tables
stepped_up = record tables {
  sessions = record browser { auth_strength = "MFA_STEP_UP"; mfa_verified_at = some 59000000 } ∷ [];
}

disabled : (disable crypto 9 "222222" noon stepped_up).0 ≡ ok tt
unfolding disable strip
disabled = refl

weak_browser :
    find (λ b. b.id == 40) (disable crypto 9 "222222" noon stepped_up).1.sessions ≡ some browser
unfolding disable strip
weak_browser = refl

repeated_code_is_refused_example :
    let d' = (verify_step_up crypto 40 " 222222 " noon tables).1 in
    ((verify_step_up crypto 40 " 222222 " noon tables).0 ≡ ok (verification crypto 40 false noon))
    × (verify_step_up crypto 40 " 222222 " noon d' ≡ (err totp_code_invalid, d'))
repeated_code_is_refused_example =
    repeated_code_is_refused crypto 40 "SEED" tables browser factor " 222222 " noon noon 2 armed
      current_code current_code (λ q. ground (arith, q)) no_recovery

alternating_codes_are_accepted_example :
    let d' = (verify_step_up crypto 40 " 222222 " noon tables).1 in
    let d'' = (verify_step_up crypto 40 "111111" noon d').1 in
    ((verify_step_up crypto 40 " 222222 " noon tables).0 ≡ ok (verification crypto 40 false noon))
    × ((verify_step_up crypto 40 "111111" noon d').0 ≡ ok (verification crypto 40 false noon))
    × ((verify_step_up crypto 40 " 222222 " noon d'').0 ≡ ok (verification crypto 40 false noon))
alternating_codes_are_accepted_example =
    alternating_codes_are_accepted crypto 40 "SEED" tables browser factor " 222222 " "111111" noon 2
      1 armed current_code former_code (λ q. omega (arith, q)) (λ q. ground (arith, q))

abbrev visits : List Call
visits =
    step_ups 40 "ABCD-1234-5678" noon
    ∷ disables 9 "222222" noon
    ∷ enrolls 9
        (record { factor_id = 2; encrypted_secret = "NEW"; recovery_codes = (71, "EF") ∷ [] }) noon
    ∷ []

recoveries_are_bounded_example :
    (calls crypto visits tables).0 + unused (calls crypto visits tables).1.codes
    ≤ unused tables.codes + issued_by visits
recoveries_are_bounded_example = recoveries_are_bounded crypto visits tables

disabled_blocks_step_up_example :
    let d' = (disable crypto 9 "222222" noon stepped_up).1 in
    (all (is_weak 9) d'.sessions ≡ true)
    × (((verify_step_up crypto 40 "111111" noon d').0 ≡ err session_not_active)
        ⊎ ((verify_step_up crypto 40 "111111" noon d').0 ≡ err totp_not_enabled))
disabled_blocks_step_up_example =
    disabled_blocks_step_up crypto 9 "222222" "111111" noon noon 40 stepped_up browser (omega arith)
      disabled weak_browser refl
