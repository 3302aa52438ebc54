-- ===== src/Security/Totp/Disabling.antt =====
-- What `disable` of backend/app/platform/security/totp.py leaves.
use smart_ao_v.Base.{
  find, update_first, update_all, ℕ, ◌≤◌, ◌≡◌, ◌⊎◌, ◌==◌, refl, String, Bool, true, not, ◌&&◌, ◌||◌,
  none, some, List, [], ◌∷◌, arith, str_eq, length, filter, all, is_some, Option-cases, Bool-cases,
  inl, inr,
}
use smart_ao_v.Base.Result.{ok, err, Result-cases}
use smart_ao_v.Security.Totp.{
  Tables, TotpFactorRecord, AuthSessionRecord, session_not_active, totp_not_enabled, is_factor_of,
}
use smart_ao_v.Security.Totp.Codes.{Crypto, matching_counter}
use smart_ao_v.Security.Totp.StepUp.{verify_step_up, disable, find_recovery_code}

no_active :
    (identity : ℕ) (rows : List TotpFactorRecord)
    → length (filter (is_factor_of identity "ACTIVE") rows) ≡ 0
    → find (is_factor_of identity "ACTIVE") rows ≡ none
no_active identity [] h = refl
no_active identity (f ∷ rows) h = ground (arith, no_active identity rows)

-- The only active factor of an identity is active no more.
only_active :
    (identity : ℕ) (rows : List TotpFactorRecord)
    → length (filter (is_factor_of identity "ACTIVE") rows) ≤ 1
    → find
        (is_factor_of identity "ACTIVE")
        (update_first (is_factor_of identity "ACTIVE") (λ f. record f { state = "DISABLED" }) rows)
      ≡ none
only_active identity [] h = refl
only_active identity (f ∷ rows) h =
    ground (arith, only_active identity rows, no_active identity rows)

-- An active session of the identity rests on the password alone: its strength says so, and it has no
-- time at which a second factor was verified.
abbrev pub is_weak : ℕ → AuthSessionRecord → Bool
is_weak identity a =
    not (a.identity_id == identity && str_eq a.state "ACTIVE")
    || str_eq a.auth_strength "PASSWORD" && not (is_some a.mfa_verified_at)

abbrev is_hit : ℕ → AuthSessionRecord → Bool
is_hit identity a = a.identity_id == identity && str_eq a.state "ACTIVE"

all_weak :
    (identity : ℕ) (rows : List AuthSessionRecord)
    → all (is_weak identity) (
        update_all
          (is_hit identity)
          (λ a. record a { auth_strength = "PASSWORD"; mfa_verified_at = none })
          rows)
      ≡ true
all_weak identity [] = refl
all_weak identity (a ∷ rows) = elim (Bool-cases (is_hit identity a)) [
  | inl e ↦ rw (e, all_weak identity rows) (ground (arith, e))
  | inr e ↦ rw (e, all_weak identity rows) (ground (arith, e))
]

module _ (x : Crypto) where
  disable-eq-ok :
      (identity : ℕ) (s : String) (now : ℕ) (d : Tables)
      → (disable x identity s now d).0 ≡ ok tt
      → ((disable x identity s now d).1.factors
          ≡ update_first
              (is_factor_of identity "ACTIVE")
              (λ f. record f { state = "DISABLED" })
              d.factors)
        × ((disable x identity s now d).1.sessions
            ≡ update_all
                (is_hit identity)
                (λ a. record a { auth_strength = "PASSWORD"; mfa_verified_at = none })
                d.sessions)
  unfolding disable
  disable-eq-ok identity s now d h =
      elim (Option-cases (find (is_factor_of identity "ACTIVE") d.factors)) [
        | inl g ↦ ground (arith, g)
        | inr (f, g) ↦ elim (Option-cases (x.decrypt f.encrypted_secret)) [
          | inl n ↦ ground (arith, g, n)
          | inr (secret, n) ↦ ground (
            arith,
            g,
            n,
            Result-cases (matching_counter x.is_digit x.totp_code secret s now),
            Option-cases (find_recovery_code x f.id s d.codes),
          )
        ]
      ]

  not_enabled :
      (sid : ℕ) (s : String) (now : ℕ) (d : Tables) (a : AuthSessionRecord)
      → find (λ b. b.id == sid) d.sessions ≡ some a
      → find (is_factor_of a.identity_id "ACTIVE") d.factors ≡ none
      → ((verify_step_up x sid s now d).0 ≡ err session_not_active)
        ⊎ ((verify_step_up x sid s now d).0 ≡ err totp_not_enabled)
  unfolding verify_step_up
  not_enabled sid s now d a e n = elim (Bool-cases (str_eq a.state "ACTIVE")) [
    | inl f ↦ inr (ground (arith, e, n, f))
    | inr f ↦ inl (ground (arith, e, n, f))
  ]

  -- When an identity has at most one active factor, as the database ensures, and disables it, no
  -- active session of the identity has a strength above the password or a time of a second factor any
  -- more, and a step-up of any of its sessions is refused.
  pub disabled_blocks_step_up :
      (identity : ℕ) (s t : String) (now later sid : ℕ) (d : Tables) (a : AuthSessionRecord)
      → length (filter (is_factor_of identity "ACTIVE") d.factors) ≤ 1
      → (disable x identity s now d).0 ≡ ok tt
      → let d' = (disable x identity s now d).1 in
        find (λ b. b.id == sid) d'.sessions ≡ some a
        → a.identity_id ≡ identity
        → (all (is_weak identity) d'.sessions ≡ true)
          × (((verify_step_up x sid t later d').0 ≡ err session_not_active)
              ⊎ ((verify_step_up x sid t later d').0 ≡ err totp_not_enabled))
  disabled_blocks_step_up identity s t now later sid d a one o found same =
      let (factors, sessions) = disable-eq-ok identity s now d o in
      let d' = (disable x identity s now d).1 in
      let gone : find (is_factor_of a.identity_id "ACTIVE") d'.factors ≡ none =
        rw (same, factors) (only_active identity d.factors one) in
      (rw sessions (all_weak identity d.sessions), not_enabled sid t later d' a found gone)
