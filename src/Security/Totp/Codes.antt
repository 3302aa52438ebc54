-- ===== src/Security/Totp/Codes.antt =====
-- The codes of backend/app/platform/security/totp.py: which counter a code belongs to, and the hash
-- of a recovery code. `str.isdigit`, `str.upper`, SHA-256, Fernet and the code of a counter are
-- parameters.
use smart_ao_v.Base.{
  ℕ, ◌-◌, ◌+◌, ◌/◌, String, Bool, true, not, ◌&&◌, ◌||◌, Option, none, some, List, [], ◌∷◌, ◌==◌,
  ltb, str_eq, strip, text_length, if◌then◌else◌,
}
use smart_ao_v.Base.Result.{Result, ok, err}
use smart_ao_v.Base.Method.{Method}
use smart_ao_v.Security.Totp.{
  TotpError, totp_secret_unavailable, not_ascii, negative_counter, Tables, or_raise,
}
use Prim.Native.Char.{code}

-- The parameters: what `str`, HMAC, SHA-256 and Fernet compute.
pub record Crypto : Type 0 where
  pub is_digit : ℕ → Bool
  pub upper : String → String
  pub sha256 : String → String
  pub totp_code : String → ℕ → String
  pub decrypt : String → Option String

abbrev pub all_code_points : (ℕ → Bool) → String → Bool
all_code_points p String.[] = true
all_code_points p (String.◌∷◌ c s) = p (code c) && all_code_points p s

-- `s.isdigit()`, over the test of one code point
abbrev pub is_digits : (ℕ → Bool) → String → Bool
is_digits is_digit s = not (text_length s == 0) && all_code_points is_digit s

-- Whether `s.encode("ascii")` returns.
abbrev pub is_ascii : String → Bool
is_ascii s = all_code_points (λ c. ltb c 128) s

-- `s.replace("-", "")`
unfoldable pub remove_hyphens : String → String
remove_hyphens String.[] = String.[]
remove_hyphens (String.◌∷◌ c s) =
    let rest = remove_hyphens s in if code c == b'-' then rest else String.◌∷◌ c rest

-- `_hash_recovery_code`, where a text that is not ASCII raises
unfoldable pub hash_recovery_code : (String → String) → (String → String) → String → Option String
unfolding remove_hyphens
hash_recovery_code upper sha256 s =
    let normalized = upper (strip (remove_hyphens s)) in
    if is_ascii normalized then some (sha256 normalized) else none

module _ (is_digit : ℕ → Bool) (totp_code : String → ℕ → String) where
  -- The loop of `_matching_counter` over the candidates.
  abbrev pub first_match : String → String → List ℕ → Option ℕ
  first_match secret normalized [] = none
  first_match secret normalized (c ∷ candidates) =
      if str_eq (totp_code secret c) normalized
      then some c
      else first_match secret normalized candidates

  -- `_matching_counter`, at a time in microseconds since 1970
  unfoldable pub matching_counter : String → String → ℕ → Result TotpError (Option ℕ)
  matching_counter secret s now =
      let normalized = strip s in
      let counter = now / 1000000 / 30 in
      if not (text_length normalized == 6) || not (is_digits is_digit normalized)
      then ok none
      else if counter == 0
      then err negative_counter
      else if not (is_ascii normalized)
      then err not_ascii
      else ok (first_match secret normalized ((counter - 1) ∷ counter ∷ (counter + 1) ∷ []))

-- `_decrypt_secret`
abbrev pub decrypt_secret : Crypto → String → Method TotpError Tables String
decrypt_secret x s = or_raise totp_secret_unavailable (x.decrypt s)
