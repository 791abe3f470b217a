-- ===== src/Access/Token.antt =====
-- `verify_cf_access_jwt` (src/job_applier/web/edge_auth.py). What the
-- libraries decode of the token is an argument: the segments, their JSON, and whether the RSA key `K`
-- verifies the signature. The clock and the times in a token are whole seconds, and `lower_strip` stands for `.strip().lower()`.
pub mod Verified
use job_applier.Base.{
  ℕ, ◌+◌, ◌-◌, String, Bool, true, false, not, ◌&&◌, ◌||◌, Option, none, some, List, [], ◌∷◌, ltb,
  leb, ◌==◌, str_eq, is_text, filled, non_empty, or_else, max, if◌then◌else◌,
}
use Prim.Native.Nat.{min}
use job_applier.Base.{starts_with}
use job_applier.Access.Jwks.{JwksCache, Jwk, KeyArgs, Answer, cached, fetched, get_key}

-- A claim that should be a number. Python's booleans are numbers.
pub data Claim : Type 0 where
  missing not_number : Claim
  number : ℕ → Claim
  boolean : Bool → Claim

pub data Audience : Type 0 where
  one : String → Audience
  many : List String → Audience
  invalid : Audience

pub record Header : Type 0 where
  pub alg : Option String
  pub kid : Option String

pub record Payload : Type 0 where
  pub iss : String
  pub aud : Audience
  pub exp : Claim
  pub nbf : Claim
  pub iat : Claim
  pub email : String
  pub sub : String

-- A token, as far as it can be decoded. `verifies` is false where the library raises any error.
pub record Token (K : Type 0) : Type 0 where
  pub segments : ℕ
  pub header : Option Header
  pub payload : Option Payload
  pub verifies : K → Bool

pub record EdgeAuthConfig : Type 0 where
  pub cf_access_issuer : String
  pub cf_access_aud : String
  pub cf_access_allowed_identities : List String
  pub has_certs_url : Bool
  pub viewer_max_duration_seconds : ℕ
  pub jwks_cache_ttl_seconds : ℕ
  pub jwks_rate_limit_seconds : ℕ

pub data Verdict : Type 0 where
  accepted : (email : String) (exp : ℕ) → Verdict
  -- EdgeAuthError
  refused : (status_code : ℕ) → Verdict

abbrev pub contains_text : String → List String → Bool
contains_text t [] = false
contains_text t (x ∷ xs) = str_eq x t || contains_text t xs

abbrev pub fits_audience : String → Audience → Bool
fits_audience expected (one aud) = str_eq aud expected
fits_audience expected (many auds) = contains_text expected auds
fits_audience expected invalid = false

-- `isinstance(exp, (int, float))`
abbrev pub time_of : Claim → Option ℕ
time_of missing = none
time_of not_number = none
time_of (number n) = some n
time_of (boolean b) = some (if b then 1 else 0)

-- The claim is left out, or is a number and not in the future.
abbrev pub is_past : ℕ → Claim → Bool
is_past now missing = true
is_past now not_number = false
is_past now (number n) = leb n (now + 60)
is_past now (boolean b) = false

abbrev pub identity : (lower_strip : String → String) → Payload → String
identity lower_strip p =
    let email = lower_strip p.email in if non_empty email then email else lower_strip p.sub

-- 9. the identity
abbrev pub check_identity : EdgeAuthConfig → (email : String) (exp : ℕ) → Verdict
check_identity config email exp =
    if not (non_empty email)
    then refused 401
    else if not (contains_text email config.cf_access_allowed_identities)
    then refused 403
    else accepted email exp

-- 7. and 8. the times
abbrev pub check_times :
    (lower_strip : String → String) → EdgeAuthConfig → ℕ → Payload → Option ℕ → Verdict
check_times lower_strip config now p none = refused 401
check_times lower_strip config now p (some exp) =
    if leb exp now
    then refused 401
    else if not (is_past now p.nbf) || not (is_past now p.iat)
    then refused 401
    else check_identity config (identity lower_strip p) exp

-- 4. to 6. the payload; `rstrip_slash` stands for `.rstrip("/")`.
abbrev pub check_payload :
    (lower_strip rstrip_slash : String → String) → EdgeAuthConfig → ℕ → Option Payload → Verdict
check_payload lower_strip rstrip_slash config now none = refused 401
check_payload lower_strip rstrip_slash config now (some p) =
    if not (str_eq (rstrip_slash p.iss) (rstrip_slash config.cf_access_issuer))
    then refused 401
    else if not (fits_audience config.cf_access_aud p.aud)
    then refused 401
    else check_times lower_strip config now p (time_of p.exp)

abbrev pub key_args : EdgeAuthConfig → String → KeyArgs
key_args config kid = record {
  kid = kid;
  has_url = config.has_certs_url;
  rate_limit_seconds = config.jwks_rate_limit_seconds;
  cache_ttl_seconds = config.jwks_cache_ttl_seconds;
}

module _ {K : Type 0} where
  -- The key that was found, if any.
  abbrev pub key_of : Answer K → Option K
  key_of (cached key) = key
  key_of (fetched key) = key

  -- 3. the signature
  abbrev pub check_signature :
      (lower_strip rstrip_slash : String → String)
      → EdgeAuthConfig
      → ℕ
      → Token K
      → Option K
      → Verdict
  check_signature lower_strip rstrip_slash config now t none = refused 401
  check_signature lower_strip rstrip_slash config now t (some key) =
      if not (t.verifies key)
      then refused 401
      else check_payload lower_strip rstrip_slash config now t.payload

  -- 2. the key
  abbrev pub check_key :
      (lower_strip rstrip_slash : String → String)
      → EdgeAuthConfig
      → ℕ
      → Token K
      → JwksCache K × Answer K
      → JwksCache K × Verdict
  check_key lower_strip rstrip_slash config now t (cache, answer) =
      (cache, check_signature lower_strip rstrip_slash config now t (key_of answer))

  -- 1. the header
  abbrev pub check_header :
      (lower_strip rstrip_slash : String → String)
      → EdgeAuthConfig
      → ℕ
      → Token K
      → (answer : Option (List (Jwk K))) → JwksCache K
      → Option Header
      → JwksCache K × Verdict
  check_header lower_strip rstrip_slash config now t answer cache none = (cache, refused 401)
  check_header lower_strip rstrip_slash config now t answer cache (some h) =
      if not (is_text h.alg "RS256") || not (filled h.kid)
      then (cache, refused 401)
      else check_key lower_strip rstrip_slash config now t
          (get_key (key_args config (or_else h.kid "")) answer now cache)

  -- `answer` is what the certs endpoint would give.
  unfoldable pub verify_cf_access_jwt :
      (lower_strip rstrip_slash : String → String)
      → EdgeAuthConfig
      → ℕ
      → Token K
      → (answer : Option (List (Jwk K))) → JwksCache K
      → JwksCache K × Verdict
  verify_cf_access_jwt lower_strip rstrip_slash config now t answer cache =
      if not (t.segments == 3)
      then (cache, refused 401)
      else check_header lower_strip rstrip_slash config now t answer cache t.header
