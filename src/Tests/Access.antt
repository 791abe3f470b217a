-- ===== src/Tests/Access.antt =====
-- A key, a token and a session.
use job_applier.Base.{ℕ, ◌+◌, ◌*◌, ◌≤◌, refl, some, List, [], ◌∷◌, true, arith, ◌==◌}
use job_applier.Access.Jwks.{Jwk, JwksCache, get_key}
use job_applier.Access.Jwks.Limits.{Call, requests, requests-limited}
use job_applier.Access.Token.{missing, number, many, Token, EdgeAuthConfig, verify_cf_access_jwt}
use job_applier.Access.Token.Verified.{IsVerified, verify_cf_access_jwt-IsVerified}

-- Keys are numbers here.
abbrev cache : JwksCache ℕ
cache = record {
  max_keys = 16;
  keys = [];
  key_fetched_at = 0;
  last_fetched = 0;
  injected_keys = [];
}

abbrev jwks : List (Jwk ℕ)
jwks = record { kty = "RSA"; alg = "RS256"; kid = some "k1"; pub_key = some 7 } ∷ []

abbrev key_call : ℕ → Call ℕ
key_call now = record {
  args = record { kid = "k2"; has_url = true; rate_limit_seconds = 60; cache_ttl_seconds = 3600 };
  answer = some jwks;
  now = now;
}

-- An unknown key is asked for three times, and two requests are made.
requests-limited_example :
    60 * requests (key_call 100 ∷ key_call 120 ∷ key_call 160 ∷ []) cache + 0 ≤ 170
requests-limited_example =
    requests-limited 60 170 (key_call 100 ∷ key_call 120 ∷ key_call 160 ∷ []) cache refl
      (omega arith)

abbrev config : EdgeAuthConfig
config = record {
  cf_access_issuer = "https://team.cloudflareaccess.com";
  cf_access_aud = "aud1";
  cf_access_allowed_identities = "bob@x.y" ∷ [];
  has_certs_url = true;
  viewer_max_duration_seconds = 900;
  jwks_cache_ttl_seconds = 3600;
  jwks_rate_limit_seconds = 60;
}

abbrev token : Token ℕ
token = record {
  segments = 3;
  header = some (record { alg = some "RS256"; kid = some "k1" });
  payload = some (record {
    iss = "https://team.cloudflareaccess.com";
    aud = many ("aud0" ∷ "aud1" ∷ []);
    exp = number 200;
    nbf = missing;
    iat = number 90;
    email = "bob@x.y";
    sub = "u1";
  });
  verifies = λ key. key == 7;
}

verify_cf_access_jwt-IsVerified_example :
    IsVerified (λ s. s) (λ s. s) config 100 token (some jwks) cache "bob@x.y" 200
unfolding verify_cf_access_jwt get_key
verify_cf_access_jwt-IsVerified_example =
    verify_cf_access_jwt-IsVerified (λ s. s) (λ s. s) config 100 token (some jwks) cache "bob@x.y"
      200 refl
