-- ===== src/Access/Token/Verified.antt =====
-- What it means that a token is accepted.
use job_applier.Base.{
  Bool, [], ◌∷◌, sym, ◌⊎◌, ◌≢◌, eq_iff, is_text→eq, ◌∙◌, ap, ℕ, ◌+◌, ◌≡◌, ◌≤◌, ◌<◌, refl, String,
  true, not, ◌||◌, Option, none, some, List, ◌==◌, str_eq, is_text, filled, non_empty, or_else,
  arith, Bool-cases, inl, inr,
}
use job_applier.Access.Jwks.{JwksCache, Jwk, get_key}
use job_applier.Access.Token.{
  Claim, missing, not_number, number, boolean, Audience, one, many, invalid, Header, Payload, Token,
  EdgeAuthConfig, accepted, contains_text, fits_audience, time_of, is_past, identity, check_times,
  check_payload, key_of, key_args, check_signature, check_header, verify_cf_access_jwt,
}

-- A claim of a time that is left out, or is a number no more than 60 ahead.
pub data IsPast (now : ℕ) (c : Claim) : Type 0 where
  left_out : c ≡ missing → IsPast now c
  past : (n : ℕ) → c ≡ number n → n ≤ now + 60 → IsPast now c

-- The text is one of the list.
pub data IsAmong (t : String) : List String → Type 0 where
  first : {x : String} {xs : List String} → t ≡ x → IsAmong t (x ∷ xs)
  later : {x : String} {xs : List String} → IsAmong t xs → IsAmong t (x ∷ xs)

-- The audience is the expected one, or a list that has it.
pub data IsMeant (expected : String) (a : Audience) : Type 0 where
  alone : a ≡ one expected → IsMeant expected a
  listed : (auds : List String) → a ≡ many auds → IsAmong expected auds → IsMeant expected a

is_past-IsPast : (now : ℕ) (c : Claim) → is_past now c ≡ true → IsPast now c
is_past-IsPast now missing h = left_out refl
is_past-IsPast now not_number h = cc h
is_past-IsPast now (number n) h = past n refl (ground arith)
is_past-IsPast now (boolean b) h = cc h

contains_text-IsAmong : (t : String) (xs : List String) → contains_text t xs ≡ true → IsAmong t xs
contains_text-IsAmong t [] h = cc h
contains_text-IsAmong t (x ∷ xs) h = elim (Bool-cases (str_eq x t)) [
  | inl e ↦ first (sym ((eq_iff x t).0 e))
  | inr e ↦ later (contains_text-IsAmong t xs (rw e at h))
]

fits_audience-IsMeant :
    (expected : String) (a : Audience) → fits_audience expected a ≡ true → IsMeant expected a
fits_audience-IsMeant expected (one aud) h = alone (ap one ((eq_iff aud expected).0 h))
fits_audience-IsMeant expected (many auds) h =
    listed auds refl (contains_text-IsAmong expected auds h)
fits_audience-IsMeant expected invalid h = cc h

non_empty→neq : (t : String) → non_empty t ≡ true → t ≢ ""
non_empty→neq t h e = cc (rw e at h)

-- The claims of an accepted token.
pub record IsAccepted (lower_strip rstrip_slash : String → String) (config : EdgeAuthConfig)
    (now : ℕ) (p : Payload) (email : String) (exp : ℕ) : Type 0 where
  pub issued : rstrip_slash p.iss ≡ rstrip_slash config.cf_access_issuer
  pub meant : IsMeant config.cf_access_aud p.aud
  -- a boolean is the number 0 or 1
  pub expires : (p.exp ≡ number exp) ⊎ ((b : Bool) × (p.exp ≡ boolean b) × (exp ≤ 1))
  pub alive : now < exp
  pub begun : IsPast now p.nbf
  pub made : IsPast now p.iat
  pub named :
      (email ≡ lower_strip p.email) ⊎ ((lower_strip p.email ≡ "") × (email ≡ lower_strip p.sub))
  pub known : email ≢ ""
  pub allowed : IsAmong email config.cf_access_allowed_identities

time_of-cases :
    (c : Claim) (exp : ℕ)
    → time_of c ≡ some exp
    → (c ≡ number exp) ⊎ ((b : Bool) × (c ≡ boolean b) × (exp ≤ 1))
time_of-cases missing exp h = cc h
time_of-cases not_number exp h = cc h
time_of-cases (number n) exp h = inl (ap number (ground arith))
time_of-cases (boolean b) exp h = inr (b, refl, ground arith)

identity-cases :
    (lower_strip : String → String) (p : Payload) (email : String)
    → email ≡ identity lower_strip p
    → (email ≡ lower_strip p.email) ⊎ ((lower_strip p.email ≡ "") × (email ≡ lower_strip p.sub))
identity-cases lower_strip p email h = elim (Bool-cases (str_eq (lower_strip p.email) "")) [
  | inl e ↦ inr ((eq_iff (lower_strip p.email) "").0 e, rw e at h)
  | inr e ↦ inl (rw e at h)
]

module _ (lower_strip rstrip_slash : String → String) (config : EdgeAuthConfig) (now : ℕ) where
  times_clear :
      (p : Payload) (o : Option ℕ) (email : String) (exp : ℕ)
      → time_of p.exp ≡ o
      → str_eq (rstrip_slash p.iss) (rstrip_slash config.cf_access_issuer) ≡ true
      → fits_audience config.cf_access_aud p.aud ≡ true
      → check_times lower_strip config now p o ≡ accepted email exp
      → IsAccepted lower_strip rstrip_slash config now p email exp
  times_clear p none email exp e issued meant h = cc h
  times_clear p (some t) email exp e issued meant h = record {
    issued = (eq_iff (rstrip_slash p.iss) (rstrip_slash config.cf_access_issuer)).0 issued;
    meant = fits_audience-IsMeant config.cf_access_aud p.aud meant;
    expires = let same : t ≡ exp = ground arith in time_of-cases p.exp exp (e ∙ ap some same);
    alive = ground arith;
    begun = is_past-IsPast now p.nbf (ground arith);
    made = is_past-IsPast now p.iat (ground arith);
    named = identity-cases lower_strip p email (ground arith);
    known = non_empty→neq email (ground arith);
    allowed = contains_text-IsAmong email config.cf_access_allowed_identities (ground arith);
  }

  payload_clear :
      (o : Option Payload) (email : String) (exp : ℕ)
      → check_payload lower_strip rstrip_slash config now o ≡ accepted email exp
      → (p : Payload) × (o ≡ some p) × IsAccepted lower_strip rstrip_slash config now p email exp
  payload_clear none email exp h = cc h
  payload_clear (some p) email exp h =
      elim (Bool-cases (str_eq (rstrip_slash p.iss) (rstrip_slash config.cf_access_issuer))) [
        | inr e ↦ cc (rw e at h)
        | inl issued ↦ elim (Bool-cases (fits_audience config.cf_access_aud p.aud)) [
          | inr e ↦ cc (rw (issued, e) at h)
          | inl meant ↦ (
            p,
            refl,
            times_clear p (time_of p.exp) email exp refl issued meant (rw (issued, meant) at h),
          )
        ]
      ]

  module _ {K : Type 0} (t : Token K) where
    signature_clear :
        (o : Option K) (email : String) (exp : ℕ)
        → check_signature lower_strip rstrip_slash config now t o ≡ accepted email exp
        → (key : K) × (o ≡ some key)
          × (t.verifies key ≡ true)
          × (check_payload lower_strip rstrip_slash config now t.payload ≡ accepted email exp)
    signature_clear none email exp h = cc h
    signature_clear (some key) email exp h = elim (Bool-cases (t.verifies key)) [
      | inr e ↦ cc (rw e at h)
      | inl e ↦ (key, refl, e, rw e at h)
    ]

    -- What stands behind an accepted token.
    pub record IsVerified (answer : Option (List (Jwk K))) (cache : JwksCache K) (email : String)
        (exp : ℕ) : Type 0 where
      pub whole : t.segments ≡ 3
      pub header : Header
      pub headed : t.header ≡ some header
      pub algorithm : header.alg ≡ some "RS256"
      pub key : K
      pub trusted :
          key_of (get_key (key_args config (or_else header.kid "")) answer now cache).1 ≡ some key
      pub signed : t.verifies key ≡ true
      pub payload : Payload
      pub read : t.payload ≡ some payload
      pub claims : IsAccepted lower_strip rstrip_slash config now payload email exp

    header_clear :
        (answer : Option (List (Jwk K))) (cache : JwksCache K) (o : Option Header) (email : String)
        (exp : ℕ)
        → t.segments ≡ 3
        → t.header ≡ o
        → (check_header lower_strip rstrip_slash config now t answer cache o).1 ≡ accepted email exp
        → IsVerified answer cache email exp
    header_clear answer cache none email exp three headed h = cc h
    header_clear answer cache (some head) email exp three headed h =
        elim (Bool-cases (not (is_text head.alg "RS256") || not (filled head.kid))) [
          | inl e ↦ cc (rw e at h)
          | inr e ↦
              let (key, trusted, signed, rest) =
                signature_clear
                  (key_of (get_key (key_args config (or_else head.kid "")) answer now cache).1)
                  email exp (rw e at h) in
              let (p, read, claims) = payload_clear t.payload email exp rest in
              record {
                whole = three;
                header = head;
                headed = headed;
                algorithm = is_text→eq head.alg "RS256" (ground (arith, e));
                key = key;
                trusted = trusted;
                signed = signed;
                payload = p;
                read = read;
                claims = claims;
              }
        ]

-- A token is accepted only where it has three segments, its header names RS256, the key cache gives a key for
-- it that verifies the signature, its issuer is the one expected, its audience is or has the one expected,
-- it has not expired, its nbf and iat, where it has them, are numbers no more than 60 seconds ahead, and the
-- identity that is returned is its email, or its sub where that is empty, is not empty and is on the list.
pub verify_cf_access_jwt-IsVerified :
    {K : Type 0} (lower_strip rstrip_slash : String → String) (config : EdgeAuthConfig) (now : ℕ)
    (t : Token K) (answer : Option (List (Jwk K))) (cache : JwksCache K) (email : String) (exp : ℕ)
    → (verify_cf_access_jwt lower_strip rstrip_slash config now t answer cache).1
      ≡ accepted email exp
    → IsVerified lower_strip rstrip_slash config now t answer cache email exp
unfolding verify_cf_access_jwt
verify_cf_access_jwt-IsVerified lower_strip rstrip_slash config now t answer cache email exp h =
    elim (Bool-cases (t.segments == 3)) [
      | inr e ↦ cc (rw e at h)
      | inl e ↦
          header_clear lower_strip rstrip_slash config now t answer cache t.header email exp
            (ground arith) refl (rw e at h)
    ]
