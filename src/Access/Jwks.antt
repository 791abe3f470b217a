-- ===== src/Access/Jwks.antt =====
-- `JwksCache` (src/job_applier/web/edge_auth.py). `K` stands for the RSA keys, and the answer of the certs
-- endpoint is an argument: `none` where the request or the parsing of the JSON fails. A dict is the list of
-- its items. Each call runs at one reading of the clock.
pub mod Limits
use job_applier.Base.{
  ℕ, zero, suc, ◌+◌, String, Bool, true, false, not, ◌&&◌, Option, none, some, List, [], ◌∷◌, ◌++◌,
  ltb, leb, str_eq, is_some, if◌then◌else◌, find_by, update_where,
}

pub record KeyArgs : Type 0 where
  pub kid : String
  pub has_url : Bool
  pub rate_limit_seconds : ℕ
  pub cache_ttl_seconds : ℕ

-- A key that is returned, without a request to the endpoint or after one.
pub data Answer (K : Type 0) : Type 0 where
  cached : Option K → Answer K
  fetched : Option K → Answer K

module _ (K : Type 0) where
  -- A key as the endpoint gives it; `pub_key` is `none` where the library refuses its numbers.
  pub record Jwk : Type 0 where
    pub kty : String
    pub alg : String
    pub kid : Option String
    pub pub_key : Option K

  pub record JwksCache : Type 0 where
    pub max_keys : ℕ
    pub keys : List (String × K)
    pub key_fetched_at : ℕ
    pub last_fetched : ℕ
    pub injected_keys : List (String × K)

module _ {K : Type 0} where
  abbrev pub kid_of : String × K → String
  kid_of item = item.0

  abbrev pub value_of : Option (String × K) → Option K
  value_of none = none
  value_of (some item) = some item.1

  -- `keys.get(kid)`
  abbrev pub lookup : String → List (String × K) → Option K
  lookup kid keys = value_of (find_by kid_of kid keys)

  -- `keys[kid] = key`
  abbrev pub put : String → K → List (String × K) → List (String × K)
  put kid key keys =
      if is_some (find_by kid_of kid keys)
      then update_where (λ item. str_eq (kid_of item) kid) (λ item. (kid, key)) keys
      else keys ++ (kid, key) ∷ []

  abbrev pub add_key : Option String → Option K → List (String × K) → List (String × K)
  add_key none key keys = keys
  add_key (some kid) none keys = keys
  add_key (some kid) (some key) keys = put kid key keys

  -- The loop over the keys of the answer.
  abbrev pub collect : List (Jwk K) → List (String × K) → List (String × K)
  collect [] keys = keys
  collect (k ∷ more) keys =
      collect more
        (if str_eq k.kty "RSA" && str_eq k.alg "RS256" then add_key k.kid k.pub_key keys else keys)

  -- `list(items)[:n]`
  abbrev pub first_keys : ℕ → List (String × K) → List (String × K)
  first_keys zero keys = []
  first_keys (suc n) [] = []
  first_keys (suc n) (item ∷ keys) = item ∷ first_keys n keys

  abbrev pub inject_key : String → K → JwksCache K → JwksCache K
  inject_key kid key c = record c { injected_keys = put kid key c.injected_keys }

  abbrev pub clear : JwksCache K → JwksCache K
  clear c = record c { keys = []; injected_keys = []; key_fetched_at = 0; last_fetched = 0 }

  -- `_refresh`: the time of the request is kept even where it fails.
  abbrev pub refresh : (answer : Option (List (Jwk K))) (now : ℕ) → JwksCache K → JwksCache K
  refresh none now c = record c { last_fetched = now }
  refresh (some jwks) now c = record c {
    keys = first_keys c.max_keys (collect jwks []);
    key_fetched_at = now;
    last_fetched = now;
  }

  abbrev pub ask :
      KeyArgs → (answer : Option (List (Jwk K))) (now : ℕ) → JwksCache K → JwksCache K × Answer K
  ask a answer now c =
      if ltb now (c.last_fetched + a.rate_limit_seconds)
      then (c, cached none)
      else if not a.has_url
      then (c, cached none)
      else let refreshed = refresh answer now c in
        (refreshed, fetched (lookup a.kid refreshed.keys))

  abbrev pub get_cached :
      KeyArgs
      → (answer : Option (List (Jwk K))) (now : ℕ) → JwksCache K
      → Option K
      → JwksCache K × Answer K
  get_cached a answer now c none = ask a answer now c
  get_cached a answer now c (some key) =
      if leb now (c.key_fetched_at + a.cache_ttl_seconds)
      then (c, cached (some key))
      else ask a answer now (record c { keys = [] })

  abbrev pub get_injected :
      KeyArgs
      → (answer : Option (List (Jwk K))) (now : ℕ) → JwksCache K
      → Option K
      → JwksCache K × Answer K
  get_injected a answer now c (some key) = (c, cached (some key))
  get_injected a answer now c none = get_cached a answer now c (lookup a.kid c.keys)

  unfoldable pub get_key :
      KeyArgs → (answer : Option (List (Jwk K))) (now : ℕ) → JwksCache K → JwksCache K × Answer K
  get_key a answer now c = get_injected a answer now c (lookup a.kid c.injected_keys)
