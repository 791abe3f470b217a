-- ===== src/Access/Jwks/Limits.antt =====
-- How often the cache of keys asks for them.
use native.Mathlib.Nat.{mul-suc, mul-zero}
use job_applier.Base.{
  ◌*◌, ℕ, suc, ◌+◌, ◌≡◌, ◌≤◌, ◌⊎◌, refl, Bool, true, false, not, ◌&&◌, Option, none, some, List, [],
  ◌∷◌, ltb, leb, if◌then◌else◌, arith, Bool-cases, inl, inr,
}
use job_applier.Access.Jwks.{
  Jwk, JwksCache, lookup, refresh, KeyArgs, Answer, cached, fetched, ask, get_cached, get_injected,
  get_key,
}

-- A call, the answer that the endpoint would give, and the time.
pub record Call (K : Type 0) : Type 0 where
  pub args : KeyArgs
  pub answer : Option (List (Jwk K))
  pub now : ℕ

module _ {K : Type 0} where
  abbrev pub was_made : Answer K → Bool
  was_made (cached key) = false
  was_made (fetched key) = true

  -- The number of requests that the calls make.
  pub requests : List (Call K) → JwksCache K → ℕ
  requests [] c = 0
  requests (call ∷ more) c =
      let r = get_key call.args call.answer call.now c in
      let rest = requests more r.0 in if was_made r.1 then suc rest else rest

  -- Each call keeps at least this rate, and comes no later than that.
  abbrev pub all_by : (rate end : ℕ) → List (Call K) → Bool
  all_by rate end [] = true
  all_by rate end (call ∷ more) =
      (leb rate call.args.rate_limit_seconds && leb call.now end) && all_by rate end more

  -- What a call does: no request, and the time of the last one stays, or one at its own time.
  Paces : ℕ → JwksCache K → JwksCache K × Answer K → KeyArgs → Type 0
  Paces now c r a =
      (((key : Option K) × (r.1 ≡ cached key)) × (r.0.last_fetched ≡ c.last_fetched))
      ⊎ (((key : Option K) × (r.1 ≡ fetched key))
          × (r.0.last_fetched ≡ now)
          × (c.last_fetched + a.rate_limit_seconds ≤ now))

  ask-Paces :
      (a : KeyArgs) (answer : Option (List (Jwk K))) (now : ℕ) (c d : JwksCache K)
      → d.last_fetched ≡ c.last_fetched
      → Paces now c (ask a answer now d) a
  unfolding Paces
  ask-Paces a answer now c d same =
      elim (Bool-cases (ltb now (d.last_fetched + a.rate_limit_seconds))) [
        | inl early ↦ simp early (inl ((none, refl), same))
        | inr late ↦ elim (Bool-cases (not a.has_url)) [
          | inl blind ↦ simp late (simp blind (inl ((none, refl), same)))
          | inr seen ↦
              simp late (simp seen (inr ((_, refl), stamp answer, ground (arith, late, same))))
        ]
      ]
    where
      stamp : (o : Option (List (Jwk K))) → (refresh o now d).last_fetched ≡ now
      stamp none = refl
      stamp (some jwks) = refl

  get_key-Paces :
      (a : KeyArgs) (answer : Option (List (Jwk K))) (now : ℕ) (c : JwksCache K)
      → Paces now c (get_key a answer now c) a
  unfolding get_key Paces
  get_key-Paces a answer now c = injected (lookup a.kid c.injected_keys)
    where
      in_cache : (o : Option K) → Paces now c (get_cached a answer now c o) a
      in_cache none = ask-Paces a answer now c c refl
      in_cache (some key) = elim (Bool-cases (leb now (c.key_fetched_at + a.cache_ttl_seconds))) [
        | inl young ↦ simp young (inl ((some key, refl), refl))
        | inr old ↦ simp old (ask-Paces a answer now c (record c { keys = [] }) refl)
      ]

      injected : (o : Option K) → Paces now c (get_injected a answer now c o) a
      injected none = in_cache (lookup a.kid c.keys)
      injected (some key) = inl ((some key, refl), refl)

  -- The endpoint is asked at most once in each interval of the rate limit, whatever keys the tokens name and
  -- whether or not it answers: the requests that are made by a time, each with the interval, fit between the
  -- last request before them and that time. It is assumed that the last request is not after that time.
  pub requests-limited :
      (rate end : ℕ) (calls : List (Call K)) (c : JwksCache K)
      → all_by rate end calls ≡ true
      → c.last_fetched ≤ end
      → rate * requests calls c + c.last_fetched ≤ end
  unfolding requests Paces
  requests-limited rate end [] c h k = rw (mul-zero rate) (omega arith)
  requests-limited rate end (call ∷ more) c h k =
      let next = (get_key call.args call.answer call.now c).0 in
      let rest : all_by rate end more ≡ true = ground arith in
      let in_time : call.now ≤ end = ground arith in
      let slow : rate ≤ call.args.rate_limit_seconds = ground arith in
      elim (get_key-Paces call.args call.answer call.now c) [
        | inl ((key, e), same) ↦
            rw e (rw same at (requests-limited rate end more next rest (rw same k)))
        | inr ((key, e), stamped, room) ↦
            let later = requests-limited rate end more next rest (rw stamped in_time) in
            rw (e, mul-suc rate (requests more next)) (omega (arith, later, stamped))
      ]
