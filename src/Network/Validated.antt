-- ===== src/Network/Validated.antt =====
-- The IPv4 addresses that a host was validated with, mapped ones included, are public.
use job_applier.Base.{
  ℕ, ◌≡◌, refl, sym, String, Bool, true, false, not, ◌||◌, Option, none, some, List, [], ◌∷◌,
  str_eq, eq_iff, non_empty, arith, Bool-cases, inl, inr, subst,
}
use job_applier.Network.{
  Library, Address, v4, v6, is_ip_denied, is_v6_denied, allows, all_allowed, check_resolved,
  check_host, is_restricted_name, restricted_hostnames, resolve_and_validate_host,
}
use job_applier.Network.Denied.{IsPublic, is_ip_denied-IsPublic}

-- The IPv4 address that is reached: itself, or the one that an IPv6 address maps.
abbrev pub v4_of : Library → Address → Option ℕ
v4_of l (v4 x) = some x
v4_of l (v6 x) = l.ipv4_mapped x

abbrev pub is_among : String → List String → Bool
is_among t [] = false
is_among t (x ∷ xs) = str_eq x t || is_among t xs

some_injective : {a b : List String} → some a ≡ some b → a ≡ b
some_injective e = cc

module _ (l : Library) where
  denied-IsPublic :
      (a : Address) (x : ℕ) → is_ip_denied l a ≡ false → v4_of l a ≡ some x → IsPublic x
  unfolding is_ip_denied
  denied-IsPublic (v4 y) x h e =
      let same : y ≡ x = ground arith in
      is_ip_denied-IsPublic l x (subst (λ z. is_ip_denied l (v4 z) ≡ false) same h)
  denied-IsPublic (v6 y) x h e =
      let mapped : is_v6_denied l y (l.ipv4_mapped y) ≡ false = ground arith in
      is_ip_denied-IsPublic l x (rw e at mapped)

  all_allowed-each :
      (ips : List String) (ip : String) (a : Address)
      → all_allowed l ips ≡ true
      → is_among ip ips ≡ true
      → l.ip_address ip ≡ some a
      → is_ip_denied l a ≡ false
  all_allowed-each [] ip a h k e = cc k
  all_allowed-each (first ∷ ips) ip a h k e = elim (Bool-cases (str_eq first ip)) [
    | inl same ↦
        let there : l.ip_address first ≡ some a =
          subst (λ t. l.ip_address t ≡ some a) (sym ((eq_iff first ip).0 same)) e in
        let allowed : allows l (l.ip_address first) ≡ true = ground arith in
        unless_denied (rw there at allowed)
    | inr other ↦ all_allowed-each ips ip a (ground arith) (ground (arith, other)) e
  ]
    where
      unless_denied : not (is_ip_denied l a) ≡ true → is_ip_denied l a ≡ false
      unless_denied t = ground arith

  check_resolved-each :
      (o : Option (List String)) (ips : List String)
      → check_resolved l o ≡ some ips
      → all_allowed l ips ≡ true
  check_resolved-each none ips h = cc h
  check_resolved-each (some []) ips h = cc h
  check_resolved-each (some (first ∷ more)) ips h = ground arith

  module _
      (shown : (t : String) (a : Address)
        → l.ip_address t ≡ some a
        → l.ip_address (l.show a) ≡ some a) where
    check_host-each :
        (dns_resolver : String → Option (List String)) (raw_host : String) (o : Option Address)
        (ips : List String)
        → l.ip_address raw_host ≡ o
        → check_host l dns_resolver raw_host o ≡ some ips
        → all_allowed l ips ≡ true
    check_host-each dns_resolver raw_host none ips e h =
        check_resolved-each (dns_resolver raw_host) ips h
    check_host-each dns_resolver raw_host (some a) ips read h =
        elim (Bool-cases (is_ip_denied l a)) [
          | inl e ↦ cc (rw e at h)
          | inr e ↦
              subst (λ r. all_allowed l r ≡ true) (some_injective (rw e at h))
                (rw (shown raw_host a read, e))
        ]

    -- Where a host is allowed, every IPv4 address among those that it was validated with, and every one that
    -- an IPv6 address among them maps, is a public one: it is in no block of private, shared, local or
    -- link-local use and is below the multicast block. It is assumed that the library reads the text
    -- of an address that it has read as the same address.
    pub resolve_and_validate_host-IsPublic :
        (clean unbracket : String → String) (dns_resolver : String → Option (List String))
        (hostname : String) (ips : List String)
        → resolve_and_validate_host l clean unbracket dns_resolver hostname ≡ some ips
        → (ip : String) (a : Address) (x : ℕ) → is_among ip ips ≡ true
        → l.ip_address ip ≡ some a
        → v4_of l a ≡ some x
        → IsPublic x
    unfolding resolve_and_validate_host
    resolve_and_validate_host-IsPublic clean unbracket dns_resolver hostname ips h ip a x among read
          maps =
        let raw_host = unbracket (clean hostname) in
        denied-IsPublic a x
          (all_allowed-each ips ip a
            (elim (Bool-cases (not (non_empty (clean hostname)))) [
              | inl e ↦ cc (rw e at h)
              | inr e ↦ elim (Bool-cases (is_restricted_name raw_host restricted_hostnames)) [
                | inl f ↦ cc (simp (e, f) at h)
                | inr f ↦
                    check_host-each dns_resolver raw_host (l.ip_address raw_host) ips refl
                      (simp (e, f) at h)
              ]
            ])
            among read)
          maps
