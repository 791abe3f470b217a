-- ===== src/Tests/Network.antt =====
-- A host with one address.
use job_applier.Base.{
  ◌≡◌, refl, none, some, [], ◌∷◌, false, String, Option, str_eq, if◌then◌else◌, arith, List,
}
use job_applier.Network.{
  Library, Address, v4, ip4, is_ip_denied, ends_with, resolve_and_validate_host,
  validate_target_url,
}
use job_applier.Network.Denied.{IsPublic}
use job_applier.Network.Validated.{resolve_and_validate_host-IsPublic}

abbrev library : Library
library = record {
  is_flagged = λ a. false;
  ipv4_mapped = λ x. none;
  ip_address = λ t. if str_eq t "93.184.216.34" then some (v4 (ip4 93 184 216 34)) else none;
  show = λ a. "93.184.216.34";
}

abbrev resolver : String → Option (List String)
resolver name = some ("93.184.216.34" ∷ [])

reads_back :
    (t : String) (a : Address)
    → library.ip_address t ≡ some a
    → library.ip_address (library.show a) ≡ some a
reads_back t a h = ground arith

resolve_and_validate_host-IsPublic_example : IsPublic (ip4 93 184 216 34)
unfolding resolve_and_validate_host is_ip_denied ends_with
resolve_and_validate_host-IsPublic_example =
    resolve_and_validate_host-IsPublic library reads_back (λ s. s) (λ s. s) resolver "example.com"
      ("93.184.216.34" ∷ []) refl "93.184.216.34" (v4 (ip4 93 184 216 34)) (ip4 93 184 216 34) refl
      refl refl

-- A restricted port is refused, whatever the host.
refused_port :
    validate_target_url library
      (λ s. s)
      (λ s. s)
      resolver
      false
      (some (record { scheme = "http"; hostname = some "example.com"; port = some 9222 }))
    ≡ false
unfolding validate_target_url
refused_port = refl
