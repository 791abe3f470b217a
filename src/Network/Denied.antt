-- ===== src/Network/Denied.antt =====
-- The addresses of private, local and reserved networks are denied.
use job_applier.Base.{ℕ, ◌≡◌, ◌≤◌, ◌<◌, ◌⊎◌, false, arith}
use job_applier.Network.{Library, v4, ip4, is_ip_denied}

-- The address is in none of the blocks of private and shared use, of this host, of the link, and of
-- multicast and later: 10.0.0.0/8, 100.64.0.0/10, 127.0.0.0/8, 169.254.0.0/16, 172.16.0.0/12,
-- 192.168.0.0/16, and from 224.0.0.0 on.
pub record IsPublic (x : ℕ) : Type 0 where
  pub past_zero : ip4 1 0 0 0 ≤ x
  pub private_10 : (x < ip4 10 0 0 0) ⊎ (ip4 11 0 0 0 ≤ x)
  pub shared : (x < ip4 100 64 0 0) ⊎ (ip4 100 128 0 0 ≤ x)
  pub loopback : (x < ip4 127 0 0 0) ⊎ (ip4 128 0 0 0 ≤ x)
  pub link_local : (x < ip4 169 254 0 0) ⊎ (ip4 169 255 0 0 ≤ x)
  pub private_172 : (x < ip4 172 16 0 0) ⊎ (ip4 172 32 0 0 ≤ x)
  pub private_192 : (x < ip4 192 168 0 0) ⊎ (ip4 192 169 0 0 ≤ x)
  pub unicast : (x < ip4 224 0 0 0) ⊎ (ip4 256 0 0 0 ≤ x)

pub is_ip_denied-IsPublic : (l : Library) (x : ℕ) → is_ip_denied l (v4 x) ≡ false → IsPublic x
unfolding is_ip_denied
is_ip_denied-IsPublic l x h = record {
  past_zero = ground arith;
  private_10 = ground arith;
  shared = ground arith;
  loopback = ground arith;
  link_local = ground arith;
  private_172 = ground arith;
  private_192 = ground arith;
  unicast = ground arith;
}
