-- ===== src/Viewer/Handshake/Budget.antt =====
-- How much the handshake lets through.
use job_applier.Base.{
  ℕ, ◌+◌, ◌≤◌, Bool, true, false, not, ◌&&◌, ◌||◌, ltb, List, [], arith, if◌then◌else◌, ◌==◌,
}
use job_applier.Viewer.{length, take, drop, byte, length-append, length-take_le, has_prefix}
use job_applier.Viewer.Handshake.{
  RfbPhase, version, security_selection, vnc_auth_response, client_init, initialized, rejected,
  Shaken, stop_at, pass_on, at_client_init, at_vnc_auth_response, at_security_selection, at_version,
  shake_hands, rfb_magic,
}

-- How many bytes of the handshake are still to come at most.
abbrev pub budget : RfbPhase → ℕ
budget version = 30
budget security_selection = 18
budget vnc_auth_response = 17
budget client_init = 1
budget initialized = 0
budget rejected = 0

pub record Within (n : ℕ) (s : Shaken) : Type 0 where
  pub holds : length s.output + budget s.phase ≤ n

Within-if :
    {n : ℕ} (t : Bool) (x y : Shaken) → Within n x → Within n y → Within n (if t then x else y)
Within-if true x y h k = h
Within-if false x y h k = k

Within-pass :
    (k n : ℕ) (b : List ℕ) (s : Shaken) → Within n s → Within (k + n) (pass_on (take k b) s)
Within-pass k n b s h = record {
  holds = omega (arith, length-append (take k b) s.output, length-take_le k b, h.holds);
}

Within-stop : {n : ℕ} (p : RfbPhase) (b : List ℕ) → budget p ≤ n → Within n (stop_at p b)
Within-stop p b h = record { holds = omega arith }

at_client_init-Within : (b : List ℕ) → Within 1 (at_client_init b)
at_client_init-Within b =
    Within-if (ltb (length b) 1) _ _ (Within-stop client_init b (omega arith)) (
      Within-if (byte 0 b == 0 || byte 0 b == 1) _ _
        (Within-pass 1 0 b (stop_at initialized (drop 1 b))
          (Within-stop initialized (drop 1 b) (omega arith)))
        (Within-stop rejected [] (omega arith)))

at_vnc_auth_response-Within : (b : List ℕ) → Within 17 (at_vnc_auth_response b)
at_vnc_auth_response-Within b =
    Within-if (ltb (length b) 16) _ _ (Within-stop vnc_auth_response b (omega arith))
      (Within-pass 16 1 b (at_client_init (drop 16 b)) (at_client_init-Within (drop 16 b)))

loose : {m n : ℕ} (s : Shaken) → m ≤ n → Within m s → Within n s
loose s h k = record { holds = omega (arith, k.holds) }

at_security_selection-Within : (b : List ℕ) → Within 18 (at_security_selection b)
at_security_selection-Within b =
    Within-if (ltb (length b) 1) _ _ (Within-stop security_selection b (omega arith)) (
      Within-if (byte 0 b == 0) _ _ (Within-stop rejected [] (omega arith)) (
        Within-pass 1 17 b
          (if byte 0 b == 2 then at_vnc_auth_response (drop 1 b) else at_client_init (drop 1 b))
          (Within-if (byte 0 b == 2) _ _ (at_vnc_auth_response-Within (drop 1 b))
            (loose (at_client_init (drop 1 b)) (omega arith) (at_client_init-Within (drop 1 b))))))

at_version-Within : (b : List ℕ) → Within 30 (at_version b)
at_version-Within b =
    Within-if (ltb (length b) 12) _ _
      (Within-if (not (has_prefix rfb_magic (take 4 b)) && not (has_prefix b rfb_magic)) _ _
        (Within-stop rejected [] (omega arith)) (Within-stop version b (omega arith)))
      (Within-if (not (has_prefix b rfb_magic) || not (byte 11 b == 10)) _ _
        (Within-stop rejected [] (omega arith))
        (Within-pass 12 18 b (at_security_selection (drop 12 b))
          (at_security_selection-Within (drop 12 b))))

pub shake_hands-Within : (p : RfbPhase) (b : List ℕ) → Within (budget p) (shake_hands p b)
unfolding shake_hands
shake_hands-Within client_init b = at_client_init-Within b
shake_hands-Within vnc_auth_response b = at_vnc_auth_response-Within b
shake_hands-Within security_selection b = at_security_selection-Within b
shake_hands-Within version b = at_version-Within b
shake_hands-Within initialized b = Within-stop initialized b (omega arith)
shake_hands-Within rejected b = Within-stop rejected [] (omega arith)
