-- ===== src/Viewer/Handshake/Shrinks.antt =====
-- The handshake takes bytes off the buffer and puts none in.
use job_applier.Base.{
  ℕ, ◌≤◌, Bool, true, false, not, ◌&&◌, ◌||◌, ltb, List, [], arith, if◌then◌else◌, ◌==◌,
}
use job_applier.Viewer.{length, take, drop, byte, length-drop, has_prefix}
use job_applier.Viewer.Handshake.{
  RfbPhase, version, security_selection, vnc_auth_response, client_init, initialized, rejected,
  Shaken, stop_at, pass_on, at_client_init, at_vnc_auth_response, at_security_selection, at_version,
  shake_hands, rfb_magic,
}

pub record Shrinks (b : List ℕ) (s : Shaken) : Type 0 where
  pub holds : length s.buffer ≤ length b

Shrinks-if :
    (b : List ℕ) (t : Bool) (x y : Shaken)
    → Shrinks b x
    → Shrinks b y
    → Shrinks b (if t then x else y)
Shrinks-if b true x y h k = h
Shrinks-if b false x y h k = k

stays : (p : RfbPhase) (b : List ℕ) → Shrinks b (stop_at p b)
stays p b = record { holds = omega arith }

empties : (p : RfbPhase) (b : List ℕ) → Shrinks b (stop_at p [])
empties p b = record { holds = omega arith }

Shrinks-drop :
    (k : ℕ) (b out : List ℕ) (s : Shaken) → Shrinks (drop k b) s → Shrinks b (pass_on out s)
Shrinks-drop k b out s h = record { holds = omega (arith, h.holds, length-drop k b) }

at_client_init-Shrinks : (b : List ℕ) → Shrinks b (at_client_init b)
at_client_init-Shrinks b = Shrinks-if b (ltb (length b) 1) _ _ (stays client_init b) (
    Shrinks-if b (byte 0 b == 0 || byte 0 b == 1) _ _
      (Shrinks-drop 1 b (take 1 b) (stop_at initialized (drop 1 b)) (stays initialized (drop 1 b)))
      (empties rejected b))

at_vnc_auth_response-Shrinks : (b : List ℕ) → Shrinks b (at_vnc_auth_response b)
at_vnc_auth_response-Shrinks b = Shrinks-if b (ltb (length b) 16) _ _ (stays vnc_auth_response b) (
    Shrinks-drop 16 b (take 16 b) (at_client_init (drop 16 b)) (at_client_init-Shrinks (drop 16 b)))

at_security_selection-Shrinks : (b : List ℕ) → Shrinks b (at_security_selection b)
at_security_selection-Shrinks b = Shrinks-if b (ltb (length b) 1) _ _ (stays security_selection b) (
    Shrinks-if b (byte 0 b == 0) _ _ (empties rejected b) (
      Shrinks-drop 1 b (take 1 b)
        (if byte 0 b == 2 then at_vnc_auth_response (drop 1 b) else at_client_init (drop 1 b))
        (Shrinks-if (drop 1 b) (byte 0 b == 2) _ _ (at_vnc_auth_response-Shrinks (drop 1 b))
          (at_client_init-Shrinks (drop 1 b)))))

at_version-Shrinks : (b : List ℕ) → Shrinks b (at_version b)
at_version-Shrinks b =
    Shrinks-if b (ltb (length b) 12) _ _
      (Shrinks-if b (not (has_prefix rfb_magic (take 4 b)) && not (has_prefix b rfb_magic)) _ _
        (empties rejected b) (stays version b))
      (Shrinks-if b (not (has_prefix b rfb_magic) || not (byte 11 b == 10)) _ _ (empties rejected b)
        (Shrinks-drop 12 b (take 12 b) (at_security_selection (drop 12 b))
          (at_security_selection-Shrinks (drop 12 b))))

pub shake_hands-Shrinks : (p : RfbPhase) (b : List ℕ) → Shrinks b (shake_hands p b)
unfolding shake_hands
shake_hands-Shrinks version b = at_version-Shrinks b
shake_hands-Shrinks security_selection b = at_security_selection-Shrinks b
shake_hands-Shrinks vnc_auth_response b = at_vnc_auth_response-Shrinks b
shake_hands-Shrinks client_init b = at_client_init-Shrinks b
shake_hands-Shrinks initialized b = stays initialized b
shake_hands-Shrinks rejected b = empties rejected b
