-- ===== src/Viewer/Handshake.antt =====
-- The handshake of the viewer's protocol (src/job_applier/web/edge_auth.py): the loop of
-- `filter_rfb_client_messages` before the phase `initialized`.
pub mod Budget
pub mod Shrinks
use job_applier.Base.{
  ℕ, Bool, true, false, not, ◌&&◌, ◌||◌, List, [], ◌∷◌, ◌++◌, ltb, ◌==◌, if◌then◌else◌,
}
use job_applier.Viewer.{length, take, drop, byte, has_prefix}

pub data RfbPhase : Type 0 where
  version security_selection vnc_auth_response client_init initialized rejected : RfbPhase

-- b"RFB "
abbrev pub rfb_magic : List ℕ
rfb_magic = 82 ∷ 70 ∷ 66 ∷ 32 ∷ []

-- What the loop of the handshake leaves: the bytes that pass, and the phase and the buffer where it stops.
pub record Shaken : Type 0 where
  pub output : List ℕ
  pub phase : RfbPhase
  pub buffer : List ℕ

abbrev pub stop_at : RfbPhase → List ℕ → Shaken
stop_at phase buffer = record { output = []; phase = phase; buffer = buffer }

abbrev pub pass_on : List ℕ → Shaken → Shaken
pass_on bytes s = record s { output = bytes ++ s.output }

abbrev pub at_client_init : List ℕ → Shaken
at_client_init buffer =
    if ltb (length buffer) 1
    then stop_at client_init buffer
    else if byte 0 buffer == 0 || byte 0 buffer == 1
    then pass_on (take 1 buffer) (stop_at initialized (drop 1 buffer))
    else stop_at rejected []

abbrev pub at_vnc_auth_response : List ℕ → Shaken
at_vnc_auth_response buffer =
    if ltb (length buffer) 16
    then stop_at vnc_auth_response buffer
    else pass_on (take 16 buffer) (at_client_init (drop 16 buffer))

abbrev pub at_security_selection : List ℕ → Shaken
at_security_selection buffer =
    if ltb (length buffer) 1
    then stop_at security_selection buffer
    else if byte 0 buffer == 0
    then stop_at rejected []
    else pass_on (take 1 buffer) (
        if byte 0 buffer == 2
        then at_vnc_auth_response (drop 1 buffer)
        else at_client_init (drop 1 buffer))

abbrev pub at_version : List ℕ → Shaken
at_version buffer =
    if ltb (length buffer) 12
    then if not (has_prefix rfb_magic (take 4 buffer)) && not (has_prefix buffer rfb_magic)
      then stop_at rejected []
      else stop_at version buffer
    else if not (has_prefix buffer rfb_magic) || not (byte 11 buffer == 10)
    then stop_at rejected []
    else pass_on (take 12 buffer) (at_security_selection (drop 12 buffer))

-- The loop, which goes forward through the phases.
unfoldable pub shake_hands : RfbPhase → List ℕ → Shaken
shake_hands version buffer = at_version buffer
shake_hands security_selection buffer = at_security_selection buffer
shake_hands vnc_auth_response buffer = at_vnc_auth_response buffer
shake_hands client_init buffer = at_client_init buffer
shake_hands initialized buffer = stop_at initialized buffer
shake_hands rejected buffer = stop_at rejected []
