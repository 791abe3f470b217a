-- ===== src/Viewer/Rfb.antt =====
-- The read-only filter of the viewer's messages (src/job_applier/web/edge_auth.py):
-- `filter_rfb_client_messages` and `_filter_initialized_rfb_messages`. A buffer is the rest of the data from
-- the current offset on.
pub mod Stream
pub mod Fragments
pub mod Viewing
pub mod Bounds
use job_applier.Base.{
  ℕ, zero, suc, ◌+◌, ◌*◌, Bool, true, false, not, ◌&&◌, ◌||◌, Option, none, some, List, [], ◌∷◌,
  ◌++◌, ltb, ◌==◌, if◌then◌else◌, is_none,
}
use job_applier.Viewer.Handshake.{
  RfbPhase, version, security_selection, vnc_auth_response, client_init, initialized, rejected,
  Shaken, shake_hands, rfb_magic,
}
use job_applier.Viewer.{length, take, drop, byte, has_prefix, unpack_h, unpack_i}

pub record RfbReadOnlyState : Type 0 where
  pub phase : RfbPhase
  pub buffer : List ℕ
  pub buffer_allow_input : Option Bool

abbrev pub fresh_state : RfbReadOnlyState
fresh_state = record { phase = version; buffer = []; buffer_allow_input = none }

abbrev pub max_rfb_buffer_size : ℕ
max_rfb_buffer_size = 1024 * 1024

-- The message at the start of a buffer: of an unknown type, not there as a whole yet, or that many bytes.
pub data Frame : Type 0 where
  unknown short : Frame
  whole : (msg_len : ℕ) → Frame

abbrev pub complete : ℕ → List ℕ → Frame
complete msg_len buffer = if ltb (length buffer) msg_len then short else whole msg_len

-- The types are SetPixelFormat, SetEncodings, FramebufferUpdateRequest, KeyEvent, PointerEvent and
-- ClientCutText.
unfoldable pub frame : List ℕ → Frame
frame buffer =
    let msg_type = byte 0 buffer in
    if ltb (length buffer) 1
    then short
    else if msg_type == 0
    then complete 20 buffer
    else if msg_type == 2
    then if ltb (length buffer) 4 then short else complete (4 + 4 * unpack_h 2 buffer) buffer
    else if msg_type == 3
    then complete 10 buffer
    else if msg_type == 4
    then complete 8 buffer
    else if msg_type == 5
    then complete 6 buffer
    else if msg_type == 6
    then if ltb (length buffer) 8 then short else complete (8 + unpack_i 4 buffer) buffer
    else unknown

-- KeyEvent, PointerEvent and ClientCutText
abbrev pub is_input : List ℕ → Bool
is_input buffer = byte 0 buffer == 4 || (byte 0 buffer == 5 || byte 0 buffer == 6)

-- What the loop leaves: the messages that pass, the bytes that are kept, and whether it met no unknown type.
pub record Pumped : Type 0 where
  pub clean : List ℕ
  pub rest : List ℕ
  pub is_known : Bool

-- One round of the loop; `go` is the loop from the offset behind the message on.
abbrev pub on_frame : (allow_input : Bool) → List ℕ → (go : ℕ → Pumped) → Frame → Pumped
on_frame allow_input buffer go unknown = record { clean = []; rest = []; is_known = false }
on_frame allow_input buffer go short = record { clean = []; rest = buffer; is_known = true }
on_frame allow_input buffer go (whole msg_len) = record {
  clean =
      if allow_input || not (is_input buffer)
      then take msg_len buffer ++ (go msg_len).clean
      else (go msg_len).clean;
  rest = (go msg_len).rest;
  is_known = (go msg_len).is_known;
}

-- The loop, on fuel. Every message has a byte, so the length of the buffer is enough.
unfoldable pub pump : (fuel : ℕ) (allow_input : Bool) → List ℕ → Pumped
pump zero allow_input buffer = record { clean = []; rest = buffer; is_known = true }
pump (suc fuel) allow_input buffer =
    on_frame allow_input buffer (λ msg_len. pump fuel allow_input (drop msg_len buffer))
      (frame buffer)

abbrev pub is_empty : List ℕ → Bool
is_empty [] = true
is_empty (x ∷ xs) = false

-- `_filter_initialized_rfb_messages` on the buffer of the state
unfoldable pub filter_initialized_rfb_messages :
    (allow_input : Bool) → RfbReadOnlyState → List ℕ × RfbReadOnlyState
filter_initialized_rfb_messages allow_input state =
    let r = pump (length state.buffer) allow_input state.buffer in
    if is_empty state.buffer then ([], state) else (
      r.clean,
      record state {
        buffer = r.rest;
        buffer_allow_input = if is_empty r.rest then none else state.buffer_allow_input;
      },
    )

-- `filter_rfb_client_messages` without a state
pub filter_once : (payload : List ℕ) (allow_input : Bool) → List ℕ
filter_once payload allow_input =
    if is_empty payload || has_prefix payload rfb_magic
    then payload
    else (pump (length payload) allow_input payload).clean

abbrev pub is_initialized : RfbPhase → Bool
is_initialized initialized = true
is_initialized _ = false

abbrev pub is_rejected : RfbPhase → Bool
is_rejected rejected = true
is_rejected _ = false

abbrev pub differs : Option Bool → Bool → Bool
differs none allow_input = false
differs (some true) allow_input = not allow_input
differs (some false) allow_input = allow_input

-- A fragment that began under another authorization.
abbrev pub crosses_epoch : Bool → RfbReadOnlyState → Bool
crosses_epoch allow_input state =
    is_initialized state.phase
    && (not (is_empty state.buffer) && differs state.buffer_allow_input allow_input)

-- The authorization that the bytes behind the handshake arrived under, unless it is known.
abbrev pub tag_buffer : (allow_input : Bool) → RfbReadOnlyState → RfbReadOnlyState
tag_buffer allow_input state =
    if not (is_empty state.buffer) && is_none state.buffer_allow_input
    then record state { buffer_allow_input = some allow_input }
    else state

abbrev pub behind : List ℕ → List ℕ × RfbReadOnlyState → List ℕ × RfbReadOnlyState
behind output (clean, left) = (output ++ clean, left)

-- What follows the loop of the handshake.
abbrev pub after_handshake : (allow_input : Bool) → Option Bool → Shaken → List ℕ × RfbReadOnlyState
after_handshake allow_input tag s =
    let state : RfbReadOnlyState = record {
      phase = s.phase;
      buffer = s.buffer;
      buffer_allow_input = tag;
    } in
    if is_initialized s.phase
    then behind s.output
        (filter_initialized_rfb_messages allow_input (tag_buffer allow_input state))
    else (s.output, state)

pub filter_rfb_client_messages :
    (payload : List ℕ) (allow_input : Bool) → RfbReadOnlyState → List ℕ × RfbReadOnlyState
unfolding shake_hands
filter_rfb_client_messages payload allow_input state =
    if is_empty payload || is_rejected state.phase
    then ([], state)
    else if crosses_epoch allow_input state
    then ([], record state { buffer = []; buffer_allow_input = none })
    else if ltb max_rfb_buffer_size (length (state.buffer ++ payload))
    then ([], record state { buffer = []; phase = rejected })
    else after_handshake allow_input state.buffer_allow_input
        (shake_hands state.phase (state.buffer ++ payload))

-- The calls for the messages of one connection, each with the authorization of its moment.
unfoldable pub filter_all : List (List ℕ × Bool) → RfbReadOnlyState → List ℕ × RfbReadOnlyState
unfolding filter_rfb_client_messages
filter_all [] state = ([], state)
filter_all ((payload, allow_input) ∷ more) state =
    let (output, next) = filter_rfb_client_messages payload allow_input state in
    let (later, last) = filter_all more next in (output ++ later, last)
