-- ===== src/Viewer/Relay.antt =====
-- The relay from a viewer to the browser (src/job_applier/web/edge_auth.py): `viewer_input_authorized` and
-- `client_to_upstream`. The relay holds the transport lock of the takeover from the test to the send, so each
-- message meets one state of the queue's database, at one reading of the UTC clock.
pub mod Spectator
use job_applier.Base.{ℕ, String, Bool, false, ◌&&◌, Option, List, [], ◌∷◌, ◌++◌, filled, is_text}
use job_applier.Queue.Db.{Db}
use job_applier.Queue.Takeover.{is_takeover_active}
use job_applier.Viewer.Rfb.{RfbReadOnlyState, filter_rfb_client_messages}

abbrev pub viewer_input_authorized :
    (viewer_owner : String) (takeover_active : Bool) (takeover_owner : Option String) → Bool
viewer_input_authorized viewer_owner takeover_active takeover_owner =
    takeover_active && (filled takeover_owner && is_text takeover_owner viewer_owner)

-- A message of the WebSocket, and what it meets.
pub record Arrival : Type 0 where
  pub payload : List ℕ
  pub db : Db
  pub utc : ℕ

abbrev pub allows_input : String → Arrival → Bool
allows_input viewer_owner a =
    let (takeover_active, takeover_owner, until) = is_takeover_active a.utc a.db in
    viewer_input_authorized viewer_owner takeover_active takeover_owner

-- The bytes that are sent on for the messages, in their order, and the state of the filter after them.
pub client_to_upstream :
    (viewer_owner : String) → List Arrival → RfbReadOnlyState → List ℕ × RfbReadOnlyState
client_to_upstream viewer_owner [] state = ([], state)
client_to_upstream viewer_owner (a ∷ more) state =
    let (filtered, next) =
      filter_rfb_client_messages a.payload (allows_input viewer_owner a) state in
    let (later, last) = client_to_upstream viewer_owner more next in (filtered ++ later, last)
