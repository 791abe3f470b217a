-- ===== src/Viewer/Relay/Spectator.antt =====
-- A viewer that does not hold the takeover.
use job_applier.Base.{
  ℕ, ◌≡◌, ◌≤◌, refl, ap, ◌∙◌, String, Bool, true, false, not, ◌&&◌, List, [], ◌∷◌, ◌++◌, map, arith,
  is_text,
}
use job_applier.Queue.Takeover.Exclusion.{is_takeover_active-other}
use job_applier.Viewer.{length}
use job_applier.Viewer.Rfb.{RfbReadOnlyState, fresh_state, filter_rfb_client_messages, filter_all}
use job_applier.Viewer.Rfb.Stream.{Stream}
use job_applier.Viewer.Rfb.Viewing.{filter_all-viewing}
use job_applier.Viewer.Relay.{Arrival, allows_input, client_to_upstream}

-- At each of the arrivals the name of the takeover's owner is not the viewer's.
abbrev pub never_owner : String → List Arrival → Bool
never_owner viewer_owner [] = true
never_owner viewer_owner (a ∷ more) =
    not (is_text a.db.control.manual_takeover_owner viewer_owner) && never_owner viewer_owner more

not_allowed :
    (viewer_owner : String) (a : Arrival)
    → is_text a.db.control.manual_takeover_owner viewer_owner ≡ false
    → allows_input viewer_owner a ≡ false
not_allowed viewer_owner a h =
    let other = is_takeover_active-other a.utc a.db viewer_owner h in ground arith

as_spectator :
    (viewer_owner : String) (arrivals : List Arrival) (state : RfbReadOnlyState)
    → never_owner viewer_owner arrivals ≡ true
    → client_to_upstream viewer_owner arrivals state
      ≡ filter_all
          (map (λ payload. (payload, false)) (map (λ (a : Arrival). a.payload) arrivals))
          state
unfolding client_to_upstream filter_all
as_spectator viewer_owner [] state h = refl
as_spectator viewer_owner (a ∷ more) state h =
    let here : is_text a.db.control.manual_takeover_owner viewer_owner ≡ false = ground arith in
    let rest : never_owner viewer_owner more ≡ true = ground arith in
    rw (
      not_allowed viewer_owner a here,
      as_spectator viewer_owner more (filter_rfb_client_messages a.payload false state).1 rest,
    )

-- Of a viewer that is never the owner of the takeover the relay sends on at most 30 bytes while the filter is in
-- its handshake, which it does not look at as messages, and behind them whole messages, as the filter cuts
-- them, none of which is a key event, a pointer event or a clipboard text, whatever happens to the queue
-- meanwhile. A server that reads the handshake in another way cuts the bytes in another way.
pub client_to_upstream-spectator :
    (viewer_owner : String) (arrivals : List Arrival)
    → never_owner viewer_owner arrivals ≡ true
    → (greeting : List ℕ) × (messages : List ℕ) × ((client_to_upstream viewer_owner arrivals
          fresh_state).0
        ≡ (greeting ++ messages))
      × (length greeting ≤ 30)
      × Stream false messages
client_to_upstream-spectator viewer_owner arrivals h =
    let (greeting, messages, parts, short, stream) =
      filter_all-viewing (map (λ (a : Arrival). a.payload) arrivals) in
    (
      greeting,
      messages,
      ap (λ (r : List ℕ × RfbReadOnlyState). r.0) (as_spectator viewer_owner arrivals fresh_state h)
          ∙ parts,
      short,
      stream,
    )
