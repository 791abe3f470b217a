-- ===== src/Tests/Viewer.antt =====
-- The filter on a viewer's bytes.
use job_applier.Base.{ℕ, ◌≡◌, ◌≤◌, refl, List, [], ◌∷◌, ◌++◌, true, false, map, arith}
use job_applier.Viewer.{length}
use job_applier.Viewer.Rfb.{
  filter_initialized_rfb_messages, fresh_state, short, frame, pump, filter_all,
}
use job_applier.Viewer.Rfb.Fragments.{pump-append, pump-ends, pump-lossless}
use job_applier.Viewer.Rfb.Bounds.{filter_all-bounded}

-- A key event, a request for the screen, and the beginning of a pointer event.
abbrev key_event : List ℕ
key_event = 4 ∷ 1 ∷ 0 ∷ 0 ∷ 0 ∷ 0 ∷ 0 ∷ 65 ∷ []

abbrev update_request : List ℕ
update_request = 3 ∷ 0 ∷ 0 ∷ 0 ∷ 0 ∷ 0 ∷ 4 ∷ 0 ∷ 3 ∷ 0 ∷ []

abbrev half_pointer : List ℕ
half_pointer = 5 ∷ 1 ∷ 0 ∷ []

abbrev greeting : List ℕ
greeting = 82 ∷ 70 ∷ 66 ∷ 32 ∷ 48 ∷ 48 ∷ 51 ∷ 46 ∷ 48 ∷ 48 ∷ 56 ∷ 10 ∷ 1 ∷ 1 ∷ []

abbrev payloads : List (List ℕ)
payloads = greeting ∷ (key_event ++ update_request) ∷ half_pointer ∷ []

-- What goes on: the handshake and the request for the screen.
viewed :
    (filter_all (map (λ payload. (payload, false)) payloads) fresh_state).0
    ≡ (greeting ++ update_request)
unfolding filter_all filter_initialized_rfb_messages pump frame
viewed = refl

pump-append_example :
    ((pump 30 false (key_event ++ half_pointer ++ half_pointer)).clean ≡ (
      (pump 30 false (key_event ++ half_pointer)).clean
      ++ (pump 40 false ((pump 30 false (key_event ++ half_pointer)).rest ++ half_pointer)).clean))
    × ((pump 30 false (key_event ++ half_pointer ++ half_pointer)).rest
        ≡ (pump 40 false ((pump 30 false (key_event ++ half_pointer)).rest ++ half_pointer)).rest)
unfolding pump frame
pump-append_example =
    pump-append false 30 40 (key_event ++ half_pointer) half_pointer (omega arith) (omega arith)
      refl

pump-ends_example : frame (pump 11 false (key_event ++ half_pointer)).rest ≡ short
pump-ends_example = pump-ends false 11 (key_event ++ half_pointer) (omega arith)

pump-lossless_example :
    ((pump 11 true (key_event ++ half_pointer)).clean
      ++ (pump 11 true (key_event ++ half_pointer)).rest)
    ≡ (key_event ++ half_pointer)
unfolding pump frame
pump-lossless_example = pump-lossless 11 (key_event ++ half_pointer) refl

filter_all-bounded_example :
    length (filter_all ((greeting, false) ∷ (half_pointer, true) ∷ []) fresh_state).1.buffer
    ≤ 1048576
filter_all-bounded_example =
    filter_all-bounded ((greeting, false) ∷ (half_pointer, true) ∷ []) fresh_state (omega arith)
