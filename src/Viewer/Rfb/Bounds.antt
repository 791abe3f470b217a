-- ===== src/Viewer/Rfb/Bounds.antt =====
-- The memory that a viewer can make the filter hold.
use job_applier.Base.{
  ℕ, ◌≤◌, Bool, true, false, not, ◌&&◌, ◌||◌, inl, inr, Bool-cases, ltb, Option, List, [], ◌∷◌,
  ◌++◌, arith, if◌then◌else◌, is_none,
}
use job_applier.Viewer.{length}
use job_applier.Viewer.Handshake.{Shaken, shake_hands}
use job_applier.Viewer.Handshake.Shrinks.{shake_hands-Shrinks}
use job_applier.Viewer.Rfb.{
  RfbReadOnlyState, is_empty, filter_initialized_rfb_messages, is_initialized, is_rejected,
  crosses_epoch, tag_buffer, after_handshake, filter_rfb_client_messages, filter_all,
  max_rfb_buffer_size,
}
use job_applier.Viewer.Rfb.Fragments.{pump-rest}

-- The buffer of a state is not longer than that.
record Holds (n : ℕ) (s : RfbReadOnlyState) : Type 0 where
  pub holds : length s.buffer ≤ n

Holds-if :
    (n : ℕ) (t : Bool) (x y : List ℕ × RfbReadOnlyState)
    → Holds n x.1
    → Holds n y.1
    → Holds n (if t then x else y).1
Holds-if n true x y h k = h
Holds-if n false x y h k = k

filter_initialized-Holds :
    (n : ℕ) (allow_input : Bool) (s : RfbReadOnlyState)
    → Holds n s
    → Holds n (filter_initialized_rfb_messages allow_input s).1
unfolding filter_initialized_rfb_messages
filter_initialized-Holds n allow_input s h =
    Holds-if n (is_empty s.buffer) _ _ h
      (record { holds = omega (arith, h.holds, pump-rest allow_input (length s.buffer) s.buffer) })

tag_buffer-Holds :
    (n : ℕ) (allow_input : Bool) (s : RfbReadOnlyState)
    → Holds n s
    → Holds n (tag_buffer allow_input s)
tag_buffer-Holds n allow_input s h =
    elim (Bool-cases (not (is_empty s.buffer) && is_none s.buffer_allow_input)) [
      | inl e ↦ simp e (record { holds = h.holds })
      | inr e ↦ simp e h
    ]

after_handshake-Holds :
    (n : ℕ) (allow_input : Bool) (tag : Option Bool) (s : Shaken)
    → length s.buffer ≤ n
    → Holds n (after_handshake allow_input tag s).1
after_handshake-Holds n allow_input tag s h =
    let state : RfbReadOnlyState = record {
      phase = s.phase;
      buffer = s.buffer;
      buffer_allow_input = tag;
    } in
    Holds-if n (is_initialized s.phase) _ _
      (filter_initialized-Holds n allow_input (tag_buffer allow_input state)
        (tag_buffer-Holds n allow_input state (record { holds = h })))
      (record { holds = h })

filter-Holds :
    (payload : List ℕ) (allow_input : Bool) (state : RfbReadOnlyState)
    → Holds max_rfb_buffer_size state
    → Holds max_rfb_buffer_size (filter_rfb_client_messages payload allow_input state).1
unfolding filter_rfb_client_messages
filter-Holds payload allow_input state h =
    let buffer = state.buffer ++ payload in
    let shaken = shake_hands state.phase buffer in
    let less = (shake_hands-Shrinks state.phase buffer).holds in
    Holds-if max_rfb_buffer_size (is_empty payload || is_rejected state.phase) _ _ h (
      Holds-if max_rfb_buffer_size (crosses_epoch allow_input state) _ _
        (record { holds = omega arith })
        (elim (Bool-cases (ltb max_rfb_buffer_size (length buffer))) [
          | inl e ↦ simp e (record { holds = omega arith })
          | inr e ↦ simp e (
              after_handshake-Holds max_rfb_buffer_size allow_input state.buffer_allow_input shaken
                (ground (arith, e, less)))
        ]))

filter_all-Holds :
    (calls : List (List ℕ × Bool)) (state : RfbReadOnlyState)
    → Holds max_rfb_buffer_size state
    → Holds max_rfb_buffer_size (filter_all calls state).1
unfolding filter_all
filter_all-Holds [] state h = h
filter_all-Holds ((payload, allow_input) ∷ more) state h =
    filter_all-Holds more (filter_rfb_client_messages payload allow_input state).1
      (filter-Holds payload allow_input state h)

-- Between two calls the filter keeps no more than 1 MiB of a viewer's bytes, whatever the viewer sends and
-- whenever its authorization changes. It is assumed that it keeps no more than that at the start.
pub filter_all-bounded :
    (calls : List (List ℕ × Bool)) (state : RfbReadOnlyState)
    → length state.buffer ≤ 1048576
    → length (filter_all calls state).1.buffer ≤ 1048576
filter_all-bounded calls state h = (filter_all-Holds calls state (record { holds = h })).holds
