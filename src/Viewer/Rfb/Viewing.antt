-- ===== src/Viewer/Rfb/Viewing.antt =====
-- What a viewer that may only look gets through to the browser.
use job_applier.Base.{
  ℕ, ◌+◌, ◌≡◌, ◌≤◌, refl, sym, ◌∙◌, Bool, true, false, ◌||◌, inl, inr, Bool-cases, ltb, Option,
  List, [], ◌∷◌, ◌++◌, arith, if◌then◌else◌, map, ◌==◌,
}
use job_applier.Viewer.{length, length-append, append_assoc, append_empty}
use job_applier.Viewer.Handshake.{
  RfbPhase, version, security_selection, vnc_auth_response, client_init, initialized, rejected,
  Shaken, shake_hands,
}
use job_applier.Viewer.Handshake.Budget.{budget, Within, shake_hands-Within}
use job_applier.Viewer.Rfb.{
  RfbReadOnlyState, fresh_state, is_empty, filter_initialized_rfb_messages, is_initialized,
  is_rejected, crosses_epoch, tag_buffer, behind, after_handshake, filter_rfb_client_messages,
  filter_all, max_rfb_buffer_size,
}
use job_applier.Viewer.Rfb.Stream.{Stream, done, pump-Stream, Stream-append}

-- What one call lets through: bytes of the handshake, and behind it messages without input.
record Passed (before after_it : RfbPhase) (output : List ℕ) : Type 0 where
  pub greeting : List ℕ
  pub messages : List ℕ
  pub parts : output ≡ (greeting ++ messages)
  pub spent : length greeting + budget after_it ≤ budget before
  pub viewing : Stream false messages
  pub settled : (is_empty messages || budget after_it == 0) ≡ true

nothing : (p q : RfbPhase) → budget q ≤ budget p → Passed p q []
nothing p q h = record {
  greeting = [];
  messages = [];
  parts = refl;
  spent = omega arith;
  viewing = done;
  settled = refl;
}

filter_initialized-Stream :
    (s : RfbReadOnlyState)
    → Stream false (filter_initialized_rfb_messages false s).0
      × ((filter_initialized_rfb_messages false s).1.phase ≡ s.phase)
unfolding filter_initialized_rfb_messages
filter_initialized-Stream s = elim (Bool-cases (is_empty s.buffer)) [
  | inl e ↦ simp e (done, refl)
  | inr e ↦ simp e (pump-Stream (length s.buffer) false s.buffer, refl)
]

Passed-if :
    {p : RfbPhase} (t : Bool) (x y : List ℕ × RfbReadOnlyState)
    → Passed p x.1.phase x.0
    → Passed p y.1.phase y.0
    → Passed p (if t then x else y).1.phase (if t then x else y).0
Passed-if true x y h k = h
Passed-if false x y h k = k

initialized_now : (p q : RfbPhase) → q ≡ p → is_initialized p ≡ true → q ≡ initialized
initialized_now initialized q e h = e
initialized_now version q e h = cc h
initialized_now security_selection q e h = cc h
initialized_now vnc_auth_response q e h = cc h
initialized_now client_init q e h = cc h
initialized_now rejected q e h = cc h

greeted :
    (p : RfbPhase) (s : Shaken) (x : List ℕ × RfbReadOnlyState)
    → Within (budget p) s
    → is_initialized s.phase ≡ true
    → (Stream false x.0 × (x.1.phase ≡ s.phase))
    → Passed p (behind s.output x).1.phase (behind s.output x).0
greeted p s (clean, left) w e (stream, same) =
    let now : left.phase ≡ initialized = initialized_now s.phase left.phase same e in
    let room = w.holds in
    record {
      greeting = s.output;
      messages = clean;
      parts = refl;
      spent = rw now (omega arith);
      viewing = stream;
      settled = rw now (ground arith);
    }

greeting_only : (p : RfbPhase) (s : Shaken) → Within (budget p) s → Passed p s.phase s.output
greeting_only p s w = record {
  greeting = s.output;
  messages = [];
  parts = sym (append_empty s.output);
  spent = w.holds;
  viewing = done;
  settled = refl;
}

tag_buffer-phase : (s : RfbReadOnlyState) → (tag_buffer false s).phase ≡ s.phase
tag_buffer-phase s = ground arith

after_handshake-Passed :
    (p : RfbPhase) (tag : Option Bool) (s : Shaken)
    → Within (budget p) s
    → Passed p (after_handshake false tag s).1.phase (after_handshake false tag s).0
after_handshake-Passed p tag s w =
    let state : RfbReadOnlyState = record {
      phase = s.phase;
      buffer = s.buffer;
      buffer_allow_input = tag;
    } in
    elim (Bool-cases (is_initialized s.phase)) [
      | inl e ↦
          let (stream, same) = filter_initialized-Stream (tag_buffer false state) in
          simp e (
            greeted p s (filter_initialized_rfb_messages false (tag_buffer false state)) w e
              (stream, same ∙ tag_buffer-phase state))
      | inr e ↦ simp e (greeting_only p s w)
    ]

filter-Passed :
    (payload : List ℕ) (state : RfbReadOnlyState)
    → Passed state.phase
        (filter_rfb_client_messages payload false state).1.phase
        (filter_rfb_client_messages payload false state).0
unfolding filter_rfb_client_messages
filter-Passed payload state =
    let buffer = state.buffer ++ payload in
    Passed-if (is_empty payload || is_rejected state.phase) _ _
      (nothing state.phase state.phase (omega arith))
      (Passed-if (crosses_epoch false state) _ _ (nothing state.phase state.phase (omega arith)) (
        Passed-if (ltb max_rfb_buffer_size (length buffer)) _ _
          (nothing state.phase rejected (omega arith))
          (after_handshake-Passed state.phase state.buffer_allow_input
            (shake_hands state.phase buffer) (shake_hands-Within state.phase buffer))))

Passed-both : {p q r : RfbPhase} {a b : List ℕ} → Passed p q a → Passed q r b → Passed p r (a ++ b)
Passed-both {p} {q} {r} {a} {b} f g =
    let spent = f.spent in
    let spent' = g.spent in
    elim (Bool-cases (is_empty f.messages)) [
      | inl e ↦ record {
        greeting = f.greeting ++ g.greeting;
        messages = g.messages;
        parts =
            rw (f.parts, g.parts, no_messages f.messages e, append_empty f.greeting)
              (sym (append_assoc f.greeting g.greeting g.messages));
        spent = omega (arith, length-append f.greeting g.greeting);
        viewing = g.viewing;
        settled = g.settled;
      }
      | inr e ↦
          let over : budget q ≡ 0 = ground (arith, f.settled, e) in
          record {
            greeting = f.greeting;
            messages = f.messages ++ g.messages;
            parts =
                rw (f.parts, g.parts, no_bytes g.greeting (omega arith))
                  (append_assoc f.greeting f.messages g.messages);
            spent = omega arith;
            viewing = Stream-append f.viewing g.viewing;
            settled = over_settled (f.messages ++ g.messages) (omega arith);
          }
    ]
  where
    no_messages : (xs : List ℕ) → is_empty xs ≡ true → xs ≡ []
    no_messages [] h = refl
    no_messages (x ∷ xs) h = cc h

    no_bytes : (xs : List ℕ) → length xs ≤ 0 → xs ≡ []
    no_bytes [] h = refl
    no_bytes (x ∷ xs) h = ground arith

    over_settled : (xs : List ℕ) → budget r ≡ 0 → (is_empty xs || budget r == 0) ≡ true
    over_settled xs h = ground arith

filter_all-Passed :
    (payloads : List (List ℕ)) (state : RfbReadOnlyState)
    → Passed state.phase
        (filter_all (map (λ payload. (payload, false)) payloads) state).1.phase
        (filter_all (map (λ payload. (payload, false)) payloads) state).0
unfolding filter_all
filter_all-Passed [] state = nothing state.phase state.phase (omega arith)
filter_all-Passed (payload ∷ payloads) state =
    Passed-both (filter-Passed payload state)
      (filter_all-Passed payloads (filter_rfb_client_messages payload false state).1)

-- The same of all calls on a new connection, none of which is authorized.
pub filter_all-viewing :
    (payloads : List (List ℕ))
    → (greeting : List ℕ) × (messages : List ℕ) × ((filter_all
          (map (λ payload. (payload, false)) payloads)
          fresh_state).0
        ≡ (greeting ++ messages))
      × (length greeting ≤ 30)
      × Stream false messages
filter_all-viewing payloads =
    let passed = filter_all-Passed payloads fresh_state in
    let spent = passed.spent in
    (passed.greeting, passed.messages, passed.parts, omega arith, passed.viewing)
