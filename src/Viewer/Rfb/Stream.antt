-- ===== src/Viewer/Rfb/Stream.antt =====
-- The messages of a stream, and what the loop of the filter passes of them.
use job_applier.Base.{
  ◌⊎◌, ◌*◌, ◌+◌, false, ℕ, zero, suc, ◌≡◌, ◌≤◌, ◌<◌, refl, sym, subst, ap, ◌∙◌, Bool, true, not,
  ◌||◌, inl, inr, Bool-cases, List, [], ◌++◌, arith,
}
use job_applier.Viewer.{
  length, take, drop, byte, length-take, byte-take, byte-append, length-append, append_assoc,
}
use job_applier.Viewer.Rfb.{Frame, unknown, short, whole, frame, is_input, pump}

pub frame-bounds : (b : List ℕ) (l : ℕ) → frame b ≡ whole l → (4 ≤ l) × (l ≤ length b)
unfolding frame
frame-bounds b l h = (ground arith, ground arith)

-- The kind of a message is read from its own bytes.
frame-agrees :
    (b c : List ℕ) (l : ℕ)
    → frame b ≡ whole l
    → l ≤ length c
    → ((n : ℕ) → n < l → byte n c ≡ byte n b)
    → frame c ≡ whole l
unfolding frame
frame-agrees b c l h long agree =
    let (big, fits) = frame-bounds b l h in
    ground (arith, agree 0, agree 2, agree 3, agree 4, agree 5, agree 6, agree 7)

frame-take : (b : List ℕ) (l : ℕ) → frame b ≡ whole l → frame (take l b) ≡ whole l
frame-take b l h =
    let (big, fits) = frame-bounds b l h in
    frame-agrees b (take l b) l h (rw (length-take l b fits) (omega arith))
      (λ n under. byte-take n l b under)

pub frame-append : (b more : List ℕ) (l : ℕ) → frame b ≡ whole l → frame (b ++ more) ≡ whole l
frame-append b more l h =
    let (big, fits) = frame-bounds b l h in
    frame-agrees b (b ++ more) l h (rw (length-append b more) (omega arith))
      (λ n under. byte-append n b more (omega arith))

is_input-take : (b : List ℕ) (l : ℕ) → 4 ≤ l → is_input (take l b) ≡ is_input b
is_input-take b l h = rw (byte-take 0 l b (omega arith))

-- The messages of RFC 6143 that a viewer sends to see the screen: SetPixelFormat, SetEncodings and
-- FramebufferUpdateRequest, each as long as the protocol has it.
abbrev pub IsViewing : List ℕ → Type 0
IsViewing m =
    ((byte 0 m ≡ 0) × (length m ≡ 20))
    ⊎ (((byte 0 m ≡ 2) × (length m ≡ 4 + 4 * (256 * byte 2 m + byte 3 m)))
        ⊎ ((byte 0 m ≡ 3) × (length m ≡ 10)))

-- And those that act on it: KeyEvent, PointerEvent and ClientCutText.
abbrev pub IsActing : List ℕ → Type 0
IsActing m =
    ((byte 0 m ≡ 4) × (length m ≡ 8))
    ⊎ (((byte 0 m ≡ 5) × (length m ≡ 6))
        ⊎ ((byte 0 m ≡ 6)
            × (length m ≡ 8 + (65536 * (256 * byte 4 m + byte 5 m) + (256 * byte 6 m + byte 7 m)))))

-- A sequence of whole messages, each of which may pass.
pub data Stream (allow_input : Bool) : List ℕ → Type 0 where
  done : Stream allow_input []
  view :
      (m : List ℕ) {more : List ℕ}
      → IsViewing m
      → Stream allow_input more
      → Stream allow_input (m ++ more)
  act :
      (m : List ℕ) {more : List ℕ}
      → IsActing m
      → allow_input ≡ true
      → Stream allow_input more
      → Stream allow_input (m ++ more)

frame-IsViewing : (m : List ℕ) → frame m ≡ whole (length m) → is_input m ≡ false → IsViewing m
unfolding frame
frame-IsViewing m h passes = ground arith

frame-IsActing : (m : List ℕ) → frame m ≡ whole (length m) → is_input m ≡ true → IsActing m
unfolding frame
frame-IsActing m h input = ground arith

pub next :
    {allow_input : Bool} (m : List ℕ) {more : List ℕ}
    → frame m ≡ whole (length m)
    → (allow_input || not (is_input m)) ≡ true
    → Stream allow_input more
    → Stream allow_input (m ++ more)
next m h passes rest = elim (Bool-cases (is_input m)) [
  | inl input ↦ act m (frame-IsActing m h input) (ground arith) rest
  | inr other ↦ view m (frame-IsViewing m h other) rest
]

-- The cases of one round of the loop.
pub data Round (b : List ℕ) : Type 0 where
  meets_unknown : frame b ≡ unknown → Round b
  meets_short : frame b ≡ short → Round b
  meets_whole : (l : ℕ) → frame b ≡ whole l → Round b

pub round : (b : List ℕ) → Round b
round b = of (frame b) refl
  where
    of : (f : Frame) → frame b ≡ f → Round b
    of unknown e = meets_unknown e
    of short e = meets_short e
    of (whole l) e = meets_whole l e

pub pump-Stream :
    (fuel : ℕ) (allow_input : Bool) (b : List ℕ)
    → Stream allow_input (pump fuel allow_input b).clean
unfolding pump
pump-Stream zero allow_input b = done
pump-Stream (suc fuel) allow_input b = elim (round b) [
  | meets_unknown e ↦ rw e done
  | meets_short e ↦ rw e done
  | meets_whole l e ↦ elim (Bool-cases (allow_input || not (is_input b))) [
    | inl passes ↦
        simp e (simp passes (message l e passes (pump-Stream fuel allow_input (drop l b))))
    | inr input ↦ simp e (simp input (pump-Stream fuel allow_input (drop l b)))
  ]
]
  where
    message :
        (l : ℕ)
        → frame b ≡ whole l
        → (allow_input || not (is_input b)) ≡ true
        → Stream allow_input (pump fuel allow_input (drop l b)).clean
        → Stream allow_input (take l b ++ (pump fuel allow_input (drop l b)).clean)
    message l e passes rest =
        let (big, fits) = frame-bounds b l e in
        next (take l b) (frame-take b l e ∙ ap whole (sym (length-take l b fits)))
          (rw (is_input-take b l big) passes) rest

pub Stream-append :
    {allow_input : Bool} {a b : List ℕ}
    → Stream allow_input a
    → Stream allow_input b
    → Stream allow_input (a ++ b)
Stream-append done t = t
Stream-append {allow_input} {a = _} {b} (view m {more} v rest) t =
    subst (λ z. Stream allow_input z) (sym (append_assoc m more b))
      (view m v (Stream-append rest t))
Stream-append {allow_input} {a = _} {b} (act m {more} v on rest) t =
    subst (λ z. Stream allow_input z) (sym (append_assoc m more b))
      (act m v on (Stream-append rest t))
