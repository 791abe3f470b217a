-- ===== src/Viewer/Rfb/Fragments.antt =====
-- The loop of the filter on the fragments of a stream.
use job_applier.Base.{
  ℕ, zero, suc, ◌≡◌, ◌≤◌, refl, sym, ap, Bool, true, not, ◌||◌, inl, inr, Bool-cases, List, [], ◌∷◌,
  ◌++◌, arith, if◌then◌else◌,
}
use job_applier.Viewer.{
  byte, byte-append, length, take, drop, length-drop, length-append, drop-append, take-append,
  take-drop, append_assoc,
}
use job_applier.Viewer.Rfb.{short, frame, is_input, Pumped, pump}
use job_applier.Viewer.Rfb.Stream.{
  frame-bounds, frame-append, round, meets_unknown, meets_short, meets_whole,
}

module _ (allow_input : Bool) where
  pub pump-rest : (fuel : ℕ) (b : List ℕ) → length (pump fuel allow_input b).rest ≤ length b
  unfolding pump
  pump-rest zero b = omega arith
  pump-rest (suc fuel) b = elim (round b) [
    | meets_unknown e ↦ rw e (omega arith)
    | meets_short e ↦ rw e (omega arith)
    | meets_whole l e ↦ rw e (omega (arith, pump-rest fuel (drop l b), length-drop l b))
  ]

  -- Fuel beyond the length of the buffer changes nothing.
  pump-fuel :
      (n m : ℕ) (b : List ℕ)
      → length b ≤ n
      → length b ≤ m
      → pump n allow_input b ≡ pump m allow_input b
  unfolding pump frame
  pump-fuel zero zero b h k = refl
  pump-fuel zero (suc m) [] h k = refl
  pump-fuel zero (suc m) (x ∷ xs) h k = ground arith
  pump-fuel (suc n) zero [] h k = refl
  pump-fuel (suc n) zero (x ∷ xs) h k = ground arith
  pump-fuel (suc n) (suc m) b h k = elim (round b) [
    | meets_unknown e ↦ rw e
    | meets_short e ↦ rw e
    | meets_whole l e ↦
        let (big, fits) = frame-bounds b l e in
        let smaller = length-drop l b in
        rw (e, pump-fuel n m (drop l b) (omega arith) (omega arith))
  ]

  -- The loop ends where no whole message is left: on as much fuel as the buffer has bytes, what it keeps is the
  -- beginning of one message at most.
  pub pump-ends :
      (fuel : ℕ) (b : List ℕ) → length b ≤ fuel → frame (pump fuel allow_input b).rest ≡ short
  unfolding pump frame
  pump-ends zero [] h = refl
  pump-ends zero (x ∷ xs) h = ground arith
  pump-ends (suc fuel) b h = elim (round b) [
    | meets_unknown e ↦ rw e refl
    | meets_short e ↦ rw e e
    | meets_whole l e ↦
        let (big, fits) = frame-bounds b l e in
        let smaller = length-drop l b in rw e (pump-ends fuel (drop l b) (omega arith))
  ]

  -- The loop does not depend on how the bytes arrive. Where it met no unknown type in the first part, the
  -- messages that pass of two parts together are those of the first part, and then those of what it kept
  -- with the second part behind it, which also leave the same rest. The fuel of each is as long as both parts.
  pub pump-append :
      (n m : ℕ) (b more : List ℕ)
      → length (b ++ more) ≤ n
      → length (b ++ more) ≤ m
      → (pump n allow_input b).is_known ≡ true
      → ((pump n allow_input (b ++ more)).clean ≡ (
          (pump n allow_input b).clean
          ++ (pump m allow_input ((pump n allow_input b).rest ++ more)).clean))
        × ((pump n allow_input (b ++ more)).rest
            ≡ (pump m allow_input ((pump n allow_input b).rest ++ more)).rest)
  unfolding pump
  pump-append zero m b more h k known =
      let same = pump-fuel zero m (b ++ more) h k in
      (ap (λ (r : Pumped). r.clean) same, ap (λ (r : Pumped). r.rest) same)
  pump-append (suc n) m b more h k known = elim (round b) [
    | meets_unknown e ↦ cc (rw e at known)
    | meets_short e ↦
        let same = pump-fuel (suc n) m (b ++ more) h k in
        rw e (ap (λ (r : Pumped). r.clean) same, ap (λ (r : Pumped). r.rest) same)
    | meets_whole l e ↦
        let (big, fits) = frame-bounds b l e in
        let smaller = length-drop l b in
        let both = length-append b more in
        let part = length-append (drop l b) more in
        let go = pump n allow_input (drop l b) in
        let (clean, rest) =
          pump-append n m (drop l b) more (omega arith) (omega arith) (rw e at known) in
        rw (frame-append b more l e, e, drop-append l b more fits, take-append l b more fits, rest)
          (
            on_message l go.clean (pump m allow_input (go.rest ++ more)).clean
                (byte-append 0 b more (omega arith)) clean,
            refl,
          )
  ]
    where
      on_message :
          (l : ℕ) {x : List ℕ} (y z : List ℕ)
          → byte 0 (b ++ more) ≡ byte 0 b
          → x ≡ (y ++ z)
          → (if allow_input || not (is_input (b ++ more)) then take l b ++ x else x)
            ≡ ((if allow_input || not (is_input b) then take l b ++ y else y) ++ z)
      on_message l {x} y z same e = elim (Bool-cases (allow_input || not (is_input b))) [
        | inl passes ↦ rw same (simp passes (rw e (sym (append_assoc (take l b) y z))))
        | inr input ↦ rw same (simp input e)
      ]

-- With input allowed nothing is lost: where the loop met no unknown type, the messages that pass and the
-- rest are the buffer.
pub pump-lossless :
    (fuel : ℕ) (b : List ℕ)
    → (pump fuel true b).is_known ≡ true
    → ((pump fuel true b).clean ++ (pump fuel true b).rest) ≡ b
unfolding pump
pump-lossless zero b known = refl
pump-lossless (suc fuel) b known = elim (round b) [
  | meets_unknown e ↦ cc (rw e at known)
  | meets_short e ↦ rw e
  | meets_whole l e ↦
      rw
        (
          e,
          append_assoc (take l b) (pump fuel true (drop l b)).clean
              (pump fuel true (drop l b)).rest,
          pump-lossless fuel (drop l b) (rw e at known),
        )
        (take-drop l b)
]
