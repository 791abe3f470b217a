-- ===== src/Guard/Limits/Enablement.antt =====
-- No adapter is enabled without its canaries, whatever is asked of the controls.
use job_applier.Base.{
  ℕ, ◌+◌, ◌≡◌, refl, sym, ◌∙◌, ap, subst, String, Bool, true, false, not, ◌&&◌, ◌||◌, Option, none,
  some, List, [], ◌∷◌, ltb, leb, str_eq, updated?, find_by-update_where, key-find_by, eq_iff, arith,
  Bool-cases, inl, inr,
}
use job_applier.Adapters.{AdapterControl, AdapterCanary}
use job_applier.Queue.Db.{Db}
use job_applier.Guard.Limits.{
  adapter_of, get_adapter_control, update_adapter, insert_canary, count_canary,
  record_canary_approval, switch_adapter, set_adapter_enabled, record_submission_timestamp,
}

-- What may be asked of the controls.
pub data ControlOp : Type 0 where
  approve :
      (adapter_name job_id app_id approved_by confirmation_evidence fresh : String) → ControlOp
  switch : (adapter_name : String) (enabled : Bool) → ControlOp
  stamp : (name : String) → ControlOp

-- One request at a time, each with its reading of the clock.
pub control : (lower : String → String) → ControlOp → ℕ → Db → Db
control lower (approve a j p b e f) now db = (record_canary_approval lower a j p b e f now db).0
control lower (switch a enabled) now db = (set_adapter_enabled lower a enabled now db).0
control lower (stamp name) now db = record_submission_timestamp name now db

pub run_controls : (lower : String → String) → List (ControlOp × ℕ) → Db → Db
unfolding control
run_controls lower [] db = db
run_controls lower ((op, now) ∷ ops) db = run_controls lower ops (control lower op now db)

-- An enabled adapter has three canaries and is not the generic one.
abbrev pub is_proven : AdapterControl → Bool
is_proven c =
    not c.is_enabled || (leb 3 c.confirmed_canary_count && not (str_eq c.adapter_name "generic"))

abbrev pub is_proven? : Option AdapterControl → Bool
is_proven? none = true
is_proven? (some c) = is_proven c

some_injective : {a b : AdapterControl} → some a ≡ some b → a ≡ b
some_injective e = cc

switched :
    (key : String) (enabled : Bool) (now : ℕ) (r : AdapterControl)
    → (str_eq key "generic" && enabled) ≡ false
    → (enabled && ltb r.confirmed_canary_count 3) ≡ false
    → r.adapter_name ≡ key
    → is_proven (record r { is_enabled = enabled; updated_at = now }) ≡ true
switched key enabled now r ok enough named = ground (arith, rw (← named) at ok)

counted_proven :
    (r : AdapterControl) (now : ℕ)
    → is_proven r ≡ true
    → is_proven
        (record r { confirmed_canary_count = r.confirmed_canary_count + 1; updated_at = now })
      ≡ true
counted_proven r now h = ground arith

module _ (db : Db)
    (all_proven : (name : String) → is_proven? (get_adapter_control name db) ≡ true) where
  -- An update of one adapter, each of whose changed rows is proven.
  update_adapter-proven :
      (key : String) (f : AdapterControl → AdapterControl)
      → ((c : AdapterControl) → adapter_of (f c) ≡ adapter_of c)
      → ((c : AdapterControl)
          → get_adapter_control key db ≡ some c
          → is_proven c ≡ true
          → is_proven (f c) ≡ true)
      → (name : String) → is_proven? (get_adapter_control name (update_adapter key f db)) ≡ true
  update_adapter-proven key f keeps good name =
      rw
        (find_by-update_where adapter_of (λ (c : AdapterControl). str_eq c.adapter_name key) f keeps
          name db.adapters)
        (go (get_adapter_control name db) refl)
    where
      go :
          (o : Option AdapterControl)
          → get_adapter_control name db ≡ o
          → is_proven? (updated? (λ (c : AdapterControl). str_eq c.adapter_name key) f o) ≡ true
      go none e = refl
      go (some c) e =
          let before : is_proven c ≡ true = rw e at (all_proven name) in
          elim (Bool-cases (str_eq c.adapter_name key)) [
            | inl own ↦
                let same = (eq_iff c.adapter_name key).0 own in
                let named = key-find_by adapter_of name db.adapters e in
                rw own (good c (ap (λ n. get_adapter_control n db) (sym same ∙ named) ∙ e) before)
            | inr other ↦ rw other before
          ]

  switch_adapter-proven :
      (key : String) (enabled : Bool) (now : ℕ)
      → (str_eq key "generic" && enabled) ≡ false
      → (o : Option AdapterControl) → get_adapter_control key db ≡ o
      → (name : String)
      → is_proven? (get_adapter_control name (switch_adapter key enabled now o db).0) ≡ true
  switch_adapter-proven key enabled now ok none e name = all_proven name
  switch_adapter-proven key enabled now ok (some c) e name =
      elim (Bool-cases (enabled && ltb c.confirmed_canary_count 3)) [
        | inl few ↦ rw few (all_proven name)
        | inr enough ↦ rw enough (
            update_adapter-proven key (λ r. record r { is_enabled = enabled; updated_at = now })
              (λ r. refl)
              (λ r found before.
                switched key enabled now r ok
                  (subst
                    (λ (x : AdapterControl). (enabled && ltb x.confirmed_canary_count 3) ≡ false)
                    (some_injective (sym e ∙ found)) enough)
                  (key-find_by adapter_of key db.adapters found))
              name)
      ]

  set_adapter_enabled-proven :
      (lower : String → String) (a : String) (enabled : Bool) (now : ℕ) (name : String)
      → is_proven? (get_adapter_control name (set_adapter_enabled lower a enabled now db).0) ≡ true
  unfolding set_adapter_enabled
  set_adapter_enabled-proven lower a enabled now name =
      elim (Bool-cases (str_eq (lower a) "generic" && enabled)) [
        | inl refused ↦ rw refused (all_proven name)
        | inr ok ↦ simp ok (
            switch_adapter-proven (lower a) enabled now ok (get_adapter_control (lower a) db) refl
              name)
      ]

  count_canary-proven :
      (key : String) (now : ℕ) (o : Option Db) (name : String)
      → ((d : Db) → o ≡ some d → d.adapters ≡ db.adapters)
      → is_proven? (get_adapter_control name (count_canary key now o db).0) ≡ true
  count_canary-proven key now none name same = all_proven name
  count_canary-proven key now (some d) name same = rw (same d refl) (
      update_adapter-proven key
        (λ c. record c { confirmed_canary_count = c.confirmed_canary_count + 1; updated_at = now })
        (λ c. refl) (λ c found before. counted_proven c now before) name)

  insert_canary-adapters :
      (c : AdapterCanary) (d : Db) → insert_canary c db ≡ some d → d.adapters ≡ db.adapters
  insert_canary-adapters c d h = ground arith

  record_canary_approval-proven :
      (lower : String → String) (a j p b e f : String) (now : ℕ) (name : String)
      → is_proven? (get_adapter_control name (record_canary_approval lower a j p b e f now db).0)
        ≡ true
  unfolding record_canary_approval
  record_canary_approval-proven lower a j p b e f now name =
      elim (Bool-cases (str_eq (lower a) "generic")) [
        | inl refused ↦ rw refused (all_proven name)
        | inr ok ↦
            rw ok (count_canary-proven (lower a) now _ name (λ d h. insert_canary-adapters _ d h))
      ]

  control-proven :
      (lower : String → String) (op : ControlOp) (now : ℕ) (name : String)
      → is_proven? (get_adapter_control name (control lower op now db)) ≡ true
  unfolding control
  control-proven lower (approve a j p b e f) now name =
      record_canary_approval-proven lower a j p b e f now name
  control-proven lower (switch a enabled) now name =
      set_adapter_enabled-proven lower a enabled now name
  control-proven lower (stamp key) now name =
      update_adapter-proven key (λ c. record c { last_submission_at = some now; updated_at = now })
        (λ c. refl) (λ c found before. before) name

-- Where every enabled adapter has at least 3 confirmed canaries and none is the generic one, as in a new
-- database, this stays so whatever canaries, switches and submissions are recorded, in any order.
pub run_controls-proven :
    (lower : String → String) (ops : List (ControlOp × ℕ)) (db : Db)
    → ((name : String) → is_proven? (get_adapter_control name db) ≡ true)
    → (name : String) → is_proven? (get_adapter_control name (run_controls lower ops db)) ≡ true
unfolding run_controls
run_controls-proven lower [] db h name = h name
run_controls-proven lower ((op, now) ∷ ops) db h name =
    run_controls-proven lower ops (control lower op now db) (control-proven db h lower op now) name
