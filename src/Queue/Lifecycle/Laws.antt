-- ===== src/Queue/Lifecycle/Laws.antt =====
-- What the moves keep, and how an operation's effect on the table becomes moves.
use job_applier.Base.{
  ◌≤◌, ◌≡◌, inl, inr, Bool, true, false, String, some, arith, subst, if◌then◌else◌,
  find_by-update_where, update_where-IsKeyed, key-find_by, update_where, Bool-cases, sym,
}
use job_applier.Queue.Db.{AutomationJob, Db, get_job, job_id_of}
use job_applier.Queue.Lifecycle.{
  Phase, phase, claim, doubt, cancel, skip, reset, reopen, Move, auto, work, resolve, Moves, here,
  next, Acts,
}

pub Moves-trans :
    {R : Phase → Phase → Type 0} {p q r : Phase} → Moves R p q → Moves R q r → Moves R p r
Moves-trans a here = a
Moves-trans a (next b m) = next (Moves-trans a b) m

pub Moves-map :
    {R S : Phase → Phase → Type 0} {p q : Phase}
    → ((a b : Phase) → R a b → S a b)
    → Moves R p q
    → Moves S p q
Moves-map f here = here
Moves-map f (next m s) = next (Moves-map f m) (f _ _ s)

pub one : {R : Phase → Phase → Type 0} {p q : Phase} → R p q → Moves R p q
one m = next here m

module _ {R : Phase → Phase → Type 0} where
  pub Acts-refl : (db : Db) → Acts R db db
  Acts-refl db = record { at = λ id j h. (j, h, here); keyed = λ k. k }

  pub Acts-trans : {a b c : Db} → Acts R a b → Acts R b c → Acts R a c
  Acts-trans f g = record {
    at = λ id j h.
        let (k, hk, m) = f.at id j h in let (l, hl, n) = g.at id k hk in (l, hl, Moves-trans m n);
    keyed = λ k. g.keyed (f.keyed k);
  }

  -- A branch.
  pub Acts-if :
      {B : Type 0} {a : Db} (t : Bool) (x y : Db × B)
      → Acts R a x.0
      → Acts R a y.0
      → Acts R a (if t then x else y).0
  Acts-if true x y h k = h
  Acts-if false x y h k = k

  pub Acts-if_db :
      {a : Db} (t : Bool) (x y : Db) → Acts R a x → Acts R a y → Acts R a (if t then x else y)
  Acts-if_db true x y h k = h
  Acts-if_db false x y h k = k

  -- An operation that leaves the jobs alone.
  pub Acts-same : {a b : Db} → b.jobs ≡ a.jobs → Acts R a b
  Acts-same e = record { at = λ id j h. (j, rw e h, here); keyed = λ k. rw e k }

  -- An UPDATE of the jobs that keeps their ids, each changed row by moves.
  pub Acts-update :
      {a b : Db} (p : AutomationJob → Bool) (f : AutomationJob → AutomationJob)
      → b.jobs ≡ update_where p f a.jobs
      → ((j : AutomationJob) → job_id_of (f j) ≡ job_id_of j)
      → ((j : AutomationJob)
          → get_job j.id a ≡ some j
          → p j ≡ true
          → Moves R (phase j) (phase (f j)))
      → Acts R a b
  Acts-update {a} {b} p f e keeps moves = record {
    at = at_row;
    keyed = λ k. rw e (update_where-IsKeyed job_id_of p f keeps a.jobs k);
  }
    where
      own_key : (id : String) (j : AutomationJob) → get_job id a ≡ some j → get_job j.id a ≡ some j
      own_key id j h = subst (λ k. get_job k a ≡ some j) (sym (key-find_by job_id_of id a.jobs h)) h

      at_row :
          (id : String) (j : AutomationJob)
          → get_job id a ≡ some j
          → (j' : AutomationJob) × (get_job id b ≡ some j') × Moves R (phase j) (phase j')
      at_row id j h = elim (Bool-cases (p j)) [
        | inl passed ↦ (
          f j,
          rw (e, find_by-update_where job_id_of p f keeps id a.jobs, h, passed),
          moves j (own_key id j h) passed,
        )
        | inr other ↦
            (j, rw (e, find_by-update_where job_id_of p f keeps id a.jobs, h, other), here)
      ]

  pub Acts-map :
      {S : Phase → Phase → Type 0} {a b : Db}
      → ((p q : Phase) → R p q → S p q)
      → Acts R a b
      → Acts S a b
  Acts-map f h = record {
    at = λ id j e. let (k, hk, m) = h.at id j e in (k, hk, Moves-map f m);
    keyed = h.keyed;
  }

-- The generation never falls.
pub Move-generation : (p q : Phase) → Move p q → p.generation ≤ q.generation
Move-generation p q (auto (claim _ _ _ g _)) = omega arith
Move-generation p q (auto (doubt _ _ _ g _)) = omega arith
Move-generation p q (auto (cancel _ _ g _)) = omega arith
Move-generation p q (auto (skip _ _ _ g _)) = omega arith
Move-generation p q (auto (reset _ _ _ g _)) = omega arith
Move-generation p q (auto (reopen _ _ _ g _)) = omega arith
Move-generation p q (work w _ _ _ g _) = omega arith
Move-generation p q (resolve _ _ _ g _) = omega arith

pub Moves-generation : {p q : Phase} → Moves Move p q → p.generation ≤ q.generation
Moves-generation here = omega arith
Moves-generation {p} {q = r} (next {q} m s) =
    omega (arith, Moves-generation m, Move-generation q r s)
