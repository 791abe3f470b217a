-- ===== src/Queue/Attempt/Moves.antt =====
-- Creating an attempt leaves the jobs alone.
use job_applier.Base.{ℕ, ◌≡◌, String, arith}
use job_applier.Queue.Db.{Db}
use job_applier.Queue.Attempt.{AttemptArgs, create_attempt}

pub create_attempt-jobs :
    (c : AttemptArgs) (fresh : String) (now : ℕ) (db : Db)
    → (create_attempt c fresh now db).0.jobs ≡ db.jobs
unfolding create_attempt
create_attempt-jobs c fresh now db = ground arith
