-- ===== src/Adapters.antt =====
-- The safety controls of the adapters (src/job_applier/db.py): the tables adapter_controls and
-- adapter_canaries.
use job_applier.Base.{ℕ, String, Bool, Option}

-- adapter_controls
pub record AdapterControl : Type 0 where
  pub adapter_name : String
  pub is_enabled : Bool
  pub confirmed_canary_count : ℕ
  pub min_interval_seconds : ℕ
  pub max_daily_submissions : ℕ
  pub last_submission_at : Option ℕ
  pub updated_at : ℕ

-- adapter_canaries
pub record AdapterCanary : Type 0 where
  pub id : String
  pub adapter_name : String
  pub job_id : String
  pub app_id : String
  pub approved_by : String
  pub confirmation_evidence : String
  pub created_at : ℕ
