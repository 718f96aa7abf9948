-- ===== src/Media/Samples.antt =====
-- Concrete media tables: an image that a job's second attempt generates.
use ai_game.Base.{ℕ, String, false, none, some, List, [], ◌∷◌}
use ai_game.Errors.{Error, ok}
use ai_game.Constants.{
  MediaAssetStatus, generating, MediaAttemptStatus, AppliedTaskStatus, JobStatus, JobAttemptStatus,
}
use ai_game.Jobs.Tables.{Job, JobDb}
use ai_game.Media.Tables.{png, SafetyStatus, MediaAsset, MediaAttempt, Task, MediaStore}
use ai_game.Media.Attempts.{Work}
use ai_game.Media.Processor.{GeneratedImage, Circumstances}
use ai_game.Media.Worker.{WorkerCall}

abbrev pub job : Job
job = record {
  job_id = 3;
  status = JobStatus.running;
  priority = 50;
  attempt_count = 2;
  max_attempts = 3;
  available_at = 0;
  locked_by = some 9;
  locked_at = some 10;
  lease_expires_at = some 1000;
  heartbeat_at = some 10;
  cancel_requested = false;
  idempotency_key = 77;
  created_at = 0;
  started_at = some 1;
  completed_at = none;
  error_code = none;
}

abbrev pub queue : JobDb
queue = record {
  jobs = job ∷ [];
  attempts =
      record {
        job_id = 3;
        attempt_number = 2;
        worker_id = some 9;
        status = JobAttemptStatus.running;
        started_at = 10;
        completed_at = none;
        duration_ms = none;
        error_code = none;
      }
      ∷ [];
}

abbrev pub asset : MediaAssetStatus → MediaAsset
asset status = record {
  media_asset_id = 7;
  task_run_id = some 5;
  status = status;
  storage_uri = none;
  mime_type = none;
  width = some 1024;
  height = some 1024;
  estimated_cost = none;
  safety_status = SafetyStatus.pending;
  approved_by = none;
  approved_at = none;
  rejected_by = none;
  rejected_at = none;
  rejection_reason = none;
  error_code = none;
  completed_at = none;
}

abbrev pub task : AppliedTaskStatus → Task
task status = record {
  task_run_id = 5;
  status = status;
  error_code = none;
  started_at = some 1;
  completed_at = none;
  duration_ms = none;
  input_tokens = 0;
  output_tokens = 0;
  estimated_cost = 0;
}

abbrev pub attempt : (id number : ℕ) → (worker_id : ℕ) → MediaAttemptStatus → MediaAttempt
attempt id number worker_id status = record {
  attempt_id = id;
  media_asset_id = 7;
  job_id = 3;
  worker_id = worker_id;
  job_attempt_number = number;
  attempt_number = number;
  provider_job_id = none;
  status = status;
  started_at = 2;
  completed_at = none;
  duration_ms = none;
  estimated_cost = none;
  error_code = none;
}

abbrev pub store : MediaAssetStatus → AppliedTaskStatus → List MediaAttempt → MediaStore
store status task_status attempts = record {
  assets = asset status ∷ [];
  attempts = attempts;
  tasks = task task_status ∷ [];
  impacts = [];
  reviews = [];
  events = [];
  queue = queue;
}

abbrev pub work : Work
work = record { asset_id = 7; worker_id = 9; job = record { job_id = 3; attempt_count = 2 } }

-- Its first attempt has failed.
abbrev pub waiting : MediaStore
waiting =
    store generating AppliedTaskStatus.processing (attempt 1 1 8 MediaAttemptStatus.failed ∷ [])

-- Its first attempt was left under way.
abbrev pub left : MediaStore
left = store generating AppliedTaskStatus.processing (attempt 1 1 8 MediaAttemptStatus.started ∷ [])

-- Its first attempt was lost before it was begun.
abbrev pub lost : MediaStore
lost = store generating AppliedTaskStatus.processing []

abbrev pub picture : GeneratedImage
picture = record {
  content = 0x89 ∷ 80 ∷ 78 ∷ 71 ∷ 13 ∷ 10 ∷ 26 ∷ 10 ∷ 1 ∷ [];
  mime_type = png;
  width = 512;
  height = 512;
  provider_job_id = none;
  estimated_cost = 40;
  is_flagged = false;
}

abbrev pub circumstances : Circumstances
circumstances = record {
  started_at = 20;
  attempt_id = 2;
  attempt_id2 = 4;
  meanwhile = λ t. t;
  checkpoint = ok tt;
  finished_at = 30;
  failed_at = 40;
}

abbrev pub error_code : Error → String
error_code e = "MEDIA_ERROR"

abbrev pub worker : WorkerCall
worker = record {
  error_code = error_code;
  job_retry_base_seconds = 1;
  job_retry_max_seconds = 60;
  checked_at = 31;
  ended_at = 32;
  reconciled_at = 33;
  lease_lost = false;
  cancellation = false;
}
