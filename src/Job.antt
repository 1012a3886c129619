-- ===== src/Job.antt =====
-- src/domain/job.rs: the phases of a download, what can go wrong with one, and the job record, of
-- which the fields that the modelled operations read or write are kept. Byte counts are `u64`.
pub mod Phases
use oxdm.Prelude.{ℕ, Bool, true, false, ◌&&◌, ◌||◌, Option, none, some, List, any}
use oxdm.Category.{Category}
use oxdm.Checksum.{Checksum, CsStatus, verified, mismatch, unverified}

pub data Phase : Type 0 where
  queued evaluating resolving_conflicts downloading assembling flushing verifying : Phase
  paused conflict reconnecting completed failed cancelled : Phase

unfoldable pub is_terminal : Phase → Bool
is_terminal completed = true
is_terminal failed = true
is_terminal conflict = true
is_terminal _ = false

unfoldable pub is_startable : Phase → Bool
is_startable queued = true
is_startable paused = true
is_startable failed = true
is_startable cancelled = true
is_startable _ = false

unfoldable pub is_post_transfer : Phase → Bool
is_post_transfer assembling = true
is_post_transfer flushing = true
is_post_transfer verifying = true
is_post_transfer _ = false

unfoldable pub is_running : Phase → Bool
is_running evaluating = true
is_running resolving_conflicts = true
is_running downloading = true
is_running assembling = true
is_running flushing = true
is_running verifying = true
is_running reconnecting = true
is_running _ = false

-- `p == q` on phases, for the comparisons that the code makes.
abbrev pub is_queued : Phase → Bool
is_queued queued = true
is_queued _ = false

abbrev pub is_assembling : Phase → Bool
is_assembling assembling = true
is_assembling _ = false

abbrev pub is_completed : Phase → Bool
is_completed completed = true
is_completed _ = false

abbrev pub is_failed : Phase → Bool
is_failed failed = true
is_failed _ = false

abbrev pub is_downloading : Phase → Bool
is_downloading downloading = true
is_downloading _ = false

abbrev pub is_reconnecting : Phase → Bool
is_reconnecting reconnecting = true
is_reconnecting _ = false

-- A text is its code points.
pub data JobError : Type 0 where
  network : List ℕ → JobError
  dns : Option (List ℕ) → List ℕ → JobError
  http_status : ℕ → Option (List ℕ) → Option (List ℕ) → JobError
  access_refused url_broken : JobError
  server_conflict not_resumable file_changed save_conflict : List ℕ → JobError
  duplicate_active : List ℕ → List ℕ → JobError
  name_taken : List ℕ → JobError
  checksum_mismatch : List ℕ → List ℕ → JobError  -- expected, actual
  cancelled deferred : JobError
  io disk_full : List ℕ → JobError
  insufficient_space : List ℕ → ℕ → ℕ → JobError  -- path, needed, available
  permission_denied : List ℕ → JobError
  conflict_pending : JobError → JobError
  other : List ℕ → JobError

pub record JobStatus : Type 0 where
  pub downloaded : ℕ
  pub total : Option ℕ
  pub error : Option JobError
  pub final_path : Option (List ℕ)

pub record Job : Type 0 where
  pub id : ℕ
  pub url : List ℕ
  pub queue_id : ℕ
  pub save_dir : List ℕ
  pub filename : Option (List ℕ)
  pub max_connections : Option ℕ
  pub speed_limit_override : Option ℕ
  pub work_root : Option (List ℕ)
  pub status : JobStatus
  pub checksums : List Checksum
  pub category : Category

abbrev has_path : Option (List ℕ) → Bool
has_path none = false
has_path (some _) = true

unfoldable pub has_saved_file : Job → Bool
has_saved_file j = has_path j.status.final_path

abbrev pub is_checksum_mismatch : Option JobError → Bool
is_checksum_mismatch (some (checksum_mismatch _ _)) = true
is_checksum_mismatch _ = false

abbrev pub is_mismatch : CsStatus → Bool
is_mismatch mismatch = true
is_mismatch _ = false

-- Every byte is here, and the file is not what was promised.
unfoldable pub integrity_failed : Job → Bool
unfolding has_saved_file
integrity_failed j =
    is_checksum_mismatch j.status.error
    || (has_saved_file j && any (λ (c : Checksum). is_mismatch c.status) j.checksums)
