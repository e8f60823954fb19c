-- ===== src/Types.antt =====
-- The messages and records that master and workers exchange: src/common/types.rs. Identifiers
-- (UUIDs) are their 128-bit numbers, a `SystemTime` is its nanoseconds since the epoch.
use distributed_processing_e.Base.{ℕ, String, Option, none, List, []}
use distributed_processing_e.Base.Floats.{F32, f32_zero}
use distributed_processing_e.Spec.{OperatorType}

abbrev pub JobId : Type 0
JobId = ℕ

abbrev pub TaskId : Type 0
TaskId = ℕ

abbrev pub WorkerId : Type 0
WorkerId = ℕ

abbrev pub StageId : Type 0
StageId = ℕ

abbrev pub PartitionId : Type 0
PartitionId = ℕ

abbrev pub SystemTime : Type 0
SystemTime = ℕ

pub data WorkerStatus : Type 0 where
  active down idle running failed lost : WorkerStatus

pub data JobStatus : Type 0 where
  accepted pending running completed succeeded failed : JobStatus

pub data TaskStatus : Type 0 where
  queued : TaskStatus
  assigned : WorkerId → TaskStatus
  running : WorkerId → TaskStatus
  completed : TaskStatus
  failed : String → TaskStatus
  retrying : ℕ → TaskStatus

pub record WorkerMetrics : Type 0 where
  pub tasks_in_flight : ℕ
  pub cpu_pct : F32
  pub memory_mb : ℕ
  pub tasks_completed : ℕ
  pub tasks_failed : ℕ
  pub records_processed : ℕ
  pub current_task : Option TaskId

abbrev pub default_worker_metrics : WorkerMetrics
default_worker_metrics = record {
  tasks_in_flight = 0;
  cpu_pct = f32_zero;
  memory_mb = 0;
  tasks_completed = 0;
  tasks_failed = 0;
  records_processed = 0;
  current_task = none;
}

pub record WorkerInfo : Type 0 where
  pub id : WorkerId
  pub address : String
  pub status : WorkerStatus
  pub last_heartbeat : SystemTime
  pub metrics : WorkerMetrics

pub record Task : Type 0 where
  pub task_id : TaskId
  pub job_id : JobId
  pub stage_id : StageId
  pub attempt : ℕ
  pub operator : OperatorType
  pub operators : List OperatorType
  pub operator_ids : List String
  pub incoming_edges : List (List String)
  pub partition : PartitionId
  pub input_uri : String
  pub input_format : String
  pub total_partitions : PartitionId

pub record TaskMetrics : Type 0 where
  pub processed_records : ℕ
  pub duration_ms : ℕ
  pub cpu_time_ms : ℕ
  pub wall_time_ms : ℕ

pub record ResultLocation : Type 0 where
  pub path : String
  pub size_bytes : ℕ

pub record PartitionInfo : Type 0 where
  pub partition_id : ℕ
  pub record_count : ℕ
  pub spill_path : Option String

pub record StageTrace : Type 0 where
  pub stage_id : ℕ
  pub operator_id : String
  pub incoming_edges : List String
  pub output_partitions : List PartitionInfo

pub record ExecutionTrace : Type 0 where
  pub job_id : String
  pub stages : List StageTrace

pub record TaskResult : Type 0 where
  pub task_id : TaskId
  pub job_id : JobId
  pub operator : OperatorType
  pub stage_id : StageId
  pub partition : PartitionId
  pub result_location : ResultLocation
  pub metrics : TaskMetrics
  pub status : TaskStatus
  pub trace : Option ExecutionTrace
  pub final_partitions : Option (List PartitionInfo)

pub record StageMetrics : Type 0 where
  pub stage_id : StageId
  pub tasks_total : ℕ
  pub tasks_completed : ℕ
  pub tasks_failed : ℕ
  pub duration_ms : ℕ

pub record WorkerAggregate : Type 0 where
  pub worker_id : WorkerId
  pub tasks_completed : ℕ
  pub tasks_failed : ℕ
  pub records_processed : ℕ
  pub cpu_time_ms : ℕ
  pub wall_time_ms : ℕ

pub record JobMetrics : Type 0 where
  pub total_tasks : ℕ
  pub completed_tasks : ℕ
  pub failed_tasks : ℕ
  pub pending_tasks : ℕ
  pub stages : List StageMetrics
  pub workers : List WorkerAggregate

abbrev pub default_job_metrics : JobMetrics
default_job_metrics = record {
  total_tasks = 0;
  completed_tasks = 0;
  failed_tasks = 0;
  pending_tasks = 0;
  stages = [];
  workers = [];
}

pub record HeartbeatMessage : Type 0 where
  pub worker_id : WorkerId
  pub address : String
  pub metrics : WorkerMetrics
  pub timestamp : SystemTime

pub data EngineError : Type 0 where
  network io validation not_found : String → EngineError
