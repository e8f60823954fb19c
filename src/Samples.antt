-- ===== src/Samples.antt =====
-- Concrete inputs that the tests of several components share: an environment, a job and its
-- reports.
use Prim.Native.Char.{Char, char, code}
use text.Mathlib.TextEquality.{Char-path}
use distributed_processing_e.Base.{
  ℕ, ◌+◌, ◌*◌, ◌/◌, ◌<◌, ◌≡◌, refl, ap, String, none, [], ◌∷◌, arith, ◌∙◌,
}
use distributed_processing_e.Base.Floats.{Floats}
use distributed_processing_e.Config.{Config}
use distributed_processing_e.Master.State.{Env}
use distributed_processing_e.Spec.{DagSpecification, OperatorType}
use distributed_processing_e.Types.{
  JobId, TaskId, TaskStatus, TaskResult, WorkerInfo, WorkerStatus, default_worker_metrics,
}

code-bound : (c : Char) → code c < 1114112
code-bound (char n p) = ground arith

-- A text as a number, in base 1114112.
unfoldable pub text_number : String → ℕ
text_number String.[] = 0
text_number (String.◌∷◌ c s) = 1 + code c + 1114112 * text_number s

pub text_number_inj : (a b : String) → text_number a ≡ text_number b → a ≡ b
unfolding text_number
text_number_inj String.[] String.[] h = refl
text_number_inj String.[] (String.◌∷◌ c s) h = absurd (omega arith)
text_number_inj (String.◌∷◌ c s) String.[] h = absurd (omega arith)
text_number_inj (String.◌∷◌ c s) (String.◌∷◌ d t) h =
    ap (λ c. String.◌∷◌ c s) (Char-path c d (omega (arith, code-bound c, code-bound d)))
    ∙ ap (String.◌∷◌ d) (text_number_inj s t (omega (arith, code-bound c, code-bound d)))

-- Floats that are whole numbers, identifiers that are numbers of texts.
abbrev pub floats : Floats
floats = record { of_usize = λ n. n; div = λ a b. a / b; mul = λ a b. a * b; to_u32 = λ x. x }

abbrev pub env : Env
env = record {
  floats = floats;
  iter = λ n counts. counts;
  new_v5 = λ job name. text_number name;
  uuid_text = λ id. "";
}

abbrev pub config : Config
config = record {
  master_host = "127.0.0.1";
  master_port = 8080;
  worker_host = "127.0.0.1";
  worker_bind_host = "0.0.0.0";
  worker_advertise_host = "127.0.0.1";
  worker_base_port = 9000;
  num_workers = 1;
  worker_threads = 1;
  max_memory_mb = 512;
  spill_threshold_mb = 256;
  partition_cache_limit_bytes = 1024;
  task_timeout_ms = 300000;
  heartbeat_interval_ms = 5000;
  max_parallel_tasks = 1;
  task_retry_limit = 3;
  data_dir = "data";
  result_dir = "results";
  logs_dir = "logs";
}

-- A word count in two partitions.
abbrev pub word_count : DagSpecification
word_count = record {
  nodes =
      record { id = "in"; operator = OperatorType.read "words.txt" "txt" }
      ∷ record { id = "sum"; operator = OperatorType.reduce_by_key "word" "sum" }
      ∷ [];
  edges = record { from = "in"; to = "sum" } ∷ [];
  partitions = 2;
}

abbrev pub ann : WorkerInfo
ann = record {
  id = 7;
  address = "ann:9000";
  status = WorkerStatus.active;
  last_heartbeat = 0;
  metrics = default_worker_metrics;
}

-- A report on a task.
abbrev pub report : JobId → TaskId → TaskStatus → TaskResult
report job task status = record {
  task_id = task;
  job_id = job;
  operator = OperatorType.identity;
  stage_id = 2;
  partition = 0;
  result_location = record { path = "part-0.bin"; size_bytes = 10 };
  metrics = record { processed_records = 4; duration_ms = 9; cpu_time_ms = 9; wall_time_ms = 9 };
  status = status;
  trace = none;
  final_partitions = none;
}
