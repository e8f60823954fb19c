-- ===== src/Config.antt =====
-- The settings of src/common/config.rs that the modelled code reads, and the two addresses that it
-- derives. Reading the environment (`Config::from_env`) is input and is not modelled.
use Prim.Native.String.{◌++◌}
use distributed_processing_e.Base.{ℕ, ◌+◌, ◌%◌, ◌^◌, String}
use distributed_processing_e.Base.Decimal.{show_nat}

pub record Config : Type 0 where
  pub master_host : String
  pub master_port : ℕ
  pub worker_host : String
  pub worker_bind_host : String
  pub worker_advertise_host : String
  pub worker_base_port : ℕ
  pub num_workers : ℕ
  pub worker_threads : ℕ
  pub max_memory_mb : ℕ
  pub spill_threshold_mb : ℕ
  pub partition_cache_limit_bytes : ℕ
  pub task_timeout_ms : ℕ
  pub heartbeat_interval_ms : ℕ
  pub max_parallel_tasks : ℕ
  pub task_retry_limit : ℕ
  pub data_dir : String
  pub result_dir : String
  pub logs_dir : String

unfoldable pub master_addr : Config → String
unfolding show_nat
master_addr c = c.master_host ++ ":" ++ show_nat c.master_port

-- The index is cut to 16 bits, and so is the sum.
unfoldable pub worker_listen_addr : Config → ℕ → String
unfolding show_nat
worker_listen_addr c worker_index =
    let port = (c.worker_base_port + worker_index % 2 ^ 16) % 2 ^ 16 in
    c.worker_host ++ ":" ++ show_nat port
