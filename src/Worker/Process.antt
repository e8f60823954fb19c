-- ===== src/Worker/Process.antt =====
-- A worker's process: src/worker/mod.rs and the heartbeat of src/worker/monitor.rs. Sockets are not
-- modelled: whether a port can be bound is a parameter, and a message is what is posted.
use Prim.Native.String.{◌++◌ as append}
pub mod Ports
use distributed_processing_e.Base.{
  ℕ, zero, suc, ◌+◌, ◌-◌, ◌^◌, ltb, String, Bool, Option, none, some, if◌then◌else◌,
}
use distributed_processing_e.Base.Decimal.{show_nat}
use distributed_processing_e.Config.{Config, master_addr}
use distributed_processing_e.Types.{
  WorkerId, WorkerInfo, WorkerStatus, SystemTime, default_worker_metrics, HeartbeatMessage,
}
use distributed_processing_e.Worker.Executor.{Executor, new_executor, snapshot_metrics}
use distributed_processing_e.Worker.PartitionStore.{PartitionStore}

-- `u16::saturating_add`
abbrev pub saturating_add_u16 : ℕ → ℕ → ℕ
saturating_add_u16 a b = if ltb (a + b) (2 ^ 16) then a + b else 2 ^ 16 - 1

-- The offsets from `offset` on, as many as are left.
unfoldable pub try_ports : (ℕ → Bool) → ℕ → ℕ → ℕ → ℕ
try_ports can_bind start_port offset zero = start_port
try_ports can_bind start_port offset (suc left) =
    let port = saturating_add_u16 start_port offset in
    let next = try_ports can_bind start_port (suc offset) left in
    if can_bind port then port else next

unfoldable pub choose_available_port : (ℕ → Bool) → ℕ → ℕ
unfolding try_ports
choose_available_port can_bind start_port = try_ports can_bind start_port 0 50

pub record Worker : Type 0 where
  pub id : WorkerId
  pub config : Config
  pub master_addr : String
  pub listen_addr : String
  pub advertise_addr : String
  pub executor : Executor

-- `Uuid::parse_str`, `Uuid::new_v4`, which ports are free, and the partition store of the executor.
pub record Machine : Type 0 where
  pub parse_str : String → Option WorkerId
  pub new_v4 : WorkerId
  pub can_bind : ℕ → Bool
  pub store : Config → PartitionStore

abbrev or_given {ℓ} : {A : Type ℓ} → Option A → A → A
or_given none a = a
or_given (some b) a = b

abbrev parsed_id : Machine → Option String → Option WorkerId
parsed_id machine none = none
parsed_id machine (some raw) = machine.parse_str raw

abbrev address : String → ℕ → String
address host port = append host (append ":" (show_nat port))

unfoldable pub new : Machine → Config → Option String → Option ℕ → Worker
unfolding choose_available_port show_nat master_addr
new machine config id port =
    let worker_id = or_given (parsed_id machine id) machine.new_v4 in
    let chosen_port =
      choose_available_port machine.can_bind (or_given port config.worker_base_port) in
    record {
      id = worker_id;
      config = config;
      master_addr = master_addr config;
      listen_addr = address config.worker_bind_host chosen_port;
      advertise_addr = address config.worker_advertise_host chosen_port;
      executor = new_executor (machine.store config) config worker_id (master_addr config);
    }

-- What `register` posts.
unfoldable pub registration : Worker → SystemTime → String × WorkerInfo
registration w now = (
  append "http://" (append w.master_addr "/api/v1/register"),
  record {
    id = w.id;
    address = w.advertise_addr;
    status = WorkerStatus.active;
    last_heartbeat = now;
    metrics = default_worker_metrics;
  },
)

-- What each round of `spawn_heartbeat` posts, as `start` calls it.
unfoldable pub heartbeat : Worker → SystemTime → String × HeartbeatMessage
heartbeat w now = (
  append "http://" (append w.master_addr "/api/v1/heartbeat"),
  record {
    worker_id = w.id;
    address = w.listen_addr;
    metrics = snapshot_metrics w.executor;
    timestamp = now;
  },
)
