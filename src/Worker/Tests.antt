-- ===== src/Worker/Tests.antt =====
-- The worker's theorems at a cache that spills at once. The values are numbers, each written as one
-- byte.
use distributed_processing_e.Base.{
  ℕ, String, zero, suc, some, ltb, ◌≤◌, ◌<◌, ◌^◌, ◌+◌, ◌-◌, ◌≡◌, ◌≢◌, refl, Bool, true, false, List,
  [], ◌∷◌, arith, inl, inr,
}
use distributed_processing_e.Base.Decimal.{show_nat}
use distributed_processing_e.Base.Eq.{string_eq}
use distributed_processing_e.Base.Map.{get}
use distributed_processing_e.Base.Outcome.{Outcome, ok, err}
use distributed_processing_e.Samples.{config}
use distributed_processing_e.Types.{Task, TaskResult}
use distributed_processing_e.Spec.{OperatorType}
use distributed_processing_e.Worker.Disk.{Disk}
use distributed_processing_e.Worker.Executor.{Executor, Attempt, Mishap, new_executor, execute_task}
use distributed_processing_e.Worker.Executor.Retries.{IsFinished, execute_task_finishes}
use distributed_processing_e.Worker.Pipeline.{Engine, edge_parents, pipeline, write_partitions}
use distributed_processing_e.Worker.Pipeline.Written.{
  final_size, infos, AllWritten, Untouched, write_partitions-AllWritten,
}
use distributed_processing_e.Worker.Ops.Data.Carried.{AllCarry}
use distributed_processing_e.Worker.Pipeline.Chain.{run_chain, pipeline-run_chain}
use distributed_processing_e.Base.Text.{before}
use distributed_processing_e.Worker.Ops.{Operator}
use distributed_processing_e.Worker.Ops.Data.{empty}
use distributed_processing_e.Worker.Process.{choose_available_port}
use distributed_processing_e.Worker.Process.Ports.{Picks, choose_available_port_bounds}
use distributed_processing_e.Worker.Samples
use distributed_processing_e.Worker.Partition.{
  Json, PartitionCache, new_cache, push_batch, drain_all,
}
use distributed_processing_e.Worker.Partition.Lines.{IsJson}
use distributed_processing_e.Worker.Partition.RoundTrip.{
  IsDrained, sound, Files, drain_all-push_batch,
}
use distributed_processing_e.Worker.PartitionStore.{PartitionStore}

abbrev from_byte : List ℕ → Outcome ℕ
from_byte [] = err "EOF while parsing a value"
from_byte (b ∷ _) = ok (b - 32)

abbrev is_nil : List ℕ → Bool
is_nil [] = true
is_nil (b ∷ bs) = false

abbrev json : Json ℕ
json = record { to_vec = λ n. (n + 32) ∷ []; from_line = from_byte; is_blank = is_nil }

json-IsJson : IsJson json
json-IsJson = record { not_blank = λ v. refl; printable = λ v. (omega arith, tt) }

-- The limit is less than two values take, so the second push spills.
drain_all_example :
    (c : PartitionCache ℕ) × (files₁ : Files) × (push_batch json
        (7 ∷ 8 ∷ 9 ∷ [])
        (new_cache json 1 "spill-0.bin")
        (sound [])
      ≡ (ok tt, c, sound files₁))
    × (c' : PartitionCache ℕ) × (files₂ : Files) × (drain_all json c (sound files₁)
        ≡ (ok (7 ∷ 8 ∷ 9 ∷ []), c', sound files₂))
    × IsDrained json json-IsJson c' files₂
unfolding get
drain_all_example =
    drain_all-push_batch json json-IsJson 1 "spill-0.bin" [] (7 ∷ 8 ∷ 9 ∷ [])
      (refl, (refl, (refl, tt))) refl

abbrev store : PartitionStore
store = record { root = ""; config = config; uuid_text = show_nat; join = λ root path. path }

zero_not_one : ◌≢◌ {A = ℕ} 0 1
zero_not_one e = cc

abbrev engine : Engine ℕ ℕ ℕ
engine = record {
  serde = Samples.serde;
  std = Samples.std;
  iter = λ groups. groups;
  debug_operator = λ op. "Identity";
}

abbrev executor : Executor
executor = new_executor store config 7 "127.0.0.1:8080"

abbrev identity_task : Task
identity_task = record {
  task_id = 6;
  job_id = 1;
  stage_id = 0;
  attempt = 0;
  operator = OperatorType.identity;
  operators = OperatorType.identity ∷ [];
  operator_ids = "id" ∷ [];
  incoming_edges = [] ∷ [];
  partition = 0;
  input_uri = "";
  input_format = "";
  total_partitions = 1;
}

-- The thread of the first attempt is lost, the second one panics.
abbrev mishaps : ℕ → Attempt
mishaps zero = record { mishap = Mishap.fine; duration_ms = 1 }
mishaps (suc zero) = record { mishap = Mishap.lost (sound []); duration_ms = 2 }
mishaps (suc (suc zero)) = record { mishap = Mishap.panics (sound []); duration_ms = 3 }
mishaps (suc (suc (suc n))) = record { mishap = Mishap.fine; duration_ms = 4 }

execute_task_finishes_example :
    (r : TaskResult) × (e' : Executor) × (d' : Disk) × (retries : ℕ) × (execute_task engine mishaps
        identity_task
        (executor, sound [])
      ≡ some (r, e', d'))
    × IsFinished executor identity_task 0 retries r e'
execute_task_finishes_example =
    execute_task_finishes engine mishaps identity_task executor (sound [])
      (record { failed = omega arith; completed = omega arith }) (omega arith)

-- Ports below 9002 are taken.
abbrev free_from_9002 : ℕ → Bool
free_from_9002 port = ltb 9001 port

choose_available_port_example :
    Picks free_from_9002 9000 0 50 (choose_available_port free_from_9002 9000)
    × (9000 ≤ choose_available_port free_from_9002 9000)
    × (choose_available_port free_from_9002 9000 < 9000 + 50)
    × (choose_available_port free_from_9002 9000 < 2 ^ 16)
choose_available_port_example = choose_available_port_bounds free_from_9002 9000 (omega arith)

abbrev chain_ids : List String
chain_ids = "n1" ∷ "n2" ∷ []

abbrev chain_edges : List (List String)
chain_edges = [] ∷ ("n1->n2" ∷ []) ∷ []

chain_parents : edge_parents ("n1->n2" ∷ []) ≡ "n1" ∷ []
unfolding before
chain_parents = refl

pipeline-run_chain_example :
    pipeline engine chain_ids chain_edges 1 100 "spill-1.bin"
      (Operator.map "identity" ∷ Operator.filter "equals:k=a" ∷ [])
      (sound [])
    ≡ run_chain engine chain_ids chain_edges 1 100 "spill-1.bin" 0
        (Operator.map "identity" ∷ Operator.filter "equals:k=a" ∷ [])
        (empty engine.serde.json 1 100 "spill-1.bin" ∷ [])
        []
        (sound [])
pipeline-run_chain_example =
    pipeline-run_chain engine chain_ids chain_edges 1 100 "spill-1.bin" (Operator.map "identity")
      (Operator.filter "equals:k=a" ∷ []) (sound []) refl (chain_parents, tt) refl

input-AllCarry : AllCarry engine.serde.json (Samples.input ∷ []) [] ((1 ∷ 2 ∷ 3 ∷ []) ∷ [])
unfolding get
input-AllCarry = (
  record {
    stored = [];
    split = refl;
    exact = Samples.sample_reads (1 ∷ 2 ∷ 3 ∷ []);
    file = inl (refl, refl, refl);
    bounded = inr (omega arith);
    counted = omega arith;
  },
  tt,
)

write_partitions_example :
    (files' : Files) × (write_partitions engine store 7 1 0 (Samples.input ∷ []) 0 (sound []) ≡ (
      ok (
        final_size engine Samples.json-IsJson store 7 1 0
            (Samples.input ∷ [])
            ((1 ∷ 2 ∷ 3 ∷ []) ∷ [])
            0,
        infos engine Samples.json-IsJson store 7 1 0 (Samples.input ∷ []) ((1 ∷ 2 ∷ 3 ∷ []) ∷ []),
      ),
      sound files',
    ))
    × AllWritten engine Samples.json-IsJson store 7 1 0
        (Samples.input ∷ [])
        files'
        ((1 ∷ 2 ∷ 3 ∷ []) ∷ [])
    × ((q : String)
        → Untouched engine Samples.json-IsJson store 7 1 0 (Samples.input ∷ []) q
        → get files' q ≡ get [] q)
write_partitions_example =
    write_partitions-AllWritten engine Samples.json-IsJson store 7 1 0 (Samples.input ∷ []) []
      ((1 ∷ 2 ∷ 3 ∷ []) ∷ []) 0 (tt, tt) input-AllCarry
