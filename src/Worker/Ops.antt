-- ===== src/Worker/Ops.antt =====
-- The operators: src/worker/ops.
pub mod Value
pub mod Data
pub mod Filter
pub mod MapOp
pub mod FlatMap
pub mod Shuffle
pub mod Reduce
pub mod Join
pub mod Read
mod Tests
use distributed_processing_e.Base.{ℕ, ◌-◌, ◌^◌, max, String, List}
use distributed_processing_e.Base.Map.{HashMap}
use distributed_processing_e.Base.Outcome.{Outcome, ok}
use distributed_processing_e.Spec.{OperatorType, JoinType}
use distributed_processing_e.Worker.Action.{Action}
use distributed_processing_e.Worker.Ops.Data.{PartitionData}
use distributed_processing_e.Worker.Ops.Read.{ReadOp}
use distributed_processing_e.Worker.Ops.Value.{Serde, Std}

pub data Operator : Type 0 where
  read : ReadOp → Operator
  map : (func : String) → Operator
  filter : (predicate : String) → Operator
  flat_map : (func : String) → Operator
  reduce : (reducer : String) → Operator
  reduce_by_key : (key reducer : String) → Operator
  join : (key : String) (join_type : JoinType) → Operator
  shuffle : (key : String) (total_partitions : ℕ) → Operator

unfoldable pub from_type : OperatorType → ℕ → ℕ → ℕ → String → Outcome Operator
from_type (OperatorType.read uri format) partition_id total_partitions limit path = ok (
    Operator.read (record {
      path = uri;
      format = format;
      partition_id = partition_id;
      total_partitions = max total_partitions 1;
      cache_limit_bytes = limit;
      spill_path = path;
    }))
from_type (OperatorType.map script) _ _ _ _ = ok (Operator.map script)
from_type (OperatorType.filter predicate) _ _ _ _ = ok (Operator.filter predicate)
from_type (OperatorType.flat_map func) _ _ _ _ = ok (Operator.flat_map func)
from_type (OperatorType.join key join_type) _ _ _ _ = ok (Operator.join key join_type)
from_type (OperatorType.reduce reducer) _ _ _ _ = ok (Operator.reduce reducer)
from_type (OperatorType.reduce_by_key key op) _ _ _ _ = ok (Operator.reduce_by_key key op)
from_type (OperatorType.shuffle_by_key key total) _ _ _ _ = ok (Operator.shuffle key (max total 1))
from_type (OperatorType.aggregate aggregation) _ _ _ _ = ok (Operator.reduce aggregation)
from_type OperatorType.identity _ _ _ _ = ok (Operator.map "identity")

-- `usize::MAX`, and the default spill path in the directory for temporary files.
unfoldable pub try_from : Std → OperatorType → Outcome Operator
unfolding from_type
try_from std value =
    from_type value 0 1 (2 ^ 64 - 1) (std.join std.temp_dir "dpe-spill-default.bin")

abbrev pub name : Operator → String
name (Operator.read op) = "read"
name (Operator.map func) = "map"
name (Operator.filter predicate) = "filter"
name (Operator.flat_map func) = "flat_map"
name (Operator.reduce reducer) = "reduce"
name (Operator.reduce_by_key key reducer) = "reduce_by_key"
name (Operator.join key join_type) = "join"
name (Operator.shuffle key total) = "shuffle"

module _ {V M N : Type 0} (serde : Serde V M N) (std : Std)
    (iter : HashMap String (List V) → HashMap String (List V)) where
  unfoldable pub execute : Operator → List (PartitionData V) → Action (List (PartitionData V))
  unfolding Read.execute MapOp.execute Filter.execute FlatMap.execute Reduce.reduce
      Reduce.reduce_by_key Join.execute Shuffle.execute
  execute (Operator.read op) input = Read.execute serde std op input
  execute (Operator.map func) input = MapOp.execute serde std func input
  execute (Operator.filter predicate) input = Filter.execute serde std predicate input
  execute (Operator.flat_map func) input = FlatMap.execute serde func input
  execute (Operator.reduce reducer) input = Reduce.reduce serde std reducer input
  execute (Operator.reduce_by_key key reducer) input =
      Reduce.reduce_by_key serde std iter key reducer input
  execute (Operator.join key join_type) input = Join.execute serde key join_type input
  execute (Operator.shuffle key total) input = Shuffle.execute serde std key total input
