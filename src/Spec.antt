-- ===== src/Spec.antt =====
-- The job description that a client submits: the data types of src/common/dag.rs.
use distributed_processing_e.Base.{ℕ, String, List}

pub data JoinType : Type 0 where
  inner left right full : JoinType

pub data OperatorType : Type 0 where
  read : (uri format : String) → OperatorType
  map : (script : String) → OperatorType
  filter : (predicate : String) → OperatorType
  reduce : (reducer : String) → OperatorType
  reduce_by_key : (key op : String) → OperatorType
  flat_map : (func : String) → OperatorType
  join : (key : String) (join_type : JoinType) → OperatorType
  shuffle_by_key : (key : String) (total_partitions : ℕ) → OperatorType
  aggregate : (aggregation : String) → OperatorType
  identity : OperatorType

pub record DagNode : Type 0 where
  pub id : String
  pub operator : OperatorType

pub record DagEdge : Type 0 where
  pub from : String
  pub to : String

pub record DagSpecification : Type 0 where
  pub nodes : List DagNode
  pub edges : List DagEdge
  pub partitions : ℕ

pub record Stage : Type 0 where
  pub stage_id : ℕ
  pub nodes : List DagNode
  pub partitions : ℕ
