-- ===== src/Worker/Ops/Value.antt =====
-- What the operators use of `serde_json`, and what they use of the standard library on text, floats,
-- hashes and paths. Both are parameters of the model.
use distributed_processing_e.Base.{
  Among, ◌<◌, ℕ, ◌*◌, ◌%◌, ◌^◌, ◌≡◌, String, Bool, Option, none, some, List,
}
use distributed_processing_e.Base.Eq.{string_eq}
use distributed_processing_e.Base.Outcome.{Outcome}
use distributed_processing_e.Worker.Partition.{Json}

-- The cases of a value that the code tells apart: `V`, `M` and `N` are the types `Value`,
-- `Map<String, Value>` and `Number` of the crate.
pub data View (V M N : Type 0) : Type 0 where
  null : View V M N
  bool : Bool → View V M N
  number : N → View V M N
  string : String → View V M N
  array : List V → View V M N
  object : M → View V M N

-- An `f64` is its bit pattern, an `i64` its 64 bits.
abbrev pub F64 : Type 0
F64 = ℕ

abbrev pub I64 : Type 0
I64 = ℕ

-- `i * 2` in a release build
abbrev pub double_i64 : I64 → I64
double_i64 i = (i * 2) % 2 ^ 64

pub record Serde (V M N : Type 0) : Type 0 where
  pub json : Json V
  pub view : V → View V M N
  pub make : View V M N → V
  -- `PartialEq` of values and of maps
  pub same : V → V → Bool
  pub same_map : M → M → Bool
  -- `Map::new`, `get`, `insert` and the order of iteration
  pub new_map : M
  pub get : M → String → Option V
  pub insert : M → String → V → M
  pub entries : M → List (String × V)
  -- `from_str`
  pub from_str : String → Outcome V
  -- How deep arrays and objects nest: a value is finite.
  pub depth : V → ℕ
  -- `Number`: `as_i64`, `as_f64`, `from`, `from_f64` and `to_string`
  pub as_i64 : N → Option I64
  pub as_f64 : N → Option F64
  pub of_i64 : I64 → N
  pub of_u64 : ℕ → N
  pub from_f64 : F64 → Option N
  pub number_text : N → String

-- Text, floats, hashes and paths of the standard library: `parse::<i64>`, `parse::<f64>`, `to_uppercase`,
-- `to_lowercase`, the `f64` operations, and what `DefaultHasher` gives for one hashed value.
pub record Std : Type 0 where
  pub parse_i64 : String → Option I64
  pub parse_f64 : String → Option F64
  pub to_uppercase : String → String
  pub to_lowercase : String → String
  pub add : F64 → F64 → F64
  pub double : F64 → F64
  pub min : F64 → F64 → F64
  pub max : F64 → F64 → F64
  pub gt : F64 → F64 → Bool
  pub lt : F64 → F64 → Bool
  pub hash_str : String → ℕ
  pub hash_bool : Bool → ℕ
  pub hash_i32 : ℕ → ℕ
  -- `String::from_utf8`
  pub from_utf8 : List ℕ → Option String
  -- `Path::parent`, `Path::join` and `env::temp_dir`
  pub parent : String → Option String
  pub join : String → String → String
  pub temp_dir : String

module _ {V M N : Type 0} (serde : Serde V M N) where
  -- `Value::get(key)`, `as_str`, `as_f64` and `as_object`
  abbrev pub as_object : V → Option M
  as_object v = elim (serde.view v) [ View.object m ↦ some m | _ ↦ none ]

  abbrev pub as_str : V → Option String
  as_str v = elim (serde.view v) [ View.string s ↦ some s | _ ↦ none ]

  abbrev pub value_as_f64 : V → Option F64
  value_as_f64 v = elim (serde.view v) [ View.number n ↦ serde.as_f64 n | _ ↦ none ]

  abbrev pub field : V → String → Option V
  field v key = elim (as_object v) [ none ↦ none | some m ↦ serde.get m key ]

-- What is documented of them: a value is made of its case, a map gives back its entries and does not
-- change where a value is inserted that it has, and a value nests deeper than what it holds.
pub record IsSerde {V M N : Type 0} (serde : Serde V M N) : Type 0 where
  pub make-view : (v : V) → serde.make (serde.view v) ≡ v
  pub entries-get :
      (m : M) (k : String) (v : V) → Among (k, v) (serde.entries m) → serde.get m k ≡ some v
  pub insert_same : (m : M) (k : String) (v : V) → serde.get m k ≡ some v → serde.insert m k v ≡ m
  pub depth_array :
      (v x : V) (xs : List V)
      → serde.view v ≡ View.array xs
      → Among x xs
      → serde.depth x < serde.depth v
  pub depth_object :
      (v x : V) (k : String) (m : M)
      → serde.view v ≡ View.object m
      → Among (k, x) (serde.entries m)
      → serde.depth x < serde.depth v
