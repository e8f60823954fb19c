-- ===== src/Worker/Samples.antt =====
-- Parameters and a partition for the tests of the worker. The values are numbers: those below 100 are
-- objects with one field "k", which is "a" or "b"; the others are these texts.
use mathlib.Core.Path.{subst}
use distributed_processing_e.Base.{
  All, ℕ, zero, suc, inl, inr, String, Among, ◌≡◌, ◌<◌, ◌+◌, ◌*◌, ◌%◌, ◌-◌, refl, ap, eqb, ltb,
  Bool, true, false, none, some, List, [], ◌∷◌, arith, if◌then◌else◌,
}
use distributed_processing_e.Base.Eq.{◌==◌, string_eq}
use distributed_processing_e.Base.Outcome.{Outcome, ok, err}
use distributed_processing_e.Worker.Ops.Data.{PartitionData}
use distributed_processing_e.Worker.Ops.Value.{View, Serde, Std, IsSerde}
use distributed_processing_e.Worker.Partition.Lines.{IsJson, Exact}

abbrev pub from_byte : List ℕ → Outcome ℕ
from_byte [] = err "EOF while parsing a value"
from_byte (b ∷ _) = ok (b - 32)

abbrev pub is_nil : List ℕ → Bool
is_nil [] = true
is_nil (b ∷ bs) = false

abbrev pub view_of : ℕ → View ℕ ℕ ℕ
view_of n =
    if ltb n 100 then View.object n else if eqb n 100 then View.string "a" else View.string "b"

abbrev pub make_of : View ℕ ℕ ℕ → ℕ
make_of (View.object n) = n
make_of (View.string s) = if s == "a" then 100 else 101
make_of _ = 0

abbrev pub serde : Serde ℕ ℕ ℕ
serde = record {
  json = record { to_vec = λ n. (n + 32) ∷ []; from_line = from_byte; is_blank = is_nil };
  view = view_of;
  make = make_of;
  same = eqb;
  same_map = eqb;
  new_map = 0;
  get = λ m key. if key == "k" then some (100 + m % 2) else none;
  insert = λ m key v. m;
  entries = λ m. ("k", 100 + m % 2) ∷ [];
  from_str = λ s. err "EOF while parsing a value";
  depth = λ n. 0;
  as_i64 = λ n. some n;
  as_f64 = λ n. some n;
  of_i64 = λ n. n;
  of_u64 = λ n. n;
  from_f64 = λ n. some n;
  number_text = λ n. "";
}

pub json-IsJson : IsJson serde.json
json-IsJson = record { not_blank = λ v. refl; printable = λ v. (omega arith, tt) }

pub sample_reads : (vs : List ℕ) → All (Exact serde.json) vs
sample_reads [] = tt
sample_reads (v ∷ vs) = (ap (λ (n : ℕ). ok n) (omega arith), sample_reads vs)

abbrev pub std : Std
std = record {
  parse_i64 = λ s. none;
  parse_f64 = λ s. none;
  to_uppercase = λ s. s;
  to_lowercase = λ s. s;
  add = λ a b. a + b;
  double = λ a. a * 2;
  min = λ a b. a;
  max = λ a b. b;
  gt = λ a b. ltb b a;
  lt = ltb;
  hash_str = λ s. if s == "a" then 4 else 7;
  hash_bool = λ b. 1;
  hash_i32 = λ n. 0;
  from_utf8 = λ bytes. none;
  parent = λ path. none;
  join = λ base path. path;
  temp_dir = "/tmp";
}

-- Three records in memory.
abbrev pub input : PartitionData ℕ
input = record {
  partition_id = 0;
  cache = record {
    in_memory = 1 ∷ 2 ∷ 3 ∷ [];
    spilled_file = none;
    in_memory_bytes = 3;
    spilled_bytes = 0;
    limit_bytes = 4;
    spill_path = "spill-0.bin";
    record_count = 3;
  };
}

-- Values that nest: zero is null, and every other number is an object with the number below it.
abbrev pub nested_view : ℕ → View ℕ ℕ ℕ
nested_view zero = View.null
nested_view (suc n) = View.object n

abbrev pub nested_make : View ℕ ℕ ℕ → ℕ
nested_make (View.object n) = suc n
nested_make _ = 0

abbrev pub nested : Serde ℕ ℕ ℕ
nested = record serde {
  view = nested_view;
  make = nested_make;
  get = λ m key. if key == "k" then some m else none;
  entries = λ m. ("k", m) ∷ [];
  depth = λ n. n;
}

nested-make_view : (v : ℕ) → nested_make (nested_view v) ≡ v
nested-make_view zero = refl
nested-make_view (suc n) = refl

nested-depth_array : (v x : ℕ) (xs : List ℕ) → nested_view v ≡ View.array xs → Among x xs → x < v
nested-depth_array zero x xs e m = cc
nested-depth_array (suc n) x xs e m = cc

nested-depth_object :
    (v x : ℕ) (k : String) (m : ℕ)
    → nested_view v ≡ View.object m
    → Among (k, x) (nested.entries m)
    → x < v
nested-depth_object zero x k m e among = cc
nested-depth_object (suc n) x k m e (inl at) =
    let n_is_m : n ≡ m = cc in let m_is_x : m ≡ x = ap (λ p. p.1) at in omega arith
nested-depth_object (suc n) x k m e (inr among) = absurd among

pub nested-IsSerde : IsSerde nested
nested-IsSerde = record {
  make-view = nested-make_view;
  entries-get = λ m k v among. elim among [
    | inl at ↦ subst (λ p. nested.get m p.0 ≡ some p.1) at refl
    | inr none_left ↦ absurd none_left
  ];
  insert_same = λ m k v there. refl;
  depth_array = nested-depth_array;
  depth_object = nested-depth_object;
}
