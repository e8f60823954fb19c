-- ===== src/Worker/Ops/MapOp/Tests.antt =====
-- `MapOp` at values that nest: a text in as many objects as the number says, each with the field "k".
use mathlib.Core.Option.{some-injective, none-ne-some}
use mathlib.Core.Path.{subst}
use distributed_processing_e.Base.{
  ℕ, zero, suc, ◌<◌, ◌≡◌, refl, sym, ap, ◌∙◌, inl, inr, String, Among, Bool, true, false, Option,
  none, some, List, [], ◌∷◌, arith, if◌then◌else◌,
}
use distributed_processing_e.Base.Eq.{◌==◌, string_eq}
use distributed_processing_e.Base.Outcome.{ok, err}
use distributed_processing_e.Worker.Ops.MapOp.{apply_record, apply_fn, apply_entries}
use distributed_processing_e.Worker.Ops.MapOp.Texts.{Maps, apply_record-Maps}
use distributed_processing_e.Worker.Ops.Value.{View, Serde, Std, IsSerde}
use distributed_processing_e.Worker.Samples

-- How many objects there are around the text.
abbrev Wrapped : Type 0
Wrapped = ℕ × String

abbrev wrapped_view : Wrapped → View Wrapped Wrapped ℕ
wrapped_view (zero, s) = View.string s
wrapped_view (suc n, s) = View.object (n, s)

abbrev wrapped_make : View Wrapped Wrapped ℕ → Wrapped
wrapped_make (View.string s) = (0, s)
wrapped_make (View.object (n, s)) = (suc n, s)
wrapped_make _ = (0, "")

abbrev wrapped_get : Wrapped → String → Option Wrapped
wrapped_get m key = if key == "k" then some m else none

abbrev wrapped_insert : Wrapped → String → Wrapped → Wrapped
wrapped_insert m key v = if key == "k" then v else m

abbrev wrapped : Serde Wrapped Wrapped ℕ
wrapped = record {
  json = record { to_vec = λ v. []; from_line = λ line. err "EOF"; is_blank = λ line. true };
  view = wrapped_view;
  make = wrapped_make;
  same = λ a b. false;
  same_map = λ a b. false;
  new_map = (0, "");
  get = wrapped_get;
  insert = wrapped_insert;
  entries = λ m. ("k", m) ∷ [];
  from_str = λ s. err "EOF";
  depth = λ v. v.0;
  as_i64 = λ n. some n;
  as_f64 = λ n. some n;
  of_i64 = λ n. n;
  of_u64 = λ n. n;
  from_f64 = λ n. some n;
  number_text = λ n. "";
}

wrapped-make_view : (v : Wrapped) → wrapped_make (wrapped_view v) ≡ v
wrapped-make_view (zero, s) = refl
wrapped-make_view (suc n, s) = refl

after_test :
    (b : Bool) (m v : Wrapped) → (if b then some m else none) ≡ some v → (if b then v else m) ≡ m
after_test true m v there = sym (some-injective _ _ there)
after_test false m v there = absurd (none-ne-some _ there)

wrapped-depth_array :
    (v x : Wrapped) (xs : List Wrapped) → wrapped_view v ≡ View.array xs → Among x xs → x.0 < v.0
wrapped-depth_array (zero, s) x xs e m = cc
wrapped-depth_array (suc n, s) x xs e m = cc

wrapped-depth_object :
    (v x : Wrapped) (k : String) (m : Wrapped)
    → wrapped_view v ≡ View.object m
    → Among (k, x) (wrapped.entries m)
    → x.0 < v.0
wrapped-depth_object (zero, s) x k m e among = cc
wrapped-depth_object (suc n, s) x k m e (inl at) =
    let below : (n, s) ≡ m = cc in
    let m_is_x : m ≡ x = ap (λ p. p.1) at in
    let depths : n ≡ x.0 = ap (λ (p : Wrapped). p.0) (below ∙ m_is_x) in omega arith
wrapped-depth_object (suc n, s) x k m e (inr among) = absurd among

wrapped-IsSerde : IsSerde wrapped
wrapped-IsSerde = record {
  make-view = wrapped-make_view;
  entries-get = λ m k v among. elim among [
    | inl at ↦ subst (λ p. wrapped_get m p.0 ≡ some p.1) at refl
    | inr none_left ↦ absurd none_left
  ];
  insert_same = λ m k v there. after_test (k == "k") m v there;
  depth_array = wrapped-depth_array;
  depth_object = wrapped-depth_object;
}

abbrev std : Std
std = record Samples.std {
  to_uppercase = λ s. if s == "aB" then "AB" else s;
  to_lowercase = λ s. if s == "aB" then "ab" else s;
}

-- What the two functions make of the text in two objects.
raised : apply_record wrapped std "uppercase" (2, "aB") ≡ ok (2, "AB")
unfolding apply_fn apply_entries
raised = refl

lowered : apply_record wrapped std "lowercase" (2, "aB") ≡ ok (2, "ab")
unfolding apply_fn apply_entries
lowered = refl

apply_record-Maps_example :
    ((w : Wrapped) × (apply_record wrapped std "uppercase" (2, "aB") ≡ ok w)
      × Maps wrapped std.to_uppercase (2, "aB") w)
    × ((w : Wrapped) × (apply_record wrapped std "lowercase" (2, "aB") ≡ ok w)
        × Maps wrapped std.to_lowercase (2, "aB") w)
apply_record-Maps_example = apply_record-Maps wrapped std wrapped-IsSerde (2, "aB")
