-- ===== src/Worker/Pipeline/Chain.antt =====
-- The pipeline of `execute_sync` of src/worker/executor.rs for operators that form a chain.
use mathlib.Core.List.{append-nil}
use distributed_processing_e.Base.{
  ℕ, zero, suc, ◌≡◌, refl, sym, ap, ◌∙◌, length, get_elem?, String, some, List, [], ◌∷◌, ◌++◌,
  last?, arith, ◌+◌, true,
}
use distributed_processing_e.Base.Eq.{◌==◌, string_eq}
use distributed_processing_e.Base.Map.{HashMap, get, insert, remove}
use distributed_processing_e.Base.Outcome.{Outcome, ok, err}
use distributed_processing_e.Types.{StageTrace}
use distributed_processing_e.Worker.Action.{Action, pure, lift, ◌>>=◌}
use distributed_processing_e.Worker.Disk.{Disk, after}
use distributed_processing_e.Worker.Ops.{Operator, execute}
use distributed_processing_e.Worker.Ops.Data.{PartitionData, empty}
use distributed_processing_e.Worker.Pipeline.{
  Engine, or_else, take_parents, inputs, edge_parents, op_id, edges_at, stage_trace, run_operators,
  final_output, pipeline,
}

module _ {V M N : Type 0} (eng : Engine V M N) (ids : List String) (edges : List (List String))
    (partition_id limit : ℕ) (spill : String) where
  -- Each operator takes what the one before it gave.
  abbrev pub run_chain :
      ℕ
      → List Operator
      → List (PartitionData V)
      → List StageTrace
      → Action (List (PartitionData V) × List StageTrace)
  run_chain idx [] partitions stages = pure (partitions, stages)
  run_chain idx (op ∷ operators) partitions stages = do
    outputs ← execute eng.serde eng.std eng.iter op partitions
    run_chain (suc idx) operators outputs
        (stages ++ stage_trace eng ids edges partition_id limit spill idx outputs ∷ [])

  abbrev id_at : ℕ → String
  id_at idx = op_id eng ids edges partition_id limit spill idx

  -- From the operator `idx` on, the only parent is the operator before.
  abbrev pub IsChain : ℕ → ℕ → Type 0
  IsChain idx zero = Unit
  IsChain idx (suc n) =
      (edge_parents (edges_at eng ids edges partition_id limit spill (suc idx)) ≡ id_at idx ∷ [])
      × IsChain (suc idx) n

  string_self : (s : String) → (s == s) ≡ true
  string_self s = (string_eq.same_iff s s).1 refl

  take_parents-only :
      (id : String) (partitions : List (PartitionData V))
      → take_parents eng (id ∷ []) ((id, partitions) ∷ []) ≡ (partitions, [])
  unfolding take_parents get remove
  take_parents-only id partitions =
      rw (string_self id) (ap (λ ps. (ps, [])) (append-nil partitions))

  get-only : {A : Type 0} (id key : String) (a : A) → key ≡ id → get ((id, a) ∷ []) key ≡ some a
  unfolding get
  get-only id key a same = rw same (rw (string_self id) refl)

  last?-get_elem? :
      (x : String) (xs : List String) → last? (x ∷ xs) ≡ get_elem? (x ∷ xs) (length xs)
  last?-get_elem? x [] = refl
  last?-get_elem? x (y ∷ xs) = last?-get_elem? y xs

  get_elem?-length :
      (x : String) (xs : List String) → (y : String) × (get_elem? (x ∷ xs) (length xs) ≡ some y)
  get_elem?-length x [] = (x, refl)
  get_elem?-length x (y ∷ xs) = get_elem?-length y xs

  last_id :
      (n : ℕ) (xs : List String) (default : String)
      → length xs ≡ suc n
      → or_else (last? xs) "final" ≡ or_else (get_elem? xs n) default
  last_id n [] default h = absurd (omega arith)
  last_id n (x ∷ xs) default h =
      let (y, found) = get_elem?-length x xs in
      let len : length xs ≡ n = omega arith in
      ap (λ o. or_else o "final") (last?-get_elem? x xs ∙ found)
      ∙ ap (λ o. or_else o default) (sym found ∙ ap (get_elem? (x ∷ xs)) len)

  -- The outputs of a run under the id of the last operator.
  abbrev tagged :
      ℕ
      → Outcome (List (PartitionData V) × List StageTrace) × Disk
      → Outcome (HashMap String (List (PartitionData V)) × List StageTrace) × Disk
  tagged idx (err e, d) = (err e, d)
  tagged idx (ok (partitions, stages), d) = (ok ((id_at idx, partitions) ∷ [], stages), d)

  abbrev runs :
      ℕ
      → List Operator
      → HashMap String (List (PartitionData V))
      → List StageTrace
      → Action (HashMap String (List (PartitionData V)) × List StageTrace)
  runs = run_operators eng ids edges partition_id limit spill

  abbrev traced : ℕ → List StageTrace → List (PartitionData V) → List StageTrace
  traced idx stages outputs =
      stages ++ stage_trace eng ids edges partition_id limit spill idx outputs ∷ []

  chain_inputs :
      (idx : ℕ) (partitions : List (PartitionData V))
      → edge_parents (edges_at eng ids edges partition_id limit spill (suc idx)) ≡ id_at idx ∷ []
      → inputs eng ids edges partition_id limit spill
          (edge_parents (edges_at eng ids edges partition_id limit spill (suc idx)))
          ((id_at idx, partitions) ∷ [])
        ≡ (partitions, [])
  chain_inputs idx partitions parent =
      ap
        (λ parents.
          inputs eng ids edges partition_id limit spill parents ((id_at idx, partitions) ∷ []))
        parent
      ∙ take_parents-only (id_at idx) partitions

  -- The rest of the loop after an operator.
  after_operator :
      (n : ℕ) (p : Outcome (List (PartitionData V)) × Disk)
      (loop : List (PartitionData V)
        → Action (HashMap String (List (PartitionData V)) × List StageTrace))
      (rest : List (PartitionData V) → Action (List (PartitionData V) × List StageTrace))
      → ((outputs : List (PartitionData V)) (d : Disk) → loop outputs d ≡ tagged n (rest outputs d))
      → after p (λ e d. (err e, d)) loop ≡ tagged n (after p (λ e d. (err e, d)) rest)
  after_operator n (err e, d) loop rest same = refl
  after_operator n (ok outputs, d) loop rest same = same outputs d

  run_operators-run_chain :
      (idx n : ℕ) (operators : List Operator) (partitions : List (PartitionData V))
      (stages : List StageTrace) (d : Disk)
      → IsChain idx (length operators)
      → n ≡ idx + length operators
      → runs (suc idx) operators ((id_at idx, partitions) ∷ []) stages d
        ≡ tagged n (run_chain (suc idx) operators partitions stages d)
  unfolding run_operators insert
  run_operators-run_chain idx n [] partitions stages d chain at =
      let same : idx ≡ n = omega arith in
      ap (λ i. (ok ((id_at i, partitions) ∷ [], stages), d)) same
  run_operators-run_chain idx n (op ∷ operators) partitions stages d chain at =
      ap
        (λ (t : List (PartitionData V) × HashMap String (List (PartitionData V))).
          after (execute eng.serde eng.std eng.iter op t.0 d) (λ e d. (err e, d))
            (λ outputs.
              runs (suc (suc idx)) operators (insert t.1 (id_at (suc idx)) outputs)
                (traced (suc idx) stages outputs)))
        (chain_inputs idx partitions chain.0)
      ∙ after_operator n (execute eng.serde eng.std eng.iter op partitions d) _ _ (λ outputs d₁.
        run_operators-run_chain (suc idx) n operators outputs (traced (suc idx) stages outputs) d₁
          chain.1 (omega arith))

  final-tagged :
      (n : ℕ) (p : Outcome (List (PartitionData V) × List StageTrace) × Disk)
      → or_else (last? ids) "final" ≡ id_at n
      → after
          (tagged n p)
          (λ e d. (err e, d))
          (λ end. lift (final_output eng ids edges partition_id limit spill end))
        ≡ p
  final-tagged n (err e, d) last = refl
  final-tagged n (ok (partitions, stages), d) last =
      rw (final_output, get-only (id_at n) (or_else (last? ids) "final") partitions last) refl

  -- Where the first operator has no parent, each further one has only the one before it, and there
  -- are as many ids as operators: the pipeline is the composition of the operators, from an empty
  -- partition on. Its result is the output of the last operator with one trace entry for each, and the
  -- first error of an operator ends it.
  pub pipeline-run_chain :
      (op : Operator) (operators : List Operator) (d : Disk)
      → edge_parents (edges_at eng ids edges partition_id limit spill 0) ≡ []
      → IsChain 0 (length operators)
      → length ids ≡ length (op ∷ operators)
      → pipeline eng ids edges partition_id limit spill (op ∷ operators) d
        ≡ run_chain 0 (op ∷ operators) (empty eng.serde.json partition_id limit spill ∷ []) [] d
  unfolding pipeline run_operators insert
  pipeline-run_chain op operators d first chain len =
      ap
        (λ parents.
          let t = inputs eng ids edges partition_id limit spill parents [] in
          after
            (after (execute eng.serde eng.std eng.iter op t.0 d) (λ e d. (err e, d))
              (λ outputs. runs 1 operators (insert t.1 (id_at 0) outputs) (traced 0 [] outputs)))
            (λ e d. (err e, d))
            (λ end. lift (final_output eng ids edges partition_id limit spill end)))
        first
      ∙ ap
          (λ q.
            after q (λ e d. (err e, d))
              (λ end. lift (final_output eng ids edges partition_id limit spill end)))
          (after_operator (length operators) (execute eng.serde eng.std eng.iter op start d) _ _
            (λ outputs d₁.
              run_operators-run_chain 0 (length operators) operators outputs (traced 0 [] outputs)
                d₁ chain (omega arith)))
      ∙ final-tagged (length operators) (run_chain 0 (op ∷ operators) start [] d)
          (last_id (length operators) ids _ len)
    where
      start : List (PartitionData V)
      start = empty eng.serde.json partition_id limit spill ∷ []
