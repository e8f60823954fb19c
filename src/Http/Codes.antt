-- ===== src/Http/Codes.antt =====
-- The status codes of the handlers of src/http/handlers.rs.
use distributed_processing_e.Base.{
  ℕ, ◌≡◌, refl, String, Option, none, some, List, [], ◌∷◌, All, Option-cases, inl, inr, find,
}
use distributed_processing_e.Base.Eq.{nat_eq}
use distributed_processing_e.Base.Map.{get}
use distributed_processing_e.Base.Outcome
use distributed_processing_e.Config.{Config}
use distributed_processing_e.Dag.{validate}
use distributed_processing_e.Http.{
  Web, ApiError, Reply, FileResponse, into_response, parse_job_id, job_status, job_results,
  job_result_file, submit_job, serve_first, serve_file,
}
use distributed_processing_e.Master.Counting.{run-IsConsistent}
use distributed_processing_e.Master.Events.{Event, run}
use distributed_processing_e.Master.Queries.{get_job_status, get_job_results, status_of, results_of}
use distributed_processing_e.Master.Recovery.{new}
use distributed_processing_e.Master.State.{Orders, Env, JobState, Master, is_completed}
use distributed_processing_e.Master.Submission
use distributed_processing_e.Spec.{DagSpecification}
use distributed_processing_e.StateStore.{StateStore}
use distributed_processing_e.Types.{JobId, TaskResult, EngineError, completed}

-- The status code that a reply is sent with.
abbrev pub code {ℓ} : {A : Type ℓ} → Reply A → ℕ
code (Reply.ok a) = 200
code (Reply.err e) = (into_response e).0

-- The code of a request about one job: the identifier must parse, and the job must be known.
abbrev pub job_code : Option JobId → Master → ℕ
job_code none m = 400
job_code (some j) m = elim (get m.jobs j) [ none ↦ 404 | some job ↦ 200 ]

module _ (env : Env) (web : Web) where
  -- `job_status` and `job_results` answer 400 to an identifier that does not parse, 404 to one of no
  -- known job, and 200 otherwise.
  pub code-job_status :
      (raw : String) (m : Master)
      → (code (job_status env web raw m) ≡ job_code (web.parse_str raw) m)
        × (code (job_results env web raw m) ≡ job_code (web.parse_str raw) m)
  unfolding job_status job_results into_response get_job_status get_job_results
  code-job_status raw m = elim (Option-cases (web.parse_str raw)) [
    | inl bad ↦ rw (bad, parse_job_id) (refl, refl)
    | inr (j, parsed) ↦ elim (Option-cases (get m.jobs j)) [
      | inl absent ↦ rw (parsed, absent, parse_job_id, job_code, status_of, results_of) (refl, refl)
      | inr (job, there) ↦
          rw (parsed, there, parse_job_id, job_code, status_of, results_of) (refl, refl)
    ]
  ]

  -- A dag that `validate` refuses is answered as an internal error, without the reason, and the
  -- master stays as it was.
  submit_job_invalid :
      (j : JobId) (dag : DagSpecification) (m : Master) (e : String)
      → validate dag ≡ Outcome.err e
      → ((submit_job env web j dag m).1 ≡ m) × (code (submit_job env web j dag m).0 ≡ 500)
  unfolding submit_job Submission.submit_job into_response
  submit_job_invalid j dag m e h = rw h (refl, refl)

  -- What `job_result_file` serves of a list of results.
  abbrev pub first_file : List TaskResult → Reply FileResponse
  first_file [] = Reply.err (ApiError.engine (EngineError.not_found "no completed results"))
  first_file (r ∷ rs) = serve_file env web r.result_location.path

  found_first :
      (rs : List TaskResult)
      → All (λ r. r.status ≡ completed) rs
      → serve_first env web (find (λ r. is_completed r.status) rs) ≡ first_file rs
  found_first [] h = refl
  found_first (r ∷ rs) h = rw h.0

  -- After any run of a master that was started on any store, `job_result_file` answers with the file
  -- of the first result of the job, and 404 where the job has no result.
  job_result_file_first :
      (c : Config) (store : StateStore) (es : List (Orders × Event)) (raw : String) (j : JobId)
      (job : JobState)
      → web.parse_str raw ≡ some j
      → get (run env es (new c store)).jobs j ≡ some job
      → job_result_file env web raw (run env es (new c store)) ≡ first_file job.results
  unfolding job_result_file get_job_results
  job_result_file_first c store es raw j job parsed there =
      rw (parsed, there, parse_job_id, results_of)
        (found_first job.results (run-IsConsistent env c store es j job there).results_completed)
