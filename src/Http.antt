-- ===== src/Http.antt =====
-- The HTTP handlers of the master, src/http/handlers.rs, and the routes of src/http/router.rs. A
-- handler takes the master's state and returns a reply and the new state.
pub mod Codes
pub mod Request
pub mod Routes
mod Tests
use Prim.Native.String.{◌++◌ as append}
use distributed_processing_e.Base.{
  ℕ, String, Bool, Option, none, some, List, [], ◌∷◌, find, if◌then◌else◌,
}
use distributed_processing_e.Base.Outcome.{Outcome}
use distributed_processing_e.Master.Completion
use distributed_processing_e.Master.Queries.{
  Answer, JobStatusResponse, get_job_status, get_job_results,
}
use distributed_processing_e.Master.State.{Env, Master, is_completed}
use distributed_processing_e.Master.Submission
use distributed_processing_e.Master.Workers
use distributed_processing_e.Spec.{DagSpecification}
use distributed_processing_e.Types.{
  JobId, WorkerId, WorkerInfo, HeartbeatMessage, SystemTime, TaskResult, EngineError,
}

-- What the handlers use of other crates and of the system: `Uuid::parse_str`, reading a file (or the
-- text of the error), the last component of a path, and whether axum takes a text as a header value.
pub record Web : Type 0 where
  pub parse_str : String → Option JobId
  pub read_file : String → Outcome (List ℕ)
  pub file_name : String → Option String
  pub header_error : String → Option String

-- `Internal` keeps the text of its `anyhow::Error`.
pub data ApiError : Type 0 where
  engine : EngineError → ApiError
  bad_request : String → ApiError
  internal : String → ApiError

pub data Reply {ℓ} (A : Type ℓ) : Type ℓ where
  ok : A → Reply A
  err : ApiError → Reply A

-- The conversions that `?` makes: `From<EngineError>` and `From<anyhow::Error>`.
abbrev pub of_answer {ℓ} : {A : Type ℓ} → Answer A → Reply A
of_answer (Answer.ok a) = Reply.ok a
of_answer (Answer.err e) = Reply.err (ApiError.engine e)

abbrev pub of_outcome {ℓ} : {A : Type ℓ} → Outcome A → Reply A
of_outcome (Outcome.ok a) = Reply.ok a
of_outcome (Outcome.err e) = Reply.err (ApiError.internal e)

-- `Display` of an `EngineError`
abbrev pub engine_text : EngineError → String
engine_text (EngineError.network msg) = append "network error: " msg
engine_text (EngineError.io msg) = append "io error: " msg
engine_text (EngineError.validation msg) = append "invalid input: " msg
engine_text (EngineError.not_found msg) = append "not found: " msg

-- The status code and the text of a failed request.
unfoldable pub into_response : ApiError → ℕ × String
into_response (ApiError.engine (EngineError.not_found msg)) = (404, msg)
into_response (ApiError.engine (EngineError.validation msg)) = (400, msg)
into_response (ApiError.engine (EngineError.network msg)) =
    (500, engine_text (EngineError.network msg))
into_response (ApiError.engine (EngineError.io msg)) = (500, engine_text (EngineError.io msg))
into_response (ApiError.bad_request msg) = (400, msg)
into_response (ApiError.internal msg) = (500, "internal error")

-- The body of a served file, with the value of its `content-disposition` header.
pub record FileResponse : Type 0 where
  pub disposition : String
  pub body : List ℕ

module _ (env : Env) (web : Web) where
  -- `job_id` is the identifier that the master draws.
  unfoldable pub submit_job : JobId → DagSpecification → Master → Reply JobId × Master
  submit_job job_id dag m =
      let (made, m') = Submission.submit_job env job_id dag m in (of_outcome made, m')

  abbrev pub parse_job_id : String → Reply JobId
  parse_job_id raw = elim (web.parse_str raw) [
    | none ↦ Reply.err (ApiError.bad_request "invalid job id")
    | some job_id ↦ Reply.ok job_id
  ]

  -- `?` on the parsed identifier.
  abbrev pub with_job_id {ℓ} : {A : Type ℓ} → Reply JobId → (JobId → Reply A) → Reply A
  with_job_id (Reply.err e) f = Reply.err e
  with_job_id (Reply.ok job_id) f = f job_id

  unfoldable pub job_status : String → Master → Reply JobStatusResponse
  job_status raw m = with_job_id (parse_job_id raw) (λ j. of_answer (get_job_status env j m))

  unfoldable pub job_results : String → Master → Reply (List TaskResult)
  job_results raw m = with_job_id (parse_job_id raw) (λ j. of_answer (get_job_results env j m))

  abbrev pub or_result_bin : Option String → String
  or_result_bin none = "result.bin"
  or_result_bin (some name) = name

  -- The response builder refuses a header value that is not one.
  abbrev pub build_response : String → List ℕ → Reply FileResponse
  build_response filename bytes =
      let disposition = append "attachment; filename=\"" (append filename "\"") in
      elim (web.header_error disposition) [
        | none ↦ Reply.ok (record { disposition = disposition; body = bytes })
        | some e ↦ Reply.err (ApiError.internal e)
      ]

  abbrev pub serve_file : String → Reply FileResponse
  serve_file path = elim (web.read_file path) [
    | Outcome.ok bytes ↦ build_response (or_result_bin (web.file_name path)) bytes
    | Outcome.err e ↦ Reply.err (
        ApiError.engine
          (EngineError.io (append "failed to read result file " (append path (append ": " e)))))
  ]

  abbrev pub serve_first : Option TaskResult → Reply FileResponse
  serve_first none = Reply.err (ApiError.engine (EngineError.not_found "no completed results"))
  serve_first (some r) = serve_file r.result_location.path

  abbrev pub serve_results : Reply (List TaskResult) → Reply FileResponse
  serve_results (Reply.err e) = Reply.err e
  serve_results (Reply.ok results) = serve_first (find (λ r. is_completed r.status) results)

  unfoldable pub job_result_file : String → Master → Reply FileResponse
  unfolding job_results
  job_result_file raw m =
      with_job_id (parse_job_id raw) (λ j. serve_results (of_answer (get_job_results env j m)))

  unfoldable pub heartbeat : SystemTime → HeartbeatMessage → Master → ℕ × Master
  heartbeat now payload m = (200, Workers.handle_heartbeat now payload m)

  unfoldable pub register_worker : WorkerInfo → Master → Reply WorkerId × Master
  register_worker worker m =
      let (made, m') = Workers.register_worker worker m in (of_outcome made, m')

  unfoldable pub complete_task : TaskResult → Master → Reply (Unit {0}) × Master
  complete_task result m =
      let (done, m') = Completion.complete_task env result m in (of_outcome done, m')
