-- ===== src/Http/Routes.antt =====
-- The routes of src/http/router.rs.
use Prim.Native.Char.{Char, code}
use Prim.Native.String.{◌++◌ as append}
use distributed_processing_e.Base.{
  ◌≡◌, refl, sym, ap, ◌∙◌, String, true, false, ◌&&◌, List, [], ◌∷◌, if◌then◌else◌, eqb, Bool-cases,
  inl, inr,
}
use distributed_processing_e.Base.Eq.{◌==◌, nat_eq, string_eq}
use distributed_processing_e.Http.Request.{HttpRequest}

-- `trim_end_matches('/')`
abbrev drop_slash : Char → String → String
drop_slash c String.[] = if eqb (code c) 47 then "" else String.◌∷◌ c ""
drop_slash c (String.◌∷◌ d s) = String.◌∷◌ c (String.◌∷◌ d s)

unfoldable pub trim_slashes : String → String
trim_slashes String.[] = ""
trim_slashes (String.◌∷◌ c s) = drop_slash c (trim_slashes s)

pub data Handler : Type 0 where
  submit_job job_status job_results job_result_file heartbeat register_worker complete_task :
      Handler

-- Method, path and handler.
unfoldable pub register_routes : String → List (String × String × Handler)
unfolding trim_slashes
register_routes base_path =
    let base = trim_slashes base_path in
    ("POST", append base "/jobs", Handler.submit_job)
    ∷ ("GET", append base "/jobs/:id", Handler.job_status)
    ∷ ("GET", append base "/jobs/:id/results", Handler.job_results)
    ∷ ("GET", append base "/jobs/:id/result", Handler.job_result_file)
    ∷ ("POST", append base "/heartbeat", Handler.heartbeat)
    ∷ ("POST", append base "/register", Handler.register_worker)
    ∷ ("POST", append base "/tasks/complete", Handler.complete_task)
    ∷ []

unfoldable pub handle_request : HttpRequest → String → String
unfolding trim_slashes
handle_request req base_path =
    if req.method == "GET" && req.path == append (trim_slashes base_path) "/health"
    then "ok"
    else "not found"

trim_slashes_idem : (s : String) → trim_slashes (trim_slashes s) ≡ trim_slashes s
unfolding trim_slashes
trim_slashes_idem String.[] = refl
trim_slashes_idem (String.◌∷◌ c s) = again (trim_slashes s) (trim_slashes_idem s)
  where
    gone : eqb (code c) 47 ≡ true → drop_slash c "" ≡ ""
    gone slash = rw slash

    kept : eqb (code c) 47 ≡ false → drop_slash c "" ≡ String.◌∷◌ c ""
    kept other = rw other

    again : (t : String) → trim_slashes t ≡ t → trim_slashes (drop_slash c t) ≡ drop_slash c t
    again String.[] h = elim (Bool-cases (eqb (code c) 47)) [
      | inl slash ↦ ap trim_slashes (gone slash) ∙ sym (gone slash)
      | inr other ↦ ap trim_slashes (kept other)
    ]
    again (String.◌∷◌ d t) h = rw h

-- Slashes at the end of the base path make no difference: the routes and the health check are those
-- of the path without them.
register_routes-trim_slashes :
    (base_path : String) (req : HttpRequest)
    → (register_routes (trim_slashes base_path) ≡ register_routes base_path)
      × (handle_request req (trim_slashes base_path) ≡ handle_request req base_path)
unfolding register_routes handle_request
register_routes-trim_slashes base_path req = rw (trim_slashes_idem base_path) (refl, refl)
