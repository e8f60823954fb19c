-- ===== src/Http/Tests.antt =====
-- The handlers' theorems at a job that has a result.
use distributed_processing_e.Base.{ℕ, Bool, eqb, ◌≡◌, refl, none, some, [], ◌∷◌}
use distributed_processing_e.Base.Eq.{nat_eq}
use distributed_processing_e.Base.Map.{get, insert, modify}
use distributed_processing_e.Base.Outcome
use distributed_processing_e.Dag.{validate}
use distributed_processing_e.Http.{Web, job_status, job_results}
use distributed_processing_e.Http.Codes.{code, job_code, code-job_status}
use distributed_processing_e.Http.Request.{HttpRequest, parse, join_lines}
use distributed_processing_e.Http.Request.RoundTrip.{print, insert_all, lacks-Without, parse-print}
use distributed_processing_e.Base.Text.{trim, is_whitespace}
use distributed_processing_e.Http.Routes.{handle_request}
use distributed_processing_e.Master.Events.{run}
use distributed_processing_e.Master.Recovery.{new, restore_jobs, restore_task, restore_tasks}
use distributed_processing_e.Master.State.{JobState}
use distributed_processing_e.Samples.{env, config, word_count, report}
use distributed_processing_e.Spec.{DagSpecification, OperatorType, JoinType}
use distributed_processing_e.StateStore.{
  StateStore, new_tables, load_all_jobs, load_all_tasks, query,
}
use distributed_processing_e.Types.{JobStatus, TaskStatus, default_job_metrics}

abbrev web : Web
web = record {
  parse_str = λ raw. some 1;
  read_file = λ path. Outcome.ok (104 ∷ 105 ∷ []);
  file_name = λ path. some path;
  header_error = λ value. none;
}

-- A store with a job whose only task is done.
abbrev store : StateStore
store = record {
  tables = record new_tables {
    jobs = (1, record { status = JobStatus.succeeded; dag = word_count }) ∷ [];
    tasks =
        (
          5,
          record {
            job_id = 1;
            status = TaskStatus.completed;
            result = some (report 1 5 TaskStatus.completed);
          },
        )
        ∷ [];
  };
  faults = [];
}

abbrev lone_join : DagSpecification
lone_join = record {
  nodes = record { id = "j"; operator = OperatorType.join "k" JoinType.inner } ∷ [];
  edges = [];
  partitions = 1;
}

code-job_status_example :
    (code (job_status env web "1" (new config store)) ≡ job_code (some 1) (new config store))
    × (code (job_results env web "1" (new config store)) ≡ job_code (some 1) (new config store))
code-job_status_example = code-job_status env web "1" (new config store)

lone_join_refused :
    validate lone_join ≡ Outcome.err "join node 'j' must have exactly 2 parents (found 0)"
unfolding validate
lone_join_refused = refl

abbrev found : JobState
found = record {
  dag = word_count;
  status = JobStatus.succeeded;
  tasks = (5, TaskStatus.completed) ∷ [];
  results = report 1 5 TaskStatus.completed ∷ [];
  metrics = default_job_metrics;
  error = none;
}

restored : get (run env [] (new config store)).jobs 1 ≡ some found
unfolding run new get load_all_jobs load_all_tasks query restore_jobs restore_tasks restore_task
    insert modify
restored = refl

abbrev health : HttpRequest
health = record {
  method = "GET";
  path = "/api/v1/health";
  version = "HTTP/1.1";
  headers = [];
  body = none;
}

is_healthy : handle_request health "/api/v1//" ≡ "ok"
unfolding handle_request
is_healthy = refl

abbrev is_newline : ℕ → Bool
is_newline c = eqb c 10

abbrev is_colon : ℕ → Bool
is_colon c = eqb c b':'

parse-print_example :
    parse (print "PUT" "/x" "HTTP/1.1" (("Host", "a") ∷ []) ("one" ∷ "two" ∷ []))
    ≡ some (record {
      method = "PUT";
      path = "/x";
      version = "HTTP/1.1";
      headers = insert_all (("Host", "a") ∷ []) [];
      body = some "one\ntwo";
    })
unfolding trim join_lines
parse-print_example =
    parse-print "PUT" "/x" "HTTP/1.1" (("Host", "a") ∷ []) ("one" ∷ "two" ∷ [])
      (lacks-Without is_whitespace "PUT" refl, refl) (lacks-Without is_whitespace "/x" refl, refl)
      (lacks-Without is_whitespace "HTTP/1.1" refl, refl)
      (lacks-Without is_newline "PUT /x HTTP/1.1" refl, refl)
      (
        (
          lacks-Without is_colon "Host" refl,
          refl,
          refl,
          (lacks-Without is_newline "Host: a" refl, refl),
        ),
        tt,
      )
      (
        (lacks-Without is_newline "one" refl, refl),
        ((lacks-Without is_newline "two" refl, refl), refl),
      )
