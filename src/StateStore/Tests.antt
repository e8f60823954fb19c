-- ===== src/StateStore/Tests.antt =====
-- The store's theorems at a task row that is written over.
use distributed_processing_e.Base.{◌≡◌, refl, some, [], ◌∷◌}
use distributed_processing_e.Base.Eq.{nat_eq}
use distributed_processing_e.Base.Map.{get}
use distributed_processing_e.Base.Outcome.{err}
use distributed_processing_e.Samples.{word_count, report}
use distributed_processing_e.StateStore.{
  StateStore, TaskRow, new_tables, persist_task_status, foreign_key_error, transact,
}
use distributed_processing_e.StateStore.Laws.{IsReferential, Write, write, write-IsReferential}
use distributed_processing_e.Types.{JobStatus, TaskStatus}

abbrev empty_store : StateStore
empty_store = record { tables = new_tables; faults = [] }

abbrev done_row : TaskRow
done_row = record {
  job_id = 1;
  status = TaskStatus.completed;
  result = some (report 1 5 TaskStatus.completed);
}

abbrev store : StateStore
store = record {
  tables = record new_tables {
    jobs = (1, record { status = JobStatus.running; dag = word_count }) ∷ [];
    tasks = (5, done_row) ∷ [];
  };
  faults = [];
}

-- A task of an unknown job is refused.
orphan_refused : (persist_task_status 5 1 TaskStatus.queued empty_store).0 ≡ err foreign_key_error
unfolding persist_task_status transact get
orphan_refused = refl

-- A job and its task can be written.
write-IsReferential_example :
    IsReferential (write (Write.task_status 6 1 TaskStatus.queued) store).1.tables
unfolding get
write-IsReferential_example =
    write-IsReferential (Write.task_status 6 1 TaskStatus.queued) store ((_, refl), tt)
