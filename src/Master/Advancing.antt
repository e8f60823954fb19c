-- ===== src/Master/Advancing.antt =====
-- What a scheduling pass of src/master/mod.rs does to the jobs.
use distributed_processing_e.Base.{
  false_not_true, ◌≡◌, refl, sym, ap, ◌∙◌, true, some, List, [], ◌∷◌, ◌++◌, Bool-cases, inl, inr,
  if◌then◌else◌, Among, ◌⊎◌,
}
use distributed_processing_e.Base.Eq.{◌==◌, nat_eq}
use distributed_processing_e.Base.Map.{HashMap, get, get-insert}
use distributed_processing_e.Master.Assignment.{placed}
use distributed_processing_e.Master.Recovery.{new}
use distributed_processing_e.Master.State.{JobState, Master, is_queued}
use distributed_processing_e.Types.{JobId, TaskId, WorkerId, Task, TaskStatus}

-- The task is queued, in the job that it is of.
pub record IsQueued (m : Master) (t : Task) : Type 0 where
  pub job : JobState
  pub known : get m.jobs t.job_id ≡ some job
  pub waiting : is_queued (get job.tasks t.task_id) ≡ true

-- What scheduling does to a job: its dag stays, and no task is put back into the queue.
pub record Advances (old new : JobState) : Type 0 where
  pub dag : old.dag ≡ new.dag
  pub queued :
      (t : TaskId) → is_queued (get new.tasks t) ≡ true → is_queued (get old.tasks t) ≡ true

pub placed-Advances :
    (w : WorkerId) (task : Task) (job : JobState) → Advances job (placed w task job)
placed-Advances w task job = record {
  dag = refl;
  queued = λ t q.
      kept t (ap is_queued (sym (get-insert job.tasks task.task_id (TaskStatus.assigned w) t)) ∙ q);
}
  where
    kept :
        (t : TaskId)
        → is_queued (if task.task_id == t then some (TaskStatus.assigned w) else get job.tasks t)
          ≡ true
        → is_queued (get job.tasks t) ≡ true
    kept t q = elim (Bool-cases (task.task_id == t)) [
      | inl same ↦ absurd (false_not_true (rw same at q))
      | inr other ↦ rw other at q
    ]

-- Every job of the later map comes from one of the earlier map.
unfoldable pub Forward : HashMap JobId JobState → HashMap JobId JobState → Type 0
Forward old new =
    (j : JobId) (job : JobState)
    → get new j ≡ some job
    → (before : JobState) × (get old j ≡ some before) × Advances before job

pub Forward-refl : (jobs : HashMap JobId JobState) → Forward jobs jobs
unfolding Forward
Forward-refl jobs j job e = (job, e, record { dag = refl; queued = λ t q. q })

pub Forward-trans : (a b c : HashMap JobId JobState) → Forward a b → Forward b c → Forward a c
unfolding Forward
Forward-trans a b c f g j job e =
    let (mid, there, second) = g j job e in
    let (before, known, first) = f j mid there in
    (
      before,
      known,
      record { dag = first.dag ∙ second.dag; queued = λ t q. first.queued t (second.queued t q) },
    )

pub Among-split : (xs ys : List Task) (t : Task) → Among t (xs ++ ys) → Among t xs ⊎ Among t ys
Among-split [] ys t m = inr m
Among-split (x ∷ xs) ys t (inl e) = inl (inl e)
Among-split (x ∷ xs) ys t (inr m) = elim (Among-split xs ys t m) [
  | inl here ↦ inl (inr here)
  | inr there ↦ inr there
]

pub Among-left : (xs ys : List Task) (t : Task) → Among t xs → Among t (xs ++ ys)
Among-left [] ys t m = absurd m
Among-left (x ∷ xs) ys t (inl e) = inl e
Among-left (x ∷ xs) ys t (inr m) = inr (Among-left xs ys t m)

pub Among-right : (xs ys : List Task) (t : Task) → Among t ys → Among t (xs ++ ys)
Among-right [] ys t m = m
Among-right (x ∷ xs) ys t m = inr (Among-right xs ys t m)
