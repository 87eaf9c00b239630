-- ===== src/Job/Lifecycle.antt =====
-- Registrations, starts and stops of the scheduler.
use domux.Prelude.{ℕ, ◌≡◌, refl, none, some, [], ◌∷◌, arith, if◌then◌else◌}
use domux.Text.{Text}
use domux.Text.Equality.{eq_iff}
use domux.Mapping.{Mapping, get, get-put}
use domux.Job.{
  ScheduledJob, Scheduler, new_scheduler, new_job, start_job, stop_job, every, each_job, start,
  stop,
}

-- A job's loop has been started, and can be stopped, exactly while the scheduler is started.
abbrev pub IsConsistent : Scheduler → Type 0
IsConsistent s =
    (name : Text) (job : ScheduledJob) → get name s.jobs ≡ some job → job.stop ≡ s.started

pub data Reachable : Scheduler → Type 0 where
  initial : Reachable new_scheduler
  registered :
      (name : Text) (interval : ℕ) (s : Scheduler)
      → Reachable s
      → Reachable (every name interval s).0
  started : (s : Scheduler) → Reachable s → Reachable (start s)
  stopped : (s : Scheduler) → Reachable s → Reachable (stop s)

get-each_job :
    (f : ScheduledJob → ScheduledJob) (name : Text) (jobs : Mapping ScheduledJob)
    → get name (each_job f jobs) ≡ elim (get name jobs) [ none ↦ none | some job ↦ some (f job) ]
unfolding get each_job
get-each_job f name [] = refl
get-each_job f name ((n, job) ∷ jobs) = ground (arith, get-each_job f name jobs)

every-IsConsistent :
    (name : Text) (interval : ℕ) (s : Scheduler)
    → IsConsistent s
    → IsConsistent (every name interval s).0
unfolding every start_job
every-IsConsistent name interval s h n job e = ground (
  arith,
  eq_iff name n,
  h n job,
  get-put name n (if s.started then start_job (new_job name interval) else new_job name interval)
      s.jobs,
)

start-IsConsistent : (s : Scheduler) → IsConsistent s → IsConsistent (start s)
unfolding start start_job
start-IsConsistent s h n job e = ground (arith, h n job, get-each_job start_job n s.jobs)

stop-IsConsistent : (s : Scheduler) → IsConsistent s → IsConsistent (stop s)
unfolding stop stop_job
stop-IsConsistent s h n job e = ground (arith, h n job, get-each_job stop_job n s.jobs)

nothing_registered : IsConsistent new_scheduler
unfolding get
nothing_registered name job e = cc

-- However registrations, starts and stops follow each other, the loop of every job has been started
-- exactly if the scheduler is started.
pub Reachable-IsConsistent :
    (s : Scheduler)
    → Reachable s
    → (name : Text) (job : ScheduledJob) → get name s.jobs ≡ some job
    → job.stop ≡ s.started
Reachable-IsConsistent s initial = λ name job e. nothing_registered name job e
Reachable-IsConsistent s (registered name interval t r) =
    every-IsConsistent name interval t (Reachable-IsConsistent t r)
Reachable-IsConsistent s (started t r) = start-IsConsistent t (Reachable-IsConsistent t r)
Reachable-IsConsistent s (stopped t r) = stop-IsConsistent t (Reachable-IsConsistent t r)
