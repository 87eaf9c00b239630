-- ===== src/Job/Exclusion.antt =====
-- Runs of one job at the same time: what each does under the job's lock is one step.
use domux.Prelude.{ℕ, suc, ◌≤◌, ◌≡◌, refl, some, arith, if◌then◌else◌, Bool-cases, inl, inr}
use domux.Text.{Text}
use domux.Core.Types.{Time}
use domux.Job.{ScheduledJob, start_job, stop_job, begin_run, set_last_error, finish_run, new_job}

-- A job, and how many runs of it are between their first and their last section.
pub record Shared : Type 0 where
  pub job : ScheduledJob
  pub inside : ℕ

pub data Step : Shared → Shared → Type 0 where
  enter :
      (now : Time) (job job' : ScheduledJob) (n : ℕ)
      → begin_run now job ≡ some job'
      → Step (record { job = job; inside = n }) (record { job = job'; inside = suc n })
  note :
      (message : Text) (job : ScheduledJob) (n : ℕ)
      → Step
          (record { job = job; inside = suc n })
          (record { job = set_last_error message job; inside = suc n })
  leave :
      (now : Time) (job : ScheduledJob) (n : ℕ)
      → Step
          (record { job = job; inside = suc n })
          (record { job = finish_run now job; inside = n })
  restarted :
      (job : ScheduledJob) (n : ℕ)
      → Step (record { job = job; inside = n }) (record { job = start_job job; inside = n })
  stopped :
      (job : ScheduledJob) (n : ℕ)
      → Step (record { job = job; inside = n }) (record { job = stop_job job; inside = n })

-- What can be reached from a new job.
pub data Reachable (name : Text) (interval : ℕ) : Shared → Type 0 where
  initial : Reachable name interval (record { job = new_job name interval; inside = 0 })
  next : (s s' : Shared) → Reachable name interval s → Step s s' → Reachable name interval s'

-- The flag of the job says how many runs are inside.
abbrev pub IsGuarded : Shared → Type 0
IsGuarded s = s.inside ≡ (if s.job.running then 1 else 0)

Step-IsGuarded : {s s' : Shared} → Step s s' → IsGuarded s → IsGuarded s'
unfolding begin_run set_last_error finish_run start_job stop_job
Step-IsGuarded (enter now job job' n e) h = elim (Bool-cases job.running) [
  | inl busy ↦ ground (arith, e)
  | inr idle ↦ ground (arith, e, h)
]
Step-IsGuarded (note message job n) h = h
Step-IsGuarded (leave now job n) h = ground (arith, h)
Step-IsGuarded (restarted job n) h = h
Step-IsGuarded (stopped job n) h = ground (arith, h)

Reachable-inside :
    (name : Text) (interval : ℕ) (s : Shared) → Reachable name interval s → IsGuarded s
Reachable-inside name interval s initial = refl
Reachable-inside name interval s (next t s' r step) =
    Step-IsGuarded step (Reachable-inside name interval t r)

-- However runs, starts and stops of a job interleave, at most one run is inside its sections, and
-- the job is marked as running exactly then.
pub Reachable-IsGuarded :
    (name : Text) (interval : ℕ) (s : Shared)
    → Reachable name interval s
    → (s.inside ≤ 1) × (s.inside ≡ (if s.job.running then 1 else 0))
Reachable-IsGuarded name interval s r =
    let guarded = Reachable-inside name interval s r in (ground (arith, guarded), guarded)
