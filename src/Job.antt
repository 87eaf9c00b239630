-- ===== src/Job.antt =====
-- internal/platform/job/scheduler.go. The methods of Scheduler hold its lock for all of their body, so
-- each is one step; a run of a job is a sequence of steps between which other runs of the same job
-- may take theirs.
pub mod Runs
pub mod Exclusion
pub mod Lifecycle
use domux.Prelude.{
  ℕ, zero, suc, ◌+◌, ◌*◌, Bool, true, false, not, ◌||◌, Option, none, some, List, [], ◌∷◌, ◌++◌,
  if◌then◌else◌, ltb, is_some, map,
}
use domux.Prelude.Result.{Result, ok, err}
use domux.Text.{Text, codes, ◌==◌}
use domux.Mapping.{Mapping, get, put}
use domux.Core.Types.{Time}

-- scheduledJob, without its function; the name and the interval do not change, and `stop` says
-- whether there is a function that stops the job's loop.
pub record ScheduledJob : Type 0 where
  pub name : Text
  pub interval : ℕ
  pub stop : Bool
  pub running : Bool
  pub last_start : Time
  pub last_finish : Time
  pub last_error : Text
  pub retry_delay : ℕ
  pub max_retry_count : ℕ

-- Scheduler; its context is live exactly while it is started.
pub record Scheduler : Type 0 where
  pub jobs : Mapping ScheduledJob
  pub started : Bool

-- NewScheduler
abbrev pub new_scheduler : Scheduler
new_scheduler = record { jobs = []; started = false }

-- startJobLocked, up to the loop that it starts
unfoldable pub start_job : ScheduledJob → ScheduledJob
start_job job = record job { stop = true }

unfoldable pub stop_job : ScheduledJob → ScheduledJob
stop_job job = if job.stop then record job { stop = false } else job

-- 2 * time.Second
abbrev pub two_seconds : ℕ
two_seconds = 2_000_000_000

abbrev pub new_job : Text → ℕ → ScheduledJob
new_job name interval = record {
  name = name;
  interval = interval;
  stop = false;
  running = false;
  last_start = 0;
  last_finish = 0;
  last_error = [];
  retry_delay = two_seconds;
  max_retry_count = 2;
}

-- Every; false for the error that the job is already registered.
unfoldable pub every : Text → ℕ → Scheduler → Scheduler × Bool
unfolding start_job
every name interval s = elim (get name s.jobs) [
  | some job ↦ (s, false)
  | none ↦
      let job = new_job name interval in
      (record s { jobs = put name (if s.started then start_job job else job) s.jobs }, true)
]

unfoldable pub each_job :
    (ScheduledJob → ScheduledJob) → Mapping ScheduledJob → Mapping ScheduledJob
each_job f [] = []
each_job f ((name, job) ∷ jobs) = (name, f job) ∷ each_job f jobs

-- Start
unfoldable pub start : Scheduler → Scheduler
unfolding start_job each_job
start s = if s.started then s else record { jobs = each_job start_job s.jobs; started = true }

-- Stop
unfoldable pub stop : Scheduler → Scheduler
unfolding stop_job each_job
stop s = if not s.started then s else record { jobs = each_job stop_job s.jobs; started = false }

-- What the function of a job returns.
pub data Answer : Type 0 where
  fine : Answer
  canceled : Text → Answer
  broken : Text → Answer

-- What a run has done: the answers that it has used, the waits that it has made, in nanoseconds, and
-- the error text that it has left.
pub record Trace : Type 0 where
  pub calls : ℕ
  pub waits : List ℕ
  pub last_error : Text

-- The function and the context of a run, by the number of the call and of the wait: what the call
-- returns, and whether the context is done before the wait is over.
pub record Surroundings : Type 0 where
  pub answer : ℕ → Answer
  pub done : ℕ → Bool

-- the end of a call that settles the run
unfoldable pub settled : Answer → Bool
settled fine = true
settled (canceled e) = true
settled (broken e) = false

unfoldable pub error_text : Answer → Text
error_text fine = []
error_text (canceled e) = []
error_text (broken e) = e

-- The retries: `left` of them are still allowed, and `attempt` is the number of the next.
unfoldable pub retry : Surroundings → ℕ → ℕ → ℕ → Trace → Trace
retry w delay zero attempt t = t
retry w delay (suc left) attempt t =
    let answer = w.answer t.calls in
    let t' : Trace = record {
      calls = suc t.calls;
      waits = t.waits ++ (delay * (attempt + 1)) ∷ [];
      last_error = error_text answer;
    } in
    let rest = retry w delay left (suc attempt) t' in
    if w.done attempt then t else if settled answer then t' else rest

-- The part of run between its two locked sections: the first call, and the retries of a failure.
unfoldable pub attempts : Surroundings → ScheduledJob → Trace
unfolding retry
attempts w job =
    let answer = w.answer 0 in
    let t : Trace = record { calls = 1; waits = []; last_error = error_text answer } in
    if settled answer then t else retry w job.retry_delay job.max_retry_count 0 t

-- The first locked section of run; none where another run of the job is not yet over.
unfoldable pub begin_run : Time → ScheduledJob → Option ScheduledJob
begin_run now job =
    if job.running then none else some (record job { running = true; last_start = now })

unfoldable pub set_last_error : Text → ScheduledJob → ScheduledJob
set_last_error message job = record job { last_error = message }

-- The deferred section of run.
unfoldable pub finish_run : Time → ScheduledJob → ScheduledJob
finish_run now job = record job { running = false; last_finish = now }

-- run, where no other step comes between, with the number of its calls.
unfoldable pub run : Surroundings → Time → Time → ScheduledJob → ScheduledJob × ℕ
unfolding begin_run
run w now finish job = elim (begin_run now job) [
  | none ↦ (job, 0)
  | some begun ↦
      let t = attempts w begun in (finish_run finish (set_last_error t.last_error begun), t.calls)
]
