-- ===== src/Tests/Running.antt =====
-- The theorems on jobs and agents, applied.
use domux.Prelude.{◌≡◌, refl, ℕ, zero, suc, ◌≤◌, true, false, some, [], ◌∷◌}
use domux.Prelude.Result.{Result, err}
use domux.Text.{Text, codes, ◌==◌}
use domux.Mapping.{get, put, keys}
use domux.Core.Types.{AgentNode}
use domux.Core.Names.{elem}
use domux.Job.{
  ScheduledJob, Scheduler, Answer, Surroundings, fine, broken, new_scheduler, new_job, every, start,
  start_job, begin_run, each_job,
}
use domux.Job.Exclusion
use domux.Job.Exclusion.{Shared, enter, Reachable-IsGuarded}
use domux.Job.Lifecycle
use domux.Job.Lifecycle.{Reachable-IsConsistent}
use domux.Agent.Pool.{Client, Info, Pool, refresh_all, list_nodes, no_node}
use domux.Agent.Pool.Refresh.{refresh_all-list_nodes}

abbrev ddns : Text
ddns = codes "ddns"

abbrev job : ScheduledJob
job = new_job ddns 60

-- The first call fails, and the later ones succeed.
abbrev answers : ℕ → Answer
answers zero = broken (codes "timeout")
answers (suc n) = fine

abbrev surroundings : Surroundings
surroundings = record { answer = answers; done = λ n. false }

abbrev busy : Shared
busy = record { job = record job { running = true; last_start = 5 }; inside = 1 }

busy-Reachable : Exclusion.Reachable ddns 60 busy
unfolding begin_run
busy-Reachable =
    Exclusion.next (record { job = job; inside = 0 }) busy Exclusion.initial
      (enter 5 job busy.job 0 refl)

Reachable-IsGuarded_example : (busy.inside ≤ 1) × (busy.inside ≡ 1)
Reachable-IsGuarded_example = Reachable-IsGuarded ddns 60 busy busy-Reachable

abbrev scheduled : Scheduler
scheduled = start (every ddns 60 new_scheduler).0

scheduled-Reachable : Lifecycle.Reachable scheduled
scheduled-Reachable =
    Lifecycle.started (every ddns 60 new_scheduler).0
      (Lifecycle.registered ddns 60 new_scheduler Lifecycle.initial)

scheduled_job : get ddns scheduled.jobs ≡ some (start_job job)
unfolding get ◌==◌ start every start_job put each_job
scheduled_job = refl

Reachable-IsConsistent_example : (start_job job).stop ≡ scheduled.started
Reachable-IsConsistent_example =
    Reachable-IsConsistent scheduled scheduled-Reachable ddns (start_job job) scheduled_job

abbrev edge : AgentNode
edge = record no_node { name = codes "edge"; addr = codes "edge:8890" }

abbrev pool : Pool
pool = (codes "edge", record { client = record { node = edge }; node = edge }) ∷ []

abbrev unreachable : Client → Result Text Info
unreachable c = err (codes "refused")

refresh_all-list_nodes_example :
    (keys (refresh_all unreachable 9 pool).0 ≡ keys pool)
    × ((refresh_all unreachable 9 pool).1 ≡ list_nodes (refresh_all unreachable 9 pool).0)
unfolding keys elem
refresh_all-list_nodes_example = refresh_all-list_nodes unreachable 9 pool (refl, tt)
