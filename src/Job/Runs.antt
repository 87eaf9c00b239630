-- ===== src/Job/Runs.antt =====
-- The calls, waits and error text of a run.
use domux.Prelude.{ℕ, zero, suc, ◌+◌, ◌*◌, ◌≤◌, ◌≡◌, true, false, List, [], ◌∷◌, ◌++◌, ◌⊎◌}
use domux.Job.{Trace, Surroundings, settled, error_text}

-- The waits before the first `k` retries, each longer by the delay than the one before.
unfoldable pub backoff : ℕ → ℕ → List ℕ
backoff delay zero = []
backoff delay (suc k) = backoff delay k ++ (delay * (k + 1)) ∷ []

-- None of the first `k` calls settled the run, and no wait behind them met the end of the context.
abbrev pub Quiet : Surroundings → ℕ → Type 0
Quiet w zero = Unit
Quiet w (suc k) = Quiet w k × (settled (w.answer k) ≡ false) × (w.done k ≡ false)

-- The trace ends with call `k`, counted from 0: the calls before it neither settled the run nor met
-- the end of the context, and call `k` did one of them or was the last that is allowed.
pub record EndsAt (w : Surroundings) (delay last : ℕ) (t : Trace) (k : ℕ) : Type 0 where
  pub calls : t.calls ≡ suc k
  pub allowed : k ≤ last
  pub waits : t.waits ≡ backoff delay k
  pub text : t.last_error ≡ error_text (w.answer k)
  pub reason : (settled (w.answer k) ≡ true) ⊎ (k ≡ last) ⊎ (w.done k ≡ true)
  pub earlier : Quiet w k

module _ (w : Surroundings) (delay last : ℕ) where
  -- the trace after call `k`
  unfoldable traced : ℕ → Trace
  traced k = record { calls = suc k; waits = backoff delay k; last_error = error_text (w.answer k) }
