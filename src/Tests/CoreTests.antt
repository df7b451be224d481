-- ===== src/Tests/CoreTests.antt =====
-- Tasks of the manager, one that succeeds at the second attempt, and a pool with a worker.
use task_hub.Core.WorkerPool.Conserved.{IsConserved, skipped, refused, reach_conserves_tasks}
use task_hub.Core.Execute.Outcome.{IsFailure, Outcome, retries_at, execute_one_task-Outcome}
use task_hub.Core.Execute.{Surroundings, execute_one_task, ExecResult}
use task_hub.Core.Manager.{Manager, load_from_db}
use task_hub.Prelude.{
  ℕ, ◌≤◌, ◌≡◌, ◌<◌, [], ◌∷◌, ◌≤ℤ◌, ◌==◌, ◌+◌, Text, Option, List, none, some, pos, true, false,
  if◌then◌else◌, suc, refl, Text-Eq,
}
use task_hub.Json.{Json}
use task_hub.Core.Task.{Task, TaskStatus, default_task}
use task_hub.Core.WorkerPool.{
  start, WorkerPool, new_pool, Reach, submit, next, here, starts, submits, pushes, popping, push,
}

abbrev no_parse : Text → Option Json
no_parse s = none

abbrev empty_manager : Manager
empty_manager = load_from_db no_parse (some []) (record { tasks = []; next_id = 1 })

abbrev one_task : Manager
one_task = record { tasks = record default_task { id = 1 } ∷ []; next_id = 2 }

abbrev second_result : ℕ → ExecResult
second_result k = record {
  exit_code = if k == 0 then pos 1 else pos 0;
  output = [];
  error = [];
  timed_out = false;
}

abbrev second_time : Surroundings
second_time = record {
  canceled_first = false;
  canceled_before = λ k. false;
  canceled_last = false;
  attempt_result = λ k. some (second_result k);
  now = [];
}

abbrev retried : Task
retried = record default_task { max_retries = pos 1 }

execute_one_task-Outcome_example :
    (u : Task) × (told : List Task) × (n : ℕ) × (execute_one_task second_time 2 retried
      ≡ some (u, told))
    × (n ≤ 1)
    × ((k : ℕ) → k < n → IsFailure second_time second_result k × (pos (suc k) ≤ℤ pos 1))
    × (second_time.canceled_last ≡ true → u.status ≡ TaskStatus.canceled)
    × (second_time.canceled_last ≡ false
        → Outcome second_time second_result (pos 1) n (retries_at n (pos 0)) u.status u.retry_count)
execute_one_task-Outcome_example =
    execute_one_task-Outcome second_time second_result retried (λ k. refl) refl

abbrev fresh_pool : WorkerPool ℕ
fresh_pool = new_pool

abbrev pushed_pool : WorkerPool ℕ
pushed_pool = record {
  queue = record { items = 7 ∷ []; is_stopped = false };
  submitting = [];
  workers = popping ∷ [];
  stopping = false;
  total_submitted = 1;
  total_finished = 0;
  current_running = 0;
}

abbrev submitted_run : Reach fresh_pool pushed_pool
unfolding submit start push
submitted_run = next (next (next here (starts 1)) (submits (some 7))) (pushes [] [] 7 refl refl)

reach_conserves_tasks_example :
    IsConserved pushed_pool (skipped submitted_run + refused submitted_run)
reach_conserves_tasks_example = reach_conserves_tasks submitted_run

abbrev shut_pool : WorkerPool ℕ
shut_pool = record fresh_pool { queue = record { items = []; is_stopped = true } }
