-- ===== src/Dag/Executor/Parallel.antt =====
-- server/src/dag/dag_executor.cpp: the bound on the nodes that run at once.
use task_hub.Prelude.{
  List, [], ◌∷◌, ◌++◌, ◌≡◌, refl, ◌∙◌, ◌+ℤ◌, pos, arith, Bool, length, ◌≤ℤ◌, ℕ, ap, subst,
  length-append, sym, -ℤ-pos, Bool-cases, is_empty, inl, inr, -ℤ_parts, if◌then◌else◌, ◌<ℤ◌, eqb_ℤ,
  +ℤ-pos, Text-Eq,
}
use task_hub.Runner.Task.{TaskId, TaskResult}
use task_hub.Dag.Types.{DagConfig}
use task_hub.Dag.Graph.{DagGraph}
use task_hub.Dag.RunContext.{Run, new_run, emit, emit_if, set_node_status, increment_running}
use task_hub.Dag.Executor.{
  Step, poll, call_back, Reach, here, next, consider, submit_node_async, start_node, begin,
  init_ready_queue, effective_parallel, push_ready, on_node_finished,
}
use task_hub.Dag.Executor.Frame.{SameControl, SameControl-trans, on_node_finished-CallsBack}

-- The counter is the number of jobs out, and that is at most the limit.
pub record IsBounded (s : Run) : Type 0 where
  pub counted : s.running ≡ pos (length s.in_flight)
  pub limited : pos (length s.in_flight) ≤ℤ s.max_parallel
  pub positive : pos 1 ≤ℤ s.max_parallel

start_node-fields :
    (id : TaskId) (s : Run)
    → ((start_node id s).running ≡ s.running +ℤ pos 1)
      × ((start_node id s).in_flight ≡ s.in_flight)
      × ((start_node id s).max_parallel ≡ s.max_parallel)
unfolding start_node emit emit_if set_node_status increment_running
start_node-fields id s = ground arith

-- A node taken from the queue is dropped, or is one more job.
submit-IsBounded :
    (x : Bool) (id : TaskId) (s : Run)
    → s.running <ℤ s.max_parallel
    → IsBounded s
    → IsBounded (consider submit_node_async x id s)
unfolding consider submit_node_async
submit-IsBounded x id s h b = ground (
  arith,
  start_node-fields id s,
  +ℤ-pos (length s.in_flight) 1,
  length-append s.in_flight (id ∷ []),
)

call_back-IsBounded :
    (s : Run) (before : List TaskId) (id : TaskId) (after : List TaskId) (r : TaskResult)
    → s.in_flight ≡ before ++ id ∷ after
    → IsBounded s
    → IsBounded (on_node_finished id r (record s { in_flight = before ++ after }))
call_back-IsBounded s before id after r e b =
    let c = on_node_finished-CallsBack id r (record s { in_flight = before ++ after }) in
    ground (
      arith,
      c,
      ap length e,
      length-append before (id ∷ after),
      length-append before after,
      -ℤ-pos (length s.in_flight) 1,
    )

pub Step-IsBounded : {s t : Run} → Step s t → IsBounded s → IsBounded t
Step-IsBounded {s} (poll x id rest stale free e q) b =
    subst IsBounded (sym q) (elim (Bool-cases (is_empty id.value)) [
      | inl h ↦ rw h b'
      | inr h ↦ rw h (submit-IsBounded x id (record s { ready_queue = rest }) free b')
    ])
  where
    b' : IsBounded (record s { ready_queue = rest })
    b' = ground arith
Step-IsBounded {s} (call_back before id after r e q) b =
    subst IsBounded (sym q) (call_back-IsBounded s before id after r e b)

Reach-IsBounded : {s t : Run} → IsBounded s → Reach s t → IsBounded t
Reach-IsBounded b here = b
Reach-IsBounded b (next r st) = Step-IsBounded st (Reach-IsBounded b r)

init_ready_queue-SameControl : (g : DagGraph) (s : Run) → SameControl s (init_ready_queue g s)
unfolding init_ready_queue push_ready emit
init_ready_queue-SameControl [] s = ground arith
init_ready_queue-SameControl ((k, n) ∷ g) s =
    SameControl-trans (ground arith)
      (init_ready_queue-SameControl g (if eqb_ℤ n.indegree (pos 0) then push_ready n.id s else s))

effective_parallel-pos : (n : ℕ) → pos 1 ≤ℤ effective_parallel n
unfolding effective_parallel
effective_parallel-pos n = ground (arith, -ℤ_parts (pos n) (pos 4294967296))

begin-IsBounded :
    (config : DagConfig) (g : DagGraph) (b c : Bool) → IsBounded (begin (new_run config g b c))
unfolding begin new_run
begin-IsBounded config g b c =
    let s = new_run config g b c in
    ground (
      arith,
      effective_parallel-pos config.max_parallel,
      init_ready_queue-SameControl g
          (record s { max_parallel = effective_parallel config.max_parallel }),
    )

begin-max :
    (config : DagConfig) (g : DagGraph) (b c : Bool)
    → (begin (new_run config g b c)).max_parallel ≡ effective_parallel config.max_parallel
unfolding begin new_run
begin-max config g b c =
    let s = new_run config g b c in
    ground (
      arith,
      init_ready_queue-SameControl g
          (record s { max_parallel = effective_parallel config.max_parallel }),
    )

consider-fixed :
    (b : Bool) (id : TaskId) (s : Run)
    → ((consider submit_node_async b id s).config ≡ s.config)
      × ((consider submit_node_async b id s).max_parallel ≡ s.max_parallel)
unfolding consider submit_node_async start_node emit emit_if set_node_status increment_running
consider-fixed b id s = ground arith

-- No step changes the configuration or the limit.
pub Step-fixed : {s t : Run} → Step s t → (t.config ≡ s.config) × (t.max_parallel ≡ s.max_parallel)
Step-fixed {s} (poll b id rest stale free e q) =
    ground (arith, q, consider-fixed b id (record s { ready_queue = rest }))
Step-fixed {s} (call_back before id after r e q) =
    ground (arith, q, on_node_finished-CallsBack id r (record s { in_flight = before ++ after }))

pub Reach-fixed :
    {s t : Run} → Reach s t → (t.config ≡ s.config) × (t.max_parallel ≡ s.max_parallel)
Reach-fixed here = (refl, refl)
Reach-fixed (next r st) = let (a, b) = Reach-fixed r in let (c, d) = Step-fixed st in (c ∙ a, d ∙ b)

-- Whatever the graph and however the threads interleave, the counter of running nodes is the number
-- of jobs that have not called back, and that is at most the configured limit (as an `int`, and at
-- least 1).
pub reachable_parallel :
    (config : DagConfig) (g : DagGraph) (b c : Bool) {t : Run}
    → Reach (begin (new_run config g b c)) t
    → (t.running ≡ pos (length t.in_flight))
      × (pos (length t.in_flight) ≤ℤ effective_parallel config.max_parallel)
reachable_parallel config g b c r =
    ground (
      arith,
      Reach-IsBounded (begin-IsBounded config g b c) r,
      Reach-fixed r,
      begin-max config g b c,
    )
