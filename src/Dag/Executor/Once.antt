-- ===== src/Dag/Executor/Once.antt =====
-- server/src/dag/dag_executor.cpp: no node is started twice.
use task_hub.Prelude.{
  Text-Eq, text_eq_iff, ℕ, Text, [], ◌∷◌, ◌++◌, ◌≡◌, refl, arith, Bool, false, ◌≤◌, find, some,
  Option-cases, ◌+◌, if◌then◌else◌, inl, eqb_ℤ, inr, pos,
}
use task_hub.Runner.Task.{TaskId, TaskStatus}
use task_hub.Dag.Types.{DagNode, DagConfig, set_status}
use task_hub.Dag.Graph.{DagGraph, get_node, make_key, find-update_node}
use task_hub.Dag.RunContext.{Run, new_run, emit, emit_if, set_node_status, increment_running}
use task_hub.Dag.Executor.{
  Step, poll, call_back, Reach, here, next, begin, consider, submit_node_async, start_node,
  init_ready_queue, is_settled, effective_parallel, push_ready,
}
use task_hub.Dag.Executor.Starts.{starts, pending_at, is_pending, on_node_finished-StartsNothing}

module _ (k : Text) where
  abbrev budget : Run → ℕ
  budget s = starts k s.trace + pending_at k s.graph

  -- The start of a pending node uses up its budget.
  start_node-budget :
      (id : TaskId) (n : DagNode) (s : Run)
      → find (make_key id) s.graph ≡ some n
      → is_settled n.status ≡ false
      → budget (start_node id s) ≤ budget s
  unfolding start_node emit emit_if set_node_status increment_running starts pending_at is_pending
      set_status
  start_node-budget id n s e h = ground (
    arith,
    find-update_node (make_key id) k (set_status TaskStatus.running) s.graph e,
    text_eq_iff (make_key id) k,
  )

  consider-budget :
      (b : Bool) (id : TaskId) (s : Run) → budget (consider submit_node_async b id s) ≤ budget s
  unfolding consider submit_node_async get_node
  consider-budget b id s = elim (Option-cases (find (make_key id) s.graph)) [
    | inl e ↦ ground (arith, e)
    | inr (n, e) ↦ ground (arith, e, start_node-budget id n s e)
  ]

  Step-budget : {s t : Run} → Step s t → budget t ≤ budget s
  Step-budget {s} (poll b id rest stale free e q) =
      ground (arith, q, consider-budget b id (record s { ready_queue = rest }))
  Step-budget {s} (call_back before id after r e q) =
      ground
        (arith, q, on_node_finished-StartsNothing k id r (record s { in_flight = before ++ after }))

  Reach-budget : {s t : Run} → Reach s t → budget t ≤ budget s
  Reach-budget here = omega arith
  Reach-budget (next r st) = omega (arith, Reach-budget r, Step-budget st)

  init_ready_queue-budget :
      (g : DagGraph) (s : Run)
      → (starts k (init_ready_queue g s).trace ≡ starts k s.trace)
        × ((init_ready_queue g s).graph ≡ s.graph)
  unfolding init_ready_queue push_ready emit starts
  init_ready_queue-budget [] s = (refl, refl)
  init_ready_queue-budget ((j, n) ∷ g) s =
      ground (
        arith,
        init_ready_queue-budget g (if eqb_ℤ n.indegree (pos 0) then push_ready n.id s else s),
      )

  begin-budget :
      (config : DagConfig) (g : DagGraph) (b c : Bool) → budget (begin (new_run config g b c)) ≤ 1
  unfolding begin new_run starts pending_at
  begin-budget config g b c =
      let s = new_run config g b c in
      ground (
        arith,
        init_ready_queue-budget g
            (record s { max_parallel = effective_parallel config.max_parallel }),
      )

-- In every run, whatever the graph and the interleaving, the node of a key is started at most once.
pub started_at_most_once :
    (config : DagConfig) (g : DagGraph) (b c : Bool) (k : Text) {t : Run}
    → Reach (begin (new_run config g b c)) t
    → starts k t.trace ≤ 1
started_at_most_once config g b c k r = omega (arith, Reach-budget k r, begin-budget k config g b c)
