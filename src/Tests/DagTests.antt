-- ===== src/Tests/DagTests.antt =====
-- Small graphs of tasks.
use task_hub.Dag.Builder.Built.{build_edges}
use task_hub.Dag.Executor.Parallel.{reachable_parallel}
use task_hub.Dag.Executor.Once.{started_at_most_once}
use task_hub.Dag.Types.{DagConfig, fail_fast, new_node, DagNode, set_status}
use task_hub.Dag.RunContext.{
  Run, new_run, emit, emit_if, set_node_status, increment_running, mark_failed, decrement_running,
  set_task_results,
}
use task_hub.Dag.Graph.{DagGraph, make_key, deps_at, downstream_at, update_node, get_node}
use task_hub.Dag.Executor.Starts.{starts}
use task_hub.Dag.Executor.{
  Reach, Step, begin, call_back, consider, next, on_node_finished, poll, effective_parallel, here,
  submit_node_async, init_ready_queue, push_ready, start_node, on_failure, on_success,
}
use task_hub.Prelude.{
  text, Text, List, [], ◌∷◌, ◌≡◌, refl, true, text_eq, put, erase, find, ◌+ℤ◌, ◌-ℤ◌, pos, length,
  ◌≤◌, arith, ◌≤ℤ◌, some, Text-Eq, false,
}
use task_hub.Runner.Task.{
  TaskId, task_id, default_config, TaskResult, default_result, TaskStatus, task_id_eq,
}
use task_hub.Dag.Builder.{
  DagTaskSpec, first_missing, missing_in, contains, collect_ids, insert, kahn, sources,
  add_all_edges, add_edges, zero_indegree, degree, edges_of, relax, build,
}
use task_hub.Dag.Validate.{
  validate, visited_count, kahn_fuel, count_deps, cycle_of, dfs, enter, leave, number_at, pop_back,
  report_cycle, search_cycle, visit_edges,
}
use task_hub.Dag.Validate.Correct.{validate-ok_iff, IsTopologicalOrder}

abbrev pub named : Text → TaskId
named v = task_id v []

abbrev pub spec : Text → List TaskId → DagTaskSpec
spec v deps = record { id = named v; deps = deps; runner_cfg = default_config }

abbrev diamond : List DagTaskSpec
diamond =
    spec (text "d") (named (text "b") ∷ named (text "c") ∷ [])
    ∷ spec (text "b") (named (text "a") ∷ [])
    ∷ spec (text "c") (named (text "a") ∷ [])
    ∷ spec (text "a") []
    ∷ []

abbrev loop : List DagTaskSpec
loop =
    spec (text "a") []
    ∷ spec (text "b") (named (text "a") ∷ named (text "d") ∷ [])
    ∷ spec (text "c") (named (text "b") ∷ [])
    ∷ spec (text "d") (named (text "c") ∷ [])
    ∷ []

-- What a run of `validate` computes through.
validating : Unit {0}
unfolding validate first_missing missing_in contains collect_ids insert text_eq visited_count kahn
    kahn_fuel count_deps sources add_all_edges add_edges put zero_indegree ◌+ℤ◌ degree edges_of
    relax cycle_of dfs enter leave number_at pop_back report_cycle search_cycle visit_edges ◌-ℤ◌
    erase find
validating = tt

diamond_accepted : (validate diamond).ok ≡ true
unfolding validating
diamond_accepted = refl

loop_cycle :
    (validate loop).cycle_nodes ≡ named (text "b") ∷ named (text "c") ∷ named (text "d") ∷ []
unfolding validating
loop_cycle = refl

validate-ok_iff_example : (T : List Text) × IsTopologicalOrder diamond T
validate-ok_iff_example = (validate-ok_iff diamond).0 diamond_accepted

-- Two independent tasks, one at a time.
abbrev pub serial : DagConfig
serial = record { dag_id = []; name = []; fail_policy = fail_fast; max_parallel = 1 }

abbrev pair_graph : DagGraph
pair_graph = (text "a", new_node (named (text "a"))) ∷ (text "b", new_node (named (text "b"))) ∷ []

abbrev begun : Run
begun = begin (new_run serial pair_graph true true)

unfoldable pub running_dag : Unit {0}
unfolding begin new_run effective_parallel init_ready_queue push_ready emit emit_if new_node
    consider submit_node_async start_node set_node_status increment_running update_node get_node
    make_key find put text_eq ◌+ℤ◌ ◌-ℤ◌ set_status on_node_finished on_failure on_success
    mark_failed decrement_running set_task_results starts task_id_eq
running_dag = tt

abbrev first_started : Run
first_started =
    consider submit_node_async false (named (text "a"))
      (record begun { ready_queue = named (text "b") ∷ [] })

first-Step : Step begun first_started
unfolding running_dag
first-Step =
    poll false (named (text "a")) (named (text "b") ∷ []) (λ e. ground arith) (omega arith) refl
      refl

abbrev broken : TaskResult
broken = record default_result { status = TaskStatus.failed }

abbrev first_failed : Run
first_failed = on_node_finished (named (text "a")) broken (record first_started { in_flight = [] })

second-Step : Step first_started first_failed
unfolding running_dag
second-Step = call_back [] (named (text "a")) [] broken refl refl

two_steps : Reach begun first_failed
two_steps = next (next here first-Step) second-Step

started_at_most_once_example : starts (text "a") first_failed.trace ≤ 1
started_at_most_once_example = started_at_most_once serial pair_graph true true (text "a") two_steps

reachable_parallel_example :
    (first_started.running ≡ pos (length first_started.in_flight))
    × (pos (length first_started.in_flight) ≤ℤ effective_parallel 1)
reachable_parallel_example = reachable_parallel serial pair_graph true true (next here first-Step)

build_edges_example :
    (deps_at (text "d") (build diamond) ≡ named (text "b") ∷ named (text "c") ∷ [])
    × (downstream_at (text "d") (build diamond) ≡ [])
    × ((n : DagNode)
        → find (text "d") (build diamond) ≡ some n
        → n.indegree ≡ pos (length n.dependencies))
unfolding make_key text_eq
build_edges_example = build_edges diamond (text "d")
