-- ===== src/Tests/OrderTests.antt =====
-- A run of two tasks, the second after the first.
use task_hub.Dag.Executor.Starts.{starts}
use task_hub.Dag.Types.{
  add_dependency, add_downstream, set_indegree, set_runner_config, decrement_indegree,
}
use task_hub.Dag.Executor.Order.{starts_after_deps}
use task_hub.Runner.Task.{default_result, TaskStatus}
use task_hub.Dag.Executor.Quiet.{successes}
use task_hub.Dag.Executor.{
  begin, consider, on_node_finished, submit_node_async, release_children, release_child, Reach,
  next, here, poll, call_back, Step,
}
use task_hub.Dag.RunContext.{Run, new_run}
use task_hub.Dag.Graph.{make_key, recompute_indegree, ensure_node}
use task_hub.Dag.Builder.{build, DagTaskSpec, place_nodes, link_nodes, link_deps}
use mathlib.Core.List.Memᴰ
use task_hub.Tests.DagTests.{named, spec, serial, running_dag}
use task_hub.Prelude.{
  text, [], ◌∷◌, ◌≡◌, refl, arith, ◌≤◌, List, text_eq, true, emplace, Text-Eq, false,
}

abbrev chain : List DagTaskSpec
chain = spec (text "b") (named (text "a") ∷ []) ∷ spec (text "a") [] ∷ []

abbrev chain_begun : Run
chain_begun = begin (new_run serial (build chain) true true)

abbrev a_started : Run
a_started =
    consider submit_node_async false (named (text "a")) (record chain_begun { ready_queue = [] })

abbrev a_done : Run
a_done =
    on_node_finished (named (text "a")) (record default_result { status = TaskStatus.success })
      (record a_started { in_flight = [] })

abbrev b_started : Run
b_started = consider submit_node_async false (named (text "b")) (record a_done { ready_queue = [] })

building : Unit {0}
unfolding build place_nodes link_nodes link_deps recompute_indegree ensure_node emplace
    add_dependency add_downstream set_indegree set_runner_config release_children release_child
    decrement_indegree
building = tt

a-Step : Step chain_begun a_started
unfolding running_dag building
a-Step = poll false (named (text "a")) [] (λ e. ground arith) (omega arith) refl refl

done-Step : Step a_started a_done
unfolding running_dag building
done-Step =
    call_back [] (named (text "a")) [] (record default_result { status = TaskStatus.success }) refl
      refl

b-Step : Step a_done b_started
unfolding running_dag building
b-Step = poll false (named (text "b")) [] (λ e. ground arith) (omega arith) refl refl

chain_run : Reach chain_begun b_started
chain_run = next (next (next here a-Step) done-Step) b-Step

b_was_started : 1 ≤ starts (text "b") b_started.trace
unfolding running_dag building
b_was_started = omega arith

starts_after_deps_example : successes (make_key (named (text "a"))) b_started.trace ≡ 1
unfolding make_key text_eq
starts_after_deps_example =
    starts_after_deps chain serial true true chain_run (text "b") b_was_started (named (text "a"))
      (Memᴰ.head refl)
