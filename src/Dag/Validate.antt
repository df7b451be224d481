-- ===== src/Dag/Validate.antt =====
-- server/src/dag/dag_builder.cpp: the search that names the nodes of a cycle, and `validate` whole.
pub mod Occurrences
pub mod Tables
pub mod Keys
pub mod Kahn
pub mod Pairs
pub mod Correct
use task_hub.Prelude.{
  ℕ, zero, suc, ◌+◌, Text, List, [], ◌∷◌, ◌++◌, map, length, drop, none, some, find, put, erase,
  Text-Eq, if◌then◌else◌, Bool, true, false, ◌==◌,
}
use task_hub.Runner.Task.{TaskId, task_id}
use task_hub.Dag.Builder.{
  DagBuilder, DagTaskSpec, DagValidateResult, no_error, missing_dependency, cycle_detected,
  collect_ids, first_missing, Edges, edges_of, zero_indegree, add_all_edges, sources, kahn,
}

-- The variables that `dfs` captures. A colour is 1 while a node is on the stack, then 2.
pub record DfsState : Type 0 where
  pub color : List (Text × ℕ)
  pub stack_pos : List (Text × ℕ)
  pub stack : List Text
  pub cycle_nodes : List TaskId

unfoldable pub number_at : Text → List (Text × ℕ) → ℕ
number_at x m = elim (find x m) [ none ↦ 0 | some v ↦ v ]

-- `stack.pop_back()`.
unfoldable pub pop_back : List Text → List Text
pop_back [] = []
pop_back (x ∷ []) = []
pop_back (x ∷ y ∷ ys) = x ∷ pop_back (y ∷ ys)

unfoldable pub enter : Text → DfsState → DfsState
enter node st = record st {
  color = put node 1 st.color;
  stack_pos = put node (length st.stack) st.stack_pos;
  stack = st.stack ++ node ∷ [];
}

unfoldable pub leave : Text → DfsState → DfsState
leave node st = record st {
  color = put node 2 st.color;
  stack_pos = erase node st.stack_pos;
  stack = pop_back st.stack;
}

unfoldable pub report_cycle : Text → DfsState → DfsState
report_cycle nxt st = record st {
  cycle_nodes =
      st.cycle_nodes ++ map (λ v. task_id v []) (drop (number_at nxt st.stack_pos) st.stack);
}

-- The loop over the edges of a node; `go` is the recursive call of `dfs`.
unfoldable pub visit_edges :
    (Text → DfsState → Bool × DfsState) → List Text → DfsState → Bool × DfsState
visit_edges go [] st = (false, st)
visit_edges go (nxt ∷ rest) st =
    let c = number_at nxt st.color in
    let skipped = visit_edges go rest st in
    let entered =
      let (found, st') = go nxt st in
      let further = visit_edges go rest st' in if found then (true, st') else further in
    if c == 0 then entered else if c == 1 then (true, report_cycle nxt st) else skipped

unfoldable pub dfs : ℕ → Edges → Text → DfsState → Bool × DfsState
dfs zero es node st = (false, st)
dfs (suc fuel) es node st =
    let (found, st') = visit_edges (dfs fuel es) (edges_of node es) (enter node st) in
    if found then (true, st') else (false, leave node st')

-- The loop over all ids, which stops at the first search that finds a cycle.
unfoldable pub search_cycle : ℕ → Edges → List Text → DfsState → DfsState
search_cycle fuel es [] st = st
search_cycle fuel es (x ∷ xs) st = elim (find x st.color) [
  | some c ↦ search_cycle fuel es xs st
  | none ↦
      let (found, st') = dfs fuel es x st in
      let further = search_cycle fuel es xs st' in if found then st' else further
]

unfoldable pub count_deps : List DagTaskSpec → ℕ
count_deps [] = 0
count_deps (s ∷ ss) = length s.deps + count_deps ss

-- Each round of the loop takes a node that was a source or that an edge made one.
unfoldable pub kahn_fuel : List DagTaskSpec → ℕ
kahn_fuel specs = count_deps specs + length specs + 1

unfoldable pub visited_count : List DagTaskSpec → ℕ
visited_count specs =
    let (es, m) = add_all_edges specs ([], zero_indegree specs []) in
    kahn (kahn_fuel specs) es m (sources m) 0

unfoldable pub cycle_of : List DagTaskSpec → List Text → List TaskId
cycle_of specs ids =
    let (es, m) = add_all_edges specs ([], zero_indegree specs []) in
    (search_cycle (length ids + 1) es ids
      (record { color = []; stack_pos = []; stack = []; cycle_nodes = [] })).cycle_nodes

unfoldable pub validate : DagBuilder → DagValidateResult
validate specs =
    let ids = collect_ids specs [] in
    elim (first_missing specs ids) [
      | some d ↦ record { ok = false; error_message = missing_dependency d; cycle_nodes = [] }
      | none ↦
          if visited_count specs == length ids
          then record { ok = true; error_message = no_error; cycle_nodes = [] }
          else record {
            ok = false;
            error_message = cycle_detected;
            cycle_nodes = cycle_of specs ids;
          }
    ]
