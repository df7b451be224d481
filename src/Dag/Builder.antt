-- ===== src/Dag/Builder.antt =====
-- server/src/dag/dag_builder.h and dag_builder.cpp: collecting task descriptions, building the graph
-- and validating it. Error texts are the constructors of `ValidateError`.
pub mod Links
pub mod Built
pub mod Keyed
use task_hub.Prelude.{
  ℕ, zero, suc, ◌+◌, Text, List, [], ◌∷◌, ◌++◌, ℤ, pos, ◌+ℤ◌, ◌-ℤ◌, eqb_ℤ, Option, none, some, find,
  put, Text-Eq, if◌then◌else◌, is_empty, not, ◌&&◌, ◌||◌, ◌=?◌, Bool, false,
}
use task_hub.Runner.Task.{TaskId, TaskConfig}
use task_hub.Dag.Types.{add_dependency, add_downstream, set_runner_config}
use task_hub.Dag.Graph.{DagGraph, make_key, ensure_node, update_node, recompute_indegree}

pub record DagTaskSpec : Type 0 where
  pub id : TaskId
  pub deps : List TaskId
  pub runner_cfg : TaskConfig

pub data ValidateError : Type 0 where
  no_error : ValidateError
  missing_dependency : Text → ValidateError
  cycle_detected : ValidateError

pub record DagValidateResult : Type 0 where
  pub ok : Bool
  pub error_message : ValidateError
  pub cycle_nodes : List TaskId

-- The builder is the list of its descriptions.
abbrev pub DagBuilder : Type 0
DagBuilder = List DagTaskSpec

unfoldable pub add_task : DagTaskSpec → DagBuilder → DagBuilder
add_task spec b = b ++ spec ∷ []

-- The first loop of `build`: a node for each description, with its configuration.
unfoldable pub place_nodes : List DagTaskSpec → DagGraph → DagGraph
place_nodes [] g = g
place_nodes (s ∷ ss) g =
    place_nodes ss
      (update_node (make_key s.id) (set_runner_config s.runner_cfg) (ensure_node s.id g))

-- The inner loop over `spec.deps`: the two ends of each edge learn of one another.
unfoldable pub link_deps : TaskId → List TaskId → DagGraph → DagGraph
link_deps id [] g = g
link_deps id (d ∷ ds) g = link_deps id ds (
    update_node (make_key d) (add_downstream id)
      (ensure_node d (update_node (make_key id) (add_dependency d) g)))

unfoldable pub link_nodes : List DagTaskSpec → DagGraph → DagGraph
link_nodes [] g = g
link_nodes (s ∷ ss) g = link_nodes ss (link_deps s.id s.deps (ensure_node s.id g))

unfoldable pub build : DagBuilder → DagGraph
build specs = recompute_indegree (link_nodes specs (place_nodes specs []))

-- `unordered_set<string>::insert`.
unfoldable pub contains : Text → List Text → Bool
contains x [] = false
contains x (y ∷ ys) = (y =? x) || contains x ys

unfoldable pub insert : Text → List Text → List Text
insert x ys = if contains x ys then ys else (ys ++ x ∷ [])

unfoldable pub collect_ids : List DagTaskSpec → List Text → List Text
collect_ids [] ids = ids
collect_ids (s ∷ ss) ids = collect_ids ss (insert s.id.value ids)

-- Step 1: the first dependency, in order, that no description names. An empty one is passed over.
unfoldable pub missing_in : List TaskId → List Text → Option Text
missing_in [] ids = none
missing_in (d ∷ ds) ids =
    if not (is_empty d.value) && not (contains d.value ids) then some d.value else missing_in ds ids

unfoldable pub first_missing : List DagTaskSpec → List Text → Option Text
first_missing [] ids = none
first_missing (s ∷ ss) ids = elim (missing_in s.deps ids) [
  | some d ↦ some d
  | none ↦ first_missing ss ids
]

-- Step 2: the local tables. `operator[]` makes a missing entry 0, or the empty list.
abbrev pub Indegree : Type 0
Indegree = List (Text × ℤ)

abbrev pub Edges : Type 0
Edges = List (Text × List Text)

unfoldable pub degree : Text → Indegree → ℤ
degree x m = elim (find x m) [ none ↦ pos 0 | some v ↦ v ]

unfoldable pub edges_of : Text → Edges → List Text
edges_of x m = elim (find x m) [ none ↦ [] | some v ↦ v ]

unfoldable pub zero_indegree : List DagTaskSpec → Indegree → Indegree
zero_indegree [] m = m
zero_indegree (s ∷ ss) m = zero_indegree ss (put s.id.value (pos 0) m)

unfoldable pub add_edges : Text → List TaskId → Edges × Indegree → Edges × Indegree
add_edges x [] t = t
add_edges x (d ∷ ds) (es, m) =
    add_edges x ds (put d.value (edges_of d.value es ++ x ∷ []) es, put x (degree x m +ℤ pos 1) m)

unfoldable pub add_all_edges : List DagTaskSpec → Edges × Indegree → Edges × Indegree
add_all_edges [] t = t
add_all_edges (s ∷ ss) t = add_all_edges ss (add_edges s.id.value s.deps t)

unfoldable pub sources : Indegree → List Text
sources [] = []
sources ((x, deg) ∷ m) = let rest = sources m in if eqb_ℤ deg (pos 0) then x ∷ rest else rest

-- The loop over `edges[id]`: `if (--indegree[nxt] == 0) q.push(nxt)`.
unfoldable pub relax : List Text → Indegree × List Text → Indegree × List Text
relax [] t = t
relax (x ∷ xs) (m, q) =
    let v = degree x m -ℤ pos 1 in relax xs (put x v m, if eqb_ℤ v (pos 0) then q ++ x ∷ [] else q)

-- `while (!q.empty())`; the result is `visitedCount`. The fuel bounds the rounds.
unfoldable pub kahn : ℕ → Edges → Indegree → List Text → ℕ → ℕ
kahn zero es m q visited_count = visited_count
kahn (suc fuel) es m [] visited_count = visited_count
kahn (suc fuel) es m (x ∷ q) visited_count =
    kahn fuel es (relax (edges_of x es) (m, q)).0 (relax (edges_of x es) (m, q)).1
      (visited_count + 1)
