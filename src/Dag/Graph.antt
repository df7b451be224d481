-- ===== src/Dag/Graph.antt =====
-- server/src/dag/dag_graph.h and dag_graph.cpp: the nodes of a graph under their composite keys.
-- `ensureNode` hands out a pointer into the map; here its callers update the entry by its key.
use task_hub.Prelude.{
  inl, inr, Option-cases, Text, List, [], ◌∷◌, ◌++◌, ℤ, pos, length, Option, none, some, find, put,
  emplace, Text-Eq, ◌≡◌, if◌then◌else◌, is_empty, arith, ◌=?◌, find-put, =?→eq, =?_refl,
}
use task_hub.Runner.Task.{TaskId}
use task_hub.Dag.Types.{DagNode, new_node, set_indegree}

abbrev pub DagGraph : Type 0
DagGraph = List (Text × DagNode)

-- `run_id:value`, or the value alone where there is no run.
unfoldable pub make_key : TaskId → Text
make_key id = if is_empty id.run_id then id.value else (id.run_id ++ b':' ∷ id.value)

unfoldable pub get_node : TaskId → DagGraph → Option DagNode
get_node id g = find (make_key id) g

unfoldable pub ensure_node : TaskId → DagGraph → DagGraph
ensure_node id g = emplace (make_key id) (new_node id) g

-- A write through the pointer that `getNode` or `ensureNode` returned.
unfoldable pub update_node : Text → (DagNode → DagNode) → DagGraph → DagGraph
update_node k f g = elim (find k g) [ none ↦ g | some n ↦ put k (f n) g ]

unfoldable pub recompute_indegree : DagGraph → DagGraph
recompute_indegree [] = []
recompute_indegree ((k, n) ∷ g) =
    (k, set_indegree (pos (length n.dependencies)) n) ∷ recompute_indegree g

-- What a key's node holds, if there is one.
unfoldable pub deps_at : Text → DagGraph → List TaskId
deps_at k g = elim (find k g) [ none ↦ [] | some n ↦ n.dependencies ]

unfoldable pub downstream_at : Text → DagGraph → List TaskId
downstream_at k g = elim (find k g) [ none ↦ [] | some n ↦ n.downstream ]

unfoldable pub indegree_at : Text → DagGraph → Option ℤ
indegree_at k g = elim (find k g) [ none ↦ none | some n ↦ some n.indegree ]

pub find-update_node :
    (k j : Text) (f : DagNode → DagNode) (g : DagGraph) {n : DagNode}
    → find k g ≡ some n
    → find j (update_node k f g) ≡ (if k =? j then some (f n) else find j g)
unfolding update_node
find-update_node k j f g {n} e = rw (e, update_node) (find-put k j (f n) g)

pub find-ensure_node :
    (id : TaskId) (j : Text) (g : DagGraph)
    → find j (ensure_node id g) ≡ elim (find j g) [
      | none ↦ (if make_key id =? j then some (new_node id) else none)
      | some n ↦ some n
    ]
unfolding ensure_node emplace
find-ensure_node id j g =
    ground (arith, find-put (make_key id) j (new_node id) g, =?→eq (make_key id) j)

-- After `ensure_node` the node is there.
pub ensure_node-find :
    (id : TaskId) (g : DagGraph) → (n : DagNode) × (find (make_key id) (ensure_node id g) ≡ some n)
ensure_node-find id g = elim (Option-cases (find (make_key id) g)) [
  | inl e ↦
      (new_node id, ground (arith, find-ensure_node id (make_key id) g, =?_refl (make_key id)))
  | inr (n, e) ↦ (n, ground (arith, find-ensure_node id (make_key id) g))
]
