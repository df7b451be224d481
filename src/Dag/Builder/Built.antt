-- ===== src/Dag/Builder/Built.antt =====
-- server/src/dag/dag_builder.cpp: what `build` makes of the descriptions, for every key.
use task_hub.Prelude.{
  Text-Eq, text_eq_iff, Text, List, [], ◌∷◌, ◌++◌, some, find, ◌≡◌, if◌then◌else◌, arith, ◌=?◌, sym,
  ◌∙◌, ap, refl, length, pos, none,
}
use mathlib.Core.List.{append-nil, append_assoc}
use task_hub.Runner.Task.{TaskId}
use task_hub.Dag.Types.{DagNode, set_indegree, set_runner_config}
use task_hub.Dag.Graph.{
  DagGraph, make_key, ensure_node, update_node, deps_at, downstream_at, find-update_node,
  ensure_node-find, recompute_indegree,
}
use task_hub.Dag.Builder.{DagTaskSpec, link_deps, build, link_nodes, place_nodes, DagBuilder}
use task_hub.Dag.Builder.Links.{
  deps_of, dependents_in, dependents_of, deps_at-ensure, downstream_at-ensure, link_deps-deps_at,
  link_deps-downstream_at, IsPresent,
}

link_nodes-deps_at :
    (ss : List DagTaskSpec) (g : DagGraph) (j : Text)
    → deps_at j (link_nodes ss g) ≡ deps_at j g ++ deps_of j ss
unfolding link_nodes
link_nodes-deps_at [] g j = sym (append-nil (deps_at j g))
link_nodes-deps_at (s ∷ ss) g j =
    link_nodes-deps_at ss (link_deps s.id s.deps (ensure_node s.id g)) j
    ∙ ap (λ (l : List TaskId). l ++ deps_of j ss)
        (link_deps-deps_at s.id s.deps (ensure_node s.id g) j (ensure_node-find s.id g)
          ∙ ap (λ (l : List TaskId). l ++ (if make_key s.id =? j then s.deps else []))
              (deps_at-ensure s.id j g))
    ∙ append_assoc (deps_at j g) _ _

link_nodes-downstream_at :
    (ss : List DagTaskSpec) (g : DagGraph) (j : Text)
    → downstream_at j (link_nodes ss g) ≡ downstream_at j g ++ dependents_of j ss
unfolding link_nodes
link_nodes-downstream_at [] g j = sym (append-nil (downstream_at j g))
link_nodes-downstream_at (s ∷ ss) g j =
    link_nodes-downstream_at ss (link_deps s.id s.deps (ensure_node s.id g)) j
    ∙ ap (λ (l : List TaskId). l ++ dependents_of j ss)
        (link_deps-downstream_at s.id s.deps (ensure_node s.id g) j (ensure_node-find s.id g)
          ∙ ap (λ (l : List TaskId). l ++ dependents_in j s.id s.deps)
              (downstream_at-ensure s.id j g))
    ∙ append_assoc (downstream_at j g) _ _

no_edges : (k : Text) → (deps_at k [] ≡ []) × (downstream_at k [] ≡ [])
unfolding deps_at downstream_at find
no_edges k = (refl, refl)

-- The first loop leaves no edges.
config-deps_at :
    (k j : Text) (g : DagGraph) (s : DagTaskSpec)
    → IsPresent k g
    → (deps_at j (update_node k (set_runner_config s.runner_cfg) g) ≡ deps_at j g)
      × (downstream_at j (update_node k (set_runner_config s.runner_cfg) g) ≡ downstream_at j g)
unfolding deps_at downstream_at set_runner_config
config-deps_at k j g s (n, e) =
    ground (arith, find-update_node k j (set_runner_config s.runner_cfg) g e, text_eq_iff k j)

place_nodes-edges :
    (ss : List DagTaskSpec) (g : DagGraph) (j : Text)
    → (deps_at j (place_nodes ss g) ≡ deps_at j g)
      × (downstream_at j (place_nodes ss g) ≡ downstream_at j g)
unfolding place_nodes
place_nodes-edges [] g j = (refl, refl)
place_nodes-edges (s ∷ ss) g j =
    let (p, q) =
      place_nodes-edges ss
        (update_node (make_key s.id) (set_runner_config s.runner_cfg) (ensure_node s.id g)) j in
    let (p', q') =
      config-deps_at (make_key s.id) j (ensure_node s.id g) s (ensure_node-find s.id g) in
    (p ∙ p' ∙ deps_at-ensure s.id j g, q ∙ q' ∙ downstream_at-ensure s.id j g)

pub find-recompute :
    (g : DagGraph) (j : Text)
    → find j (recompute_indegree g) ≡ elim (find j g) [
      | none ↦ none
      | some n ↦ some (set_indegree (pos (length n.dependencies)) n)
    ]
unfolding recompute_indegree find
find-recompute [] j = refl
find-recompute ((k, n) ∷ g) j = ground (arith, find-recompute g j)

recompute-edges :
    (g : DagGraph) (j : Text)
    → (deps_at j (recompute_indegree g) ≡ deps_at j g)
      × (downstream_at j (recompute_indegree g) ≡ downstream_at j g)
unfolding deps_at downstream_at set_indegree
recompute-edges g j = ground (arith, find-recompute g j)

-- In the built graph, for every key: the dependencies of a node are those given for its key, in the
-- order given; its dependents are the ids of the descriptions that depend on its key, one for each
-- time they do; and a node's indegree is the number of its dependencies.
pub build_edges :
    (specs : DagBuilder) (k : Text)
    → (deps_at k (build specs) ≡ deps_of k specs)
      × (downstream_at k (build specs) ≡ dependents_of k specs)
      × ((n : DagNode) → find k (build specs) ≡ some n → n.indegree ≡ pos (length n.dependencies))
unfolding build set_indegree
build_edges specs k =
    let placed = place_nodes specs [] in
    let linked = link_nodes specs placed in
    let (p, q) = recompute-edges linked k in
    let (p', q') = place_nodes-edges specs [] k in
    (
      p
          ∙ link_nodes-deps_at specs placed k
          ∙ ap (λ (l : List TaskId). l ++ deps_of k specs) (p' ∙ empty.0),
      q
          ∙ link_nodes-downstream_at specs placed k
          ∙ ap (λ (l : List TaskId). l ++ dependents_of k specs) (q' ∙ empty.1),
      λ n e. ground (arith, find-recompute linked k),
    )
  where
    empty : (deps_at k [] ≡ []) × (downstream_at k [] ≡ [])
    empty = no_edges k
