-- ===== src/Dag/Builder/Keyed.antt =====
-- The entries of a built graph: each under the key of its own node, and no key twice.
use task_hub.Prelude.{
  Text-Eq, text_eq_iff, Text, List, [], ◌∷◌, ◌≡◌, refl, ◌∙◌, arith, find, put, none, some, Memᴰ,
  =?_refl, find-put, Option-cases, ap, emplace, inl, inr,
}
use task_hub.Runner.Task.{TaskId}
use task_hub.Dag.Types.{
  DagNode, new_node, add_dependency, add_downstream, set_runner_config, set_indegree,
}
use task_hub.Dag.Graph.{DagGraph, make_key, ensure_node, update_node, recompute_indegree}
use task_hub.Dag.Builder.{DagTaskSpec, DagBuilder, place_nodes, link_deps, link_nodes, build}
use task_hub.Dag.Builder.Built.{find-recompute}

abbrev pub IsKeyed : DagGraph → Type 0
IsKeyed [] = Unit {0}
IsKeyed ((k, n) ∷ g) = (make_key n.id ≡ k) × (find k g ≡ none) × IsKeyed g

pub mem-find :
    (g : DagGraph) (k : Text) (n : DagNode) → IsKeyed g → Memᴰ (k, n) g → find k g ≡ some n
unfolding find
mem-find [] k n w m = elim m [ ]
mem-find ((j, x) ∷ g) k n w (Memᴰ.head e) =
    ground
      (arith, =?_refl k, ap (λ (t : Text × DagNode). t.0) e, ap (λ (t : Text × DagNode). t.1) e)
mem-find ((j, x) ∷ g) k n w (Memᴰ.tail m) = ground (arith, mem-find g k n w.2 m, text_eq_iff j k)

put-IsKeyed :
    (j : Text) (x : DagNode) (g : DagGraph) → make_key x.id ≡ j → IsKeyed g → IsKeyed (put j x g)
unfolding put
put-IsKeyed j x [] e w = (e, unfold find in refl, tt)
put-IsKeyed j x ((k, n) ∷ g) e w =
    ground (arith, put-IsKeyed j x g e w.2, find-put j k x g, text_eq_iff k j, text_eq_iff j k)

ensure_node-IsKeyed : (id : TaskId) (g : DagGraph) → IsKeyed g → IsKeyed (ensure_node id g)
unfolding ensure_node emplace new_node
ensure_node-IsKeyed id g w = elim (Option-cases (find (make_key id) g)) [
  | inl e ↦ rw (e, emplace) (put-IsKeyed (make_key id) (new_node id) g refl w)
  | inr (n, e) ↦ rw (e, emplace) w
]

pub find-keyed :
    (g : DagGraph) (k : Text) (n : DagNode) → IsKeyed g → find k g ≡ some n → make_key n.id ≡ k
unfolding find
find-keyed [] k n w e = cc
find-keyed ((j, x) ∷ g) k n w e = ground (arith, find-keyed g k n w.2, text_eq_iff j k)

-- A write that keeps the node's id.
update_node-IsKeyed :
    (k : Text) (f : DagNode → DagNode) (g : DagGraph)
    → ((n : DagNode) → (f n).id ≡ n.id)
    → IsKeyed g
    → IsKeyed (update_node k f g)
unfolding update_node
update_node-IsKeyed k f g h w = elim (Option-cases (find k g)) [
  | inl e ↦ rw (e, update_node) w
  | inr (n, e) ↦
      rw (e, update_node) (put-IsKeyed k (f n) g (ap make_key (h n) ∙ find-keyed g k n w e) w)
]

place_nodes-IsKeyed :
    (ss : List DagTaskSpec) (g : DagGraph) → IsKeyed g → IsKeyed (place_nodes ss g)
unfolding place_nodes set_runner_config
place_nodes-IsKeyed [] g w = w
place_nodes-IsKeyed (s ∷ ss) g w = place_nodes-IsKeyed ss _ (
    update_node-IsKeyed (make_key s.id) (set_runner_config s.runner_cfg) _ (λ n. refl)
      (ensure_node-IsKeyed s.id g w))

link_deps-IsKeyed :
    (id : TaskId) (ds : List TaskId) (g : DagGraph) → IsKeyed g → IsKeyed (link_deps id ds g)
unfolding link_deps add_dependency add_downstream
link_deps-IsKeyed id [] g w = w
link_deps-IsKeyed id (d ∷ ds) g w = link_deps-IsKeyed id ds _ (
    update_node-IsKeyed (make_key d) (add_downstream id) _ (λ n. refl)
      (ensure_node-IsKeyed d _
        (update_node-IsKeyed (make_key id) (add_dependency d) g (λ n. refl) w)))

link_nodes-IsKeyed : (ss : List DagTaskSpec) (g : DagGraph) → IsKeyed g → IsKeyed (link_nodes ss g)
unfolding link_nodes
link_nodes-IsKeyed [] g w = w
link_nodes-IsKeyed (s ∷ ss) g w =
    link_nodes-IsKeyed ss _ (link_deps-IsKeyed s.id s.deps _ (ensure_node-IsKeyed s.id g w))

recompute-IsKeyed : (g : DagGraph) → IsKeyed g → IsKeyed (recompute_indegree g)
unfolding recompute_indegree set_indegree
recompute-IsKeyed [] w = tt
recompute-IsKeyed ((k, n) ∷ g) w =
    (w.0, ground (arith, find-recompute g k), recompute-IsKeyed g w.2)

pub build-IsKeyed : (specs : DagBuilder) → IsKeyed (build specs)
unfolding build
build-IsKeyed specs =
    recompute-IsKeyed _ (link_nodes-IsKeyed specs _ (place_nodes-IsKeyed specs [] tt))
