-- ===== src/Dag/Builder/Links.antt =====
-- server/src/dag/dag_builder.cpp: what one description's edges add to the graph.
use task_hub.Prelude.{
  Text-Eq, text_eq_iff, Text, List, [], ◌∷◌, ◌++◌, some, find, ◌≡◌, if◌then◌else◌, arith, ◌=?◌,
  Bool-cases, inl, sym, ◌∙◌, ap, inr, refl,
}
use mathlib.Core.List.{append-nil, append_assoc}
use task_hub.Runner.Task.{TaskId}
use task_hub.Dag.Types.{DagNode, new_node, add_dependency, add_downstream}
use task_hub.Dag.Graph.{
  DagGraph, make_key, ensure_node, update_node, deps_at, downstream_at, find-update_node,
  find-ensure_node, ensure_node-find,
}
use task_hub.Dag.Builder.{DagTaskSpec, link_deps}

-- All dependencies given for a key, in order, over all descriptions with that key.
abbrev pub deps_of : Text → List DagTaskSpec → List TaskId
deps_of k [] = []
deps_of k (s ∷ ss) = (if make_key s.id =? k then s.deps else []) ++ deps_of k ss

-- One entry for each of the dependencies that has the key.
abbrev pub dependents_in : Text → TaskId → List TaskId → List TaskId
dependents_in k id [] = []
dependents_in k id (d ∷ ds) = (if make_key d =? k then id ∷ [] else []) ++ dependents_in k id ds

abbrev pub dependents_of : Text → List DagTaskSpec → List TaskId
dependents_of k [] = []
dependents_of k (s ∷ ss) = dependents_in k s.id s.deps ++ dependents_of k ss

-- The graph after `ensureNode(id)`, and a write to a node that is there.
pub deps_at-ensure :
    (id : TaskId) (j : Text) (g : DagGraph) → deps_at j (ensure_node id g) ≡ deps_at j g
unfolding deps_at new_node
deps_at-ensure id j g = ground (arith, find-ensure_node id j g)

pub downstream_at-ensure :
    (id : TaskId) (j : Text) (g : DagGraph) → downstream_at j (ensure_node id g) ≡ downstream_at j g
unfolding downstream_at new_node
downstream_at-ensure id j g = ground (arith, find-ensure_node id j g)

module _ (k j : Text) (g : DagGraph) {n : DagNode} (e : find k g ≡ some n) where
  deps_at-add_dependency :
      (d : TaskId)
      → deps_at j (update_node k (add_dependency d) g)
        ≡ deps_at j g ++ (if k =? j then d ∷ [] else [])
  unfolding deps_at add_dependency
  deps_at-add_dependency d = ground (
    arith,
    find-update_node k j (add_dependency d) g e,
    text_eq_iff k j,
    append-nil (deps_at j g),
  )

  deps_at-add_downstream :
      (c : TaskId) → deps_at j (update_node k (add_downstream c) g) ≡ deps_at j g
  unfolding deps_at add_downstream
  deps_at-add_downstream c =
      ground (arith, find-update_node k j (add_downstream c) g e, text_eq_iff k j)

  downstream_at-add_dependency :
      (d : TaskId) → downstream_at j (update_node k (add_dependency d) g) ≡ downstream_at j g
  unfolding downstream_at add_dependency
  downstream_at-add_dependency d =
      ground (arith, find-update_node k j (add_dependency d) g e, text_eq_iff k j)

  downstream_at-add_downstream :
      (c : TaskId)
      → downstream_at j (update_node k (add_downstream c) g)
        ≡ downstream_at j g ++ (if k =? j then c ∷ [] else [])
  unfolding downstream_at add_downstream
  downstream_at-add_downstream c = ground (
    arith,
    find-update_node k j (add_downstream c) g e,
    text_eq_iff k j,
    append-nil (downstream_at j g),
  )

abbrev pub IsPresent : Text → DagGraph → Type 0
IsPresent k g = (n : DagNode) × (find k g ≡ some n)

IsPresent-ensure :
    (id : TaskId) (k : Text) (g : DagGraph) → IsPresent k g → IsPresent k (ensure_node id g)
IsPresent-ensure id k g (n, e) = (n, ground (arith, find-ensure_node id k g))

IsPresent-update :
    (k j : Text) (f : DagNode → DagNode) (g : DagGraph)
    → IsPresent k g
    → IsPresent j g
    → IsPresent j (update_node k f g)
IsPresent-update k j f g (n, e) (m, e') = elim (Bool-cases (k =? j)) [
  | inl q ↦ (f n, ground (arith, find-update_node k j f g e))
  | inr q ↦ (m, ground (arith, find-update_node k j f g e))
]

-- One round of the inner loop.
link_one : TaskId → TaskId → DagGraph → DagGraph
link_one id d g =
    update_node (make_key d) (add_downstream id)
      (ensure_node d (update_node (make_key id) (add_dependency d) g))

module _ (id d : TaskId) (g : DagGraph) (here : IsPresent (make_key id) g) where
  link_one-IsPresent : (j : Text) → IsPresent j g → IsPresent j (link_one id d g)
  unfolding link_one
  link_one-IsPresent j p =
      IsPresent-update (make_key d) j (add_downstream id) _ (ensure_node-find d _)
        (IsPresent-ensure d j _ (IsPresent-update (make_key id) j (add_dependency d) g here p))

  link_one-deps_at :
      (j : Text)
      → deps_at j (link_one id d g) ≡ deps_at j g ++ (if make_key id =? j then d ∷ [] else [])
  unfolding link_one
  link_one-deps_at j =
      let g' = update_node (make_key id) (add_dependency d) g in
      deps_at-add_downstream (make_key d) j (ensure_node d g') (ensure_node-find d g').1 id
      ∙ deps_at-ensure d j g'
      ∙ deps_at-add_dependency (make_key id) j g here.1 d

  link_one-downstream_at :
      (j : Text)
      → downstream_at j (link_one id d g)
        ≡ downstream_at j g ++ (if make_key d =? j then id ∷ [] else [])
  unfolding link_one
  link_one-downstream_at j =
      let g' = update_node (make_key id) (add_dependency d) g in
      downstream_at-add_downstream (make_key d) j (ensure_node d g') (ensure_node-find d g').1 id
      ∙ ap (λ (l : List TaskId). l ++ (if make_key d =? j then id ∷ [] else []))
          (downstream_at-ensure d j g' ∙ downstream_at-add_dependency (make_key id) j g here.1 d)

link_deps-cons :
    (id d : TaskId) (ds : List TaskId) (g : DagGraph)
    → link_deps id (d ∷ ds) g ≡ link_deps id ds (link_one id d g)
unfolding link_deps link_one
link_deps-cons id d ds g = refl

link_deps-nil : (id : TaskId) (g : DagGraph) → link_deps id [] g ≡ g
unfolding link_deps
link_deps-nil id g = refl

module _ (id : TaskId) where
  link_deps-IsPresent :
      (ds : List TaskId) (g : DagGraph) (j : Text)
      → IsPresent (make_key id) g
      → IsPresent j g
      → IsPresent j (link_deps id ds g)
  link_deps-IsPresent [] g j p q = rw (link_deps-nil id g) q
  link_deps-IsPresent (d ∷ ds) g j p q = rw (link_deps-cons id d ds g) (
      link_deps-IsPresent ds (link_one id d g) j (link_one-IsPresent id d g p (make_key id) p)
        (link_one-IsPresent id d g p j q))

  pub link_deps-deps_at :
      (ds : List TaskId) (g : DagGraph) (j : Text)
      → IsPresent (make_key id) g
      → deps_at j (link_deps id ds g) ≡ deps_at j g ++ (if make_key id =? j then ds else [])
  link_deps-deps_at [] g j p = ground (arith, link_deps-nil id g, append-nil (deps_at j g))
  link_deps-deps_at (d ∷ ds) g j p = ground (
    arith,
    link_deps-cons id d ds g,
    link_deps-deps_at ds (link_one id d g) j (link_one-IsPresent id d g p (make_key id) p),
    link_one-deps_at id d g p j,
    append-nil (deps_at j g),
    append_assoc (deps_at j g) (d ∷ []) ds,
  )

  pub link_deps-downstream_at :
      (ds : List TaskId) (g : DagGraph) (j : Text)
      → IsPresent (make_key id) g
      → downstream_at j (link_deps id ds g) ≡ downstream_at j g ++ dependents_in j id ds
  link_deps-downstream_at [] g j p = rw (link_deps-nil id g) (sym (append-nil (downstream_at j g)))
  link_deps-downstream_at (d ∷ ds) g j p = rw (link_deps-cons id d ds g) (
      link_deps-downstream_at ds (link_one id d g) j (link_one-IsPresent id d g p (make_key id) p)
      ∙ ap (λ (l : List TaskId). l ++ dependents_in j id ds) (link_one-downstream_at id d g p j)
      ∙ append_assoc (downstream_at j g) _ _)
