-- ===== src/Dag/Executor/Starts.antt =====
-- How often the nodes of a key are started.
use task_hub.Prelude.{
  Text-Eq, text_eq_iff, ℕ, Text, List, [], ◌∷◌, ◌≡◌, refl, arith, Bool, true, false, ◌≤◌, find,
  none, some, Option-cases, ◌+◌, ◌=?◌, find-put, inl, inr, put, suc, ◌-ℤ◌, pos, not, zero, is_empty,
  bit,
}
use task_hub.Runner.Task.{TaskId, TaskStatus, TaskResult}
use task_hub.Dag.Types.{DagNode, set_status, decrement_indegree}
use task_hub.Dag.Graph.{DagGraph, get_node, make_key, update_node, find-update_node}
use task_hub.Dag.RunContext.{
  Effect, node_start, Run, emit, emit_if, set_node_status, set_task_results, decrement_running,
  mark_failed,
}
use task_hub.Dag.Executor.{
  release_child, release_children, push_ready, skip_node, skip_loop, failure_status, on_failure,
  on_node_finished, on_success, node_end, skip_all_downstream, visit_new, count_edges,
  mark_finished,
}

abbrev pub starts_in : Text → Effect → ℕ
starts_in k (node_start id) = bit (make_key id =? k)
starts_in k _ = 0

unfoldable pub starts : Text → List Effect → ℕ
starts k [] = 0
starts k (e ∷ es) = starts_in k e + starts k es

unfoldable pub is_pending : TaskStatus → Bool
is_pending TaskStatus.pending = true
is_pending _ = false

unfoldable pub pending_at : Text → DagGraph → ℕ
pending_at k g = elim (find k g) [ none ↦ 0 | some n ↦ bit (is_pending n.status) ]

-- What a handler that starts nothing does to the count.
pub record StartsNothing (k : Text) (s t : Run) : Type 0 where
  pub same_starts : starts k t.trace ≡ starts k s.trace
  pub no_reset : pending_at k t.graph ≤ pending_at k s.graph

pub StartsNothing-trans :
    {k : Text} {s t u : Run} → StartsNothing k s t → StartsNothing k t u → StartsNothing k s u
StartsNothing-trans a b = omega (arith, a.same_starts, b.same_starts)

pending_at-set_status :
    (k j : Text) (st : TaskStatus) (g : DagGraph)
    → is_pending st ≡ false
    → pending_at k (update_node j (set_status st) g) ≤ pending_at k g
unfolding pending_at set_status update_node
pending_at-set_status k j st g h = elim (Option-cases (find j g)) [
  | inl e ↦ rw (e, update_node) (omega arith)
  | inr (n, e) ↦ ground (arith, find-update_node j k (set_status st) g e, text_eq_iff j k)
]

pending_at-put :
    (k j : Text) (n n' : DagNode) (g : DagGraph)
    → find j g ≡ some n
    → n'.status ≡ n.status
    → pending_at k (put j n' g) ≡ pending_at k g
unfolding pending_at
pending_at-put k j n n' g e q = ground (arith, find-put j k n' g, text_eq_iff j k)

module _ (k : Text) where
  pub set_node_status-StartsNothing :
      (id : TaskId) (st : TaskStatus) (s : Run)
      → is_pending st ≡ false
      → StartsNothing k s (set_node_status id st s)
  unfolding set_node_status emit emit_if starts
  set_node_status-StartsNothing id st s h =
      ground (arith, pending_at-set_status k (make_key id) st s.graph h)

  release_child-StartsNothing : (c : TaskId) (s : Run) → StartsNothing k s (release_child c s)
  unfolding release_child push_ready emit starts decrement_indegree get_node
  release_child-StartsNothing c s = elim (Option-cases (find (make_key c) s.graph)) [
    | inl e ↦ rw (e, release_child) (ground arith)
    | inr (n, e) ↦
        rw (e, release_child)
          (ground (
            arith,
            pending_at-put k (make_key c) n (record n { indegree = n.indegree -ℤ pos 1 }) s.graph e
                refl,
          ))
  ]

  pub release_children-StartsNothing :
      (cs : List TaskId) (s : Run) → StartsNothing k s (release_children cs s)
  unfolding release_children
  release_children-StartsNothing [] s = omega arith
  release_children-StartsNothing (c ∷ cs) s =
      StartsNothing-trans (release_child-StartsNothing c s)
        (release_children-StartsNothing cs (release_child c s))

  skip_node-StartsNothing : (u c : TaskId) (s : Run) → StartsNothing k s (skip_node u c s)
  unfolding skip_node emit emit_if set_task_results starts
  skip_node-StartsNothing u c s =
      ground
        (arith, set_node_status-StartsNothing c TaskStatus.skipped s (unfold is_pending in refl))

  pub skip_loop-StartsNothing :
      (fuel : ℕ) (u : TaskId) (t : List TaskId × List Text) (s : Run)
      → StartsNothing k s (skip_loop fuel u t s)
  unfolding skip_loop
  skip_loop-StartsNothing zero u t s = omega arith
  skip_loop-StartsNothing (suc fuel) u ([], visited) s = omega arith
  skip_loop-StartsNothing (suc fuel) u (c ∷ q, visited) s =
      elim (Option-cases (get_node c s.graph)) [
        | inl e ↦ rw (e, skip_loop) (skip_loop-StartsNothing fuel u (q, visited) s)
        | inr (n, e) ↦
            rw (e, skip_loop)
              (StartsNothing-trans (skip_node-StartsNothing u c s) (
                skip_loop-StartsNothing fuel u (visit_new n.downstream (q, visited))
                  (skip_node u c s)))
      ]

  on_success-StartsNothing :
      (id : TaskId) (n : DagNode) (s : Run) → StartsNothing k s (on_success id n s)
  unfolding on_success decrement_running
  on_success-StartsNothing id n s =
      let s' = set_node_status id TaskStatus.success s in
      ground (
        arith,
        set_node_status-StartsNothing id TaskStatus.success s (unfold is_pending in refl),
        release_children-StartsNothing n.downstream s',
      )

  failure_not_pending : (st : TaskStatus) → is_pending (failure_status st) ≡ false
  unfolding is_pending
  failure_not_pending TaskStatus.pending = refl
  failure_not_pending _ = refl

  on_failure-StartsNothing :
      (id : TaskId) (n : DagNode) (st : TaskStatus) (s : Run)
      → StartsNothing k s (on_failure id n st s)
  unfolding on_failure decrement_running mark_failed skip_all_downstream
  on_failure-StartsNothing id n st s =
      let s' = set_node_status id (failure_status st) s in
      ground (
        arith,
        set_node_status-StartsNothing id (failure_status st) s (failure_not_pending st),
        skip_loop-StartsNothing (count_edges s'.graph + 1) id (visit_new n.downstream ([], []))
            (record s' { failed = true }),
      )

  pub on_node_finished-StartsNothing :
      (id : TaskId) (r : TaskResult) (s : Run) → StartsNothing k s (on_node_finished id r s)
  unfolding on_node_finished emit emit_if set_task_results decrement_running starts
  on_node_finished-StartsNothing id r s =
      let recorded =
        emit (node_end id r.status)
          (emit_if (not (is_empty id.run_id)) (mark_finished id r) (set_task_results id r s)) in
      elim (Option-cases (get_node id s.graph)) [
        | inl e ↦ rw (e, on_node_finished) (ground arith)
        | inr (n, e) ↦
            rw (e, on_node_finished)
              (ground (
                arith,
                on_success-StartsNothing id n recorded,
                on_failure-StartsNothing id n r.status recorded,
              ))
      ]
