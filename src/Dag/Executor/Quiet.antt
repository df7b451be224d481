-- ===== src/Dag/Executor/Quiet.antt =====
-- Handlers that end no node and queue none: they change statuses, and leave edges and indegrees.
use task_hub.Prelude.{
  Text-Eq, text_eq_iff, ℕ, zero, suc, Text, List, [], ◌∷◌, ◌≡◌, refl, ◌∙◌, arith, Bool, true, false,
  find, some, Option-cases, ◌+◌, inl, inr, Bool-cases, ◌=?◌, bit, ◌&&◌,
}
use task_hub.Runner.Task.{TaskId, TaskStatus}
use task_hub.Dag.Types.{DagNode, set_status}
use task_hub.Dag.Graph.{DagGraph, get_node, make_key, update_node, find-update_node}
use task_hub.Dag.RunContext.{
  Effect, node_end, Run, emit, emit_if, set_node_status, set_task_results, increment_running,
}
use task_hub.Dag.Executor.{skip_node, skip_loop, start_node, visit_new}

abbrev pub is_success : TaskStatus → Bool
is_success TaskStatus.success = true
is_success _ = false

abbrev pub success_in : Text → Effect → ℕ
success_in p (node_end id st) = bit ((make_key id =? p) && is_success st)
success_in p _ = 0

abbrev pub end_in : Text → Effect → ℕ
end_in p (node_end id st) = bit (make_key id =? p)
end_in p _ = 0

-- How often the nodes of a key have ended with success, and have ended.
unfoldable pub successes : Text → List Effect → ℕ
successes p [] = 0
successes p (e ∷ es) = success_in p e + successes p es

unfoldable pub ends : Text → List Effect → ℕ
ends p [] = 0
ends p (e ∷ es) = end_in p e + ends p es

pub record SameNode (n n' : DagNode) : Type 0 where
  pub same_downstream : n'.downstream ≡ n.downstream
  pub same_indegree : n'.indegree ≡ n.indegree

pub record Quiet (s t : Run) : Type 0 where
  pub nodes :
      (k : Text) (n' : DagNode)
      → find k t.graph ≡ some n'
      → (n : DagNode) × (find k s.graph ≡ some n) × SameNode n n'
  pub same_successes : (p : Text) → successes p t.trace ≡ successes p s.trace
  pub same_ends : (p : Text) → ends p t.trace ≡ ends p s.trace
  pub same_ready : t.ready_queue ≡ s.ready_queue

pub Quiet-refl : (s : Run) → Quiet s s
Quiet-refl s = record {
  nodes = λ k n e. (n, e, record { same_downstream = refl; same_indegree = refl });
  same_successes = λ p. refl;
  same_ends = λ p. refl;
  same_ready = refl;
}

pub Quiet-trans : {s t u : Run} → Quiet s t → Quiet t u → Quiet s u
Quiet-trans a b = record {
  nodes = λ k n e.
      let (m, e', x) = b.nodes k n e in
      let (l, e'', y) = a.nodes k m e' in
      (
        l,
        e'',
        record {
          same_downstream = x.same_downstream ∙ y.same_downstream;
          same_indegree = x.same_indegree ∙ y.same_indegree;
        },
      );
  same_successes = λ p. b.same_successes p ∙ a.same_successes p;
  same_ends = λ p. b.same_ends p ∙ a.same_ends p;
  same_ready = b.same_ready ∙ a.same_ready;
}

set_status-SameNode :
    (j : Text) (st : TaskStatus) (g : DagGraph) (k : Text) (n' : DagNode)
    → find k (update_node j (set_status st) g) ≡ some n'
    → (n : DagNode) × (find k g ≡ some n) × SameNode n n'
unfolding update_node set_status
set_status-SameNode j st g k n' h = elim (Option-cases (find j g)) [
  | inl e ↦ (n', ground (arith, e), record { same_downstream = refl; same_indegree = refl })
  | inr (m, e) ↦ elim (Bool-cases (j =? k)) [
    | inl q ↦ (
      m,
      ground (arith, text_eq_iff j k),
      record {
        same_downstream = ground (arith, find-update_node j k (set_status st) g e);
        same_indegree = ground (arith, find-update_node j k (set_status st) g e);
      },
    )
    | inr q ↦ (
      n',
      ground (arith, find-update_node j k (set_status st) g e),
      record { same_downstream = refl; same_indegree = refl },
    )
  ]
]

pub set_node_status-Quiet :
    (id : TaskId) (st : TaskStatus) (s : Run) → Quiet s (set_node_status id st s)
unfolding set_node_status emit emit_if successes ends
set_node_status-Quiet id st s = record {
  nodes = λ k n e. set_status-SameNode (make_key id) st s.graph k n (ground arith);
  same_successes = λ p. ground arith;
  same_ends = λ p. ground arith;
  same_ready = ground arith;
}

skip_node-Quiet : (u c : TaskId) (s : Run) → Quiet s (skip_node u c s)
unfolding skip_node emit emit_if set_task_results successes ends
skip_node-Quiet u c s =
    let q = set_node_status-Quiet c TaskStatus.skipped s in
    record {
      nodes = λ k n e. q.nodes k n (ground arith);
      same_successes = λ p. ground (arith, q.same_successes p);
      same_ends = λ p. ground (arith, q.same_ends p);
      same_ready = ground (arith, q.same_ready);
    }

pub skip_loop-Quiet :
    (fuel : ℕ) (u : TaskId) (t : List TaskId × List Text) (s : Run) → Quiet s (skip_loop fuel u t s)
unfolding skip_loop
skip_loop-Quiet zero u t s = Quiet-refl s
skip_loop-Quiet (suc fuel) u ([], visited) s = Quiet-refl s
skip_loop-Quiet (suc fuel) u (c ∷ q, visited) s = elim (Option-cases (get_node c s.graph)) [
  | inl e ↦ rw (e, skip_loop) (skip_loop-Quiet fuel u (q, visited) s)
  | inr (n, e) ↦
      rw (e, skip_loop)
        (Quiet-trans (skip_node-Quiet u c s)
          (skip_loop-Quiet fuel u (visit_new n.downstream (q, visited)) (skip_node u c s)))
]

pub start_node-Quiet : (id : TaskId) (s : Run) → Quiet s (start_node id s)
unfolding start_node emit emit_if increment_running successes ends
start_node-Quiet id s =
    let q = set_node_status-Quiet id TaskStatus.running s in
    record {
      nodes = λ k n e. q.nodes k n (ground arith);
      same_successes = λ p. ground (arith, q.same_successes p);
      same_ends = λ p. ground (arith, q.same_ends p);
      same_ready = ground (arith, q.same_ready);
    }
