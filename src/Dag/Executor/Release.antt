-- ===== src/Dag/Executor/Release.antt =====
-- What a finished node does to the credit of its dependents.
use mathlib.Core.List.Memᴰ
use task_hub.Prelude.{
  Text-Eq, text_eq_iff, ℕ, Text, List, [], ◌∷◌, ◌++◌, ◌≡◌, arith, true, false, ◌≤◌, find, none,
  some, Memᴰ, bit, ◌=?◌, ◌+◌, find-put, ◌-ℤ◌, pos, -ℤ_parts, not, Option-cases, subst, ◌⊎◌, eqb_ℤ,
  is_empty, inl, Bool-cases, inr, sym, =?_refl,
}
use task_hub.Runner.Task.{TaskId, TaskStatus, TaskResult, is_ok}
use task_hub.Dag.Types.{DagNode, decrement_indegree}
use task_hub.Dag.Graph.{get_node, make_key}
use task_hub.Dag.Builder.{DagTaskSpec}
use task_hub.Dag.Builder.Links.{deps_of}
use task_hub.Dag.RunContext.{node_end, Run, emit, emit_if, set_task_results}
use task_hub.Dag.Executor.{
  release_child, release_children, push_ready, node_ready, mark_finished, is_blocked,
}
use task_hub.Dag.Executor.Quiet.{successes}
use task_hub.Dag.Executor.Credit.{
  count_key, credit, Covers, credit_mono, credit-node_end, dependents_of-count, credit-same,
}
use task_hub.Dag.Executor.Ends.{release_child-SameEnds}

release_ready :
    (c : TaskId) (n : DagNode) (s : Run)
    → find (make_key c) s.graph ≡ some n
    → ((release_child c s).ready_queue ≡ s.ready_queue)
      ⊎ (((release_child c s).ready_queue ≡ s.ready_queue ++ c ∷ [])
          × (eqb_ℤ (n.indegree -ℤ pos 1) (pos 0) ≡ true))
unfolding release_child push_ready emit decrement_indegree get_node
release_ready c n s e = elim (Bool-cases (is_blocked n.status)) [
  | inl b ↦ inl (ground (arith, e))
  | inr b ↦ elim (Bool-cases (eqb_ℤ (n.indegree -ℤ pos 1) (pos 0))) [
    | inl z ↦ inr (ground (arith, e), z)
    | inr z ↦ inl (ground (arith, e))
  ]
]

release_child-none :
    (c : TaskId) (s : Run) → find (make_key c) s.graph ≡ none → release_child c s ≡ s
unfolding release_child get_node
release_child-none c s e = ground (arith, e)

-- The record of an end, before its consequences.
abbrev pub recorded : TaskId → TaskResult → Run → Run
recorded id r s =
    emit (node_end id r.status)
      (emit_if (not (is_empty id.run_id)) (mark_finished id r) (set_task_results id r s))

pub recorded_fields :
    (id : TaskId) (r : TaskResult) (s : Run)
    → ((recorded id r s).graph ≡ s.graph) × ((recorded id r s).ready_queue ≡ s.ready_queue)
unfolding emit emit_if set_task_results
recorded_fields id r s = ground arith

pub recorded-no_success :
    (id : TaskId) (r : TaskResult) (s : Run)
    → is_ok r.status ≡ false
    → (p : Text) → successes p (recorded id r s).trace ≡ successes p s.trace
unfolding emit emit_if set_task_results successes
recorded-no_success id r s bad p = ground arith

pub recorded-credit :
    (id : TaskId) (r : TaskResult) (s : Run) (ds : List TaskId)
    → r.status ≡ TaskStatus.success
    → credit (recorded id r s).trace ds ≡ count_key (make_key id) ds + credit s.trace ds
unfolding emit emit_if set_task_results
recorded-credit id r s ds ok =
    let before =
      (emit_if (not (is_empty id.run_id)) (mark_finished id r) (set_task_results id r s)).trace in
    ground (
      arith,
      credit-node_end id before ds,
      credit-same s.trace before ds (λ p. unfold successes in ground arith),
    )

module _ (specs : List DagTaskSpec) where
  Covers-weaken :
      (due due' : Text → ℕ) (s : Run)
      → ((k : Text) → due' k ≤ due k)
      → Covers specs due s
      → Covers specs due' s
  Covers-weaken due due' s h c = record {
    edges = c.edges;
    enough = λ k n e. omega (arith, h k, c.enough k n e);
    queued = c.queued;
  }

  release_some :
      (c : TaskId) (n : DagNode) (due : Text → ℕ) (s : Run)
      → find (make_key c) s.graph ≡ some n
      → Covers specs (λ k. bit (make_key c =? k) + due k) s
      → Covers specs due (release_child c s)
  unfolding release_child push_ready emit decrement_indegree get_node successes
  release_some c n due s e cov = record {
    edges = λ k m f. ground (
      arith,
      e,
      find-put (make_key c) k (record n { indegree = n.indegree -ℤ pos 1 }) s.graph,
      cov.edges k m,
      cov.edges k n,
      text_eq_iff (make_key c) k,
    );
    enough = λ k m f. ground (
      arith,
      e,
      find-put (make_key c) k (record n { indegree = n.indegree -ℤ pos 1 }) s.graph,
      cov.enough k m,
      cov.enough k n,
      text_eq_iff (make_key c) k,
      -ℤ_parts n.indegree (pos 1),
      credit_mono s.trace (node_ready c ∷ s.trace) (deps_of k specs) (λ p. omega arith),
    );
    queued = λ id m.
        let kept =
          credit-same s.trace (release_child c s).trace (deps_of (make_key id) specs)
            (release_child-SameEnds c s).successes_kept in
        elim (release_ready c n s e) [
          | inl same ↦
              omega (arith, kept, cov.queued id (subst (λ (l : List TaskId). Memᴰ id l) same m))
          | inr (more, z) ↦
              elim (Memᴰ.append_cases s.ready_queue
                (subst (λ (l : List TaskId). Memᴰ id l) more m)) [
                  | inl old ↦ omega (arith, kept, cov.queued id old)
                  | inr new ↦ ground (
                    arith,
                    kept,
                    Memᴰ.eq_of_singleton new,
                    cov.enough (make_key c) n e,
                    =?_refl (make_key c),
                    -ℤ_parts n.indegree (pos 1),
                  )
                ]
        ];
  }

  release_child-Covers :
      (c : TaskId) (due : Text → ℕ) (s : Run)
      → Covers specs (λ k. bit (make_key c =? k) + due k) s
      → Covers specs due (release_child c s)
  release_child-Covers c due s cov = elim (Option-cases (find (make_key c) s.graph)) [
    | inl e ↦
        subst (Covers specs due) (sym (unchanged e)) (Covers-weaken _ due s (λ k. omega arith) cov)
    | inr (n, e) ↦ release_some c n due s e cov
  ]
    where
      unchanged : find (make_key c) s.graph ≡ none → release_child c s ≡ s
      unchanged e = release_child-none c s e

  pub release_children-Covers :
      (cs : List TaskId) (s : Run)
      → Covers specs (λ k. count_key k cs) s
      → Covers specs (λ k. 0) (release_children cs s)
  unfolding release_children count_key
  release_children-Covers [] s cov = cov
  release_children-Covers (c ∷ cs) s cov =
      release_children-Covers cs (release_child c s)
        (release_child-Covers c (λ k. count_key k cs) s cov)

  pub recorded-success :
      (id : TaskId) (r : TaskResult) (n : DagNode) (s : Run)
      → find (make_key id) s.graph ≡ some n
      → r.status ≡ TaskStatus.success
      → Covers specs (λ k. 0) s
      → Covers specs (λ k. count_key k n.downstream) (recorded id r s)
  recorded-success id r n s e ok cov = record {
    edges = λ k m f. cov.edges k m (ground (arith, recorded_fields id r s));
    enough = λ k m f. ground (
      arith,
      cov.enough k m (ground (arith, recorded_fields id r s)),
      cov.edges (make_key id) n e,
      dependents_of-count k (make_key id) specs,
      recorded-credit id r s (deps_of k specs) ok,
    );
    queued = λ j m. omega (
      arith,
      recorded-credit id r s (deps_of (make_key j) specs) ok,
      cov.queued j (subst (λ (l : List TaskId). Memᴰ j l) (recorded_fields id r s).1 m),
    );
  }

  pub recorded-failure :
      (id : TaskId) (r : TaskResult) (s : Run)
      → is_ok r.status ≡ false
      → Covers specs (λ k. 0) s
      → Covers specs (λ k. 0) (recorded id r s)
  recorded-failure id r s bad cov = record {
    edges = λ k m f. cov.edges k m (ground (arith, recorded_fields id r s));
    enough = λ k m f. ground (
      arith,
      cov.enough k m (ground (arith, recorded_fields id r s)),
      credit-same s.trace (recorded id r s).trace (deps_of k specs)
          (recorded-no_success id r s bad),
    );
    queued = λ j m. omega (
      arith,
      credit-same s.trace (recorded id r s).trace (deps_of (make_key j) specs)
          (recorded-no_success id r s bad),
      cov.queued j (subst (λ (l : List TaskId). Memᴰ j l) (recorded_fields id r s).1 m),
    );
  }
