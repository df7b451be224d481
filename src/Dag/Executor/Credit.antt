-- ===== src/Dag/Executor/Credit.antt =====
-- The dependencies of a node that have succeeded, counted against its indegree.
use task_hub.Prelude.{
  Text-Eq, text_eq_iff, ℕ, Text, List, [], ◌∷◌, ◌++◌, ◌≡◌, refl, ◌∙◌, arith, ◌≤◌, find, some, Memᴰ,
  bit, if◌then◌else◌, length, subst, ◌+◌, neg_part, ◌=?◌, pos_part,
}
use task_hub.Runner.Task.{TaskId, TaskStatus}
use task_hub.Dag.Types.{DagNode}
use task_hub.Dag.Graph.{make_key}
use task_hub.Dag.Builder.{DagTaskSpec}
use task_hub.Dag.Builder.Links.{deps_of, dependents_in, dependents_of}
use task_hub.Dag.RunContext.{Effect, node_end, Run}
use task_hub.Dag.Executor.Quiet.{successes, Quiet}

unfoldable pub count_key : Text → List TaskId → ℕ
count_key k [] = 0
count_key k (d ∷ ds) = bit (make_key d =? k) + count_key k ds

pub count_key-append :
    (k : Text) (xs ys : List TaskId) → count_key k (xs ++ ys) ≡ count_key k xs + count_key k ys
unfolding count_key
count_key-append k [] ys = omega arith
count_key-append k (x ∷ xs) ys = omega (arith, count_key-append k xs ys)

dependents_in-count :
    (k p : Text) (id : TaskId) (ds : List TaskId)
    → count_key k (dependents_in p id ds) ≡ (if make_key id =? k then count_key p ds else 0)
unfolding count_key
dependents_in-count k p id [] = ground arith
dependents_in-count k p id (d ∷ ds) = ground (arith, dependents_in-count k p id ds)

-- An edge is seen alike from its two ends.
pub dependents_of-count :
    (k p : Text) (ss : List DagTaskSpec)
    → count_key k (dependents_of p ss) ≡ count_key p (deps_of k ss)
dependents_of-count k p [] = unfold count_key in refl
dependents_of-count k p (s ∷ ss) = ground (
  arith,
  count_key-append k (dependents_in p s.id s.deps) (dependents_of p ss),
  count_key-append p s.deps (deps_of k ss),
  dependents_in-count k p s.id s.deps,
  dependents_of-count k p ss,
)

-- How many of the dependencies have ended with success.
pub credit : List Effect → List TaskId → ℕ
credit tr [] = 0
credit tr (d ∷ ds) = successes (make_key d) tr + credit tr ds

pub credit-same :
    (tr tr' : List Effect) (ds : List TaskId)
    → ((p : Text) → successes p tr' ≡ successes p tr)
    → credit tr' ds ≡ credit tr ds
unfolding credit
credit-same tr tr' [] h = refl
credit-same tr tr' (d ∷ ds) h = omega (arith, h (make_key d), credit-same tr tr' ds h)

pub credit_mono :
    (tr tr' : List Effect) (ds : List TaskId)
    → ((p : Text) → successes p tr ≤ successes p tr')
    → credit tr ds ≤ credit tr' ds
unfolding credit
credit_mono tr tr' [] h = omega arith
credit_mono tr tr' (d ∷ ds) h = omega (arith, h (make_key d), credit_mono tr tr' ds h)

pub credit-node_end :
    (id : TaskId) (tr : List Effect) (ds : List TaskId)
    → credit (node_end id TaskStatus.success ∷ tr) ds ≡ count_key (make_key id) ds + credit tr ds
unfolding credit count_key successes
credit-node_end id tr [] = refl
credit-node_end id tr (d ∷ ds) = ground (
  arith,
  credit-node_end id tr ds,
  text_eq_iff (make_key id) (make_key d),
  text_eq_iff (make_key d) (make_key id),
)

credit-le-length :
    (tr : List Effect) (ds : List TaskId)
    → ((p : Text) → successes p tr ≤ 1)
    → credit tr ds ≤ length ds
unfolding credit
credit-le-length tr [] h = omega arith
credit-le-length tr (d ∷ ds) h = omega (arith, h (make_key d), credit-le-length tr ds h)

-- Full credit means that every dependency has succeeded.
pub credit_full :
    (tr : List Effect) (ds : List TaskId) (d : TaskId)
    → ((p : Text) → successes p tr ≤ 1)
    → length ds ≤ credit tr ds
    → Memᴰ d ds
    → successes (make_key d) tr ≡ 1
unfolding credit
credit_full tr [] d h f m = elim m [ ]
credit_full tr (x ∷ ds) d h f (Memᴰ.head e) =
    rw e (omega (arith, h (make_key x), credit-le-length tr ds h))
credit_full tr (x ∷ ds) d h f (Memᴰ.tail m) =
    credit_full tr ds d h (omega (arith, h (make_key x))) m

-- With `due k` decrements of the node of `k` still to come, its indegree covers the dependencies
-- that have not succeeded; and what is queued has full credit.
pub record Covers (specs : List DagTaskSpec) (due : Text → ℕ) (s : Run) : Type 0 where
  pub edges :
      (k : Text) (n : DagNode) → find k s.graph ≡ some n → n.downstream ≡ dependents_of k specs
  pub enough :
      (k : Text) (n : DagNode)
      → find k s.graph ≡ some n
      → length (deps_of k specs) + due k + neg_part n.indegree
        ≤ pos_part n.indegree + credit s.trace (deps_of k specs)
  pub queued :
      (id : TaskId)
      → Memᴰ id s.ready_queue
      → length (deps_of (make_key id) specs) ≤ credit s.trace (deps_of (make_key id) specs)

pub Quiet-Covers :
    (specs : List DagTaskSpec) (due : Text → ℕ) {s t : Run}
    → Quiet s t
    → Covers specs due s
    → Covers specs due t
Quiet-Covers specs due {s} {t} q c = record {
  edges = λ k n e. let (m, f, x) = q.nodes k n e in x.same_downstream ∙ c.edges k m f;
  enough = λ k n e.
      let (m, f, x) = q.nodes k n e in
      ground (
        arith,
        c.enough k m f,
        x.same_indegree,
        credit-same s.trace t.trace (deps_of k specs) q.same_successes,
      );
  queued = λ id m. omega (
    arith,
    c.queued id (subst (λ (l : List TaskId). Memᴰ id l) q.same_ready m),
    credit-same s.trace t.trace (deps_of (make_key id) specs) q.same_successes,
  );
}
