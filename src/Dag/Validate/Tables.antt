-- ===== src/Dag/Validate/Tables.antt =====
-- What the local tables of `validate` hold, counted over the flat list of dependencies.
use task_hub.Prelude.{
  ℕ, ◌+◌, ◌≤◌, Text, List, [], ◌∷◌, ◌++◌, ◌=?◌, =?_refl, Text-Eq, text_eq_iff, ◌≡◌, refl, sym,
  if◌then◌else◌, arith, ◌&&◌, ◌==◌, ℤ, pos, ◌+ℤ◌, put, find-put, ap, ◌∙◌, +ℤ-pos, find, bit,
}
use task_hub.Runner.Task.{TaskId}
use task_hub.Dag.Builder.{DagTaskSpec, Edges, Indegree, degree, edges_of, add_edges, add_all_edges}
use task_hub.Dag.Validate.Occurrences.{occ, occ-cons, occ-nil, occ-snoc}

-- The dependencies as pairs: what is depended on, and who depends.
abbrev pub dep_pairs : Text → List TaskId → List (Text × Text)
dep_pairs x [] = []
dep_pairs x (d ∷ ds) = (d.value, x) ∷ dep_pairs x ds

abbrev pub all_pairs : List DagTaskSpec → List (Text × Text)
all_pairs [] = []
all_pairs (s ∷ ss) = dep_pairs s.id.value s.deps ++ all_pairs ss

unfoldable pub add_pairs : List (Text × Text) → Edges × Indegree → Edges × Indegree
add_pairs [] t = t
add_pairs ((d, x) ∷ ps) (es, m) =
    add_pairs ps (put d (edges_of d es ++ x ∷ []) es, put x (degree x m +ℤ pos 1) m)

add_pairs-append :
    (ps qs : List (Text × Text)) (t : Edges × Indegree)
    → add_pairs (ps ++ qs) t ≡ add_pairs qs (add_pairs ps t)
unfolding add_pairs
add_pairs-append [] qs t = refl
add_pairs-append ((d, x) ∷ ps) qs (es, m) = add_pairs-append ps qs _

add_edges-pairs :
    (x : Text) (ds : List TaskId) (t : Edges × Indegree)
    → add_edges x ds t ≡ add_pairs (dep_pairs x ds) t
unfolding add_edges add_pairs
add_edges-pairs x [] t = refl
add_edges-pairs x (d ∷ ds) (es, m) = add_edges-pairs x ds _

pub add_all_edges-pairs :
    (ss : List DagTaskSpec) (t : Edges × Indegree) → add_all_edges ss t ≡ add_pairs (all_pairs ss) t
unfolding add_all_edges
add_all_edges-pairs [] t = unfold add_pairs in refl
add_all_edges-pairs (s ∷ ss) t =
    add_all_edges-pairs ss (add_edges s.id.value s.deps t)
    ∙ ap (add_pairs (all_pairs ss)) (add_edges-pairs s.id.value s.deps t)
    ∙ sym (add_pairs-append (dep_pairs s.id.value s.deps) (all_pairs ss) t)

-- How often `x` depends on `d`, and on what is not in `V`.
unfoldable pub pairs : List (Text × Text) → Text → Text → ℕ
pairs [] d x = 0
pairs ((e, y) ∷ ps) d x = bit ((e =? d) && (y =? x)) + pairs ps d x

unfoldable pub open_deps : List (Text × Text) → List Text → Text → ℕ
open_deps [] V x = 0
open_deps ((e, y) ∷ ps) V x = bit ((y =? x) && (occ e V == 0)) + open_deps ps V x

pub open_deps-cons :
    (ps : List (Text × Text)) (v : Text) (V : List Text) (x : Text)
    → occ v V ≡ 0
    → open_deps ps V x ≡ pairs ps v x + open_deps ps (v ∷ V) x
unfolding open_deps pairs
open_deps-cons [] v V x h = omega arith
open_deps-cons ((e, y) ∷ ps) v V x h =
    ground (arith, open_deps-cons ps v V x h, occ-cons e v V, text_eq_iff e v, text_eq_iff v e)

pub open_deps-zero :
    (ps : List (Text × Text)) (V : List Text) (d x : Text)
    → open_deps ps V x ≡ 0
    → 1 ≤ pairs ps d x
    → 1 ≤ occ d V
unfolding open_deps pairs
open_deps-zero [] V d x h k = absurd (omega arith)
open_deps-zero ((e, y) ∷ ps) V d x h k = ground (arith, open_deps-zero ps V d x, text_eq_iff e d)

pub zero-open_deps :
    (ps : List (Text × Text)) (V : List Text) (x : Text)
    → ((d : Text) → 1 ≤ pairs ps d x → 1 ≤ occ d V)
    → open_deps ps V x ≡ 0
unfolding open_deps pairs
zero-open_deps [] V x h = refl
zero-open_deps ((e, y) ∷ ps) V x h =
    ground (arith, zero-open_deps ps V x (λ d k. h d (omega arith)), h e, =?_refl e)

pub degree-put :
    (n x : Text) (v : ℤ) (m : Indegree) → degree n (put x v m) ≡ (if x =? n then v else degree n m)
unfolding degree
degree-put n x v m = ground (arith, find-put x n v m)

pub edges_of-put :
    (n x : Text) (v : List Text) (m : Edges)
    → edges_of n (put x v m) ≡ (if x =? n then v else edges_of n m)
unfolding edges_of
edges_of-put n x v m = ground (arith, find-put x n v m)

-- The edges of `d` are those that were there and its pairs.
pub occ-edges_of :
    (ps : List (Text × Text)) (es : Edges) (m : Indegree) (d x : Text)
    → occ x (edges_of d (add_pairs ps (es, m)).0) ≡ occ x (edges_of d es) + pairs ps d x
unfolding add_pairs pairs
occ-edges_of [] es m d x = omega arith
occ-edges_of ((e, y) ∷ ps) es m d x =
    let es' = put e (edges_of e es ++ y ∷ []) es in
    ground (
      arith,
      occ-edges_of ps es' (put y (degree y m +ℤ pos 1) m) d x,
      edges_of-put d e (edges_of e es ++ y ∷ []) es,
      occ-snoc x y (edges_of e es),
      text_eq_iff e d,
    )

degree-count :
    (x y : Text) (m : Indegree) (k : ℕ)
    → degree x m ≡ pos k
    → degree x (put y (degree y m +ℤ pos 1) m) ≡ pos (k + bit (y =? x))
degree-count x y m k h =
    ground (arith, degree-put x y (degree y m +ℤ pos 1) m, +ℤ-pos k 1, text_eq_iff y x)

-- The indegree of `x` grows by the number of pairs that end in it.
pub degree-add_pairs :
    (ps : List (Text × Text)) (es : Edges) (m : Indegree) (x : Text) (k : ℕ)
    → degree x m ≡ pos k
    → degree x (add_pairs ps (es, m)).1 ≡ pos (k + open_deps ps [] x)
unfolding add_pairs open_deps
degree-add_pairs [] es m x k h = ground arith
degree-add_pairs ((e, y) ∷ ps) es m x k h =
    let es' = put e (edges_of e es ++ y ∷ []) es in
    ground (
      arith,
      degree-add_pairs ps es' (put y (degree y m +ℤ pos 1) m) x (k + bit (y =? x))
          (degree-count x y m k h),
      occ-nil e,
    )

pub degree-nil : (x : Text) → degree x [] ≡ pos 0
unfolding degree find
degree-nil x = refl

pub edges_of-nil : (x : Text) → edges_of x [] ≡ []
unfolding edges_of find
edges_of-nil x = refl
