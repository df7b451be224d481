-- ===== src/Dag/Validate/Kahn.antt =====
-- The loop of Kahn's algorithm: `V` is what it has visited, `q` the queue, and `R` all that was ever
-- queued, the latest first.
use mathlib.Core.Path.{fun_ext, subst}
use native.Mathlib.Numerals.{add-one}
use task_hub.Prelude.{
  ℕ, zero, suc, ◌+◌, ◌≤◌, Text, List, [], ◌∷◌, ◌=?◌, Text-Eq, ◌≡◌, refl, if◌then◌else◌, arith, pos,
  put, length, ◌-ℤ◌, eqb_ℤ, ◌++◌, =?_refl, -ℤ-pos, text_eq_iff, Bool-cases, inl, inr, ◌<◌, bit,
}
use task_hub.Dag.Builder.{Edges, Indegree, degree, edges_of, relax, kahn}
use task_hub.Dag.Validate.Occurrences.{occ, occ-cons, occ-nil, occ-snoc, length-le_of_occ}
use task_hub.Dag.Validate.Tables.{pairs, open_deps, degree-put, open_deps-cons, open_deps-zero}

-- A list, newest first, in which what a node depends on stands behind it.
abbrev pub Ordered : List (Text × Text) → List Text → Type 0
Ordered ps [] = Unit {0}
Ordered ps (x ∷ R) = ((d : Text) → 1 ≤ pairs ps d x → 1 ≤ occ d R) × Ordered ps R

-- The state of the search when `left` decrements of each node are still to be made.
pub record Inv (ps : List (Text × Text)) (ids V q R : List Text) (m : Indegree) (left : Text → ℕ)
    : Type 0 where
  pub degrees : (n : Text) → degree n m ≡ pos (left n)
  pub queued : (n : Text) → occ n R ≡ occ n V + occ n q
  pub once : (n : Text) → occ n R ≤ 1
  pub ready : (n : Text) → 1 ≤ occ n ids → left n ≡ 0 → 1 ≤ occ n R
  pub closed : (n : Text) → 1 ≤ occ n R → (left n ≡ 0) × (1 ≤ occ n ids)
  pub ordered : Ordered ps R

-- One decrement, with the push that it may cause.
relax_one :
    (ps : List (Text × Text)) (ids V q R : List Text) (m : Indegree) (x : Text) (left : Text → ℕ)
    → Inv ps ids V q R m (λ n. bit (x =? n) + left n)
    → 1 ≤ occ x ids
    → ((d : Text) → left x ≡ 0 → 1 ≤ pairs ps d x → 1 ≤ occ d V)
    → let v = degree x m -ℤ pos 1 in
      let hit = eqb_ℤ v (pos 0) in
      Inv ps ids V (if hit then q ++ x ∷ [] else q) (if hit then x ∷ R else R) (put x v m) left
relax_one ps ids V q R m x left inv known behind =
    let v : degree x m -ℤ pos 1 ≡ pos (left x) =
      ground (arith, inv.degrees x, =?_refl x, -ℤ-pos (1 + left x) 1) in
    let fresh : occ x R ≡ 0 = ground (arith, inv.closed x, =?_refl x) in
    record {
      degrees = λ n.
          ground (arith, v, degree-put n x (degree x m -ℤ pos 1) m, inv.degrees n, text_eq_iff x n);
      queued = λ n. ground (arith, v, inv.queued n, occ-snoc n x q, occ-cons n x R);
      once = λ n. ground (arith, v, inv.once n, fresh, occ-cons n x R, text_eq_iff x n);
      ready = λ n k z. ground (arith, v, inv.ready n k, occ-cons n x R, text_eq_iff x n);
      closed =
          λ n k. ground (arith, v, inv.closed n, occ-cons n x R, text_eq_iff x n, known, fresh);
      ordered = elim (Bool-cases (eqb_ℤ (degree x m -ℤ pos 1) (pos 0))) [
        | inl e ↦ rw e (λ d k. ground (arith, v, behind d, inv.queued d), inv.ordered)
        | inr e ↦ rw e inv.ordered
      ];
    }

Inv-left :
    (ps : List (Text × Text)) (ids V q R : List Text) (m : Indegree) (left left' : Text → ℕ)
    → ((n : Text) → left n ≡ left' n)
    → Inv ps ids V q R m left
    → Inv ps ids V q R m left'
Inv-left ps ids V q R m left left' e inv = subst (Inv ps ids V q R m) (fun_ext e) inv

-- The loop over the edges of the node just visited.
relax-Inv :
    (ps : List (Text × Text)) (ids V xs q R : List Text) (m : Indegree) (left : Text → ℕ)
    → Inv ps ids V q R m (λ n. occ n xs + left n)
    → ((x : Text) → 1 ≤ occ x xs → 1 ≤ occ x ids)
    → ((x d : Text) → left x ≡ 0 → 1 ≤ pairs ps d x → 1 ≤ occ d V)
    → (R' : List Text) × Inv ps ids V (relax xs (m, q)).1 R' (relax xs (m, q)).0 left
unfolding relax
relax-Inv ps ids V [] q R m left inv known behind =
    (R, Inv-left ps ids V q R m _ left (λ n. ground (arith, occ-nil n)) inv)
relax-Inv ps ids V (x ∷ xs) q R m left inv known behind =
    let split =
      Inv-left ps ids V q R m _ (λ n. bit (x =? n) + (occ n xs + left n))
        (λ n. ground (arith, occ-cons n x xs)) inv in
    relax-Inv ps ids V xs _ _ _ left
      (relax_one ps ids V q R m x (λ n. occ n xs + left n) split
        (known x (ground (arith, occ-cons x x xs, =?_refl x))) (λ d z. behind x d (omega arith)))
      (λ y k. known y (ground (arith, occ-cons y x xs))) behind

visited-le :
    (ps : List (Text × Text)) (ids V q R : List Text) (m : Indegree) (left : Text → ℕ)
    → Inv ps ids V q R m left
    → length V ≤ length ids
visited-le ps ids V q R m left inv =
    length-le_of_occ V ids (λ n. ground (arith, inv.queued n, inv.once n, inv.closed n))

-- What the search has when its queue is empty.
pub record Finished (ps : List (Text × Text)) (ids : List Text) (count : ℕ) : Type 0 where
  pub visited : List Text
  pub seen : List Text
  pub table : Indegree
  pub inv : Inv ps ids visited [] seen table (open_deps ps visited)
  pub counted : count ≡ length visited

-- The loop ends with an empty queue before its fuel does.
pub kahn-Finished :
    (fuel : ℕ) (ps : List (Text × Text)) (ids V q R : List Text) (es : Edges) (m : Indegree)
    → ((d n : Text) → occ n (edges_of d es) ≡ pairs ps d n)
    → ((d n : Text) → 1 ≤ pairs ps d n → 1 ≤ occ n ids)
    → Inv ps ids V q R m (open_deps ps V)
    → length ids < fuel + length V
    → Finished ps ids (kahn fuel es m q (length V))
unfolding kahn
kahn-Finished zero ps ids V q R es m edges known inv h =
    absurd (omega (arith, visited-le ps ids V q R m (open_deps ps V) inv))
kahn-Finished (suc fuel) ps ids V [] R es m edges known inv h = record {
  visited = V;
  seen = R;
  table = m;
  inv = inv;
  counted = refl;
}
kahn-Finished (suc fuel) ps ids V (x ∷ q) R es m edges known inv h =
    let unseen : occ x V ≡ 0 =
      ground (arith, inv.queued x, inv.once x, occ-cons x x q, =?_refl x) in
    let taken : Inv ps ids (x ∷ V) q R m (open_deps ps V) = record {
      degrees = inv.degrees;
      queued = λ n. ground (arith, inv.queued n, occ-cons n x V, occ-cons n x q);
      once = inv.once;
      ready = inv.ready;
      closed = inv.closed;
      ordered = inv.ordered;
    } in
    let (R', next) =
      relax-Inv ps ids (x ∷ V) (edges_of x es) q R m (open_deps ps (x ∷ V))
        (Inv-left ps ids (x ∷ V) q R m _ _
          (λ n. ground (arith, edges x n, open_deps-cons ps x V n unseen)) taken)
        (λ y k. known x y (ground (arith, edges x y)))
        (λ y d z k. open_deps-zero ps (x ∷ V) d y z k) in
    let rest =
      kahn-Finished fuel ps ids (x ∷ V) _ R' es (relax (edges_of x es) (m, q)).0 edges known next
        (omega arith) in
    rw (add-one (length V)) rest

-- Nodes with no open dependency at the start are in order as they come.
pub sources-Ordered :
    (ps : List (Text × Text)) (R : List Text)
    → ((x : Text) → 1 ≤ occ x R → open_deps ps [] x ≡ 0)
    → Ordered ps R
sources-Ordered ps [] h = tt
sources-Ordered ps (x ∷ R) h = (
  λ d k. absurd (
      omega (
        arith,
        occ-nil d,
        open_deps-zero ps [] d x (h x (ground (arith, occ-cons x x R, =?_refl x))) k,
      )),
  sources-Ordered ps R (λ y k. h y (ground (arith, occ-cons y x R))),
)
