-- ===== src/Dag/Validate/Keys.antt =====
-- The nodes that `validate` knows: the id set, the keys of the indegree table, and the sources.
use task_hub.Prelude.{
  ◌≤◌, Text, List, [], ◌∷◌, ◌++◌, ◌=?◌, Text-Eq, ◌≡◌, refl, if◌then◌else◌, arith, ℤ, pos, put, map,
  Memᴰ, =?_refl, find, ◌&&◌, ◌+ℤ◌, ◌==◌, ◌⊎◌, eqb_ℤ, inl, text_eq_iff, inr, ◌∙◌, Bool-cases, sym,
  =?→eq, length, ◌+◌, length-append, bit,
}
use task_hub.Dag.Builder.{
  DagTaskSpec, Edges, Indegree, degree, zero_indegree, sources, collect_ids, insert, edges_of,
}
use task_hub.Dag.Validate.Occurrences.{occ, occ-insert}
use task_hub.Dag.Validate.Tables.{pairs, add_pairs, degree-put}

abbrev pub keys : Indegree → List Text
keys [] = []
keys ((x, v) ∷ m) = x ∷ keys m

occ-keys-put :
    (n x : Text) (v : ℤ) (m : Indegree)
    → occ n (keys (put x v m)) ≡ (if (x =? n) && (occ n (keys m) == 0) then 1 else occ n (keys m))
unfolding put occ
occ-keys-put n x v [] = ground arith
occ-keys-put n x v ((y, w) ∷ m) =
    ground (arith, occ-keys-put n x v m, text_eq_iff x n, text_eq_iff y x, text_eq_iff y n)

-- The id set and the keys of the zeroed table are the same nodes.
pub occ-keys-zero :
    (n : Text) (ss : List DagTaskSpec) (m : Indegree) (ids : List Text)
    → occ n (keys m) ≡ occ n ids
    → occ n (keys (zero_indegree ss m)) ≡ occ n (collect_ids ss ids)
unfolding zero_indegree collect_ids
occ-keys-zero n [] m ids h = h
occ-keys-zero n (s ∷ ss) m ids h =
    occ-keys-zero n ss (put s.id.value (pos 0) m) (insert s.id.value ids)
      (ground (arith, occ-keys-put n s.id.value (pos 0) m, occ-insert n s.id.value ids))

pub degree-zero :
    (x : Text) (ss : List DagTaskSpec) (m : Indegree)
    → degree x m ≡ pos 0
    → degree x (zero_indegree ss m) ≡ pos 0
unfolding zero_indegree
degree-zero x [] m h = h
degree-zero x (s ∷ ss) m h =
    degree-zero x ss (put s.id.value (pos 0) m) (ground (arith, degree-put x s.id.value (pos 0) m))

pub occ-ids-le :
    (n : Text) (ss : List DagTaskSpec) (ids : List Text)
    → occ n ids ≤ 1
    → occ n (collect_ids ss ids) ≤ 1
unfolding collect_ids
occ-ids-le n [] ids h = h
occ-ids-le n (s ∷ ss) ids h =
    occ-ids-le n ss (insert s.id.value ids) (ground (arith, occ-insert n s.id.value ids))

ids-grow :
    (n : Text) (ss : List DagTaskSpec) (ids : List Text)
    → 1 ≤ occ n ids
    → 1 ≤ occ n (collect_ids ss ids)
unfolding collect_ids
ids-grow n [] ids h = h
ids-grow n (s ∷ ss) ids h =
    ids-grow n ss (insert s.id.value ids) (ground (arith, occ-insert n s.id.value ids))

-- Every description's id is in the set, and nothing else is.
pub spec-ids :
    (s : DagTaskSpec) (ss : List DagTaskSpec) (ids : List Text)
    → Memᴰ s ss
    → 1 ≤ occ s.id.value (collect_ids ss ids)
unfolding collect_ids
spec-ids s [] ids m = elim m [ ]
spec-ids s (r ∷ ss) ids (Memᴰ.head e) = rw e (
    ids-grow r.id.value ss (insert r.id.value ids)
      (ground (arith, occ-insert r.id.value r.id.value ids, =?_refl r.id.value)))
spec-ids s (r ∷ ss) ids (Memᴰ.tail m) = spec-ids s ss (insert r.id.value ids) m

pub ids-spec :
    (n : Text) (ss : List DagTaskSpec) (ids : List Text)
    → 1 ≤ occ n (collect_ids ss ids)
    → (1 ≤ occ n ids) ⊎ Memᴰ n (map (λ (s : DagTaskSpec). s.id.value) ss)
unfolding collect_ids
ids-spec n [] ids h = inl h
ids-spec n (s ∷ ss) ids h = elim (ids-spec n ss (insert s.id.value ids) h) [
  | inr m ↦ inr (Memᴰ.tail m)
  | inl k ↦ elim (Bool-cases (s.id.value =? n)) [
    | inl e ↦ inr (Memᴰ.head (sym (=?→eq s.id.value n e)))
    | inr e ↦ inl (ground (arith, occ-insert n s.id.value ids))
  ]
]

-- A pair's target is a node, so the edges add no key.
pub occ-keys-add_pairs :
    (ps : List (Text × Text)) (es : Edges) (m : Indegree)
    → ((d x : Text) → 1 ≤ pairs ps d x → 1 ≤ occ x (keys m))
    → (n : Text) → occ n (keys (add_pairs ps (es, m)).1) ≡ occ n (keys m)
unfolding add_pairs pairs
occ-keys-add_pairs [] es m h n = refl
occ-keys-add_pairs ((e, y) ∷ ps) es m h n =
    let m' = put y (degree y m +ℤ pos 1) m in
    let es' = put e (edges_of e es ++ y ∷ []) es in
    let same : (k : Text) → occ k (keys m') ≡ occ k (keys m) = λ k. ground (
      arith,
      occ-keys-put k y (degree y m +ℤ pos 1) m,
      text_eq_iff y k,
      h e y,
      =?_refl e,
      =?_refl y,
    ) in
    occ-keys-add_pairs ps es' m' (λ d x k. ground (arith, same x, h d x)) n ∙ same n

-- The sources are the keys of indegree 0, each once.
pub occ-sources :
    (n : Text) (m : Indegree)
    → ((k : Text) → occ k (keys m) ≤ 1)
    → occ n (sources m) ≡ bit ((occ n (keys m) == 1) && eqb_ℤ (degree n m) (pos 0))
unfolding sources degree find occ
occ-sources n [] h = refl
occ-sources n ((x, v) ∷ m) h =
    ground (arith, occ-sources n m (λ k. ground (arith, h k)), h n, text_eq_iff x n)

pub length-collect_ids :
    (ss : List DagTaskSpec) (ids : List Text) → length (collect_ids ss ids) ≤ length ss + length ids
unfolding collect_ids insert
length-collect_ids [] ids = omega arith
length-collect_ids (s ∷ ss) ids =
    ground
      (arith, length-collect_ids ss (insert s.id.value ids), length-append ids (s.id.value ∷ []))
