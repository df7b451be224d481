-- ===== src/Dag/Validate/Correct.antt =====
-- `validate` decides whether the dependencies admit an order of execution.
use native.Mathlib.Decide.{dec_le}
use task_hub.Prelude.{
  ◌==◌, ◌&&◌, Text-Eq, ◌≤◌, Text, List, [], ◌∷◌, ◌≡◌, refl, arith, Memᴰ, none, map, length, pos,
  true, subst, ◌∙◌, inl, inr, sym, ◌↔◌, bit,
}
use task_hub.Runner.Task.{TaskId}
use task_hub.Dag.Builder.{
  DagTaskSpec, collect_ids, first_missing, zero_indegree, add_all_edges, sources, Edges, Indegree,
  degree, edges_of, DagBuilder,
}
use task_hub.Dag.Validate.{validate, visited_count, kahn_fuel}
use task_hub.Dag.Validate.Occurrences.{
  occ, occ-nil, occ-mem, mem-occ, contains-occ, length-le_of_occ, occ-eq_of_length,
}
use task_hub.Dag.Validate.Tables.{
  all_pairs, pairs, open_deps, add_all_edges-pairs, degree-add_pairs, occ-edges_of, degree-nil,
  edges_of-nil, zero-open_deps,
}
use task_hub.Dag.Validate.Keys.{
  keys, occ-keys-add_pairs, spec-ids, degree-zero, occ-keys-zero, occ-ids-le, length-collect_ids,
  occ-sources, ids-spec,
}
use task_hub.Dag.Validate.Kahn.{Inv, Ordered, Finished, kahn-Finished, sources-Ordered}
use task_hub.Dag.Validate.Pairs.{pairs-mem, mem-pairs, first_missing-none}

-- Behind each task in the list stand all the tasks that it depends on.
abbrev pub DepsBehind : List DagTaskSpec → List Text → Type 0
DepsBehind specs [] = Unit {0}
DepsBehind specs (x ∷ T) =
    ((s : DagTaskSpec) (d : TaskId)
      → Memᴰ s specs
      → s.id.value ≡ x
      → Memᴰ d s.deps
      → Memᴰ d.value T)
    × DepsBehind specs T

-- An order of execution, last task first: of all the tasks, of nothing else, dependencies earlier.
pub record IsTopologicalOrder (specs : List DagTaskSpec) (T : List Text) : Type 0 where
  pub complete : (s : DagTaskSpec) → Memᴰ s specs → Memᴰ s.id.value T
  pub sound : (x : Text) → Memᴰ x T → Memᴰ x (map (λ (s : DagTaskSpec). s.id.value) specs)
  pub ordered : DepsBehind specs T

module _ (specs : List DagTaskSpec) where
  abbrev ids : List Text
  ids = collect_ids specs []

  abbrev tables : Edges × Indegree
  tables = add_all_edges specs ([], zero_indegree specs [])

  target_known : (d x : Text) → 1 ≤ pairs (all_pairs specs) d x → 1 ≤ occ x ids
  target_known d x h =
      let r = pairs-mem d x specs h in
      subst (λ (y : Text). 1 ≤ occ y ids) r.spec_value (spec-ids r.spec specs [] r.spec_mem)

  keys-ids : (n : Text) → occ n (keys tables.1) ≡ occ n ids
  keys-ids n = rw (add_all_edges-pairs specs ([], zero_indegree specs [])) (
      occ-keys-add_pairs (all_pairs specs) [] (zero_indegree specs [])
        (λ d x h. rw (occ-keys-zero x specs [] [] refl) (target_known d x h)) n
      ∙ occ-keys-zero n specs [] [] refl)

  edges_pairs : (d n : Text) → occ n (edges_of d tables.0) ≡ pairs (all_pairs specs) d n
  edges_pairs d n = rw (add_all_edges-pairs specs ([], zero_indegree specs [])) (
      ground (
        arith,
        occ-edges_of (all_pairs specs) [] (zero_indegree specs []) d n,
        edges_of-nil d,
        occ-nil n,
      ))

  degree_open : (n : Text) → degree n tables.1 ≡ pos (open_deps (all_pairs specs) [] n)
  degree_open n = rw (add_all_edges-pairs specs ([], zero_indegree specs [])) (
      ground (
        arith,
        degree-add_pairs (all_pairs specs) [] (zero_indegree specs []) n 0
            (degree-zero n specs [] (degree-nil n)),
      ))

  source_count :
      (n : Text)
      → occ n (sources tables.1) ≡ bit ((occ n ids == 1) && (open_deps (all_pairs specs) [] n == 0))
  source_count n = ground (
    arith,
    keys-ids n,
    degree_open n,
    occ-sources n tables.1
        (λ k. ground (arith, keys-ids k, occ-ids-le k specs [] (omega (arith, occ-nil k)))),
  )

  start :
      Inv
        (all_pairs specs)
        ids
        []
        (sources tables.1)
        (sources tables.1)
        tables.1
        (open_deps (all_pairs specs) [])
  start = record {
    degrees = degree_open;
    queued = λ n. omega (arith, occ-nil n);
    once = λ n. ground (arith, source_count n);
    ready =
        λ n k z. ground (arith, source_count n, occ-ids-le n specs [] (omega (arith, occ-nil n)));
    closed = λ n k. ground (arith, source_count n);
    ordered = sources-Ordered (all_pairs specs) _ (λ x k. ground (arith, source_count x));
  }

  ids-le : length ids ≤ length specs
  ids-le = omega (arith, length-collect_ids specs [])

  pub search-Finished : Finished (all_pairs specs) ids (visited_count specs)
  unfolding visited_count kahn_fuel
  search-Finished =
      kahn-Finished _ (all_pairs specs) ids [] _ _ tables.0 tables.1 edges_pairs target_known start
        (omega (arith, ids-le))

-- A description for each value that one of them has.
spec_of_value :
    (x : Text) (ss : List DagTaskSpec)
    → Memᴰ x (map (λ (s : DagTaskSpec). s.id.value) ss)
    → (s : DagTaskSpec) × Memᴰ s ss × (s.id.value ≡ x)
spec_of_value x [] m = elim m [ ]
spec_of_value x (s ∷ ss) (Memᴰ.head e) = (s, Memᴰ.head refl, sym e)
spec_of_value x (s ∷ ss) (Memᴰ.tail m) = let (r, k, e) = spec_of_value x ss m in (r, Memᴰ.tail k, e)

Ordered-DepsBehind :
    (specs : List DagTaskSpec) (T : List Text) → Ordered (all_pairs specs) T → DepsBehind specs T
Ordered-DepsBehind specs [] h = tt
Ordered-DepsBehind specs (x ∷ T) h = (
  λ s d m e k. mem-occ d.value T (
      h.0 d.value
        (subst (λ (y : Text). 1 ≤ pairs (all_pairs specs) d.value y) e (mem-pairs s d specs m k))),
  Ordered-DepsBehind specs T h.1,
)

module _ (specs : List DagTaskSpec)
    (f : Finished (all_pairs specs) (collect_ids specs []) (visited_count specs)) where
  visited_occ : (n : Text) → occ n f.visited ≤ occ n (collect_ids specs [])
  visited_occ n = ground (arith, f.inv.queued n, f.inv.once n, f.inv.closed n, occ-nil n)

  all_visited :
      visited_count specs ≡ length (collect_ids specs []) → IsTopologicalOrder specs f.seen
  all_visited e = record {
    complete = λ s m. mem-occ s.id.value f.seen (
        omega (
          arith,
          f.inv.queued s.id.value,
          spec-ids s specs [] m,
          occ-eq_of_length f.visited (collect_ids specs []) visited_occ (omega (arith, f.counted))
              s.id.value,
        ));
    sound = λ x m. elim (ids-spec x specs [] (f.inv.closed x (occ-mem x f.seen m)).1) [
      | inl k ↦ absurd (omega (arith, occ-nil x))
      | inr k ↦ k
    ];
    ordered = Ordered-DepsBehind specs f.seen f.inv.ordered;
  }

  -- What an order lists, up to any point, has been visited.
  order_visited :
      (T : List Text)
      → DepsBehind specs T
      → ((x : Text) → Memᴰ x T → 1 ≤ occ x (collect_ids specs []))
      → (x : Text) → Memᴰ x T
      → 1 ≤ occ x f.visited
  order_visited [] b known x m = elim m [ ]
  order_visited (y ∷ T) b known x (Memᴰ.tail m) =
      order_visited T b.1 (λ z k. known z (Memᴰ.tail k)) x m
  order_visited (y ∷ T) b known x (Memᴰ.head e) =
      let free : open_deps (all_pairs specs) f.visited x ≡ 0 =
        zero-open_deps (all_pairs specs) f.visited x (λ d k.
          let r = pairs-mem d x specs k in
          order_visited T b.1 (λ z j. known z (Memᴰ.tail j)) d
            (subst (λ (z : Text). Memᴰ z T) r.dep_value
              (b.0 r.spec r.dep r.spec_mem (r.spec_value ∙ e) r.dep_mem))) in
      omega (arith, f.inv.ready x (known x (Memᴰ.head e)) free, f.inv.queued x, occ-nil x)

  order_counts :
      (T : List Text)
      → IsTopologicalOrder specs T
      → visited_count specs ≡ length (collect_ids specs [])
  order_counts T o = omega (
    arith,
    f.counted,
    length-le_of_occ f.visited (collect_ids specs []) visited_occ,
    length-le_of_occ (collect_ids specs []) f.visited ids_visited,
  )
    where
      known :
          (x : Text)
          → Memᴰ x (map (λ (s : DagTaskSpec). s.id.value) specs)
          → 1 ≤ occ x (collect_ids specs [])
      known x m =
          let (s, k, e) = spec_of_value x specs m in
          subst (λ (y : Text). 1 ≤ occ y (collect_ids specs [])) e (spec-ids s specs [] k)

      listed : (x : Text) → 1 ≤ occ x (collect_ids specs []) → Memᴰ x T
      listed x k = elim (ids-spec x specs [] k) [
        | inl j ↦ absurd (omega (arith, occ-nil x))
        | inr m ↦
            let (s, j, e) = spec_of_value x specs m in
            subst (λ (y : Text). Memᴰ y T) e (o.complete s j)
      ]

      ids_visited : (n : Text) → occ n (collect_ids specs []) ≤ occ n f.visited
      ids_visited n = elim (dec_le 1 (occ n (collect_ids specs []))) [
        | yes k ↦ omega (
          arith,
          occ-ids-le n specs [] (omega (arith, occ-nil n)),
          order_visited T o.ordered (λ x m. known x (o.sound x m)) n (listed n k),
        )
        | no k ↦ omega arith
      ]

deps_listed :
    (specs : List DagTaskSpec) (T : List Text) (s : DagTaskSpec) (d : TaskId)
    → DepsBehind specs T
    → Memᴰ s specs
    → Memᴰ d s.deps
    → Memᴰ s.id.value T
    → Memᴰ d.value T
deps_listed specs [] s d b m k h = elim h [ ]
deps_listed specs (x ∷ T) s d b m k (Memᴰ.head e) = Memᴰ.tail (b.0 s d m e k)
deps_listed specs (x ∷ T) s d b m k (Memᴰ.tail h) = Memᴰ.tail (deps_listed specs T s d b.1 m k h)

no_missing :
    (specs : List DagTaskSpec) (T : List Text)
    → IsTopologicalOrder specs T
    → first_missing specs (collect_ids specs []) ≡ none
no_missing specs T o = first_missing-none specs (collect_ids specs []) (λ s d m k.
    let listed = deps_listed specs T s d o.ordered m k (o.complete s m) in
    let (r, j, e) = spec_of_value d.value specs (o.sound d.value listed) in
    let known : 1 ≤ occ d.value (collect_ids specs []) =
      subst (λ (y : Text). 1 ≤ occ y (collect_ids specs [])) e (spec-ids r specs [] j) in
    ground (arith, contains-occ d.value (collect_ids specs [])))

-- `validate` accepts exactly the descriptions that can be put in an order in which each task comes
-- after all the tasks that it depends on.
pub validate-ok_iff :
    (specs : DagBuilder)
    → ((validate specs).ok ≡ true) ↔ ((T : List Text) × IsTopologicalOrder specs T)
unfolding validate
validate-ok_iff specs = (
  accepted,
  λ (T, o). ground (arith, no_missing specs T o, order_counts specs (search-Finished specs) T o),
)
  where
    accepted : (validate specs).ok ≡ true → (T : List Text) × IsTopologicalOrder specs T
    accepted h = let f = search-Finished specs in (f.seen, all_visited specs f (ground arith))
