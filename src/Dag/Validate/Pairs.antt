-- ===== src/Dag/Validate/Pairs.antt =====
-- The flat list of dependencies against the descriptions it was made from.
use native.Mathlib.Decide.{dec_le}
use task_hub.Prelude.{
  Text-Eq, text_eq_iff, ◌+◌, ◌≤◌, Text, List, [], ◌∷◌, ◌++◌, ◌≡◌, refl, arith, Memᴰ, none, =?_refl,
  Bool-cases, subst, true, ◌=?◌, ◌&&◌, inl, text_eq_iff, inr,
}
use task_hub.Runner.Task.{TaskId}
use task_hub.Dag.Builder.{DagTaskSpec, contains, missing_in, first_missing}
use task_hub.Dag.Validate.Tables.{all_pairs, dep_pairs, pairs}

pairs-append :
    (ps qs : List (Text × Text)) (d x : Text) → pairs (ps ++ qs) d x ≡ pairs ps d x + pairs qs d x
unfolding pairs
pairs-append [] qs d x = omega arith
pairs-append ((e, y) ∷ ps) qs d x = omega (arith, pairs-append ps qs d x)

mem-dep_pairs :
    (t : TaskId) (x : Text) (ds : List TaskId) → Memᴰ t ds → 1 ≤ pairs (dep_pairs x ds) t.value x
unfolding pairs
mem-dep_pairs t x [] m = elim m [ ]
mem-dep_pairs t x (d ∷ ds) (Memᴰ.head e) = rw e (ground (arith, =?_refl d.value, =?_refl x))
mem-dep_pairs t x (d ∷ ds) (Memᴰ.tail m) = omega (arith, mem-dep_pairs t x ds m)

pub mem-pairs :
    (s : DagTaskSpec) (t : TaskId) (ss : List DagTaskSpec)
    → Memᴰ s ss
    → Memᴰ t s.deps
    → 1 ≤ pairs (all_pairs ss) t.value s.id.value
mem-pairs s t [] m k = elim m [ ]
mem-pairs s t (r ∷ ss) (Memᴰ.head e) k = omega (
  arith,
  pairs-append (dep_pairs r.id.value r.deps) (all_pairs ss) t.value s.id.value,
  subst (λ (u : DagTaskSpec). 1 ≤ pairs (dep_pairs u.id.value u.deps) t.value s.id.value) e
      (mem-dep_pairs t s.id.value s.deps k),
)
mem-pairs s t (r ∷ ss) (Memᴰ.tail m) k = omega (
  arith,
  pairs-append (dep_pairs r.id.value r.deps) (all_pairs ss) t.value s.id.value,
  mem-pairs s t ss m k,
)

-- A dependency of one of the descriptions, with its two ends.
pub record Dependency (ss : List DagTaskSpec) (d x : Text) : Type 0 where
  pub spec : DagTaskSpec
  pub dep : TaskId
  pub spec_mem : Memᴰ spec ss
  pub dep_mem : Memᴰ dep spec.deps
  pub dep_value : dep.value ≡ d
  pub spec_value : spec.id.value ≡ x

dep_pairs-mem :
    (d x y : Text) (ds : List TaskId)
    → 1 ≤ pairs (dep_pairs y ds) d x
    → (t : TaskId) × Memᴰ t ds × (t.value ≡ d) × (y ≡ x)
unfolding pairs
dep_pairs-mem d x y [] h = absurd (omega arith)
dep_pairs-mem d x y (t ∷ ds) h = elim (Bool-cases ((t.value =? d) && (y =? x))) [
  | inl e ↦
      (t, Memᴰ.head refl, ground (arith, text_eq_iff t.value d), ground (arith, text_eq_iff y x))
  | inr e ↦ let (u, m, p, q) = dep_pairs-mem d x y ds (ground arith) in (u, Memᴰ.tail m, p, q)
]

pub pairs-mem :
    (d x : Text) (ss : List DagTaskSpec) → 1 ≤ pairs (all_pairs ss) d x → Dependency ss d x
pairs-mem d x [] h = absurd (unfold pairs in omega arith)
pairs-mem d x (s ∷ ss) h = elim (dec_le 1 (pairs (dep_pairs s.id.value s.deps) d x)) [
  | yes k ↦
      let (t, m, p, q) = dep_pairs-mem d x s.id.value s.deps k in
      record {
        spec = s;
        dep = t;
        spec_mem = Memᴰ.head refl;
        dep_mem = m;
        dep_value = p;
        spec_value = q;
      }
  | no k ↦
      let r =
        pairs-mem d x ss
          (omega (arith, pairs-append (dep_pairs s.id.value s.deps) (all_pairs ss) d x)) in
      record {
        spec = r.spec;
        dep = r.dep;
        spec_mem = Memᴰ.tail r.spec_mem;
        dep_mem = r.dep_mem;
        dep_value = r.dep_value;
        spec_value = r.spec_value;
      }
]

missing_in-none :
    (ds : List TaskId) (ids : List Text)
    → ((d : TaskId) → Memᴰ d ds → contains d.value ids ≡ true)
    → missing_in ds ids ≡ none
unfolding missing_in
missing_in-none [] ids h = refl
missing_in-none (d ∷ ds) ids h =
    ground (arith, h d (Memᴰ.head refl), missing_in-none ds ids (λ t m. h t (Memᴰ.tail m)))

pub first_missing-none :
    (ss : List DagTaskSpec) (ids : List Text)
    → ((s : DagTaskSpec) (d : TaskId) → Memᴰ s ss → Memᴰ d s.deps → contains d.value ids ≡ true)
    → first_missing ss ids ≡ none
unfolding first_missing
first_missing-none [] ids h = refl
first_missing-none (s ∷ ss) ids h =
    rw (missing_in-none s.deps ids (λ d m. h s d (Memᴰ.head refl) m), first_missing)
      (first_missing-none ss ids (λ r d m k. h r d (Memᴰ.tail m) k))
