-- ===== src/Execution/Nested/Depth.antt =====
-- server/src/execution/dag_strategy.cpp, template_strategy.cpp and server/src/dag/dag_service.cpp: runs
-- that tasks of other runs start.
use task_hub.Dag.Builder.{DagTaskSpec}
use task_hub.Dag.Service.{
  body_with_depth, parent_depth, specs_of_body, inject_run_id, array_member, inject_into_items,
  object_member,
}
use task_hub.Dag.Service.Nesting.{
  ReadsNumbers, IsAt, nesting_depth_of, specs_of_body-IsAt, parent_depth-body_with_depth,
}
use task_hub.Execution.Context.{ExecutionContext}
use task_hub.Execution.DagBody.{extract_dag_body, body}
use task_hub.Execution.Nested.{
  Readings, TemplateCalls, dag_guards, template_guards, refused_before, body_of_rendered,
  set_missing, named_body, config_of_rendered, config_with_name,
}
use task_hub.Json.{
  Fields, IsInt32, object, find_field, integer, string, Json, set_field, find_field-set_field,
  array,
}
use task_hub.Runner.Task.{TaskConfig}
use task_hub.Prelude.{
  ℕ, suc, ℤ, pos, ◌+ℤ◌, ◌+◌, ◌≤◌, ◌⊎◌, Text, Option, none, some, List, Memᴰ, ◌≡◌, arith, inl, inr,
  All-mem, ◌>>=◌, Text-Eq, text_eq, ◌<◌, All, text, ◌=?◌, >>=-some, false, Option-cases, =?_refl,
  refl, +ℤ-pos, subst, ◌∙◌, ap,
}

abbrev depth_key : Text
depth_key = text "_nesting_depth"

other_field :
    (k : Text) (v : Json) (fs : Fields)
    → (k =? depth_key) ≡ false
    → find_field depth_key (set_field k v fs) ≡ find_field depth_key fs
other_field k v fs e = ground (arith, find_field-set_field k depth_key v fs)

other_missing :
    (k : Text) (v : Json) (fs : Fields)
    → (k =? depth_key) ≡ false
    → find_field depth_key (set_missing k v fs) ≡ find_field depth_key fs
unfolding set_missing
other_missing k v fs e = elim (Option-cases (find_field k fs)) [
  | inl n ↦ ground (arith, n, other_field k v fs e)
  | inr (w, n) ↦ ground (arith, n)
]

module _ (c : TemplateCalls) where
  -- `dispatchExec`: a task at its depth.
  abbrev context_of : TaskConfig → Option ℕ → ExecutionContext
  context_of cfg deadline = record {
    config = cfg;
    deadline = deadline;
    nesting_depth = nesting_depth_of c.service.texts.stoi cfg;
  }

  -- A task passes the guards of its strategy and starts a run with these tasks, as a DAG of its own
  -- or by a template.
  pub data Starts (cfg : TaskConfig) : List DagTaskSpec → Type 0 where
    by_dag :
        (deadline : Option ℕ) (now : Readings) (run_id : Text) (fs : Fields)
        (specs : List DagTaskSpec)
        → dag_guards (context_of cfg deadline) now ≡ none
        → extract_dag_body c.service.texts cfg ≡ body fs
        → specs_of_body c.service run_id (object (body_with_depth c.service cfg fs)) ≡ some specs
        → Starts cfg specs
    by_template :
        (deadline : Option ℕ) (now : Readings) (run_id id name : Text) (fs b : Fields)
        (specs : List DagTaskSpec)
        → template_guards (context_of cfg deadline) now ≡ none
        → (body_of_rendered c (context_of cfg deadline) id name fs >>= inject_run_id run_id)
          ≡ some b
        → specs_of_body c.service run_id (object b) ≡ some specs
        → Starts cfg specs

  -- A task of a run that a task of a run … that the first task has started, so many levels down.
  pub data Below (cfg : TaskConfig) : ℕ → TaskConfig → Type 0 where
    itself : Below cfg 0 cfg
    started :
        {n : ℕ} {mid : TaskConfig} (specs : List DagTaskSpec) (spec : DagTaskSpec)
        → Below cfg n mid
        → Starts mid specs
        → Memᴰ spec specs
        → Below cfg (suc n) spec.runner_cfg

  depth_of-IsAt :
      (d : ℤ) (cfg : TaskConfig)
      → IsAt c.service d cfg
      → nesting_depth_of c.service.texts.stoi cfg ≡ d
  unfolding nesting_depth_of
  depth_of-IsAt d cfg (s, there, read) = ground (arith, there, read)

  guards_bound :
      (d : ℕ) (cfg : TaskConfig) (deadline : Option ℕ) (now : Readings) (name too_deep : Text)
      → IsAt c.service (pos d) cfg
      → refused_before name too_deep (context_of cfg deadline) now ≡ none
      → d < 10
  unfolding refused_before
  guards_bound d cfg deadline now name too_deep at e = ground (arith, depth_of-IsAt (pos d) cfg at)

  depth_of_body :
      (ctx : ExecutionContext) (id name : Text) (fs b : Fields)
      → body_of_rendered c ctx id name fs ≡ some b
      → find_field depth_key b ≡ some (integer ctx.nesting_depth)
  unfolding body_of_rendered named_body text_eq
  depth_of_body ctx id name fs b e =
      let config = config_of_rendered c ctx id fs in
      let named = named_body c ctx id name fs in
      let (titled, read, e') = >>=-some (config_with_name c.service.json name config named) _ b e in
      let inner = set_field (text "config") (object config) fs in
      let deep = set_field depth_key (integer ctx.nesting_depth) inner in
      ground (
        arith,
        e',
        other_field (text "config") (object titled) named refl,
        other_missing (text "name") (string name) deep refl,
        find_field-set_field depth_key depth_key (integer ctx.nesting_depth) inner,
        =?_refl depth_key,
      )

  depth_of_injected :
      (run_id : Text) (fs b : Fields)
      → inject_run_id run_id fs ≡ some b
      → find_field depth_key b ≡ find_field depth_key fs
  unfolding inject_run_id text_eq
  depth_of_injected run_id fs b e = elim (Option-cases (array_member (text "tasks") (object fs))) [
    | inr (js, n) ↦ elim (Option-cases (inject_into_items run_id js)) [
      | inl m ↦ ground (arith, n, m)
      | inr (items, m) ↦ ground (arith, n, m, other_field (text "tasks") (array items) fs refl)
    ]
    | inl n ↦ elim (Option-cases (object_member (text "task") (object fs))) [
      | inr (ts, m) ↦ ground (
        arith,
        n,
        m,
        other_field (text "task") (object (set_field (text "run_id") (string run_id) ts)) fs refl,
      )
      | inl m ↦ ground (arith, n, m, other_field (text "run_id") (string run_id) fs refl)
    ]
  ]

  next : (d : ℕ) → pos d +ℤ pos 1 ≡ pos (suc d)
  next d = +ℤ-pos d 1 ∙ ap pos (omega arith)

  fits : (d : ℕ) → d < 10 → IsInt32 (pos d +ℤ pos 1)
  fits d low = rw (next d) (omega arith, omega arith)

  -- The depth that the template strategy writes is the one that the service reads.
  parent_lem :
      (back : ReadsNumbers c.service) (d : ℕ) (cfg : TaskConfig) (b : Fields)
      → d < 10
      → IsAt c.service (pos d) cfg
      → find_field depth_key b ≡ some (integer (nesting_depth_of c.service.texts.stoi cfg))
      → parent_depth c.service (object b) ≡ some (pos d)
  unfolding parent_depth
  parent_lem back d cfg b low at e = ground (
    arith,
    e,
    depth_of-IsAt (pos d) cfg at,
    back.reads_json.reads_int (pos d) (omega arith, omega arith),
  )

  one_level_down :
      (back : ReadsNumbers c.service) (d : ℕ) (cfg : TaskConfig) (specs : List DagTaskSpec)
      → IsAt c.service (pos d) cfg
      → Starts cfg specs
      → (d < 10) × All (λ (s : DagTaskSpec). IsAt c.service (pos (suc d)) s.runner_cfg) specs
  one_level_down back d cfg specs at (by_dag deadline now run_id fs _ go read made) =
      let low = guards_bound d cfg deadline now (text "DagExecution") (text "DAG") at go in
      (
        low,
        subst (λ (i : ℤ). All (λ (s : DagTaskSpec). IsAt c.service i s.runner_cfg) specs) (next d)
            (specs_of_body-IsAt c.service back run_id (pos d)
              (object (body_with_depth c.service cfg fs)) specs (fits d low)
              (parent_depth-body_with_depth c.service back (pos d) cfg fs
                (omega (arith, low), omega arith) at)
              made),
      )
  one_level_down back d cfg specs at (by_template deadline now run_id id name fs b _ go made done) =
      let low =
        guards_bound d cfg deadline now (text "TemplateExecution") (text "TemplateExecution:") at
          go in
      let (b', bare, injected) =
        >>=-some (body_of_rendered c (context_of cfg deadline) id name fs) _ b made in
      let there = depth_of_body (context_of cfg deadline) id name fs b' bare in
      let kept = depth_of_injected run_id b' b injected in
      (
        low,
        subst (λ (i : ℤ). All (λ (s : DagTaskSpec). IsAt c.service i s.runner_cfg) specs) (next d)
            (specs_of_body-IsAt c.service back run_id (pos d) (object b) specs (fits d low)
              (parent_lem back d cfg b low at (kept ∙ there)) done),
      )

  -- Below a task whose parameters give its depth as a natural number, the tasks of the runs that DAG
  -- tasks and template tasks have started on one server, one within the other, are at depth ten at
  -- most, and the parameters of each give its depth, if numbers are read back from texts and from
  -- JSON. A run that a worker starts for a dispatch is not among them.
  pub nesting_limit :
      (back : ReadsNumbers c.service) (d : ℕ) (cfg : TaskConfig) (n : ℕ) (child : TaskConfig)
      → IsAt c.service (pos d) cfg
      → Below cfg n child
      → IsAt c.service (pos (d + n)) child × ((n ≡ 0) ⊎ (d + n ≤ 10))
  nesting_limit back d cfg n child at itself =
      (subst (λ (k : ℕ). IsAt c.service (pos k) cfg) (omega arith) at, inl refl)
  nesting_limit back d cfg n child at (started {n = n'} {mid = mid} specs spec above starts mem) =
      let (here, _) = nesting_limit back d cfg n' mid at above in
      let (low, below) = one_level_down back (d + n') mid specs here starts in
      (
        subst (λ (k : ℕ). IsAt c.service (pos k) child) (omega arith)
            (All-mem (λ (s : DagTaskSpec). IsAt c.service (pos (suc (d + n'))) s.runner_cfg) specs
              below mem),
        inr (omega (arith, low)),
      )
