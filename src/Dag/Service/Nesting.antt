-- ===== src/Dag/Service/Nesting.antt =====
-- server/src/dag/dag_service.cpp and runner/task_runner.cpp: the depth of a run that a task of another
-- run starts.
use task_hub.Runner.ConfigJson.{parse_task_config_from_req}
use task_hub.Dag.Builder.{DagTaskSpec}
use task_hub.Dag.Service.{
  ServiceCalls, body_with_depth, parent_depth, specs_of_body, specs_of_items, spec_of_json,
  tasks_of_body, deps_of_task,
}
use task_hub.Json.{
  Json, Items, nil, cons, Fields, ReadsBack, IsInt32, object, integer, find_field-set_field,
}
use task_hub.Runner.Task.{TaskConfig}
use task_hub.Prelude.{
  ℤ, pos, ◌+ℤ◌, Text, text, Text-Eq, =?_refl, find, find-put_self, Option, none, some, List, [],
  ◌∷◌, All, ◌≡◌, arith, >>=-some, subst,
}

-- `dispatchExec`: the depth at which a task runs.
unfoldable pub nesting_depth_of : (Text → Option ℤ) → TaskConfig → ℤ
nesting_depth_of stoi cfg = elim (find (text "_nesting_depth") cfg.exec_params) [
  | none ↦ pos 0
  | some s ↦ elim (stoi s) [ none ↦ pos 0 | some depth ↦ depth ]
]

module _ (c : ServiceCalls) where
  -- What the service relies on: a number is read back from its text and from JSON.
  pub record ReadsNumbers : Type 0 where
    pub reads_json : ReadsBack c.json
    pub reads_stoi : (i : ℤ) → IsInt32 i → c.texts.stoi (c.texts.to_string i) ≡ some i

  -- The task at a depth, which its parameters say.
  abbrev pub IsAt : ℤ → TaskConfig → Type 0
  IsAt d cfg =
      (s : Text) × (find (text "_nesting_depth") cfg.exec_params ≡ some s)
      × (c.texts.stoi s ≡ some d)

  spec_of_json-IsAt :
      (back : ReadsNumbers) (run_id : Text) (depth : ℤ) (j : Json) (spec : DagTaskSpec)
      → IsInt32 depth
      → spec_of_json c run_id depth j ≡ some spec
      → IsAt depth spec.runner_cfg
  unfolding spec_of_json
  spec_of_json-IsAt back run_id depth j spec fits e =
      let (parsed, read, e') = >>=-some (parse_task_config_from_req c.json j) _ spec e in
      let (deps, listed, e'') = >>=-some (deps_of_task c run_id j) _ spec e' in
      let key = text "_nesting_depth" in
      let there = find-put_self key (c.texts.to_string depth) parsed.exec_params in
      (c.texts.to_string depth, ground (arith, e'', there), back.reads_stoi depth fits)

  specs_of_items-IsAt :
      (back : ReadsNumbers) (run_id : Text) (depth : ℤ) (js : Items) (specs : List DagTaskSpec)
      → IsInt32 depth
      → specs_of_items c run_id depth js ≡ some specs
      → All (λ (s : DagTaskSpec). IsAt depth s.runner_cfg) specs
  unfolding specs_of_items
  specs_of_items-IsAt back run_id depth nil [] fits e = tt
  specs_of_items-IsAt back run_id depth nil (s ∷ ss) fits e = cc
  specs_of_items-IsAt back run_id depth (cons j js) specs fits e =
      let (spec, first, e') = >>=-some (spec_of_json c run_id depth j) _ specs e in
      let (rest, more, e'') = >>=-some (specs_of_items c run_id depth js) _ specs e' in
      let same : spec ∷ rest ≡ specs = ground (arith, e'') in
      subst (λ (ss : List DagTaskSpec). All (λ (s : DagTaskSpec). IsAt depth s.runner_cfg) ss) same
        (
          spec_of_json-IsAt back run_id depth j spec fits first,
          specs_of_items-IsAt back run_id depth js rest fits more,
        )

  pub parent_depth-body_with_depth :
      (back : ReadsNumbers) (d : ℤ) (cfg : TaskConfig) (fs : Fields)
      → IsInt32 d
      → IsAt d cfg
      → parent_depth c (object (body_with_depth c cfg fs)) ≡ some d
  unfolding parent_depth body_with_depth
  parent_depth-body_with_depth back d cfg fs fits (s, there, read) =
      let key = text "_nesting_depth" in
      let kept = find_field-set_field key key (integer d) fs in
      ground (arith, there, read, kept, =?_refl key, back.reads_json.reads_int d fits)

  pub specs_of_body-IsAt :
      (back : ReadsNumbers) (run_id : Text) (d : ℤ) (b : Json) (specs : List DagTaskSpec)
      → IsInt32 (d +ℤ pos 1)
      → parent_depth c b ≡ some d
      → specs_of_body c run_id b ≡ some specs
      → All (λ (s : DagTaskSpec). IsAt (d +ℤ pos 1) s.runner_cfg) specs
  unfolding specs_of_body
  specs_of_body-IsAt back run_id d b specs fits at e =
      let (js, listed, e') = >>=-some (tasks_of_body b) _ specs e in
      let (depth, found, e'') = >>=-some (parent_depth c b) _ specs e' in
      let same : depth ≡ d = ground (arith, found, at) in
      specs_of_items-IsAt back run_id (d +ℤ pos 1) js specs fits (rw (← same) e'')
