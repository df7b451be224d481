-- ===== src/Execution/Local.antt =====
-- server/src/execution/local_strategy.cpp, execution_registry.cpp, server/src/runner/local_task_registry.cpp
-- and the dispatch of runner/task_runner.cpp: tasks that run in this process, and the strategies.
use task_hub.Dag.Service.Nesting.{nesting_depth_of}
use task_hub.Execution.Context.{ExecutionContext, get, failed_with, canceled_with}
use task_hub.Runner.Retry.{Execution, returned, thrown, thrown_unknown}
use task_hub.Runner.Task.{
  TaskConfig, TaskResult, TaskStatus, TaskExecType, default_result, local, remote, script,
  http_call, shell, dag, template,
}
use task_hub.Prelude.{
  ℕ, ℤ, pos, Text, text, Text-Eq, Eq, ◌-◌, ◌/◌, ◌==◌, ==→eq, ◌≡◌, ◌↔◌, Bool, true, Option, none,
  some, List, find, put, is_empty, if◌then◌else◌, arith, refl, sym, ap, ◌∙◌, find-put,
}

-- The texts of these are not ASCII.
pub data LocalError : Type 0 where
  no_key : LocalError
  not_registered : Text → LocalError
  canceled_before : LocalError
  task_threw : Text → LocalError
  task_threw_unknown timed_out : LocalError

-- `LocalTaskRegistry`: a key has the function that was registered last.
abbrev pub LocalTasks : Type 0
LocalTasks = List (Text × (ExecutionContext → Execution))

unfoldable pub register_task : Text → (ExecutionContext → Execution) → LocalTasks → LocalTasks
register_task key f tasks = put key f tasks

unfoldable pub find_task : Text → LocalTasks → Option (ExecutionContext → Execution)
find_task key tasks = find key tasks

-- What a local task meets: the cancel flag before it, whether the watchdog has seen the deadline pass
-- before the task ended, and the times of its start and of its end.
pub record LocalReadings : Type 0 where
  pub is_canceled : Bool
  pub saw_timeout : Bool
  pub start_at : ℕ
  pub end_at : ℕ

module _ (message : LocalError → Text) where
  abbrev pub local_result : Execution → TaskResult
  local_result (returned r) = r
  local_result (thrown what) = failed_with (message (task_threw what))
  local_result thrown_unknown = failed_with (message task_threw_unknown)

  -- Only a task with a deadline has a watchdog.
  abbrev pub watched : ExecutionContext → LocalReadings → TaskResult → TaskResult
  watched ctx now r = elim ctx.deadline [
    | none ↦ r
    | some d ↦
        if now.saw_timeout
        then record default_result { status = TaskStatus.timeout; message = message timed_out }
        else r
  ]

  unfoldable pub execute_local : LocalTasks → ExecutionContext → LocalReadings → TaskResult
  execute_local tasks ctx now =
      let own =
        if is_empty ctx.config.exec_command then ctx.config.id.value else ctx.config.exec_command in
      let key = get (text "handler") own ctx in
      if is_empty key then failed_with (message no_key) else elim (find_task key tasks) [
        | none ↦ failed_with (message (not_registered key))
        | some f ↦
            if now.is_canceled
            then canceled_with (message canceled_before)
            else record (watched ctx now (local_result (f ctx))) {
              duration_ms = pos ((now.end_at - now.start_at) / 1000000);
            }
      ]

unfoldable pub exec_type_to_int : TaskExecType → ℕ
exec_type_to_int local = 0
exec_type_to_int remote = 1
exec_type_to_int script = 2
exec_type_to_int http_call = 3
exec_type_to_int shell = 4
exec_type_to_int dag = 5
exec_type_to_int template = 6

exec_type_of_int : ℕ → TaskExecType
exec_type_of_int n =
    if n == 0
    then local
    else if n == 1
    then remote
    else if n == 2
    then script
    else if n == 3
    then http_call
    else if n == 4
    then shell
    else if n == 5
    then dag
    else template

exec_type_of_int-exec_type_to_int : (t : TaskExecType) → exec_type_of_int (exec_type_to_int t) ≡ t
unfolding exec_type_of_int exec_type_to_int
exec_type_of_int-exec_type_to_int local = refl
exec_type_of_int-exec_type_to_int _ = refl

pub exec_type_eq_iff :
    (a b : TaskExecType) → ((exec_type_to_int a == exec_type_to_int b) ≡ true) ↔ (a ≡ b)
exec_type_eq_iff a b = (
  λ e.
      sym (exec_type_of_int-exec_type_to_int a)
      ∙ ap exec_type_of_int (==→eq (exec_type_to_int a) (exec_type_to_int b) e)
      ∙ exec_type_of_int-exec_type_to_int b,
  λ e. rw e (ground arith),
)

instance abbrev pub TaskExecType-Eq : Eq TaskExecType
TaskExecType-Eq = record {
  beq = λ a b. exec_type_to_int a == exec_type_to_int b;
  beq_iff = exec_type_eq_iff;
}

-- `ExecutionStrategyRegistry`, with strategies of any type.
module _ {S : Type 0} where
  unfoldable pub register_strategy :
      TaskExecType → S → List (TaskExecType × S) → List (TaskExecType × S)
  register_strategy type s m = put type s m

  unfoldable pub get_strategy : TaskExecType → List (TaskExecType × S) → Option S
  get_strategy type m = find type m

-- The strategies of the server.
pub data StrategyKind : Type 0 where
  local_strategy shell_strategy http_strategy script_strategy remote_strategy : StrategyKind
  dag_strategy template_strategy : StrategyKind

unfoldable pub register_default_execution_strategies :
    List (TaskExecType × StrategyKind) → List (TaskExecType × StrategyKind)
register_default_execution_strategies m = register_strategy template template_strategy (
    register_strategy dag dag_strategy (
      register_strategy remote remote_strategy (
        register_strategy script script_strategy (
          register_strategy http_call http_strategy
            (register_strategy shell shell_strategy (register_strategy local local_strategy m))))))

-- `dispatchExec`: the strategy of the task's type runs it in a context with the depth that its
-- parameters give.
unfoldable pub dispatch_exec :
    (Text → Option ℤ)
    → (TaskExecType → Text)
    → List (TaskExecType × (ExecutionContext → Execution))
    → TaskConfig
    → Option ℕ
    → Execution
dispatch_exec stoi missing strategies cfg deadline = elim (get_strategy cfg.exec_type strategies) [
  | none ↦ returned (failed_with (missing cfg.exec_type))
  | some run ↦
      run (record { config = cfg; deadline = deadline; nesting_depth = nesting_depth_of stoi cfg })
]

abbrev pub strategy_of : TaskExecType → StrategyKind
strategy_of local = local_strategy
strategy_of remote = remote_strategy
strategy_of script = script_strategy
strategy_of http_call = http_strategy
strategy_of shell = shell_strategy
strategy_of dag = dag_strategy
strategy_of template = template_strategy

-- Whatever has been registered before, and when the strategies of the server are registered, every type
-- of task has the strategy of its own name.
pub get_strategy-register_default_execution_strategies :
    (type : TaskExecType) (m : List (TaskExecType × StrategyKind))
    → get_strategy type (register_default_execution_strategies m) ≡ some (strategy_of type)
unfolding get_strategy register_default_execution_strategies register_strategy exec_type_to_int
get_strategy-register_default_execution_strategies type m =
    let a = put local local_strategy m in
    let b = put shell shell_strategy a in
    let c = put http_call http_strategy b in
    let d = put script script_strategy c in
    let e = put remote remote_strategy d in
    let f = put dag dag_strategy e in
    ground (
      arith,
      find-put template type template_strategy f,
      find-put dag type dag_strategy e,
      find-put remote type remote_strategy d,
      find-put script type script_strategy c,
      find-put http_call type http_strategy b,
      find-put shell type shell_strategy a,
      find-put local type local_strategy m,
    )
