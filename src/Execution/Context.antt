-- ===== src/Execution/Context.antt =====
-- server/src/runner/task_config.h: the context in which a strategy runs a task. The readings of the
-- cancel flag and of the clock are arguments, since each call has its own.
use task_hub.Runner.Task.{TaskConfig, TaskResult, TaskStatus, default_result}
use task_hub.Prelude.{
  ℕ, ℤ, pos, Text, text, Text-Eq, ◌+ℤ◌, ◌||◌, Bool, false, Option, none, some, List, find, leb,
  is_empty, text_eq, if◌then◌else◌, [],
}
use task_hub.Json.{Json}

-- The conversions of the standard library and the parser of the JSON library. `none` is an
-- exception, and `parse_error` is the text of the parser's.
pub record TextCalls : Type 0 where
  pub to_string : ℤ → Text
  pub stoi : Text → Option ℤ
  pub parse : Text → Option Json
  pub parse_error : Text → Text

unfoldable pub get_param : Text → Text → List (Text × Text) → Text
get_param key default ps = elim (find key ps) [ none ↦ default | some v ↦ v ]

abbrev pub max_nesting_depth : ℤ
max_nesting_depth = pos 10

-- Without a deadline (`time_point::max()`), nothing times out. Times are in nanoseconds.
pub record ExecutionContext : Type 0 where
  pub config : TaskConfig
  pub deadline : Option ℕ
  pub nesting_depth : ℤ

unfoldable pub get : Text → Text → ExecutionContext → Text
get key default ctx = get_param key default ctx.config.exec_params

unfoldable pub is_timeout : ℕ → ExecutionContext → Bool
is_timeout now ctx = elim ctx.deadline [ none ↦ false | some d ↦ leb d now ]

unfoldable pub with_incremented_depth : ExecutionContext → ExecutionContext
with_incremented_depth ctx = record ctx { nesting_depth = ctx.nesting_depth +ℤ pos 1 }

unfoldable pub get_bool : Text → Bool → ExecutionContext → Bool
get_bool key default ctx =
    let s = get key [] ctx in
    if is_empty s
    then default
    else text_eq s (text "true") || text_eq s (text "1") || text_eq s (text "yes")

abbrev pub succeeded : Text → TaskResult
succeeded msg = record default_result { status = TaskStatus.success; message = msg }

abbrev pub failed_with : Text → TaskResult
failed_with msg = record default_result { status = TaskStatus.failed; message = msg }

abbrev pub canceled_with : Text → TaskResult
canceled_with msg = record default_result { status = TaskStatus.canceled; message = msg }

abbrev pub timed_out_with : Text → TaskResult
timed_out_with msg = record default_result { status = TaskStatus.timeout; message = msg }

module _ (t : TextCalls) where
  unfoldable pub get_int : Text → ℤ → ExecutionContext → ℤ
  get_int key default ctx =
      let s = get key [] ctx in
      if is_empty s then default else elim (t.stoi s) [ none ↦ default | some i ↦ i ]
