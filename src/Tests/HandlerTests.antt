-- ===== src/Tests/HandlerTests.antt =====
-- Requests to the server's handlers, and the store of templates over a table in memory.
use task_hub.Handlers.Workers.Proxy.Leads.{IsRight, resolve-IsRight}
use task_hub.Worker.Registry.{list_workers}
use task_hub.Worker.Selector.{is_alive}
use task_hub.Handlers.Tasks.Cancel.{get_task-cancel_task}
use task_hub.Execution.Remote.Classify.{IsAck}
use task_hub.Handlers.Workers.Acknowledged.{ack_body, worker_execute-IsAck}
use task_hub.Template.Store.View.{IsCoherent, Becomes, IsPrinted, view, store_is_map}
use task_hub.Execution.Remote.{text_member, response}
use task_hub.Db.Rows.{TaskRunRow}
use task_hub.Template.Types.{TaskTemplate, param_schema_to_json}
use task_hub.Template.Store.{create, Store, Table, IsKeyed, TemplateRow}
use task_hub.Json.{
  Json, JsonCalls, ReadsBack, null, object_of, set_field, find_field, string, assign_fields, object,
  end,
}
use task_hub.Handlers.Workers.{HandlerCalls, worker_execute}
use task_hub.Handlers.Tasks.{TaskServer, cancel_task}
use task_hub.Handlers.Login.{contains_part, starts_with, login_user, login_user-validate_token}
use task_hub.Handlers.Http.{Response, Request, respond, answered, respond_ok, thrown}
use task_hub.Execution.Context.{TextCalls}
use task_hub.Core.Task.{default_task}
use task_hub.Handlers.Workers.Proxy.{
  at_worker, Server, resolve, resolve_proxy_target, target_of_row, split_path, find_worker,
}
use task_hub.Core.Manager.{not_done, Manager, get_task, get_task_in}
use task_hub.Auth.Manager.{admin, AuthManager, validate_token}
use task_hub.Prelude.{
  Text-Eq, Text, find, List, Option, [], refl, some, text, ◌∷◌, Option-cases, if◌then◌else◌, pos,
  ◌≡◌, inl, none, text_eq, ◌=?◌, arith, text_lt, true, find-put, put, false, inr, erase, find-erase,
}
use task_hub.Tests.TemplateTests.{test_calls}
use task_hub.Tests.ExecutionTests.{test_texts, test_service, only_worker, one_worker}

abbrev node_row : Text → TaskRunRow
node_row worker = record {
  id = pos 1;
  run_id = text "r";
  logical_id = text "a";
  task_id = text "a";
  name = [];
  exec_type = [];
  exec_command = [];
  exec_params_json = [];
  deps_json = [];
  status = pos 0;
  exit_code = pos 0;
  duration_ms = pos 0;
  message = [];
  stdout_text = [];
  stderr_text = [];
  attempt = pos 1;
  max_attempts = pos 1;
  start_ts_ms = pos 0;
  end_ts_ms = pos 0;
  worker_id = worker;
  worker_host = [];
  worker_port = pos 0;
  metadata_json = text "{}";
}

-- Its metadata name the run "n".
abbrev run_texts : TextCalls
run_texts = record test_texts {
  parse = λ s. some (object_of ((text "run_id", string (text "n")) ∷ []));
}

-- The node "a" has run here, any other on the worker.
abbrev test_server : Server
test_server = record {
  now = 200;
  workers = one_worker;
  task_run = λ run node. some (node_row (if text_eq node (text "a") then [] else text "x"));
}

resolve-IsRight_example :
    IsRight run_texts test_calls test_server
      (text "r")
      (text "a/b")
      (at_worker only_worker [] (text "n"))
unfolding resolve resolve_proxy_target target_of_row split_path find_worker text_eq text_lt
    set_field find_field assign_fields is_alive list_workers
resolve-IsRight_example = resolve-IsRight run_texts test_calls test_server (text "r") (text "a/b")

-- A table with the id as its key.
abbrev rows_table : Table (List (Text × TemplateRow))
rows_table = record {
  insert = λ id row d. elim (find id d) [ none ↦ (true, put id row d) | some x ↦ (false, d) ];
  select = λ id d. find id d;
  select_is_done = λ id d. true;
  select_all = λ d. d;
  delete = λ id d. (true, erase id d);
}

rows_table-IsKeyed : IsKeyed rows_table
rows_table-IsKeyed = record {
  inserted = λ id j row d e. elim (Option-cases (find id d)) [
    | inl n ↦ ground (arith, n, find-put id j row d)
    | inr n ↦ ground (arith, n.1)
  ];
  is_new =
      λ id row d e. elim (Option-cases (find id d)) [ inl n ↦ n | inr n ↦ ground (arith, n.1) ];
  not_inserted = λ id row d e. elim (Option-cases (find id d)) [
    | inl n ↦ ground (arith, n)
    | inr n ↦ ground (arith, n.1)
  ];
  deleted = λ id j d e. find-erase id j d;
  not_deleted = λ id d e. ground (arith, e);
}

abbrev stored_template : TaskTemplate
stored_template = record {
  template_id = text "t";
  name = text "T";
  description = [];
  task_json_template = null;
  schema = [];
}

-- A printer that tells the template's JSON from the one of its schema, and a parser for the two.
abbrev printing_calls : JsonCalls
printing_calls = record test_calls { dump = λ j. elim j [ null ↦ [] | _ ↦ text "s" ] }

abbrev parse_two : Text → Option Json
parse_two s = elim s [ [] ↦ some null | x ∷ xs ↦ some (param_schema_to_json []) ]

printing_calls-ReadsBack : ReadsBack printing_calls
printing_calls-ReadsBack = record {
  reads_text = λ s. refl;
  reads_bool = λ b. refl;
  reads_int = λ i h. refl;
  reads_long = λ i h. refl;
}

abbrev empty_store : Store (List (Text × TemplateRow))
empty_store = record { cache = []; table = [] }

stored_template-IsPrinted : IsPrinted printing_calls parse_two stored_template
unfolding param_schema_to_json set_field
stored_template-IsPrinted = record { task = refl; schema = refl }

empty_store-IsCoherent : IsCoherent printing_calls parse_two rows_table empty_store
unfolding find
empty_store-IsCoherent id x e = cc

store_is_map_example :
    Becomes printing_calls parse_two rows_table
      (create printing_calls parse_two rows_table stored_template empty_store).1
      (λ j.
        if text "t" =? j
        then some stored_template
        else view printing_calls parse_two rows_table j empty_store)
unfolding create find
store_is_map_example =
    (store_is_map printing_calls parse_two rows_table printing_calls-ReadsBack rows_table-IsKeyed
      empty_store empty_store-IsCoherent stored_template (text "t") stored_template-IsPrinted).0

abbrev pub body_request : Text → Request
body_request s = record {
  path = [];
  content_type = text "application/json";
  body = s;
  params = [];
  matches = [];
}

abbrev admin_manager : AuthManager
admin_manager = record { users = (text "admin", admin) ∷ []; sessions = [] }

abbrev login_json : Json
login_json =
    object_of
      ((text "username", string (text "admin")) ∷ (text "password", string (text "123456")) ∷ [])

login_user-validate_token_example :
    let (r, a') =
      login_user test_calls (λ s. some login_json) 10 (text "k") (body_request []) admin_manager in
    (r
      ≡ respond_ok test_calls (
          object_of
            ((text "token", string (text "k")) ∷ (text "username", string (text "admin")) ∷ [])))
    × ((validate_token 20 (text "k") a').0 ≡ some admin)
unfolding contains_part starts_with text_member assign_fields set_field find_field text_eq text_lt
    find
login_user-validate_token_example =
    login_user-validate_token test_calls (λ s. some login_json) 10 20 (text "k") (text "admin")
      (body_request []) admin_manager login_json admin refl refl refl refl refl refl (omega arith)

abbrev task_server : TaskServer
task_server = record {
  service = test_service;
  stoull = λ s. some 1;
  now = text "now";
  error_of = λ s. [];
}

abbrev running_manager : Manager
running_manager = record { next_id = 2; tasks = (record default_task { id = 1 }) ∷ [] }

get_task-cancel_task_example :
    get_task 1 (cancel_task task_server not_done (1 ∷ []) running_manager).1
    ≡ some (record default_task { id = 1; cancel_flag = true; update_time = text "now" })
unfolding get_task get_task_in
get_task-cancel_task_example =
    get_task-cancel_task task_server not_done (1 ∷ []) 1 running_manager 1 refl

-- A library that prints the acknowledgement, and reads it and a request.
abbrev worker_calls : HandlerCalls
worker_calls = record {
  texts = record test_texts {
    parse = λ s. elim s [ [] ↦ some (ack_body (text "n")) | x ∷ xs ↦ some (object end) ];
  };
  json = test_calls;
  conversion_error = λ j. [];
  new_run_id = text "n";
}

abbrev given_answer : Response × Option (Json × Text)
given_answer = elim (worker_execute worker_calls (body_request (text "{}"))).0 [
  | answered r ↦ (r, (worker_execute worker_calls (body_request (text "{}"))).1)
  | thrown ↦ (record { status = pos 0; content = [] }, none)
]

worker_execute-IsAck_example :
    IsAck worker_calls.texts test_calls (response given_answer.0.status given_answer.0.content)
unfolding worker_execute respond find_field
worker_execute-IsAck_example =
    worker_execute-IsAck worker_calls (body_request (text "{}")) given_answer.0 (object end)
      (text "n") refl refl
