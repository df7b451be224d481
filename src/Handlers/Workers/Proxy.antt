-- ===== src/Handlers/Workers/Proxy.antt =====
-- server/src/handlers/worker_handler.cpp: how a query for a nested run finds the server that has it.
-- A path of logical ids, such as `A/B/C`, leads from the run of a request through the runs that the
-- nodes have started, here or on a worker.
use task_hub.Db.Rows.{TaskRunRow}
use task_hub.Execution.Context.{TextCalls}
use task_hub.Handlers.Http.{
  Request, Response, Answer, answered, thrown, has_param, param_value, emplace_param, respond_error,
}
use task_hub.Json.{JsonCalls, member}
use task_hub.Worker.Registry.{list_workers}
use task_hub.Worker.Selector.{WorkerInfo, Workers, is_alive, contains_text}
use task_hub.Prelude.{
  ℕ, zero, suc, pos, Text, text, Text-Eq, ◌++◌, ◌=?◌, ◌==◌, Option, none, some, List, [], ◌∷◌,
  length, is_empty, if◌then◌else◌, ◌&&◌,
}
pub mod Leads

pub data Target : Type 0 where
  local : Text → Text → Target  -- the path that is left, and the run
  remote : WorkerInfo → Text → Text → Target
  refused : Text → Target
  broken : Target  -- an exception

unfoldable pub find_worker : Text → List WorkerInfo → Option WorkerInfo
find_worker id [] = none
find_worker id (w ∷ ws) = let rest = find_worker id ws in if w.id =? id then some w else rest

-- The text before the first slash, and after it.
unfoldable pub split_path : Text → Text × Text
split_path [] = ([], [])
split_path (c ∷ cs) =
    let (head, tail) = split_path cs in if c == b'/' then ([], cs) else (c ∷ head, tail)

-- What the handlers read: the time, the workers, and the rows of the database.
pub record Server : Type 0 where
  pub now : ℕ
  pub workers : Workers
  pub task_run : Text → Text → Option TaskRunRow

-- How the search ends: with a query of a run of this server, with a worker to ask, or with an error.
pub data Found : Type 0 where
  here : Text → Found
  at_worker : WorkerInfo → Text → Text → Found
  not_there : Text → Found
  failed : Found
  out_of_fuel : Found

-- Enough for every path: each round takes a node off it.
abbrev pub fuel_for : Text → ℕ
fuel_for path = suc (length path)

module _ (t : TextCalls) (c : JsonCalls) (s : Server) where
  -- The run that a node has started is in its metadata; a node without a worker ran here.
  unfoldable pub target_of_row : Text → Text → TaskRunRow → Target
  target_of_row head tail row = elim (t.parse row.metadata_json) [
    | none ↦ refused (text "invalid metadata json for node: " ++ head)
    | some meta ↦ elim (member (text "run_id") meta) [
      | none ↦ refused (text "next_runid not found for node: " ++ head)
      | some v ↦ elim (c.get_text v) [
        | none ↦ broken
        | some next_run ↦
            if is_empty row.worker_id
            then local tail next_run
            else elim (find_worker row.worker_id (list_workers s.workers)) [
              | none ↦ refused (text "worker not found or offline: " ++ row.worker_id)
              | some w ↦
                  if is_alive s.now w
                  then remote w tail next_run
                  else refused (text "worker not alive: " ++ row.worker_id)
            ]
      ]
    ]
  ]

  unfoldable pub resolve_proxy_target : Text → Text → Target
  resolve_proxy_target run_id path =
      if is_empty path
      then local [] run_id
      else let (head, tail) = split_path path in
        elim (s.task_run run_id head) [
          | none ↦
              refused (text "remote logical node not found: " ++ head ++ text " in run: " ++ run_id)
          | some row ↦ target_of_row head tail row
        ]

  -- The loop `while (true)` of the handlers.
  unfoldable pub resolve : ℕ → Text → Text → Found
  resolve zero run_id path = out_of_fuel
  resolve (suc fuel) run_id path = elim (resolve_proxy_target run_id path) [
    | refused e ↦ not_there e
    | broken ↦ failed
    | remote w left next_run ↦ at_worker w left next_run
    | local [] next_run ↦ here next_run
    | local (x ∷ xs) next_run ↦ resolve fuel next_run (x ∷ xs)
  ]

-- The parameters of a request to a worker, but for those that the search has used up.
unfoldable pub query_text : List Text → List (Text × Text) → Text → Text
query_text dropped [] query = query
query_text dropped ((k, v) ∷ ps) query =
    if contains_text k dropped
    then query_text dropped ps query
    else query_text dropped ps
        ((if is_empty query then [] else query ++ text "&") ++ k ++ text "=" ++ v)

abbrev pub used_params : List Text
used_params = text "remote_path" ∷ text "worker_id" ∷ text "run_id" ∷ []

unfoldable pub forward_path : Text → Request → Text → Text → Text
forward_path path req left next_run =
    let kept = query_text used_params req.params [] in
    path
    ++ text "?"
    ++ (if is_empty kept then [] else kept ++ text "&")
    ++ text "remote_path="
    ++ left
    ++ text "&run_id="
    ++ next_run

-- A copy of a request for another run. The parameters go one by one to a new multimap.
unfoldable pub replace_run_id : Text → List (Text × Text) → List (Text × Text) → List (Text × Text)
replace_run_id run_id [] copied = copied
replace_run_id run_id ((k, v) ∷ ps) copied =
    replace_run_id run_id ps (emplace_param k (if k =? text "run_id" then run_id else v) copied)

unfoldable pub make_request_with_modified_runid : Request → Text → Request
make_request_with_modified_runid req run_id =
    let ps = replace_run_id run_id req.params [] in
    record req {
      params =
          if has_param (text "run_id") req then ps else emplace_param (text "run_id") run_id ps;
    }

module _ (t : TextCalls) (c : JsonCalls) (s : Server)
    (get : WorkerInfo → Text → Option Response) where
  -- The worker's answer is passed on.
  unfoldable pub proxy_forward : WorkerInfo → Text → Text → Text → Request → Response
  proxy_forward w left next_run path req = elim (get w (forward_path path req left next_run)) [
    | none ↦ respond_error c (pos 502) (text "proxy forward failed: no response") (pos 502)
    | some r ↦ r
  ]

  unfoldable pub proxy_found : Text → (Request → Answer) → Request → Found → Answer
  proxy_found path query req (here run_id) = query (make_request_with_modified_runid req run_id)
  proxy_found path query req (at_worker w left next_run) =
      answered (proxy_forward w left next_run path req)
  proxy_found path query req (not_there e) = answered (respond_error c (pos 404) e (pos 404))
  proxy_found path query req failed = thrown
  proxy_found path query req out_of_fuel = thrown

  -- `workers_proxy_task_runs` and `workers_proxy_task_events`: a path, and the query of this server.
  unfoldable pub workers_proxy : Text → (Request → Answer) → Request → Answer
  workers_proxy path query req =
      let remote_path = param_value (text "remote_path") req in
      proxy_found path query req
        (resolve t c s (fuel_for remote_path) (param_value (text "run_id") req) remote_path)

  -- An older form names the worker, and no path.
  unfoldable pub workers_proxy_logs : (Request → Answer) → Request → Answer
  workers_proxy_logs query req =
      if has_param (text "worker_id") req && is_empty (param_value (text "remote_path") req)
      then elim (find_worker (param_value (text "worker_id") req) (list_workers s.workers)) [
        | none ↦ answered (respond_error c (pos 404) (text "worker not found or dead") (pos 404))
        | some w ↦
            if is_alive s.now w
            then answered (proxy_forward w [] [] (text "/api/tasks/logs") req)
            else answered (respond_error c (pos 404) (text "worker not found or dead") (pos 404))
      ]
      else workers_proxy (text "/api/workers/proxy/logs") query req
